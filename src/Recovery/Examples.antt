-- ===== src/Recovery/Examples.antt =====
-- A client that asks for two packets, on a connection that hands over one byte at a time.
use binary_market_data_feed.Prelude.{
  ℕ, zero, suc, ◌≤◌, ◌≡◌, inr, refl, some, List, [], ◌∷◌, ◌++◌, arith, length, replicate, All,
  Result, err, ok, Bool, false, ◌+◌, ◌*◌,
}
use binary_market_data_feed.Map.{find, put}
use binary_market_data_feed.Wire.Bytes.{le_bytes}
use binary_market_data_feed.History.{PacketHistory, empty_history, store, push_found}
use binary_market_data_feed.History.Lookup.{stored}
use binary_market_data_feed.Channel.{
  Socket, SocketError, blocked, ready, sends, recv_failed, recv_error, recv_loop, recv_exact_or_eof,
}
use binary_market_data_feed.Channel.Transfer.{IsOpen}
use binary_market_data_feed.Recovery.{
  request_bytes, response_bytes, frame_bytes, serve_request, request_packets, invalid_packet_size,
  socket_error, on_socket, client_left, handle_client,
}
use binary_market_data_feed.Recovery.Conversation.{Connected}
use binary_market_data_feed.Recovery.Packets.{IsReplayable, frames, reply_bytes}
use binary_market_data_feed.Recovery.RoundTrip.{request_packets-serve_request}
use binary_market_data_feed.Recovery.Server.{Round, poll_interrupted, idle, accepted, waiting, run}
use binary_market_data_feed.Recovery.Serving.{
  Request, IsServableThen, turns_of, all_requests, all_replies, serves_session,
}
use binary_market_data_feed.Recovery.Refusals.{refuses_size}

abbrev history : PacketHistory
history = store (store empty_history 7 (70 ∷ [])) 8 (80 ∷ 81 ∷ [])

abbrev replayed : List (List ℕ)
replayed = stored history 7 2

replayed-IsReplayable : All IsReplayable replayed
unfolding stored push_found store find put
replayed-IsReplayable = ((omega arith, omega arith), ((omega arith, omega arith), tt))

-- A connection on which each call transfers up to three bytes.
abbrev connection_with : List ℕ → Socket
connection_with incoming = record {
  incoming = incoming;
  recv_outcomes = replicate 12 (ready 2);
  sent = [];
  send_outcomes = replicate 12 (sends 3);
}

refused : Result SocketError Socket
refused = err blocked

calls-IsOpen : (n : ℕ) → IsOpen (replicate n (sends 3))
calls-IsOpen zero = tt
calls-IsOpen (suc n) = (omega arith, calls-IsOpen n)

connection_with-Connected :
    (incoming : List ℕ) (r t : ℕ)
    → r ≤ 12
    → t ≤ 12
    → Connected (connection_with incoming) incoming [] r t
connection_with-Connected incoming r t few few' = record {
  incoming_is = refl;
  sent_is = refl;
  up = tt;
  open_out = calls-IsOpen 12;
  reads = omega arith;
  sends = omega arith;
}

reply_size : length (reply_bytes replayed) ≤ 12
unfolding stored push_found store find put frames response_bytes frame_bytes le_bytes
reply_size = omega arith

request_packets-serve_request_example :
    let server : Socket = connection_with (request_bytes 7 8 ++ []) in
    let client : Socket = connection_with (reply_bytes replayed ++ []) in
    (server' : Socket) × (client' : Socket) × (serve_request history server ≡ ok (some server'))
    × (request_packets refused 7 8 (record { connection = some client })
        ≡ ok (replayed, record { connection = some client' }))
    × (server.incoming ≡ client'.sent ++ server'.incoming)
    × (client.incoming ≡ server'.sent ++ client'.incoming)
request_packets-serve_request_example =
    request_packets-serve_request history refused 7 8 (connection_with (request_bytes 7 8 ++ []))
      (connection_with (reply_bytes replayed ++ [])) [] [] (omega arith) (omega arith) (omega arith)
      replayed-IsReplayable (connection_with-Connected _ 8 _ (omega arith) reply_size)
      (connection_with-Connected _ _ 8 reply_size (omega arith))

refuses_size_example :
    request_packets refused 7 8 (record {
      connection = some (connection_with (response_bytes 1 ++ (frame_bytes 4118 ++ [])));
    })
    ≡ err invalid_packet_size
refuses_size_example =
    refuses_size refused 7 8 0 4118 []
      (connection_with (response_bytes 1 ++ (frame_bytes 4118 ++ []))) (omega arith) (omega arith)
      (omega arith) (inr (omega arith)) (omega arith)
      (connection_with-Connected _ 6 8 (omega arith) (omega arith))

-- A client with two requests, between which one more packet is stored.
abbrev ranges : List Request
ranges = (history, (7, 8)) ∷ (store history 9 (90 ∷ []), (8, 9)) ∷ []

abbrev caller : Socket
caller = record {
  incoming = all_requests ranges;
  recv_outcomes = replicate 40 (ready 2);
  sent = [];
  send_outcomes = replicate 40 (sends 3);
}

later-IsReplayable : All IsReplayable (stored (store history 9 (90 ∷ [])) 8 2)
unfolding stored push_found store find put
later-IsReplayable = ((omega arith, omega arith), ((omega arith, omega arith), tt))

ranges-IsServable : All IsServableThen ranges
unfolding stored push_found store find put
ranges-IsServable = (
  (omega arith, omega arith, replayed-IsReplayable, omega arith),
  ((omega arith, omega arith, later-IsReplayable, omega arith), tt),
)

all_replies_size : length (all_replies ranges) ≤ 40
unfolding all_replies stored push_found store find put frames response_bytes frame_bytes le_bytes
all_replies_size = omega arith

caller-Connected :
    Connected caller (all_requests ranges) [] (length ranges * 8 + 1) (length (all_replies ranges))
caller-Connected = record {
  incoming_is = refl;
  sent_is = refl;
  up = tt;
  open_out = calls-IsOpen 40;
  reads = omega arith;
  sends = all_replies_size;
}

-- Before it, a signal, and a client whose first read fails.
abbrev rounds_before : List Round
rounds_before =
    idle
    ∷ poll_interrupted
    ∷ accepted ((false, history) ∷ []) (record caller { recv_outcomes = recv_failed ∷ [] })
    ∷ []

serves_session_example :
    (client' : Socket) × ((turns : List (Bool × PacketHistory))
      → handle_client (turns_of ranges ++ turns) caller ≡ handle_client turns client')
    × (client'.sent ≡ all_replies ranges)
    × (run (rounds_before ++ accepted (turns_of ranges ++ (false, history) ∷ []) caller ∷ [])
        ≡ ((run rounds_before).0 ++ ok client_left ∷ [], waiting))
unfolding run
serves_session_example =
    serves_session ranges history caller rounds_before [] ranges-IsServable caller-Connected tt

fails_before : (run rounds_before).0 ≡ err (socket_error recv_error) ∷ []
unfolding run handle_client serve_request on_socket recv_exact_or_eof recv_loop
fails_before = refl
