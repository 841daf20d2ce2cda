-- ===== src/Feed/Examples.antt =====
-- A stream of one order per packet, and the handler on it.
use binary_market_data_feed.Prelude.{
  ℕ, zero, suc, ◌+◌, ◌-◌, ◌≤◌, ◌≡◌, refl, none, some, List, [], ◌∷◌, ◌++◌, map, arith, length,
  replicate, err, inl, inr, Meets,
}
use binary_market_data_feed.Wire.Structs.{buy, add_msg, make_add_order_msg}
use binary_market_data_feed.Wire.Fields.{make_add_order_msg-IsSendable}
use binary_market_data_feed.Wire.Packet.{parse_packet}
use binary_market_data_feed.Wire.Bytes.{le_bytes}
use binary_market_data_feed.Wire.Layout.{header_bytes, message_bytes}
use binary_market_data_feed.Wire.Packet.Writing.{images}
use binary_market_data_feed.Channel.{Socket, blocked, ready, sends}
use binary_market_data_feed.Channel.Transfer.{IsOpen}
use binary_market_data_feed.Recovery.{request_bytes, response_bytes, frame_bytes}
use binary_market_data_feed.Recovery.Conversation.{Connected}
use binary_market_data_feed.Recovery.Packets.{frames, reply_bytes}
use binary_market_data_feed.Feed.{Setup, start, receive_all}
use binary_market_data_feed.Feed.Stream.{Publication, IsPublication, image_of, At, Ends, book_upto}
use binary_market_data_feed.Feed.Sequence.{range}
use binary_market_data_feed.Feed.Delivery.{
  Arrival, noise, packet, datagram, highest, receive_all_delivers,
}
use binary_market_data_feed.Udp.{receive_buffer_size}
use binary_market_data_feed.Wire.Packet.RoundTrip.{length-packet_image}
use binary_market_data_feed.Feed.Loop.{run}
use binary_market_data_feed.Feed.Keeping.{IsReal}
use binary_market_data_feed.Feed.Counters.{IsCounted}
use binary_market_data_feed.Feed.Running.{run-IsCounted}
use binary_market_data_feed.Feed.Wakes.{
  Wake, signal, arrived, arrivals_of, together, outcome_of, AreWakes, Comes,
}
use binary_market_data_feed.Feed.Catchup.{run_catches_up}
use binary_market_data_feed.Feed.Answers.{history_upto, Replays, request_packets-stream}

abbrev stream : ℕ → Publication
stream k = record { messages = add_msg (make_add_order_msg k buy 9990 50) ∷ []; publish_tsc = 5 }

stream-IsPublication : (k : ℕ) → IsPublication (stream k)
stream-IsPublication k = record {
  fits = ((make_add_order_msg-IsSendable k buy 9990 50).0, tt);
  parsable = ((make_add_order_msg-IsSendable k buy 9990 50).1, tt);
  few = omega arith;
  tsc = omega arith;
}

abbrev setup : Setup
setup = record {
  messages = 0;
  read_tsc = λ n. n;
  add_long_double = λ a b. a + b;
  request_packets = λ _ a b. some (range stream a (b - a + 1));
}

empty_is_noise : parse_packet [] ≡ none
unfolding parse_packet
empty_is_noise = refl

start-At : At start (book_upto stream 0) [] 1
unfolding book_upto
start-At = record { book_is = refl; buffer_is = refl; seq_is = refl }

abbrev arrivals : List Arrival
arrivals = noise [] ∷ packet 3 ∷ packet 1 ∷ packet 4 ∷ []

receive_all_delivers_example :
    Ends
      (receive_all setup (map (datagram stream) arrivals) start)
      (book_upto stream (highest 0 arrivals))
      []
      (suc (highest 0 arrivals))
receive_all_delivers_example =
    receive_all_delivers setup refl stream 10 (λ k h. stream-IsPublication k) (omega arith)
      (λ requests a b l m r. refl) 0 arrivals start (omega arith)
      (empty_is_noise, (omega arith, (omega arith, (omega arith, tt)))) start-At

-- A connection with 100 calls in each direction.
abbrev connection_with : List ℕ → Socket
connection_with incoming = record {
  incoming = incoming;
  recv_outcomes = replicate 100 (ready 0);
  sent = [];
  send_outcomes = replicate 100 (sends 1);
}

calls-IsOpen : (n : ℕ) → IsOpen (replicate n (sends 1))
calls-IsOpen zero = tt
calls-IsOpen (suc n) = (omega arith, calls-IsOpen n)

connection_with-Connected :
    (incoming : List ℕ) (r t : ℕ)
    → r ≤ 100
    → t ≤ 100
    → Connected (connection_with incoming) incoming [] r t
connection_with-Connected incoming r t few few' = record {
  incoming_is = refl;
  sent_is = refl;
  up = tt;
  open_out = calls-IsOpen 100;
  reads = omega arith;
  sends = omega arith;
}

reply_size : length (reply_bytes (range stream 2 2)) ≤ 100
unfolding range image_of frames response_bytes frame_bytes images header_bytes message_bytes
    le_bytes make_add_order_msg
reply_size = omega arith

request_packets-stream_example :
    let server : Socket = connection_with (request_bytes 2 3 ++ []) in
    let client : Socket = connection_with (reply_bytes (range stream 2 2) ++ []) in
    Replays (history_upto stream 5) (err blocked) 2 3 server client (range stream 2 2)
request_packets-stream_example =
    request_packets-stream stream stream-IsPublication (λ i. omega arith) (err blocked) 5 2 3
      (connection_with (request_bytes 2 3 ++ []))
      (connection_with (reply_bytes (range stream 2 2) ++ [])) [] [] (omega arith) (omega arith)
      (omega arith) (omega arith) (connection_with-Connected _ 8 _ (omega arith) reply_size)
      (connection_with-Connected _ _ 8 reply_size (omega arith))

-- Events and wake-ups: a gap after a signal, then the packets before it.
abbrev wakes : List Wake
wakes =
    signal
    ∷ arrived ((noise [] ∷ packet 3 ∷ []) ∷ [])
    ∷ arrived ((packet 1 ∷ []) ∷ (packet 4 ∷ []) ∷ [])
    ∷ []

image_size : (k : ℕ) → length (image_of stream k) ≤ receive_buffer_size
unfolding image_of
image_size k =
    omega (arith, length-packet_image k 5 (stream k).messages (stream-IsPublication k).fits)

wakes-AreWakes : AreWakes stream 4 wakes
unfolding datagram
wakes-AreWakes = (
  (((empty_is_noise, ((omega arith, omega arith), tt)), (omega arith, (image_size 3, tt))), tt),
  (
    (
      (((omega arith, omega arith), tt), (image_size 1, tt)),
      ((((omega arith, omega arith), tt), (image_size 4, tt)), tt),
    ),
    tt,
  ),
)

wakes-Comes : Comes 4 (arrivals_of wakes)
unfolding arrivals_of together
wakes-Comes = inr (inr (inl refl))

run_catches_up_example :
    Ends (run setup (map (outcome_of stream) wakes) start) (book_upto stream 4) [] 5
run_catches_up_example =
    run_catches_up setup refl stream 4 (λ k h. stream-IsPublication k) (omega arith)
      (λ requests a b l m r. refl) wakes wakes-AreWakes wakes-Comes

-- A limit of two messages.
abbrev limited : Setup
limited = record setup { messages = 2 }

run-IsCounted_example :
    Meets (IsCounted limited) IsReal (run limited (map (outcome_of stream) wakes) start)
run-IsCounted_example = run-IsCounted limited (map (outcome_of stream) wakes) (λ a b small. refl)
