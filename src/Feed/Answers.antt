-- ===== src/Feed/Answers.antt =====
-- The recovery server of a published stream: what it replays is what the handler's sequence lacks.
use binary_market_data_feed.Prelude.{
  ℕ, zero, suc, ◌+◌, ◌-◌, ◌^◌, ◌≤◌, ◌<◌, ◌≡◌, refl, ap, ◌∙◌, subst, some, List, [], ◌∷◌, ◌++◌,
  arith, length, All, Result, ok,
}
use binary_market_data_feed.Map.{find, find-put}
use binary_market_data_feed.Wire.Packet.RoundTrip.{length-packet_image}
use binary_market_data_feed.History.{PacketHistory, empty_history, store}
use binary_market_data_feed.History.Lookup.{stored, from_to, stored_all}
use binary_market_data_feed.Channel.{Socket, SocketError}
use binary_market_data_feed.Recovery.{request_bytes, serve_request, request_packets}
use binary_market_data_feed.Recovery.Conversation.{Connected}
use binary_market_data_feed.Recovery.Packets.{IsReplayable, reply_bytes}
use binary_market_data_feed.Recovery.RoundTrip.{request_packets-serve_request}
use binary_market_data_feed.Feed.Stream.{Publication, image_of, IsPublication}
use binary_market_data_feed.Feed.Sequence.{range}

-- The publisher's calls of `store`: packet 1, then 2, up to `n`.
unfoldable pub history_upto : (ℕ → Publication) → ℕ → PacketHistory
history_upto stream zero = empty_history
history_upto stream (suc n) = store (history_upto stream n) (suc n) (image_of stream (suc n))

find-history_upto :
    (stream : ℕ → Publication) (n k : ℕ)
    → 1 ≤ k
    → k ≤ n
    → find k (history_upto stream n).packets ≡ some (image_of stream k)
unfolding history_upto store
find-history_upto stream zero k l h = absurd (omega arith)
find-history_upto stream (suc n) k l h = ground (
  arith,
  find-put k (suc n) (image_of stream (suc n)) (history_upto stream n).packets,
  find-history_upto stream n k l,
)

from_to-range :
    (stream : ℕ → Publication) (k count : ℕ)
    → from_to (image_of stream) k count ≡ range stream k count
unfolding from_to range
from_to-range stream k zero = refl
from_to-range stream k (suc count) =
    ap (◌∷◌ (image_of stream k)) (from_to-range stream (suc k) count)

pub stored-history_upto :
    (stream : ℕ → Publication) (n k count : ℕ)
    → 1 ≤ k
    → k + count ≤ n + 1
    → stored (history_upto stream n) k count ≡ range stream k count
stored-history_upto stream n k count l h =
    stored_all (history_upto stream n) (image_of stream) k count
      (λ i below. find-history_upto stream n (k + i) (omega arith) (omega arith))
    ∙ from_to-range stream k count

range-IsReplayable :
    (stream : ℕ → Publication) (k count : ℕ)
    → ((i : ℕ) → IsPublication (stream i))
    → ((i : ℕ) → length (stream i).messages ≤ 170)
    → All IsReplayable (range stream k count)
unfolding range image_of
range-IsReplayable stream k zero published small = tt
range-IsReplayable stream k (suc count) published small =
    let size =
      length-packet_image k (stream k).publish_tsc (stream k).messages (published k).fits in
    (
      (omega (arith, size), omega (arith, size, small k)),
      range-IsReplayable stream (suc k) count published small,
    )

-- Server and client return, the client with these packets, and both streams are read to where the
-- other's request or reply ends.
abbrev pub Replays :
    PacketHistory
    → Result SocketError Socket
    → (start_seq end_seq : ℕ) (server client : Socket) → List (List ℕ)
    → Type 0
Replays h connect start_seq end_seq server client packets =
    (server' : Socket) × (client' : Socket) × (serve_request h server ≡ ok (some server'))
    × (request_packets connect start_seq end_seq (record { connection = some client })
        ≡ ok (packets, record { connection = some client' }))
    × (server.incoming ≡ client'.sent ++ server'.incoming)
    × (client.incoming ≡ server'.sent ++ client'.incoming)

-- For a published stream of which every packet was stored and has at most 170 messages, a request for
-- packets `start_seq` to `end_seq` that were published gives exactly these packets, in order, on a
-- connection with no failing call and enough of them where each side reads what the other sends.
-- This is the answer that the handler's replay waits for.
pub request_packets-stream :
    (stream : ℕ → Publication)
    → ((i : ℕ) → IsPublication (stream i))
    → ((i : ℕ) → length (stream i).messages ≤ 170)
    → (connect : Result SocketError Socket) (last start_seq end_seq : ℕ) (server client : Socket)
      (later_requests later_replies : List ℕ)
    → 1 ≤ start_seq
    → start_seq ≤ end_seq
    → end_seq ≤ last
    → last < 2 ^ 32
    → let packets = range stream start_seq (end_seq - start_seq + 1) in
      Connected server
        (request_bytes start_seq end_seq ++ later_requests)
        []
        8
        (length (reply_bytes packets))
      → Connected client (reply_bytes packets ++ later_replies) [] (length (reply_bytes packets)) 8
      → Replays (history_upto stream last) connect start_seq end_seq server client packets
request_packets-stream stream published small connect last start_seq end_seq server client
      later_requests later_replies l order r room =
    let h = history_upto stream last in
    let packets = range stream start_seq (end_seq - start_seq + 1) in
    let count : end_seq + 1 - start_seq ≡ end_seq - start_seq + 1 = omega arith in
    let same : stored h start_seq (end_seq + 1 - start_seq) ≡ packets =
      stored-history_upto stream last start_seq (end_seq + 1 - start_seq) l (omega arith)
      ∙ ap (range stream start_seq) count in
    subst
      (λ (ps : List (List ℕ)).
        All IsReplayable ps
        → Connected server (request_bytes start_seq end_seq ++ later_requests) [] 8
            (length (reply_bytes ps))
        → Connected client (reply_bytes ps ++ later_replies) [] (length (reply_bytes ps)) 8
        → Replays h connect start_seq end_seq server client ps)
      same
      (request_packets-serve_request h connect start_seq end_seq server client later_requests
        later_replies order (omega arith) (omega arith))
      (range-IsReplayable stream start_seq (end_seq - start_seq + 1) published small)
