-- ===== src/Recovery/Refusals.antt =====
-- Replies that request_packets refuses.
use binary_market_data_feed.Prelude.{
  ℕ, suc, ◌+◌, ◌-◌, ◌^◌, ◌≤◌, ◌<◌, ◌≡◌, ◌⊎◌, ◌||◌, refl, true, some, List, [], ◌++◌, arith, ltb,
  lt→ltb, le→ltb, ◌==◌, length, Result, ok, err,
}
use binary_market_data_feed.Wire.Bytes.{le_value, bswap}
use binary_market_data_feed.Channel.{Socket, SocketError, send_all}
use binary_market_data_feed.Recovery.{
  server_closed, closed_during_replay, too_many_packets, invalid_packet_size, request_bytes,
  response_bytes, frame_bytes, on_socket, recv_or_throw, receive_packets, ensure_connected,
  request_packets,
}
use binary_market_data_feed.Recovery.Conversation.{Connected, send_next, fewer}
use binary_market_data_feed.Recovery.Packets.{
  length-response_bytes, length-frame_bytes, read_back, recv_or_throw_next,
}
use binary_market_data_feed.Recovery.RoundTrip.{length-request_bytes}

-- What request_packets does once it has sent its request and read the number of packets.
after_response :
    (connect : Result SocketError Socket) (start_seq end_seq count : ℕ) (rest : List ℕ) (s : Socket)
    (r : ℕ)
    → count < 2 ^ 32
    → Connected s (response_bytes count ++ rest) [] (4 + r) 8
    → (s' : Socket) × (s'' : Socket) × (send_all (request_bytes start_seq end_seq) s ≡ ok s')
      × (recv_or_throw server_closed 4 s' ≡ ok (response_bytes count, s''))
      × Connected s'' rest (request_bytes start_seq end_seq) r 0
      × (bswap 4 (le_value (response_bytes count)) ≡ count)
unfolding response_bytes
after_response connect start_seq end_seq count rest s r few c =
    let request = request_bytes start_seq end_seq in
    let (s', e, c') = send_next s request (response_bytes count ++ rest) [] (4 + r) 0 (
      fewer s _ [] (4 + r) 8 (4 + r) (length request + 0) c (omega arith)
        (omega (arith, length-request_bytes start_seq end_seq))) in
    let (s'', f, c'') =
      recv_or_throw_next server_closed 4 s' (response_bytes count) rest request r 0
        (length-response_bytes count) c' in
    (s', s'', e, f, c'', read_back 4 count few)

-- request_packets throws at a reply that announces more packets than the range has numbers.
pub refuses_too_many :
    (connect : Result SocketError Socket) (start_seq end_seq count : ℕ) (rest : List ℕ) (s : Socket)
    → start_seq ≤ end_seq
    → end_seq - start_seq + 1 < count
    → count < 2 ^ 32
    → Connected s (response_bytes count ++ rest) [] 4 8
    → request_packets connect start_seq end_seq (record { connection = some s })
      ≡ err too_many_packets
unfolding request_packets ensure_connected on_socket
refuses_too_many connect start_seq end_seq count rest s order many few c =
    let (s', s'', e, f, _, reads) = after_response connect start_seq end_seq count rest s 0 few c in
    rw (le→ltb end_seq start_seq order, e, f, reads, lt→ltb (end_seq - start_seq + 1) count many)
      refl

refuses_frame :
    (left size : ℕ) (rest sent : List ℕ) (s : Socket)
    → (size ≡ 0) ⊎ (4096 < size)
    → size < 2 ^ 16
    → Connected s (frame_bytes size ++ rest) sent 2 0
    → receive_packets (suc left) [] s ≡ err invalid_packet_size
unfolding receive_packets frame_bytes
refuses_frame left size rest sent s bad few c =
    let (s', e, c') =
      recv_or_throw_next closed_during_replay 2 s (frame_bytes size) rest sent 0 0
        (length-frame_bytes size) c in
    let out : ((size == 0) || ltb 4096 size) ≡ true = ground arith in
    rw (e, read_back 2 size few, out) refl

-- request_packets throws at a reply whose first packet is announced with no bytes, or with more than
-- 4096.
pub refuses_size :
    (connect : Result SocketError Socket) (start_seq end_seq left size : ℕ) (rest : List ℕ)
    (s : Socket)
    → start_seq + left ≤ end_seq
    → end_seq < 2 ^ 32
    → suc left < 2 ^ 32
    → (size ≡ 0) ⊎ (4096 < size)
    → size < 2 ^ 16
    → Connected s (response_bytes (suc left) ++ (frame_bytes size ++ rest)) [] 6 8
    → request_packets connect start_seq end_seq (record { connection = some s })
      ≡ err invalid_packet_size
unfolding request_packets ensure_connected on_socket
refuses_size connect start_seq end_seq left size rest s order b count bad few c =
    let (s', s'', e, f, c'', reads) =
      after_response connect start_seq end_seq (suc left) (frame_bytes size ++ rest) s 2 count c in
    let refused = refuses_frame left size rest (request_bytes start_seq end_seq) s'' bad few c'' in
    rw
      (
        le→ltb end_seq start_seq (omega arith),
        e,
        f,
        reads,
        le→ltb (end_seq - start_seq + 1) (suc left) (omega arith),
        refused,
      )
      refl
