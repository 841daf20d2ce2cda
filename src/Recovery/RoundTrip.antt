-- ===== src/Recovery/RoundTrip.antt =====
-- What handle_client sends for a request is what request_packets reads.
use binary_market_data_feed.Prelude.{
  ℕ, ◌+◌, ◌-◌, ◌^◌, ◌%◌, ◌≤◌, ◌<◌, ◌≡◌, refl, sym, subst, some, List, [], ◌++◌, append_assoc, arith,
  length, take, drop, All, length-append, take-append, drop-append, le→ltb, Result, ok,
}
use binary_market_data_feed.Wire.Bytes.{le_bytes, le_value, bswap, length-le_bytes}
use binary_market_data_feed.History.{PacketHistory, Loop, returned, lookup_range}
use binary_market_data_feed.History.Lookup.{stored, lookup_range_lem, length-stored-le}
use binary_market_data_feed.Channel.{Socket, SocketError, send_all, recv_exact_or_eof}
use binary_market_data_feed.Recovery.{
  server_closed, request_bytes, response_bytes, on_socket, reply, serve_request, recv_or_throw,
  receive_packets, ensure_connected, request_packets,
}
use binary_market_data_feed.Recovery.Conversation.{Connected, recv_next, send_next, fewer}
use binary_market_data_feed.Recovery.Packets.{
  IsReplayable, frames, reply_bytes, length-response_bytes, read_back, response_reads,
  send_packets_lem, recv_or_throw_next, receive_packets_lem,
}

pub length-request_bytes : (start_seq end_seq : ℕ) → length (request_bytes start_seq end_seq) ≡ 8
unfolding request_bytes
length-request_bytes start_seq end_seq = omega (
  arith,
  length-append (le_bytes 4 (bswap 4 start_seq)) (le_bytes 4 (bswap 4 end_seq)),
  length-le_bytes 4 (bswap 4 start_seq),
  length-le_bytes 4 (bswap 4 end_seq),
)

start_reads :
    (start_seq end_seq : ℕ)
    → start_seq < 2 ^ 32
    → bswap 4 (le_value (take 4 (request_bytes start_seq end_seq))) ≡ start_seq
unfolding request_bytes
start_reads start_seq end_seq h =
    rw
      (take-append 4 (le_bytes 4 (bswap 4 start_seq)) (le_bytes 4 (bswap 4 end_seq))
        (length-le_bytes 4 (bswap 4 start_seq)))
      (read_back 4 start_seq h)

end_reads :
    (start_seq end_seq : ℕ)
    → end_seq < 2 ^ 32
    → bswap 4 (le_value (drop 4 (request_bytes start_seq end_seq))) ≡ end_seq
unfolding request_bytes
end_reads start_seq end_seq h =
    rw
      (drop-append 4 (le_bytes 4 (bswap 4 start_seq)) (le_bytes 4 (bswap 4 end_seq))
        (length-le_bytes 4 (bswap 4 start_seq)))
      (read_back 4 end_seq h)

reply_lem :
    (packets : List (List ℕ)) (s : Socket) (incoming sent : List ℕ) (r t : ℕ)
    → All IsReplayable packets
    → length packets < 2 ^ 32
    → Connected s incoming sent r (length (reply_bytes packets) + t)
    → (s' : Socket) × (reply (returned packets) s ≡ ok s')
      × Connected s' incoming (sent ++ reply_bytes packets) r t
unfolding reply on_socket
reply_lem packets s incoming sent r t all few c =
    let response = response_bytes (length packets) in
    let size = length-append response (frames packets) in
    let count : length packets % 2 ^ 32 ≡ length packets = omega arith in
    let (s', e, c') = send_next s response incoming sent r (length (frames packets) + t) (
      fewer s incoming sent r (length (reply_bytes packets) + t) r
        (length response + (length (frames packets) + t)) c (omega arith) (omega (arith, size))) in
    let (end, f, done) = send_packets_lem packets s' incoming (sent ++ response) r t all c' in
    (
      end,
      rw (count, e) f,
      subst (λ (b : List ℕ). Connected end incoming b r t)
          (append_assoc sent response (frames packets)) done,
    )

serve_request_step :
    (h : PacketHistory) (start_seq end_seq : ℕ) (packets : Loop (List (List ℕ))) (s s' s'' : Socket)
    → start_seq < 2 ^ 32
    → end_seq < 2 ^ 32
    → recv_exact_or_eof 8 s ≡ ok (some (request_bytes start_seq end_seq), s')
    → lookup_range h start_seq end_seq ≡ packets
    → reply packets s' ≡ ok s''
    → serve_request h s ≡ ok (some s'')
unfolding serve_request on_socket
serve_request_step h start_seq end_seq packets s s' s'' a b e f g =
    rw (e, start_reads start_seq end_seq a, end_reads start_seq end_seq b, f, g) refl

-- The server answers a request with the number of the stored packets of the range, and then each
-- packet behind its size.
pub serve_request_lem :
    (h : PacketHistory) (start_seq end_seq : ℕ) (s : Socket) (rest sent : List ℕ) (r t : ℕ)
    → start_seq < 2 ^ 32
    → end_seq < 2 ^ 32
    → let packets = stored h start_seq (end_seq + 1 - start_seq) in
      All IsReplayable packets
      → length packets < 2 ^ 32
      → Connected s
          (request_bytes start_seq end_seq ++ rest)
          sent
          (8 + r)
          (length (reply_bytes packets) + t)
      → (s' : Socket) × (serve_request h s ≡ ok (some s'))
        × Connected s' rest (sent ++ reply_bytes packets) r t
serve_request_lem h start_seq end_seq s rest sent r t a b all count c =
    let packets = stored h start_seq (end_seq + 1 - start_seq) in
    let request = request_bytes start_seq end_seq in
    let width = length-request_bytes start_seq end_seq in
    let t' : ℕ = length (reply_bytes packets) + t in
    let (s', e, c') =
      recv_next s request rest sent r t'
        (subst (λ (n : ℕ). Connected s (request ++ rest) sent (n + r) t') (sym width) c) in
    let (s'', f, c'') = reply_lem packets s' rest sent r t all count c' in
    (
      s'',
      serve_request_step h start_seq end_seq (returned packets) s s' s'' a b
          (subst (λ (n : ℕ). recv_exact_or_eof n s ≡ ok (some request, s')) width e)
          (lookup_range_lem h start_seq end_seq b) f,
      c'',
    )

request_packets_step :
    (connect : Result SocketError Socket) (start_seq end_seq count : ℕ) (packets : List (List ℕ))
    (s s' s'' end : Socket)
    → start_seq ≤ end_seq
    → count ≤ end_seq - start_seq + 1
    → bswap 4 (le_value (response_bytes count)) ≡ count
    → send_all (request_bytes start_seq end_seq) s ≡ ok s'
    → recv_or_throw server_closed 4 s' ≡ ok (response_bytes count, s'')
    → receive_packets count [] s'' ≡ ok (packets, end)
    → request_packets connect start_seq end_seq (record { connection = some s })
      ≡ ok (packets, record { connection = some end })
unfolding request_packets ensure_connected on_socket
request_packets_step connect start_seq end_seq count packets s s' s'' end order few reads e f g =
    rw (le→ltb end_seq start_seq order, e, f, reads, le→ltb (end_seq - start_seq + 1) count few, g)
      refl

-- The client reads such an answer, and leaves the stream behind it.
pub request_packets_lem :
    (connect : Result SocketError Socket) (start_seq end_seq : ℕ) (packets : List (List ℕ))
    (s : Socket) (rest sent : List ℕ) (r t : ℕ)
    → start_seq ≤ end_seq
    → length packets ≤ end_seq - start_seq + 1
    → length packets < 2 ^ 32
    → All IsReplayable packets
    → Connected s (reply_bytes packets ++ rest) sent (length (reply_bytes packets) + r) (8 + t)
    → (s' : Socket) × (request_packets connect start_seq end_seq (record { connection = some s })
        ≡ ok (packets, record { connection = some s' }))
      × Connected s' rest (sent ++ request_bytes start_seq end_seq) r t
request_packets_lem connect start_seq end_seq packets s rest sent r t order few count all c =
    let request = request_bytes start_seq end_seq in
    let response = response_bytes (length packets) in
    let size = length-append response (frames packets) in
    let total : ℕ = length (reply_bytes packets) + r in
    let later : ℕ = length (frames packets) + r in
    let width = length-response_bytes (length packets) in
    let (s', e, c') = send_next s request (reply_bytes packets ++ rest) sent total t (
      fewer s _ sent total (8 + t) total (length request + t) c (omega arith)
        (omega (arith, length-request_bytes start_seq end_seq))) in
    let out = sent ++ request in
    let cut : Connected s' (response ++ (frames packets ++ rest)) out (4 + later) t =
      fewer s' _ out total t (4 + later) t
        (subst (λ (b : List ℕ). Connected s' b out total t)
          (append_assoc response (frames packets) rest) c')
        (omega (arith, size, width)) (omega arith) in
    let (s'', f, c'') =
      recv_or_throw_next server_closed 4 s' response (frames packets ++ rest) out later t width
        cut in
    let (end, g, done) = receive_packets_lem packets [] s'' rest out r t all c'' in
    (
      end,
      request_packets_step connect start_seq end_seq (length packets) packets s s' s'' end order few
          (response_reads packets count) e f g,
      done,
    )

-- A client and the server on one connection, with no failing call and enough of them: if the server
-- reads what the client sends and the client what the server sends, then handle_client's round
-- returns, request_packets returns the stored packets of the range in ascending order, and nothing is
-- left over in either direction. The range is not empty and not that of all 32-bit numbers, and each
-- stored packet has 1 to 4096 bytes.
pub request_packets-serve_request :
    (h : PacketHistory) (connect : Result SocketError Socket) (start_seq end_seq : ℕ)
    (server client : Socket) (later_requests later_replies : List ℕ)
    → start_seq ≤ end_seq
    → end_seq < 2 ^ 32
    → end_seq - start_seq + 1 < 2 ^ 32
    → let packets = stored h start_seq (end_seq + 1 - start_seq) in
      All IsReplayable packets
      → Connected server
          (request_bytes start_seq end_seq ++ later_requests)
          []
          8
          (length (reply_bytes packets))
      → Connected client (reply_bytes packets ++ later_replies) [] (length (reply_bytes packets)) 8
      → (server' : Socket) × (client' : Socket) × (serve_request h server ≡ ok (some server'))
        × (request_packets connect start_seq end_seq (record { connection = some client })
            ≡ ok (packets, record { connection = some client' }))
        × (server.incoming ≡ client'.sent ++ server'.incoming)
        × (client.incoming ≡ server'.sent ++ client'.incoming)
request_packets-serve_request h connect start_seq end_seq server client later_requests later_replies
      order b range all c d =
    let packets = stored h start_seq (end_seq + 1 - start_seq) in
    let few : length packets ≤ end_seq - start_seq + 1 =
      omega (arith, length-stored-le h start_seq (end_seq + 1 - start_seq)) in
    let n : ℕ = length (reply_bytes packets) in
    let (server', e, c') =
      serve_request_lem h start_seq end_seq server later_requests [] 0 0 (omega arith) b all
        (omega arith) (fewer server _ [] 8 n 8 (n + 0) c (omega arith) (omega arith)) in
    let (client', f, d') =
      request_packets_lem connect start_seq end_seq packets client later_replies [] 0 0 order few
        (omega arith) all (fewer client _ [] n 8 (n + 0) 8 d (omega arith) (omega arith)) in
    (
      server',
      client',
      e,
      f,
      rw (d'.sent_is, c'.incoming_is) c.incoming_is,
      rw (c'.sent_is, d'.incoming_is) d.incoming_is,
    )
