-- ===== src/Recovery/Packets.antt =====
-- The packets of a reply: what the server's loop sends, the client's loop reads.
use binary_market_data_feed.Prelude.{
  ℕ, suc, ◌+◌, ◌^◌, ◌%◌, ◌≤◌, ◌<◌, ◌≡◌, refl, sym, ap, ◌∙◌, subst, false, List, [], ◌∷◌, ◌++◌, ◌||◌,
  append_assoc, append-nil, arith, ltb, ◌==◌, length, All, length-append, ok,
}
use binary_market_data_feed.Wire.Bytes.{
  le_bytes, le_value, bswap, le_value-le_bytes, bswap-bswap, bswap-lt, length-le_bytes,
}
use binary_market_data_feed.Channel.{Socket, send_all}
use binary_market_data_feed.Recovery.{
  RecoveryError, closed_during_replay, response_bytes, frame_bytes, on_socket, send_packets,
  recv_or_throw, receive_packets,
}
use binary_market_data_feed.Recovery.Conversation.{Connected, recv_next, send_next, fewer}

-- A packet that the server sends and the client takes.
abbrev pub IsReplayable : List ℕ → Type 0
IsReplayable packet = (0 < length packet) × (length packet ≤ 4096)

unfoldable pub frames : List (List ℕ) → List ℕ
frames [] = []
frames (packet ∷ packets) = frame_bytes (length packet) ++ (packet ++ frames packets)

abbrev pub reply_bytes : List (List ℕ) → List ℕ
reply_bytes packets = response_bytes (length packets) ++ frames packets

pub length-frame_bytes : (n : ℕ) → length (frame_bytes n) ≡ 2
unfolding frame_bytes
length-frame_bytes n = length-le_bytes 2 (bswap 2 n)

pub length-response_bytes : (n : ℕ) → length (response_bytes n) ≡ 4
unfolding response_bytes
length-response_bytes n = length-le_bytes 4 (bswap 4 n)

-- A number that went out in network order is read back.
pub read_back : (k v : ℕ) → v < 256 ^ k → bswap k (le_value (le_bytes k (bswap k v))) ≡ v
read_back k v h = rw (le_value-le_bytes k (bswap k v) (bswap-lt k v)) (bswap-bswap k v h)

length-frames :
    (packet : List ℕ) (packets : List (List ℕ))
    → length (frames (packet ∷ packets)) ≡ 2 + (length packet + length (frames packets))
unfolding frames
length-frames packet packets = omega (
  arith,
  length-append (frame_bytes (length packet)) (packet ++ frames packets),
  length-append packet (frames packets),
  length-frame_bytes (length packet),
)

send_packets_step :
    (packet : List ℕ) (packets : List (List ℕ)) (s s' s'' : Socket)
    → IsReplayable packet
    → send_all (frame_bytes (length packet)) s ≡ ok s'
    → send_all packet s' ≡ ok s''
    → send_packets (packet ∷ packets) s ≡ send_packets packets s''
unfolding send_packets on_socket
send_packets_step packet packets s s' s'' (some_bytes, few) e f =
    let within : ((length packet == 0) || ltb 65535 (length packet)) ≡ false = ground arith in
    let size : length packet % 2 ^ 16 ≡ length packet = omega arith in rw (within, size, e, f) refl

pub send_packets_lem :
    (packets : List (List ℕ)) (s : Socket) (incoming sent : List ℕ) (r t : ℕ)
    → All IsReplayable packets
    → Connected s incoming sent r (length (frames packets) + t)
    → (s' : Socket) × (send_packets packets s ≡ ok s')
      × Connected s' incoming (sent ++ frames packets) r t
unfolding send_packets frames
send_packets_lem [] s incoming sent r t h c = (
  s,
  refl,
  subst (λ (b : List ℕ). Connected s incoming b r t) (sym (append-nil sent))
      (fewer s incoming sent r _ r t c (omega arith) (omega arith)),
)
send_packets_lem (packet ∷ packets) s incoming sent r t h c =
    let frame = frame_bytes (length packet) in
    let left : ℕ = length (frames packets) + t in
    let size = length-frames packet packets in
    let (s', e, c') = send_next s frame incoming sent r (length packet + left) (
      fewer s incoming sent r _ r _ c (omega arith)
        (omega (arith, size, length-frame_bytes (length packet)))) in
    let (s'', f, c'') = send_next s' packet incoming (sent ++ frame) r left c' in
    let (end, g, done) =
      send_packets_lem packets s'' incoming ((sent ++ frame) ++ packet) r t h.1 c'' in
    (
      end,
      send_packets_step packet packets s s' s'' h.0 e f ∙ g,
      subst (λ (b : List ℕ). Connected end incoming b r t) (simp append_assoc refl) done,
    )

pub recv_or_throw_next :
    (e : RecoveryError) (n : ℕ) (s : Socket) (bytes rest sent : List ℕ) (r t : ℕ)
    → length bytes ≡ n
    → Connected s (bytes ++ rest) sent (n + r) t
    → (s' : Socket) × (recv_or_throw e n s ≡ ok (bytes, s')) × Connected s' rest sent r t
unfolding recv_or_throw on_socket
recv_or_throw_next e n s bytes rest sent r t width c =
    let here = subst (λ (k : ℕ). Connected s (bytes ++ rest) sent (k + r) t) (sym width) c in
    let (s', got, c') = recv_next s bytes rest sent r t here in (s', rw (sym width, got) refl, c')

receive_packets_step :
    (packet : List ℕ) (left : ℕ) (got : List (List ℕ)) (s s' s'' : Socket)
    → IsReplayable packet
    → recv_or_throw closed_during_replay 2 s ≡ ok (frame_bytes (length packet), s')
    → recv_or_throw closed_during_replay (length packet) s' ≡ ok (packet, s'')
    → receive_packets (suc left) got s ≡ receive_packets left (got ++ packet ∷ []) s''
unfolding receive_packets frame_bytes
receive_packets_step packet left got s s' s'' (some_bytes, few) e f =
    let size : bswap 2 (le_value (le_bytes 2 (bswap 2 (length packet)))) ≡ length packet =
      read_back 2 (length packet) (omega arith) in
    let within : ((length packet == 0) || ltb 4096 (length packet)) ≡ false = ground arith in
    rw (e, size, within, f) refl

pub receive_packets_lem :
    (packets got : List (List ℕ)) (s : Socket) (rest sent : List ℕ) (r t : ℕ)
    → All IsReplayable packets
    → Connected s (frames packets ++ rest) sent (length (frames packets) + r) t
    → (s' : Socket) × (receive_packets (length packets) got s ≡ ok (got ++ packets, s'))
      × Connected s' rest sent r t
unfolding receive_packets frames
receive_packets_lem [] got s rest sent r t h c =
    (s, rw append-nil refl, fewer s rest sent _ t r t c (omega arith) (omega arith))
receive_packets_lem (packet ∷ packets) got s rest sent r t h c =
    let frame = frame_bytes (length packet) in
    let width = length-frame_bytes (length packet) in
    let left : ℕ = length (frames packets) + r in
    let later = frames packets ++ rest in
    let cut : (frame ++ (packet ++ frames packets)) ++ rest ≡ frame ++ (packet ++ later) =
      simp append_assoc refl in
    let all : ℕ = length (frames (packet ∷ packets)) + r in
    let c₀ =
      fewer s (frame ++ (packet ++ later)) sent all t (2 + (length packet + left)) t
        (subst (λ (b : List ℕ). Connected s b sent all t) cut c)
        (omega (arith, length-frames packet packets)) (omega arith) in
    let (s', e, c') =
      recv_or_throw_next closed_during_replay 2 s frame (packet ++ later) sent
        (length packet + left) t width c₀ in
    let (s'', f, c'') =
      recv_or_throw_next closed_during_replay (length packet) s' packet later sent left t refl c' in
    let (end, g, done) =
      receive_packets_lem packets (got ++ packet ∷ []) s'' rest sent r t h.1 c'' in
    (
      end,
      receive_packets_step packet (length packets) got s s' s'' h.0 e f
          ∙ (g ∙ ap (λ (p : List (List ℕ)). ok (p, end)) (append_assoc got (packet ∷ []) packets)),
      done,
    )

pub response_reads :
    (packets : List (List ℕ))
    → length packets < 2 ^ 32
    → bswap 4 (le_value (response_bytes (length packets))) ≡ length packets
unfolding response_bytes
response_reads packets h = read_back 4 (length packets) h
