-- ===== src/Feed/Sequence.antt =====
-- The handler along a published stream: the packet that is due, a replayed range, and the drain.
use binary_market_data_feed.Prelude.{
  ℕ, zero, suc, ◌+◌, ◌^◌, ◌≤◌, ◌<◌, ◌≡◌, refl, ap, some, List, [], ◌∷◌, arith, length, ok, ◌>>=◌,
  ==-refl,
}
use binary_market_data_feed.Map.{Map}
use binary_market_data_feed.Wire.Structs.{
  PacketHeader, make_packet_header, decode_seq_num, decode_msg_count, decode_publish_tsc,
}
use binary_market_data_feed.Wire.Fields.{decode-make_packet_header}
use binary_market_data_feed.Wire.Packet.{PacketView, parse_packet}
use binary_market_data_feed.Wire.Packet.Writing.{images}
use binary_market_data_feed.Wire.Packet.Reading.{
  packet_view, parse_packet-packet_image, message_at-packet_view,
}
use binary_market_data_feed.Feed.{
  PacketSource, Feed, Setup, apply_messages, finish_packet, process_parsed, process_packet_bytes,
}
use binary_market_data_feed.Feed.Stream.{
  Publication, image_of, book_upto, IsPublication, At, Ends, Ends-bind, Covers, apply_messages_all,
  finish_packet-At,
}

pub parsed_image :
    (stream : ℕ → Publication) (k : ℕ)
    → IsPublication (stream k)
    → parse_packet (image_of stream k)
      ≡ some (packet_view k (stream k).messages (stream k).publish_tsc)
unfolding image_of
parsed_image stream k p =
    parse_packet-packet_image k (stream k).publish_tsc (stream k).messages p.fits p.few

abbrev shown : PacketHeader → List ℕ → PacketView
shown header body = record { header = some header; message_bytes = body }

process_packet_bytes_lem :
    (setup : Setup) (source : PacketSource) (bytes : List ℕ) (header : PacketHeader) (body : List ℕ)
    (k publish_tsc count : ℕ) (s : Feed)
    → parse_packet bytes ≡ some (shown header body)
    → decode_seq_num header ≡ k
    → decode_msg_count header ≡ count
    → decode_publish_tsc header ≡ publish_tsc
    → s.expected_packet_seq ≡ k
    → process_packet_bytes setup source bytes s ≡ (
        apply_messages setup source (shown header body) k publish_tsc count 0 s >>= λ s'.
        ok (finish_packet setup source k publish_tsc s'))
unfolding process_packet_bytes process_parsed
process_packet_bytes_lem setup source bytes header body k publish_tsc count s parsed seq n tsc due =
    rw (parsed, seq, n, tsc, due, ==-refl)

-- The published range of `count` packets from `k` on.
unfoldable pub range : (ℕ → Publication) → ℕ → ℕ → List (List ℕ)
range stream k zero = []
range stream k (suc count) = image_of stream k ∷ range stream (suc k) count

pub length-range : (stream : ℕ → Publication) (k count : ℕ) → length (range stream k count) ≡ count
unfolding range
length-range stream k zero = refl
length-range stream k (suc count) = ap suc (length-range stream (suc k) count)

module _ (setup : Setup) (unlimited : setup.messages ≡ 0) (stream : ℕ → Publication) (last : ℕ)
    (published : (k : ℕ) → k ≤ last → IsPublication (stream k)) (room : last + 1 < 2 ^ 32) where
  -- The packet that is due is applied whole, from whatever source it comes.
  pub process_due :
      (source : PacketSource) (n : ℕ) (s : Feed) (buffer : Map (List ℕ))
      → suc n ≤ last
      → At s (book_upto stream n) buffer (suc n)
      → Ends
          (process_packet_bytes setup source (image_of stream (suc n)) s)
          (book_upto stream (suc n))
          buffer
          (suc (suc n))
  unfolding book_upto
  process_due source n s buffer h a =
      let p = published (suc n) h in
      let ms = (stream (suc n)).messages in
      let tsc = (stream (suc n)).publish_tsc in
      let header = make_packet_header (suc n) (length ms) tsc in
      let (seq, count, stamp) =
        decode-make_packet_header (suc n) (length ms) tsc (omega arith) (omega (arith, p.few))
          p.tsc in
      let covers : Covers (packet_view (suc n) ms tsc) 0 ms = λ i m e.
        let from_start : 0 + i ≡ i = omega arith in
        rw from_start (message_at-packet_view (suc n) tsc ms i m p.fits p.parsable p.few e) in
      let applied =
        apply_messages_all setup unlimited source (packet_view (suc n) ms tsc) (suc n) tsc 0 ms s
          (book_upto stream n) buffer (suc n) covers a in
      rw
        (process_packet_bytes_lem setup source (image_of stream (suc n)) header (images ms) (suc n)
          tsc (length ms) s (parsed_image stream (suc n) p) seq count stamp a.seq_is)
        (Ends-bind applied (λ s' a'. (
          finish_packet setup source (suc n) tsc s',
          refl,
          finish_packet-At setup unlimited source (suc n) tsc s' _ buffer (suc n) (omega arith) a',
        )))
