-- ===== src/Wire/Packet/RoundTrip.antt =====
-- A packet that serialize_packet writes is read back by parse_packet and message_at.
use binary_market_data_feed.Prelude.{
  ℕ, ◌+◌, ◌*◌, ◌%◌, ◌^◌, ◌≤◌, ◌≡◌, sym, ap, ◌∙◌, some, List, [], ◌++◌, append-nil, arith, length,
  drop, replicate, All, length-append, length-drop, length-replicate, drop-append, le→ltb, ok,
}
use binary_market_data_feed.Wire.Bytes.{bswap-lt}
use binary_market_data_feed.Wire.Structs.{
  Side, Message, add_msg, modify_msg, delete_msg, trade_msg, side_from_char, make_packet_header,
}
use binary_market_data_feed.Wire.Layout.{header_bytes, IsHeader, IsMessage, length-header_bytes}
use binary_market_data_feed.Wire.Packet.{write_at, write_messages, serialize_packet}
use binary_market_data_feed.Wire.Packet.Writing.{
  images, length-images, write_at_end, write_messages_lem,
}

-- The type byte is that of the struct, and the side byte of an AddOrder is a side.
abbrev pub IsParsable : Message → Type 0
IsParsable (add_msg m) = (m.msg_type ≡ b'A') × (s : Side) × (side_from_char m.side ≡ some s)
IsParsable (modify_msg m) = m.msg_type ≡ b'M'
IsParsable (delete_msg m) = m.msg_type ≡ b'D'
IsParsable (trade_msg m) = m.msg_type ≡ b'T'

pub make_packet_header-IsHeader :
    (seq_num msg_count publish_tsc : ℕ)
    → IsHeader (make_packet_header seq_num msg_count publish_tsc)
unfolding make_packet_header
make_packet_header-IsHeader seq_num msg_count publish_tsc = record {
  seq_num = bswap-lt 4 seq_num;
  msg_count = bswap-lt 2 msg_count;
  publish_tsc = bswap-lt 8 publish_tsc;
}

-- The image of a packet: header, then messages.
abbrev pub packet_image : ℕ → List Message → ℕ → List ℕ
packet_image seq_num ms publish_tsc =
    header_bytes (make_packet_header seq_num (length ms) publish_tsc) ++ images ms

pub length-packet_image :
    (seq_num publish_tsc : ℕ) (ms : List Message)
    → All IsMessage ms
    → length (packet_image seq_num ms publish_tsc) ≡ 14 + length ms * 24
length-packet_image seq_num publish_tsc ms h =
    let header = make_packet_header seq_num (length ms) publish_tsc in
    omega (
      arith,
      length-append (header_bytes header) (images ms),
      length-header_bytes header,
      length-images ms h,
    )

drop_exact : (n : ℕ) (bs : List ℕ) → length bs ≡ n → drop n bs ≡ []
drop_exact n bs e = rw (sym (append-nil bs)) (drop-append n bs [] e)

-- The vector is exactly filled.
fill :
    (header : List ℕ) (ms : List Message)
    → All IsMessage ms
    → length header ≡ 14
    → write_messages (write_at (replicate (14 + length ms * 24) 0) 0 header) 14 ms
      ≡ header ++ images ms
fill header ms h e =
    let bytes : List ℕ = replicate (14 + length ms * 24) 0 in
    let size : length bytes ≡ 14 + length ms * 24 = length-replicate (14 + length ms * 24) 0 in
    let rest = length-drop (length header) bytes in
    let start = write_at_end [] bytes header (omega (arith, size, e)) in
    let body =
      write_messages_lem header (drop (length header) bytes) 14 ms h (omega (arith, e))
        (omega (arith, rest, size, e)) in
    let nothing_left : drop (length ms * 24) (drop (length header) bytes) ≡ [] =
      drop_exact (length ms * 24) (drop (length header) bytes) (omega (arith, rest, size, e)) in
    ap (λ (b : List ℕ). write_messages b 14 ms) start ∙ (body ∙ rw (nothing_left, append-nil))

-- serialize_packet writes the header and then the messages, each in its 24 bytes, and nothing else.
pub serialize_packet_lem :
    (seq_num publish_tsc : ℕ) (ms : List Message)
    → All IsMessage ms
    → length ms ≤ 65535
    → serialize_packet seq_num ms publish_tsc ≡ ok (packet_image seq_num ms publish_tsc)
unfolding serialize_packet
serialize_packet_lem seq_num publish_tsc ms h few =
    let count : length ms % 2 ^ 16 ≡ length ms = omega arith in
    let header = make_packet_header seq_num (length ms) publish_tsc in
    rw (le→ltb 65535 (length ms) few, count)
      (ap ok (fill (header_bytes header) ms h (length-header_bytes header)))
