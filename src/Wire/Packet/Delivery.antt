-- ===== src/Wire/Packet/Delivery.antt =====
-- What a sender and a receiver of packets may rely on.
use binary_market_data_feed.Prelude.{
  ℕ, ◌+◌, ◌*◌, ◌^◌, ◌≤◌, ◌<◌, ◌≡◌, refl, ◌↔◌, none, some, List, arith, length, get_elem?, take,
  drop, All, some-injective, sym, ap, ◌∙◌, length-drop, ok, err,
}
use binary_market_data_feed.Wire.Structs.{
  Message, view_of, make_packet_header, decode_seq_num, decode_msg_count, decode_publish_tsc,
  PacketHeader, packet_size_bytes,
}
use binary_market_data_feed.Wire.Layout.{IsMessage, header_at}
use binary_market_data_feed.Wire.Fields.{decode-make_packet_header}
use binary_market_data_feed.Wire.Packet.{
  PacketView, parse_packet, message_at, serialize_packet, too_many_messages,
}
use binary_market_data_feed.Wire.Packet.RoundTrip.{IsParsable, packet_image, serialize_packet_lem}
use binary_market_data_feed.Wire.Packet.Reading.{
  packet_view, parse_packet_accepts, parse_packet-packet_image, message_at-packet_view,
}

-- The view `v` shows the packet that was sent: the three numbers of the header, and each message at
-- its index.
pub record Shows (v : PacketView) (seq_num publish_tsc : ℕ) (ms : List Message) : Type 0 where
  pub header : PacketHeader
  pub has_header : v.header ≡ some header
  pub seq : decode_seq_num header ≡ seq_num
  pub count : decode_msg_count header ≡ length ms
  pub tsc : decode_publish_tsc header ≡ publish_tsc
  pub messages : (i : ℕ) (m : Message) → get_elem? ms i ≡ some m → message_at v i ≡ some (view_of m)

packet_view-Shows :
    (seq_num publish_tsc : ℕ) (ms : List Message)
    → seq_num < 2 ^ 32
    → publish_tsc < 2 ^ 64
    → length ms ≤ 65535
    → All IsMessage ms
    → All IsParsable ms
    → Shows (packet_view seq_num ms publish_tsc) seq_num publish_tsc ms
packet_view-Shows seq_num publish_tsc ms s t few h p =
    let (seq, count, tsc) =
      decode-make_packet_header seq_num (length ms) publish_tsc s (omega arith) t in
    record {
      header = make_packet_header seq_num (length ms) publish_tsc;
      has_header = refl;
      seq = seq;
      count = count;
      tsc = tsc;
      messages = λ i m e. message_at-packet_view seq_num publish_tsc ms i m h p few e;
    }

-- serialize_packet, then parse_packet: a packet of at most 65535 messages whose type bytes and side
-- bytes are valid is accepted, and its view gives back the sequence number, the count, the time
-- stamp, and every message at its index.
pub serialize-parse :
    (seq_num publish_tsc : ℕ) (ms : List Message)
    → seq_num < 2 ^ 32
    → publish_tsc < 2 ^ 64
    → length ms ≤ 65535
    → All IsMessage ms
    → All IsParsable ms
    → (bytes : List ℕ) × (v : PacketView) × (serialize_packet seq_num ms publish_tsc ≡ ok bytes)
      × (parse_packet bytes ≡ some v)
      × Shows v seq_num publish_tsc ms
serialize-parse seq_num publish_tsc ms s t few h p = (
  packet_image seq_num ms publish_tsc,
  packet_view seq_num ms publish_tsc,
  serialize_packet_lem seq_num publish_tsc ms h few,
  parse_packet-packet_image seq_num publish_tsc ms h few,
  packet_view-Shows seq_num publish_tsc ms s t few h p,
)

-- serialize_packet throws exactly when there are more than 65535 messages.
pub serialize_packet_throws :
    (seq_num publish_tsc : ℕ) (ms : List Message)
    → (serialize_packet seq_num ms publish_tsc ≡ err too_many_messages) ↔ (65535 < length ms)
unfolding serialize_packet
serialize_packet_throws seq_num publish_tsc ms = (λ h. ground arith, λ h. ground arith)

-- The datagrams that parse_packet accepts: 14 bytes of header, and 24 for each message counted there.
abbrev pub IsPacket : List ℕ → Type 0
IsPacket bytes =
    (14 ≤ length bytes)
    × (length bytes ≡ packet_size_bytes (decode_msg_count (header_at (take 14 bytes))))

parse_packet_inversion :
    (bytes : List ℕ) (v : PacketView)
    → parse_packet bytes ≡ some v
    → IsPacket bytes
      × (v.header ≡ some (header_at (take 14 bytes)))
      × (v.message_bytes ≡ drop 14 bytes)
unfolding parse_packet packet_size_bytes
parse_packet_inversion bytes v e = ground arith

-- parse_packet accepts exactly the datagrams whose size is that of the header and of the messages it
-- counts, and then shows the header and the bytes behind it.
pub parse_packet_iff :
    (bytes : List ℕ) (v : PacketView)
    → (parse_packet bytes ≡ some v) ↔ (
        IsPacket bytes
        × (v ≡ record { header = some (header_at (take 14 bytes)); message_bytes = drop 14 bytes }))
unfolding packet_size_bytes
parse_packet_iff bytes v = (
  λ e.
      let (fits, header, body) = parse_packet_inversion bytes v e in
      (fits, λ i. record { header = header i; message_bytes = body i }),
  λ (fits, same).
      parse_packet_accepts bytes (header_at (take 14 bytes)) refl fits.1 ∙ ap some (sym same),
)

-- Every message that an accepted packet counts lies inside its bytes, so message_at never takes a
-- subspan out of range; an index from the count on gives no message.
pub parse_packet-in_bounds :
    (bytes : List ℕ) (v : PacketView) (header : PacketHeader) (i : ℕ)
    → parse_packet bytes ≡ some v
    → v.header ≡ some header
    → (i < decode_msg_count header → i * 24 + 24 ≤ length v.message_bytes)
      × (decode_msg_count header ≤ i → message_at v i ≡ none)
unfolding packet_size_bytes message_at
parse_packet-in_bounds bytes v header i e f =
    let (p, q, body) = parse_packet_inversion bytes v e in
    let same : header ≡ header_at (take 14 bytes) = some-injective _ _ (sym f ∙ q) in
    let count = ap decode_msg_count same in
    (λ h. omega (arith, ap length body, length-drop 14 bytes, count), λ h. ground arith)
