-- ===== src/Wire/Packet/Reading.antt =====
-- parse_packet and message_at on the image of a packet.
use binary_market_data_feed.Prelude.{
  ℕ, zero, suc, ◌+◌, ◌*◌, ◌^◌, ◌≤◌, ◌<◌, ◌≡◌, sym, ap, ◌∙◌, some, List, [], ◌∷◌, ◌++◌, append-nil,
  arith, length, get_elem?, take, drop, All, take-append, drop-append, drop-drop, some-injective,
  All-get_elem?, get_elem?-lt,
}
use binary_market_data_feed.Wire.Bytes.{bswap-bswap}
use binary_market_data_feed.Wire.Structs.{
  Side, Message, add_msg, modify_msg, delete_msg, trade_msg, view_of, side_from_char,
  make_packet_header, decode_msg_count, AddOrderMsg, ModifyOrderMsg, DeleteOrderMsg, TradeMsg,
  add_view, modify_view, delete_view, trade_view, PacketHeader,
}
use binary_market_data_feed.Wire.Layout.{
  header_bytes, message_bytes, header_at, IsMessage, length-header_bytes, add_bytes, modify_bytes,
  delete_bytes, trade_bytes, length-message_bytes, header_at-header_bytes, add_at-add_bytes,
  modify_at-modify_bytes, delete_at-delete_bytes, trade_at-trade_bytes, add_at, modify_at,
  delete_at, trade_at,
}
use binary_market_data_feed.Wire.Packet.{
  PacketView, parse_packet, message_in_chunk, subspan, message_at,
}
use binary_market_data_feed.Wire.Packet.Writing.{images}
use binary_market_data_feed.Wire.Packet.RoundTrip.{
  IsParsable, packet_image, length-packet_image, make_packet_header-IsHeader,
}

pub decode_msg_count-make :
    (seq_num n publish_tsc : ℕ)
    → n < 256 ^ 2
    → decode_msg_count (make_packet_header seq_num n publish_tsc) ≡ n
unfolding decode_msg_count make_packet_header
decode_msg_count-make seq_num n publish_tsc h = bswap-bswap 2 n h

-- The view that a packet of these messages is parsed into.
abbrev pub packet_view : ℕ → List Message → ℕ → PacketView
packet_view seq_num ms publish_tsc = record {
  header = some (make_packet_header seq_num (length ms) publish_tsc);
  message_bytes = images ms;
}

header_at-packet_image :
    (seq_num publish_tsc : ℕ) (ms : List Message)
    → header_at (take 14 (packet_image seq_num ms publish_tsc))
      ≡ make_packet_header seq_num (length ms) publish_tsc
header_at-packet_image seq_num publish_tsc ms =
    let header = make_packet_header seq_num (length ms) publish_tsc in
    rw
      (
        take-append 14 (header_bytes header) (images ms) (length-header_bytes header),
        sym (append-nil (header_bytes header)),
      )
      (header_at-header_bytes header []
        (make_packet_header-IsHeader seq_num (length ms) publish_tsc))

-- A packet of the size that its count gives is accepted.
pub parse_packet_accepts :
    (bytes : List ℕ) (header : PacketHeader)
    → header_at (take 14 bytes) ≡ header
    → length bytes ≡ 14 + decode_msg_count header * 24
    → parse_packet bytes ≡ some (record { header = some header; message_bytes = drop 14 bytes })
unfolding parse_packet
parse_packet_accepts bytes header e size = ground arith

pub parse_packet-packet_image :
    (seq_num publish_tsc : ℕ) (ms : List Message)
    → All IsMessage ms
    → length ms ≤ 65535
    → parse_packet (packet_image seq_num ms publish_tsc) ≡ some (packet_view seq_num ms publish_tsc)
unfolding header_bytes images
parse_packet-packet_image seq_num publish_tsc ms h few =
    let header = make_packet_header seq_num (length ms) publish_tsc in
    let count = decode_msg_count-make seq_num (length ms) publish_tsc (omega arith) in
    let body : drop 14 (packet_image seq_num ms publish_tsc) ≡ images ms =
      drop-append 14 (header_bytes header) (images ms) (length-header_bytes header) in
    rw (← body) (
      parse_packet_accepts (packet_image seq_num ms publish_tsc) header
        (header_at-packet_image seq_num publish_tsc ms)
        (omega (arith, count, length-packet_image seq_num publish_tsc ms h)))

-- The four cases of the switch, on a chunk that the struct is read from.
module _ (c : ℕ) (chunk : List ℕ) where
  chunk_add :
      (m : AddOrderMsg) (s : Side)
      → c ≡ b'A'
      → add_at (c ∷ chunk) ≡ m
      → side_from_char m.side ≡ some s
      → message_in_chunk (c ∷ chunk) ≡ some (add_view m)
  unfolding message_in_chunk
  chunk_add m s t e v = ground arith

  chunk_modify :
      (m : ModifyOrderMsg)
      → c ≡ b'M'
      → modify_at (c ∷ chunk) ≡ m
      → message_in_chunk (c ∷ chunk) ≡ some (modify_view m)
  unfolding message_in_chunk
  chunk_modify m t e = ground arith

  chunk_delete :
      (m : DeleteOrderMsg)
      → c ≡ b'D'
      → delete_at (c ∷ chunk) ≡ m
      → message_in_chunk (c ∷ chunk) ≡ some (delete_view m)
  unfolding message_in_chunk
  chunk_delete m t e = ground arith

  chunk_trade :
      (m : TradeMsg)
      → c ≡ b'T'
      → trade_at (c ∷ chunk) ≡ m
      → message_in_chunk (c ∷ chunk) ≡ some (trade_view m)
  unfolding message_in_chunk
  chunk_trade m t e = ground arith

message_in_chunk-message_bytes :
    (m : Message)
    → IsMessage m
    → IsParsable m
    → message_in_chunk (message_bytes m) ≡ some (view_of m)
unfolding message_bytes view_of
message_in_chunk-message_bytes (add_msg m) h (t, s, v) =
    chunk_add _ _ m s t (rw (sym (append-nil (add_bytes m))) (add_at-add_bytes m [] h)) v
message_in_chunk-message_bytes (modify_msg m) h t =
    chunk_modify _ _ m t (rw (sym (append-nil (modify_bytes m))) (modify_at-modify_bytes m [] h))
message_in_chunk-message_bytes (delete_msg m) h t =
    chunk_delete _ _ m t (rw (sym (append-nil (delete_bytes m))) (delete_at-delete_bytes m [] h))
message_in_chunk-message_bytes (trade_msg m) h t =
    chunk_trade _ _ m t (rw (sym (append-nil (trade_bytes m))) (trade_at-trade_bytes m [] h))

subspan-images :
    (i : ℕ) (ms : List Message) (m : Message)
    → All IsMessage ms
    → get_elem? ms i ≡ some m
    → subspan (images ms) (i * 24) 24 ≡ message_bytes m
unfolding subspan images
subspan-images i [] m h e = cc
subspan-images zero (x ∷ ms) m h e =
    let same : x ≡ m = some-injective _ _ e in
    take-append 24 (message_bytes x) (images ms) (length-message_bytes x h.0)
    ∙ ap message_bytes same
subspan-images (suc i) (x ∷ ms) m h e =
    let next : suc i * 24 ≡ 24 + i * 24 = omega arith in
    rw
      (
        next,
        sym (drop-drop 24 (i * 24) (message_bytes x ++ images ms)),
        drop-append 24 (message_bytes x) (images ms) (length-message_bytes x h.0),
      )
      (subspan-images i ms m h.1 e)

message_at_lem :
    (header : PacketHeader) (body : List ℕ) (i : ℕ)
    → i < decode_msg_count header
    → message_at (record { header = some header; message_bytes = body }) i
      ≡ message_in_chunk (subspan body (i * 24) 24)
unfolding message_at
message_at_lem header body i h = ground arith

-- In the view of such a packet each index gives back its message.
pub message_at-packet_view :
    (seq_num publish_tsc : ℕ) (ms : List Message) (i : ℕ) (m : Message)
    → All IsMessage ms
    → All IsParsable ms
    → length ms ≤ 65535
    → get_elem? ms i ≡ some m
    → message_at (packet_view seq_num ms publish_tsc) i ≡ some (view_of m)
message_at-packet_view seq_num publish_tsc ms i m h p few e =
    let count = decode_msg_count-make seq_num (length ms) publish_tsc (omega arith) in
    message_at_lem _ (images ms) i (omega (arith, count, get_elem?-lt ms i m e))
    ∙ (ap message_in_chunk (subspan-images i ms m h e)
        ∙ message_in_chunk-message_bytes m (All-get_elem? IsMessage ms i m h e)
            (All-get_elem? IsParsable ms i m p e))
