-- ===== src/Wire/Fields.antt =====
-- The make_ functions of src/common/protocol.cpp against the decode_ functions, the conversions of
-- the char fields, and the byte order of the wire.
use binary_market_data_feed.Prelude.{ℕ, ◌^◌, ◌<◌, ◌≡◌, refl, ◌↔◌, some, ◌++◌, reverse, arith}
use binary_market_data_feed.Wire.Bytes.{le_bytes, le_bytes-bswap, bswap-bswap, bswap-lt}
use binary_market_data_feed.Wire.Structs.{
  Side, buy, sell, MessageType, add_order, modify_order, delete_order, trade, char_of_side,
  char_of_message_type, side_from_char, message_type_from_char, Message, add_msg, modify_msg,
  delete_msg, trade_msg, make_packet_header, make_add_order_msg, make_modify_order_msg,
  make_delete_order_msg, make_trade_msg, decode_seq_num, decode_msg_count, decode_publish_tsc,
  decode_side, decode_add_order_id, decode_modify_order_id, decode_delete_order_id,
  decode_trade_order_id, decode_add_price, decode_modify_price, decode_trade_price,
  decode_add_quantity, decode_modify_quantity, decode_trade_quantity,
}
use binary_market_data_feed.Wire.Layout.{header_bytes, IsMessage}
use binary_market_data_feed.Wire.Packet.RoundTrip.{IsParsable}

pub side_from_char-char_of_side : (s : Side) → side_from_char (char_of_side s) ≡ some s
unfolding side_from_char char_of_side
side_from_char-char_of_side buy = refl
side_from_char-char_of_side sell = refl

-- A char is taken for a message type exactly when it is the char of that type.
pub message_type_from_char_iff :
    (c : ℕ) (t : MessageType) → (message_type_from_char c ≡ some t) ↔ (c ≡ char_of_message_type t)
unfolding message_type_from_char char_of_message_type
message_type_from_char_iff c add_order = (λ h. ground arith, λ h. ground arith)
message_type_from_char_iff c modify_order = (λ h. ground arith, λ h. ground arith)
message_type_from_char_iff c delete_order = (λ h. ground arith, λ h. ground arith)
message_type_from_char_iff c trade = (λ h. ground arith, λ h. ground arith)

-- Decoding the header's fields gives back what `make_packet_header` was called with, where the
-- arguments fit their C++ types.
pub decode-make_packet_header :
    (seq_num msg_count publish_tsc : ℕ)
    → seq_num < 2 ^ 32
    → msg_count < 2 ^ 16
    → publish_tsc < 2 ^ 64
    → let h = make_packet_header seq_num msg_count publish_tsc in
      (decode_seq_num h ≡ seq_num)
      × (decode_msg_count h ≡ msg_count)
      × (decode_publish_tsc h ≡ publish_tsc)
unfolding make_packet_header decode_seq_num decode_msg_count decode_publish_tsc
decode-make_packet_header seq_num msg_count publish_tsc s c t =
    (bswap-bswap 4 seq_num s, bswap-bswap 2 msg_count c, bswap-bswap 8 publish_tsc t)

-- The header of a made packet goes out as sequence number (4 bytes), count (2) and time stamp (8), each
-- with its high byte first.
pub header_bytes-big_endian :
    (seq_num msg_count publish_tsc : ℕ)
    → header_bytes (make_packet_header seq_num msg_count publish_tsc)
      ≡ reverse (le_bytes 4 seq_num)
        ++ (reverse (le_bytes 2 msg_count) ++ reverse (le_bytes 8 publish_tsc))
unfolding make_packet_header header_bytes
header_bytes-big_endian seq_num msg_count publish_tsc =
    let seq = le_bytes-bswap 4 seq_num in
    let count = le_bytes-bswap 2 msg_count in
    let tsc = le_bytes-bswap 8 publish_tsc in λ i. seq i ++ (count i ++ tsc i)

-- Decoding the fields of an AddOrder message gives back what `make_add_order_msg` was called with, where
-- the arguments fit their C++ types.
pub decode-make_add_order_msg :
    (order_id : ℕ) (side : Side) (price quantity : ℕ)
    → order_id < 2 ^ 64
    → price < 2 ^ 32
    → quantity < 2 ^ 32
    → let m = make_add_order_msg order_id side price quantity in
      (decode_add_order_id m ≡ order_id)
      × (decode_side m ≡ some side)
      × (decode_add_price m ≡ price)
      × (decode_add_quantity m ≡ quantity)
unfolding make_add_order_msg decode_add_order_id decode_side decode_add_price decode_add_quantity
decode-make_add_order_msg order_id side price quantity i p q = (
  bswap-bswap 8 order_id i,
  side_from_char-char_of_side side,
  bswap-bswap 4 price p,
  bswap-bswap 4 quantity q,
)

pub decode-make_modify_order_msg :
    (order_id price quantity : ℕ)
    → order_id < 2 ^ 64
    → price < 2 ^ 32
    → quantity < 2 ^ 32
    → let m = make_modify_order_msg order_id price quantity in
      (decode_modify_order_id m ≡ order_id)
      × (decode_modify_price m ≡ price)
      × (decode_modify_quantity m ≡ quantity)
unfolding make_modify_order_msg decode_modify_order_id decode_modify_price decode_modify_quantity
decode-make_modify_order_msg order_id price quantity i p q =
    (bswap-bswap 8 order_id i, bswap-bswap 4 price p, bswap-bswap 4 quantity q)

pub decode-make_delete_order_msg :
    (order_id : ℕ)
    → order_id < 2 ^ 64
    → decode_delete_order_id (make_delete_order_msg order_id) ≡ order_id
unfolding make_delete_order_msg decode_delete_order_id
decode-make_delete_order_msg order_id i = bswap-bswap 8 order_id i

pub decode-make_trade_msg :
    (order_id price quantity : ℕ)
    → order_id < 2 ^ 64
    → price < 2 ^ 32
    → quantity < 2 ^ 32
    → let m = make_trade_msg order_id price quantity in
      (decode_trade_order_id m ≡ order_id)
      × (decode_trade_price m ≡ price)
      × (decode_trade_quantity m ≡ quantity)
unfolding make_trade_msg decode_trade_order_id decode_trade_price decode_trade_quantity
decode-make_trade_msg order_id price quantity i p q =
    (bswap-bswap 8 order_id i, bswap-bswap 4 price p, bswap-bswap 4 quantity q)

-- A made message fits its struct, and `message_at` takes it for what it is.
abbrev pub IsSendable : Message → Type 0
IsSendable m = IsMessage m × IsParsable m

pub make_add_order_msg-IsSendable :
    (order_id : ℕ) (side : Side) (price quantity : ℕ)
    → IsSendable (add_msg (make_add_order_msg order_id side price quantity))
unfolding make_add_order_msg
make_add_order_msg-IsSendable order_id side price quantity = (
  record {
    order_id = bswap-lt 8 order_id;
    price = bswap-lt 4 price;
    quantity = bswap-lt 4 quantity;
    reserved = refl;
  },
  (refl, side, side_from_char-char_of_side side),
)

pub make_modify_order_msg-IsSendable :
    (order_id price quantity : ℕ)
    → IsSendable (modify_msg (make_modify_order_msg order_id price quantity))
unfolding make_modify_order_msg
make_modify_order_msg-IsSendable order_id price quantity = (
  record {
    order_id = bswap-lt 8 order_id;
    price = bswap-lt 4 price;
    quantity = bswap-lt 4 quantity;
    reserved = refl;
  },
  refl,
)

pub make_delete_order_msg-IsSendable :
    (order_id : ℕ) → IsSendable (delete_msg (make_delete_order_msg order_id))
unfolding make_delete_order_msg
make_delete_order_msg-IsSendable order_id =
    (record { order_id = bswap-lt 8 order_id; reserved = refl }, refl)

pub make_trade_msg-IsSendable :
    (order_id price quantity : ℕ) → IsSendable (trade_msg (make_trade_msg order_id price quantity))
unfolding make_trade_msg
make_trade_msg-IsSendable order_id price quantity = (
  record {
    order_id = bswap-lt 8 order_id;
    price = bswap-lt 4 price;
    quantity = bswap-lt 4 quantity;
    reserved = refl;
  },
  refl,
)
