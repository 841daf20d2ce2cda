-- ===== src/Wire/Examples.antt =====
-- Concrete packets, and the theorems of the wire at them.
use binary_market_data_feed.Prelude.{
  ℕ, ◌+◌, ◌*◌, ◌↔◌, ◌≤◌, ◌<◌, ◌≡◌, refl, none, some, List, [], ◌∷◌, ◌++◌, reverse, arith, length,
  take, drop, All, ok,
}
use binary_market_data_feed.Wire.Describe.{describe, IsAlike, describe_iff}
use binary_market_data_feed.Wire.Bytes.{le_bytes, bswap, htonl}
use binary_market_data_feed.Wire.Structs.{
  buy, add_view, trade_view, Message, add_msg, modify_msg, delete_msg, trade_msg,
  make_add_order_msg, make_modify_order_msg, make_delete_order_msg, make_trade_msg,
  make_packet_header, decode_msg_count,
}
use binary_market_data_feed.Wire.Layout.{IsMessage, header_bytes, header_at}
use binary_market_data_feed.Wire.Fields.{
  header_bytes-big_endian, make_add_order_msg-IsSendable, make_modify_order_msg-IsSendable,
  make_delete_order_msg-IsSendable, make_trade_msg-IsSendable,
}
use binary_market_data_feed.Wire.Packet.{PacketView, parse_packet, message_at, serialize_packet}
use binary_market_data_feed.Wire.Packet.RoundTrip.{IsParsable, packet_image}
use binary_market_data_feed.Wire.Packet.Reading.{packet_view, parse_packet-packet_image}
use binary_market_data_feed.Wire.Packet.Delivery.{
  Shows, serialize-parse, IsPacket, parse_packet_iff, parse_packet-in_bounds,
}

-- The sequence number 1 goes out as 00 00 00 01.
swap_one : htonl 1 ≡ 0x0100_0000
unfolding bswap
swap_one = refl

abbrev orders : List Message
orders =
    add_msg (make_add_order_msg 7 buy 9990 50)
    ∷ modify_msg (make_modify_order_msg 7 9991 40)
    ∷ trade_msg (make_trade_msg 7 9991 15)
    ∷ delete_msg (make_delete_order_msg 7)
    ∷ []

orders-IsMessage : All IsMessage orders
orders-IsMessage = (
  (make_add_order_msg-IsSendable 7 buy 9990 50).0,
  (
    (make_modify_order_msg-IsSendable 7 9991 40).0,
    ((make_trade_msg-IsSendable 7 9991 15).0, ((make_delete_order_msg-IsSendable 7).0, tt)),
  ),
)

orders-IsParsable : All IsParsable orders
orders-IsParsable = (
  (make_add_order_msg-IsSendable 7 buy 9990 50).1,
  (
    (make_modify_order_msg-IsSendable 7 9991 40).1,
    ((make_trade_msg-IsSendable 7 9991 15).1, ((make_delete_order_msg-IsSendable 7).1, tt)),
  ),
)

serialize-parse_example :
    (bytes : List ℕ) × (v : PacketView) × (serialize_packet 3 orders 1000 ≡ ok bytes)
    × (parse_packet bytes ≡ some v)
    × Shows v 3 1000 orders
serialize-parse_example =
    serialize-parse 3 1000 orders (omega arith) (omega arith) (omega arith) orders-IsMessage
      orders-IsParsable

length-orders : length orders ≤ 65535
length-orders = omega arith

abbrev image : List ℕ
image = packet_image 3 orders 1000

image_parsed : parse_packet image ≡ some (packet_view 3 orders 1000)
image_parsed = parse_packet-packet_image 3 1000 orders orders-IsMessage length-orders

parse_packet_iff_example : (parse_packet image ≡ some (packet_view 3 orders 1000)) ↔ (
    IsPacket image
    × (packet_view 3 orders 1000
        ≡ record { header = some (header_at (take 14 image)); message_bytes = drop 14 image }))
parse_packet_iff_example = parse_packet_iff image (packet_view 3 orders 1000)

parse_packet-in_bounds_example :
    (3 < decode_msg_count (make_packet_header 3 4 1000)
      → 3 * 24 + 24 ≤ length (packet_view 3 orders 1000).message_bytes)
    × (decode_msg_count (make_packet_header 3 4 1000) ≤ 3
        → message_at (packet_view 3 orders 1000) 3 ≡ none)
parse_packet-in_bounds_example =
    parse_packet-in_bounds image (packet_view 3 orders 1000) (make_packet_header 3 4 1000) 3
      image_parsed refl

header_bytes-big_endian_example :
    header_bytes (make_packet_header 3 4 1000)
    ≡ reverse (le_bytes 4 3) ++ (reverse (le_bytes 2 4) ++ reverse (le_bytes 8 1000))
header_bytes-big_endian_example = header_bytes-big_endian 3 4 1000

too_short : parse_packet (0 ∷ 0 ∷ []) ≡ none
unfolding parse_packet
too_short = refl

describe_iff_example :
    let seq_num : ℕ = 3 in
    let index : ℕ = 0 in
    let m = add_view (make_add_order_msg 7 buy 9990 50) in
    let n = trade_view (make_trade_msg 7 9990 50) in
    (describe seq_num index m ≡ describe seq_num index n)
    ↔ ((seq_num ≡ seq_num) × (index ≡ index) × IsAlike m n)
describe_iff_example =
    describe_iff 3 3 0 0 (add_view (make_add_order_msg 7 buy 9990 50))
      (trade_view (make_trade_msg 7 9990 50))
