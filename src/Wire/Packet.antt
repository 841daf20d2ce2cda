-- ===== src/Wire/Packet.antt =====
-- parse_packet, message_at and serialize_packet of src/common/protocol.cpp. A span is the list of its
-- bytes, and a write through a cursor goes into a buffer of fixed size.
pub mod Writing
pub mod RoundTrip
pub mod Reading
pub mod Delivery
use binary_market_data_feed.Prelude.{
  ℕ, zero, suc, ◌+◌, ◌*◌, ◌%◌, ◌^◌, Option, none, some, List, [], ◌∷◌, ltb, leb, ◌==◌, not,
  if◌then◌else◌, length, take, drop, get_or, replicate, Result, ok, err,
}
use binary_market_data_feed.Wire.Structs.{
  PacketHeader, MessageType, add_order, modify_order, delete_order, trade, Message, MessageView,
  add_view, modify_view, delete_view, trade_view, fixed_message_size, packet_header_size,
  side_from_char, message_type_from_char, make_packet_header, decode_msg_count, packet_size_bytes,
}
use binary_market_data_feed.Wire.Layout.{
  header_bytes, message_bytes, header_at, add_at, modify_at, delete_at, trade_at,
}

-- `none` is the null pointer of a view that no packet was parsed into.
pub record PacketView : Type 0 where
  pub header : Option PacketHeader
  pub message_bytes : List ℕ

unfoldable pub parse_packet : List ℕ → Option PacketView
unfolding packet_size_bytes
parse_packet bytes =
    if ltb (length bytes) packet_header_size
    then none
    else let header = header_at (take packet_header_size bytes) in
      if not (length bytes == packet_size_bytes (decode_msg_count header))
      then none
      else some (record { header = some header; message_bytes = drop packet_header_size bytes })

-- The switch of `message_at`, on the type that the first byte of the chunk gives.
unfoldable pub message_of_type : MessageType → List ℕ → Option MessageView
message_of_type add_order chunk =
    let add = add_at chunk in
    elim (side_from_char add.side) [ none ↦ none | some _ ↦ some (add_view add) ]
message_of_type modify_order chunk = some (modify_view (modify_at chunk))
message_of_type delete_order chunk = some (delete_view (delete_at chunk))
message_of_type trade chunk = some (trade_view (trade_at chunk))

unfoldable pub message_in_chunk : List ℕ → Option MessageView
unfolding message_of_type message_type_from_char
message_in_chunk [] = none
message_in_chunk (c ∷ chunk) = elim (message_type_from_char c) [
  | none ↦ none
  | some type ↦ message_of_type type (c ∷ chunk)
]

unfoldable pub subspan : List ℕ → ℕ → ℕ → List ℕ
subspan bytes offset count = take count (drop offset bytes)

unfoldable pub message_at : PacketView → ℕ → Option MessageView
message_at packet index = elim packet.header [
  | none ↦ none
  | some header ↦
      if leb (decode_msg_count header) index
      then none
      else message_in_chunk
          (subspan packet.message_bytes (index * fixed_message_size) fixed_message_size)
]

-- std::memcpy to the front of a buffer, and to an offset in it. What would go past the end is
-- undefined in the source, and here is dropped.
unfoldable pub overwrite : List ℕ → List ℕ → List ℕ
overwrite buffer [] = buffer
overwrite [] (s ∷ source) = []
overwrite (b ∷ buffer) (s ∷ source) = s ∷ overwrite buffer source

unfoldable pub write_at : List ℕ → ℕ → List ℕ → List ℕ
unfolding overwrite
write_at buffer zero source = overwrite buffer source
write_at [] (suc offset) source = []
write_at (b ∷ buffer) (suc offset) source = b ∷ write_at buffer offset source

-- The loop of `serialize_packet` over the messages.
unfoldable pub write_messages : List ℕ → ℕ → List Message → List ℕ
unfolding write_at message_bytes
write_messages buffer cursor [] = buffer
write_messages buffer cursor (m ∷ messages) =
    write_messages (write_at buffer cursor (message_bytes m)) (cursor + fixed_message_size) messages

pub data SerializeError : Type 0 where
  too_many_messages packet_would_overflow : SerializeError

unfoldable pub serialize_packet : ℕ → List Message → ℕ → Result SerializeError (List ℕ)
unfolding write_messages header_bytes make_packet_header packet_size_bytes
serialize_packet seq_num messages publish_tsc =
    if ltb 65535 (length messages)
    then err too_many_messages
    else let msg_count : ℕ = length messages % 2 ^ 16 in
      let bytes = replicate (packet_size_bytes msg_count) 0 in
      let header = make_packet_header seq_num msg_count publish_tsc in
      ok (write_messages (write_at bytes 0 (header_bytes header)) packet_header_size messages)
