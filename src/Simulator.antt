-- ===== src/Simulator.antt =====
-- The publisher, src/exchange_sim/main.cpp: the packets that it writes into one fixed buffer.
pub mod Buffer
pub mod Options
pub mod Main
pub mod Console
pub mod Generator
pub mod Orders
pub mod Publisher
pub mod Batches
pub mod Published
pub mod Rounds
pub mod Session
mod Examples
use binary_market_data_feed.Prelude.{
  ℕ, ◌+◌, ◌%◌, ◌^◌, List, ltb, if◌then◌else◌, length, Result, ok, err,
}
use binary_market_data_feed.Wire.Structs.{
  Message, packet_header_size, make_packet_header, packet_size_bytes,
}
use binary_market_data_feed.Wire.Layout.{header_bytes}
use binary_market_data_feed.Wire.Packet.{
  write_at, write_messages, SerializeError, too_many_messages, packet_would_overflow,
}

-- kPacketBufferSize, and kMaxMessagesPerPacket: 1010 bytes behind the header hold 42 messages.
abbrev pub packet_buffer_size : ℕ
packet_buffer_size = 1024

abbrev pub max_messages_per_packet : ℕ
max_messages_per_packet = 42

-- The size of the packet, and the buffer after the writes. `buffer` has `buffer_size` bytes.
unfoldable pub serialize_packet_to_buffer :
    (seq_num publish_tsc : ℕ) (messages : List Message) (buffer : List ℕ)
    → Result SerializeError (ℕ × List ℕ)
unfolding write_messages header_bytes make_packet_header packet_size_bytes
serialize_packet_to_buffer seq_num publish_tsc messages buffer =
    if ltb 65535 (length messages)
    then err too_many_messages
    else let msg_count : ℕ = length messages % 2 ^ 16 in
      let packet_size = packet_size_bytes msg_count in
      if ltb (length buffer) packet_size
      then err packet_would_overflow
      else let header = make_packet_header seq_num msg_count publish_tsc in
        let with_header = write_at buffer 0 (header_bytes header) in
        ok (packet_size, write_messages with_header packet_header_size messages)
