-- ===== src/Simulator/Buffer.antt =====
-- serialize_packet_to_buffer against serialize_packet: the same packet, in place.
use binary_market_data_feed.Prelude.{
  ℕ, ◌+◌, ◌*◌, ◌%◌, ◌^◌, ◌≤◌, ◌<◌, ◌≡◌, ◌↔◌, refl, sym, ap, ◌∙◌, List, [], ◌++◌, append_assoc,
  arith, length, drop, take, take-append, drop-append, All, length-drop, drop-drop, le→ltb, ok, err,
}
use binary_market_data_feed.Wire.Structs.{Message, make_packet_header, packet_size_bytes}
use binary_market_data_feed.Wire.Layout.{header_bytes, IsMessage, length-header_bytes}
use binary_market_data_feed.Wire.Packet.{
  write_at, write_messages, too_many_messages, packet_would_overflow, serialize_packet,
}
use binary_market_data_feed.Wire.Packet.Writing.{images, write_at_end, write_messages_lem}
use binary_market_data_feed.Wire.Packet.RoundTrip.{
  packet_image, length-packet_image, serialize_packet_lem,
}
use binary_market_data_feed.Simulator.{
  serialize_packet_to_buffer, packet_buffer_size, max_messages_per_packet,
}

-- The header, then the messages, over what the buffer held.
written :
    (header buffer : List ℕ) (ms : List Message)
    → All IsMessage ms
    → length header ≡ 14
    → 14 + length ms * 24 ≤ length buffer
    → write_messages (write_at buffer 0 header) 14 ms
      ≡ (header ++ images ms) ++ drop (14 + length ms * 24) buffer
written header buffer ms h e fits =
    let first = write_at_end [] buffer header (omega (arith, e)) in
    let rest =
      write_messages_lem header (drop 14 buffer) 14 ms h (sym e)
        (omega (arith, length-drop 14 buffer)) in
    ap (λ (b : List ℕ). write_messages b 14 ms) (rw e at first)
    ∙ (rest ∙ rw (append_assoc, drop-drop 14 (length ms * 24) buffer))

module _ (seq_num publish_tsc : ℕ) (ms : List Message) (buffer : List ℕ) where
  pub to_buffer_lem :
      All IsMessage ms
      → length ms ≤ 65535
      → 14 + length ms * 24 ≤ length buffer
      → serialize_packet_to_buffer seq_num publish_tsc ms buffer
        ≡ ok (
          14 + length ms * 24,
          packet_image seq_num ms publish_tsc ++ drop (14 + length ms * 24) buffer,
        )
  unfolding serialize_packet_to_buffer packet_size_bytes
  to_buffer_lem h few fits =
      let count : length ms % 2 ^ 16 ≡ length ms = omega arith in
      let header : ℕ → List ℕ = λ n. header_bytes (make_packet_header seq_num n publish_tsc) in
      let after : ℕ → List ℕ = λ n. write_messages (write_at buffer 0 (header n)) 14 ms in
      rw (le→ltb 65535 (length ms) few, count, le→ltb (length buffer) (14 + length ms * 24) fits)
        (ap (λ n. ok (14 + length ms * 24, after n)) count
          ∙ ap (λ (b : List ℕ). ok (14 + length ms * 24, b))
              (written (header (length ms)) buffer ms h
                (length-header_bytes (make_packet_header seq_num (length ms) publish_tsc)) fits))

  -- Where the packet fits into the buffer, serialize_packet_to_buffer writes the bytes that
  -- serialize_packet returns to its front, returns how many they are, and leaves the rest of the
  -- buffer as it was.
  pub same_packet :
      All IsMessage ms
      → length ms ≤ 65535
      → 14 + length ms * 24 ≤ length buffer
      → (bytes : List ℕ) × (after : List ℕ) × (serialize_packet seq_num ms publish_tsc ≡ ok bytes)
        × (serialize_packet_to_buffer seq_num publish_tsc ms buffer ≡ ok (length bytes, after))
        × (take (length bytes) after ≡ bytes)
        × (drop (length bytes) after ≡ drop (length bytes) buffer)
  same_packet h few fits =
      let bytes = packet_image seq_num ms publish_tsc in
      let size = length-packet_image seq_num publish_tsc ms h in
      (
        bytes,
        bytes ++ drop (length bytes) buffer,
        serialize_packet_lem seq_num publish_tsc ms h few,
        rw size (to_buffer_lem h few fits),
        take-append (length bytes) bytes _ refl,
        drop-append (length bytes) bytes _ refl,
      )

  -- serialize_packet_to_buffer throws exactly when there are more than 65535 messages or when the
  -- packet is longer than the buffer, and the error says which.
  pub to_buffer_throws :
      ((serialize_packet_to_buffer seq_num publish_tsc ms buffer ≡ err too_many_messages)
        ↔ (65535 < length ms))
      × ((serialize_packet_to_buffer seq_num publish_tsc ms buffer ≡ err packet_would_overflow)
          ↔ ((length ms ≤ 65535) × (length buffer < 14 + length ms * 24)))
  unfolding serialize_packet_to_buffer packet_size_bytes
  to_buffer_throws =
      ((λ e. ground arith, λ e. ground arith), (λ e. ground arith, λ e. ground arith))

  -- With the publisher's buffer, a packet is written exactly when it has at most
  -- kMaxMessagesPerPacket messages.
  pub max_messages_fit :
      length buffer ≡ packet_buffer_size
      → ((r : ℕ × List ℕ) × (serialize_packet_to_buffer seq_num publish_tsc ms buffer ≡ ok r))
        ↔ (length ms ≤ max_messages_per_packet)
  unfolding serialize_packet_to_buffer packet_size_bytes
  max_messages_fit size = (
    λ (r, e). ground arith,
    λ few.
        let count : length ms % 2 ^ 16 ≡ length ms = omega arith in
        let header = header_bytes (make_packet_header seq_num (length ms % 2 ^ 16) publish_tsc) in
        (
          (14 + length ms * 24, write_messages (write_at buffer 0 header) 14 ms),
          rw
              (
                le→ltb 65535 (length ms) (omega arith),
                count,
                le→ltb (length buffer) (14 + length ms * 24) (omega arith),
              )
              refl,
        ),
  )
