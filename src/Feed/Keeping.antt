-- ===== src/Feed/Keeping.antt =====
-- A property of the handler's state that applying a message and finishing a packet keep is kept by
-- process_packet_bytes, whatever the bytes are.
use binary_market_data_feed.Prelude.{
  ℕ, zero, suc, ◌+◌, ◌≡◌, ◌≢◌, Bool-cases, Option-cases, inl, inr, List, false, ◌==◌, Meets,
  Meets-bind,
}
use binary_market_data_feed.Wire.Structs.{
  PacketHeader, MessageView, decode_seq_num, decode_msg_count, decode_publish_tsc,
}
use binary_market_data_feed.Wire.Packet.{PacketView, parse_packet, message_at}
use binary_market_data_feed.Feed.{
  PacketSource, FeedError, out_of_fuel, Feed, Setup, limit_reached, apply_message, apply_messages,
  finish_packet, process_parsed, process_packet_bytes,
}

abbrev pub IsReal : FeedError → Type 0
IsReal e = e ≢ out_of_fuel

module _ (setup : Setup) (P : Feed → Type 0)
    (applies : (publish_tsc : ℕ) (m : MessageView) (s : Feed)
      → limit_reached setup s ≡ false
      → P s
      → P (apply_message setup publish_tsc m s))
    (finishes : (source : PacketSource) (packet_seq publish_tsc : ℕ) (s : Feed)
      → P s
      → P (finish_packet setup source packet_seq publish_tsc s)) where
  apply_messages-Meets :
      (source : PacketSource) (packet : PacketView) (packet_seq publish_tsc left index : ℕ)
      (s : Feed)
      → limit_reached setup s ≡ false
      → P s
      → Meets P IsReal (apply_messages setup source packet packet_seq publish_tsc left index s)
  unfolding apply_messages
  apply_messages-Meets source packet packet_seq publish_tsc zero index s free h = h
  apply_messages-Meets source packet packet_seq publish_tsc (suc left) index s free h =
      elim (Option-cases (message_at packet index)) [
        | inl e ↦ rw (e, Meets) (λ p. cc)
        | inr (m, e) ↦
            rw (e, Meets)
              (let s' = apply_message setup publish_tsc m s in
                elim (Bool-cases (limit_reached setup s')) [
                  | inl full ↦ rw full (applies publish_tsc m s free h)
                  | inr more ↦ rw more (
                      apply_messages-Meets source packet packet_seq publish_tsc left (index + 1) s'
                        more (applies publish_tsc m s free h))
                ])
      ]

  process_parsed-Meets :
      (source : PacketSource) (packet : PacketView) (header : PacketHeader) (s : Feed)
      → limit_reached setup s ≡ false
      → P s
      → Meets P IsReal (process_parsed setup source packet header s)
  unfolding process_parsed
  process_parsed-Meets source packet header s free h =
      elim (Bool-cases (decode_seq_num header == s.expected_packet_seq)) [
        | inr other ↦ rw other (λ p. cc)
        | inl due ↦ rw due (
            Meets-bind P P IsReal _ _
              (apply_messages-Meets source packet (decode_seq_num header)
                (decode_publish_tsc header) (decode_msg_count header) 0 s free h)
              (λ s' h'. finishes source (decode_seq_num header) (decode_publish_tsc header) s' h'))
      ]

  pub process_packet_bytes-Meets :
      (source : PacketSource) (bytes : List ℕ) (s : Feed)
      → limit_reached setup s ≡ false
      → P s
      → Meets P IsReal (process_packet_bytes setup source bytes s)
  unfolding process_packet_bytes
  process_packet_bytes-Meets source bytes s free h = elim (Option-cases (parse_packet bytes)) [
    | inl e ↦ rw e (λ p. cc)
    | inr (packet, e) ↦ rw e (elim (Option-cases packet.header) [
      | inl none_there ↦ rw none_there (λ p. cc)
      | inr (header, there) ↦ rw there (process_parsed-Meets source packet header s free h)
    ])
  ]
