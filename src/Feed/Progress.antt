-- ===== src/Feed/Progress.antt =====
-- A property that the single state changes keep is kept by every part of the event loop, whatever
-- arrives and whatever the recovery server sends, and no loop runs out of its fuel.
use binary_market_data_feed.Prelude.{
  ℕ, zero, suc, ◌+◌, ◌-◌, ◌^◌, ◌<◌, ◌≡◌, refl, ap, ◌∙◌, Bool-cases, Option-cases, inl, inr, List,
  [], ◌∷◌, arith, false, ◌||◌, ltb, ◌==◌, length, Meets, Meets-bind,
}
use binary_market_data_feed.Map.{find, put, erase, size, size-erase-lt}
use binary_market_data_feed.Wire.Bytes.{bswap-lt}
use binary_market_data_feed.Wire.Structs.{PacketHeader, MessageView, decode_seq_num}
use binary_market_data_feed.Wire.Packet.{parse_packet}
use binary_market_data_feed.Book.{apply, bbo_changed}
use binary_market_data_feed.Feed.{
  PacketSource, drain, replay, live, Feed, Setup, limit_reached, apply_message, sample_bbo,
  finish_packet, process_packet_bytes, drain_loop, drain_buffered_packets, replay_all,
  request_replay, buffer_packet, receive_parsed, receive_datagram,
}
use binary_market_data_feed.Feed.Keeping.{IsReal, process_packet_bytes-Meets}

buffered-apply_message :
    (setup : Setup) (publish_tsc : ℕ) (m : MessageView) (s : Feed)
    → (apply_message setup publish_tsc m s).buffered_packets ≡ s.buffered_packets
unfolding apply_message sample_bbo
buffered-apply_message setup publish_tsc m s =
    elim (Bool-cases (bbo_changed (apply s.order_book m).1)) [
      | inl changed ↦ rw changed (elim (Bool-cases (publish_tsc == 0)) [
        | inl unstamped ↦ rw unstamped
        | inr stamped ↦ rw stamped
      ])
      | inr same ↦ rw same
    ]

buffered-finish_packet :
    (setup : Setup) (source : PacketSource) (packet_seq publish_tsc : ℕ) (s : Feed)
    → (finish_packet setup source packet_seq publish_tsc s).buffered_packets ≡ s.buffered_packets
unfolding finish_packet
buffered-finish_packet setup live packet_seq publish_tsc s = refl
buffered-finish_packet setup replay packet_seq publish_tsc s = refl
buffered-finish_packet setup drain packet_seq publish_tsc s = refl

-- The state changes of the loops, beside those of a packet.
pub record IsKept (setup : Setup) (P : Feed → Type 0) : Type 0 where
  pub applies :
      (publish_tsc : ℕ) (m : MessageView) (s : Feed)
      → limit_reached setup s ≡ false
      → P s
      → P (apply_message setup publish_tsc m s)
  pub finishes :
      (source : PacketSource) (packet_seq publish_tsc : ℕ) (s : Feed)
      → P s
      → P (finish_packet setup source packet_seq publish_tsc s)
  pub erases :
      (k : ℕ) (s : Feed) → P s → P (record s { buffered_packets = erase k s.buffered_packets })
  pub requests : (s : Feed) → P s → P (record s { replay_requests = s.replay_requests + 1 })
  pub buffers :
      (k : ℕ) (bytes : List ℕ) (s : Feed)
      → k < 2 ^ 32
      → P s
      → P (record s {
        out_of_order_packets = s.out_of_order_packets + 1;
        buffered_packets = put k bytes s.buffered_packets;
      })

-- `P`, and the buffer of `s`.
abbrev Beside : (Feed → Type 0) → Feed → Feed → Type 0
Beside P s s' = P s' × (s'.buffered_packets ≡ s.buffered_packets)

module _ (setup : Setup) (P : Feed → Type 0) (kept : IsKept setup P) where
  -- A drained packet leaves the rest of the buffer as it is.
  process_drained-Meets :
      (bytes : List ℕ) (s : Feed)
      → limit_reached setup s ≡ false
      → P s
      → Meets (Beside P s) IsReal (process_packet_bytes setup drain bytes s)
  process_drained-Meets bytes s free h =
      process_packet_bytes-Meets setup (Beside P s)
        (λ publish_tsc m s' free' h'. (
          kept.applies publish_tsc m s' free' h'.0,
          buffered-apply_message setup publish_tsc m s' ∙ h'.1,
        ))
        (λ source packet_seq publish_tsc s' h'. (
          kept.finishes source packet_seq publish_tsc s' h'.0,
          buffered-finish_packet setup source packet_seq publish_tsc s' ∙ h'.1,
        ))
        drain bytes s free (h, refl)

  drain_loop-Meets :
      (fuel : ℕ) (s : Feed)
      → size s.buffered_packets < fuel
      → P s
      → Meets P IsReal (drain_loop setup fuel s)
  unfolding drain_loop limit_reached
  drain_loop-Meets zero s enough h = absurd (omega arith)
  drain_loop-Meets (suc fuel) s enough h = elim (Bool-cases (limit_reached setup s)) [
    | inl full ↦ rw full h
    | inr free ↦ rw free (elim (Option-cases (find s.expected_packet_seq s.buffered_packets)) [
      | inl missing ↦ rw missing h
      | inr (bytes, found) ↦
          let s' : Feed = record s {
            buffered_packets = erase s.expected_packet_seq s.buffered_packets;
          } in
          let smaller = size-erase-lt s.expected_packet_seq s.buffered_packets bytes found in
          rw found (
            Meets-bind (Beside P s') P IsReal (process_packet_bytes setup drain bytes s')
              (drain_loop setup fuel)
              (process_drained-Meets bytes s' free (kept.erases s.expected_packet_seq s h))
              (λ t (h', same). drain_loop-Meets fuel t (omega (arith, ap size same, smaller)) h'))
    ])
  ]

  drain-Meets : (s : Feed) → P s → Meets P IsReal (drain_buffered_packets setup s)
  unfolding drain_buffered_packets
  drain-Meets s h = drain_loop-Meets (suc (size s.buffered_packets)) s (omega arith) h

  replay_all-Meets :
      (batch : List (List ℕ)) (s : Feed) → P s → Meets P IsReal (replay_all setup batch s)
  unfolding replay_all
  replay_all-Meets [] s h = h
  replay_all-Meets (bytes ∷ batch) s h = elim (Bool-cases (limit_reached setup s)) [
    | inl full ↦ rw full h
    | inr free ↦ rw free (
        Meets-bind P P IsReal (process_packet_bytes setup replay bytes s) (replay_all setup batch)
          (process_packet_bytes-Meets setup P kept.applies kept.finishes replay bytes s free h)
          (λ s' h'. replay_all-Meets batch s' h'))
  ]

  request_replay-Meets :
      (start_seq end_seq : ℕ) (s : Feed)
      → P s
      → Meets P IsReal (request_replay setup start_seq end_seq s)
  unfolding request_replay
  request_replay-Meets start_seq end_seq s h =
      elim (Bool-cases (ltb end_seq start_seq || limit_reached setup s)) [
        | inl off ↦ rw off h
        | inr on ↦
            let s' : Feed = record s { replay_requests = s.replay_requests + 1 } in
            rw on (elim (Option-cases (setup.request_packets s.replay_requests start_seq end_seq)) [
              | inl failed ↦ rw failed (λ p. cc)
              | inr (batch, e) ↦ rw e (elim (Bool-cases (length batch == end_seq - start_seq + 1)) [
                | inr short ↦ rw short (λ p. cc)
                | inl whole ↦ rw whole (
                    Meets-bind P P IsReal (replay_all setup batch s') (drain_buffered_packets setup)
                      (replay_all-Meets batch s' (kept.requests s h)) drain-Meets)
              ])
            ])
      ]

  receive_parsed-Meets :
      (bytes : List ℕ) (header : PacketHeader) (s : Feed)
      → limit_reached setup s ≡ false
      → P s
      → Meets P IsReal (receive_parsed setup bytes header s)
  unfolding receive_parsed buffer_packet decode_seq_num
  receive_parsed-Meets bytes header s free h =
      let k = decode_seq_num header in
      let small : k < 2 ^ 32 = bswap-lt 4 header.seq_num in
      elim (Bool-cases (ltb k s.expected_packet_seq)) [
        | inl stale ↦ rw stale h
        | inr fresh ↦ rw fresh (elim (Bool-cases (ltb s.expected_packet_seq k)) [
          | inl early ↦ rw early (request_replay-Meets _ _ _ (kept.buffers k bytes s small h))
          | inr due ↦ rw due (
              Meets-bind P P IsReal (process_packet_bytes setup live bytes s)
                (drain_buffered_packets setup)
                (process_packet_bytes-Meets setup P kept.applies kept.finishes live bytes s free h)
                drain-Meets)
        ])
      ]

  pub receive_datagram-Meets :
      (bytes : List ℕ) (s : Feed)
      → limit_reached setup s ≡ false
      → P s
      → Meets P IsReal (receive_datagram setup bytes s)
  unfolding receive_datagram
  receive_datagram-Meets bytes s free h = elim (Option-cases (parse_packet bytes)) [
    | inl e ↦ rw e h
    | inr (packet, e) ↦ rw e (elim (Option-cases packet.header) [
      | inl none_there ↦ rw none_there h
      | inr (header, there) ↦ rw there (receive_parsed-Meets bytes header s free h)
    ])
  ]
