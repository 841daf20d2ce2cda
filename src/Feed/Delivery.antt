-- ===== src/Feed/Delivery.antt =====
-- What the handler makes of a published stream that the network loses, repeats and reorders.
use binary_market_data_feed.Prelude.{
  ℕ, zero, suc, ◌+◌, ◌-◌, ◌^◌, ◌≤◌, ◌<◌, ◌≡◌, refl, sym, ap, ◌∙◌, subst, subst₂, inl, inr, none,
  some, List, [], ◌∷◌, map, arith, ltb, ltb→lt, ltb→le, lt→ltb, le→ltb, Bool-cases, if◌then◌else◌,
  length, Result, ok, ◌>>=◌,
}
use binary_market_data_feed.Map.{put, first?}
use binary_market_data_feed.Wire.Fields.{decode-make_packet_header}
use binary_market_data_feed.Wire.Packet.{parse_packet}
use binary_market_data_feed.Feed.{
  live, FeedError, Feed, Setup, gap_end, process_packet_bytes, drain_buffered_packets,
  request_replay, buffer_packet, receive_parsed, receive_datagram, receive_all,
}
use binary_market_data_feed.Feed.Stream.{
  Publication, image_of, book_upto, IsPublication, At, Ends, Ends-bind, limit_reached_off,
}
use binary_market_data_feed.Feed.Sequence.{range, process_due, parsed_image}
use binary_market_data_feed.Feed.GapFill.{drain_empty, fill_gap}

-- What arrives: a datagram that is no packet, or a packet of the stream.
pub data Arrival : Type 0 where
  noise : List ℕ → Arrival
  packet : ℕ → Arrival

unfoldable pub datagram : (ℕ → Publication) → Arrival → List ℕ
datagram stream (noise bytes) = bytes
datagram stream (packet k) = image_of stream k

abbrev pub IsArrival : ℕ → Arrival → Type 0
IsArrival last (noise bytes) = parse_packet bytes ≡ none
IsArrival last (packet k) = (1 ≤ k) × (k ≤ last)

abbrev pub AreArrivals : ℕ → List Arrival → Type 0
AreArrivals last [] = Unit {0}
AreArrivals last (a ∷ rest) = IsArrival last a × AreArrivals last rest

-- The highest number received, or applied before.
unfoldable pub highest : ℕ → List Arrival → ℕ
highest n [] = n
highest n (noise bytes ∷ rest) = highest n rest
highest n (packet k ∷ rest) = highest (if ltb n k then k else n) rest

-- The recovery server still has every packet of the stream, and sends the range that is asked for.
abbrev pub Answers : Setup → (ℕ → Publication) → ℕ → Type 0
Answers setup stream last =
    (requests a b : ℕ)
    → 1 ≤ a
    → a ≤ b
    → b ≤ last
    → setup.request_packets requests a b ≡ some (range stream a (b - a + 1))

pub highest_le :
    (last n : ℕ) (a : Arrival) → n ≤ last → IsArrival last a → highest n (a ∷ []) ≤ last
unfolding highest
highest_le last n (noise bytes) h v = h
highest_le last n (packet k) h v = ground arith

put-empty : (k : ℕ) (bytes : List ℕ) → put k bytes [] ≡ (k, bytes) ∷ []
unfolding put
put-empty k bytes = refl

gap_end-single : (j : ℕ) (bytes : List ℕ) → suc j < 2 ^ 32 → gap_end ((suc j, bytes) ∷ []) ≡ j
unfolding gap_end first?
gap_end-single j bytes h = omega arith

module _ (setup : Setup) (unlimited : setup.messages ≡ 0) (stream : ℕ → Publication) (last : ℕ)
    (published : (k : ℕ) → k ≤ last → IsPublication (stream k)) (room : last + 1 < 2 ^ 32) where
  receive_image :
      (k : ℕ) (s : Feed)
      → suc k ≤ last
      → receive_datagram setup (image_of stream (suc k)) s ≡ (
          if ltb (suc k) s.expected_packet_seq
          then ok s
          else if ltb s.expected_packet_seq (suc k)
          then buffer_packet setup (suc k) (image_of stream (suc k)) s
          else process_packet_bytes setup live (image_of stream (suc k)) s
            >>= drain_buffered_packets setup)
  unfolding receive_datagram receive_parsed
  receive_image k s h =
      let p = published (suc k) h in
      let (seq, count, stamp) =
        decode-make_packet_header (suc k) (length (stream (suc k)).messages)
          (stream (suc k)).publish_tsc (omega arith) (omega (arith, p.few)) p.tsc in
      rw (parsed_image stream (suc k) p, seq)

  receive_stale :
      (k : ℕ) (s : Feed)
      → suc k ≤ last
      → suc k < s.expected_packet_seq
      → receive_datagram setup (image_of stream (suc k)) s ≡ ok s
  receive_stale k s h behind = rw (receive_image k s h, lt→ltb _ _ behind)

  receive_now :
      (k : ℕ) (s : Feed)
      → suc k ≤ last
      → s.expected_packet_seq ≡ suc k
      → receive_datagram setup (image_of stream (suc k)) s ≡ (
          process_packet_bytes setup live (image_of stream (suc k)) s
          >>= drain_buffered_packets setup)
  receive_now k s h e = rw (
    receive_image k s h,
    le→ltb (suc k) s.expected_packet_seq (omega arith),
    le→ltb s.expected_packet_seq (suc k) (omega arith),
  )

  receive_early :
      (k : ℕ) (s : Feed)
      → suc k ≤ last
      → s.expected_packet_seq < suc k
      → receive_datagram setup (image_of stream (suc k)) s
        ≡ buffer_packet setup (suc k) (image_of stream (suc k)) s
  receive_early k s h early = rw (
    receive_image k s h,
    le→ltb (suc k) s.expected_packet_seq (omega arith),
    lt→ltb s.expected_packet_seq (suc k) early,
  )

  receive_noise :
      (bytes : List ℕ) (s : Feed)
      → parse_packet bytes ≡ none
      → receive_datagram setup bytes s ≡ ok s
  unfolding receive_datagram
  receive_noise bytes s e = rw e

  receive_due :
      (n : ℕ) (s : Feed)
      → suc n ≤ last
      → At s (book_upto stream n) [] (suc n)
      → Ends
          (process_packet_bytes setup live (image_of stream (suc n)) s
            >>= drain_buffered_packets setup)
          (book_upto stream (suc n))
          []
          (suc (suc n))
  receive_due n s h a =
      Ends-bind (process_due setup unlimited stream last published room live n s [] h a)
        (λ s' a'. drain_empty setup unlimited s' _ _ a')

  -- What a packet ahead of the others leaves in the buffer.
  unfoldable pub early_at : ℕ → Feed → Feed
  early_at j s = record s {
    out_of_order_packets = s.out_of_order_packets + 1;
    buffered_packets = put (suc j) (image_of stream (suc j)) s.buffered_packets;
  }

  -- It is the only one there, and the request ends before it.
  pub buffer_packet_ahead :
      (P : Result FeedError Feed → Type 0) (n j : ℕ) (s : Feed)
      → suc j ≤ last
      → At s (book_upto stream n) [] (suc n)
      → (At (early_at j s) (book_upto stream n) ((suc j, image_of stream (suc j)) ∷ []) (suc n)
          → P (request_replay setup (suc n) j (early_at j s)))
      → P (buffer_packet setup (suc j) (image_of stream (suc j)) s)
  unfolding buffer_packet early_at
  buffer_packet_ahead P n j s h a requests =
      let bytes = image_of stream (suc j) in
      let alone : put (suc j) bytes s.buffered_packets ≡ (suc j, bytes) ∷ [] =
        ap (put (suc j) bytes) a.buffer_is ∙ put-empty (suc j) bytes in
      subst₂ (λ (seq end : ℕ). P (request_replay setup seq end (early_at j s))) (sym a.seq_is)
        (sym (ap gap_end alone ∙ gap_end-single j bytes (omega arith)))
        (requests (record { book_is = a.book_is; buffer_is = alone; seq_is = a.seq_is }))

  -- One datagram, by what becomes of a packet ahead of the others: `X` tells a result from the number
  -- of packets that are applied then.
  pub receive_arrival_by :
      (X : Result FeedError Feed → ℕ → Type 0)
      → ((r : Result FeedError Feed) (m : ℕ) → Ends r (book_upto stream m) [] (suc m) → X r m)
      → ((n j : ℕ) (s : Feed)
          → n < j
          → suc j ≤ last
          → At s (book_upto stream n) [] (suc n)
          → X (buffer_packet setup (suc j) (image_of stream (suc j)) s) (suc j))
      → (n : ℕ) (a : Arrival) (s : Feed) → n ≤ last
      → IsArrival last a
      → At s (book_upto stream n) [] (suc n)
      → X (receive_datagram setup (datagram stream a) s) (highest n (a ∷ []))
  unfolding datagram highest
  receive_arrival_by X fine ahead n (noise bytes) s h v at =
      fine _ n (s, receive_noise bytes s v, at)
  receive_arrival_by X fine ahead n (packet zero) s h v at = absurd (omega arith)
  receive_arrival_by X fine ahead n (packet (suc k)) s h v at = elim (Bool-cases (ltb n (suc k))) [
    | inr old ↦
        let behind : suc k < s.expected_packet_seq = omega (arith, ltb→le _ _ old, at.seq_is) in
        rw old (fine _ n (s, receive_stale k s v.1 behind, at))
    | inl new ↦ rw new (elim (Bool-cases (ltb n k)) [
      | inl gap ↦
          let early : s.expected_packet_seq < suc k = omega (arith, ltb→lt _ _ gap, at.seq_is) in
          rw (receive_early k s v.1 early) (ahead n k s (ltb→lt _ _ gap) v.1 at)
      | inr due ↦
          let same : n ≡ k = omega (arith, ltb→le _ _ due, ltb→lt _ _ new) in
          rw (receive_now k s v.1 (at.seq_is ∙ ap suc same)) (
            fine _ (suc k) (
              receive_due k s v.1
                (subst (λ (j : ℕ). At s (book_upto stream j) [] (suc j)) same at)))
    ])
  ]

module _ (setup : Setup) (unlimited : setup.messages ≡ 0) (stream : ℕ → Publication) (last : ℕ)
    (published : (k : ℕ) → k ≤ last → IsPublication (stream k)) (room : last + 1 < 2 ^ 32)
    (answers : Answers setup stream last) where
  -- One datagram: the book is then that of the packets up to the highest number seen.
  pub receive_arrival :
      (n : ℕ) (a : Arrival) (s : Feed)
      → n ≤ last
      → IsArrival last a
      → At s (book_upto stream n) [] (suc n)
      → let m = highest n (a ∷ []) in
        Ends (receive_datagram setup (datagram stream a) s) (book_upto stream m) [] (suc m)
  receive_arrival =
      receive_arrival_by setup unlimited stream last published room
        (λ r m. Ends r (book_upto stream m) [] (suc m)) (λ r m ends. ends)
        (λ n j s gap h at.
          buffer_packet_ahead setup unlimited stream last published room
            (λ r. Ends r (book_upto stream (suc j)) [] (suc (suc j))) n j s h at
            (fill_gap setup unlimited stream last published room n j _ gap h answers))

  highest-cons :
      (n : ℕ) (a : Arrival) (rest : List Arrival)
      → highest n (a ∷ rest) ≡ highest (highest n (a ∷ [])) rest
  unfolding highest
  highest-cons n (noise bytes) rest = refl
  highest-cons n (packet k) rest = refl

  receive_step :
      (bytes : List ℕ) (datagrams : List (List ℕ)) (s : Feed)
      → receive_all setup (bytes ∷ datagrams) s
        ≡ (receive_datagram setup bytes s >>= receive_all setup datagrams)
  unfolding receive_all
  receive_step bytes datagrams s = rw (limit_reached_off setup unlimited s)

  -- From a state in which all packets up to some number are applied and none is buffered: whatever the
  -- network loses, repeats or reorders of a published stream whose packets the recovery server all
  -- replays, and whatever else it delivers that is no packet, the handler never throws, no packet
  -- stays in its buffer, and its book is that of all packets up to the highest number received, each
  -- applied once and in order. The limit on messages is off, and the numbers do not wrap.
  pub receive_all_delivers :
      (n : ℕ) (arrivals : List Arrival) (s : Feed)
      → n ≤ last
      → AreArrivals last arrivals
      → At s (book_upto stream n) [] (suc n)
      → let m = highest n arrivals in
        Ends (receive_all setup (map (datagram stream) arrivals) s) (book_upto stream m) [] (suc m)
  unfolding receive_all highest
  receive_all_delivers n [] s h v a = (s, refl, a)
  receive_all_delivers n (x ∷ rest) s h v a =
      rw (receive_step (datagram stream x) (map (datagram stream) rest) s, highest-cons n x rest)
        (Ends-bind (receive_arrival n x s h v.0 a) (λ s' a'.
          receive_all_delivers (highest n (x ∷ [])) rest s' (highest_le last n x h v.0) v.1 a'))
