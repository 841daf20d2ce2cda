-- ===== src/Feed/GapFill.antt =====
-- Replays and drains along a published stream.
use binary_market_data_feed.Prelude.{
  ℕ, zero, suc, ◌+◌, ◌-◌, ◌^◌, ◌≤◌, ◌<◌, ◌≡◌, refl, sym, ap, ap₂, ◌∙◌, subst, none, some, List, [],
  ◌∷◌, arith, ok, ◌>>=◌, ==-refl, le→ltb,
}
use binary_market_data_feed.Map.{Map, find, erase, size, find-empty}
use binary_market_data_feed.Book.{OrderBook}
use binary_market_data_feed.Feed.{
  replay, drain, Feed, Setup, process_packet_bytes, drain_loop, drain_buffered_packets, replay_all,
  request_replay,
}
use binary_market_data_feed.Feed.Stream.{
  Publication, image_of, book_upto, IsPublication, At, Ends, Ends-bind, limit_reached_off,
}
use binary_market_data_feed.Feed.Sequence.{range, length-range, process_due}

size-single : {m : Map (List ℕ)} {k : ℕ} {bytes : List ℕ} → m ≡ (k, bytes) ∷ [] → size m ≡ 1
unfolding size
size-single e = rw e

find-single : (k : ℕ) (bytes : List ℕ) → find k ((k, bytes) ∷ []) ≡ some bytes
unfolding find
find-single k bytes = rw (==-refl k)

erase-single : (k : ℕ) (bytes : List ℕ) → erase k ((k, bytes) ∷ []) ≡ []
unfolding erase
erase-single k bytes = rw (==-refl k)

module _ (setup : Setup) (unlimited : setup.messages ≡ 0) where
  drain_done :
      (fuel : ℕ) (s : Feed)
      → find s.expected_packet_seq s.buffered_packets ≡ none
      → drain_loop setup (suc fuel) s ≡ ok s
  unfolding drain_loop
  drain_done fuel s e = ground (arith, e, limit_reached_off setup unlimited s)

  drain_step :
      (fuel : ℕ) (s : Feed) (bytes : List ℕ)
      → find s.expected_packet_seq s.buffered_packets ≡ some bytes
      → drain_loop setup (suc fuel) s ≡ (
          process_packet_bytes setup drain bytes
            (record s { buffered_packets = erase s.expected_packet_seq s.buffered_packets })
          >>= drain_loop setup fuel)
  unfolding drain_loop
  drain_step fuel s bytes e = rw (limit_reached_off setup unlimited s, e)

  replay_step :
      (bytes : List ℕ) (batch : List (List ℕ)) (s : Feed)
      → replay_all setup (bytes ∷ batch) s
        ≡ (process_packet_bytes setup replay bytes s >>= replay_all setup batch)
  unfolding replay_all
  replay_step bytes batch s = rw (limit_reached_off setup unlimited s)

  -- With nothing buffered the drain returns at once.
  pub drain_empty :
      (s : Feed) (book : OrderBook) (seq : ℕ)
      → At s book [] seq
      → Ends (drain_buffered_packets setup s) book [] seq
  unfolding drain_buffered_packets
  drain_empty s book seq a =
      let nothing =
        ap (find s.expected_packet_seq) a.buffer_is ∙ find-empty s.expected_packet_seq in
      rw (drain_done (size s.buffered_packets) s nothing) (s, refl, a)

module _ (setup : Setup) (unlimited : setup.messages ≡ 0) (stream : ℕ → Publication) (last : ℕ)
    (published : (k : ℕ) → k ≤ last → IsPublication (stream k)) (room : last + 1 < 2 ^ 32) where
  -- A replayed range is applied packet by packet.
  pub replay_range :
      (count n m : ℕ) (s : Feed) (buffer : Map (List ℕ))
      → n + count ≡ m
      → m ≤ last
      → At s (book_upto stream n) buffer (suc n)
      → Ends (replay_all setup (range stream (suc n) count) s) (book_upto stream m) buffer (suc m)
  unfolding range replay_all
  replay_range zero n m s buffer e h a =
      let same : n ≡ m = omega arith in
      (s, refl, subst (λ (k : ℕ). At s (book_upto stream k) buffer (suc k)) same a)
  replay_range (suc count) n m s buffer e h a =
      rw
        (replay_step setup unlimited (image_of stream (suc n)) (range stream (suc (suc n)) count) s)
        (Ends-bind
          (process_due setup unlimited stream last published room replay n s buffer (omega arith) a)
          (λ s' a'. replay_range count (suc n) m s' buffer (omega arith) h a'))

  -- The one buffered packet is applied when it is due, and leaves the buffer empty.
  pub drain_one :
      (n : ℕ) (s : Feed)
      → suc n ≤ last
      → At s (book_upto stream n) ((suc n, image_of stream (suc n)) ∷ []) (suc n)
      → Ends (drain_buffered_packets setup s) (book_upto stream (suc n)) [] (suc (suc n))
  unfolding drain_buffered_packets
  drain_one n s h a =
      let bytes = image_of stream (suc n) in
      let one : size s.buffered_packets ≡ 1 = size-single a.buffer_is in
      let found = ap₂ find a.seq_is a.buffer_is ∙ find-single (suc n) bytes in
      let taken : At _ (book_upto stream n) [] (suc n) = record {
        book_is = a.book_is;
        buffer_is = ap₂ erase a.seq_is a.buffer_is ∙ erase-single (suc n) bytes;
        seq_is = a.seq_is;
      } in
      subst
        (λ (k : ℕ). Ends (drain_loop setup (suc k) s) (book_upto stream (suc n)) [] (suc (suc n)))
        (sym one)
        (rw (drain_step setup unlimited 1 s bytes found) (
          Ends-bind (process_due setup unlimited stream last published room drain n _ [] h taken)
            (λ s' a'.
              let nothing =
                ap (find s'.expected_packet_seq) a'.buffer_is ∙ find-empty s'.expected_packet_seq in
              rw (drain_done setup unlimited 0 s' nothing) (s', refl, a'))))

  -- A gap before the one buffered packet: the replay covers it, and the drain applies the packet.
  pub fill_gap :
      (n j : ℕ) (s : Feed)
      → n < j
      → suc j ≤ last
      → ((requests a b : ℕ)
          → suc zero ≤ a
          → a ≤ b
          → b ≤ last
          → setup.request_packets requests a b ≡ some (range stream a (b - a + 1)))
      → At s (book_upto stream n) ((suc j, image_of stream (suc j)) ∷ []) (suc n)
      → Ends (request_replay setup (suc n) j s) (book_upto stream (suc j)) [] (suc (suc j))
  unfolding request_replay
  fill_gap n j s gap h answers a =
      rw
        (
          le→ltb j (suc n) gap,
          limit_reached_off setup unlimited s,
          answers s.replay_requests (suc n) j (omega arith) gap (omega arith),
          length-range,
          ==-refl,
        )
        (Ends-bind
          (replay_range (j - suc n + 1) n j _ _ (omega arith) (omega arith)
            (record { book_is = a.book_is; buffer_is = a.buffer_is; seq_is = a.seq_is }))
          (λ s' a'. drain_one j s' h a'))
