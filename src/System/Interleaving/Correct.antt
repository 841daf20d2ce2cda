-- ===== src/System/Interleaving/Correct.antt =====
-- The handler's book while the two programs run beside each other.
use binary_market_data_feed.Prelude.{
  ℕ, zero, suc, ◌+◌, ◌-◌, ◌*◌, ◌^◌, ◌≤◌, ◌<◌, ◌≡◌, sym, ap, ◌∙◌, subst, List, [], ◌∷◌, arith,
  length, get_or-take, take, take-append_le, length-take, All-take, ok, err, true, inl, inr, ◌⊎◌,
}
use binary_market_data_feed.Book.{empty_book}
use binary_market_data_feed.Book.Run.{update_all}
use binary_market_data_feed.Feed.{Setup, recovery_failed, Feed}
use binary_market_data_feed.Feed.Stream.{Publication, book_upto}
use binary_market_data_feed.Simulator.Options.{Options}
use binary_market_data_feed.Simulator.Publisher.{Publisher, World}
use binary_market_data_feed.Simulator.Published.{
  stream_of, messages_in, no_publication, all_publications,
}
use binary_market_data_feed.Simulator.Rounds.{IsWorld, IsPacketOf}
use binary_market_data_feed.Simulator.Session.{IsSensible}
use binary_market_data_feed.System.{all_views, book_upto-add, IsBookOf, book-IsBookOf}
use binary_market_data_feed.System.Interleaving.{State, initial, Reach, highest_number}
use binary_market_data_feed.System.Interleaving.Invariant.{IsPublishing, IsApplied}
use binary_market_data_feed.System.Interleaving.Running.{Reach-IsRunning}

book_upto-take :
    (ps : List Publication) (n : ℕ)
    → n ≤ length ps
    → book_upto (stream_of ps) n ≡ update_all empty_book (all_views (take n ps))
unfolding stream_of book_upto
book_upto-take ps n h =
    let count : 0 + length (take n ps) ≡ n = omega (arith, length-take n ps h) in
    let books = book_upto-add (stream_of ps) 0 (take n ps) (λ i below.
      let index : suc (0 + i) - 1 ≡ i = omega arith in
      rw index (sym (get_or-take n ps i no_publication (omega (arith, length-take n ps h))))) in
    ap (book_upto (stream_of ps)) (sym count) ∙ books

messages_in-take-le : (n : ℕ) (ps : List Publication) → messages_in (take n ps) ≤ messages_in ps
unfolding messages_in
messages_in-take-le zero ps = omega arith
messages_in-take-le (suc n) [] = omega arith
messages_in-take-le (suc n) (p ∷ ps) = omega (arith, messages_in-take-le n ps)

pub IsApplied-IsBookOf :
    (world : World) (o : Options) (s : State) (ps : List Publication) (p : Publisher) (f : Feed)
    → o.messages * 250 < 2 ^ 32
    → IsPublishing world o s ps p
    → IsApplied s ps f
    → IsBookOf (take (highest_number 0 s.received) (all_publications world o)) f.order_book
IsApplied-IsBookOf world o s ps p f few h k =
    let n = highest_number 0 s.received in
    let (fuel, _, rest) = h.to_come in
    let same : take n ps ≡ take n (all_publications world o) =
      sym (take-append_le n ps _ k.stored_first) ∙ ap (take n) rest in
    subst (λ (qs : List Publication). IsBookOf qs f.order_book) same
      (book-IsBookOf (take n ps) f.order_book (All-take IsPacketOf n ps h.published.packets)
        (omega (arith, messages_in-take-le n ps, h.published.emitted, h.within))
        (k.applied.book_is ∙ book_upto-take ps n k.stored_first))

-- The handler keeps nothing buffered, has applied the packets up to the highest number that it received,
-- and none before it is stored; and the book is that of these packets.
abbrev pub HasKeptUp : World → Options → State → Publisher → Type 0
HasKeptUp world o s p =
    (f : Feed) × (s.handler ≡ ok f)
    × (highest_number 0 s.received < p.packet_sequence)
    × (f.expected_packet_seq ≡ suc (highest_number 0 s.received))
    × (f.buffered_packets ≡ [])
    × IsBookOf (take (highest_number 0 s.received) (all_publications world o)) f.order_book

-- Whatever the order of rounds of the publishing loop and of datagrams, with datagrams lost, repeated,
-- late or no packet, and the recovery channel cut at any of them: at every moment the publisher has not
-- thrown, and the handler keeps nothing buffered, has applied the packets up to the highest number that
-- it received, each once and in order, and its live orders and best prices are those of these packets;
-- or the handler has thrown that it could not recover, and the channel was cut at some datagram. There
-- are 1 to 42 messages per packet, and so few that 250 for each stay below 2 ^ 32; the limit on messages
-- is off, random numbers keep their bounds, the clock has 64 bits, and ::sendto sends each datagram
-- whole.
pub always_in_step :
    (world : World) (o : Options) (setup : Setup) (s : State)
    → IsWorld world
    → IsSensible o
    → o.messages * 250 < 2 ^ 32
    → Reach world o setup initial s
    → (p : Publisher) × (s.publisher ≡ ok p)
      × (HasKeptUp world o s p ⊎ ((s.cut ≡ true) × (s.handler ≡ err recovery_failed)))
always_in_step world o setup s fine sensible few r =
    let (ps, p, h, handling) = Reach-IsRunning world o setup fine sensible r in
    (
      p,
      h.publisher_is,
      elim handling [
        | inr thrown ↦ inr thrown
        | inl (f, k) ↦ inl (
          f,
          k.handler_is,
          omega (arith, h.published.seq, k.stored_first),
          k.applied.seq_is,
          k.applied.buffer_is,
          IsApplied-IsBookOf world o s ps p f few h k,
        )
      ],
    )
