-- ===== src/System/Interleaving/Invariant.antt =====
-- What holds whenever the two programs run beside each other.
use binary_market_data_feed.Prelude.{
  ℕ, zero, suc, ◌+◌, ◌-◌, ◌^◌, ◌≤◌, ◌<◌, ◌≡◌, refl, sym, ◌∙◌, subst, inl, inr, List, [], ◌∷◌, ◌++◌,
  append_assoc, arith, min, lt→ltb, Bool, true, false, ◌⊎◌, err, length, length-append, ok,
}
use binary_market_data_feed.Feed.{Setup, recovery_failed, Feed, receive_datagram}
use binary_market_data_feed.Feed.Stream.{Publication, At, Ends, book_upto}
use binary_market_data_feed.Feed.Delivery.{
  Arrival, datagram, IsArrival, highest, receive_arrival, highest_le,
}
use binary_market_data_feed.Feed.Cut.{receive_arrival_cut}
use binary_market_data_feed.Simulator.Options.{Options}
use binary_market_data_feed.Simulator.Publisher.{Publisher, World, make_batch, publish_packet}
use binary_market_data_feed.Simulator.Published.{
  stream_of, book_upto_ext, stream_of-snoc, publications, all_publications,
}
use binary_market_data_feed.Simulator.Rounds.{IsWorld, HasPublished}
use binary_market_data_feed.Simulator.Session.{
  IsSensible, length-le-messages_in, publish_packet_lem,
}
use binary_market_data_feed.System.{stream_of-IsPublication, history-Answers}
use binary_market_data_feed.System.Interleaving.{State, setup_with, highest_number, gets}
use binary_market_data_feed.System.Interleaving.Numbers.{highest_number-append, highest-datagram}

-- What is still to be published, from such a state.
abbrev pub IsToCome : World → Options → List Publication → Publisher → Type 0
IsToCome world o ps p =
    (fuel : ℕ) × (o.messages - p.emitted_messages < fuel)
    × (ps ++ publications world o fuel p.emitted_messages p.reads p.generator
        ≡ all_publications world o)

-- The publisher has stored the packets `ps`.
pub record IsPublishing (world : World) (o : Options) (s : State) (ps : List Publication)
    (p : Publisher) : Type 0 where
  pub publisher_is : s.publisher ≡ ok p
  pub published : HasPublished o ps p
  pub within : p.emitted_messages ≤ o.messages
  pub to_come : IsToCome world o ps p

-- The handler has applied those up to the highest number that it received.
pub record IsApplied (s : State) (ps : List Publication) (f : Feed) : Type 0 where
  pub handler_is : s.handler ≡ ok f
  pub stored_first : highest_number 0 s.received ≤ length ps
  pub applied :
      At f
        (book_upto (stream_of ps) (highest_number 0 s.received))
        []
        (suc (highest_number 0 s.received))

-- The next packet is the first of those that are still to come.
IsToCome-next :
    (world : World) (o : Options) (ps : List Publication) (p p' : Publisher) (fuel : ℕ)
    → 1 ≤ o.messages_per_packet
    → p.emitted_messages < o.messages
    → o.messages - p.emitted_messages < fuel
    → let n : ℕ = min o.messages_per_packet (o.messages - p.emitted_messages) in
      let made = make_batch world n p.generator in
      let q : Publication = record { messages = made.0; publish_tsc = world.read_tsc p.reads } in
      ps ++ publications world o fuel p.emitted_messages p.reads p.generator
        ≡ all_publications world o
      → p'.generator ≡ made.1
      → p'.reads ≡ p.reads + 1
      → p'.emitted_messages ≡ p.emitted_messages + n
      → IsToCome world o (ps ++ q ∷ []) p'
unfolding publications
IsToCome-next world o ps p p' zero some_there more enough e gen reads emitted = absurd (omega arith)
IsToCome-next world o ps p p' (suc fuel) some_there more enough e gen reads emitted =
    let n : ℕ = min o.messages_per_packet (o.messages - p.emitted_messages) in
    let made = make_batch world n p.generator in
    let q : Publication = record { messages = made.0; publish_tsc = world.read_tsc p.reads } in
    let test = lt→ltb p.emitted_messages o.messages more in
    let unrolled : ps ++ q ∷ publications world o fuel (p.emitted_messages + n) (p.reads + 1) made.1
        ≡ all_publications world o =
      rw test at e in
    (
      fuel,
      omega (arith, emitted),
      append_assoc ps (q ∷ []) _
          ∙ ((λ i. ps ++ q ∷ publications world o fuel (emitted i) (reads i) (gen i)) ∙ unrolled),
    )

module _ (world : World) (o : Options) (setup : Setup) (sensible : IsSensible o) (s : State)
    (ps : List Publication) (p : Publisher) (f : Feed) (h : IsPublishing world o s ps p)
    (k : IsApplied s ps f) where
  room : length ps + 1 < 2 ^ 32
  room = omega (
    arith,
    length-le-messages_in ps h.published.packets,
    h.published.emitted,
    h.within,
    sensible.room,
  )

  -- The state behind a datagram that was received so.
  got :
      (connected : Bool) (a : Arrival)
      → IsArrival (length ps) a
      → let bytes = datagram (stream_of ps) a in
        let m = highest (highest_number 0 s.received) (a ∷ []) in
        Ends
          (receive_datagram (setup_with setup connected p) bytes f)
          (book_upto (stream_of ps) m)
          []
          (suc m)
        → (f' : Feed) × IsApplied (gets setup s connected p f bytes) ps f'
  got connected a v (f', e, at) =
      let stream = stream_of ps in
      let n = highest_number 0 s.received in
      let bytes = datagram stream a in
      let published = stream_of-IsPublication ps h.published.packets in
      let counted : highest n (a ∷ []) ≡ highest_number 0 (s.received ++ bytes ∷ []) =
        highest-datagram stream n (length ps) a published (omega (arith, room)) v
        ∙ sym (highest_number-append 0 s.received (bytes ∷ [])) in
      (
        f',
        record {
          handler_is = e;
          stored_first =
              subst (λ (m : ℕ). m ≤ length ps) counted
                (highest_le (length ps) n a k.stored_first v);
          applied = subst (λ (m : ℕ). At f' (book_upto stream m) [] (suc m)) counted at;
        },
      )

  -- An arrival is applied.
  pub arrives_connected :
      (a : Arrival)
      → IsArrival (length ps) a
      → (f' : Feed) × IsApplied (gets setup s true p f (datagram (stream_of ps) a)) ps f'
  arrives_connected a v =
      let published = stream_of-IsPublication ps h.published.packets in
      let answers =
        history-Answers (setup_with setup true p) p.packet_history (stream_of ps) (length ps)
          h.published.history (omega (arith, room)) (λ requests x y. refl) in
      got true a v (
        receive_arrival (setup_with setup true p) refl (stream_of ps) (length ps)
          (λ k below. published k) room answers (highest_number 0 s.received) a f k.stored_first v
          k.applied)

  -- Or the recovery channel is cut, and the handler throws for that.
  pub arrives :
      (connected : Bool) (a : Arrival)
      → IsArrival (length ps) a
      → let bytes = datagram (stream_of ps) a in
        let t = gets setup s connected p f bytes in
        ((f' : Feed) × IsApplied t ps f') ⊎ ((t.cut ≡ true) × (t.handler ≡ err recovery_failed))
  arrives true a v = inl (arrives_connected a v)
  arrives false a v =
      let published = stream_of-IsPublication ps h.published.packets in
      let result =
        receive_arrival_cut (setup_with setup false p) refl (stream_of ps) (length ps)
          (λ k below. published k) room (λ x y z. refl) (highest_number 0 s.received) a f
          k.stored_first v k.applied in
      elim result [ inl ends ↦ inl (got false a v ends) | inr thrown ↦ inr (refl, thrown) ]

-- What is applied stays so when one more packet is stored.
pub IsApplied-snoc :
    (s t : State) (ps : List Publication) (q : Publication) (f : Feed)
    → t.handler ≡ s.handler
    → t.received ≡ s.received
    → IsApplied s ps f
    → IsApplied t (ps ++ q ∷ []) f
IsApplied-snoc s t ps q f same same' k =
    let seen = highest_number 0 s.received in
    let book : book_upto (stream_of ps) seen ≡ book_upto (stream_of (ps ++ q ∷ [])) seen =
      book_upto_ext _ _ seen
        (λ i l below. stream_of-snoc ps q i l (omega (arith, below, k.stored_first))) in
    record {
      handler_is = same ∙ k.handler_is;
      stored_first = rw same' (omega (arith, k.stored_first, length-append ps (q ∷ [])));
      applied = rw same' (record {
        book_is = k.applied.book_is ∙ book;
        buffer_is = k.applied.buffer_is;
        seq_is = k.applied.seq_is;
      });
    }

-- A round of the publishing loop.
pub publishes_on :
    (world : World) (o : Options) (s : State) (ps : List Publication) (p : Publisher)
    → IsWorld world
    → IsSensible o
    → IsPublishing world o s ps p
    → p.emitted_messages < o.messages
    → (q : Publication) × (p' : Publisher) × IsPublishing world o
        (record s { publisher = publish_packet world o p })
        (ps ++ q ∷ [])
        p'
      × (p.emitted_messages < p'.emitted_messages)
publishes_on world o s ps p fine sensible h more =
    let n : ℕ = min o.messages_per_packet (o.messages - p.emitted_messages) in
    let q : Publication = record {
      messages = (make_batch world n p.generator).0;
      publish_tsc = world.read_tsc p.reads;
    } in
    let (p', e, h', gen, reads, emitted) =
      publish_packet_lem world fine o sensible ps p h.published more in
    let (fuel, enough, rest) = h.to_come in
    (
      q,
      p',
      record {
        publisher_is = e;
        published = h';
        within = omega (arith, emitted, h.within);
        to_come =
            IsToCome-next world o ps p p' fuel sensible.some_per_packet more enough rest gen reads
              emitted;
      },
      omega (arith, emitted, sensible.some_per_packet),
    )
