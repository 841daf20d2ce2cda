-- ===== src/System/Interleaving/Progress.antt =====
-- From every state that the two programs can reach, all messages can still be published and applied.
use binary_market_data_feed.Prelude.{
  ℕ, zero, suc, ◌-◌, ◌*◌, ◌^◌, ◌≤◌, ◌<◌, ◌≡◌, inl, inr, refl, sym, ap, ◌∙◌, subst, true, false,
  some, List, [], ◌∷◌, ◌++◌, append-nil, arith, ltb, le→ltb, ltb→lt, ltb→le, Bool-cases, length,
  get_elem?, get_elem?-append_end, take_all, ok,
}
use binary_market_data_feed.Feed.{Setup, Feed}
use binary_market_data_feed.Feed.Delivery.{packet, datagram}
use binary_market_data_feed.Feed.Stream.{Publication, image_of}
use binary_market_data_feed.Simulator.Options.{Options}
use binary_market_data_feed.Simulator.Publisher.{Publisher, World, should_skip, publish_packet}
use binary_market_data_feed.Simulator.Published.{
  stream_of, sent_upto, publications, all_publications,
}
use binary_market_data_feed.Simulator.Rounds.{IsWorld, HasPublished}
use binary_market_data_feed.Simulator.Session.{IsSensible, length-le-messages_in, publish_lem}
use binary_market_data_feed.System.{stream_of-IsPublication, IsBookOf}
use binary_market_data_feed.System.Interleaving.{
  State, initial, publishes, delivers, Reach, begin, next, number_of, highest_number, gets,
}
use binary_market_data_feed.System.Interleaving.Invariant.{
  IsPublishing, IsApplied, IsToCome, IsApplied-snoc, publishes_on, arrives_connected,
}
use binary_market_data_feed.System.Interleaving.Numbers.{number_of-image, highest_number-append}
use binary_market_data_feed.System.Interleaving.Running.{publisher_stays, Reach-IsRunning}
use binary_market_data_feed.System.Interleaving.Correct.{IsApplied-IsBookOf}

number-le-highest :
    (n : ℕ) (xs : List (List ℕ)) (bytes : List ℕ)
    → number_of bytes ≤ highest_number n (xs ++ bytes ∷ [])
unfolding highest_number
number-le-highest n xs bytes =
    let last : number_of bytes ≤ highest_number (highest_number n xs) (bytes ∷ []) = ground arith in
    rw (highest_number-append n xs (bytes ∷ [])) last

-- The packet with the highest number is on the network, if it is not skipped.
pub last_sent :
    (skip_every : ℕ) (stream : ℕ → Publication) (n : ℕ)
    → should_skip skip_every (suc n) ≡ false
    → (i : ℕ) × (get_elem? (sent_upto skip_every stream (suc n)) i ≡ some (image_of stream (suc n)))
unfolding sent_upto
last_sent skip_every stream n kept =
    let front = sent_upto skip_every stream n in
    (length front, rw kept (get_elem?-append_end front (image_of stream (suc n))))

-- Nothing is to come when all messages are out.
none_to_come :
    (world : World) (o : Options) (ps : List Publication) (p : Publisher)
    → o.messages ≤ p.emitted_messages
    → IsToCome world o ps p
    → ps ≡ all_publications world o
unfolding publications
none_to_come world o ps p out (zero, enough, e) = absurd (omega arith)
none_to_come world o ps p out (suc fuel, enough, e) =
    let test = le→ltb p.emitted_messages o.messages out in
    let all : ps ++ [] ≡ all_publications world o = rw test at e in sym (append-nil ps) ∙ all

-- A packet of the stream, with the channel there.
arrives_image :
    (world : World) (o : Options) (setup : Setup) (sensible : IsSensible o) (s : State)
    (ps : List Publication) (p : Publisher) (f : Feed) (h : IsPublishing world o s ps p)
    (k : IsApplied s ps f) (n : ℕ)
    → suc n ≤ length ps
    → (f' : Feed) × IsApplied (gets setup s true p f (image_of (stream_of ps) (suc n))) ps f'
unfolding datagram
arrives_image world o setup sensible s ps p f h k n below =
    arrives_connected world o setup sensible s ps p f h k (packet (suc n)) (omega arith, below)

-- A reachable state in which all is published, and in which the handler has not thrown.
abbrev IsPublished : World → Options → Setup → State → State → Type 0
IsPublished world o setup from t =
    (p : Publisher) × (f : Feed) × Reach world o setup from t
    × IsPublishing world o t (all_publications world o) p
    × IsApplied t (all_publications world o) f

-- All is published and applied.
abbrev pub HasCaughtUp : World → Options → State → Type 0
HasCaughtUp world o t =
    (p : Publisher) × (f : Feed) × (t.publisher ≡ ok p)
    × HasPublished o (all_publications world o) p
    × (p.emitted_messages ≡ o.messages)
    × (t.handler ≡ ok f)
    × (f.expected_packet_seq ≡ suc (length (all_publications world o)))
    × (f.buffered_packets ≡ [])
    × IsBookOf (all_publications world o) f.order_book

HasCaughtUp-IsApplied :
    (world : World) (o : Options) (t : State) (p : Publisher) (f : Feed)
    → IsWorld world
    → IsSensible o
    → o.messages * 250 < 2 ^ 32
    → IsPublishing world o t (all_publications world o) p
    → IsApplied t (all_publications world o) f
    → length (all_publications world o) ≤ highest_number 0 t.received
    → HasCaughtUp world o t
HasCaughtUp-IsApplied world o t p f fine sensible few h k low =
    let (q, _, whole, emitted) = publish_lem world o fine sensible in
    let all = all_publications world o in
    let n = highest_number 0 t.received in
    let last : n ≡ length all = omega (arith, low, k.stored_first) in
    (
      p,
      f,
      h.publisher_is,
      h.published,
      omega (arith, h.published.emitted, whole.emitted, emitted),
      k.handler_is,
      k.applied.seq_is ∙ ap suc last,
      k.applied.buffer_is,
      subst (λ (qs : List Publication). IsBookOf qs f.order_book) (take_all n all low)
          (IsApplied-IsBookOf world o t all p f few h k),
    )

module _ (world : World) (o : Options) (setup : Setup) (fine : IsWorld world)
    (sensible : IsSensible o) where
  none_left :
      (from s : State) (ps : List Publication) (p : Publisher) (f : Feed)
      → Reach world o setup from s
      → IsPublishing world o s ps p
      → IsApplied s ps f
      → o.messages ≤ p.emitted_messages
      → (t : State) × IsPublished world o setup from t
  none_left from s ps p f r h k out =
      let all = none_to_come world o ps p out h.to_come in
      (
        s,
        (
          p,
          f,
          r,
          subst (λ (qs : List Publication). IsPublishing world o s qs p) all h,
          subst (λ (qs : List Publication). IsApplied s qs f) all k,
        ),
      )

  -- The rounds that are left.
  publish_rest :
      (fuel : ℕ) (from s : State) (ps : List Publication) (p : Publisher) (f : Feed)
      → Reach world o setup from s
      → IsPublishing world o s ps p
      → IsApplied s ps f
      → o.messages - p.emitted_messages ≤ fuel
      → (t : State) × IsPublished world o setup from t
  publish_rest zero from s ps p f r h k enough = none_left from s ps p f r h k (omega arith)
  publish_rest (suc fuel) from s ps p f r h k enough =
      elim (Bool-cases (ltb p.emitted_messages o.messages)) [
        | inr done ↦ none_left from s ps p f r h k (ltb→le _ _ done)
        | inl more ↦
            let before = ltb→lt p.emitted_messages o.messages more in
            let (q, p', h', up) = publishes_on world o s ps p fine sensible h before in
            let s' : State = record s { publisher = publish_packet world o p } in
            publish_rest fuel from s' (ps ++ q ∷ []) p' f
              (next r (publishes s p h.publisher_is before)) h'
              (IsApplied-snoc s s' ps q f refl refl k) (omega arith)
      ]

  -- The last packet, to a handler that may have it already.
  deliver_last :
      (from s : State) (p : Publisher) (f : Feed) (n : ℕ)
      → length (all_publications world o) ≡ n
      → should_skip o.skip_every n ≡ false
      → Reach world o setup from s
      → IsPublishing world o s (all_publications world o) p
      → IsApplied s (all_publications world o) f
      → (t : State) × IsPublished world o setup from t × (n ≤ highest_number 0 t.received)
  deliver_last from s p f zero count kept r h k = (s, (p, f, r, h, k), omega arith)
  deliver_last from s p f (suc n) count kept r h k =
      let stream = stream_of (all_publications world o) in
      let (i, sent) = last_sent o.skip_every stream n kept in
      let there : get_elem? p.datagrams i ≡ some (image_of stream (suc n)) =
        ap (λ (ds : List (List ℕ)). get_elem? ds i)
          (h.published.datagrams ∙ ap (sent_upto o.skip_every stream) count)
        ∙ sent in
      let small : suc n < 2 ^ 32 = omega (
        arith,
        length-le-messages_in (all_publications world o) h.published.packets,
        h.published.emitted,
        h.within,
        sensible.room,
        count,
      ) in
      let number =
        number_of-image stream (suc n) small
          (stream_of-IsPublication (all_publications world o) h.published.packets (suc n)) in
      let bytes = image_of stream (suc n) in
      let t : State = gets setup s true p f bytes in
      let (f', k') =
        arrives_image world o setup sensible s (all_publications world o) p f h k n
          (omega (arith, count)) in
      (
        t,
        (
          p,
          f',
          next r (delivers s true p f i bytes h.publisher_is k.handler_is there),
          publisher_stays world o s t (all_publications world o) p refl h,
          k',
        ),
        omega (arith, number, number-le-highest 0 s.received bytes),
      )

  -- From every state that the two programs can reach, and in which the handler has not thrown, they can
  -- reach one in which the publisher has published all messages, as `HasPublished` says, and the
  -- handler has applied all of their packets, each once and in order: it expects the number behind
  -- the last, keeps nothing buffered, and its book is that of all messages. This is so provided that
  -- the last packet is not one of those that --skip-every leaves out. There are 1 to 42 messages per
  -- packet, and so few that 250 for each stay below 2 ^ 32; the limit on messages is off, random numbers
  -- keep their bounds, the clock has 64 bits, and ::sendto sends each datagram whole.
  pub can_catch_up :
      o.messages * 250 < 2 ^ 32
      → should_skip o.skip_every (length (all_publications world o)) ≡ false
      → (s : State) (g : Feed) → Reach world o setup initial s
      → s.handler ≡ ok g
      → (t : State) × Reach world o setup s t × HasCaughtUp world o t
  can_catch_up few kept s g r alive =
      let (ps, p, h, handling) = Reach-IsRunning world o setup fine sensible r in
      elim handling [
        | inr (_, thrown) ↦ cc
        | inl (f, k) ↦
            let (s', (p', f', r', h', k')) =
              publish_rest (o.messages - p.emitted_messages) s s ps p f begin h k (omega arith) in
            let (t, (p'', f'', rt, h'', k''), low) =
              deliver_last s s' p' f' (length (all_publications world o)) refl kept r' h' k' in
            (t, rt, HasCaughtUp-IsApplied world o t p'' f'' fine sensible few h'' k'' low)
      ]
