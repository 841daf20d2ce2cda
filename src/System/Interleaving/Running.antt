-- ===== src/System/Interleaving/Running.antt =====
-- The invariant is kept by every step, so that it holds whenever the two programs run.
use binary_market_data_feed.Prelude.{
  ℕ, suc, ◌<◌, ◌≡◌, refl, sym, ap, ◌∙◌, subst, inl, inr, ◌⊎◌, Bool, true, some, List, [], ◌∷◌, ◌++◌,
  arith, length, get_elem?, ok, err,
}
use binary_market_data_feed.Feed.{Setup, recovery_failed, Feed, start}
use binary_market_data_feed.Feed.Stream.{Publication, book_upto}
use binary_market_data_feed.Feed.Delivery.{Arrival, noise, packet, datagram, IsArrival}
use binary_market_data_feed.Simulator.Options.{Options}
use binary_market_data_feed.Simulator.Publisher.{Publisher, World, new_publisher, publish_packet}
use binary_market_data_feed.Simulator.Published.{stream_of, sent_upto, all_publications}
use binary_market_data_feed.Simulator.Rounds.{IsWorld}
use binary_market_data_feed.Simulator.Session.{IsSensible, new_publisher-HasPublished}
use binary_market_data_feed.System.Interleaving.{
  State, initial, Step, publishes, delivers, disturbs, Reach, begin, next, highest_number, gets,
}
use binary_market_data_feed.System.Interleaving.Invariant.{
  IsPublishing, IsApplied, arrives, IsApplied-snoc, publishes_on,
}
use binary_market_data_feed.System.Interleaving.Numbers.{sent_upto-elem}

-- The handler has applied what it should, or has thrown since the recovery channel was cut.
abbrev pub IsHandling : State → List Publication → Type 0
IsHandling s ps =
    ((f : Feed) × IsApplied s ps f) ⊎ ((s.cut ≡ true) × (s.handler ≡ err recovery_failed))

-- The invariant, with the packets and the states hidden.
abbrev pub IsRunning : World → Options → State → Type 0
IsRunning world o s =
    (ps : List Publication) × (p : Publisher) × IsPublishing world o s ps p × IsHandling s ps

pub publisher_stays :
    (world : World) (o : Options) (s t : State) (ps : List Publication) (p : Publisher)
    → t.publisher ≡ s.publisher
    → IsPublishing world o s ps p
    → IsPublishing world o t ps p
publisher_stays world o s t ps p same h = record {
  publisher_is = same ∙ h.publisher_is;
  published = h.published;
  within = h.within;
  to_come = h.to_come;
}

module _ (world : World) (o : Options) (setup : Setup) (fine : IsWorld world)
    (sensible : IsSensible o) where
  initial-IsRunning : IsRunning world o initial
  unfolding all_publications highest_number book_upto
  initial-IsRunning = (
    [],
    new_publisher,
    record {
      publisher_is = refl;
      published = new_publisher-HasPublished o;
      within = omega arith;
      to_come = (suc o.messages, omega arith, refl);
    },
    inl (
      start,
      record {
        handler_is = refl;
        stored_first = omega arith;
        applied = record { book_is = refl; buffer_is = refl; seq_is = refl };
      },
    ),
  )

  -- A datagram, whose step names the two mains otherwise.
  got :
      (s : State) (ps : List Publication) (p p' : Publisher) (f' : Feed) (connected : Bool)
      (a : Arrival)
      → IsPublishing world o s ps p
      → IsHandling s ps
      → s.publisher ≡ ok p'
      → s.handler ≡ ok f'
      → IsArrival (length ps) a
      → IsRunning world o (gets setup s connected p' f' (datagram (stream_of ps) a))
  got s ps p p' f' connected a h (inr (cut, thrown)) e e' v = cc
  got s ps p p' f' connected a h (inl (f, k)) e e' v =
      let same : p ≡ p' = cc (h.publisher_is, e) in
      let same_feed : f ≡ f' = cc (k.handler_is, e') in
      let bytes = datagram (stream_of ps) a in
      subst (λ (x : Publisher). IsRunning world o (gets setup s connected x f' bytes)) same
        (subst (λ (g : Feed). IsRunning world o (gets setup s connected p g bytes)) same_feed
          (
            ps,
            p,
            publisher_stays world o s (gets setup s connected p f bytes) ps p refl h,
            arrives world o setup sensible s ps p f h k connected a v,
          ))

  Step-IsRunning :
      {s t : State} → Step world o setup s t → IsRunning world o s → IsRunning world o t
  unfolding datagram
  Step-IsRunning (publishes s p' e more) (ps, p, h, k) =
      let same : p ≡ p' = cc (h.publisher_is, e) in
      let (q, p'', h', _) =
        publishes_on world o s ps p fine sensible h
          (subst (λ (x : Publisher). x.emitted_messages < o.messages) (sym same) more) in
      let t : State = record s { publisher = publish_packet world o p } in
      let handling : IsHandling t (ps ++ q ∷ []) = elim k [
        | inl (f, applied) ↦ inl (f, IsApplied-snoc s t ps q f refl refl applied)
        | inr thrown ↦ inr thrown
      ] in
      subst
        (λ (x : Publisher). IsRunning world o (record s { publisher = publish_packet world o x }))
        same (ps ++ q ∷ [], p'', h', handling)
  Step-IsRunning (delivers s connected p' f' i bytes e e' sent) (ps, p, h, k) =
      let same : p ≡ p' = cc (h.publisher_is, e) in
      let at : get_elem? (sent_upto o.skip_every (stream_of ps) (length ps)) i ≡ some bytes =
        ap (λ (ds : List (List ℕ)). get_elem? ds i)
          (sym h.published.datagrams ∙ ap (λ (x : Publisher). x.datagrams) same)
        ∙ sent in
      let (j, below, image) = sent_upto-elem o.skip_every (stream_of ps) (length ps) i bytes at in
      subst (λ (bs : List ℕ). IsRunning world o (gets setup s connected p' f' bs)) (sym image)
        (got s ps p p' f' connected (packet (suc j)) h k e e' (omega arith, below))
  Step-IsRunning (disturbs s connected p' f' bytes e e' broken) (ps, p, h, k) =
      got s ps p p' f' connected (noise bytes) h k e e' broken

  pub Reach-IsRunning : {s : State} → Reach world o setup initial s → IsRunning world o s
  Reach-IsRunning begin = initial-IsRunning
  Reach-IsRunning (next r step) = Step-IsRunning step (Reach-IsRunning r)
