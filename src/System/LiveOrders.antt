-- ===== src/System/LiveOrders.antt =====
-- The live orders of MarketDataGenerator in src/exchange_sim/main.cpp at the end of the publishing loop,
-- and those of the feed handler's book.
use binary_market_data_feed.Prelude.{
  ℕ, zero, suc, ◌+◌, ◌-◌, ◌*◌, ◌^◌, ◌<◌, ◌≡◌, refl, sym, ap, ◌∙◌, fun_ext, subst, Bool-cases, inl,
  inr, none, List, [], ◌∷◌, ◌++◌, map, min, ltb, ltb→lt, arith, length, ok,
}
use binary_market_data_feed.Wire.Structs.{MessageView, view_of}
use binary_market_data_feed.Book.Run.{spec_all}
use binary_market_data_feed.Book.Spec.{Orders, orders_of, spec}
use binary_market_data_feed.History.{lookup_range}
use binary_market_data_feed.Feed.{Feed, Setup, start}
use binary_market_data_feed.Feed.Loop.{run}
use binary_market_data_feed.Feed.Stream.{Publication}
use binary_market_data_feed.Feed.Wakes.{Wake, arrivals_of, outcome_of, AreWakes, Comes}
use binary_market_data_feed.Simulator.Generator.{Generator, new_generator, next}
use binary_market_data_feed.Simulator.Orders.{IsDistribution, IsGenerator}
use binary_market_data_feed.Simulator.Orders.Pool.{live_of, IsDistinct}
use binary_market_data_feed.Simulator.Orders.Follows.{next-Follows}
use binary_market_data_feed.Simulator.Options.{Options}
use binary_market_data_feed.Simulator.Publisher.{
  Publisher, World, new_publisher, make_batch, publish_loop, publish,
}
use binary_market_data_feed.Simulator.Published.{stream_of, publications, all_publications}
use binary_market_data_feed.Simulator.Rounds.{IsWorld, HasPublished}
use binary_market_data_feed.Simulator.Session.{
  IsSensible, publish_packet_lem, new_publisher-HasPublished,
}
use binary_market_data_feed.System.{answer_of, all_views}
use binary_market_data_feed.System.Composition.{published_then_applied}

spec_all-append :
    (f : Orders) (ms ns : List MessageView) → spec_all f (ms ++ ns) ≡ spec_all (spec_all f ms) ns
unfolding spec_all
spec_all-append f [] ns = refl
spec_all-append f (m ∷ ms) ns = spec_all-append (spec f m) ms ns

-- The live orders of the generator are those from before, as these messages change them.
record Tracks (g g' : Generator) (ms : List MessageView) : Type 0 where
  distinct : IsDistinct g'.live_orders
  orders : live_of g'.live_orders ≡ spec_all (live_of g.live_orders) ms

make_batch-Tracks :
    (world : World) (n : ℕ) (g : Generator)
    → IsDistribution world.draw
    → IsGenerator g
    → IsDistinct g.live_orders
    → g.next_order_id + n < 2 ^ 64
    → let r = make_batch world n g in Tracks g r.1 (map view_of r.0)
unfolding make_batch spec_all
make_batch-Tracks world zero g dist made distinct room = record {
  distinct = distinct;
  orders = refl;
}
make_batch-Tracks world (suc n) g dist made distinct room =
    let ((_, _, made', ids), (distinct', orders)) =
      next-Follows world.draw g dist made distinct (omega arith) in
    let rest =
      make_batch-Tracks world n (next world.draw g).1 dist made' distinct' (omega (arith, ids)) in
    record {
      distinct = rest.distinct;
      orders =
          rest.orders
          ∙ ap (λ f. spec_all f (map view_of (make_batch world n (next world.draw g).1).0))
              (fun_ext orders);
    }

Tracks-append :
    (g h k : Generator) (ms ns : List MessageView)
    → Tracks g h ms
    → Tracks h k ns
    → Tracks g k (ms ++ ns)
Tracks-append g h k ms ns t u = record {
  distinct = u.distinct;
  orders =
      u.orders
      ∙ (ap (λ f. spec_all f ns) t.orders ∙ sym (spec_all-append (live_of g.live_orders) ms ns));
}

module _ (world : World) (fine : IsWorld world) (o : Options) (sensible : IsSensible o) where
  publish_loop-Tracks :
      (fuel : ℕ) (ps : List Publication) (p : Publisher)
      → HasPublished o ps p
      → IsDistinct p.generator.live_orders
      → o.messages - p.emitted_messages < fuel
      → (p' : Publisher) × (publish_loop world fuel o p ≡ ok p')
        × Tracks p.generator p'.generator
            (all_views (publications world o fuel p.emitted_messages p.reads p.generator))
  unfolding publish_loop publications all_views spec_all
  publish_loop-Tracks zero ps p h distinct enough = absurd (omega arith)
  publish_loop-Tracks (suc fuel) ps p h distinct enough =
      elim (Bool-cases (ltb p.emitted_messages o.messages)) [
        | inr done ↦ rw done (p, refl, record { distinct = distinct; orders = refl })
        | inl more ↦
            let before = ltb→lt p.emitted_messages o.messages more in
            let n : ℕ = min o.messages_per_packet (o.messages - p.emitted_messages) in
            let made = make_batch world n p.generator in
            let (q, step, h', gen, reads, emitted) =
              publish_packet_lem world fine o sensible ps p h before in
            let batch =
              make_batch-Tracks world n p.generator fine.dist h.generator distinct
                (omega (arith, h.ids, h.emitted, sensible.room)) in
            let (p', e, rest) =
              publish_loop-Tracks fuel _ q h'
                (subst (λ (g : Generator). IsDistinct g.live_orders) (sym gen) batch.distinct)
                (omega (arith, emitted, sensible.some_per_packet)) in
            let same : Tracks made.1 p'.generator (
                all_views
                  (publications world o fuel (p.emitted_messages + n) (p.reads + 1) made.1)) =
              subst
                (λ (x : Generator × (ℕ × ℕ)).
                  Tracks x.0 p'.generator (all_views (publications world o fuel x.1.0 x.1.1 x.0)))
                (λ i. (gen i, (emitted i, reads i))) rest in
            rw (more, step) (p', e, Tracks-append p.generator made.1 p'.generator _ _ batch same)
      ]

  publish-Tracks :
      (p : Publisher)
      → publish world o ≡ ok p
      → Tracks new_generator p.generator (all_views (all_publications world o))
  unfolding publish all_publications IsDistinct
  publish-Tracks p e =
      let (p', e', tracks) =
        publish_loop-Tracks (suc o.messages) [] new_publisher (new_publisher-HasPublished o) tt
          (omega arith) in
      let same : p' ≡ p = cc in
      subst
        (λ (x : Publisher). Tracks new_generator x.generator (all_views (all_publications world o)))
        same tracks

-- The publishing loop and the feed handler as in `published_then_applied`: the network delivers what it
-- likes of the published packets, in any order and with anything beside them that is no packet, and at
-- some time the last packet. Then the handler never throws, and the live orders of its book are those
-- that the exchange's generator is left with: the same ids, each with its side, price and quantity. There
-- are 1 to 42 messages per packet, and so few that 250 for each stay below 2 ^ 32; requests are answered
-- from the history that the loop leaves, the limit on messages is off, the datagrams fit the receive
-- buffer, random numbers keep their bounds, the clock has 64 bits, and ::sendto sends each datagram whole.
pub same_live_orders :
    (world : World) (o : Options) (p : Publisher) (setup : Setup) (wakes : List Wake)
    → IsWorld world
    → IsSensible o
    → publish world o ≡ ok p
    → o.messages * 250 < 2 ^ 32
    → setup.messages ≡ 0
    → ((requests a b : ℕ)
        → setup.request_packets requests a b ≡ answer_of (lookup_range p.packet_history a b))
    → AreWakes (stream_of (all_publications world o)) (length (all_publications world o)) wakes
    → Comes (length (all_publications world o)) (arrivals_of wakes)
    → (s : Feed) × (run setup (map (outcome_of (stream_of (all_publications world o))) wakes) start
        ≡ ok s)
      × ((id : ℕ) → orders_of s.order_book id ≡ live_of p.generator.live_orders id)
unfolding live_of
same_live_orders world o p setup wakes fine sensible e few unlimited replies arrives comes =
    let (s, e', _, orders, _, _) =
      published_then_applied world o p setup wakes fine sensible e few unlimited replies arrives
        comes in
    let tracks = publish-Tracks world fine o sensible p e in
    let empty : live_of [] ≡ (λ id. none) = fun_ext (λ id. refl) in
    let views = all_views (all_publications world o) in
    (
      s,
      e',
      λ id.
          orders id
          ∙ (ap (λ (f : Orders). spec_all f views id) (sym empty)
              ∙ ap (λ (f : Orders). f id) (sym tracks.orders)),
    )
