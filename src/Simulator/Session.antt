-- ===== src/Simulator/Session.antt =====
-- The whole publishing loop.
use binary_market_data_feed.Prelude.{
  ℕ, zero, suc, ◌+◌, ◌-◌, ◌^◌, ◌≤◌, ◌<◌, ◌≡◌, refl, ◌∙◌, subst, Bool-cases, inl, inr, List, [], ◌∷◌,
  ◌++◌, arith, append_assoc, append-nil, min, ltb, ltb→lt, ltb→le, length, All, ok,
}
use binary_market_data_feed.Feed.Stream.{Publication}
use binary_market_data_feed.Feed.Answers.{history_upto}
use binary_market_data_feed.Simulator.Options.{Options}
use binary_market_data_feed.Simulator.Publisher.{
  Publisher, new_publisher, World, make_batch, publish_packet, publish_loop, publish,
}
use binary_market_data_feed.Simulator.Batches.{make_batch-IsBatch}
use binary_market_data_feed.Simulator.Published.{
  publications, all_publications, sent_upto, messages_in, messages_in-snoc,
}
use binary_market_data_feed.Simulator.Rounds.{
  IsWorld, IsPacketOf, HasPublished, publication, publish_batch_lem,
}

-- What the options must be: 1 to 42 messages in a packet, and fewer than 2 ^ 32 - 1 messages, so that
-- the sequence numbers do not wrap.
pub record IsSensible (o : Options) : Type 0 where
  pub some_per_packet : 1 ≤ o.messages_per_packet
  pub few_per_packet : o.messages_per_packet ≤ 42
  pub room : o.messages + 1 < 2 ^ 32

pub length-le-messages_in : (ps : List Publication) → All IsPacketOf ps → length ps ≤ messages_in ps
unfolding messages_in
length-le-messages_in [] h = omega arith
length-le-messages_in (p ∷ ps) h = omega (arith, h.0.some_there, length-le-messages_in ps h.1)

module _ (world : World) (fine : IsWorld world) (o : Options) (sensible : IsSensible o) where
  pub publish_packet_lem :
      (ps : List Publication) (p : Publisher)
      → HasPublished o ps p
      → p.emitted_messages < o.messages
      → let n : ℕ = min o.messages_per_packet (o.messages - p.emitted_messages) in
        let made = make_batch world n p.generator in
        (p' : Publisher) × (publish_packet world o p ≡ ok p')
        × HasPublished o
            (ps ++ record { messages = made.0; publish_tsc = world.read_tsc p.reads } ∷ [])
            p'
        × (p'.generator ≡ made.1)
        × (p'.reads ≡ p.reads + 1)
        × (p'.emitted_messages ≡ p.emitted_messages + n)
  unfolding publish_packet publication
  publish_packet_lem ps p h more =
      let n : ℕ = min o.messages_per_packet (o.messages - p.emitted_messages) in
      let packets = length-le-messages_in ps h.packets in
      let made =
        make_batch-IsBatch world n p.generator fine.dist h.generator
          (omega (arith, h.ids, h.emitted, sensible.room)) in
      let batch = (make_batch world n p.generator).0 in
      let g = (make_batch world n p.generator).1 in
      let some_there : 1 ≤ n = omega (arith, sensible.some_per_packet) in
      let few : n ≤ 42 = omega (arith, sensible.few_per_packet) in
      let room : length ps + 2 < 2 ^ 32 = omega (arith, packets, h.emitted, sensible.room) in
      let (p', e, h', gen, reads) =
        publish_batch_lem world fine o ps p h n batch g made some_there few room in
      let q = publication world fine o ps p h n batch g made some_there few room in
      (
        p',
        e,
        h',
        gen,
        reads,
        omega (arith, h'.emitted, messages_in-snoc ps q, h.emitted, made.many),
      )

  publish_loop_lem :
      (fuel : ℕ) (ps : List Publication) (p : Publisher)
      → HasPublished o ps p
      → p.emitted_messages ≤ o.messages
      → o.messages - p.emitted_messages < fuel
      → (p' : Publisher) × (publish_loop world fuel o p ≡ ok p')
        × HasPublished o (ps ++ publications world o fuel p.emitted_messages p.reads p.generator) p'
        × (p'.emitted_messages ≡ o.messages)
  unfolding publish_loop publications
  publish_loop_lem zero ps p h within enough = absurd (omega arith)
  publish_loop_lem (suc fuel) ps p h within enough =
      elim (Bool-cases (ltb p.emitted_messages o.messages)) [
        | inr done ↦
            rw (done, append-nil ps)
              (p, refl, h, omega (arith, ltb→le p.emitted_messages o.messages done))
        | inl more ↦
            let before = ltb→lt p.emitted_messages o.messages more in
            let n : ℕ = min o.messages_per_packet (o.messages - p.emitted_messages) in
            let made = make_batch world n p.generator in
            let q : Publication = record {
              messages = made.0;
              publish_tsc = world.read_tsc p.reads;
            } in
            let (p', e, h', gen, reads, emitted) = publish_packet_lem ps p h before in
            let (p'', e', h'', all) =
              publish_loop_lem fuel (ps ++ q ∷ []) p' h' (omega (arith, sensible.some_per_packet))
                (omega (arith, sensible.some_per_packet)) in
            let same : (ps ++ q ∷ [])
                  ++ publications world o fuel p'.emitted_messages p'.reads p'.generator
                ≡ ps
                  ++ q ∷ publications world o fuel (p.emitted_messages + n) (p.reads + 1) made.1 =
              append_assoc ps (q ∷ []) _
              ∙ (λ i. ps ++ q ∷ publications world o fuel (emitted i) (reads i) (gen i)) in
            rw (more, e)
              (p'', e', subst (λ (qs : List Publication). HasPublished o qs p'') same h'', all)
      ]

pub new_publisher-HasPublished : (o : Options) → HasPublished o [] new_publisher
unfolding history_upto sent_upto messages_in
new_publisher-HasPublished o = record {
  packets = tt;
  seq = refl;
  history = refl;
  datagrams = refl;
  emitted = refl;
  packet_counts = omega arith;
  sent = refl;
  message_counts = omega arith;
  generator = (omega arith, tt);
  ids = omega arith;
}

-- With 1 to 42 messages per packet and fewer than 2 ^ 32 - 1 messages, the publishing loop ends without
-- an exception: all messages are emitted, and published are exactly the batches that the generator
-- makes, each in a packet of 1 to 42 messages that can be read back; the history holds each packet under
-- its number, the datagrams sent are those of the packets that are not skipped, in order and as many as
-- are counted, and the counters of sent and dropped packets and messages add up. Assumed is that random
-- numbers keep their bounds, the clock has 64 bits, and ::sendto sends each datagram whole.
pub publish_lem :
    (world : World) (o : Options)
    → IsWorld world
    → IsSensible o
    → (p : Publisher) × (publish world o ≡ ok p)
      × HasPublished o (all_publications world o) p
      × (p.emitted_messages ≡ o.messages)
unfolding publish all_publications
publish_lem world o fine sensible =
    publish_loop_lem world fine o sensible (suc o.messages) [] new_publisher
      (new_publisher-HasPublished o) (omega arith) (omega arith)
