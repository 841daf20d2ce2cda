-- ===== src/Simulator/Console/Transcript.antt =====
-- What is printed, from what is to be published alone.
use binary_market_data_feed.Prelude.{
  ℕ, zero, suc, ◌+◌, ◌-◌, ◌*◌, ◌≤◌, ◌<◌, ◌≡◌, refl, ap, ap₂, ◌∙◌, Bool-cases, inl, inr, List, [],
  ◌∷◌, ◌++◌, arith, min, ltb, ltb→lt, length, length-append, replicate, length-replicate, ok,
}
use binary_market_data_feed.Text.{Text}
use binary_market_data_feed.Feed.Stream.{Publication}
use binary_market_data_feed.Simulator.{packet_buffer_size}
use binary_market_data_feed.Simulator.Buffer.{to_buffer_lem}
use binary_market_data_feed.Simulator.Options.{Options}
use binary_market_data_feed.Simulator.Publisher.{
  Publisher, new_publisher, World, make_batch, publish,
}
use binary_market_data_feed.Simulator.Batches.{make_batch-IsBatch}
use binary_market_data_feed.Simulator.Published.{publications, all_publications}
use binary_market_data_feed.Simulator.Rounds.{IsWorld, HasPublished, All-IsMessage}
use binary_market_data_feed.Simulator.Session.{
  IsSensible, publish_packet_lem, new_publisher-HasPublished, publish_lem,
}
use binary_market_data_feed.Simulator.Console.{
  starting_line, packet_lines, summary_line, grace_lines, serialized_lines, round_lines, loop_lines,
  last_lines, main_lines,
}

-- The lines of these packets, the first with number `seq`.
unfoldable pub transcript : Options → ℕ → List Publication → List Text
transcript o seq [] = []
transcript o seq (q ∷ qs) =
    packet_lines o seq q.publish_tsc (14 + length q.messages * 24) q.messages
    ++ transcript o (suc seq) qs

module _ (world : World) (o : Options) (fine : IsWorld world) (sensible : IsSensible o) where
  round_lines_lem :
      (ps : List Publication) (p : Publisher)
      → HasPublished o ps p
      → p.emitted_messages < o.messages
      → let batch =
          (make_batch world
            (min o.messages_per_packet (o.messages - p.emitted_messages))
            p.generator).0 in
        round_lines world o p
        ≡ packet_lines o (suc (length ps)) (world.read_tsc p.reads) (14 + length batch * 24) batch
  unfolding round_lines serialized_lines
  round_lines_lem ps p h more =
      let n : ℕ = min o.messages_per_packet (o.messages - p.emitted_messages) in
      let batch = (make_batch world n p.generator).0 in
      let made =
        make_batch-IsBatch world n p.generator fine.dist h.generator
          (omega (arith, h.ids, h.emitted, sensible.room)) in
      let size : length (replicate packet_buffer_size zero) ≡ 1024 =
        length-replicate packet_buffer_size zero in
      let few : length batch ≤ 42 = omega (arith, made.many, sensible.few_per_packet) in
      rw
        (to_buffer_lem p.packet_sequence (world.read_tsc p.reads) batch
          (replicate packet_buffer_size 0) (All-IsMessage batch made.small) (omega (arith, few))
          (omega (arith, few, size)))
        (ap (λ seq. packet_lines o seq (world.read_tsc p.reads) (14 + length batch * 24) batch)
          h.seq)

  loop_lines_lem :
      (fuel : ℕ) (ps : List Publication) (p : Publisher)
      → HasPublished o ps p
      → o.messages - p.emitted_messages < fuel
      → loop_lines world o fuel p
        ≡ transcript o
            (suc (length ps))
            (publications world o fuel p.emitted_messages p.reads p.generator)
  unfolding loop_lines transcript publications
  loop_lines_lem zero ps p h enough = absurd (omega arith)
  loop_lines_lem (suc fuel) ps p h enough = elim (Bool-cases (ltb p.emitted_messages o.messages)) [
    | inr done ↦ rw done refl
    | inl more ↦
        let before = ltb→lt p.emitted_messages o.messages more in
        let n : ℕ = min o.messages_per_packet (o.messages - p.emitted_messages) in
        let made = make_batch world n p.generator in
        let q : Publication = record { messages = made.0; publish_tsc = world.read_tsc p.reads } in
        let (p', e, h', gen, reads, emitted) =
          publish_packet_lem world fine o sensible ps p h before in
        let count : length (ps ++ q ∷ []) ≡ suc (length ps) =
          omega (arith, length-append ps (q ∷ [])) in
        let rest =
          loop_lines_lem fuel (ps ++ q ∷ []) p' h' (omega (arith, sensible.some_per_packet)) in
        let same : transcript o (suc (length (ps ++ q ∷ [])))
              (publications world o fuel p'.emitted_messages p'.reads p'.generator)
            ≡ transcript o (suc (suc (length ps)))
                (publications world o fuel (p.emitted_messages + n) (p.reads + 1) made.1) =
          λ i.
            transcript o (suc (count i))
              (publications world o fuel (emitted i) (reads i) (gen i)) in
        rw (more, e) (ap₂ (◌++◌) (round_lines_lem ps p h before) (rest ∙ same))
  ]

-- What main of exchange_sim prints, with 1 to 42 messages per packet and fewer than 2 ^ 32 - 1 messages: the
-- options, then for each packet that the generator makes, in order and unless --quiet is set, its line and
-- one for each of its messages, then the counters that the publishing loop returns with and, unless it
-- is 0, the time that the recovery server stays. Assumed is that random numbers keep their bounds, the
-- clock has 64 bits, and ::sendto sends each datagram whole.
pub main_lines-transcript :
    (world : World) (o : Options)
    → IsWorld world
    → IsSensible o
    → (p : Publisher) × (publish world o ≡ ok p)
      × (main_lines world o
          ≡ starting_line o
            ∷ (transcript o 1 (all_publications world o)
                ++ summary_line p.sent_packets p.dropped_packets p.sent_messages p.dropped_messages
                  ∷ grace_lines o))
unfolding main_lines last_lines all_publications
main_lines-transcript world o fine sensible =
    let (p, e, _, _) = publish_lem world o fine sensible in
    let lines =
      loop_lines_lem world o fine sensible (suc o.messages) [] new_publisher
        (new_publisher-HasPublished o) (omega arith) in
    (p, e, ap₂ (λ front back. starting_line o ∷ (front ++ back)) lines (ap (last_lines world o) e))
