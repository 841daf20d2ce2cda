-- ===== src/Simulator/Rounds.antt =====
-- One round of the publishing loop.
use binary_market_data_feed.Prelude.{
  ℕ, zero, suc, ◌+◌, ◌*◌, ◌%◌, ◌^◌, ◌≤◌, ◌<◌, ◌≡◌, refl, sym, ap, ◌∙◌, Bool-cases, inl, inr, some,
  List, [], ◌∷◌, ◌++◌, arith, ==-refl, if◌then◌else◌, length, length-append, drop, take,
  take-append, replicate, length-replicate, All, All-append, ok,
}
use binary_market_data_feed.Wire.Structs.{Message}
use binary_market_data_feed.Wire.Layout.{IsMessage}
use binary_market_data_feed.Wire.Packet.RoundTrip.{IsParsable, packet_image, length-packet_image}
use binary_market_data_feed.History.{store}
use binary_market_data_feed.Feed.Stream.{Publication, IsPublication}
use binary_market_data_feed.Feed.Answers.{history_upto}
use binary_market_data_feed.Simulator.{serialize_packet_to_buffer, packet_buffer_size}
use binary_market_data_feed.Simulator.Buffer.{to_buffer_lem}
use binary_market_data_feed.Simulator.Options.{Options}
use binary_market_data_feed.Simulator.Generator.{Generator}
use binary_market_data_feed.Simulator.Orders.{IsDistribution, IsGenerator}
use binary_market_data_feed.Simulator.Publisher.{
  Publisher, World, should_skip, send_or_drop, publish_batch,
}
use binary_market_data_feed.Simulator.Batches.{IsSmall, IsBatch}
use binary_market_data_feed.Simulator.Published.{
  stream_of, sent_upto, messages_in, history_upto-snoc, sent_upto-snoc, messages_in-snoc,
}

-- What the rest of the world is assumed to do: random numbers within their bounds, clock readings of 64
-- bits, and each datagram is sent whole.
pub record IsWorld (world : World) : Type 0 where
  pub dist : IsDistribution world.draw
  pub tsc : (n : ℕ) → world.read_tsc n < 2 ^ 64
  pub sends : (ds : List (List ℕ)) (packet : List ℕ) → world.sendto ds packet ≡ some (length packet)

-- A published packet: it can be serialized and read back, holds 1 to 42 messages, and each of them is a
-- small order.
pub record IsPacketOf (q : Publication) : Type 0 where
  pub publication : IsPublication q
  pub few : length q.messages ≤ 42
  pub some_there : 1 ≤ length q.messages
  pub small : All IsSmall q.messages

-- The state after the packets `ps`.
pub record HasPublished (o : Options) (ps : List Publication) (p : Publisher) : Type 0 where
  pub packets : All IsPacketOf ps
  pub seq : p.packet_sequence ≡ suc (length ps)
  pub history : p.packet_history ≡ history_upto (stream_of ps) (length ps)
  pub datagrams : p.datagrams ≡ sent_upto o.skip_every (stream_of ps) (length ps)
  pub emitted : p.emitted_messages ≡ messages_in ps
  pub packet_counts : p.sent_packets + p.dropped_packets ≡ length ps
  pub sent : p.sent_packets ≡ length p.datagrams
  pub message_counts : p.sent_messages + p.dropped_messages ≡ messages_in ps
  pub generator : IsGenerator p.generator
  pub ids : p.generator.next_order_id ≤ messages_in ps + 1

pub All-IsMessage : (ms : List Message) → All IsSmall ms → All IsMessage ms
All-IsMessage [] h = tt
All-IsMessage (m ∷ ms) h = (h.0.0.0, All-IsMessage ms h.1)

All-IsParsable : (ms : List Message) → All IsSmall ms → All IsParsable ms
All-IsParsable [] h = tt
All-IsParsable (m ∷ ms) h = (h.0.0.1, All-IsParsable ms h.1)

module _ (world : World) (fine : IsWorld world) (o : Options) where
  -- The packet goes out, or is skipped; the counters say which.
  send_or_drop_lem :
      (count : ℕ) (packet : List ℕ) (p : Publisher)
      → (p' : Publisher) × (send_or_drop world o count packet p ≡ ok p')
        × (p'.datagrams ≡ (
            if should_skip o.skip_every p.packet_sequence
            then p.datagrams
            else p.datagrams ++ packet ∷ []))
        × (p'.sent_packets + p'.dropped_packets ≡ p.sent_packets + p.dropped_packets + 1)
        × (p'.sent_packets + length p.datagrams ≡ p.sent_packets + length p'.datagrams)
        × (p'.sent_messages + p'.dropped_messages ≡ p.sent_messages + p.dropped_messages + count)
        × (p'.packet_history ≡ p.packet_history)
        × (p'.packet_sequence ≡ p.packet_sequence)
        × (p'.emitted_messages ≡ p.emitted_messages)
        × (p'.generator ≡ p.generator)
        × (p'.reads ≡ p.reads)
  unfolding send_or_drop
  send_or_drop_lem count packet p = elim (Bool-cases (should_skip o.skip_every p.packet_sequence)) [
    | inl skipped ↦
        rw skipped (_, refl, refl, omega arith, refl, omega arith, refl, refl, refl, refl, refl)
    | inr kept ↦
        rw (kept, fine.sends p.datagrams packet, ==-refl (length packet))
          (
            _,
            refl,
            refl,
            omega arith,
            omega (arith, length-append p.datagrams (packet ∷ [])),
            omega arith,
            refl,
            refl,
            refl,
            refl,
            refl,
          )
  ]

  module _ (ps : List Publication) (p : Publisher) (h : HasPublished o ps p) (n : ℕ)
      (batch : List Message) (g : Generator) (made : IsBatch n p.generator (batch, g))
      (some_there : 1 ≤ n) (few : n ≤ 42) (room : length ps + 2 < 2 ^ 32) where
    unfoldable pub publication : Publication
    publication = record { messages = batch; publish_tsc = world.read_tsc p.reads }

    image : List ℕ
    image = packet_image p.packet_sequence batch (world.read_tsc p.reads)

    image_in_buffer : List ℕ
    image_in_buffer = image ++ drop (14 + length batch * 24) (replicate packet_buffer_size 0)

    serialized_batch :
        serialize_packet_to_buffer p.packet_sequence
          (world.read_tsc p.reads)
          batch
          (replicate packet_buffer_size 0)
        ≡ ok (14 + length batch * 24, image_in_buffer)
    unfolding image_in_buffer image
    serialized_batch =
        let size : length (replicate packet_buffer_size zero) ≡ 1024 =
          length-replicate packet_buffer_size zero in
        to_buffer_lem p.packet_sequence (world.read_tsc p.reads) batch
          (replicate packet_buffer_size 0) (All-IsMessage batch made.small)
          (omega (arith, made.many)) (omega (arith, made.many, size))

    taken_image : take (14 + length batch * 24) image_in_buffer ≡ image
    unfolding image_in_buffer image
    taken_image = take-append (14 + length batch * 24) image _ (
        length-packet_image p.packet_sequence (world.read_tsc p.reads) batch
          (All-IsMessage batch made.small))

    publication-IsPacketOf : IsPacketOf publication
    unfolding publication
    publication-IsPacketOf = record {
      publication = record {
        fits = All-IsMessage batch made.small;
        parsable = All-IsParsable batch made.small;
        few = omega (arith, made.many);
        tsc = fine.tsc p.reads;
      };
      few = omega (arith, made.many);
      some_there = omega (arith, made.many);
      small = made.small;
    }

    -- The state in which the packet is sent.
    ready : Publisher
    unfolding image
    ready = record p {
      generator = g;
      packet_history = store p.packet_history p.packet_sequence image;
      reads = p.reads + 1;
    }

    publish_batch_step :
        (p' : Publisher)
        → send_or_drop world o (length batch) image ready ≡ ok p'
        → publish_batch world o batch g p
          ≡ ok (record p' {
            emitted_messages = p'.emitted_messages + length batch;
            packet_sequence = (p'.packet_sequence + 1) % 2 ^ 32;
          })
    unfolding publish_batch ready
    publish_batch_step p' e = rw (serialized_batch, taken_image, e) refl

    pub publish_batch_lem :
        (p' : Publisher) × (publish_batch world o batch g p ≡ ok p')
        × HasPublished o (ps ++ publication ∷ []) p'
        × (p'.generator ≡ g)
        × (p'.reads ≡ p.reads + 1)
    unfolding ready image publication
    publish_batch_lem =
        let q = publication in
        let (p', e, ds, packets, sends, messages, history, seq, emitted, gen, reads) =
          send_or_drop_lem (length batch) image ready in
        let all = messages_in-snoc ps q in
        let number : p'.packet_sequence ≡ suc (length ps) = seq ∙ h.seq in
        let same_image : image ≡ packet_image (suc (length ps)) batch (world.read_tsc p.reads) =
          ap (λ (k : ℕ). packet_image k batch (world.read_tsc p.reads)) h.seq in
        (
          _,
          publish_batch_step p' e,
          record {
            packets = All-append IsPacketOf ps _ h.packets (publication-IsPacketOf, tt);
            seq = omega (arith, number, length-append ps (q ∷ []));
            history =
                history
                ∙ ((λ i. store (h.history i) (h.seq i) (same_image i))
                    ∙ sym (history_upto-snoc ps q));
            datagrams =
                ds
                ∙ ((λ i.
                      if should_skip o.skip_every (h.seq i)
                      then h.datagrams i
                      else h.datagrams i ++ same_image i ∷ [])
                    ∙ sym (sent_upto-snoc ps q o.skip_every));
            emitted = omega (arith, emitted, all, h.emitted);
            packet_counts = omega (arith, packets, h.packet_counts, length-append ps (q ∷ []));
            sent = omega (arith, sends, h.sent);
            message_counts = omega (arith, messages, h.message_counts, all);
            generator = rw gen made.made;
            ids = omega (
              arith,
              ap (λ (x : Generator). x.next_order_id) gen,
              made.ids,
              h.ids,
              all,
              made.many,
            );
          },
          gen,
          reads,
        )
