-- ===== src/Feed/Counters.antt =====
-- The counters and statistics of the handler, through a packet.
use binary_market_data_feed.Prelude.{
  ℕ, ◌+◌, ◌^◌, ◌%◌, ◌<◌, ◌≤◌, ◌≡◌, ◌⊎◌, inl, inr, Bool-cases, List, arith, false, ◌==◌,
  if◌then◌else◌,
}
use binary_market_data_feed.Wire.Structs.{MessageView}
use binary_market_data_feed.Map.{Map}
use binary_market_data_feed.Book.{OrderBook, apply, bbo_changed}
use binary_market_data_feed.Feed.{
  PacketSource, live, replay, drain, CycleStats, record_cycles, Feed, start, Setup, cycles_since,
  limit_reached, sample_bbo, apply_message, count_packet, finish_packet,
}
use binary_market_data_feed.Feed.Progress.{IsKept}
use binary_market_data_feed.Feed.Stats.{
  IsLongDoubleSum, IsStats, record_cycles-IsStats, samples_next,
}

-- What the summary at the end prints: every processed packet is live, replayed or drained, there is at
-- most one latency sample for each packet and one for each message, means lie between the extremes,
-- unless the sum of the latencies may be rounded, the limit is kept, and the next sequence number has 32
-- bits.
pub record IsCounted (setup : Setup) (s : Feed) : Type 0 where
  pub sources : s.processed_packets ≡ s.live_packets + s.replay_packets + s.drain_packets
  pub packet_samples : s.packet_latency_cycles.samples ≤ s.processed_packets
  pub bbo_samples : s.bbo_update_latency_cycles.samples ≤ s.received_messages
  pub packet_mean : IsStats s.packet_latency_cycles
  pub bbo_mean : IsStats s.bbo_update_latency_cycles
  pub limit : (setup.messages ≡ 0) ⊎ (s.received_messages ≤ setup.messages)
  pub seq : s.expected_packet_seq < 2 ^ 32

pub start-IsCounted : (setup : Setup) → IsCounted setup start
start-IsCounted setup = record {
  sources = omega arith;
  packet_samples = omega arith;
  bbo_samples = omega arith;
  packet_mean = inr (omega arith, omega arith);
  bbo_mean = inr (omega arith, omega arith);
  limit = inr (omega arith);
  seq = omega arith;
}

module _ (setup : Setup) (exact : IsLongDoubleSum setup.add_long_double) where
  limit_next :
      (s : Feed)
      → limit_reached setup s ≡ false
      → (setup.messages ≡ 0) ⊎ (s.received_messages + 1 ≤ setup.messages)
  unfolding limit_reached
  limit_next s free = ground arith

  -- The state after a message, whatever the book and the clock are.
  after_message :
      (s : Feed) (book : OrderBook) (stats : CycleStats) (reads : ℕ)
      → limit_reached setup s ≡ false
      → IsCounted setup s
      → stats.samples ≤ s.received_messages + 1
      → IsStats stats
      → IsCounted setup (record s {
        order_book = book;
        bbo_update_latency_cycles = stats;
        received_messages = s.received_messages + 1;
        tsc_reads = reads;
      })
  after_message s book stats reads free h few mean = record {
    sources = h.sources;
    packet_samples = h.packet_samples;
    bbo_samples = few;
    packet_mean = h.packet_mean;
    bbo_mean = mean;
    limit = limit_next s free;
    seq = h.seq;
  }

  apply_message-IsCounted :
      (publish_tsc : ℕ) (m : MessageView) (s : Feed)
      → limit_reached setup s ≡ false
      → IsCounted setup s
      → IsCounted setup (apply_message setup publish_tsc m s)
  unfolding apply_message sample_bbo
  apply_message-IsCounted publish_tsc m s free h =
      let book = (apply s.order_book m).0 in
      let stats = s.bbo_update_latency_cycles in
      let latency = cycles_since (setup.read_tsc s.tsc_reads) publish_tsc in
      let few : stats.samples ≤ s.received_messages + 1 = omega (arith, h.bbo_samples) in
      elim (Bool-cases (bbo_changed (apply s.order_book m).1)) [
        | inr same ↦ rw same (after_message s book stats s.tsc_reads free h few h.bbo_mean)
        | inl changed ↦ rw changed (elim (Bool-cases (publish_tsc == 0)) [
          | inl unstamped ↦
              rw unstamped (after_message s book stats (s.tsc_reads + 1) free h few h.bbo_mean)
          | inr stamped ↦ rw stamped (
              after_message s book (record_cycles setup.add_long_double stats latency)
                (s.tsc_reads + 1) free h
                (samples_next setup.add_long_double stats latency s.received_messages h.bbo_samples)
                (record_cycles-IsStats setup.add_long_double stats latency exact h.bbo_mean))
        ])
      ]

  -- The state after a packet: one of the three counters goes up.
  after_packet :
      (s : Feed) (stats : CycleStats) (a b c seq reads : ℕ)
      → IsCounted setup s
      → stats.samples ≤ s.processed_packets + 1
      → IsStats stats
      → s.processed_packets + 1 ≡ a + b + c
      → seq < 2 ^ 32
      → IsCounted setup (record s {
        packet_latency_cycles = stats;
        tsc_reads = reads;
        processed_packets = s.processed_packets + 1;
        live_packets = a;
        replay_packets = b;
        drain_packets = c;
        expected_packet_seq = seq;
      })
  after_packet s stats a b c seq reads h few mean total below = record {
    sources = total;
    packet_samples = few;
    bbo_samples = h.bbo_samples;
    packet_mean = mean;
    bbo_mean = h.bbo_mean;
    limit = h.limit;
    seq = below;
  }

  finish_packet-IsCounted :
      (source : PacketSource) (packet_seq publish_tsc : ℕ) (s : Feed)
      → IsCounted setup s
      → IsCounted setup (finish_packet setup source packet_seq publish_tsc s)
  unfolding finish_packet
  finish_packet-IsCounted source packet_seq publish_tsc s h =
      let old = s.packet_latency_cycles in
      let latency = cycles_since (setup.read_tsc s.tsc_reads) publish_tsc in
      let stats =
        if publish_tsc == 0 then old else record_cycles setup.add_long_double old latency in
      let good : (stats.samples ≤ s.processed_packets + 1) × IsStats stats =
        elim (Bool-cases (publish_tsc == 0)) [
          | inl unstamped ↦ rw unstamped (omega (arith, h.packet_samples), h.packet_mean)
          | inr stamped ↦ rw stamped (
            samples_next setup.add_long_double old latency s.processed_packets h.packet_samples,
            record_cycles-IsStats setup.add_long_double old latency exact h.packet_mean,
          )
        ] in
      elim source
        as (λ source'.
          IsCounted setup
            (record (count_packet source' (record s {
              packet_latency_cycles = stats;
              tsc_reads = s.tsc_reads + 1;
              processed_packets = s.processed_packets + 1;
            })) { expected_packet_seq = (packet_seq + 1) % 2 ^ 32 })) [
              | live ↦
                  after_packet s stats (s.live_packets + 1) s.replay_packets s.drain_packets _ _ h
                    good.0 good.1 (omega (arith, h.sources)) (omega arith)
              | replay ↦
                  after_packet s stats s.live_packets (s.replay_packets + 1) s.drain_packets _ _ h
                    good.0 good.1 (omega (arith, h.sources)) (omega arith)
              | drain ↦
                  after_packet s stats s.live_packets s.replay_packets (s.drain_packets + 1) _ _ h
                    good.0 good.1 (omega (arith, h.sources)) (omega arith)
            ]

  erase_put_again :
      (s : Feed) (buffer : Map (List ℕ)) (requests out_of_order : ℕ)
      → IsCounted setup s
      → IsCounted setup (record s {
        buffered_packets = buffer;
        replay_requests = requests;
        out_of_order_packets = out_of_order;
      })
  erase_put_again s buffer requests out_of_order h = record {
    sources = h.sources;
    packet_samples = h.packet_samples;
    bbo_samples = h.bbo_samples;
    packet_mean = h.packet_mean;
    bbo_mean = h.bbo_mean;
    limit = h.limit;
    seq = h.seq;
  }

  pub IsCounted-IsKept : IsKept setup (IsCounted setup)
  IsCounted-IsKept = record {
    applies = apply_message-IsCounted;
    finishes = finish_packet-IsCounted;
    erases = λ k s h. erase_put_again s _ s.replay_requests s.out_of_order_packets h;
    requests = λ s h.
        erase_put_again s s.buffered_packets (s.replay_requests + 1) s.out_of_order_packets h;
    buffers =
        λ k bytes s small h. erase_put_again s _ s.replay_requests (s.out_of_order_packets + 1) h;
  }
