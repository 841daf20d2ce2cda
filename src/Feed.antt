-- ===== src/Feed.antt =====
-- src/feed_handler/main.cpp: packets in sequence, gaps filled over the recovery channel, packets that
-- came early buffered and drained. The lambdas of `main` share its local variables, which are the
-- record `Feed`. An exception ends the program, so a step returns the new state or the error.
-- Console output is left out. A counter of type std::size_t does not wrap here, since a run would
-- have to count 2 ^ 64 events; sequence numbers and cycle differences wrap as in the source.
pub mod Report
pub mod Options
pub mod Loop
pub mod Main
pub mod Stream
pub mod Sequence
pub mod GapFill
pub mod Delivery
pub mod Cut
pub mod Answers
pub mod Keeping
pub mod Progress
pub mod Stats
pub mod Counters
pub mod Running
pub mod Wakes
pub mod Catchup
mod Examples
use binary_market_data_feed.Prelude.{
  ℕ, zero, suc, ◌+◌, ◌-◌, ◌%◌, ◌^◌, Option, none, some, List, [], ◌∷◌, Bool, true, false, not, ◌&&◌,
  ◌||◌, ltb, leb, ◌==◌, if◌then◌else◌, length, Result, ok, err, ◌>>=◌,
}
use binary_market_data_feed.Map.{Map, find, put, erase, size, first?}
use binary_market_data_feed.Wire.Structs.{
  PacketHeader, MessageView, decode_seq_num, decode_msg_count, decode_publish_tsc,
}
use binary_market_data_feed.Wire.Packet.{PacketView, parse_packet, message_at}
use binary_market_data_feed.Book.{OrderBook, empty_book, apply, bbo_changed}

pub data PacketSource : Type 0 where
  live replay drain : PacketSource

pub data FeedError : Type 0 where
  malformed_packet : PacketSource → FeedError
  sequence_mismatch : PacketSource → ℕ → ℕ → FeedError
  malformed_message : PacketSource → ℕ → ℕ → FeedError
  replay_count : ℕ → ℕ → ℕ → FeedError
  recovery_failed epoll_failed wait_failed receive_failed out_of_fuel : FeedError

-- `total_cycles` is a long double in the source. It is a sum of integers, and holds an integer also where
-- it is rounded.
pub record CycleStats : Type 0 where
  pub samples : ℕ
  pub min_cycles : ℕ
  pub max_cycles : ℕ
  pub total_cycles : ℕ

abbrev pub no_cycles : CycleStats
no_cycles = record { samples = 0; min_cycles = 2 ^ 64 - 1; max_cycles = 0; total_cycles = 0 }

-- `add` is the sum of two long doubles.
unfoldable pub record_cycles : (ℕ → ℕ → ℕ) → CycleStats → ℕ → CycleStats
record_cycles add c cycles = record {
  samples = c.samples + 1;
  min_cycles = if ltb cycles c.min_cycles then cycles else c.min_cycles;
  max_cycles = if ltb c.max_cycles cycles then cycles else c.max_cycles;
  total_cycles = add c.total_cycles cycles;
}

-- `tsc_reads` counts the calls of read_tsc.
pub record Feed : Type 0 where
  pub order_book : OrderBook
  pub buffered_packets : Map (List ℕ)
  pub packet_latency_cycles : CycleStats
  pub bbo_update_latency_cycles : CycleStats
  pub processed_packets : ℕ
  pub live_packets : ℕ
  pub replay_packets : ℕ
  pub drain_packets : ℕ
  pub replay_requests : ℕ
  pub out_of_order_packets : ℕ
  pub received_messages : ℕ
  pub expected_packet_seq : ℕ
  pub tsc_reads : ℕ

abbrev pub start : Feed
start = record {
  order_book = empty_book;
  buffered_packets = [];
  packet_latency_cycles = no_cycles;
  bbo_update_latency_cycles = no_cycles;
  processed_packets = 0;
  live_packets = 0;
  replay_packets = 0;
  drain_packets = 0;
  replay_requests = 0;
  out_of_order_packets = 0;
  received_messages = 0;
  expected_packet_seq = 1;
  tsc_reads = 0;
}

-- What the handler is run with: `options.messages`, the readings of the time stamp counter, the sum that
-- the processor makes of two long doubles, and the answers of the recovery client, which may depend on
-- how many requests there were before.
pub record Setup : Type 0 where
  pub messages : ℕ
  pub read_tsc : ℕ → ℕ
  pub add_long_double : ℕ → ℕ → ℕ
  pub request_packets : ℕ → ℕ → ℕ → Option (List (List ℕ))

-- update_tsc - publish_tsc, at 64 bits.
abbrev pub cycles_since : ℕ → ℕ → ℕ
cycles_since later earlier = (later + 2 ^ 64 - earlier) % 2 ^ 64

-- `++live_packets`, or the counter of the other source.
unfoldable pub count_packet : PacketSource → Feed → Feed
count_packet live s = record s { live_packets = s.live_packets + 1 }
count_packet replay s = record s { replay_packets = s.replay_packets + 1 }
count_packet drain s = record s { drain_packets = s.drain_packets + 1 }

-- `buffered_packets.begin()->first - 1`. The buffer is not empty where this is read.
unfoldable pub gap_end : Map (List ℕ) → ℕ
gap_end buffered =
    let first_key : ℕ = elim (first? buffered) [ none ↦ 0 | some (k, _) ↦ k ] in
    (first_key + 2 ^ 32 - 1) % 2 ^ 32

module _ (setup : Setup) where
  unfoldable pub limit_reached : Feed → Bool
  limit_reached s = not (setup.messages == 0) && leb setup.messages s.received_messages

  -- The clock read for a BBO change, and its latency sample.
  unfoldable pub sample_bbo : ℕ → Feed → Feed
  sample_bbo publish_tsc s =
      let latency = cycles_since (setup.read_tsc s.tsc_reads) publish_tsc in
      let s' = record s { tsc_reads = s.tsc_reads + 1 } in
      if publish_tsc == 0 then s' else record s' {
        bbo_update_latency_cycles =
            record_cycles setup.add_long_double s'.bbo_update_latency_cycles latency;
      }

  -- The loop body of `process_packet_bytes` for a message that could be read.
  unfoldable pub apply_message : ℕ → MessageView → Feed → Feed
  apply_message publish_tsc message s =
      let (book, result) = apply s.order_book message in
      let s' = record s { order_book = book; received_messages = s.received_messages + 1 } in
      if bbo_changed result then sample_bbo publish_tsc s' else s'

  -- The loop over the messages, with `left` of them to go from `index` on.
  unfoldable pub apply_messages :
      PacketSource → PacketView → ℕ → ℕ → (left index : ℕ) → Feed → Result FeedError Feed
  apply_messages source packet packet_seq publish_tsc zero index s = ok s
  apply_messages source packet packet_seq publish_tsc (suc left) index s =
      elim (message_at packet index) [
        | none ↦ err (malformed_message source packet_seq index)
        | some message ↦
            let s' = apply_message publish_tsc message s in
            let rest = apply_messages source packet packet_seq publish_tsc left (index + 1) s' in
            if limit_reached s' then ok s' else rest
      ]

  -- What follows the loop: the packet's latency, the counters, and the next number.
  unfoldable pub finish_packet : PacketSource → ℕ → ℕ → Feed → Feed
  unfolding count_packet
  finish_packet source packet_seq publish_tsc s =
      let latency = cycles_since (setup.read_tsc s.tsc_reads) publish_tsc in
      let stats =
        if publish_tsc == 0
        then s.packet_latency_cycles
        else record_cycles setup.add_long_double s.packet_latency_cycles latency in
      let s' = record s {
        packet_latency_cycles = stats;
        tsc_reads = s.tsc_reads + 1;
        processed_packets = s.processed_packets + 1;
      } in
      record (count_packet source s') { expected_packet_seq = (packet_seq + 1) % 2 ^ 32 }

  -- From the header on. The view that `parse_packet` returns always has one.
  unfoldable pub process_parsed :
      PacketSource → PacketView → PacketHeader → Feed → Result FeedError Feed
  process_parsed source packet header s =
      let packet_seq = decode_seq_num header in
      let publish_tsc = decode_publish_tsc header in
      if not (packet_seq == s.expected_packet_seq)
      then err (sequence_mismatch source s.expected_packet_seq packet_seq)
      else apply_messages source packet packet_seq publish_tsc (decode_msg_count header) 0 s
        >>= λ s'. ok (finish_packet source packet_seq publish_tsc s')

  unfoldable pub process_view : PacketSource → Option PacketView → Feed → Result FeedError Feed
  process_view source none s = err (malformed_packet source)
  process_view source (some packet) s = elim packet.header [
    | none ↦ err (malformed_packet source)
    | some header ↦ process_parsed source packet header s
  ]

  unfoldable pub process_packet_bytes : PacketSource → List ℕ → Feed → Result FeedError Feed
  unfolding process_view
  process_packet_bytes source bytes s = process_view source (parse_packet bytes) s

  -- The `while` of `drain_buffered_packets`, each round of which takes one packet out.
  unfoldable pub drain_loop : ℕ → Feed → Result FeedError Feed
  drain_loop zero s = err out_of_fuel
  drain_loop (suc fuel) s =
      let rest = drain_loop fuel in
      if limit_reached s then ok s else elim (find s.expected_packet_seq s.buffered_packets) [
        | none ↦ ok s
        | some bytes ↦
            process_packet_bytes drain bytes
              (record s { buffered_packets = erase s.expected_packet_seq s.buffered_packets })
            >>= rest
      ]

  unfoldable pub drain_buffered_packets : Feed → Result FeedError Feed
  drain_buffered_packets s = drain_loop (suc (size s.buffered_packets)) s

  unfoldable pub replay_all : List (List ℕ) → Feed → Result FeedError Feed
  replay_all [] s = ok s
  replay_all (bytes ∷ batch) s =
      let rest = replay_all batch in
      if limit_reached s then ok s else process_packet_bytes replay bytes s >>= rest

  unfoldable pub request_replay : ℕ → ℕ → Feed → Result FeedError Feed
  request_replay start_seq end_seq s =
      if ltb end_seq start_seq || limit_reached s
      then ok s
      else let s' = record s { replay_requests = s.replay_requests + 1 } in
        elim (setup.request_packets s.replay_requests start_seq end_seq) [
          | none ↦ err recovery_failed
          | some batch ↦
              if not (length batch == end_seq - start_seq + 1)
              then err (replay_count (length batch) start_seq end_seq)
              else replay_all batch s' >>= drain_buffered_packets
        ]

  -- A packet ahead of the expected one.
  unfoldable pub buffer_packet : ℕ → List ℕ → Feed → Result FeedError Feed
  buffer_packet packet_seq bytes s =
      let s' = record s {
        out_of_order_packets = s.out_of_order_packets + 1;
        buffered_packets = put packet_seq bytes s.buffered_packets;
      } in
      request_replay s'.expected_packet_seq (gap_end s'.buffered_packets) s'

  unfoldable pub receive_parsed : List ℕ → PacketHeader → Feed → Result FeedError Feed
  receive_parsed bytes header s =
      let packet_seq = decode_seq_num header in
      if ltb packet_seq s.expected_packet_seq
      then ok s
      else if ltb s.expected_packet_seq packet_seq
      then buffer_packet packet_seq bytes s
      else process_packet_bytes live bytes s >>= drain_buffered_packets

  unfoldable pub receive_view : List ℕ → Option PacketView → Feed → Result FeedError Feed
  receive_view bytes none s = ok s
  receive_view bytes (some packet) s = elim packet.header [
    | none ↦ ok s
    | some header ↦ receive_parsed bytes header s
  ]

  -- A datagram that `try_receive` returned.
  unfoldable pub receive_datagram : List ℕ → Feed → Result FeedError Feed
  unfolding receive_view
  receive_datagram bytes s = receive_view bytes (parse_packet bytes) s

  -- The datagrams that are there before `try_receive` finds nothing.
  unfoldable pub receive_all : List (List ℕ) → Feed → Result FeedError Feed
  receive_all [] s = ok s
  receive_all (bytes ∷ datagrams) s =
      let rest = receive_all datagrams in
      if limit_reached s then ok s else receive_datagram bytes s >>= rest
