-- ===== src/Simulator/Publisher.antt =====
-- The publishing loop of main in src/exchange_sim/main.cpp. The pauses are left out, and what is printed
-- is in Simulator/Console. A counter of type std::size_t does not wrap here; the sequence number wraps as
-- in the source.
use binary_market_data_feed.Prelude.{
  ℕ, zero, suc, ◌+◌, ◌-◌, ◌%◌, ◌^◌, Bool, not, ◌&&◌, Option, List, [], ◌∷◌, ◌++◌, min, ltb, ◌==◌,
  if◌then◌else◌, length, take, replicate, Result, ok, err, ◌>>=◌,
}
use binary_market_data_feed.Wire.Structs.{Message}
use binary_market_data_feed.Wire.Packet.{SerializeError}
use binary_market_data_feed.History.{PacketHistory, empty_history, store}
use binary_market_data_feed.Udp.{UdpError, send}
use binary_market_data_feed.Simulator.{packet_buffer_size, serialize_packet_to_buffer}
use binary_market_data_feed.Simulator.Options.{Options}
use binary_market_data_feed.Simulator.Generator.{Generator, new_generator, next}

pub data PublishError : Type 0 where
  not_serialized : SerializeError → PublishError
  not_sent : UdpError → PublishError
  still_publishing : PublishError

-- The local variables of main. `datagrams` are those handed to the socket, and `sends` counts the calls
-- of ::sendto, `reads` those of read_tsc.
pub record Publisher : Type 0 where
  pub generator : Generator
  pub packet_history : PacketHistory
  pub emitted_messages : ℕ
  pub sent_packets : ℕ
  pub dropped_packets : ℕ
  pub sent_messages : ℕ
  pub dropped_messages : ℕ
  pub packet_sequence : ℕ
  pub datagrams : List (List ℕ)
  pub reads : ℕ

abbrev pub new_publisher : Publisher
new_publisher = record {
  generator = new_generator;
  packet_history = empty_history;
  emitted_messages = 0;
  sent_packets = 0;
  dropped_packets = 0;
  sent_messages = 0;
  dropped_messages = 0;
  packet_sequence = 1;
  datagrams = [];
  reads = 0;
}

-- What the operating system and the processor give: the random numbers, the readings of the time stamp
-- counter, and the result of ::sendto for each datagram.
pub record World : Type 0 where
  pub draw : ℕ → ℕ → ℕ → ℕ
  pub read_tsc : ℕ → ℕ
  pub sendto : List (List ℕ) → List ℕ → Option ℕ

unfoldable pub serialized : {A : Type 0} → Result SerializeError A → Result PublishError A
serialized (ok a) = ok a
serialized (err e) = err (not_serialized e)

unfoldable pub sent : Result UdpError (Unit {0}) → Result PublishError (Unit {0})
sent (ok a) = ok a
sent (err e) = err (not_sent e)

-- `skip_every != 0 && packet_sequence % skip_every == 0`.
unfoldable pub should_skip : ℕ → ℕ → Bool
should_skip skip_every packet_sequence =
    not (skip_every == 0) && (packet_sequence % skip_every == 0)

module _ (world : World) where
  -- The loop that fills the batch.
  unfoldable pub make_batch : ℕ → Generator → List Message × Generator
  make_batch zero g = ([], g)
  make_batch (suc left) g =
      let (message, g') = next world.draw g in
      let (batch, g'') = make_batch left g' in (message ∷ batch, g'')

  -- The two branches behind the test of `should_skip`.
  unfoldable pub send_or_drop : Options → ℕ → List ℕ → Publisher → Result PublishError Publisher
  unfolding send sent should_skip
  send_or_drop o count packet p =
      if should_skip o.skip_every p.packet_sequence
      then ok (record p {
        dropped_packets = p.dropped_packets + 1;
        dropped_messages = p.dropped_messages + count;
      })
      else sent (send (world.sendto p.datagrams packet) packet) >>= λ _. ok (record p {
        datagrams = p.datagrams ++ packet ∷ [];
        sent_packets = p.sent_packets + 1;
        sent_messages = p.sent_messages + count;
      })

  -- One round, with the batch and the generator behind it.
  unfoldable pub publish_batch :
      Options → List Message → Generator → Publisher → Result PublishError Publisher
  unfolding serialized send_or_drop store serialize_packet_to_buffer
  publish_batch o batch g p =
      let publish_tsc = world.read_tsc p.reads in
      serialized (
        serialize_packet_to_buffer p.packet_sequence publish_tsc batch
          (replicate packet_buffer_size 0))
      >>= λ (packet_size, packet_buffer).
          let packet = take packet_size packet_buffer in
          send_or_drop o (length batch) packet (record p {
            generator = g;
            packet_history = store p.packet_history p.packet_sequence packet;
            reads = p.reads + 1;
          })
          >>= λ p'. ok (record p' {
            emitted_messages = p'.emitted_messages + length batch;
            packet_sequence = (p'.packet_sequence + 1) % 2 ^ 32;
          })

  unfoldable pub publish_packet : Options → Publisher → Result PublishError Publisher
  unfolding make_batch publish_batch
  publish_packet o p =
      let batch_size = min o.messages_per_packet (o.messages - p.emitted_messages) in
      let (batch, g) = make_batch batch_size p.generator in publish_batch o batch g p

  -- The outer loop; each round emits a message at least.
  unfoldable pub publish_loop : ℕ → Options → Publisher → Result PublishError Publisher
  publish_loop zero o p = err still_publishing
  publish_loop (suc fuel) o p =
      let rest = publish_loop fuel o in
      if ltb p.emitted_messages o.messages then publish_packet o p >>= rest else ok p

  unfoldable pub publish : Options → Result PublishError Publisher
  unfolding publish_loop publish_packet
  publish o = publish_loop (suc o.messages) o new_publisher
