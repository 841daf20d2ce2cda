-- ===== src/Simulator/Console.antt =====
-- The lines that main of src/exchange_sim/main.cpp prints.
pub mod Printed
pub mod Transcript
use binary_market_data_feed.Prelude.{
  ℕ, zero, suc, ◌+◌, ◌-◌, Bool, Option, List, [], ◌∷◌, ◌++◌, min, ltb, ◌==◌, if◌then◌else◌, length,
  replicate, Result, ok, err,
}
use binary_market_data_feed.Text.{Text, codes, written, decimal}
use binary_market_data_feed.Wire.Structs.{Message, view_of}
use binary_market_data_feed.Wire.Describe.{describe}
use binary_market_data_feed.Wire.Packet.{SerializeError}
use binary_market_data_feed.Simulator.{packet_buffer_size, serialize_packet_to_buffer}
use binary_market_data_feed.Simulator.Options.{Options}
use binary_market_data_feed.Simulator.Publisher.{
  PublishError, Publisher, World, new_publisher, should_skip, make_batch, publish_packet, publish,
}

unfoldable pub starting_line : Options → Text
unfolding written
starting_line o =
    written (
      codes "exchange_sim starting on "
      ∷ o.group
      ∷ codes ":"
      ∷ decimal o.port
      ∷ codes " with recovery TCP "
      ∷ decimal o.recovery_port
      ∷ codes " for "
      ∷ decimal o.messages
      ∷ codes " messages"
      ∷ codes " using "
      ∷ decimal o.messages_per_packet
      ∷ codes " messages/packet"
      ∷ [])
    ++ (if o.skip_every == 0
        then []
        else written (codes " and dropping every " ∷ decimal o.skip_every ∷ codes " packet" ∷ []))

-- The line of a packet that is skipped, and of one that is sent.
unfoldable pub dropped_line : (seq msg_count publish_tsc : ℕ) → Text
unfolding written
dropped_line seq msg_count publish_tsc = written (
    codes "dropped packet seq="
    ∷ decimal seq
    ∷ codes " msg_count="
    ∷ decimal msg_count
    ∷ codes " publish_tsc="
    ∷ decimal publish_tsc
    ∷ codes " (intentional)"
    ∷ [])

unfoldable pub sent_line : (seq msg_count bytes publish_tsc : ℕ) → Text
unfolding written
sent_line seq msg_count bytes publish_tsc = written (
    codes "sent packet seq="
    ∷ decimal seq
    ∷ codes " msg_count="
    ∷ decimal msg_count
    ∷ codes " bytes="
    ∷ decimal bytes
    ∷ codes " publish_tsc="
    ∷ decimal publish_tsc
    ∷ [])

-- The loop over the batch, from an index on.
unfoldable pub message_lines : Bool → (seq index : ℕ) → List Message → List Text
unfolding written describe
message_lines skipped seq index [] = []
message_lines skipped seq index (m ∷ batch) =
    written (
      codes "  "
      ∷ (if skipped then codes "drop " else codes "send ")
      ∷ describe seq index (view_of m)
      ∷ [])
    ∷ message_lines skipped seq (index + 1) batch

-- What a round prints for a packet of so many bytes.
unfoldable pub packet_lines : Options → (seq publish_tsc packet_size : ℕ) → List Message → List Text
unfolding should_skip dropped_line sent_line message_lines
packet_lines o seq publish_tsc packet_size batch =
    let skipped = should_skip o.skip_every seq in
    if o.quiet
    then []
    else (if skipped
        then dropped_line seq (length batch) publish_tsc
        else sent_line seq (length batch) packet_size publish_tsc)
      ∷ message_lines skipped seq 0 batch

unfoldable pub summary_line :
    (sent_packets dropped_packets sent_messages dropped_messages : ℕ) → Text
unfolding written
summary_line sent_packets dropped_packets sent_messages dropped_messages = written (
    codes "summary: sent_packets="
    ∷ decimal sent_packets
    ∷ codes " dropped_packets="
    ∷ decimal dropped_packets
    ∷ codes " sent_messages="
    ∷ decimal sent_messages
    ∷ codes " dropped_messages="
    ∷ decimal dropped_messages
    ∷ [])

unfoldable pub grace_lines : Options → List Text
unfolding written
grace_lines o =
    if o.recovery_grace_ms == 0
    then []
    else written (
        codes "keeping recovery server alive for " ∷ decimal o.recovery_grace_ms ∷ codes " ms" ∷ [])
      ∷ []

module _ (world : World) (o : Options) where
  -- A round that does not throw.
  unfoldable pub serialized_lines :
      (seq publish_tsc : ℕ) → List Message → Result SerializeError (ℕ × List ℕ) → List Text
  unfolding packet_lines
  serialized_lines seq publish_tsc batch (ok (packet_size, buffer)) =
      packet_lines o seq publish_tsc packet_size batch
  serialized_lines seq publish_tsc batch (err e) = []

  unfoldable pub round_lines : Publisher → List Text
  unfolding serialized_lines make_batch serialize_packet_to_buffer
  round_lines p =
      let batch_size = min o.messages_per_packet (o.messages - p.emitted_messages) in
      let batch = (make_batch world batch_size p.generator).0 in
      let publish_tsc = world.read_tsc p.reads in
      serialized_lines p.packet_sequence publish_tsc batch (
        serialize_packet_to_buffer p.packet_sequence publish_tsc batch
          (replicate packet_buffer_size 0))

  -- The publishing loop; a round that throws prints nothing, and the loop ends.
  unfoldable pub loop_lines : ℕ → Publisher → List Text
  unfolding round_lines publish_packet
  loop_lines zero p = []
  loop_lines (suc fuel) p =
      let rest = loop_lines fuel in
      if ltb p.emitted_messages o.messages
      then elim (publish_packet world o p) [ ok p' ↦ round_lines p ++ rest p' | err e ↦ [] ]
      else []

  -- What follows the loop, unless it threw.
  unfoldable pub last_lines : Result PublishError Publisher → List Text
  unfolding summary_line grace_lines
  last_lines (err e) = []
  last_lines (ok p) =
      summary_line p.sent_packets p.dropped_packets p.sent_messages p.dropped_messages
      ∷ grace_lines o

  unfoldable pub main_lines : List Text
  unfolding starting_line loop_lines last_lines publish
  main_lines =
      starting_line o ∷ (loop_lines (suc o.messages) new_publisher ++ last_lines (publish world o))
