-- ===== src/System/Interleaving/Examples.antt =====
-- One round of the publisher and its packet, and what is no packet.
use binary_market_data_feed.Prelude.{
  ℕ, ◌+◌, ◌≡◌, refl, ap, ◌∙◌, true, false, none, some, ◌⊎◌, List, [], ◌∷◌, arith, length, get_elem?,
  ok, err,
}
use binary_market_data_feed.Wire.Packet.{parse_packet}
use binary_market_data_feed.Feed.{recovery_failed, Setup, start, receive_datagram}
use binary_market_data_feed.Feed.Stream.{Publication, image_of}
use binary_market_data_feed.Simulator.Options.{default_options}
use binary_market_data_feed.Simulator.Publisher.{
  Publisher, World, new_publisher, publish_packet, make_batch, should_skip,
}
use binary_market_data_feed.Simulator.Published.{stream_of, all_publications}
use binary_market_data_feed.Simulator.Rounds.{IsWorld, HasPublished}
use binary_market_data_feed.Simulator.Session.{
  IsSensible, publish_packet_lem, new_publisher-HasPublished,
}
use binary_market_data_feed.System.Interleaving.{
  State, initial, publishes, delivers, disturbs, Reach, begin, next, gets,
}
use binary_market_data_feed.System.Interleaving.Correct.{HasKeptUp, always_in_step}
use binary_market_data_feed.System.Interleaving.Progress.{last_sent, HasCaughtUp, can_catch_up}

abbrev smallest : World
smallest = record {
  draw = λ n lo hi. lo;
  read_tsc = λ n. 5;
  sendto = λ ds packet. some (length packet);
}

smallest-IsWorld : IsWorld smallest
smallest-IsWorld = record {
  dist = λ n lo hi h. (omega arith, h);
  tsc = λ n. omega arith;
  sends = λ ds packet. refl;
}

default-IsSensible : IsSensible default_options
default-IsSensible = record {
  some_per_packet = omega arith;
  few_per_packet = omega arith;
  room = omega arith;
}

abbrev clock : Setup
clock = record {
  messages = 0;
  read_tsc = λ n. n;
  add_long_double = λ a b. a + b;
  request_packets = λ n a b. none;
}

abbrev first : Publication
first = record { messages = (make_batch smallest 4 new_publisher.generator).0; publish_tsc = 5 }

round :
    (p : Publisher) × (publish_packet smallest default_options new_publisher ≡ ok p)
    × HasPublished default_options (first ∷ []) p
round =
    let (p, e, h, _, _, _) =
      publish_packet_lem smallest smallest-IsWorld default_options default-IsSensible []
        new_publisher (new_publisher-HasPublished default_options) (omega arith) in
    (p, e, h)

nothing_skipped : (n : ℕ) → should_skip default_options.skip_every n ≡ false
unfolding should_skip
nothing_skipped n = refl

first_sent : (i : ℕ) × (get_elem? round.0.datagrams i ≡ some (image_of (stream_of (first ∷ [])) 1))
first_sent =
    let (i, e) = last_sent 0 (stream_of (first ∷ [])) 0 (nothing_skipped 1) in
    (i, ap (λ (ds : List (List ℕ)). get_elem? ds i) round.2.datagrams ∙ e)

empty_is_noise : parse_packet [] ≡ none
unfolding parse_packet
empty_is_noise = refl

abbrev bytes : List ℕ
bytes = image_of (stream_of (first ∷ [])) 1

abbrev after_round : State
after_round = record initial { publisher = publish_packet smallest default_options new_publisher }

abbrev after_packet : State
after_packet = gets clock after_round true round.0 start bytes

after_packet-Reach : Reach smallest default_options clock initial after_packet
after_packet-Reach =
    next (next begin (publishes initial new_publisher refl (omega arith)))
      (delivers after_round true round.0 start first_sent.0 bytes round.1 refl first_sent.1)

-- Before the packet of the round, what is no packet, with the channel cut: nothing was asked for.
abbrev disturbed : State
disturbed = gets clock initial false new_publisher start []

disturbed-Reach : Reach smallest default_options clock initial disturbed
disturbed-Reach =
    next begin (disturbs initial false new_publisher start [] refl refl empty_is_noise)

disturbed_handler : disturbed.handler ≡ ok start
unfolding receive_datagram parse_packet
disturbed_handler = refl

always_in_step_example :
    (p : Publisher) × (after_packet.publisher ≡ ok p)
    × (HasKeptUp smallest default_options after_packet p
        ⊎ ((after_packet.cut ≡ true) × (after_packet.handler ≡ err recovery_failed)))
always_in_step_example =
    always_in_step smallest default_options clock after_packet smallest-IsWorld default-IsSensible
      (omega arith) after_packet-Reach

can_catch_up_example :
    (t : State) × Reach smallest default_options clock disturbed t
    × HasCaughtUp smallest default_options t
can_catch_up_example =
    can_catch_up smallest default_options clock smallest-IsWorld default-IsSensible (omega arith)
      (nothing_skipped (length (all_publications smallest default_options))) disturbed start
      disturbed-Reach disturbed_handler
