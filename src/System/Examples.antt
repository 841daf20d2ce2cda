-- ===== src/System/Examples.antt =====
-- A run of both programs: of what is published only the last packet arrives.
use binary_market_data_feed.Prelude.{
  ℕ, ◌+◌, zero, suc, ◌-◌, ◌≤◌, ◌<◌, ◌≡◌, refl, inl, none, some, List, [], ◌∷◌, map, arith, get_or,
  length, All, ok,
}
use binary_market_data_feed.Wire.Structs.{buy, sell}
use binary_market_data_feed.Wire.Packet.RoundTrip.{length-packet_image}
use binary_market_data_feed.Book.{bbo}
use binary_market_data_feed.Book.Run.{spec_all}
use binary_market_data_feed.Book.Spec.{orders_of}
use binary_market_data_feed.Book.Quotes.{IsBest}
use binary_market_data_feed.History.{lookup_range}
use binary_market_data_feed.Udp.{receive_buffer_size}
use binary_market_data_feed.Feed.{Feed, Setup, start}
use binary_market_data_feed.Feed.Loop.{run}
use binary_market_data_feed.Feed.Stream.{Publication, image_of}
use binary_market_data_feed.Feed.Delivery.{packet, datagram}
use binary_market_data_feed.Feed.Wakes.{
  Wake, signal, arrived, arrivals_of, together, outcome_of, AreWakes, Comes,
}
use binary_market_data_feed.Simulator.Options.{default_options}
use binary_market_data_feed.Simulator.Publisher.{Publisher, World, publish}
use binary_market_data_feed.Simulator.Published.{
  all_publications, stream_of, messages_in, no_publication,
}
use binary_market_data_feed.Simulator.Rounds.{IsWorld, IsPacketOf, HasPublished}
use binary_market_data_feed.Simulator.Session.{IsSensible, publish_lem}
use binary_market_data_feed.System.{answer_of, all_views, stream_of-IsPublication}
use binary_market_data_feed.System.Composition.{published_then_applied}
use binary_market_data_feed.System.LiveOrders.{same_live_orders}
use binary_market_data_feed.Simulator.Orders.Pool.{live_of}

abbrev smallest : World
smallest = record {
  draw = λ n lo hi. lo;
  read_tsc = λ n. 5;
  sendto = λ ds packet. some (length packet);
}

smallest-IsWorld : IsWorld smallest
smallest-IsWorld = record {
  dist = λ n lo hi h. (omega arith, h);
  tsc = λ n. omega arith;
  sends = λ ds packet. refl;
}

default-IsSensible : IsSensible default_options
default-IsSensible = record {
  some_per_packet = omega arith;
  few_per_packet = omega arith;
  room = omega arith;
}

published :
    (p : Publisher) × (publish smallest default_options ≡ ok p)
    × HasPublished default_options (all_publications smallest default_options) p
    × (p.emitted_messages ≡ 20)
published = publish_lem smallest default_options smallest-IsWorld default-IsSensible

abbrev packets : List Publication
packets = all_publications smallest default_options

abbrev publisher : Publisher
publisher = published.0

packets-HasPublished : HasPublished default_options packets publisher
packets-HasPublished = published.2

messages-positive : (ps : List Publication) → messages_in ps ≡ 20 → 1 ≤ length ps
unfolding messages_in
messages-positive [] e = absurd (omega arith)
messages-positive (p ∷ ps) e = omega arith

some_packet : 1 ≤ length packets
some_packet = messages-positive packets (omega (arith, packets-HasPublished.emitted, published.3))

few_messages :
    (ps : List Publication) → All IsPacketOf ps → (k : ℕ) → length (stream_of ps k).messages ≤ 42
unfolding stream_of
few_messages ps h k = at ps h (k - 1)
  where
    at :
        (ps : List Publication)
        → All IsPacketOf ps
        → (i : ℕ) → length (get_or ps i no_publication).messages ≤ 42
    at [] h i = omega arith
    at (p ∷ ps) h zero = h.0.few
    at (p ∷ ps) h (suc i) = at ps h.1 i

packet_size : (k : ℕ) → length (image_of (stream_of packets) k) ≤ receive_buffer_size
unfolding image_of
packet_size k =
    let h = packets-HasPublished.packets in
    omega (
      arith,
      few_messages packets h k,
      length-packet_image k (stream_of packets k).publish_tsc (stream_of packets k).messages
          (stream_of-IsPublication packets h k).fits,
    )

abbrev setup : Setup
setup = record {
  messages = 0;
  read_tsc = λ n. n;
  add_long_double = λ a b. a + b;
  request_packets = λ _ a b. answer_of (lookup_range publisher.packet_history a b);
}

abbrev wakes : List Wake
wakes = signal ∷ arrived ((packet (length packets) ∷ []) ∷ []) ∷ []

wakes-AreWakes : AreWakes (stream_of packets) (length packets) wakes
unfolding datagram
wakes-AreWakes = (((((some_packet, omega arith), tt), (packet_size (length packets), tt)), tt), tt)

wakes-Comes : Comes (length packets) (arrivals_of wakes)
unfolding arrivals_of together
wakes-Comes = inl refl

published_then_applied_example :
    (s : Feed) × (run setup (map (outcome_of (stream_of packets)) wakes) start ≡ ok s)
    × (s.buffered_packets ≡ [])
    × ((id : ℕ) → orders_of s.order_book id ≡ spec_all (λ _. none) (all_views packets) id)
    × IsBest buy (λ x y. x < y) s.order_book (bbo s.order_book).best_bid
    × IsBest sell (λ x y. y < x) s.order_book (bbo s.order_book).best_ask
published_then_applied_example =
    published_then_applied smallest default_options publisher setup wakes smallest-IsWorld
      default-IsSensible published.1 (omega arith) refl (λ requests a b. refl) wakes-AreWakes
      wakes-Comes

same_live_orders_example :
    (s : Feed) × (run setup (map (outcome_of (stream_of packets)) wakes) start ≡ ok s)
    × ((id : ℕ) → orders_of s.order_book id ≡ live_of publisher.generator.live_orders id)
same_live_orders_example =
    same_live_orders smallest default_options publisher setup wakes smallest-IsWorld
      default-IsSensible published.1 (omega arith) refl (λ requests a b. refl) wakes-AreWakes
      wakes-Comes
