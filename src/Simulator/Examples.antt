-- ===== src/Simulator/Examples.antt =====
-- Packets in a small buffer, and in the publisher's.
use binary_market_data_feed.Prelude.{
  ℕ, zero, ◌+◌, ◌*◌, ◌≤◌, ◌<◌, ◌≡◌, ◌↔◌, refl, List, [], ◌∷◌, arith, length, take, drop, replicate,
  length-replicate, All, ok, err, some, Bool-cases, inl, inr, ◌==◌, if◌then◌else◌,
}
use binary_market_data_feed.Wire.Structs.{
  buy, Message, add_msg, delete_msg, make_add_order_msg, make_delete_order_msg,
}
use binary_market_data_feed.Wire.Layout.{IsMessage}
use binary_market_data_feed.Wire.Fields.{
  make_add_order_msg-IsSendable, make_delete_order_msg-IsSendable,
}
use binary_market_data_feed.Wire.Packet.{too_many_messages, packet_would_overflow, serialize_packet}
use binary_market_data_feed.Simulator.{
  packet_buffer_size, max_messages_per_packet, serialize_packet_to_buffer,
}
use binary_market_data_feed.Simulator.Generator.{
  LiveOrder, Generator, assign, remove_at, roll, pick_order_index, drop_order, delete_order, next,
}
use binary_market_data_feed.Simulator.Orders.{IsLive, IsMade, IsGenerator, IsDistribution}
use binary_market_data_feed.Simulator.Orders.Pool.{live_of, IsDistinct}
use binary_market_data_feed.Simulator.Orders.Follows.{Follows, next-Follows}
use binary_market_data_feed.Simulator.Options.{Options, default_options}
use binary_market_data_feed.Simulator.Publisher.{Publisher, World, publish_loop, publish}
use binary_market_data_feed.Simulator.Published.{all_publications}
use binary_market_data_feed.Simulator.Rounds.{IsWorld, HasPublished}
use binary_market_data_feed.Simulator.Session.{IsSensible, publish_lem}
use binary_market_data_feed.Simulator.Console.{
  starting_line, summary_line, grace_lines, loop_lines, last_lines, main_lines,
}
use binary_market_data_feed.Text.{Text}
use binary_market_data_feed.Simulator.Buffer.{same_packet, to_buffer_throws, max_messages_fit}

abbrev two : List Message
two = add_msg (make_add_order_msg 7 buy 9990 50) ∷ delete_msg (make_delete_order_msg 7) ∷ []

two-IsMessage : All IsMessage two
two-IsMessage =
    ((make_add_order_msg-IsSendable 7 buy 9990 50).0, ((make_delete_order_msg-IsSendable 7).0, tt))

same_packet_example :
    (bytes : List ℕ) × (after : List ℕ) × (serialize_packet 3 two 1000 ≡ ok bytes)
    × (serialize_packet_to_buffer 3 1000 two (replicate 64 9) ≡ ok (length bytes, after))
    × (take (length bytes) after ≡ bytes)
    × (drop (length bytes) after ≡ drop (length bytes) (replicate 64 9))
same_packet_example =
    same_packet 3 1000 two (replicate 64 9) two-IsMessage (omega arith) (omega arith)

-- One byte too short.
abbrev short : List ℕ
short = replicate 61 0

abbrev publisher_buffer : List ℕ
publisher_buffer = replicate packet_buffer_size 0

to_buffer_throws_example :
    ((serialize_packet_to_buffer 3 1000 two short ≡ err too_many_messages) ↔ (65535 < length two))
    × ((serialize_packet_to_buffer 3 1000 two short ≡ err packet_would_overflow)
        ↔ ((length two ≤ 65535) × (length short < 14 + length two * 24)))
to_buffer_throws_example = to_buffer_throws 3 1000 two short

publisher_buffer_size : length publisher_buffer ≡ packet_buffer_size
publisher_buffer_size = length-replicate packet_buffer_size zero

max_messages_fit_example :
    ((r : ℕ × List ℕ) × (serialize_packet_to_buffer 3 1000 two publisher_buffer ≡ ok r))
    ↔ (length two ≤ max_messages_per_packet)
max_messages_fit_example = max_messages_fit 3 1000 two publisher_buffer publisher_buffer_size

abbrev order : ℕ → LiveOrder
order id = record { order_id = id; side = buy; quantity = 10; price = 9950 }

abbrev four_orders : Generator
four_orders = record {
  next_order_id = 5;
  live_orders = order 1 ∷ order 2 ∷ order 3 ∷ order 4 ∷ [];
  draws = 0;
}

order-IsLive : (id : ℕ) → 0 < id → id < 5 → IsLive 5 (order id)
order-IsLive id pos below = (pos, below, omega arith, omega arith, omega arith, omega arith)

four_orders-IsGenerator : IsGenerator four_orders
four_orders-IsGenerator = (
  omega arith,
  (
    order-IsLive 1 (omega arith) (omega arith),
    (
      order-IsLive 2 (omega arith) (omega arith),
      (
        order-IsLive 3 (omega arith) (omega arith),
        (order-IsLive 4 (omega arith) (omega arith), tt),
      ),
    ),
  ),
)

four_orders-IsDistinct : IsDistinct four_orders.live_orders
unfolding IsDistinct live_of
four_orders-IsDistinct = (refl, (refl, (refl, (refl, tt))))

-- The largest number of the distribution of actions, which deletes, and the smallest of every other: the
-- first order is deleted.
abbrev delete_first : ℕ → ℕ → ℕ → ℕ
delete_first n lo hi = if hi == 99 then hi else lo

delete_first-IsDistribution : IsDistribution delete_first
delete_first-IsDistribution n lo hi h = elim (Bool-cases (hi == 99)) [
  | inl action ↦ rw action (h, omega arith)
  | inr other ↦ rw other (omega arith, h)
]

next-Follows_example :
    IsMade four_orders (next delete_first four_orders)
    × Follows four_orders (next delete_first four_orders)
next-Follows_example =
    next-Follows delete_first four_orders delete_first-IsDistribution four_orders-IsGenerator
      four_orders-IsDistinct (omega arith)

deletes_the_first : (next delete_first four_orders).1.live_orders ≡ order 4 ∷ order 2 ∷ order 3 ∷ []
unfolding next delete_order drop_order remove_at assign pick_order_index roll
deletes_the_first = refl

deletes_the_last :
    (next (λ n lo hi. hi) four_orders).1.live_orders ≡ order 1 ∷ order 2 ∷ order 3 ∷ []
unfolding next delete_order drop_order remove_at assign pick_order_index roll
deletes_the_last = refl

-- Distributions that always give their smallest number, and a network that takes all.
abbrev smallest : World
smallest = record {
  draw = λ n lo hi. lo;
  read_tsc = λ n. 5;
  sendto = λ ds packet. some (length packet);
}

smallest-IsWorld : IsWorld smallest
smallest-IsWorld = record {
  dist = λ n lo hi h. (omega arith, h);
  tsc = λ n. omega arith;
  sends = λ ds packet. refl;
}

abbrev every_third : Options
every_third = record default_options { messages = 50; skip_every = 3 }

every_third-IsSensible : IsSensible every_third
every_third-IsSensible = record {
  some_per_packet = omega arith;
  few_per_packet = omega arith;
  room = omega arith;
}

publish_lem_example :
    (p : Publisher) × (publish smallest every_third ≡ ok p)
    × HasPublished every_third (all_publications smallest every_third) p
    × (p.emitted_messages ≡ 50)
publish_lem_example = publish_lem smallest every_third smallest-IsWorld every_third-IsSensible

-- Nothing to publish, and no time for recovery.
abbrev nothing : Options
nothing = record default_options { messages = 0; recovery_grace_ms = 0 }

prints_nothing : main_lines smallest nothing ≡ starting_line nothing ∷ summary_line 0 0 0 0 ∷ []
unfolding main_lines loop_lines last_lines grace_lines publish publish_loop
prints_nothing = refl
