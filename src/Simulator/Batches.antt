-- ===== src/Simulator/Batches.antt =====
-- The batches of the publishing loop: how many messages, and what they are.
use binary_market_data_feed.Prelude.{
  ℕ, zero, suc, ◌+◌, ◌^◌, ◌≤◌, ◌<◌, ◌≡◌, refl, ap, List, arith, length, All,
}
use binary_market_data_feed.Wire.Structs.{
  Message, add_msg, modify_msg, delete_msg, trade_msg, view_of,
}
use binary_market_data_feed.Wire.Fields.{IsSendable}
use binary_market_data_feed.Book.Handlers.{IsNonzeroAdd}
use binary_market_data_feed.Book.Small.{SetsAtMost}
use binary_market_data_feed.Simulator.Generator.{Generator, next}
use binary_market_data_feed.Simulator.Orders.{IsDistribution, IsGenerator, Targets, next-IsMade}
use binary_market_data_feed.Simulator.Publisher.{World, make_batch}

-- A message that can be sent, and that does to the book what an exchange of small orders does.
abbrev pub IsSmall : Message → Type 0
IsSmall m = IsSendable m × IsNonzeroAdd (view_of m) × SetsAtMost 250 (view_of m)

Targets-IsSmall :
    (g : Generator) (m : Message)
    → Targets g m
    → IsNonzeroAdd (view_of m) × SetsAtMost 250 (view_of m)
unfolding view_of
Targets-IsSmall g (add_msg m) t = (omega (arith, t.1), t.2)
Targets-IsSmall g (modify_msg m) t = (tt, t.4)
Targets-IsSmall g (delete_msg m) t = (tt, tt)
Targets-IsSmall g (trade_msg m) t = absurd t

-- The batch of `n` messages from this generator.
pub record IsBatch (n : ℕ) (g : Generator) (r : List Message × Generator) : Type 0 where
  pub many : length r.0 ≡ n
  pub small : All IsSmall r.0
  pub made : IsGenerator r.1
  pub ids : r.1.next_order_id ≤ g.next_order_id + n

pub make_batch-IsBatch :
    (world : World) (n : ℕ) (g : Generator)
    → IsDistribution world.draw
    → IsGenerator g
    → g.next_order_id + n < 2 ^ 64
    → IsBatch n g (make_batch world n g)
unfolding make_batch
make_batch-IsBatch world zero g dist made room = record {
  many = refl;
  small = tt;
  made = made;
  ids = omega arith;
}
make_batch-IsBatch world (suc n) g dist made room =
    let (sendable, targets, made', ids) = next-IsMade world.draw g dist made (omega arith) in
    let (pos, few) = Targets-IsSmall g (next world.draw g).0 targets in
    let rest = make_batch-IsBatch world n (next world.draw g).1 dist made' (omega (arith, ids)) in
    record {
      many = ap suc rest.many;
      small = ((sendable, pos, few), rest.small);
      made = rest.made;
      ids = omega (arith, ids, rest.ids);
    }
