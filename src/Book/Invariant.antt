-- ===== src/Book/Invariant.antt =====
-- The book invariant: each level holds the sum of the live quantities at its price, and a price
-- without live quantity has no level. Every message keeps it, as long as no such sum reaches 2 ^ 32
-- and no order is added with quantity 0.
use binary_market_data_feed.Prelude.{
  ℕ, ◌+◌, ◌-◌, ◌^◌, ◌≤◌, ◌<◌, ◌≡◌, refl, sym, inl, inr, none, some, [], arith, leb, Option-cases,
  Bool-cases,
}
use binary_market_data_feed.Map.{Map, find, put, erase, find-empty, find-put, find-erase}
use binary_market_data_feed.Map.Order.{IsSorted, put-IsSorted, erase-IsSorted}
use binary_market_data_feed.Wire.Structs.{Side, buy, sell}
use binary_market_data_feed.Book.{
  OrderState, OrderBook, empty_book, increase, decrease, add_level, subtract_level, put_order,
  drop_order,
}
use binary_market_data_feed.Book.Totals.{
  total, at_level, HasLevels, add_level-HasLevels, subtract_level-HasLevels, at_level_self,
  total-erase, total-put, relabel, at_level-le-total,
}

abbrev pub IsPositive : Map OrderState → Type 0
IsPositive m = (id : ℕ) (o : OrderState) → find id m ≡ some o → 0 < o.quantity

-- No sum of live quantities wraps.
abbrev pub Fits : Map OrderState → Type 0
Fits m = (s : Side) (p : ℕ) → total s p m < 2 ^ 32

pub record IsSortedBook (b : OrderBook) : Type 0 where
  pub orders : IsSorted b.live_orders
  pub bids : IsSorted b.bids
  pub asks : IsSorted b.asks

pub record IsBook (b : OrderBook) : Type 0 where
  pub sorted : IsSortedBook b
  pub positive : IsPositive b.live_orders
  pub levels : HasLevels b (λ s p. total s p b.live_orders)

-- The levels leave the order `id` out.
pub record IsWithout (b : OrderBook) (id : ℕ) : Type 0 where
  pub sorted : IsSortedBook b
  pub positive : IsPositive b.live_orders
  pub levels : HasLevels b (λ s p. total s p (erase id b.live_orders))

increase-IsSorted : (levels : Map ℕ) (p q : ℕ) → IsSorted levels → IsSorted (increase levels p q)
unfolding increase
increase-IsSorted levels p q h = elim (Option-cases (find p levels)) [
  | inl e ↦ rw (e, increase) (put-IsSorted p _ levels h)
  | inr (v, e) ↦ rw (e, increase) (put-IsSorted p _ levels h)
]

decrease-IsSorted : (levels : Map ℕ) (p q : ℕ) → IsSorted levels → IsSorted (decrease levels p q)
unfolding decrease
decrease-IsSorted levels p q h = elim (Option-cases (find p levels)) [
  | inl e ↦ rw (e, decrease) h
  | inr (v, e) ↦
      rw (e, decrease)
        (elim (Bool-cases (leb v q)) [
          | inl gone ↦ rw gone (erase-IsSorted p levels h)
          | inr left ↦ rw left (put-IsSorted p (v - q) levels h)
        ])
]

pub live_orders-subtract_level :
    (b : OrderBook) (s : Side) (p q : ℕ) → (subtract_level b s p q).live_orders ≡ b.live_orders
unfolding subtract_level
live_orders-subtract_level b buy p q = refl
live_orders-subtract_level b sell p q = refl

pub live_orders-add_level :
    (b : OrderBook) (s : Side) (p q : ℕ) → (add_level b s p q).live_orders ≡ b.live_orders
unfolding add_level
live_orders-add_level b buy p q = refl
live_orders-add_level b sell p q = refl

pub subtract_level-IsSortedBook :
    (b : OrderBook) (s : Side) (p q : ℕ) → IsSortedBook b → IsSortedBook (subtract_level b s p q)
unfolding subtract_level
subtract_level-IsSortedBook b buy p q h = record {
  orders = h.orders;
  bids = decrease-IsSorted b.bids p q h.bids;
  asks = h.asks;
}
subtract_level-IsSortedBook b sell p q h = record {
  orders = h.orders;
  bids = h.bids;
  asks = decrease-IsSorted b.asks p q h.asks;
}

pub add_level-IsSortedBook :
    (b : OrderBook) (s : Side) (p q : ℕ) → IsSortedBook b → IsSortedBook (add_level b s p q)
unfolding add_level
add_level-IsSortedBook b buy p q h = record {
  orders = h.orders;
  bids = increase-IsSorted b.bids p q h.bids;
  asks = h.asks;
}
add_level-IsSortedBook b sell p q h = record {
  orders = h.orders;
  bids = h.bids;
  asks = increase-IsSorted b.asks p q h.asks;
}

IsPositive-erase : (id : ℕ) (m : Map OrderState) → IsPositive m → IsPositive (erase id m)
IsPositive-erase id m h j o e = ground (arith, find-erase j id m, h j o)

pub IsPositive-put :
    (id : ℕ) (o : OrderState) (m : Map OrderState)
    → 0 < o.quantity
    → IsPositive m
    → IsPositive (put id o m)
IsPositive-put id o m pos h j x e = ground (arith, find-put j id o m, h j x)

pub IsBook-empty : IsBook empty_book
unfolding total
IsBook-empty = record {
  sorted = record { orders = tt; bids = tt; asks = tt };
  positive = λ id o e. cc (find-empty {V = OrderState} id);
  levels = empty_levels;
}
  where
    empty_levels : HasLevels empty_book (λ s p. total s p [])
    empty_levels buy p = find-empty p
    empty_levels sell p = find-empty p

pub IsWithout-missing :
    (b : OrderBook) (id : ℕ) → IsBook b → find id b.live_orders ≡ none → IsWithout b id
IsWithout-missing b id h e = record {
  sorted = h.sorted;
  positive = h.positive;
  levels = relabel b missing h.levels;
}
  where
    missing : (s : Side) (p : ℕ) → total s p b.live_orders ≡ total s p (erase id b.live_orders)
    missing s p = ground (arith, total-erase s p id b.live_orders h.sorted.orders)

pub total-erase_found :
    (id : ℕ) (o : OrderState) (m : Map OrderState) (s : Side) (p : ℕ)
    → IsSorted m
    → find id m ≡ some o
    → total s p m ≡ total s p (erase id m) + at_level s p o
total-erase_found id o m s p h e = rw e at (total-erase s p id m h)

pub quantity-le-total :
    (id : ℕ) (o : OrderState) (m : Map OrderState)
    → find id m ≡ some o
    → o.quantity ≤ total o.side o.price m
quantity-le-total id o m e = rw at_level_self at (at_level-le-total o.side o.price id o m e)

pub IsWithout-found :
    (b : OrderBook) (id : ℕ) (o : OrderState)
    → IsBook b
    → find id b.live_orders ≡ some o
    → IsWithout (subtract_level b o.side o.price o.quantity) id
IsWithout-found b id o h e = record {
  sorted = subtract_level-IsSortedBook b o.side o.price o.quantity h.sorted;
  positive = rw (live_orders-subtract_level b o.side o.price o.quantity) h.positive;
  levels = rw (live_orders-subtract_level b o.side o.price o.quantity) (
      relabel (subtract_level b o.side o.price o.quantity)
        (λ s p. omega (arith, total-erase_found id o b.live_orders s p h.sorted.orders e))
        (subtract_level-HasLevels b (λ s p. total s p b.live_orders) o h.levels
          (quantity-le-total id o b.live_orders e)));
}

pub drop_order-IsBook : (b : OrderBook) (id : ℕ) → IsWithout b id → IsBook (drop_order b id)
drop_order-IsBook b id h = record {
  sorted = record {
    orders = erase-IsSorted id b.live_orders h.sorted.orders;
    bids = h.sorted.bids;
    asks = h.sorted.asks;
  };
  positive = IsPositive-erase id b.live_orders h.positive;
  levels = h.levels;
}

-- The order `id` enters, with its quantity added to its level.
pub put_order-IsBook :
    (b : OrderBook) (id : ℕ) (o : OrderState)
    → IsWithout b id
    → 0 < o.quantity
    → Fits (put id o b.live_orders)
    → IsBook (put_order (add_level b o.side o.price o.quantity) id o)
put_order-IsBook b id o h pos fits = record {
  sorted = record {
    orders =
        rw (live_orders-add_level b o.side o.price o.quantity)
          (put-IsSorted id o b.live_orders h.sorted.orders);
    bids = (add_level-IsSortedBook b o.side o.price o.quantity h.sorted).bids;
    asks = (add_level-IsSortedBook b o.side o.price o.quantity h.sorted).asks;
  };
  positive =
      rw (live_orders-add_level b o.side o.price o.quantity)
        (IsPositive-put id o b.live_orders pos h.positive);
  levels = rw (live_orders-add_level b o.side o.price o.quantity) (
      relabel (add_level b o.side o.price o.quantity)
        (λ s p. sym (total-put s p id o b.live_orders h.sorted.orders))
        (add_level-HasLevels b (λ s p. total s p (erase id b.live_orders)) o h.levels pos room));
}
  where
    room : total o.side o.price (erase id b.live_orders) + o.quantity < 2 ^ 32
    room = omega (
      arith,
      fits o.side o.price,
      total-put o.side o.price id o b.live_orders h.sorted.orders,
      at_level_self o,
    )
