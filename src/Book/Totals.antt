-- ===== src/Book/Totals.antt =====
-- The quantity at a price: as the live orders give it, and as the two level maps hold it.
use binary_market_data_feed.Prelude.{
  ℕ, zero, suc, ◌+◌, ◌-◌, ◌%◌, ◌^◌, ◌≤◌, ◌<◌, ◌≡◌, ap, ◌∙◌, Option, none, some, Bool, true, false,
  ◌&&◌, arith, ◌==◌, if◌then◌else◌,
}
use binary_market_data_feed.Map.{Map, find, put, erase, find-put, find-erase}
use binary_market_data_feed.Map.Order.{IsSorted}
use binary_market_data_feed.Map.Sums.{sum_by, part, sum_by-erase, sum_by-put, part-le-sum_by}
use binary_market_data_feed.Wire.Structs.{Side, buy, sell}
use binary_market_data_feed.Book.{
  OrderState, OrderBook, increase, decrease, add_level, subtract_level,
}

abbrev pub same_side : Side → Side → Bool
same_side buy buy = true
same_side buy sell = false
same_side sell buy = false
same_side sell sell = true

-- What an order contributes to a price on a side.
unfoldable pub at_level : Side → ℕ → OrderState → ℕ
at_level s p o = if same_side s o.side && p == o.price then o.quantity else 0

-- The sum of the live quantities at a price.
unfoldable pub total : Side → ℕ → Map OrderState → ℕ
unfolding sum_by at_level
total s p = sum_by (at_level s p)

-- A price with no quantity has no level.
abbrev pub level_of : ℕ → Option ℕ
level_of zero = none
level_of (suc n) = some (suc n)

abbrev pub on_side : Side → Map ℕ → Map ℕ → Map ℕ
on_side buy bids asks = bids
on_side sell bids asks = asks

abbrev pub side_levels : OrderBook → Side → Map ℕ
side_levels b s = on_side s b.bids b.asks

-- The levels of `b` are exactly the quantities `t`.
abbrev pub HasLevels : OrderBook → (Side → ℕ → ℕ) → Type 0
HasLevels b t = (s : Side) (p : ℕ) → find p (side_levels b s) ≡ level_of (t s p)

pub relabel :
    (b : OrderBook) {t u : Side → ℕ → ℕ}
    → ((s : Side) (p : ℕ) → t s p ≡ u s p)
    → HasLevels b t
    → HasLevels b u
relabel b e h s p = h s p ∙ ap level_of (e s p)

increase_lem :
    (levels : Map ℕ) (price q n j m : ℕ)
    → find price levels ≡ level_of n
    → find j levels ≡ level_of m
    → 0 < q
    → n + q < 2 ^ 32
    → find j (increase levels price q) ≡ level_of (if j == price then n + q else m)
unfolding increase
increase_lem levels price q zero j m e f pos fits =
    ground (arith, find-put j price ((0 + q) % 2 ^ 32) levels)
increase_lem levels price q (suc n) j m e f pos fits =
    ground (arith, find-put j price ((suc n + q) % 2 ^ 32) levels)

decrease_lem :
    (levels : Map ℕ) (price q n j m : ℕ)
    → find price levels ≡ level_of n
    → find j levels ≡ level_of m
    → q ≤ n
    → find j (decrease levels price q) ≡ level_of (if j == price then n - q else m)
unfolding decrease
decrease_lem levels price q zero j m e f h = ground arith
decrease_lem levels price q (suc n) j m e f h =
    ground (arith, find-put j price (suc n - q) levels, find-erase j price levels)

abbrev order : Side → ℕ → ℕ → OrderState
order side price quantity = record { side = side; quantity = quantity; price = price }

module _ (b : OrderBook) (t : Side → ℕ → ℕ) where
  -- Adding an order's quantity to its level, where the 32-bit sum does not wrap.
  add_level-at :
      (side : Side) (price q : ℕ)
      → HasLevels b t
      → 0 < q
      → t side price + q < 2 ^ 32
      → HasLevels (add_level b side price q) (λ s p. t s p + at_level s p (order side price q))
  unfolding add_level at_level
  add_level-at buy price q h pos fits buy p = ground (
    arith,
    increase_lem b.bids price q (t buy price) p (t buy p) (h buy price) (h buy p) pos fits,
  )
  add_level-at buy price q h pos fits sell p = ground (arith, h sell p)
  add_level-at sell price q h pos fits buy p = ground (arith, h buy p)
  add_level-at sell price q h pos fits sell p = ground (
    arith,
    increase_lem b.asks price q (t sell price) p (t sell p) (h sell price) (h sell p) pos fits,
  )

  subtract_level-at :
      (side : Side) (price q : ℕ)
      → HasLevels b t
      → q ≤ t side price
      → HasLevels (subtract_level b side price q) (λ s p. t s p - at_level s p (order side price q))
  unfolding subtract_level at_level
  subtract_level-at buy price q h enough buy p =
      ground (
        arith,
        decrease_lem b.bids price q (t buy price) p (t buy p) (h buy price) (h buy p) enough,
      )
  subtract_level-at buy price q h enough sell p = ground (arith, h sell p)
  subtract_level-at sell price q h enough buy p = ground (arith, h buy p)
  subtract_level-at sell price q h enough sell p = ground (
    arith,
    decrease_lem b.asks price q (t sell price) p (t sell p) (h sell price) (h sell p) enough,
  )

  pub add_level-HasLevels :
      (o : OrderState)
      → HasLevels b t
      → 0 < o.quantity
      → t o.side o.price + o.quantity < 2 ^ 32
      → HasLevels (add_level b o.side o.price o.quantity) (λ s p. t s p + at_level s p o)
  add_level-HasLevels o = add_level-at o.side o.price o.quantity

  pub subtract_level-HasLevels :
      (o : OrderState)
      → HasLevels b t
      → o.quantity ≤ t o.side o.price
      → HasLevels (subtract_level b o.side o.price o.quantity) (λ s p. t s p - at_level s p o)
  subtract_level-HasLevels o = subtract_level-at o.side o.price o.quantity

-- An order contributes its quantity at its own price.
pub at_level_self : (o : OrderState) → at_level o.side o.price o ≡ o.quantity
unfolding at_level
at_level_self o = same o.side o.price o.quantity
  where
    same : (side : Side) (price q : ℕ) → at_level side price (order side price q) ≡ q
    same buy price q = ground arith
    same sell price q = ground arith

module _ (s : Side) (p : ℕ) where
  -- An order is worth what is executed of it and what is left.
  pub at_level_split :
      (o : OrderState) (e : ℕ)
      → e ≤ o.quantity
      → at_level s p o
        ≡ at_level s p (record o { quantity = o.quantity - e })
          + at_level s p (record o { quantity = e })
  unfolding at_level
  at_level_split o e h = ground arith

  pub total-erase :
      (id : ℕ) (m : Map OrderState)
      → IsSorted m
      → total s p m ≡ total s p (erase id m) + part (at_level s p) (find id m)
  unfolding total
  total-erase id m h = sum_by-erase (at_level s p) 0 id m h

  pub total-put :
      (id : ℕ) (o : OrderState) (m : Map OrderState)
      → IsSorted m
      → total s p (put id o m) ≡ total s p (erase id m) + at_level s p o
  unfolding total
  total-put id o m h = sum_by-put (at_level s p) 0 id o m h

  pub at_level-le-total :
      (id : ℕ) (o : OrderState) (m : Map OrderState)
      → find id m ≡ some o
      → at_level s p o ≤ total s p m
  unfolding total
  at_level-le-total id o m e = rw e at (part-le-sum_by (at_level s p) id m)
