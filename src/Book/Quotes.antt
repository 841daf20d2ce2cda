-- ===== src/Book/Quotes.antt =====
-- The best bid and offer against the live orders.
use binary_market_data_feed.Prelude.{
  ℕ, zero, suc, ◌<◌, ◌≡◌, ◌≢◌, refl, sym, ◌∙◌, ◌↔◌, inl, inr, Option, none, some, true, false,
  arith, Bool-cases, some-injective,
}
use binary_market_data_feed.Map.{find, first?, last?, find-empty}
use binary_market_data_feed.Map.Order.{
  first?-find, first?-least, first?-none, last?-find, last?-greatest, last?-none,
}
use binary_market_data_feed.Wire.Structs.{Side, buy, sell}
use binary_market_data_feed.Book.{
  Level, ApplyResult, OrderState, OrderBook, best_eq, bbo_changed, to_level, bbo,
}
use binary_market_data_feed.Book.Totals.{total, level_of}
use binary_market_data_feed.Book.Invariant.{IsBook, quantity-le-total}

-- `q` at `price` is the quote of a side: the sum of the live quantities there, which is not 0, and
-- no live order of the side is priced beyond it.
pub record IsQuote (side : Side) (beyond : ℕ → ℕ → Type 0) (b : OrderBook) (l : Level)
    : Type 0 where
  pub sum : l.quantity ≡ total side l.price b.live_orders
  pub positive : 0 < l.quantity
  pub best :
      (id : ℕ) (o : OrderState)
      → find id b.live_orders ≡ some o
      → o.side ≡ side
      → ¬ beyond l.price o.price

-- No live order is on the side.
abbrev pub NoOrders : Side → OrderBook → Type 0
NoOrders side b = (id : ℕ) (o : OrderState) → find id b.live_orders ≡ some o → o.side ≢ side

level_of-some : (n q : ℕ) → level_of n ≡ some q → (q ≡ n) × (0 < q)
level_of-some zero q e = cc
level_of-some (suc n) q e = let same : suc n ≡ q = some-injective _ _ e in omega arith

has_level : (n : ℕ) → 0 < n → (q : ℕ) × (level_of n ≡ some q)
has_level zero h = absurd (omega arith)
has_level (suc n) h = (suc n, refl)

module _ (b : OrderBook) (h : IsBook b) where
  -- A live order has a level.
  bid_of_order :
      (id : ℕ) (o : OrderState)
      → find id b.live_orders ≡ some o
      → o.side ≡ buy
      → (q : ℕ) × (find o.price b.bids ≡ some q)
  bid_of_order id o e s =
      let (q, l) =
        has_level (total buy o.price b.live_orders)
          (omega (arith, h.positive id o e, rw s at (quantity-le-total id o b.live_orders e))) in
      (q, h.levels buy o.price ∙ l)

  ask_of_order :
      (id : ℕ) (o : OrderState)
      → find id b.live_orders ≡ some o
      → o.side ≡ sell
      → (q : ℕ) × (find o.price b.asks ≡ some q)
  ask_of_order id o e s =
      let (q, l) =
        has_level (total sell o.price b.live_orders)
          (omega (arith, h.positive id o e, rw s at (quantity-le-total id o b.live_orders e))) in
      (q, h.levels sell o.price ∙ l)

  bid-IsQuote :
      (price q : ℕ)
      → last? b.bids ≡ some (price, q)
      → IsQuote buy (λ p r. p < r) b (record { price = price; quantity = q })
  bid-IsQuote price q e =
      let level = sym (h.levels buy price) ∙ last?-find 0 price q b.bids h.sorted.bids e in
      let (sum, positive) = level_of-some (total buy price b.live_orders) q level in
      record {
        sum = sum;
        positive = positive;
        best = λ id o f s beyond.
            let (r, g) = bid_of_order id o f s in
            let le = last?-greatest 0 price o.price q r b.bids h.sorted.bids e g in
            absurd (omega arith);
      }

  ask-IsQuote :
      (price q : ℕ)
      → first? b.asks ≡ some (price, q)
      → IsQuote sell (λ p r. r < p) b (record { price = price; quantity = q })
  ask-IsQuote price q e =
      let level = sym (h.levels sell price) ∙ first?-find price q b.asks e in
      let (sum, positive) = level_of-some (total sell price b.live_orders) q level in
      record {
        sum = sum;
        positive = positive;
        best = λ id o f s beyond.
            let (r, g) = ask_of_order id o f s in
            let le = first?-least price o.price q r b.asks h.sorted.asks e g in
            absurd (omega arith);
      }

-- What a best price says: the quote of the side, or that the side has no live order.
abbrev pub IsBest : Side → (ℕ → ℕ → Type 0) → OrderBook → Option Level → Type 0
IsBest side beyond b none = NoOrders side b
IsBest side beyond b (some l) = IsQuote side beyond b l

module _ (b : OrderBook) (h : IsBook b) where
  IsBest-bid_of : (e : Option (ℕ × ℕ)) → last? b.bids ≡ e → IsBest buy (λ p r. p < r) b (to_level e)
  unfolding to_level
  IsBest-bid_of none e = λ id o f s.
      let (q, g) = bid_of_order b h id o f s in
      let nothing = last?-none b.bids e in cc (g, find-empty {V = ℕ} o.price, nothing)
  IsBest-bid_of (some (price, q)) e = bid-IsQuote b h price q e

  IsBest-ask_of :
      (e : Option (ℕ × ℕ)) → first? b.asks ≡ e → IsBest sell (λ p r. r < p) b (to_level e)
  unfolding to_level
  IsBest-ask_of none e = λ id o f s.
      let (q, g) = ask_of_order b h id o f s in
      let nothing = first?-none b.asks e in cc (g, find-empty {V = ℕ} o.price, nothing)
  IsBest-ask_of (some (price, q)) e = ask-IsQuote b h price q e

-- In a book that keeps the invariant, the best bid is the highest price of a live buy order and the
-- best ask the lowest price of a live sell order, each with the sum of the live quantities there,
-- which is not 0; and a side without live orders has no best price.
pub bbo-IsBest :
    (b : OrderBook)
    → IsBook b
    → IsBest buy (λ p r. p < r) b (bbo b).best_bid × IsBest sell (λ p r. r < p) b (bbo b).best_ask
unfolding bbo
bbo-IsBest b h = (IsBest-bid_of b h (last? b.bids) refl, IsBest-ask_of b h (first? b.asks) refl)

best_eq_refl : (a : Option Level) → best_eq a a ≡ true
unfolding best_eq
best_eq_refl none = refl
best_eq_refl (some l) = ground arith

best_eq→eq : (a b : Option Level) → best_eq a b ≡ true → a ≡ b
unfolding best_eq
best_eq→eq none none e = refl
best_eq→eq none (some b) e = cc
best_eq→eq (some a) none e = cc
best_eq→eq (some a) (some b) e = ground arith

unchanged : (r : ApplyResult) → r.before ≡ r.after → bbo_changed r ≡ false
unfolding bbo_changed
unchanged r e = ground (arith, e, best_eq_refl r.after.best_bid, best_eq_refl r.after.best_ask)

same_snapshots : (r : ApplyResult) → bbo_changed r ≡ false → r.before ≡ r.after
unfolding bbo_changed
same_snapshots r e = ground (
  arith,
  best_eq→eq r.before.best_bid r.after.best_bid,
  best_eq→eq r.before.best_ask r.after.best_ask,
)

-- bbo_changed is true exactly when the snapshots before and after differ.
pub bbo_changed_iff : (r : ApplyResult) → (bbo_changed r ≡ true) ↔ (r.before ≢ r.after)
bbo_changed_iff r = (
  λ changed same. cc (unchanged r same),
  λ differ. elim (Bool-cases (bbo_changed r)) [
    | inl changed ↦ changed
    | inr e ↦ absurd (differ (same_snapshots r e))
  ],
)
