-- ===== src/Simulator/Orders/Pool.antt =====
-- The live orders of the generator as a function from order ids, and what the changes of the list,
-- `remove_at` among them, do to it.
use binary_market_data_feed.Prelude.{
  ℕ, zero, suc, ◌<◌, ◌≡◌, refl, Bool-cases, inl, inr, List, [], ◌∷◌, ◌++◌, arith, length, get_or,
  take, ◌==◌, if◌then◌else◌, Option, none, some, false,
}
use native.Mathlib.Numerals.{unary_clauses}
use binary_market_data_feed.Book.{OrderState}
use binary_market_data_feed.Simulator.Generator.{LiveOrder, no_order, assign, remove_at}

abbrev pub state_of : LiveOrder → OrderState
state_of o = record { side = o.side; price = o.price; quantity = o.quantity }

-- The first order with the id.
unfoldable pub live_of : List LiveOrder → ℕ → Option OrderState
live_of [] id = none
live_of (o ∷ os) id = if o.order_id == id then some (state_of o) else live_of os id

-- No two of the orders have the same id.
unfoldable pub IsDistinct : List LiveOrder → Type 0
IsDistinct [] = Unit
IsDistinct (o ∷ os) = (live_of os o.order_id ≡ none) × IsDistinct os

pub live_of-snoc :
    (os : List LiveOrder) (o : LiveOrder) (id : ℕ)
    → live_of os o.order_id ≡ none
    → live_of (os ++ o ∷ []) id ≡ (if o.order_id == id then some (state_of o) else live_of os id)
unfolding live_of
live_of-snoc [] o id e = refl
live_of-snoc (x ∷ os) o id e = elim (Bool-cases (x.order_id == o.order_id)) [
  | inl same ↦ absurd (ground (arith, same, e))
  | inr other ↦
      let e' : live_of os o.order_id ≡ none = ground (arith, other, e) in
      ground (arith, live_of-snoc os o id e', other)
]

pub snoc-IsDistinct :
    (os : List LiveOrder) (o : LiveOrder)
    → IsDistinct os
    → live_of os o.order_id ≡ none
    → IsDistinct (os ++ o ∷ [])
unfolding IsDistinct live_of
snoc-IsDistinct [] o h e = (refl, tt)
snoc-IsDistinct (x ∷ os) o h e = elim (Bool-cases (x.order_id == o.order_id)) [
  | inl same ↦ absurd (ground (arith, same, e))
  | inr other ↦
      let e' : live_of os o.order_id ≡ none = ground (arith, other, e) in
      let apart : (o.order_id == x.order_id) ≡ false = ground (arith, other) in
      (ground (arith, live_of-snoc os o x.order_id e', apart, h.0), snoc-IsDistinct os o h.1 e')
]

-- The order at an index is found by its id.
pub live_of-get_or :
    (os : List LiveOrder) (i : ℕ)
    → IsDistinct os
    → i < length os
    → live_of os (get_or os i no_order).order_id ≡ some (state_of (get_or os i no_order))
unfolding live_of IsDistinct
live_of-get_or [] i h below = absurd (omega arith)
live_of-get_or (o ∷ os) zero h below = ground arith
live_of-get_or (o ∷ os) (suc i) h below =
    let ih = live_of-get_or os i h.1 (omega arith) in ground (arith, ih, h.0)

-- An order with another state at the same place, and with the same id.
module _ (o : LiveOrder) where
  pub live_of-assign :
      (os : List LiveOrder) (i id : ℕ)
      → IsDistinct os
      → i < length os
      → (get_or os i no_order).order_id ≡ o.order_id
      → live_of (assign i o os) id ≡ (if o.order_id == id then some (state_of o) else live_of os id)
  unfolding live_of assign IsDistinct
  live_of-assign [] i id h below e = absurd (omega arith)
  live_of-assign (x ∷ os) zero id h below e = ground (arith, e)
  live_of-assign (x ∷ os) (suc i) id h below e =
      let ih = live_of-assign os i id h.1 (omega arith) e in
      let found = live_of-get_or os i h.1 (omega arith) in ground (arith, ih, found, e, h.0)

  pub assign-IsDistinct :
      (os : List LiveOrder) (i : ℕ)
      → IsDistinct os
      → i < length os
      → (get_or os i no_order).order_id ≡ o.order_id
      → IsDistinct (assign i o os)
  unfolding live_of assign IsDistinct
  assign-IsDistinct [] i h below e = absurd (omega arith)
  assign-IsDistinct (x ∷ os) zero h below e = (ground (arith, e, h.0), h.1)
  assign-IsDistinct (x ∷ os) (suc i) h below e =
      let changed = live_of-assign os i x.order_id h.1 (omega arith) e in
      let found = live_of-get_or os i h.1 (omega arith) in
      (ground (arith, changed, found, e, h.0), assign-IsDistinct os i h.1 (omega arith) e)

-- The last of the orders, at their front.
abbrev last_of : LiveOrder → List LiveOrder → LiveOrder
last_of p ps = get_or (p ∷ ps) (length ps) no_order

live_of-front :
    (p : LiveOrder) (ps : List LiveOrder) (id : ℕ)
    → IsDistinct (p ∷ ps)
    → live_of (last_of p ps ∷ take (length ps) (p ∷ ps)) id ≡ live_of (p ∷ ps) id
unfolding live_of IsDistinct
live_of-front p [] id h = refl
live_of-front p (q ∷ qs) id h =
    let ih = live_of-front q qs id h.1 in
    let found = live_of-get_or (q ∷ qs) (length qs) h.1 (omega arith) in
    ground (arith, ih, found, h.0)

live_of-take :
    (n id : ℕ) (os : List LiveOrder) → live_of os id ≡ none → live_of (take n os) id ≡ none
unfolding live_of
live_of-take zero id os e = refl
live_of-take (suc n) id [] e = refl
live_of-take (suc n) id (o ∷ os) e = elim (Bool-cases (o.order_id == id)) [
  | inl same ↦ absurd (ground (arith, same, e))
  | inr other ↦
      let e' : live_of os id ≡ none = ground (arith, other, e) in
      ground (arith, other, live_of-take n id os e')
]

take-IsDistinct : (n : ℕ) (os : List LiveOrder) → IsDistinct os → IsDistinct (take n os)
unfolding IsDistinct
take-IsDistinct zero os h = tt
take-IsDistinct (suc n) [] h = tt
take-IsDistinct (suc n) (o ∷ os) h = (live_of-take n o.order_id os h.0, take-IsDistinct n os h.1)

live_of-butlast :
    (p : LiveOrder) (ps : List LiveOrder)
    → IsDistinct (p ∷ ps)
    → live_of (take (length ps) (p ∷ ps)) (last_of p ps).order_id ≡ none
unfolding live_of IsDistinct
live_of-butlast p [] h = refl
live_of-butlast p (q ∷ qs) h =
    let ih = live_of-butlast q qs h.1 in
    let found = live_of-get_or (q ∷ qs) (length qs) h.1 (omega arith) in
    ground (arith, ih, found, h.0)

remove_at-suc :
    (i : ℕ) (o p : LiveOrder) (ps : List LiveOrder)
    → remove_at (suc i) (o ∷ p ∷ ps) ≡ o ∷ remove_at i (p ∷ ps)
unfolding remove_at assign
remove_at-suc i o p ps = simp unary_clauses refl

remove_at-zero :
    (o p : LiveOrder) (ps : List LiveOrder)
    → remove_at zero (o ∷ p ∷ ps) ≡ last_of p ps ∷ take (length ps) (p ∷ ps)
unfolding remove_at assign
remove_at-zero o p ps = simp unary_clauses refl

pub live_of-remove_at :
    (i : ℕ) (os : List LiveOrder) (id : ℕ)
    → IsDistinct os
    → i < length os
    → live_of (remove_at i os) id
      ≡ (if (get_or os i no_order).order_id == id then none else live_of os id)
unfolding live_of remove_at assign IsDistinct
live_of-remove_at i [] id h below = absurd (omega arith)
live_of-remove_at zero (o ∷ []) id h below = ground arith
live_of-remove_at zero (o ∷ p ∷ ps) id h below =
    rw (remove_at-zero o p ps) (ground (arith, live_of-front p ps id h.1, h.0))
live_of-remove_at (suc i) (o ∷ []) id h below = absurd (omega arith)
live_of-remove_at (suc i) (o ∷ p ∷ ps) id h below =
    let ih = live_of-remove_at i (p ∷ ps) id h.1 (omega arith) in
    let found = live_of-get_or (p ∷ ps) i h.1 (omega arith) in
    rw (remove_at-suc i o p ps) (ground (arith, ih, found, h.0))

pub remove_at-IsDistinct :
    (i : ℕ) (os : List LiveOrder) → IsDistinct os → i < length os → IsDistinct (remove_at i os)
unfolding live_of remove_at assign IsDistinct
remove_at-IsDistinct i [] h below = absurd (omega arith)
remove_at-IsDistinct zero (o ∷ []) h below = tt
remove_at-IsDistinct zero (o ∷ p ∷ ps) h below =
    rw (remove_at-zero o p ps) (live_of-butlast p ps h.1, take-IsDistinct (length ps) (p ∷ ps) h.1)
remove_at-IsDistinct (suc i) (o ∷ []) h below = absurd (omega arith)
remove_at-IsDistinct (suc i) (o ∷ p ∷ ps) h below =
    let gone = live_of-remove_at i (p ∷ ps) o.order_id h.1 (omega arith) in
    let found = live_of-get_or (p ∷ ps) i h.1 (omega arith) in
    rw (remove_at-suc i o p ps)
      (ground (arith, gone, found, h.0), remove_at-IsDistinct i (p ∷ ps) h.1 (omega arith))
