-- ===== src/Simulator/Orders.antt =====
-- What every message of the generator is, and what its live orders are.
pub mod Follows
pub mod Pool
use binary_market_data_feed.Prelude.{
  ℕ, zero, suc, ◌+◌, ◌-◌, ◌%◌, ◌^◌, ◌≤◌, ◌<◌, ◌≡◌, ==→ne, Bool-cases, inl, inr, List, [], ◌∷◌,
  arith, length, get_or, ltb, ◌==◌, if◌then◌else◌, All, All-append, All-take,
}
use binary_market_data_feed.Wire.Structs.{
  Side, buy, sell, Message, add_msg, modify_msg, delete_msg, trade_msg, decode_add_order_id,
  decode_modify_order_id, decode_modify_quantity, decode_delete_order_id, decode_add_quantity,
}
use binary_market_data_feed.Wire.Fields.{
  IsSendable, make_add_order_msg-IsSendable, make_modify_order_msg-IsSendable,
  make_delete_order_msg-IsSendable, decode-make_add_order_msg, decode-make_modify_order_msg,
  decode-make_delete_order_msg,
}
use binary_market_data_feed.Simulator.Generator.{
  LiveOrder, Generator, no_order, assign, remove_at, roll, roll_price, add_order, pick_order_index,
  lowest_price, highest_price, enter_order, change_order, drop_order, modify_order, delete_order,
  next,
}

-- A distribution from `lo` to `hi` gives a number between them.
abbrev pub IsDistribution : (ℕ → ℕ → ℕ → ℕ) → Type 0
IsDistribution draw = (n lo hi : ℕ) → lo ≤ hi → (lo ≤ draw n lo hi) × (draw n lo hi ≤ hi)

-- An order id that was given out, and a quantity and a price of the distributions.
abbrev pub IsLive : ℕ → LiveOrder → Type 0
IsLive next_order_id o =
    (0 < o.order_id)
    × (o.order_id < next_order_id)
    × (10 ≤ o.quantity)
    × (o.quantity ≤ 250)
    × (9950 ≤ o.price)
    × (o.price ≤ 10050)

abbrev pub IsGenerator : Generator → Type 0
IsGenerator g = (0 < g.next_order_id) × All (IsLive g.next_order_id) g.live_orders

-- An AddOrder has the next order id, a ModifyOrder or DeleteOrder is for a live order, and a quantity is
-- from 10 to 250.
abbrev pub Targets : Generator → Message → Type 0
Targets g (add_msg m) =
    (decode_add_order_id m ≡ g.next_order_id)
    × (10 ≤ decode_add_quantity m)
    × (decode_add_quantity m ≤ 250)
Targets g (modify_msg m) =
    (i : ℕ) × (i < length g.live_orders)
    × (decode_modify_order_id m ≡ (get_or g.live_orders i no_order).order_id)
    × (10 ≤ decode_modify_quantity m)
    × (decode_modify_quantity m ≤ 250)
Targets g (delete_msg m) =
    (i : ℕ) × (i < length g.live_orders)
    × (decode_delete_order_id m ≡ (get_or g.live_orders i no_order).order_id)
Targets g (trade_msg m) = ⊥

abbrev pub IsMade : Generator → Message × Generator → Type 0
IsMade g r =
    IsSendable r.0 × Targets g r.0 × IsGenerator r.1 × (r.1.next_order_id ≤ g.next_order_id + 1)

module _ (P : LiveOrder → Type 0) where
  pub All-get_or :
      (os : List LiveOrder) (i : ℕ) → All P os → i < length os → P (get_or os i no_order)
  All-get_or [] i h below = absurd (omega arith)
  All-get_or (o ∷ os) zero h below = h.0
  All-get_or (o ∷ os) (suc i) h below = All-get_or os i h.1 (omega arith)

  All-assign :
      (i : ℕ) (o : LiveOrder) (os : List LiveOrder) → P o → All P os → All P (assign i o os)
  unfolding assign
  All-assign i o [] p h = tt
  All-assign zero o (x ∷ os) p h = (p, h.1)
  All-assign (suc i) o (x ∷ os) p h = (h.0, All-assign i o os p h.1)

  All-remove_at : (i : ℕ) (os : List LiveOrder) → 0 < length os → All P os → All P (remove_at i os)
  unfolding remove_at
  All-remove_at i os some_left h =
      All-take P (length os - 1) (assign i (get_or os (length os - 1) no_order) os)
        (All-assign i _ os (All-get_or os (length os - 1) h (omega arith)) h)

IsLive-suc : (n : ℕ) (os : List LiveOrder) → All (IsLive n) os → All (IsLive (suc n)) os
IsLive-suc n [] h = tt
IsLive-suc n (o ∷ os) ((pos, below, q, q', p, p'), h) =
    ((pos, omega arith, q, q', p, p'), IsLive-suc n os h)

enter_order-IsMade :
    (side : Side) (price quantity : ℕ) (g : Generator)
    → IsGenerator g
    → g.next_order_id + 1 < 2 ^ 64
    → 10 ≤ quantity
    → quantity ≤ 250
    → 9950 ≤ price
    → price ≤ 10050
    → IsMade g (enter_order side price quantity g)
unfolding enter_order
enter_order-IsMade side price quantity g (pos, live) room q q' p p' =
    let n : ℕ = g.next_order_id in
    let next_id : (n + 1) % 2 ^ 64 ≡ suc n = omega arith in
    let (id, _, _, quantity_is) =
      decode-make_add_order_msg n side price quantity (omega arith) (omega arith) (omega arith) in
    (
      make_add_order_msg-IsSendable n side price quantity,
      (id, omega (arith, quantity_is), omega (arith, quantity_is)),
      rw next_id (
        omega arith,
        All-append (IsLive (suc n)) g.live_orders _ (IsLive-suc n g.live_orders live)
            ((pos, omega arith, q, q', p, p'), tt),
      ),
      omega (arith, next_id),
    )

module _ (index : ℕ) (g : Generator) (made : IsGenerator g) (room : g.next_order_id + 1 < 2 ^ 64)
    (below : index < length g.live_orders) where
  change_order-IsMade :
      (price quantity : ℕ)
      → 10 ≤ quantity
      → quantity ≤ 250
      → 9950 ≤ price
      → price ≤ 10050
      → IsMade g (change_order index price quantity g)
  unfolding change_order
  change_order-IsMade price quantity q q' p p' =
      let order = get_or g.live_orders index no_order in
      let live = All-get_or (IsLive g.next_order_id) g.live_orders index made.1 below in
      let (id, _, quantity_is) =
        decode-make_modify_order_msg order.order_id price quantity (omega (arith, live.1))
          (omega arith) (omega arith) in
      (
        make_modify_order_msg-IsSendable order.order_id price quantity,
        (index, below, id, omega (arith, quantity_is), omega (arith, quantity_is)),
        (
          made.0,
          All-assign (IsLive g.next_order_id) index _ g.live_orders (live.0, live.1, q, q', p, p')
              made.1,
        ),
        omega arith,
      )

  drop_order-IsMade : IsMade g (drop_order index g)
  unfolding drop_order
  drop_order-IsMade =
      let order = get_or g.live_orders index no_order in
      let live = All-get_or (IsLive g.next_order_id) g.live_orders index made.1 below in
      (
        make_delete_order_msg-IsSendable order.order_id,
        (index, below, decode-make_delete_order_msg order.order_id (omega (arith, live.1))),
        (made.0, All-remove_at (IsLive g.next_order_id) index g.live_orders (omega arith) made.1),
        omega arith,
      )

module _ (draw : ℕ → ℕ → ℕ → ℕ) (dist : IsDistribution draw) where
  pub price_range :
      (n : ℕ) (side : Side)
      → let price = draw n (lowest_price side) (highest_price side) in
        (9950 ≤ price) × (price ≤ 10050)
  price_range n buy =
      ((dist n 9950 10000 (omega arith)).0, omega (arith, (dist n 9950 10000 (omega arith)).1))
  price_range n sell =
      (omega (arith, (dist n 10001 10050 (omega arith)).0), (dist n 10001 10050 (omega arith)).1)

  module _ (g : Generator) (made : IsGenerator g) (room : g.next_order_id + 1 < 2 ^ 64) where
    add_order-IsMade : IsMade g (add_order draw g)
    unfolding add_order roll roll_price
    add_order-IsMade =
        let side : Side = if draw g.draws 0 1 == 0 then buy else sell in
        let (p, p') = price_range (g.draws + 1) side in
        let (q, q') = dist (g.draws + 1 + 1) 10 250 (omega arith) in
        enter_order-IsMade side _ _ (record g { draws = g.draws + 1 + 1 + 1 }) made room q q' p p'

    modify_order-IsMade : IsMade g (modify_order draw g)
    unfolding modify_order pick_order_index roll roll_price
    modify_order-IsMade = elim (Bool-cases (length g.live_orders == 0)) [
      | inl empty ↦ rw empty add_order-IsMade
      | inr some_live ↦
          let here = dist g.draws 0 (length g.live_orders - 1) (omega arith) in
          let index : ℕ = draw g.draws 0 (length g.live_orders - 1) in
          let below : index < length g.live_orders = omega (arith, here.1, ==→ne _ _ some_live) in
          let side : Side = (get_or g.live_orders index no_order).side in
          let (p, p') = price_range (g.draws + 1) side in
          let (q, q') = dist (g.draws + 1 + 1) 10 250 (omega arith) in
          rw some_live (
            change_order-IsMade index (record g { draws = g.draws + 1 + 1 + 1 }) made room below _ _
              q q' p p')
    ]

    delete_order-IsMade : IsMade g (delete_order draw g)
    unfolding delete_order pick_order_index roll
    delete_order-IsMade = elim (Bool-cases (length g.live_orders == 0)) [
      | inl empty ↦ rw empty add_order-IsMade
      | inr some_live ↦
          let here = dist g.draws 0 (length g.live_orders - 1) (omega arith) in
          let index : ℕ = draw g.draws 0 (length g.live_orders - 1) in
          let below : index < length g.live_orders = omega (arith, here.1, ==→ne _ _ some_live) in
          rw some_live (drop_order-IsMade index (record g { draws = g.draws + 1 }) made room below)
    ]

-- A step of the generator: what its message is, and that the counter of order ids does not wrap.
pub next-IsMade :
    (draw : ℕ → ℕ → ℕ → ℕ) (g : Generator)
    → IsDistribution draw
    → IsGenerator g
    → g.next_order_id + 1 < 2 ^ 64
    → IsMade g (next draw g)
unfolding next roll
next-IsMade draw g dist made room =
    let g1 : Generator = record g { draws = g.draws + 1 } in
    elim (Bool-cases (ltb (length g.live_orders) 4)) [
      | inl few ↦ rw few (add_order-IsMade draw dist g made room)
      | inr enough ↦ rw enough (elim (Bool-cases (ltb (draw g.draws 0 99) 45)) [
        | inl adds ↦ rw adds (add_order-IsMade draw dist g1 made room)
        | inr other ↦ rw other (elim (Bool-cases (ltb (draw g.draws 0 99) 80)) [
          | inl modifies ↦ rw modifies (modify_order-IsMade draw dist g1 made room)
          | inr deletes ↦ rw deletes (delete_order-IsMade draw dist g1 made room)
        ])
      ])
    ]
