-- ===== src/Simulator/Orders/Follows.antt =====
-- The live orders that MarketDataGenerator keeps, against what a book makes of its messages.
use binary_market_data_feed.Prelude.{
  ℕ, ◌+◌, ◌-◌, ◌^◌, ◌≤◌, ◌<◌, ◌≡◌, refl, sym, ◌∙◌, some, ==→ne, Bool-cases, inl, inr, none, List,
  [], ◌∷◌, arith, length, get_or, ltb, ◌==◌, if◌then◌else◌, All,
}
use binary_market_data_feed.Wire.Structs.{
  Side, buy, sell, Message, AddOrderMsg, ModifyOrderMsg, add_view, modify_view, view_of,
  decode_side, decode_add_order_id, decode_add_price, decode_add_quantity, decode_modify_order_id,
  decode_modify_price, decode_modify_quantity,
}
use binary_market_data_feed.Wire.Fields.{
  decode-make_add_order_msg, decode-make_modify_order_msg, decode-make_delete_order_msg,
}
use binary_market_data_feed.Book.{OrderState}
use binary_market_data_feed.Book.Spec.{Orders, spec, after_modify, change, revise}
use binary_market_data_feed.Simulator.Generator.{
  LiveOrder, Generator, no_order, roll, roll_price, add_order, pick_order_index, enter_order,
  change_order, drop_order, modify_order, delete_order, next,
}
use binary_market_data_feed.Simulator.Orders.{
  IsDistribution, IsLive, IsGenerator, IsMade, All-get_or, price_range, next-IsMade,
}
use binary_market_data_feed.Simulator.Orders.Pool.{
  live_of, IsDistinct, live_of-snoc, snoc-IsDistinct, live_of-get_or, live_of-assign,
  assign-IsDistinct, live_of-remove_at, remove_at-IsDistinct,
}

-- The orders behind the step are the orders before it as the message changes them, and no id is twice
-- among them.
abbrev pub Follows : Generator → Message × Generator → Type 0
Follows g r =
    IsDistinct r.1.live_orders
    × ((id : ℕ) → live_of r.1.live_orders id ≡ spec (live_of g.live_orders) (view_of r.0) id)

-- The next order id is no live order's.
fresh : (n : ℕ) (os : List LiveOrder) → All (IsLive n) os → live_of os n ≡ none
unfolding live_of
fresh n [] h = refl
fresh n (o ∷ os) h = let below : o.order_id < n = h.0.1 in ground (arith, fresh n os h.1)

-- An AddOrder and a ModifyOrder in the specification, by what is read of them.
spec-add_view :
    (f : Orders) (m : AddOrderMsg) (side : Side) (id price quantity j : ℕ)
    → decode_add_order_id m ≡ id
    → decode_side m ≡ some side
    → decode_add_price m ≡ price
    → decode_add_quantity m ≡ quantity
    → spec f (add_view m) j
      ≡ change f id (some (record { side = side; price = price; quantity = quantity })) j
unfolding spec
spec-add_view f m side id price quantity j i s p q = rw (spec, s) (ground (arith, i, p, q))

spec-modify_view :
    (f : Orders) (m : ModifyOrderMsg) (o : OrderState) (id price quantity j : ℕ)
    → f id ≡ some o
    → 0 < quantity
    → decode_modify_order_id m ≡ id
    → decode_modify_price m ≡ price
    → decode_modify_quantity m ≡ quantity
    → spec f (modify_view m) j
      ≡ change f id (some (record { side = o.side; price = price; quantity = quantity })) j
unfolding spec revise after_modify
spec-modify_view f m o id price quantity j live pos i p q =
    rw (spec, revise, i, live) (ground (arith, p, q, pos))

enter_order-Follows :
    (side : Side) (price quantity : ℕ) (g : Generator)
    → IsGenerator g
    → IsDistinct g.live_orders
    → g.next_order_id + 1 < 2 ^ 64
    → quantity ≤ 250
    → price ≤ 10050
    → Follows g (enter_order side price quantity g)
unfolding enter_order view_of
enter_order-Follows side price quantity g made distinct room q p =
    let n : ℕ = g.next_order_id in
    let none_there = fresh n g.live_orders made.1 in
    let (id, side_is, price_is, quantity_is) =
      decode-make_add_order_msg n side price quantity (omega arith) (omega arith) (omega arith) in
    (
      snoc-IsDistinct g.live_orders _ distinct none_there,
      λ j.
          live_of-snoc g.live_orders _ j none_there
          ∙ sym (
              spec-add_view (live_of g.live_orders) _ side n price quantity j id side_is price_is
                quantity_is),
    )

module _ (index : ℕ) (g : Generator) (made : IsGenerator g) (distinct : IsDistinct g.live_orders)
    (room : g.next_order_id + 1 < 2 ^ 64) (below : index < length g.live_orders) where
  change_order-Follows :
      (price quantity : ℕ)
      → 10 ≤ quantity
      → quantity ≤ 250
      → price ≤ 10050
      → Follows g (change_order index price quantity g)
  unfolding change_order view_of
  change_order-Follows price quantity q q' p =
      let order = get_or g.live_orders index no_order in
      let live = All-get_or (IsLive g.next_order_id) g.live_orders index made.1 below in
      let found = live_of-get_or g.live_orders index distinct below in
      let (id, price_is, quantity_is) =
        decode-make_modify_order_msg order.order_id price quantity (omega (arith, live.1))
          (omega arith) (omega arith) in
      (
        assign-IsDistinct _ g.live_orders index distinct below refl,
        λ j.
            live_of-assign _ g.live_orders index j distinct below refl
            ∙ sym (
                spec-modify_view (live_of g.live_orders) _ _ order.order_id price quantity j found
                  (omega arith) id price_is quantity_is),
      )

  drop_order-Follows : Follows g (drop_order index g)
  unfolding drop_order spec view_of
  drop_order-Follows =
      let order = get_or g.live_orders index no_order in
      let live = All-get_or (IsLive g.next_order_id) g.live_orders index made.1 below in
      let id = decode-make_delete_order_msg order.order_id (omega (arith, live.1)) in
      (
        remove_at-IsDistinct index g.live_orders distinct below,
        λ j. rw id (live_of-remove_at index g.live_orders j distinct below),
      )

module _ (draw : ℕ → ℕ → ℕ → ℕ) (dist : IsDistribution draw) where
  module _ (g : Generator) (made : IsGenerator g) (distinct : IsDistinct g.live_orders)
      (room : g.next_order_id + 1 < 2 ^ 64) where
    add_order-Follows : Follows g (add_order draw g)
    unfolding add_order roll roll_price
    add_order-Follows =
        let side : Side = if draw g.draws 0 1 == 0 then buy else sell in
        let p' = (price_range draw dist (g.draws + 1) side).1 in
        let q' = (dist (g.draws + 1 + 1) 10 250 (omega arith)).1 in
        enter_order-Follows side _ _ (record g { draws = g.draws + 1 + 1 + 1 }) made distinct room
          q' p'

    modify_order-Follows : Follows g (modify_order draw g)
    unfolding modify_order pick_order_index roll roll_price
    modify_order-Follows = elim (Bool-cases (length g.live_orders == 0)) [
      | inl empty ↦ rw empty add_order-Follows
      | inr some_live ↦
          let here = dist g.draws 0 (length g.live_orders - 1) (omega arith) in
          let index : ℕ = draw g.draws 0 (length g.live_orders - 1) in
          let below : index < length g.live_orders = omega (arith, here.1, ==→ne _ _ some_live) in
          let side : Side = (get_or g.live_orders index no_order).side in
          let p' = (price_range draw dist (g.draws + 1) side).1 in
          let (q, q') = dist (g.draws + 1 + 1) 10 250 (omega arith) in
          rw some_live (
            change_order-Follows index (record g { draws = g.draws + 1 + 1 + 1 }) made distinct room
              below _ _ q q' p')
    ]

    delete_order-Follows : Follows g (delete_order draw g)
    unfolding delete_order pick_order_index roll
    delete_order-Follows = elim (Bool-cases (length g.live_orders == 0)) [
      | inl empty ↦ rw empty add_order-Follows
      | inr some_live ↦
          let here = dist g.draws 0 (length g.live_orders - 1) (omega arith) in
          let index : ℕ = draw g.draws 0 (length g.live_orders - 1) in
          let below : index < length g.live_orders = omega (arith, here.1, ==→ne _ _ some_live) in
          rw some_live
            (drop_order-Follows index (record g { draws = g.draws + 1 }) made distinct room below)
    ]

-- Whatever the random engine gives within the bounds of the distributions, from a generator whose live
-- orders have ids of their own: every message that the generator makes can be serialized and read
-- back, an AddOrder has the next order id, a ModifyOrder or DeleteOrder is for a live order, and the
-- quantities are from 10 to 250 and the prices of live orders from 9950 to 10050. The live orders
-- behind the message are those before it as the book's specification changes them by the message (so a
-- deleted order is gone and every other stays), and again no two have one id. The counter of order ids
-- does not wrap.
pub next-Follows :
    (draw : ℕ → ℕ → ℕ → ℕ) (g : Generator)
    → IsDistribution draw
    → IsGenerator g
    → IsDistinct g.live_orders
    → g.next_order_id + 1 < 2 ^ 64
    → IsMade g (next draw g) × Follows g (next draw g)
unfolding next roll
next-Follows draw g dist made distinct room =
    let g1 : Generator = record g { draws = g.draws + 1 } in
    (
      next-IsMade draw g dist made room,
      elim (Bool-cases (ltb (length g.live_orders) 4)) [
        | inl few ↦ rw few (add_order-Follows draw dist g made distinct room)
        | inr enough ↦ rw enough (elim (Bool-cases (ltb (draw g.draws 0 99) 45)) [
          | inl adds ↦ rw adds (add_order-Follows draw dist g1 made distinct room)
          | inr other ↦ rw other (elim (Bool-cases (ltb (draw g.draws 0 99) 80)) [
            | inl modifies ↦ rw modifies (modify_order-Follows draw dist g1 made distinct room)
            | inr deletes ↦ rw deletes (delete_order-Follows draw dist g1 made distinct room)
          ])
        ])
      ],
    )
