-- ===== src/Book/Handlers.antt =====
-- Each handler of src/common/order_book.cpp keeps the book invariant.
use binary_market_data_feed.Prelude.{
  ℕ, ◌-◌, ◌≤◌, ◌<◌, ◌≡◌, refl, inl, inr, none, some, arith, min, ◌==◌, Option-cases, Bool-cases,
  ==→eq, ==→ne, ne→==, leb, leb→le, leb→lt,
}
use binary_market_data_feed.Map.{find, put, find-erase_self}
use binary_market_data_feed.Map.Order.{put-IsSorted}
use binary_market_data_feed.Wire.Structs.{
  Side, AddOrderMsg, ModifyOrderMsg, TradeMsg, MessageView, add_view, modify_view, delete_view,
  trade_view, decode_side, decode_add_order_id, decode_modify_order_id, decode_delete_order_id,
  decode_trade_order_id, decode_add_price, decode_modify_price, decode_add_quantity,
  decode_modify_quantity, decode_trade_quantity,
}
use binary_market_data_feed.Book.{
  OrderState, OrderBook, add_level, subtract_level, put_order, drop_order, erase_order, apply_add,
  apply_modify, apply_delete, apply_trade, update,
}
use binary_market_data_feed.Book.Totals.{
  total, at_level, relabel, subtract_level-HasLevels, total-put, at_level_split,
}
use binary_market_data_feed.Book.Invariant.{
  IsBook, IsWithout, Fits, IsPositive-put, live_orders-subtract_level, live_orders-add_level,
  subtract_level-IsSortedBook, IsWithout-missing, IsWithout-found, drop_order-IsBook,
  put_order-IsBook, total-erase_found, quantity-le-total,
}

module _ (b : OrderBook) (id : ℕ) (h : IsBook b) where
  pub erase_order-IsBook : IsBook (erase_order b id)
  unfolding erase_order
  erase_order-IsBook = elim (Option-cases (find id b.live_orders)) [
    | inl e ↦ rw (e, erase_order) h
    | inr (o, e) ↦ rw (e, erase_order) (drop_order-IsBook _ id (IsWithout-found b id o h e))
  ]

  find-erase_order : find id (erase_order b id).live_orders ≡ none
  unfolding erase_order
  find-erase_order = elim (Option-cases (find id b.live_orders)) [
    | inl e ↦ rw (e, erase_order) e
    | inr (o, e) ↦ rw (e, erase_order) (find-erase_self id _)
  ]

  erase_order-IsWithout : IsWithout (erase_order b id) id
  erase_order-IsWithout =
      IsWithout-missing (erase_order b id) id erase_order-IsBook find-erase_order

-- The state that an AddOrder message describes.
abbrev pub added : AddOrderMsg → Side → OrderState
added m side = record { side = side; quantity = decode_add_quantity m; price = decode_add_price m }

-- The early returns: an invalid side, or an order that is not live.
pub apply_add_unknown : (b : OrderBook) (m : AddOrderMsg) → decode_side m ≡ none → apply_add b m ≡ b
unfolding apply_add
apply_add_unknown b m e = rw (e, apply_add)

pub apply_modify_unknown :
    (b : OrderBook) (m : ModifyOrderMsg)
    → find (decode_modify_order_id m) b.live_orders ≡ none
    → apply_modify b m ≡ b
unfolding apply_modify
apply_modify_unknown b m e = rw (e, apply_modify)

pub apply_trade_unknown :
    (b : OrderBook) (m : TradeMsg)
    → find (decode_trade_order_id m) b.live_orders ≡ none
    → apply_trade b m ≡ b
unfolding apply_trade
apply_trade_unknown b m e = rw (e, apply_trade)

pub erase_order_unknown :
    (b : OrderBook) (id : ℕ) → find id b.live_orders ≡ none → erase_order b id ≡ b
unfolding erase_order
erase_order_unknown b id e = rw (e, erase_order)

pub apply_add-some :
    (b : OrderBook) (m : AddOrderMsg) (side : Side)
    → decode_side m ≡ some side
    → let id = decode_add_order_id m in
      let o = added m side in
      apply_add b m ≡ put_order (add_level (erase_order b id) o.side o.price o.quantity) id o
unfolding apply_add
apply_add-some b m side e = rw (e, apply_add)

apply_add-IsBook :
    (b : OrderBook) (m : AddOrderMsg)
    → IsBook b
    → 0 < decode_add_quantity m
    → Fits (apply_add b m).live_orders
    → IsBook (apply_add b m)
unfolding apply_add
apply_add-IsBook b m h pos fits = elim (Option-cases (decode_side m)) [
  | inl e ↦ rw (e, apply_add) h
  | inr (side, e) ↦
      let id = decode_add_order_id m in
      rw (apply_add-some b m side e) (
        put_order-IsBook (erase_order b id) id (added m side) (erase_order-IsWithout b id h) pos
          (rw (apply_add-some b m side e, live_orders-add_level) at fits))
]

-- The order that a ModifyOrder message makes of `o`.
abbrev pub modified : ModifyOrderMsg → OrderState → OrderState
modified m o = record {
  side = o.side;
  quantity = decode_modify_quantity m;
  price = decode_modify_price m;
}

add_level-put_order :
    (b : OrderBook) (id : ℕ) (o : OrderState) (s : Side) (p q : ℕ)
    → add_level (put_order b id o) s p q ≡ put_order (add_level b s p q) id o
unfolding add_level
add_level-put_order b id o Side.buy p q = refl
add_level-put_order b id o Side.sell p q = refl

module _ (b : OrderBook) (m : ModifyOrderMsg) (o : OrderState)
    (found : find (decode_modify_order_id m) b.live_orders ≡ some o) where
  abbrev pub left_out : OrderBook
  left_out = subtract_level b o.side o.price o.quantity

  pub apply_modify_zero :
      decode_modify_quantity m ≡ 0
      → apply_modify b m ≡ drop_order left_out (decode_modify_order_id m)
  unfolding apply_modify
  apply_modify_zero z = rw (found, apply_modify, z)

  pub apply_modify_some :
      0 < decode_modify_quantity m
      → let o' = modified m o in
        apply_modify b m
        ≡ put_order (add_level left_out o'.side o'.price o'.quantity) (decode_modify_order_id m) o'
  unfolding apply_modify
  apply_modify_some pos =
      rw (found, apply_modify, ne→== (decode_modify_quantity m) 0 (λ e. omega arith))
        (add_level-put_order left_out (decode_modify_order_id m) (modified m o) o.side _ _)

  modify_found-IsBook : IsBook b → Fits (apply_modify b m).live_orders → IsBook (apply_modify b m)
  modify_found-IsBook h fits =
      let id = decode_modify_order_id m in
      let without = IsWithout-found b id o h found in
      elim (Bool-cases (decode_modify_quantity m == 0)) [
        | inl z ↦ rw (apply_modify_zero (==→eq _ _ z)) (drop_order-IsBook left_out id without)
        | inr nz ↦
            let pos : 0 < decode_modify_quantity m = omega (arith, ==→ne _ _ nz) in
            rw (apply_modify_some pos) (
              put_order-IsBook left_out id (modified m o) without pos
                (rw (apply_modify_some pos, live_orders-add_level) at fits))
      ]

apply_modify-IsBook :
    (b : OrderBook) (m : ModifyOrderMsg)
    → IsBook b
    → Fits (apply_modify b m).live_orders
    → IsBook (apply_modify b m)
unfolding apply_modify
apply_modify-IsBook b m h fits =
    elim (Option-cases (find (decode_modify_order_id m) b.live_orders)) [
      | inl e ↦ rw (e, apply_modify) h
      | inr (o, e) ↦ modify_found-IsBook b m o e h fits
    ]

-- What a Trade message executes of the order `o`, and what it leaves of it.
abbrev pub executed : TradeMsg → OrderState → ℕ
executed m o = min o.quantity (decode_trade_quantity m)

abbrev pub left_over : TradeMsg → OrderState → OrderState
left_over m o = record o { quantity = o.quantity - executed m o }

module _ (b : OrderBook) (m : TradeMsg) (o : OrderState)
    (found : find (decode_trade_order_id m) b.live_orders ≡ some o) where
  abbrev pub filled : OrderBook
  filled = subtract_level b o.side o.price (executed m o)

  pub apply_trade_all :
      o.quantity ≤ decode_trade_quantity m
      → apply_trade b m
        ≡ drop_order (subtract_level b o.side o.price o.quantity) (decode_trade_order_id m)
  unfolding apply_trade
  apply_trade_all all =
      let full : min o.quantity (decode_trade_quantity m) ≡ o.quantity = omega arith in
      let nothing : o.quantity - o.quantity ≡ 0 = omega arith in
      rw (found, apply_trade, full, nothing)

  pub apply_trade_part :
      decode_trade_quantity m < o.quantity
      → apply_trade b m ≡ put_order filled (decode_trade_order_id m) (left_over m o)
  unfolding apply_trade
  apply_trade_part part =
      rw (found, apply_trade, ne→== (o.quantity - executed m o) 0 (λ e. omega arith))

  trade_part-IsBook : IsBook b → decode_trade_quantity m < o.quantity → IsBook (apply_trade b m)
  trade_part-IsBook h part = rw (apply_trade_part part) (record {
    sorted = record {
      orders =
          rw (live_orders-subtract_level b o.side o.price (executed m o))
            (put-IsSorted id (left_over m o) b.live_orders h.sorted.orders);
      bids = (subtract_level-IsSortedBook b o.side o.price (executed m o) h.sorted).bids;
      asks = (subtract_level-IsSortedBook b o.side o.price (executed m o) h.sorted).asks;
    };
    positive =
        rw (live_orders-subtract_level b o.side o.price (executed m o))
          (IsPositive-put id (left_over m o) b.live_orders (omega arith) h.positive);
    levels = rw (live_orders-subtract_level b o.side o.price (executed m o)) (
        relabel filled left_total (
          subtract_level-HasLevels b (λ s p. total s p b.live_orders)
            (record o { quantity = executed m o }) h.levels
            (omega (arith, quantity-le-total id o b.live_orders found))));
  })
    where
      id : ℕ
      id = decode_trade_order_id m

      left_total :
          (s : Side) (p : ℕ)
          → total s p b.live_orders - at_level s p (record o { quantity = executed m o })
            ≡ total s p (put id (left_over m o) b.live_orders)
      left_total s p = omega (
        arith,
        total-put s p id (left_over m o) b.live_orders h.sorted.orders,
        total-erase_found id o b.live_orders s p h.sorted.orders found,
        at_level_split s p o (executed m o) (omega arith),
      )

apply_trade-IsBook : (b : OrderBook) (m : TradeMsg) → IsBook b → IsBook (apply_trade b m)
unfolding apply_trade
apply_trade-IsBook b m h = elim (Option-cases (find (decode_trade_order_id m) b.live_orders)) [
  | inl e ↦ rw (e, apply_trade) h
  | inr (o, e) ↦ elim (Bool-cases (leb o.quantity (decode_trade_quantity m))) [
    | inl all ↦ rw (apply_trade_all b m o e (leb→le _ _ all)) (
        drop_order-IsBook _ (decode_trade_order_id m)
          (IsWithout-found b (decode_trade_order_id m) o h e))
    | inr part ↦ trade_part-IsBook b m o e h (leb→lt _ _ part)
  ]
]

-- An AddOrder message carries a quantity.
abbrev pub IsNonzeroAdd : MessageView → Type 0
IsNonzeroAdd (add_view m) = 0 < decode_add_quantity m
IsNonzeroAdd (modify_view m) = Unit
IsNonzeroAdd (delete_view m) = Unit
IsNonzeroAdd (trade_view m) = Unit

-- Every message keeps the book invariant (each level is the sum of the live quantities at its price,
-- and a price without any has no level), unless it adds an order of quantity 0 or a sum of the live
-- quantities after it reaches 2 ^ 32.
pub update-IsBook :
    (b : OrderBook) (message : MessageView)
    → IsBook b
    → IsNonzeroAdd message
    → Fits (update b message).live_orders
    → IsBook (update b message)
unfolding update apply_delete
update-IsBook b (add_view m) h pos fits = apply_add-IsBook b m h pos fits
update-IsBook b (modify_view m) h pos fits = apply_modify-IsBook b m h fits
update-IsBook b (delete_view m) h pos fits = erase_order-IsBook b (decode_delete_order_id m) h
update-IsBook b (trade_view m) h pos fits = apply_trade-IsBook b m h
