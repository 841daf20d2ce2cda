-- ===== src/Book/Small.antt =====
-- Messages whose quantities are small enough for their number: no sum of live quantities can wrap.
use binary_market_data_feed.Prelude.{
  ℕ, suc, ◌+◌, ◌*◌, ◌-◌, ◌^◌, ◌≤◌, ◌<◌, ◌≡◌, min, some, List, [], ◌∷◌, arith, Option-cases,
  Bool-cases, inl, inr, ◌==◌, length, ltb, ==→eq, ==→ne, All, subst, sym,
}
use binary_market_data_feed.Map.{Map, find, put, erase, size, size-erase-le, size-put-le}
use binary_market_data_feed.Wire.Structs.{
  Side, AddOrderMsg, ModifyOrderMsg, TradeMsg, MessageView, add_view, modify_view, delete_view,
  trade_view, decode_side, decode_add_order_id, decode_add_price, decode_add_quantity,
  decode_modify_order_id, decode_modify_price, decode_modify_quantity, decode_delete_order_id,
  decode_trade_order_id, decode_trade_quantity,
}
use binary_market_data_feed.Book.{
  OrderState, OrderBook, subtract_level, erase_order, apply_add, apply_modify, apply_delete,
  apply_trade, update,
}
use binary_market_data_feed.Book.Invariant.{live_orders-subtract_level, live_orders-add_level}
use binary_market_data_feed.Book.Handlers.{
  IsNonzeroAdd, added, modified, left_out, apply_add-some, apply_modify_zero, apply_modify_some,
}
use binary_market_data_feed.Book.Run.{IsAdmissible, AllAtMost, AllAtMost-Fits}

-- At most `n` live orders, each of a quantity of at most `q`.
abbrev pub IsWithin : ℕ → ℕ → Map OrderState → Type 0
IsWithin q n m = AllAtMost q m × (size m ≤ n)

-- The quantity that the message sets is at most `q`.
abbrev pub SetsAtMost : ℕ → MessageView → Type 0
SetsAtMost q (add_view m) = decode_add_quantity m ≤ q
SetsAtMost q (modify_view m) = decode_modify_quantity m ≤ q
SetsAtMost q (delete_view m) = Unit {0}
SetsAtMost q (trade_view m) = Unit {0}

room_for : (k n l q : ℕ) → k ≤ n → (n + l) * q < 2 ^ 32 → k * q < 2 ^ 32
room_for k n l q h room = let more : k * q ≤ (n + l) * q = grind arith in omega (arith, more)

module _ (q : ℕ) where
  erase-AllAtMost : (k : ℕ) (m : Map OrderState) → AllAtMost q m → AllAtMost q (erase k m)
  unfolding erase
  erase-AllAtMost k [] h = tt
  erase-AllAtMost k ((j, o) ∷ m) h = elim (Bool-cases (j == k)) [
    | inl same ↦ rw same (erase-AllAtMost k m h.1)
    | inr other ↦ rw other (h.0, erase-AllAtMost k m h.1)
  ]

  put-AllAtMost :
      (k : ℕ) (o : OrderState) (m : Map OrderState)
      → o.quantity ≤ q
      → AllAtMost q m
      → AllAtMost q (put k o m)
  unfolding put
  put-AllAtMost k o [] small h = (small, tt)
  put-AllAtMost k o ((j, w) ∷ m) small h = elim (Bool-cases (ltb k j)) [
    | inl before ↦ rw before (small, h)
    | inr after ↦ rw after (elim (Bool-cases (k == j)) [
      | inl same ↦ rw same (small, h.1)
      | inr other ↦ rw other (h.0, put-AllAtMost k o m small h.1)
    ])
  ]

  AllAtMost-find :
      (k : ℕ) (o : OrderState) (m : Map OrderState)
      → AllAtMost q m
      → find k m ≡ some o
      → o.quantity ≤ q
  unfolding find
  AllAtMost-find k o [] h e = cc
  AllAtMost-find k o ((j, w) ∷ m) h e = ground (arith, AllAtMost-find k o m h.1)

  erase-IsWithin : (k n : ℕ) (m : Map OrderState) → IsWithin q n m → IsWithin q n (erase k m)
  erase-IsWithin k n m h = (erase-AllAtMost k m h.0, omega (arith, size-erase-le k m, h.1))

  put-IsWithin :
      (k n : ℕ) (o : OrderState) (m : Map OrderState)
      → o.quantity ≤ q
      → IsWithin q n m
      → IsWithin q (suc n) (put k o m)
  put-IsWithin k n o m small h =
      (put-AllAtMost k o m small h.0, omega (arith, size-put-le k o m, h.1))

  IsWithin-suc : (n : ℕ) (m : Map OrderState) → IsWithin q n m → IsWithin q (suc n) m
  IsWithin-suc n m h = (h.0, omega (arith, h.1))

  module _ (n : ℕ) (b : OrderBook) (h : IsWithin q n b.live_orders) where
    subtract_level-IsWithin :
        (s : Side) (p quantity : ℕ) → IsWithin q n (subtract_level b s p quantity).live_orders
    subtract_level-IsWithin s p quantity =
        subst (IsWithin q n) (sym (live_orders-subtract_level b s p quantity)) h

    erase_order-IsWithin : (id : ℕ) → IsWithin q n (erase_order b id).live_orders
    unfolding erase_order
    erase_order-IsWithin id = elim (Option-cases (find id b.live_orders)) [
      | inl e ↦ rw (e, erase_order) h
      | inr (o, e) ↦
          rw (e, erase_order)
            (erase-IsWithin id n _ (subtract_level-IsWithin o.side o.price o.quantity))
    ]

    apply_add-IsWithin :
        (m : AddOrderMsg)
        → decode_add_quantity m ≤ q
        → IsWithin q (suc n) (apply_add b m).live_orders
    unfolding apply_add
    apply_add-IsWithin m small = elim (Option-cases (decode_side m)) [
      | inl e ↦ rw (e, apply_add) (IsWithin-suc n b.live_orders h)
      | inr (side, e) ↦
          let id = decode_add_order_id m in
          let rest =
            subst (IsWithin q n)
              (sym (
                live_orders-add_level (erase_order b id) side (decode_add_price m)
                  (decode_add_quantity m)))
              (erase_order-IsWithin id) in
          rw (apply_add-some b m side e) (put-IsWithin id n (added m side) _ small rest)
    ]

    apply_modify-IsWithin :
        (m : ModifyOrderMsg)
        → decode_modify_quantity m ≤ q
        → IsWithin q (suc n) (apply_modify b m).live_orders
    unfolding apply_modify
    apply_modify-IsWithin m small =
        let id = decode_modify_order_id m in
        elim (Option-cases (find id b.live_orders)) [
          | inl e ↦ rw (e, apply_modify) (IsWithin-suc n b.live_orders h)
          | inr (o, e) ↦
              let out = subtract_level-IsWithin o.side o.price o.quantity in
              elim (Bool-cases (decode_modify_quantity m == 0)) [
                | inl z ↦
                    rw (apply_modify_zero b m o e (==→eq _ _ z))
                      (IsWithin-suc n _ (erase-IsWithin id n _ out))
                | inr nz ↦
                    let rest =
                      subst (IsWithin q n)
                        (sym (
                          live_orders-add_level (left_out b m o e) o.side (decode_modify_price m)
                            (decode_modify_quantity m)))
                        out in
                    rw (apply_modify_some b m o e (omega (arith, ==→ne _ _ nz)))
                      (put-IsWithin id n (modified m o) _ small rest)
              ]
        ]

    apply_trade-IsWithin : (m : TradeMsg) → IsWithin q (suc n) (apply_trade b m).live_orders
    unfolding apply_trade
    apply_trade-IsWithin m =
        let id = decode_trade_order_id m in
        elim (Option-cases (find id b.live_orders)) [
          | inl e ↦ rw (e, apply_trade) (IsWithin-suc n b.live_orders h)
          | inr (o, e) ↦
              let executed : ℕ = min o.quantity (decode_trade_quantity m) in
              let out = subtract_level-IsWithin o.side o.price executed in
              let small = AllAtMost-find id o b.live_orders h.0 e in
              elim (Bool-cases (o.quantity - executed == 0)) [
                | inl none_left ↦
                    rw (e, apply_trade, none_left) (IsWithin-suc n _ (erase-IsWithin id n _ out))
                | inr some_left ↦
                    rw (e, apply_trade, some_left)
                      (put-IsWithin id n (record o { quantity = o.quantity - executed }) _
                        (omega (arith, small)) out)
              ]
        ]

  update-IsWithin :
      (n : ℕ) (b : OrderBook) (m : MessageView)
      → SetsAtMost q m
      → IsWithin q n b.live_orders
      → IsWithin q (suc n) (update b m).live_orders
  unfolding update apply_delete
  update-IsWithin n b (add_view m) small h = apply_add-IsWithin n b h m small
  update-IsWithin n b (modify_view m) small h = apply_modify-IsWithin n b h m small
  update-IsWithin n b (delete_view m) small h =
      IsWithin-suc n _ (erase_order-IsWithin n b h (decode_delete_order_id m))
  update-IsWithin n b (trade_view m) small h = apply_trade-IsWithin n b h m

  pub small-IsAdmissible :
      (n : ℕ) (b : OrderBook) (ms : List MessageView)
      → All IsNonzeroAdd ms
      → All (SetsAtMost q) ms
      → IsWithin q n b.live_orders
      → (n + length ms) * q < 2 ^ 32
      → IsAdmissible b ms
  small-IsAdmissible n b [] pos small h room = tt
  small-IsAdmissible n b (m ∷ ms) pos small h room =
      let h' = update-IsWithin n b m small.0 h in
      let total : (suc n + length ms) * q < 2 ^ 32 =
        let e : suc n + length ms ≡ n + length (m ∷ ms) = omega arith in rw e room in
      let here : size (update b m).live_orders * q < 2 ^ 32 =
        room_for (size (update b m).live_orders) (suc n) (length ms) q h'.1 total in
      (
        pos.0,
        AllAtMost-Fits q (update b m).live_orders h'.0 here,
        small-IsAdmissible (suc n) (update b m) ms pos.1 small.1 h' total,
      )
