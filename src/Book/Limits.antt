-- ===== src/Book/Limits.antt =====
-- Where the book leaves its invariant: an order added with quantity 0, and a level whose sum reaches
-- 2 ^ 32.
use binary_market_data_feed.Prelude.{
  ℕ, ◌+◌, ◌%◌, ◌^◌, ◌≤◌, ◌<◌, ◌≡◌, ◌≢◌, refl, none, some, [], arith, ltb, le→ltb, ==-refl, false,
  ne→==, sym, ◌∙◌,
}
use binary_market_data_feed.Map.{find, put, find-put_self, find-put, last?, find-empty}
use binary_market_data_feed.Wire.Structs.{
  buy, add_view, make_add_order_msg, decode_add_order_id, modify_view, delete_view,
  make_modify_order_msg, make_delete_order_msg,
}
use binary_market_data_feed.Wire.Fields.{
  decode-make_add_order_msg, decode-make_modify_order_msg, decode-make_delete_order_msg,
}
use binary_market_data_feed.Book.{
  OrderState, OrderBook, put_order, apply_add, empty_book, increase, add_level, erase_order, update,
  apply_modify, apply_delete, bbo, to_level,
}
use binary_market_data_feed.Book.Handlers.{apply_add-some, erase_order_unknown}

-- Two levels' worth of quantity at one price, in an otherwise empty book.
two_at_level :
    (price q r : ℕ)
    → q < 2 ^ 32
    → to_level (last? (increase (increase [] price q) price r))
      ≡ some (record { price = price; quantity = (q + r) % 2 ^ 32 })
unfolding increase put find last? to_level
two_at_level price q r small =
    let kept : (0 + q) % 2 ^ 32 ≡ q = omega arith in
    let same = ==-refl price in
    let before : ltb price price ≡ false = le→ltb price price (omega arith) in
    rw (kept, find, same, increase, put, before, same) refl

-- Two AddOrders with different ids at one buy price, into an empty book, whose quantities come to 2 ^ 32
-- or more: both orders are live with their quantities, and the best bid has the price, with less
-- than the quantity of either order, by the sum without 2 ^ 32.
pub add_orders_wrap :
    (i j price q r : ℕ)
    → i < 2 ^ 64
    → j < 2 ^ 64
    → i ≢ j
    → price < 2 ^ 32
    → q < 2 ^ 32
    → r < 2 ^ 32
    → 2 ^ 32 ≤ q + r
    → let first = update empty_book (add_view (make_add_order_msg i buy price q)) in
      let b = update first (add_view (make_add_order_msg j buy price r)) in
      (k : ℕ) × ((bbo b).best_bid ≡ some (record { price = price; quantity = k }))
      × (find i b.live_orders ≡ some (record { side = buy; quantity = q; price = price }))
      × (find j b.live_orders ≡ some (record { side = buy; quantity = r; price = price }))
      × (k + 2 ^ 32 ≡ q + r)
      × (k < q)
      × (k < r)
unfolding update bbo add_level
add_orders_wrap i j price q r hi hj other hp hq hr over =
    let m = make_add_order_msg i buy price q in
    let n = make_add_order_msg j buy price r in
    let (id, side, p, quantity) = decode-make_add_order_msg i buy price q hi hp hq in
    let (id', side', p', quantity') = decode-make_add_order_msg j buy price r hj hp hr in
    let o : OrderState = record { side = buy; quantity = q; price = price } in
    let b1 : OrderBook = put_order (add_level empty_book buy price q) i o in
    let first : apply_add empty_book m ≡ b1 =
      rw
        (
          apply_add-some empty_book m buy side,
          id,
          quantity,
          p,
          erase_order_unknown empty_book i (find-empty i),
        )
        refl in
    let absent : find j b1.live_orders ≡ none =
      find-put j i o [] ∙ rw (ne→== i j other) (find-empty j) in
    rw (first, apply_add-some b1 n buy side', id', quantity', p', erase_order_unknown b1 j absent)
      (
        (q + r) % 2 ^ 32,
        two_at_level price q r hq,
        find-put i j _ b1.live_orders ∙ rw (ne→== j i (λ e. other (sym e))) (find-put_self i o []),
        find-put_self j _ b1.live_orders,
        omega arith,
        omega arith,
        omega arith,
      )

zero_level :
    (price : ℕ)
    → to_level (last? (increase [] price 0)) ≡ some (record { price = price; quantity = 0 })
unfolding increase put find last? to_level
zero_level price = refl

-- An AddOrder of quantity 0, on the buy side of an empty book, makes a best bid of quantity 0.
pub zero_add_quotes :
    (order_id price : ℕ)
    → order_id < 2 ^ 64
    → price < 2 ^ 32
    → (bbo (update empty_book (add_view (make_add_order_msg order_id buy price 0)))).best_bid
      ≡ some (record { price = price; quantity = 0 })
unfolding update bbo add_level
zero_add_quotes order_id price hi hp =
    let m = make_add_order_msg order_id buy price 0 in
    let (id, side, p, q) = decode-make_add_order_msg order_id buy price 0 hi hp (omega arith) in
    rw
      (
        apply_add-some empty_book m buy side,
        q,
        p,
        erase_order_unknown empty_book (decode_add_order_id m) (find-empty _),
      )
      (zero_level price)

-- In any book, a ModifyOrder to quantity 0 leads to the same book as a DeleteOrder of the same order,
-- where the order id and the price fit their C++ types.
pub modify_zero_deletes :
    (b : OrderBook) (order_id price : ℕ)
    → order_id < 2 ^ 64
    → price < 2 ^ 32
    → update b (modify_view (make_modify_order_msg order_id price 0))
      ≡ update b (delete_view (make_delete_order_msg order_id))
unfolding update apply_delete erase_order apply_modify
modify_zero_deletes b order_id price hi hp =
    let (id, p, q) = decode-make_modify_order_msg order_id price 0 hi hp (omega arith) in
    let id' = decode-make_delete_order_msg order_id hi in ground (arith, id, q, id')
