-- ===== src/Book/Examples.antt =====
-- A short session on the book, and the theorems of the book at it.
use binary_market_data_feed.Prelude.{
  ℕ, ◌+◌, ◌^◌, ◌<◌, ◌≡◌, ◌≢◌, ◌↔◌, refl, sym, ◌∙◌, none, some, List, [], ◌∷◌, arith, true,
}
use binary_market_data_feed.Map.{find, put, erase, first?, last?, size}
use binary_market_data_feed.Wire.Structs.{
  buy, sell, MessageView, add_view, delete_view, trade_view, make_add_order_msg,
  make_modify_order_msg, make_delete_order_msg, make_trade_msg, side_from_char, char_of_side,
  char_of_message_type, decode_side, decode_add_order_id, decode_add_price, decode_add_quantity,
  decode_modify_order_id, decode_modify_price, decode_modify_quantity, decode_delete_order_id,
  decode_trade_order_id, decode_trade_quantity,
}
use binary_market_data_feed.Wire.Bytes.{bswap}
use binary_market_data_feed.Text.{codes, written, decimal, decimal_loop}
use binary_market_data_feed.Book.Format.{format_bbo, level_pieces, bbo_changed-format_bbo}
use binary_market_data_feed.Book.{
  empty_book, increase, decrease, add_level, subtract_level, erase_order, apply_add, apply_modify,
  apply_delete, apply_trade, to_level, update, apply, bbo, bbo_changed, ApplyResult,
}
use binary_market_data_feed.Book.Invariant.{IsBook, IsBook-empty}
use binary_market_data_feed.Book.Handlers.{update-IsBook}
use binary_market_data_feed.Book.Quotes.{IsBest, bbo-IsBest}
use binary_market_data_feed.Book.Spec.{orders_of, spec, update-spec}
use binary_market_data_feed.Book.Run.{
  update_all, spec_all, IsAdmissible, AllAtMost-Fits, book_correct, sessions_agree,
  update_all-IsBook,
}
use binary_market_data_feed.Book.Limits.{add_orders_wrap, zero_add_quotes}

abbrev session : List MessageView
session =
    add_view (make_add_order_msg 7 buy 9990 50)
    ∷ add_view (make_add_order_msg 8 sell 10010 20)
    ∷ trade_view (make_trade_msg 7 9990 15)
    ∷ delete_view (make_delete_order_msg 8)
    ∷ []

-- All that the session computes through.
opened : Unit {0}
unfolding update_all update apply_add apply_modify apply_delete apply_trade erase_order add_level
    subtract_level increase decrease bbo to_level find put erase first? last? size bswap
    side_from_char char_of_side char_of_message_type make_add_order_msg make_modify_order_msg
    make_delete_order_msg make_trade_msg decode_side decode_add_order_id decode_add_price
    decode_add_quantity decode_modify_order_id decode_modify_price decode_modify_quantity
    decode_delete_order_id decode_trade_order_id decode_trade_quantity
opened = tt

quotes_after_session :
    bbo (update_all empty_book session)
    ≡ record { best_bid = some (record { price = 9990; quantity = 35 }); best_ask = none }
unfolding opened
quotes_after_session = refl

session-IsAdmissible : IsAdmissible empty_book session
unfolding opened
session-IsAdmissible = (
  omega arith,
  AllAtMost-Fits 50 _ (omega arith) (omega arith),
  (
    omega arith,
    AllAtMost-Fits 50 _ (omega arith) (omega arith),
    (
      tt,
      AllAtMost-Fits 50 _ (omega arith) (omega arith),
      (tt, AllAtMost-Fits 50 _ (omega arith) (omega arith), tt),
    ),
  ),
)

book_correct_example :
    let b = update_all empty_book session in
    ((id : ℕ) → orders_of b id ≡ spec_all (λ _. none) session id)
    × IsBest buy (λ p r. p < r) b (bbo b).best_bid
    × IsBest sell (λ p r. r < p) b (bbo b).best_ask
book_correct_example = book_correct session session-IsAdmissible

session-IsBook : IsBook (update_all empty_book session)
session-IsBook = update_all-IsBook empty_book session IsBook-empty session-IsAdmissible

update-IsBook_example : IsBook (update empty_book (add_view (make_add_order_msg 7 buy 9990 50)))
update-IsBook_example =
    update-IsBook empty_book (add_view (make_add_order_msg 7 buy 9990 50)) IsBook-empty
      session-IsAdmissible.0 session-IsAdmissible.1

update-spec_example :
    orders_of (update empty_book (add_view (make_add_order_msg 7 buy 9990 50))) 7
    ≡ spec (orders_of empty_book) (add_view (make_add_order_msg 7 buy 9990 50)) 7
update-spec_example = update-spec empty_book (add_view (make_add_order_msg 7 buy 9990 50)) 7

bbo-IsBest_example :
    let b = update_all empty_book session in
    IsBest buy (λ p r. p < r) b (bbo b).best_bid × IsBest sell (λ p r. r < p) b (bbo b).best_ask
bbo-IsBest_example = bbo-IsBest (update_all empty_book session) session-IsBook

-- One message that leads to the same order.
abbrev at_once : List MessageView
at_once = add_view (make_add_order_msg 7 buy 9990 35) ∷ []

at_once-IsAdmissible : IsAdmissible empty_book at_once
unfolding opened
at_once-IsAdmissible = (omega arith, AllAtMost-Fits 35 _ (omega arith) (omega arith), tt)

same_orders :
    (id : ℕ)
    → orders_of (update_all empty_book session) id ≡ orders_of (update_all empty_book at_once) id
unfolding opened
same_orders id = refl

same_spec : (id : ℕ) → spec_all (λ _. none) session id ≡ spec_all (λ _. none) at_once id
same_spec id =
    sym ((book_correct session session-IsAdmissible).0 id)
    ∙ (same_orders id ∙ (book_correct at_once at_once-IsAdmissible).0 id)

sessions_agree_example : update_all empty_book session ≡ update_all empty_book at_once
sessions_agree_example =
    sessions_agree session at_once session-IsAdmissible at_once-IsAdmissible same_spec

bbo_changed-format_bbo_example :
    let r : ApplyResult = (apply empty_book (add_view (make_add_order_msg 7 buy 9990 50))).1 in
    (bbo_changed r ≡ true) ↔ (format_bbo r.before ≢ format_bbo r.after)
bbo_changed-format_bbo_example =
    bbo_changed-format_bbo (apply empty_book (add_view (make_add_order_msg 7 buy 9990 50))).1

prints_both_sides :
    format_bbo
      (record { best_bid = some (record { price = 9990; quantity = 50 }); best_ask = none })
    ≡ codes "BID 9990 x 50 | ASK --"
unfolding format_bbo level_pieces written decimal decimal_loop
prints_both_sides = refl

-- Four billion at a price, and half a billion more.
add_orders_wrap_example :
    let first = update empty_book (add_view (make_add_order_msg 7 buy 9990 4000000000)) in
    let b = update first (add_view (make_add_order_msg 8 buy 9990 500000000)) in
    (k : ℕ) × ((bbo b).best_bid ≡ some (record { price = 9990; quantity = k }))
    × (find 7 b.live_orders ≡ some (record { side = buy; quantity = 4000000000; price = 9990 }))
    × (find 8 b.live_orders ≡ some (record { side = buy; quantity = 500000000; price = 9990 }))
    × (k + 2 ^ 32 ≡ 4000000000 + 500000000)
    × (k < 4000000000)
    × (k < 500000000)
add_orders_wrap_example =
    add_orders_wrap 7 8 9990 4000000000 500000000 (omega arith) (omega arith)
      (λ e. omega (arith, e)) (omega arith) (omega arith) (omega arith) (omega arith)

zero_add_quotes_example :
    (bbo (update empty_book (add_view (make_add_order_msg 7 buy 9990 0)))).best_bid
    ≡ some (record { price = 9990; quantity = 0 })
zero_add_quotes_example = zero_add_quotes 7 9990 (omega arith) (omega arith)
