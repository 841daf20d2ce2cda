-- ===== src/Book/Run.antt =====
-- The book over a sequence of messages, from the empty book.
use binary_market_data_feed.Prelude.{
  ℕ, ◌*◌, ◌^◌, ◌≤◌, ◌<◌, ◌≡◌, sym, ◌∙◌, none, List, [], ◌∷◌, arith,
}
use binary_market_data_feed.Map.{Map, find-empty, size}
use binary_market_data_feed.Wire.Structs.{Side, buy, sell, MessageView}
use binary_market_data_feed.Book.{OrderState, OrderBook, empty_book, update, bbo}
use binary_market_data_feed.Book.Totals.{total, at_level}
use binary_market_data_feed.Book.Invariant.{IsBook, Fits, IsBook-empty}
use binary_market_data_feed.Book.Handlers.{IsNonzeroAdd, update-IsBook}
use binary_market_data_feed.Book.Spec.{
  Orders, orders_of, spec, update-spec, spec_ext, IsBook-unique,
}
use binary_market_data_feed.Book.Quotes.{IsBest, bbo-IsBest}

unfoldable pub update_all : OrderBook → List MessageView → OrderBook
update_all b [] = b
update_all b (m ∷ ms) = update_all (update b m) ms

unfoldable pub spec_all : Orders → List MessageView → Orders
spec_all f [] = f
spec_all f (m ∷ ms) = spec_all (spec f m) ms

-- No message adds an order of quantity 0, and after none does a sum of quantities reach 2 ^ 32.
abbrev pub IsAdmissible : OrderBook → List MessageView → Type 0
IsAdmissible b [] = Unit {0}
IsAdmissible b (m ∷ ms) =
    IsNonzeroAdd m × Fits (update b m).live_orders × IsAdmissible (update b m) ms

pub update_all-IsBook :
    (b : OrderBook) (ms : List MessageView)
    → IsBook b
    → IsAdmissible b ms
    → IsBook (update_all b ms)
unfolding update_all
update_all-IsBook b [] h a = h
update_all-IsBook b (m ∷ ms) h a =
    update_all-IsBook (update b m) ms (update-IsBook b m h a.0 a.1) a.2

update_all-spec :
    (b : OrderBook) (f : Orders) (ms : List MessageView)
    → ((id : ℕ) → orders_of b id ≡ f id)
    → (id : ℕ) → orders_of (update_all b ms) id ≡ spec_all f ms id
unfolding update_all spec_all
update_all-spec b f [] same id = same id
update_all-spec b f (m ∷ ms) same id =
    update_all-spec (update b m) (spec f m) ms
      (λ j. update-spec b m j ∙ spec_ext (orders_of b) f m same j) id

-- Where every live quantity is at most `q`, no sum exceeds `q` for each live order.
abbrev pub AllAtMost : ℕ → Map OrderState → Type 0
AllAtMost q [] = Unit {0}
AllAtMost q ((id, o) ∷ m) = (o.quantity ≤ q) × AllAtMost q m

total-le : (s : Side) (p q : ℕ) (m : Map OrderState) → AllAtMost q m → total s p m ≤ size m * q
unfolding total size at_level
total-le s p q [] h = omega arith
total-le s p q ((id, o) ∷ m) h = ground (arith, total-le s p q m h.1)

pub AllAtMost-Fits : (q : ℕ) (m : Map OrderState) → AllAtMost q m → size m * q < 2 ^ 32 → Fits m
AllAtMost-Fits q m h room s p = omega (arith, total-le s p q m h)

-- After any messages from the empty book, none of which adds an order of quantity 0 and after none of
-- which a sum of live quantities reaches 2 ^ 32: the live orders are those of the specification without
-- levels, and best bid and best ask are the best prices of the live orders, with the quantities there.
pub book_correct :
    (ms : List MessageView)
    → IsAdmissible empty_book ms
    → let b = update_all empty_book ms in
      ((id : ℕ) → orders_of b id ≡ spec_all (λ _. none) ms id)
      × IsBest buy (λ p r. p < r) b (bbo b).best_bid
      × IsBest sell (λ p r. r < p) b (bbo b).best_ask
book_correct ms a =
    let (bid, ask) = bbo-IsBest _ (update_all-IsBook empty_book ms IsBook-empty a) in
    (update_all-spec empty_book (λ _. none) ms (λ id. find-empty {V = OrderState} id), bid, ask)

-- Two sequences of messages from the empty book, each with no order of quantity 0 added and no sum of
-- live quantities that reaches 2 ^ 32, that the specification without levels takes to the same live
-- orders, lead to the same book, levels and all: no history is left in the levels.
pub sessions_agree :
    (ms ns : List MessageView)
    → IsAdmissible empty_book ms
    → IsAdmissible empty_book ns
    → ((id : ℕ) → spec_all (λ _. none) ms id ≡ spec_all (λ _. none) ns id)
    → update_all empty_book ms ≡ update_all empty_book ns
sessions_agree ms ns a a' same =
    let none_live : (id : ℕ) → orders_of empty_book id ≡ none =
      λ id. find-empty {V = OrderState} id in
    IsBook-unique _ _ (update_all-IsBook empty_book ms IsBook-empty a)
      (update_all-IsBook empty_book ns IsBook-empty a')
      (λ id.
        update_all-spec empty_book (λ _. none) ms none_live id
        ∙ (same id ∙ sym (update_all-spec empty_book (λ _. none) ns none_live id)))
