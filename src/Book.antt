-- ===== src/Book.antt =====
-- include/bmdfh/order_book.hpp and src/common/order_book.cpp: the live orders, the two books of
-- price levels, and the best bid and offer. Quantities are 32-bit: a level's sum wraps.
pub mod Totals
pub mod Invariant
pub mod Handlers
pub mod Spec
pub mod Quotes
pub mod Limits
pub mod Small
pub mod Run
pub mod Format
mod Examples
use binary_market_data_feed.Prelude.{
  ℕ, zero, suc, ◌+◌, ◌-◌, ◌%◌, ◌^◌, min, Option, none, some, List, [], ◌∷◌, Bool, true, false, not,
  ◌&&◌, ltb, leb, ◌==◌, if◌then◌else◌,
}
use binary_market_data_feed.Map.{Map, find, put, erase, size, first?, last?}
use binary_market_data_feed.Wire.Structs.{
  Side, buy, sell, AddOrderMsg, ModifyOrderMsg, DeleteOrderMsg, TradeMsg, MessageView, add_view,
  modify_view, delete_view, trade_view, decode_side, decode_add_order_id, decode_modify_order_id,
  decode_delete_order_id, decode_trade_order_id, decode_add_price, decode_modify_price,
  decode_add_quantity, decode_modify_quantity, decode_trade_quantity,
}

pub record Level : Type 0 where
  pub price : ℕ
  pub quantity : ℕ

pub record BboSnapshot : Type 0 where
  pub best_bid : Option Level
  pub best_ask : Option Level

pub record ApplyResult : Type 0 where
  pub before : BboSnapshot
  pub after : BboSnapshot

pub record OrderState : Type 0 where
  pub side : Side
  pub quantity : ℕ
  pub price : ℕ

pub record OrderBook : Type 0 where
  pub live_orders : Map OrderState
  pub bids : Map ℕ
  pub asks : Map ℕ

abbrev pub empty_book : OrderBook
empty_book = record { live_orders = []; bids = []; asks = [] }

-- The defaulted comparisons of Level, of std::optional<Level> and of BboSnapshot.
unfoldable pub level_eq : Level → Level → Bool
level_eq a b = (a.price == b.price) && (a.quantity == b.quantity)

unfoldable pub best_eq : Option Level → Option Level → Bool
unfolding level_eq
best_eq none none = true
best_eq none (some b) = false
best_eq (some a) none = false
best_eq (some a) (some b) = level_eq a b

unfoldable pub bbo_changed : ApplyResult → Bool
unfolding best_eq
bbo_changed r =
    not (best_eq r.before.best_bid r.after.best_bid && best_eq r.before.best_ask r.after.best_ask)

unfoldable pub to_level : Option (ℕ × ℕ) → Option Level
to_level none = none
to_level (some (price, quantity)) = some (record { price = price; quantity = quantity })

unfoldable pub bbo : OrderBook → BboSnapshot
unfolding to_level
bbo b = record { best_bid = to_level (last? b.bids); best_ask = to_level (first? b.asks) }

-- `levels[price] += quantity`: operator[] makes a missing level 0.
unfoldable pub increase : Map ℕ → ℕ → ℕ → Map ℕ
increase levels price quantity = elim (find price levels) [
  | none ↦ put price ((0 + quantity) % 2 ^ 32) levels
  | some q ↦ put price ((q + quantity) % 2 ^ 32) levels
]

unfoldable pub decrease : Map ℕ → ℕ → ℕ → Map ℕ
decrease levels price quantity = elim (find price levels) [
  | none ↦ levels
  | some q ↦ if leb q quantity then erase price levels else put price (q - quantity) levels
]

unfoldable pub add_level : OrderBook → Side → ℕ → ℕ → OrderBook
unfolding increase
add_level b buy price quantity = record b { bids = increase b.bids price quantity }
add_level b sell price quantity = record b { asks = increase b.asks price quantity }

unfoldable pub subtract_level : OrderBook → Side → ℕ → ℕ → OrderBook
unfolding decrease
subtract_level b buy price quantity = record b { bids = decrease b.bids price quantity }
subtract_level b sell price quantity = record b { asks = decrease b.asks price quantity }

-- A write to `live_orders_[order_id]`, and the erasure of an entry.
abbrev pub put_order : OrderBook → ℕ → OrderState → OrderBook
put_order b order_id state = record b { live_orders = put order_id state b.live_orders }

abbrev pub drop_order : OrderBook → ℕ → OrderBook
drop_order b order_id = record b { live_orders = erase order_id b.live_orders }

unfoldable pub erase_order : OrderBook → ℕ → OrderBook
erase_order b order_id = elim (find order_id b.live_orders) [
  | none ↦ b
  | some o ↦ drop_order (subtract_level b o.side o.price o.quantity) order_id
]

unfoldable pub apply_add : OrderBook → AddOrderMsg → OrderBook
apply_add b add = elim (decode_side add) [
  | none ↦ b
  | some side ↦
      let order_id = decode_add_order_id add in
      let state : OrderState = record {
        side = side;
        quantity = decode_add_quantity add;
        price = decode_add_price add;
      } in
      put_order (add_level (erase_order b order_id) state.side state.price state.quantity) order_id
        state
]

unfoldable pub apply_modify : OrderBook → ModifyOrderMsg → OrderBook
apply_modify b modify =
    let order_id = decode_modify_order_id modify in
    elim (find order_id b.live_orders) [
      | none ↦ b
      | some o ↦
          let without = subtract_level b o.side o.price o.quantity in
          let state : OrderState = record {
            side = o.side;
            quantity = decode_modify_quantity modify;
            price = decode_modify_price modify;
          } in
          if state.quantity == 0
          then drop_order without order_id
          else add_level (put_order without order_id state) state.side state.price state.quantity
    ]

unfoldable pub apply_delete : OrderBook → DeleteOrderMsg → OrderBook
apply_delete b deleted = erase_order b (decode_delete_order_id deleted)

unfoldable pub apply_trade : OrderBook → TradeMsg → OrderBook
apply_trade b trade =
    let order_id = decode_trade_order_id trade in
    elim (find order_id b.live_orders) [
      | none ↦ b
      | some o ↦
          let executed = min o.quantity (decode_trade_quantity trade) in
          let filled = subtract_level b o.side o.price executed in
          let left = o.quantity - executed in
          if left == 0
          then drop_order filled order_id
          else put_order filled order_id (record o { quantity = left })
    ]

-- The std::visit of `apply`.
unfoldable pub update : OrderBook → MessageView → OrderBook
update b (add_view m) = apply_add b m
update b (modify_view m) = apply_modify b m
update b (delete_view m) = apply_delete b m
update b (trade_view m) = apply_trade b m

-- OrderBook::apply: the book afterwards, and the snapshots before and after.
unfoldable pub apply : OrderBook → MessageView → OrderBook × ApplyResult
apply b message = let b' = update b message in (b', record { before = bbo b; after = bbo b' })

unfoldable pub live_order_count : OrderBook → ℕ
live_order_count b = size b.live_orders
