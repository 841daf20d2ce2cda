-- ===== src/Book/Spec.antt =====
-- What the book promises of the live orders, with no levels in it: a function from order ids. The
-- detailed book refines it, and its whole state is determined by it.
use binary_market_data_feed.Prelude.{
  ℕ, ◌-◌, ◌≡◌, sym, ap, ◌∙◌, inl, inr, Option, none, some, arith, leb, leb→le, leb→lt, ◌==◌,
  if◌then◌else◌, Option-cases, Bool-cases, ==→eq, ==→ne, fun_ext,
}
use binary_market_data_feed.Map.{Map, find, find-put, find-erase}
use binary_market_data_feed.Map.Ext.{From-ext}
use binary_market_data_feed.Wire.Structs.{
  Side, buy, sell, AddOrderMsg, ModifyOrderMsg, TradeMsg, MessageView, add_view, modify_view,
  delete_view, trade_view, decode_side, decode_add_order_id, decode_modify_order_id,
  decode_delete_order_id, decode_trade_order_id, decode_modify_quantity, decode_trade_quantity,
}
use binary_market_data_feed.Book.{
  OrderState, OrderBook, erase_order, apply_add, apply_modify, apply_delete, apply_trade, update,
}
use binary_market_data_feed.Book.Totals.{total, on_side, level_of}
use binary_market_data_feed.Book.Invariant.{
  IsBook, live_orders-subtract_level, live_orders-add_level,
}
use binary_market_data_feed.Book.Handlers.{
  added, modified, apply_add_unknown, apply_modify_unknown, apply_trade_unknown, left_over,
  apply_add-some, apply_modify_zero, apply_modify_some, apply_trade_all, apply_trade_part,
}

abbrev pub Orders : Type 0
Orders = ℕ → Option OrderState

-- The orders with the state of one id changed, or removed.
abbrev pub change : Orders → ℕ → Option OrderState → Orders
change f id state j = if id == j then state else f j

abbrev pub orders_of : OrderBook → Orders
orders_of b id = find id b.live_orders

-- An AddOrder replaces whatever had its id; a ModifyOrder changes price and quantity of a live order
-- and removes it at quantity 0; a DeleteOrder removes; a Trade takes its quantity off a live order,
-- and removes the order when nothing is left.
unfoldable pub after_modify : ModifyOrderMsg → OrderState → Option OrderState
after_modify m o = if decode_modify_quantity m == 0 then none else some (modified m o)

pub after_trade : TradeMsg → OrderState → Option OrderState
after_trade m o =
    if leb o.quantity (decode_trade_quantity m)
    then none
    else some (record o { quantity = o.quantity - decode_trade_quantity m })

unfoldable pub revise : (OrderState → Option OrderState) → ℕ → Orders → Orders
revise g id f = elim (f id) [ none ↦ f | some o ↦ change f id (g o) ]

unfoldable pub spec : Orders → MessageView → Orders
unfolding after_modify after_trade revise
spec f (add_view m) = elim (decode_side m) [
  | none ↦ f
  | some side ↦ change f (decode_add_order_id m) (some (added m side))
]
spec f (modify_view m) = revise (after_modify m) (decode_modify_order_id m) f
spec f (delete_view m) = change f (decode_delete_order_id m) none
spec f (trade_view m) = revise (after_trade m) (decode_trade_order_id m) f

-- The specification looks at its orders only by their lookups.
pub spec_ext :
    (f g : Orders) (message : MessageView)
    → ((id : ℕ) → f id ≡ g id)
    → (id : ℕ) → spec f message id ≡ spec g message id
spec_ext f g message same id = ap (λ (h : Orders). spec h message id) (fun_ext same)

orders-erase_order :
    (b : OrderBook) (id j : ℕ) → orders_of (erase_order b id) j ≡ change (orders_of b) id none j
unfolding erase_order
orders-erase_order b id j = elim (Option-cases (find id b.live_orders)) [
  | inl e ↦ rw (e, erase_order) (ground arith)
  | inr (o, e) ↦
      rw (e, erase_order) (rw (live_orders-subtract_level) (find-erase j id b.live_orders))
]

add_refines :
    (b : OrderBook) (m : AddOrderMsg) (j : ℕ)
    → orders_of (apply_add b m) j ≡ spec (orders_of b) (add_view m) j
unfolding spec
add_refines b m j = elim (Option-cases (decode_side m)) [
  | inl e ↦ rw (apply_add_unknown b m e) (ground (arith, e))
  | inr (side, e) ↦
      let id = decode_add_order_id m in
      let state = added m side in
      rw (apply_add-some b m side e, live_orders-add_level, e, spec)
        (ground
          (arith, find-put j id state (erase_order b id).live_orders, orders-erase_order b id j))
]

modify_refines :
    (b : OrderBook) (m : ModifyOrderMsg) (j : ℕ)
    → orders_of (apply_modify b m) j ≡ spec (orders_of b) (modify_view m) j
unfolding spec
modify_refines b m j = elim (Option-cases (find (decode_modify_order_id m) b.live_orders)) [
  | inl e ↦ rw (apply_modify_unknown b m e) (ground (arith, e))
  | inr (o, e) ↦
      let id = decode_modify_order_id m in
      elim (Bool-cases (decode_modify_quantity m == 0)) [
        | inl z ↦
            rw (apply_modify_zero b m o e (==→eq _ _ z), live_orders-subtract_level)
              (ground (arith, e, find-erase j id b.live_orders))
        | inr nz ↦
            rw
              (
                apply_modify_some b m o e (omega (arith, ==→ne _ _ nz)),
                live_orders-add_level,
                live_orders-subtract_level,
              )
              (ground (arith, e, find-put j id (modified m o) b.live_orders))
      ]
]

trade_refines :
    (b : OrderBook) (m : TradeMsg) (j : ℕ)
    → orders_of (apply_trade b m) j ≡ spec (orders_of b) (trade_view m) j
unfolding spec
trade_refines b m j = elim (Option-cases (find (decode_trade_order_id m) b.live_orders)) [
  | inl e ↦ rw (apply_trade_unknown b m e) (ground (arith, e))
  | inr (o, e) ↦
      let id = decode_trade_order_id m in
      elim (Bool-cases (leb o.quantity (decode_trade_quantity m))) [
        | inl all ↦
            rw (apply_trade_all b m o e (leb→le _ _ all), live_orders-subtract_level)
              (ground (arith, e, find-erase j id b.live_orders))
        | inr part ↦
            rw (apply_trade_part b m o e (leb→lt _ _ part), live_orders-subtract_level)
              (ground (arith, e, find-put j id (left_over m o) b.live_orders))
      ]
]

-- Refinement: after each message the live orders are those that the specification gives, whatever the
-- book was before.
pub update-spec :
    (b : OrderBook) (message : MessageView) (id : ℕ)
    → orders_of (update b message) id ≡ spec (orders_of b) message id
unfolding update
update-spec b (add_view m) id = add_refines b m id
update-spec b (modify_view m) id = modify_refines b m id
update-spec b (delete_view m) id =
    unfold spec apply_delete in orders-erase_order b (decode_delete_order_id m) id
update-spec b (trade_view m) id = trade_refines b m id

-- Two books that keep the invariant and have the same live orders are the same, levels and all: the
-- order in which messages came leaves no trace.
pub IsBook-unique :
    (b c : OrderBook) → IsBook b → IsBook c → ((id : ℕ) → orders_of b id ≡ orders_of c id) → b ≡ c
IsBook-unique b c h k same =
    let orders = From-ext 0 b.live_orders c.live_orders h.sorted.orders k.sorted.orders same in
    let bids = From-ext 0 b.bids c.bids h.sorted.bids k.sorted.bids (levels_agree buy orders) in
    let asks = From-ext 0 b.asks c.asks h.sorted.asks k.sorted.asks (levels_agree sell orders) in
    λ i. record { live_orders = orders i; bids = bids i; asks = asks i }
  where
    levels_agree :
        (s : Side)
        → b.live_orders ≡ c.live_orders
        → (p : ℕ) → find p (on_side s b.bids b.asks) ≡ find p (on_side s c.bids c.asks)
    levels_agree s e p =
        h.levels s p ∙ (ap (λ (m : Map OrderState). level_of (total s p m)) e ∙ sym (k.levels s p))
