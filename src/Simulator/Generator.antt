-- ===== src/Simulator/Generator.antt =====
-- MarketDataGenerator of src/exchange_sim/main.cpp. The random engine and its distributions are the
-- standard library's: `draw n lo hi` is what the n-th call of a distribution from `lo` to `hi` gives.
use binary_market_data_feed.Prelude.{
  ℕ, zero, suc, ◌+◌, ◌-◌, ◌%◌, ◌^◌, List, [], ◌∷◌, ◌++◌, ltb, ◌==◌, if◌then◌else◌, length, take,
  get_or,
}
use binary_market_data_feed.Wire.Structs.{
  Side, buy, sell, Message, add_msg, modify_msg, delete_msg, make_add_order_msg,
  make_modify_order_msg, make_delete_order_msg,
}

pub record LiveOrder : Type 0 where
  pub order_id : ℕ
  pub side : Side
  pub quantity : ℕ
  pub price : ℕ

-- `draws` counts the calls of distributions.
pub record Generator : Type 0 where
  pub next_order_id : ℕ
  pub live_orders : List LiveOrder
  pub draws : ℕ

abbrev pub new_generator : Generator
new_generator = record { next_order_id = 1; live_orders = []; draws = 0 }

-- A LiveOrder without initialisers, read where an index would be out of range.
abbrev pub no_order : LiveOrder
no_order = record { order_id = 0; side = buy; quantity = 0; price = 0 }

-- The assignment `live_orders_[index] = order`.
unfoldable pub assign : ℕ → LiveOrder → List LiveOrder → List LiveOrder
assign i order [] = []
assign zero order (o ∷ orders) = order ∷ orders
assign (suc i) order (o ∷ orders) = o ∷ assign i order orders

-- `live_orders_[index] = live_orders_.back(); live_orders_.pop_back();`
unfoldable pub remove_at : ℕ → List LiveOrder → List LiveOrder
unfolding assign
remove_at i orders =
    let last : ℕ = length orders - 1 in take last (assign i (get_or orders last no_order) orders)

-- The bounds of bid_price_distribution_ and ask_price_distribution_.
abbrev pub lowest_price : Side → ℕ
lowest_price buy = 9950
lowest_price sell = 10001

abbrev pub highest_price : Side → ℕ
highest_price buy = 10000
highest_price sell = 10050

-- The new order of `add_order`, and its message.
unfoldable pub enter_order : Side → (price quantity : ℕ) → Generator → Message × Generator
enter_order side price quantity g =
    let order : LiveOrder = record {
      order_id = g.next_order_id;
      side = side;
      quantity = quantity;
      price = price;
    } in
    (
      add_msg (make_add_order_msg order.order_id order.side order.price order.quantity),
      record g {
        next_order_id = (g.next_order_id + 1) % 2 ^ 64;
        live_orders = g.live_orders ++ order ∷ [];
      },
    )

-- The order at the index gets a price and a quantity, and the message says so.
unfoldable pub change_order : ℕ → (price quantity : ℕ) → Generator → Message × Generator
unfolding assign
change_order index price quantity g =
    let order = get_or g.live_orders index no_order in
    (
      modify_msg (make_modify_order_msg order.order_id price quantity),
      record g {
        live_orders =
            assign index (record order { quantity = quantity; price = price }) g.live_orders;
      },
    )

-- The order at the index is removed, and the message says so.
unfoldable pub drop_order : ℕ → Generator → Message × Generator
unfolding remove_at
drop_order index g = (
  delete_msg (make_delete_order_msg (get_or g.live_orders index no_order).order_id),
  record g { live_orders = remove_at index g.live_orders },
)

module _ (draw : ℕ → ℕ → ℕ → ℕ) where
  unfoldable pub roll : ℕ → ℕ → Generator → ℕ × Generator
  roll lo hi g = (draw g.draws lo hi, record g { draws = g.draws + 1 })

  unfoldable pub roll_price : Side → Generator → ℕ × Generator
  unfolding roll
  roll_price side g = roll (lowest_price side) (highest_price side) g

  unfoldable pub add_order : Generator → Message × Generator
  unfolding roll roll_price enter_order
  add_order g =
      let (side_drawn, g1) = roll 0 1 g in
      let side : Side = if side_drawn == 0 then buy else sell in
      let (price, g2) = roll_price side g1 in
      let (quantity, g3) = roll 10 250 g2 in enter_order side price quantity g3

  unfoldable pub pick_order_index : Generator → ℕ × Generator
  unfolding roll
  pick_order_index g = roll 0 (length g.live_orders - 1) g

  unfoldable pub modify_order : Generator → Message × Generator
  unfolding add_order pick_order_index roll roll_price change_order
  modify_order g =
      if length g.live_orders == 0
      then add_order g
      else let (index, g1) = pick_order_index g in
        let (price, g2) = roll_price (get_or g1.live_orders index no_order).side g1 in
        let (quantity, g3) = roll 10 250 g2 in change_order index price quantity g3

  unfoldable pub delete_order : Generator → Message × Generator
  unfolding add_order pick_order_index drop_order
  delete_order g =
      if length g.live_orders == 0
      then add_order g
      else let (index, g1) = pick_order_index g in drop_order index g1

  unfoldable pub next : Generator → Message × Generator
  unfolding add_order modify_order delete_order roll
  next g =
      if ltb (length g.live_orders) 4
      then add_order g
      else let (action, g1) = roll 0 99 g in
        if ltb action 45
        then add_order g1
        else if ltb action 80
        then modify_order g1
        else delete_order g1
