-- ===== src/Wire/Layout.antt =====
-- The packed structs as the bytes they occupy: copy_wire and as_wire of src/common/protocol.cpp.
use binary_market_data_feed.Prelude.{
  ℕ, ◌^◌, ◌<◌, ◌≡◌, refl, List, ◌∷◌, ◌++◌, arith, length, take, drop, get_or, take-append,
}
use binary_market_data_feed.Wire.Bytes.{le_bytes, le_value, le_value-le_bytes}
use binary_market_data_feed.Wire.Structs.{
  PacketHeader, AddOrderMsg, ModifyOrderMsg, DeleteOrderMsg, TradeMsg, Message, add_msg, modify_msg,
  delete_msg, trade_msg,
}

unfoldable pub header_bytes : PacketHeader → List ℕ
unfolding le_bytes
header_bytes h = le_bytes 4 h.seq_num ++ (le_bytes 2 h.msg_count ++ le_bytes 8 h.publish_tsc)

unfoldable pub add_bytes : AddOrderMsg → List ℕ
unfolding le_bytes
add_bytes m =
    m.msg_type
    ∷ (le_bytes 8 m.order_id
        ++ m.side ∷ (le_bytes 4 m.price ++ (le_bytes 4 m.quantity ++ m.reserved)))

unfoldable pub modify_bytes : ModifyOrderMsg → List ℕ
unfolding le_bytes
modify_bytes m =
    m.msg_type
    ∷ (le_bytes 8 m.order_id ++ (le_bytes 4 m.price ++ (le_bytes 4 m.quantity ++ m.reserved)))

unfoldable pub delete_bytes : DeleteOrderMsg → List ℕ
unfolding le_bytes
delete_bytes m = m.msg_type ∷ (le_bytes 8 m.order_id ++ m.reserved)

unfoldable pub trade_bytes : TradeMsg → List ℕ
unfolding le_bytes
trade_bytes m =
    m.msg_type
    ∷ (le_bytes 8 m.order_id ++ (le_bytes 4 m.price ++ (le_bytes 4 m.quantity ++ m.reserved)))

-- What `copy_wire` copies for the variant's current struct.
unfoldable pub message_bytes : Message → List ℕ
unfolding add_bytes modify_bytes delete_bytes trade_bytes
message_bytes (add_msg m) = add_bytes m
message_bytes (modify_msg m) = modify_bytes m
message_bytes (delete_msg m) = delete_bytes m
message_bytes (trade_msg m) = trade_bytes m

-- The integer of `k` bytes at an offset.
abbrev read_le : List ℕ → ℕ → ℕ → ℕ
read_le bytes offset k = le_value (take k (drop offset bytes))

-- as_wire<PacketHeader>, and of the message structs. The caller has checked the size.
unfoldable pub header_at : List ℕ → PacketHeader
unfolding le_value
header_at bytes = record {
  seq_num = read_le bytes 0 4;
  msg_count = read_le bytes 4 2;
  publish_tsc = read_le bytes 6 8;
}

unfoldable pub add_at : List ℕ → AddOrderMsg
unfolding le_value
add_at bytes = record {
  msg_type = get_or bytes 0 0;
  order_id = read_le bytes 1 8;
  side = get_or bytes 9 0;
  price = read_le bytes 10 4;
  quantity = read_le bytes 14 4;
  reserved = take 6 (drop 18 bytes);
}

unfoldable pub modify_at : List ℕ → ModifyOrderMsg
unfolding le_value
modify_at bytes = record {
  msg_type = get_or bytes 0 0;
  order_id = read_le bytes 1 8;
  price = read_le bytes 9 4;
  quantity = read_le bytes 13 4;
  reserved = take 7 (drop 17 bytes);
}

unfoldable pub delete_at : List ℕ → DeleteOrderMsg
unfolding le_value
delete_at bytes = record {
  msg_type = get_or bytes 0 0;
  order_id = read_le bytes 1 8;
  reserved = take 15 (drop 9 bytes);
}

unfoldable pub trade_at : List ℕ → TradeMsg
unfolding le_value
trade_at bytes = record {
  msg_type = get_or bytes 0 0;
  order_id = read_le bytes 1 8;
  price = read_le bytes 9 4;
  quantity = read_le bytes 13 4;
  reserved = take 7 (drop 17 bytes);
}

-- The ranges that the fields' C++ types give.
pub record IsHeader (h : PacketHeader) : Type 0 where
  pub seq_num : h.seq_num < 256 ^ 4
  pub msg_count : h.msg_count < 256 ^ 2
  pub publish_tsc : h.publish_tsc < 256 ^ 8

pub record IsAdd (m : AddOrderMsg) : Type 0 where
  pub order_id : m.order_id < 256 ^ 8
  pub price : m.price < 256 ^ 4
  pub quantity : m.quantity < 256 ^ 4
  pub reserved : length m.reserved ≡ 6

pub record IsModify (m : ModifyOrderMsg) : Type 0 where
  pub order_id : m.order_id < 256 ^ 8
  pub price : m.price < 256 ^ 4
  pub quantity : m.quantity < 256 ^ 4
  pub reserved : length m.reserved ≡ 7

pub record IsDelete (m : DeleteOrderMsg) : Type 0 where
  pub order_id : m.order_id < 256 ^ 8
  pub reserved : length m.reserved ≡ 15

pub record IsTrade (m : TradeMsg) : Type 0 where
  pub order_id : m.order_id < 256 ^ 8
  pub price : m.price < 256 ^ 4
  pub quantity : m.quantity < 256 ^ 4
  pub reserved : length m.reserved ≡ 7

abbrev pub IsMessage : Message → Type 0
IsMessage (add_msg m) = IsAdd m
IsMessage (modify_msg m) = IsModify m
IsMessage (delete_msg m) = IsDelete m
IsMessage (trade_msg m) = IsTrade m

pub length-header_bytes : (h : PacketHeader) → length (header_bytes h) ≡ 14
unfolding header_bytes
length-header_bytes h = refl

pub length-message_bytes : (m : Message) → IsMessage m → length (message_bytes m) ≡ 24
unfolding message_bytes
length-message_bytes (add_msg m) h = omega (arith, h.reserved)
length-message_bytes (modify_msg m) h = omega (arith, h.reserved)
length-message_bytes (delete_msg m) h = omega (arith, h.reserved)
length-message_bytes (trade_msg m) h = omega (arith, h.reserved)

-- A struct that is copied out and read back in place is the struct, whatever follows it.
pub header_at-header_bytes :
    (h : PacketHeader) (rest : List ℕ) → IsHeader h → header_at (header_bytes h ++ rest) ≡ h
unfolding header_bytes header_at
header_at-header_bytes h rest v =
    let seq = le_value-le_bytes 4 h.seq_num v.seq_num in
    let count = le_value-le_bytes 2 h.msg_count v.msg_count in
    let tsc = le_value-le_bytes 8 h.publish_tsc v.publish_tsc in
    λ i. record { seq_num = seq i; msg_count = count i; publish_tsc = tsc i }

pub add_at-add_bytes :
    (m : AddOrderMsg) (rest : List ℕ) → IsAdd m → add_at (add_bytes m ++ rest) ≡ m
unfolding add_bytes add_at
add_at-add_bytes m rest v =
    let id = le_value-le_bytes 8 m.order_id v.order_id in
    let price = le_value-le_bytes 4 m.price v.price in
    let quantity = le_value-le_bytes 4 m.quantity v.quantity in
    let reserved = take-append 6 m.reserved rest v.reserved in
    λ i. record {
      msg_type = m.msg_type;
      order_id = id i;
      side = m.side;
      price = price i;
      quantity = quantity i;
      reserved = reserved i;
    }

pub modify_at-modify_bytes :
    (m : ModifyOrderMsg) (rest : List ℕ) → IsModify m → modify_at (modify_bytes m ++ rest) ≡ m
unfolding modify_bytes modify_at
modify_at-modify_bytes m rest v =
    let id = le_value-le_bytes 8 m.order_id v.order_id in
    let price = le_value-le_bytes 4 m.price v.price in
    let quantity = le_value-le_bytes 4 m.quantity v.quantity in
    let reserved = take-append 7 m.reserved rest v.reserved in
    λ i. record {
      msg_type = m.msg_type;
      order_id = id i;
      price = price i;
      quantity = quantity i;
      reserved = reserved i;
    }

pub delete_at-delete_bytes :
    (m : DeleteOrderMsg) (rest : List ℕ) → IsDelete m → delete_at (delete_bytes m ++ rest) ≡ m
unfolding delete_bytes delete_at
delete_at-delete_bytes m rest v =
    let id = le_value-le_bytes 8 m.order_id v.order_id in
    let reserved = take-append 15 m.reserved rest v.reserved in
    λ i. record { msg_type = m.msg_type; order_id = id i; reserved = reserved i }

pub trade_at-trade_bytes :
    (m : TradeMsg) (rest : List ℕ) → IsTrade m → trade_at (trade_bytes m ++ rest) ≡ m
unfolding trade_bytes trade_at
trade_at-trade_bytes m rest v =
    let id = le_value-le_bytes 8 m.order_id v.order_id in
    let price = le_value-le_bytes 4 m.price v.price in
    let quantity = le_value-le_bytes 4 m.quantity v.quantity in
    let reserved = take-append 7 m.reserved rest v.reserved in
    λ i. record {
      msg_type = m.msg_type;
      order_id = id i;
      price = price i;
      quantity = quantity i;
      reserved = reserved i;
    }
