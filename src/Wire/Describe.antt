-- ===== src/Wire/Describe.antt =====
-- The text of a message: to_string and describe of src/common/protocol.cpp.
use binary_market_data_feed.Prelude.{
  ℕ, ◌+◌, ◌≡◌, ◌↔◌, refl, sym, ◌∙◌, append-nil, Option, none, some, [], ◌∷◌, ◌++◌, arith,
}
use binary_market_data_feed.Text.{Text, codes, written, is_digit, decimal}
use binary_market_data_feed.Text.Pieces.{append-cancel, field-injective, apart}
use binary_market_data_feed.Wire.Structs.{
  Side, buy, sell, MessageType, add_order, modify_order, delete_order, trade, MessageView, add_view,
  modify_view, delete_view, trade_view, decode_side, decode_add_order_id, decode_modify_order_id,
  decode_delete_order_id, decode_trade_order_id, decode_add_price, decode_modify_price,
  decode_trade_price, decode_add_quantity, decode_modify_quantity, decode_trade_quantity,
}

unfoldable pub type_to_string : MessageType → Text
type_to_string add_order = codes "ADD"
type_to_string modify_order = codes "MODIFY"
type_to_string delete_order = codes "DELETE"
type_to_string trade = codes "TRADE"

unfoldable pub side_to_string : Side → Text
side_to_string buy = codes "BUY"
side_to_string sell = codes "SELL"

-- The side in a description.
unfoldable pub side_text : Option Side → Text
unfolding side_to_string
side_text none = codes "INVALID"
side_text (some side) = side_to_string side

unfoldable pub describe_add : ℕ → Option Side → ℕ → ℕ → Text
unfolding written side_text
describe_add order_id side price quantity = written (
    codes "ADD"
    ∷ codes " order_id="
    ∷ decimal order_id
    ∷ codes " side="
    ∷ side_text side
    ∷ codes " price="
    ∷ decimal price
    ∷ codes " qty="
    ∷ decimal quantity
    ∷ [])

-- A ModifyOrder or a Trade, by its name.
unfoldable pub describe_change : Text → ℕ → ℕ → ℕ → Text
unfolding written
describe_change name order_id price quantity = written (
    name
    ∷ codes " order_id="
    ∷ decimal order_id
    ∷ codes " price="
    ∷ decimal price
    ∷ codes " qty="
    ∷ decimal quantity
    ∷ [])

unfoldable pub describe_delete : ℕ → Text
unfolding written
describe_delete order_id = written (codes "DELETE" ∷ codes " order_id=" ∷ decimal order_id ∷ [])

unfoldable pub describe_message : MessageView → Text
unfolding describe_add describe_change describe_delete
describe_message (add_view m) =
    describe_add (decode_add_order_id m) (decode_side m) (decode_add_price m)
      (decode_add_quantity m)
describe_message (modify_view m) =
    describe_change (codes "MODIFY") (decode_modify_order_id m) (decode_modify_price m)
      (decode_modify_quantity m)
describe_message (delete_view m) = describe_delete (decode_delete_order_id m)
describe_message (trade_view m) =
    describe_change (codes "TRADE") (decode_trade_order_id m) (decode_trade_price m)
      (decode_trade_quantity m)

unfoldable pub describe : ℕ → ℕ → MessageView → Text
unfolding written describe_message
describe seq_num message_index message = written (
    codes "pkt_seq="
    ∷ decimal seq_num
    ∷ codes " msg="
    ∷ decimal (message_index + 1)
    ∷ codes " "
    ∷ describe_message message
    ∷ [])

-- What two messages have in common that are of one type with the same decoded fields.
unfoldable pub IsAlike : MessageView → MessageView → Type 0
IsAlike (add_view m) (add_view n) =
    (decode_add_order_id m ≡ decode_add_order_id n)
    × (decode_side m ≡ decode_side n)
    × (decode_add_price m ≡ decode_add_price n)
    × (decode_add_quantity m ≡ decode_add_quantity n)
IsAlike (modify_view m) (modify_view n) =
    (decode_modify_order_id m ≡ decode_modify_order_id n)
    × (decode_modify_price m ≡ decode_modify_price n)
    × (decode_modify_quantity m ≡ decode_modify_quantity n)
IsAlike (delete_view m) (delete_view n) = decode_delete_order_id m ≡ decode_delete_order_id n
IsAlike (trade_view m) (trade_view n) =
    (decode_trade_order_id m ≡ decode_trade_order_id n)
    × (decode_trade_price m ≡ decode_trade_price n)
    × (decode_trade_quantity m ≡ decode_trade_quantity n)
IsAlike _ _ = ⊥

side_text-injective :
    (a b : Option Side) (r s : Text) → side_text a ++ r ≡ side_text b ++ s → (a ≡ b) × (r ≡ s)
unfolding side_text side_to_string
side_text-injective none none r s e = (refl, append-cancel (codes "INVALID") r s e)
side_text-injective (some buy) (some buy) r s e = (refl, append-cancel (codes "BUY") r s e)
side_text-injective (some sell) (some sell) r s e = (refl, append-cancel (codes "SELL") r s e)
side_text-injective none (some buy) r s e = absurd (apart _ _ _ _ refl e)
side_text-injective none (some sell) r s e = absurd (apart _ _ _ _ refl e)
side_text-injective (some buy) none r s e = absurd (apart _ _ _ _ refl e)
side_text-injective (some sell) none r s e = absurd (apart _ _ _ _ refl e)
side_text-injective (some buy) (some sell) r s e = absurd (apart _ _ _ _ refl e)
side_text-injective (some sell) (some buy) r s e = absurd (apart _ _ _ _ refl e)

describe_change-injective :
    (name : Text) (id id' price price' quantity quantity' : ℕ)
    → describe_change name id price quantity ≡ describe_change name id' price' quantity'
    → (id ≡ id') × (price ≡ price') × (quantity ≡ quantity')
unfolding describe_change written is_digit
describe_change-injective name id id' price price' quantity quantity' e =
    let (ids, e1) =
      field-injective (codes " order_id=") id id' _ _ refl refl (append-cancel name _ _ e) in
    let (prices, e2) = field-injective (codes " price=") price price' _ _ refl refl e1 in
    (ids, prices, (field-injective (codes " qty=") quantity quantity' [] [] tt tt e2).0)

describe_add-injective :
    (id id' : ℕ) (side side' : Option Side) (price price' quantity quantity' : ℕ)
    → describe_add id side price quantity ≡ describe_add id' side' price' quantity'
    → (id ≡ id') × (side ≡ side') × (price ≡ price') × (quantity ≡ quantity')
unfolding describe_add written is_digit
describe_add-injective id id' side side' price price' quantity quantity' e =
    let (ids, e1) =
      field-injective (codes " order_id=") id id' _ _ refl refl
        (append-cancel (codes "ADD") _ _ e) in
    let (sides, e2) = side_text-injective side side' _ _ (append-cancel (codes " side=") _ _ e1) in
    let (prices, e3) = field-injective (codes " price=") price price' _ _ refl refl e2 in
    (ids, sides, prices, (field-injective (codes " qty=") quantity quantity' [] [] tt tt e3).0)

describe_message-IsAlike :
    (m n : MessageView) → describe_message m ≡ describe_message n → IsAlike m n
unfolding describe_message describe_add describe_change describe_delete written IsAlike
describe_message-IsAlike (add_view m) (add_view n) e = describe_add-injective _ _ _ _ _ _ _ _ e
describe_message-IsAlike (add_view m) (modify_view n) e = absurd (apart _ _ _ _ refl e)
describe_message-IsAlike (add_view m) (delete_view n) e = absurd (apart _ _ _ _ refl e)
describe_message-IsAlike (add_view m) (trade_view n) e = absurd (apart _ _ _ _ refl e)
describe_message-IsAlike (modify_view m) (add_view n) e = absurd (apart _ _ _ _ refl e)
describe_message-IsAlike (modify_view m) (modify_view n) e =
    describe_change-injective (codes "MODIFY") _ _ _ _ _ _ e
describe_message-IsAlike (modify_view m) (delete_view n) e = absurd (apart _ _ _ _ refl e)
describe_message-IsAlike (modify_view m) (trade_view n) e = absurd (apart _ _ _ _ refl e)
describe_message-IsAlike (delete_view m) (add_view n) e = absurd (apart _ _ _ _ refl e)
describe_message-IsAlike (delete_view m) (modify_view n) e = absurd (apart _ _ _ _ refl e)
describe_message-IsAlike (delete_view m) (delete_view n) e =
    (field-injective (codes " order_id=") _ _ [] [] tt tt (append-cancel (codes "DELETE") _ _ e)).0
describe_message-IsAlike (delete_view m) (trade_view n) e = absurd (apart _ _ _ _ refl e)
describe_message-IsAlike (trade_view m) (add_view n) e = absurd (apart _ _ _ _ refl e)
describe_message-IsAlike (trade_view m) (modify_view n) e = absurd (apart _ _ _ _ refl e)
describe_message-IsAlike (trade_view m) (delete_view n) e = absurd (apart _ _ _ _ refl e)
describe_message-IsAlike (trade_view m) (trade_view n) e =
    describe_change-injective (codes "TRADE") _ _ _ _ _ _ e

IsAlike-describe_message :
    (m n : MessageView) → IsAlike m n → describe_message m ≡ describe_message n
unfolding describe_message IsAlike
IsAlike-describe_message (add_view m) (add_view n) h =
    λ i. describe_add (h.0 i) (h.1 i) (h.2 i) (h.3 i)
IsAlike-describe_message (add_view m) (modify_view n) h = absurd h
IsAlike-describe_message (add_view m) (delete_view n) h = absurd h
IsAlike-describe_message (add_view m) (trade_view n) h = absurd h
IsAlike-describe_message (modify_view m) (add_view n) h = absurd h
IsAlike-describe_message (modify_view m) (modify_view n) h =
    λ i. describe_change (codes "MODIFY") (h.0 i) (h.1 i) (h.2 i)
IsAlike-describe_message (modify_view m) (delete_view n) h = absurd h
IsAlike-describe_message (modify_view m) (trade_view n) h = absurd h
IsAlike-describe_message (delete_view m) (add_view n) h = absurd h
IsAlike-describe_message (delete_view m) (modify_view n) h = absurd h
IsAlike-describe_message (delete_view m) (delete_view n) h = λ i. describe_delete (h i)
IsAlike-describe_message (delete_view m) (trade_view n) h = absurd h
IsAlike-describe_message (trade_view m) (add_view n) h = absurd h
IsAlike-describe_message (trade_view m) (modify_view n) h = absurd h
IsAlike-describe_message (trade_view m) (delete_view n) h = absurd h
IsAlike-describe_message (trade_view m) (trade_view n) h =
    λ i. describe_change (codes "TRADE") (h.0 i) (h.1 i) (h.2 i)

-- The description leaves out nothing that the decoders give: two are the same text exactly when the
-- sequence numbers, the indices, the types of the messages and all their decoded fields are the same.
pub describe_iff :
    (seq_num seq_num' index index' : ℕ) (m n : MessageView)
    → (describe seq_num index m ≡ describe seq_num' index' n)
      ↔ ((seq_num ≡ seq_num') × (index ≡ index') × IsAlike m n)
unfolding describe written is_digit
describe_iff seq_num seq_num' index index' m n = (
  λ e.
      let (seqs, e1) = field-injective (codes "pkt_seq=") seq_num seq_num' _ _ refl refl e in
      let (indices, e2) =
        field-injective (codes " msg=") (index + 1) (index' + 1) _ _ refl refl e1 in
      let messages =
        sym (append-nil (describe_message m))
        ∙ (append-cancel (codes " ") _ _ e2 ∙ append-nil (describe_message n)) in
      (seqs, omega (arith, indices), describe_message-IsAlike m n messages),
  λ (seqs, indices, alike).
      let messages = IsAlike-describe_message m n alike in
      λ i.
        codes "pkt_seq="
        ++ (decimal (seqs i)
            ++ (codes " msg=" ++ (decimal (indices i + 1) ++ (codes " " ++ (messages i ++ []))))),
)
