-- ===== src/Wire/Structs.antt =====
-- The packed structs of include/bmdfh/protocol.hpp with the make_ and decode_ functions of
-- src/common/protocol.cpp. A field holds the integer that is stored, which is in network order; a
-- char holds its code. `decode_` functions that the source overloads have the struct in their name.
use binary_market_data_feed.Prelude.{
  ℕ, ◌+◌, ◌*◌, Option, none, some, List, ◌==◌, if◌then◌else◌, replicate,
}
use binary_market_data_feed.Wire.Bytes.{
  htonl, ntohl, htons, ntohs, host_to_network_u64, network_to_host_u64,
}

abbrev pub fixed_message_size : ℕ
fixed_message_size = 24

abbrev pub packet_header_size : ℕ
packet_header_size = 14

pub data Side : Type 0 where
  buy sell : Side

pub data MessageType : Type 0 where
  add_order modify_order delete_order trade : MessageType

-- static_cast<char>(side), and of a message type.
unfoldable pub char_of_side : Side → ℕ
char_of_side buy = b'B'
char_of_side sell = b'S'

unfoldable pub char_of_message_type : MessageType → ℕ
char_of_message_type add_order = b'A'
char_of_message_type modify_order = b'M'
char_of_message_type delete_order = b'D'
char_of_message_type trade = b'T'

unfoldable pub side_from_char : ℕ → Option Side
side_from_char c = if c == b'B' then some buy else if c == b'S' then some sell else none

unfoldable pub message_type_from_char : ℕ → Option MessageType
message_type_from_char c =
    if c == b'A'
    then some add_order
    else if c == b'M'
    then some modify_order
    else if c == b'D'
    then some delete_order
    else if c == b'T'
    then some trade
    else none

pub record PacketHeader : Type 0 where
  pub seq_num : ℕ
  pub msg_count : ℕ
  pub publish_tsc : ℕ

pub record AddOrderMsg : Type 0 where
  pub msg_type : ℕ
  pub order_id : ℕ
  pub side : ℕ
  pub price : ℕ
  pub quantity : ℕ
  pub reserved : List ℕ

pub record ModifyOrderMsg : Type 0 where
  pub msg_type : ℕ
  pub order_id : ℕ
  pub price : ℕ
  pub quantity : ℕ
  pub reserved : List ℕ

pub record DeleteOrderMsg : Type 0 where
  pub msg_type : ℕ
  pub order_id : ℕ
  pub reserved : List ℕ

pub record TradeMsg : Type 0 where
  pub msg_type : ℕ
  pub order_id : ℕ
  pub price : ℕ
  pub quantity : ℕ
  pub reserved : List ℕ

-- std::variant of the four structs, and of pointers to them. A pointer into a packet is modelled by
-- the struct that is read there, since the bytes do not change while the view is in use.
pub data Message : Type 0 where
  add_msg : AddOrderMsg → Message
  modify_msg : ModifyOrderMsg → Message
  delete_msg : DeleteOrderMsg → Message
  trade_msg : TradeMsg → Message

pub data MessageView : Type 0 where
  add_view : AddOrderMsg → MessageView
  modify_view : ModifyOrderMsg → MessageView
  delete_view : DeleteOrderMsg → MessageView
  trade_view : TradeMsg → MessageView

unfoldable pub view_of : Message → MessageView
view_of (add_msg m) = add_view m
view_of (modify_msg m) = modify_view m
view_of (delete_msg m) = delete_view m
view_of (trade_msg m) = trade_view m

unfoldable pub make_packet_header : ℕ → ℕ → ℕ → PacketHeader
make_packet_header seq_num msg_count publish_tsc = record {
  seq_num = htonl seq_num;
  msg_count = htons msg_count;
  publish_tsc = host_to_network_u64 publish_tsc;
}

unfoldable pub make_add_order_msg : ℕ → Side → ℕ → ℕ → AddOrderMsg
unfolding char_of_side char_of_message_type
make_add_order_msg order_id side price quantity = record {
  msg_type = char_of_message_type add_order;
  order_id = host_to_network_u64 order_id;
  side = char_of_side side;
  price = htonl price;
  quantity = htonl quantity;
  reserved = replicate 6 0;
}

unfoldable pub make_modify_order_msg : ℕ → ℕ → ℕ → ModifyOrderMsg
unfolding char_of_message_type
make_modify_order_msg order_id price quantity = record {
  msg_type = char_of_message_type modify_order;
  order_id = host_to_network_u64 order_id;
  price = htonl price;
  quantity = htonl quantity;
  reserved = replicate 7 0;
}

unfoldable pub make_delete_order_msg : ℕ → DeleteOrderMsg
unfolding char_of_message_type
make_delete_order_msg order_id = record {
  msg_type = char_of_message_type delete_order;
  order_id = host_to_network_u64 order_id;
  reserved = replicate 15 0;
}

unfoldable pub make_trade_msg : ℕ → ℕ → ℕ → TradeMsg
unfolding char_of_message_type
make_trade_msg order_id price quantity = record {
  msg_type = char_of_message_type trade;
  order_id = host_to_network_u64 order_id;
  price = htonl price;
  quantity = htonl quantity;
  reserved = replicate 7 0;
}

unfoldable pub decode_seq_num : PacketHeader → ℕ
decode_seq_num header = ntohl header.seq_num

unfoldable pub decode_msg_count : PacketHeader → ℕ
decode_msg_count header = ntohs header.msg_count

unfoldable pub decode_publish_tsc : PacketHeader → ℕ
decode_publish_tsc header = network_to_host_u64 header.publish_tsc

unfoldable pub decode_side : AddOrderMsg → Option Side
unfolding side_from_char
decode_side message = side_from_char message.side

unfoldable pub decode_add_order_id : AddOrderMsg → ℕ
decode_add_order_id message = network_to_host_u64 message.order_id

unfoldable pub decode_modify_order_id : ModifyOrderMsg → ℕ
decode_modify_order_id message = network_to_host_u64 message.order_id

unfoldable pub decode_delete_order_id : DeleteOrderMsg → ℕ
decode_delete_order_id message = network_to_host_u64 message.order_id

unfoldable pub decode_trade_order_id : TradeMsg → ℕ
decode_trade_order_id message = network_to_host_u64 message.order_id

unfoldable pub decode_add_price : AddOrderMsg → ℕ
decode_add_price message = ntohl message.price

unfoldable pub decode_modify_price : ModifyOrderMsg → ℕ
decode_modify_price message = ntohl message.price

unfoldable pub decode_trade_price : TradeMsg → ℕ
decode_trade_price message = ntohl message.price

unfoldable pub decode_add_quantity : AddOrderMsg → ℕ
decode_add_quantity message = ntohl message.quantity

unfoldable pub decode_modify_quantity : ModifyOrderMsg → ℕ
decode_modify_quantity message = ntohl message.quantity

unfoldable pub decode_trade_quantity : TradeMsg → ℕ
decode_trade_quantity message = ntohl message.quantity

unfoldable pub packet_size_bytes : ℕ → ℕ
packet_size_bytes msg_count = packet_header_size + msg_count * fixed_message_size
