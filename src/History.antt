-- ===== src/History.antt =====
-- PacketHistory of include/bmdfh/recovery.hpp and src/common/recovery.cpp. The mutex makes each call
-- atomic, so a call is one step on the map.
pub mod Lookup
mod Examples
use binary_market_data_feed.Prelude.{
  ℕ, zero, suc, ◌+◌, ◌-◌, ◌%◌, ◌^◌, Option, none, some, List, [], ◌∷◌, ◌++◌, ltb, leb, ◌==◌,
  if◌then◌else◌,
}
use binary_market_data_feed.Map.{Map, find, put}

pub record PacketHistory : Type 0 where
  pub packets : Map (List ℕ)

abbrev pub empty_history : PacketHistory
empty_history = record { packets = [] }

unfoldable pub store : PacketHistory → ℕ → List ℕ → PacketHistory
store h seq_num packet = record h { packets = put seq_num packet h.packets }

-- A loop that runs out of fuel has not returned.
pub data Loop {ℓ} (A : Type ℓ) : Type ℓ where
  returned : A → Loop A
  running : Loop A

-- `packets.push_back` for a packet that is there.
unfoldable pub push_found : Option (List ℕ) → List (List ℕ) → List (List ℕ)
push_found none packets = packets
push_found (some packet) packets = packets ++ packet ∷ []

-- The `for` loop: the body leaves by `break` at the largest 32-bit number, where `++seq_num` would
-- wrap to 0.
unfoldable pub lookup_loop :
    PacketHistory → (fuel seq_num end_seq : ℕ) → List (List ℕ) → Loop (List (List ℕ))
unfolding push_found
lookup_loop h zero seq_num end_seq packets = running
lookup_loop h (suc fuel) seq_num end_seq packets =
    let found = push_found (find seq_num h.packets) packets in
    let rest = lookup_loop h fuel ((seq_num + 1) % 2 ^ 32) end_seq found in
    if leb seq_num end_seq
    then if seq_num == 2 ^ 32 - 1 then returned found else rest
    else returned packets

-- The fuel is one more than the number of rounds.
unfoldable pub lookup_range : PacketHistory → ℕ → ℕ → Loop (List (List ℕ))
lookup_range h start_seq end_seq =
    if ltb end_seq start_seq
    then returned []
    else lookup_loop h (end_seq - start_seq + 2) start_seq end_seq []
