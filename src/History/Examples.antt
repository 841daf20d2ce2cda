-- ===== src/History/Examples.antt =====
-- A history with a packet at the largest sequence number, and one that was not kept.
use binary_market_data_feed.Prelude.{◌+◌, ◌-◌, ◌≡◌, refl, [], ◌∷◌, arith}
use binary_market_data_feed.Map.{find, put}
use binary_market_data_feed.History.{
  PacketHistory, empty_history, store, returned, lookup_range, lookup_loop, push_found,
}
use binary_market_data_feed.History.Lookup.{stored, lookup_range_lem}

abbrev history : PacketHistory
history = store (store (store empty_history 7 (70 ∷ [])) 4294967295 (90 ∷ [])) 8 (80 ∷ [])

finds_two : lookup_range history 6 9 ≡ returned ((70 ∷ []) ∷ (80 ∷ []) ∷ [])
unfolding lookup_range lookup_loop push_found store find put
finds_two = refl

-- The loop leaves by `break`.
ends_at_the_largest : lookup_range history 4294967294 4294967295 ≡ returned ((90 ∷ []) ∷ [])
unfolding lookup_range lookup_loop push_found store find put
ends_at_the_largest = refl

lookup_range_lem_example :
    lookup_range history 4294967294 4294967295
    ≡ returned (stored history 4294967294 (4294967295 + 1 - 4294967294))
lookup_range_lem_example = lookup_range_lem history 4294967294 4294967295 (omega arith)
