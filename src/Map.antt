-- ===== src/Map.antt =====
-- std::map and std::unordered_map with unsigned keys, as the program uses them: a list of entries
-- by ascending key. The program never iterates over an unordered_map, so the order of its entries is
-- not observed. `find`, `put` (operator[] followed by an assignment), `erase`, `begin` and `rbegin`.
pub mod Order
pub mod Sums
pub mod Ext
use binary_market_data_feed.Prelude.{
  ℕ, zero, suc, ◌+◌, ◌≤◌, ◌<◌, ◌≡◌, refl, Bool, true, false, Option, none, some, List, [], ◌∷◌,
  arith, ltb, ◌==◌, if◌then◌else◌,
}

abbrev pub Map {ℓ} : Type ℓ → Type ℓ
Map V = List (ℕ × V)

module _ {ℓ} {V : Type ℓ} where
  unfoldable pub find : ℕ → Map V → Option V
  find k [] = none
  find k ((j, v) ∷ m) = if j == k then some v else find k m

  unfoldable pub put : ℕ → V → Map V → Map V
  put k v [] = (k, v) ∷ []
  put k v ((j, w) ∷ m) =
      if ltb k j then (k, v) ∷ (j, w) ∷ m else if k == j then (k, v) ∷ m else (j, w) ∷ put k v m

  unfoldable pub erase : ℕ → Map V → Map V
  erase k [] = []
  erase k ((j, w) ∷ m) = let rest = erase k m in if j == k then rest else (j, w) ∷ rest

  unfoldable pub size : Map V → ℕ
  size [] = 0
  size (e ∷ m) = suc (size m)

  -- The entry at `begin()`, and at `rbegin()`.
  unfoldable pub first? : Map V → Option (ℕ × V)
  first? [] = none
  first? (e ∷ m) = some e

  unfoldable pub last? : Map V → Option (ℕ × V)
  last? [] = none
  last? (e ∷ []) = some e
  last? (e ∷ e' ∷ m) = last? (e' ∷ m)

  pub find-empty : (k : ℕ) → find k [] ≡ none
  unfolding find
  find-empty k = refl

  pub find-put :
      (j k : ℕ) (v : V) (m : Map V) → find j (put k v m) ≡ (if k == j then some v else find j m)
  unfolding find put
  find-put j k v [] = refl
  find-put j k v ((i, w) ∷ m) = ground (arith, find-put j k v m)

  pub find-erase : (j k : ℕ) (m : Map V) → find j (erase k m) ≡ (if k == j then none else find j m)
  unfolding find erase
  find-erase j k [] = ground arith
  find-erase j k ((i, w) ∷ m) = ground (arith, find-erase j k m)

  pub find-put_self : (k : ℕ) (v : V) (m : Map V) → find k (put k v m) ≡ some v
  find-put_self k v m = ground (arith, find-put k k v m)

  pub find-erase_self : (k : ℕ) (m : Map V) → find k (erase k m) ≡ none
  find-erase_self k m = ground (arith, find-erase k k m)

  pub size-erase-le : (k : ℕ) (m : Map V) → size (erase k m) ≤ size m
  unfolding size erase
  size-erase-le k [] = omega arith
  size-erase-le k ((j, v) ∷ m) = ground (arith, size-erase-le k m)

  pub size-erase-lt : (k : ℕ) (m : Map V) (v : V) → find k m ≡ some v → size (erase k m) < size m
  unfolding size erase find
  size-erase-lt k [] v e = cc
  size-erase-lt k ((j, w) ∷ m) v e = ground (arith, size-erase-le k m, size-erase-lt k m v)

  pub size-put-le : (k : ℕ) (v : V) (m : Map V) → size (put k v m) ≤ suc (size m)
  unfolding size put
  size-put-le k v [] = omega arith
  size-put-le k v ((j, w) ∷ m) = ground (arith, size-put-le k v m)

pub ruleset map_laws = (find-empty, find-put, find-erase)
