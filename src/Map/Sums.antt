-- ===== src/Map/Sums.antt =====
-- The sum of a number over all entries, and how it moves with `put` and `erase`.
use binary_market_data_feed.Prelude.{
  ℕ, suc, ◌+◌, ◌≤◌, ◌<◌, ◌≡◌, refl, Option, none, some, [], ◌∷◌, arith,
}
use binary_market_data_feed.Map.{Map, find, put, erase, size}
use binary_market_data_feed.Map.Order.{From}

module _ {ℓ} {V : Type ℓ} (f : V → ℕ) where
  unfoldable pub sum_by : Map V → ℕ
  sum_by [] = 0
  sum_by ((k, v) ∷ m) = f v + sum_by m

  -- What the entry found contributes.
  abbrev pub part : Option V → ℕ
  part none = 0
  part (some v) = f v

  pub sum_by-empty : sum_by [] ≡ 0
  unfolding sum_by
  sum_by-empty = refl

  erase_missing : (lo k : ℕ) (m : Map V) → From lo m → k < lo → erase k m ≡ m
  unfolding erase
  erase_missing lo k [] s h = refl
  erase_missing lo k ((j, v) ∷ m) s h = ground (arith, erase_missing (suc j) k m s.1)

  pub sum_by-erase :
      (lo k : ℕ) (m : Map V) → From lo m → sum_by m ≡ sum_by (erase k m) + part (find k m)
  unfolding sum_by find erase
  sum_by-erase lo k [] s = omega arith
  sum_by-erase lo k ((j, v) ∷ m) s =
      ground (arith, sum_by-erase (suc j) k m s.1, erase_missing (suc j) k m s.1)

  pub sum_by-put :
      (lo k : ℕ) (v : V) (m : Map V) → From lo m → sum_by (put k v m) ≡ sum_by (erase k m) + f v
  unfolding sum_by put erase
  sum_by-put lo k v [] s = omega arith
  sum_by-put lo k v ((j, w) ∷ m) s =
      ground (arith, sum_by-put (suc j) k v m s.1, erase_missing (suc j) k m s.1)

  pub part-le-sum_by : (k : ℕ) (m : Map V) → part (find k m) ≤ sum_by m
  unfolding sum_by find
  part-le-sum_by k [] = omega arith
  part-le-sum_by k ((j, v) ∷ m) = ground (arith, part-le-sum_by k m)

module _ {ℓ} {V : Type ℓ} where
  pub size-erase-le : (k : ℕ) (m : Map V) → size (erase k m) ≤ size m
  unfolding size erase
  size-erase-le k [] = omega arith
  size-erase-le k ((j, v) ∷ m) = ground (arith, size-erase-le k m)

  pub size-erase-lt : (k : ℕ) (v : V) (m : Map V) → find k m ≡ some v → size (erase k m) < size m
  unfolding size erase find
  size-erase-lt k v [] e = cc
  size-erase-lt k v ((j, w) ∷ m) e = ground (arith, size-erase-lt k v m, size-erase-le k m)
