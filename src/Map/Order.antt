-- ===== src/Map/Order.antt =====
-- Keys ascend: `begin` is the least entry and `rbegin` the greatest.
use binary_market_data_feed.Prelude.{
  ℕ, suc, ◌≤◌, ◌<◌, ◌≡◌, refl, none, some, [], ◌∷◌, arith, ◌==◌, if◌then◌else◌,
}
use binary_market_data_feed.Map.{Map, find, put, erase, first?, last?}

-- The keys ascend strictly, from `lo` on.
abbrev pub From {ℓ} : {V : Type ℓ} → ℕ → Map V → Type 0
From lo [] = Unit {0}
From lo ((k, v) ∷ m) = (lo ≤ k) × From (suc k) m

abbrev pub IsSorted {ℓ} : {V : Type ℓ} → Map V → Type 0
IsSorted m = From 0 m

module _ {ℓ} {V : Type ℓ} where
  pub From-mono : (lo hi : ℕ) (m : Map V) → lo ≤ hi → From hi m → From lo m
  From-mono lo hi [] h s = tt
  From-mono lo hi ((k, v) ∷ m) h s = (omega arith, s.1)

  pub put-From : (lo k : ℕ) (v : V) (m : Map V) → lo ≤ k → From lo m → From lo (put k v m)
  unfolding put
  put-From lo k v [] h s = (h, tt)
  put-From lo k v ((j, w) ∷ m) h s = ground (arith, put-From (suc j) k v m)

  pub erase-From : (lo k : ℕ) (m : Map V) → From lo m → From lo (erase k m)
  unfolding erase
  erase-From lo k [] s = tt
  erase-From lo k ((j, w) ∷ m) s =
      ground (arith, erase-From (suc j) k m s.1, From-mono lo (suc j) (erase k m))

  pub put-IsSorted : (k : ℕ) (v : V) (m : Map V) → IsSorted m → IsSorted (put k v m)
  put-IsSorted k v m s = put-From 0 k v m (omega arith) s

  pub erase-IsSorted : (k : ℕ) (m : Map V) → IsSorted m → IsSorted (erase k m)
  erase-IsSorted k m s = erase-From 0 k m s

  pub find_below : (lo k : ℕ) (m : Map V) → From lo m → k < lo → find k m ≡ none
  unfolding find
  find_below lo k [] s h = refl
  find_below lo k ((j, w) ∷ m) s h = ground (arith, find_below (suc j) k m s.1)

  pub From-le : (lo k : ℕ) (v : V) (m : Map V) → From lo m → find k m ≡ some v → lo ≤ k
  From-le lo k v m s e = ground (arith, find_below lo k m s)

  pub first?-find : (k : ℕ) (v : V) (m : Map V) → first? m ≡ some (k, v) → find k m ≡ some v
  unfolding find first?
  first?-find k v [] e = cc
  first?-find k v ((j, w) ∷ m) e = ground arith

  -- No key lies below that of `begin`.
  pub first?-least :
      (k j : ℕ) (v w : V) (m : Map V)
      → IsSorted m
      → first? m ≡ some (k, v)
      → find j m ≡ some w
      → k ≤ j
  unfolding find first?
  first?-least k j v w [] s e f = cc
  first?-least k j v w ((i, u) ∷ m) s e f = ground (arith, find_below (suc i) j m s.1)

  pub last?-find :
      (lo k : ℕ) (v : V) (m : Map V) → From lo m → last? m ≡ some (k, v) → find k m ≡ some v
  unfolding find last?
  last?-find lo k v [] s e = cc
  last?-find lo k v ((j, w) ∷ []) s e = ground arith
  last?-find lo k v ((j, w) ∷ (i, u) ∷ m) s e =
      let rest = last?-find (suc j) k v ((i, u) ∷ m) s.1 e in
      ground (arith, rest, From-le (suc j) k v ((i, u) ∷ m) s.1)

  find-cons :
      (i j : ℕ) (u : V) (m : Map V) → find j ((i, u) ∷ m) ≡ (if i == j then some u else find j m)
  unfolding find
  find-cons i j u m = refl

  -- No key lies above that of `rbegin`.
  pub last?-greatest :
      (lo k j : ℕ) (v w : V) (m : Map V)
      → From lo m
      → last? m ≡ some (k, v)
      → find j m ≡ some w
      → j ≤ k
  unfolding last?
  last?-greatest lo k j v w [] s e f = unfold find in cc
  last?-greatest lo k j v w ((i, u) ∷ []) s e f = unfold find in ground arith
  last?-greatest lo k j v w ((i, u) ∷ (h, t) ∷ m) s e f = ground (
    arith,
    find-cons i j u ((h, t) ∷ m),
    last?-greatest (suc i) k j v w ((h, t) ∷ m) s.1 e,
    From-le (suc i) k v ((h, t) ∷ m) s.1 (last?-find (suc i) k v ((h, t) ∷ m) s.1 e),
  )

  pub first?-none : (m : Map V) → first? m ≡ none → m ≡ []
  unfolding first?
  first?-none [] e = refl
  first?-none (x ∷ m) e = cc

  pub last?-none : (m : Map V) → last? m ≡ none → m ≡ []
  unfolding last?
  last?-none [] e = refl
  last?-none (x ∷ []) e = cc
  last?-none (x ∷ y ∷ m) e = cc (last?-none (y ∷ m) e)
