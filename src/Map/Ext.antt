-- ===== src/Map/Ext.antt =====
-- A sorted map is determined by its lookups.
use binary_market_data_feed.Prelude.{
  ℕ, suc, ◌≤◌, ◌<◌, ◌≡◌, refl, ◌∙◌, sym, some, some-injective, [], ◌∷◌, arith, ltb, ==-refl, inl,
  inr, subst, Bool-cases, ltb→lt, ltb→le,
}
use binary_market_data_feed.Map.{Map, find, find-empty}
use binary_market_data_feed.Map.Order.{From, find_below, From-le}

module _ {ℓ} {V : Type ℓ} where
  find-cons_self : (k : ℕ) (v : V) (m : Map V) → find k ((k, v) ∷ m) ≡ some v
  unfolding find
  find-cons_self k v m = rw (==-refl k)

  find-cons_above : (k j : ℕ) (v : V) (m : Map V) → k < j → find j ((k, v) ∷ m) ≡ find j m
  unfolding find
  find-cons_above k j v m h = ground arith

  -- The first keys of maps with the same lookups are equal.
  head_le :
      (lo j k : ℕ) (v w : V) (m n : Map V)
      → From lo ((j, v) ∷ m)
      → From lo ((k, w) ∷ n)
      → ((i : ℕ) → find i ((j, v) ∷ m) ≡ find i ((k, w) ∷ n))
      → k ≤ j
  head_le lo j k v w m n s t e =
      From-le k j v ((k, w) ∷ n) (omega arith, t.1) (sym (e j) ∙ find-cons_self j v m)

  tail_find :
      (k : ℕ) (v w : V) (m n : Map V)
      → From (suc k) m
      → From (suc k) n
      → ((i : ℕ) → find i ((k, v) ∷ m) ≡ find i ((k, w) ∷ n))
      → (i : ℕ) → find i m ≡ find i n
  tail_find k v w m n s t e i = elim (Bool-cases (ltb k i)) [
    | inl above ↦
        sym (find-cons_above k i v m (ltb→lt k i above))
        ∙ (e i ∙ find-cons_above k i w n (ltb→lt k i above))
    | inr below ↦
        let under : i < suc k = omega (arith, ltb→le k i below) in
        find_below (suc k) i m s under ∙ sym (find_below (suc k) i n t under)
  ]

  pub From-ext :
      (lo : ℕ) (m n : Map V) → From lo m → From lo n → ((i : ℕ) → find i m ≡ find i n) → m ≡ n
  From-ext lo [] [] s t e = refl
  From-ext lo [] ((k, w) ∷ n) s t e = cc (e k, find-cons_self k w n, find-empty {V = V} k)
  From-ext lo ((j, v) ∷ m) [] s t e = cc (e j, find-cons_self j v m, find-empty {V = V} j)
  From-ext lo ((j, v) ∷ m) ((k, w) ∷ n) s t e =
      let same : j ≡ k =
        omega (arith, head_le lo j k v w m n s t e, head_le lo k j w v n m t s (λ i. sym (e i))) in
      same_head same (From-ext (suc j) m n s.1)
    where
      same_head :
          j ≡ k
          → (From (suc j) n → ((i : ℕ) → find i m ≡ find i n) → m ≡ n)
          → ◌≡◌ {A = Map V} ((j, v) ∷ m) ((k, w) ∷ n)
      same_head same rest =
          let e' : (i : ℕ) → find i ((k, v) ∷ m) ≡ find i ((k, w) ∷ n) =
            subst (λ (x : ℕ). (i : ℕ) → find i ((x, v) ∷ m) ≡ find i ((k, w) ∷ n)) same e in
          let s' : From (suc k) m = rw same at s.1 in
          let value : v ≡ w =
            some-injective _ _ (sym (find-cons_self k v m) ∙ (e' k ∙ find-cons_self k w n)) in
          let tails : m ≡ n = rest (rw (← same) at t.1) (tail_find k v w m n s' t.1 e') in
          λ i. (same i, value i) ∷ tails i
