-- ===== src/Text/Numbers.antt =====
-- A number that is written out is read back.
use binary_market_data_feed.Prelude.{
  ℕ, zero, suc, ◌+◌, ◌-◌, ◌*◌, ◌/◌, ◌%◌, ◌^◌, ◌≤◌, ◌<◌, ◌≡◌, ◌↔◌, refl, sym, ap, length,
  length-append, ◌∙◌, true, false, [], ◌∷◌, ◌++◌, append-nil, arith, ltb, Bool-cases, inl, inr,
  ltb→lt, ltb→le, All, All-append, lt→ltb,
}
use binary_market_data_feed.Text.{
  Text, same, is_digit, scan_digits, parsed, invalid_argument, out_of_range, in_range, from_chars,
  decimal_loop, decimal,
}

pub same_refl : (s : Text) → same s s ≡ true
unfolding same
same_refl [] = refl
same_refl (c ∷ s) = ground (arith, same_refl s)

pub same-eq : (s t : Text) → same s t ≡ true → s ≡ t
unfolding same
same-eq [] [] h = refl
same-eq [] (d ∷ t) h = cc
same-eq (c ∷ s) [] h = cc
same-eq (c ∷ s) (d ∷ t) h = ground (arith, same-eq s t)

abbrev pub IsDigit : ℕ → Type 0
IsDigit c = (48 ≤ c) × (c ≤ 57)

unfoldable pub value_of : ℕ → Text → ℕ
value_of v [] = v
value_of v (c ∷ text) = value_of (v * 10 + (c - 48)) text

value_of-append : (v : ℕ) (s t : Text) → value_of v (s ++ t) ≡ value_of (value_of v s) t
unfolding value_of
value_of-append v [] t = refl
value_of-append v (c ∷ s) t = value_of-append (v * 10 + (c - 48)) s t

IsDigit-is_digit : (c : ℕ) → is_digit c ≡ true → IsDigit c
unfolding is_digit
IsDigit-is_digit c h = ground arith

is_digit-IsDigit : (c : ℕ) → IsDigit c → is_digit c ≡ true
unfolding is_digit
is_digit-IsDigit c h = ground arith

-- A text that does not begin with a digit.
abbrev pub IsPast : Text → Type 0
IsPast [] = Unit {0}
IsPast (c ∷ text) = is_digit c ≡ false

scan_digits_past : (v : ℕ) (rest : Text) → IsPast rest → scan_digits v rest ≡ (v, rest)
unfolding scan_digits
scan_digits_past v [] p = refl
scan_digits_past v (c ∷ rest) p = rw p

scan_digits_lem :
    (v : ℕ) (s rest : Text)
    → All IsDigit s
    → IsPast rest
    → scan_digits v (s ++ rest) ≡ (value_of v s, rest)
unfolding scan_digits value_of
scan_digits_lem v [] rest h p = scan_digits_past v rest p
scan_digits_lem v (c ∷ s) rest h p =
    rw (is_digit-IsDigit c h.0) (scan_digits_lem (v * 10 + (c - 48)) s rest h.1 p)

decimal_loop-IsDigit : (fuel n : ℕ) → All IsDigit (decimal_loop fuel n)
unfolding decimal_loop
decimal_loop-IsDigit zero n = tt
decimal_loop-IsDigit (suc fuel) n = elim (Bool-cases (ltb n 10)) [
  | inl small ↦ let below = ltb→lt n 10 small in rw small ((omega arith, omega arith), tt)
  | inr large ↦ rw large (
      All-append IsDigit (decimal_loop fuel (n / 10)) _ (decimal_loop-IsDigit fuel (n / 10))
        ((omega arith, omega arith), tt))
]

value_of-decimal_loop : (fuel n : ℕ) → n < fuel → value_of 0 (decimal_loop fuel n) ≡ n
unfolding decimal_loop value_of
value_of-decimal_loop zero n h = absurd (omega arith)
value_of-decimal_loop (suc fuel) n h = elim (Bool-cases (ltb n 10)) [
  | inl small ↦ rw small (omega arith)
  | inr large ↦
      let front = decimal_loop fuel (n / 10) in
      let ten = ltb→le n 10 large in
      let ih = value_of-decimal_loop fuel (n / 10) (omega arith) in
      rw (large, value_of-append 0 front ((48 + n % 10) ∷ []), ih) (omega arith)
]

pub decimal-IsDigit : (n : ℕ) → All IsDigit (decimal n)
unfolding decimal
decimal-IsDigit n = decimal_loop-IsDigit (suc n) n

-- The digits that are written are read back, up to the first character that is none.
pub scan_digits-decimal :
    (n : ℕ) (rest : Text) → IsPast rest → scan_digits 0 (decimal n ++ rest) ≡ (n, rest)
unfolding decimal
scan_digits-decimal n rest p =
    scan_digits_lem 0 (decimal_loop (suc n) n) rest (decimal_loop-IsDigit (suc n) n) p
    ∙ ap (λ (v : ℕ). (v, rest)) (value_of-decimal_loop (suc n) n (omega arith))

-- The text after a number tells where the number ends.
pub decimal-append-injective :
    (n m : ℕ) (r s : Text)
    → IsPast r
    → IsPast s
    → decimal n ++ r ≡ decimal m ++ s
    → (n ≡ m) × (r ≡ s)
decimal-append-injective n m r s p q e =
    let both : (n, r) ≡ (m, s) =
      sym (scan_digits-decimal n r p) ∙ (ap (scan_digits 0) e ∙ scan_digits-decimal m s q) in
    (λ i. (both i).0, λ i. (both i).1)

length-decimal_loop_pos : (fuel n : ℕ) → 0 < length (decimal_loop (suc fuel) n)
unfolding decimal_loop
length-decimal_loop_pos fuel n = elim (Bool-cases (ltb n 10)) [
  | inl small ↦ rw small (omega arith)
  | inr large ↦
      rw large (omega (arith, length-append (decimal_loop fuel (n / 10)) ((48 + n % 10) ∷ [])))
]

from_chars_first :
    (width c : ℕ) (s : Text)
    → is_digit c ≡ true
    → from_chars width (c ∷ s) ≡ in_range width (scan_digits 0 (c ∷ s))
unfolding from_chars
from_chars_first width c s digit = rw digit

from_chars_digits :
    (width : ℕ) (s : Text)
    → All IsDigit s
    → 0 < length s
    → from_chars width s ≡ in_range width (scan_digits 0 s)
from_chars_digits width [] h pos = absurd (omega arith)
from_chars_digits width (c ∷ s) h pos = from_chars_first width c s (is_digit-IsDigit c h.0)

in_range_fits : (width n : ℕ) → n < 2 ^ width → in_range width (n, []) ≡ parsed n []
unfolding in_range
in_range_fits width n fits = rw (lt→ltb n (2 ^ width) fits)

length-decimal_pos : (n : ℕ) → 0 < length (decimal n)
unfolding decimal
length-decimal_pos n = length-decimal_loop_pos n n

-- std::from_chars takes the digits of a number that fits, all of them.
pub from_chars-decimal : (width n : ℕ) → n < 2 ^ width → from_chars width (decimal n) ≡ parsed n []
from_chars-decimal width n fits =
    let scanned : scan_digits 0 (decimal n) ≡ (n, []) =
      ap (scan_digits 0) (sym (append-nil (decimal n))) ∙ scan_digits-decimal n [] tt in
    from_chars_digits width (decimal n) (decimal-IsDigit n) (length-decimal_pos n)
    ∙ (ap (in_range width) scanned ∙ in_range_fits width n fits)

scan_digits-inversion :
    (v : ℕ) (s : Text) (n : ℕ) → scan_digits v s ≡ (n, []) → All IsDigit s × (value_of v s ≡ n)
unfolding scan_digits value_of
scan_digits-inversion v [] n e = (tt, λ i. (e i).0)
scan_digits-inversion v (c ∷ s) n e = elim (Bool-cases (is_digit c)) [
  | inl digit ↦
      let rest = scan_digits-inversion (v * 10 + (c - 48)) s n (rw digit at e) in
      ((IsDigit-is_digit c digit, rest.0), rest.1)
  | inr other ↦
      let stuck : (v, c ∷ s) ≡ (n, []) = rw other at e in cc (ap (λ (p : ℕ × Text). p.1) stuck)
]

in_range-parsed :
    (width : ℕ) (p : ℕ × Text) (n : ℕ) (rest : Text)
    → in_range width p ≡ parsed n rest
    → (p ≡ (n, rest)) × (n < 2 ^ width)
unfolding in_range
in_range-parsed width (v, text) n rest e = elim (Bool-cases (ltb v (2 ^ width))) [
  | inl fits ↦
      let both : parsed v text ≡ parsed n rest = rw fits at e in
      let here : v ≡ n = cc both in
      let there : text ≡ rest = cc both in
      (λ i. (here i, there i), omega (arith, here, ltb→lt v (2 ^ width) fits))
  | inr large ↦ let never : out_of_range ≡ parsed n rest = rw large at e in cc never
]

from_chars-inversion :
    (width : ℕ) (s : Text) (n : ℕ)
    → from_chars width s ≡ parsed n []
    → All IsDigit s × (0 < length s) × (value_of 0 s ≡ n) × (n < 2 ^ width)
unfolding from_chars
from_chars-inversion width [] n e = cc
from_chars-inversion width (c ∷ s) n e = elim (Bool-cases (is_digit c)) [
  | inl digit ↦
      let (whole, fits) =
        in_range-parsed width (scan_digits 0 (c ∷ s)) n []
          (sym (from_chars_first width c s digit) ∙ e) in
      let (digits, value) = scan_digits-inversion 0 (c ∷ s) n whole in
      (digits, omega arith, value, fits)
  | inr other ↦ let never : invalid_argument ≡ parsed n [] = rw other at e in cc never
]

-- std::from_chars takes all of a text exactly when it is digits, at least one, whose value fits.
pub from_chars_iff :
    (width : ℕ) (s : Text) (n : ℕ)
    → (from_chars width s ≡ parsed n [])
      ↔ (All IsDigit s × (0 < length s) × (value_of 0 s ≡ n) × (n < 2 ^ width))
from_chars_iff width s n = (
  from_chars-inversion width s n,
  λ (digits, pos, value, fits).
      let whole : scan_digits 0 s ≡ (n, []) =
        ap (scan_digits 0) (sym (append-nil s))
        ∙ (scan_digits_lem 0 s [] digits tt ∙ ap (λ (v : ℕ). (v, [])) value) in
      from_chars_digits width s digits pos
      ∙ (ap (in_range width) whole ∙ in_range_fits width n fits),
)
