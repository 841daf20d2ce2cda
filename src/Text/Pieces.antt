-- ===== src/Text/Pieces.antt =====
-- Texts that are written piece by piece: what the pieces of two equal texts have in common.
use binary_market_data_feed.Prelude.{ℕ, ◌≡◌, refl, false, [], ◌∷◌, ◌++◌, ◌==◌, arith, ◌∙◌, ap}
use binary_market_data_feed.Text.{Text, codes, is_digit, scan_digits, decimal}
use binary_market_data_feed.Text.Numbers.{IsPast, decimal-append-injective, scan_digits-decimal}

pub append-cancel : (t r s : Text) → t ++ r ≡ t ++ s → r ≡ s
append-cancel [] r s e = e
append-cancel (c ∷ t) r s e = append-cancel t r s (cc e)

-- A label and a number, before what is no digit.
pub field-injective :
    (label : Text) (n m : ℕ) (r s : Text)
    → IsPast r
    → IsPast s
    → label ++ (decimal n ++ r) ≡ label ++ (decimal m ++ s)
    → (n ≡ m) × (r ≡ s)
field-injective label n m r s p q e =
    decimal-append-injective n m r s p q (append-cancel label (decimal n ++ r) (decimal m ++ s) e)

-- Texts that begin differently.
pub apart : (c d : ℕ) (r s : Text) → (c == d) ≡ false → c ∷ r ≡ d ∷ s → ⊥
apart c d r s differ e = ground arith

-- Dashes are no number.
pub dashes_apart : (n : ℕ) (r s : Text) → codes "--" ++ r ≡ decimal n ++ (codes " x " ++ s) → ⊥
unfolding scan_digits is_digit
dashes_apart n r s e =
    let both : scan_digits 0 (codes "--" ++ r) ≡ (n, codes " x " ++ s) =
      ap (scan_digits 0) e ∙ scan_digits-decimal n (codes " x " ++ s) refl in
    apart _ _ _ _ refl (λ i. (both i).1)
