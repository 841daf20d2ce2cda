-- ===== src/Text.antt =====
-- Texts as the lists of their character codes, and what the program uses of the standard library on
-- them: comparison, std::from_chars for unsigned numbers, and `<<` of an unsigned number.
pub mod Numbers
pub mod Pieces
use Prim.Native.Char.{code}
use Prim.Native.String.{String}
use binary_market_data_feed.Prelude.{
  ℕ, zero, suc, ◌+◌, ◌-◌, ◌*◌, ◌/◌, ◌%◌, ◌^◌, ◌≤◌, ◌<◌, ◌≡◌, refl, sym, ap, length, length-append,
  ◌∙◌, Bool, true, false, ◌&&◌, List, [], ◌∷◌, ◌++◌, append_assoc, append-nil, arith, ltb, leb,
  ◌==◌, if◌then◌else◌, Bool-cases, inl, inr, ltb→lt, ltb→le, All, All-append, le→leb, lt→ltb,
}

abbrev pub Text : Type 0
Text = List ℕ

abbrev pub codes : String → Text
codes String.[] = []
codes (String.◌∷◌ c s) = code c ∷ codes s

-- `==` of two std::string_view.
unfoldable pub same : Text → Text → Bool
same [] [] = true
same [] (d ∷ t) = false
same (c ∷ s) [] = false
same (c ∷ s) (d ∷ t) = let rest = same s t in (c == d) && rest

unfoldable pub is_digit : ℕ → Bool
is_digit c = leb 48 c && leb c 57

-- The value of the digits at the front, continuing `value`, and what follows them.
unfoldable pub scan_digits : ℕ → Text → ℕ × Text
unfolding is_digit
scan_digits value [] = (value, [])
scan_digits value (c ∷ text) =
    let rest = scan_digits (value * 10 + (c - 48)) text in
    if is_digit c then rest else (value, c ∷ text)

-- std::errc: invalid_argument, result_out_of_range; or the value and the rest of the text.
pub data FromChars : Type 0 where
  invalid_argument out_of_range : FromChars
  parsed : ℕ → Text → FromChars

unfoldable pub in_range : ℕ → ℕ × Text → FromChars
in_range width (value, rest) = if ltb value (2 ^ width) then parsed value rest else out_of_range

-- std::from_chars for an unsigned integer of this width, in base 10.
unfoldable pub from_chars : ℕ → Text → FromChars
unfolding scan_digits in_range is_digit
from_chars width [] = invalid_argument
from_chars width (c ∷ text) =
    if is_digit c then in_range width (scan_digits 0 (c ∷ text)) else invalid_argument

-- The digits of a number, with enough fuel.
unfoldable pub decimal_loop : ℕ → ℕ → Text
decimal_loop zero n = []
decimal_loop (suc fuel) n =
    let front = decimal_loop fuel (n / 10) in
    if ltb n 10 then (48 + n) ∷ [] else front ++ (48 + n % 10) ∷ []

-- `<<` of an unsigned number to a stream.
unfoldable pub decimal : ℕ → Text
unfolding decimal_loop
decimal n = decimal_loop (suc n) n

-- What is written to a stream, piece by piece.
unfoldable pub written : List Text → Text
written [] = []
written (text ∷ texts) = text ++ written texts
