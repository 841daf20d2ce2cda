-- ===== src/CommandLine.antt =====
-- What parse_args of src/feed_handler/main.cpp and of src/exchange_sim/main.cpp share: parse_unsigned,
-- the values of flags, and the loop over the arguments. Exceptions are values, and so is the exit
-- that `--help` asks for.
mod Examples
use binary_market_data_feed.Prelude.{
  ℕ, ◌<◌, ◌^◌, ◌≡◌, ◌↔◌, ◌⊎◌, inl, inr, refl, arith, ◌++◌, ap, length, All, Bool, true, false,
  Option, none, some, List, [], ◌∷◌, Result, ok, err, ◌>>=◌,
}
use binary_market_data_feed.Text.{
  Text, FromChars, invalid_argument, out_of_range, parsed, from_chars, decimal,
}
use binary_market_data_feed.Text.Numbers.{IsDigit, value_of, from_chars-decimal, from_chars_iff}

pub data ArgsError : Type 0 where
  missing_value invalid_number unknown_argument : Text → ArgsError
  help_shown no_messages_per_packet too_many_per_packet : ArgsError

-- The test after the call of std::from_chars: all of the text must be a number that fits.
unfoldable pub whole_number : Text → FromChars → Result ArgsError ℕ
whole_number flag invalid_argument = err (invalid_number flag)
whole_number flag out_of_range = err (invalid_number flag)
whole_number flag (parsed value []) = ok value
whole_number flag (parsed value (c ∷ rest)) = err (invalid_number flag)

unfoldable pub parse_unsigned : (width : ℕ) (text flag : Text) → Result ArgsError ℕ
unfolding whole_number
parse_unsigned width text flag = whole_number flag (from_chars width text)

-- The argument behind the flag, where there is one.
unfoldable pub require_value : Text → Option Text → Result ArgsError Text
require_value flag none = err (missing_value flag)
require_value flag (some value) = ok value

-- A flag with a text or with a number: the options with its value, and that the value is taken.
unfoldable pub with_text :
    {O : Type 0} → Text → Option Text → (Text → O) → Result ArgsError (O × Bool)
unfolding require_value
with_text flag value set = require_value flag value >>= λ v. ok (set v, true)

unfoldable pub with_number :
    {O : Type 0} → (width : ℕ) → Text → Option Text → (ℕ → O) → Result ArgsError (O × Bool)
unfolding require_value
with_number width flag value set =
    require_value flag value >>= λ v. parse_unsigned width v flag >>= λ n. ok (set n, true)

module _ {O : Type 0} (step : Text → Option Text → O → Result ArgsError (O × Bool)) where
  -- The loop over `argv`. The flag of `step` tells that the argument behind is taken too.
  unfoldable pub parse_loop : List Text → O → Result ArgsError O
  parse_loop [] o = ok o
  parse_loop (argument ∷ []) o = step argument none o >>= λ (o', _). ok o'
  parse_loop (argument ∷ value ∷ arguments) o = step argument (some value) o >>= λ (o', taken).
      elim taken [ true ↦ parse_loop arguments o' | false ↦ parse_loop (value ∷ arguments) o' ]

pub parse_unsigned-decimal :
    (width n : ℕ) (flag : Text) → n < 2 ^ width → parse_unsigned width (decimal n) flag ≡ ok n
unfolding parse_unsigned
parse_unsigned-decimal width n flag fits = ap (whole_number flag) (from_chars-decimal width n fits)

whole_number-ok :
    (flag : Text) (r : FromChars) (n : ℕ) → whole_number flag r ≡ ok n → r ≡ parsed n []
unfolding whole_number
whole_number-ok flag invalid_argument n e = cc
whole_number-ok flag out_of_range n e = cc
whole_number-ok flag (parsed value []) n e = cc
whole_number-ok flag (parsed value (c ∷ rest)) n e = cc

-- parse_unsigned takes exactly the texts of digits, at least one, whose value fits the integer type,
-- and returns the value.
pub parse_unsigned_iff :
    (width : ℕ) (text flag : Text) (n : ℕ)
    → (parse_unsigned width text flag ≡ ok n)
      ↔ (All IsDigit text × (0 < length text) × (value_of 0 text ≡ n) × (n < 2 ^ width))
unfolding parse_unsigned
parse_unsigned_iff width text flag n = (
  λ e. (from_chars_iff width text n).0 (whole_number-ok flag (from_chars width text) n e),
  λ h. ap (whole_number flag) ((from_chars_iff width text n).1 h),
)

whole_number-cases :
    (flag : Text) (r : FromChars)
    → ((n : ℕ) × (whole_number flag r ≡ ok n)) ⊎ (whole_number flag r ≡ err (invalid_number flag))
unfolding whole_number
whole_number-cases flag invalid_argument = inr refl
whole_number-cases flag out_of_range = inr refl
whole_number-cases flag (parsed value []) = inl (value, refl)
whole_number-cases flag (parsed value (c ∷ rest)) = inr refl

-- The digits of a number that fits.
abbrev pub IsNumber : ℕ → Text → Type 0
IsNumber width text = All IsDigit text × (0 < length text) × (value_of 0 text < 2 ^ width)

-- Every other text is refused.
pub parse_unsigned_refuses :
    (width : ℕ) (text flag : Text)
    → ¬ IsNumber width text
    → parse_unsigned width text flag ≡ err (invalid_number flag)
unfolding parse_unsigned
parse_unsigned_refuses width text flag other =
    elim (whole_number-cases flag (from_chars width text)) [
      | inr refused ↦ refused
      | inl (n, e) ↦
          let (digits, some_there, value, fits) = (parse_unsigned_iff width text flag n).0 e in
          absurd (other (digits, some_there, omega (arith, value, fits)))
    ]

-- The arguments go on behind those that the loop took, where an argument that needs no value leaves the
-- one behind it.
module _ {O : Type 0} (step : Text → Option Text → O → Result ArgsError (O × Bool))
    (alone : (argument value : Text) (o o' : O) (taken : Bool)
      → step argument none o ≡ ok (o', taken)
      → step argument (some value) o ≡ ok (o', false)) where
  taken_alone :
      (r : Result ArgsError (O × Bool)) (o' : O)
      → (r >>= λ (o'', _). ok o'') ≡ ok o'
      → (taken : Bool) × (r ≡ ok (o', taken))
  taken_alone (ok (o'', taken)) o' e = (taken, cc)
  taken_alone (err x) o' e = absurd cc

  -- The last argument, with more behind it.
  last_argument :
      (argument : Text) (rest : List Text) (o o' : O)
      → parse_loop step (argument ∷ []) o ≡ ok o'
      → parse_loop step (argument ∷ rest) o ≡ parse_loop step rest o'
  unfolding parse_loop
  last_argument argument [] o o' e = e
  last_argument argument (value ∷ rest) o o' e =
      let (taken, here) = taken_alone (step argument none o) o' e in
      rw (alone argument value o o' taken here) refl

  -- The two ways on after a step agree where each of them does.
  goes_on :
      (taken taken' left left' : O → Result ArgsError O) (rest : List Text) (o' : O)
      → ((o'' : O) → taken o'' ≡ ok o' → taken' o'' ≡ parse_loop step rest o')
      → ((o'' : O) → left o'' ≡ ok o' → left' o'' ≡ parse_loop step rest o')
      → (r : Result ArgsError (O × Bool))
      → (r >>= λ (o'', b). elim b [ true ↦ taken o'' | false ↦ left o'' ]) ≡ ok o'
      → (r >>= λ (o'', b). elim b [ true ↦ taken' o'' | false ↦ left' o'' ])
        ≡ parse_loop step rest o'
  goes_on taken taken' left left' rest o' after_taken after_left (ok (o'', true)) e =
      after_taken o'' e
  goes_on taken taken' left left' rest o' after_taken after_left (ok (o'', false)) e =
      after_left o'' e
  goes_on taken taken' left left' rest o' after_taken after_left (err x) e = absurd cc

  pub parse_loop-append :
      (before rest : List Text) (o o' : O)
      → parse_loop step before o ≡ ok o'
      → parse_loop step (before ++ rest) o ≡ parse_loop step rest o'
  unfolding parse_loop
  parse_loop-append [] rest o o' e = let same : o ≡ o' = cc in ap (parse_loop step rest) same
  parse_loop-append (argument ∷ []) rest o o' e = last_argument argument rest o o' e
  parse_loop-append (argument ∷ value ∷ before) rest o o' e =
      goes_on (parse_loop step before) (parse_loop step (before ++ rest))
        (parse_loop step (value ∷ before)) (parse_loop step (value ∷ (before ++ rest))) rest o'
        (λ o''. parse_loop-append before rest o'' o')
        (λ o''. parse_loop-append (value ∷ before) rest o'' o') (step argument (some value) o) e
