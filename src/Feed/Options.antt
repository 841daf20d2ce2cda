-- ===== src/Feed/Options.antt =====
-- Options and parse_args of src/feed_handler/main.cpp.
mod Examples
use binary_market_data_feed.Prelude.{
  ℕ, arith, ◌<◌, ◌≤◌, ◌^◌, ◌≡◌, refl, sym, ap, ◌∙◌, subst, append-nil, some-injective, Bool, true,
  false, Bool-cases, inl, inr, Option, none, some, List, [], ◌∷◌, ◌++◌, if◌then◌else◌, Result, ok,
  err, ◌>>=◌,
}
use binary_market_data_feed.Text.{Text, codes, same, decimal}
use binary_market_data_feed.CommandLine.{
  ArgsError, missing_value, invalid_number, unknown_argument, help_shown, parse_unsigned, with_text,
  with_number, parse_loop, parse_unsigned-decimal, IsNumber, parse_unsigned_refuses,
  parse_loop-append,
}

pub record Options : Type 0 where
  pub group : Text
  pub port : ℕ
  pub recovery_host : Text
  pub recovery_port : ℕ
  pub messages : ℕ
  pub cpu_core : ℕ
  pub benchmark : Bool

abbrev pub default_options : Options
default_options = record {
  group = codes "239.255.42.99";
  port = 30001;
  recovery_host = codes "127.0.0.1";
  recovery_port = 31001;
  messages = 0;
  cpu_core = 0;
  benchmark = false;
}

-- The argument, with the one behind it; the flag tells whether that one is its value.
unfoldable pub parse_argument : Text → Option Text → Options → Result ArgsError (Options × Bool)
unfolding same with_text with_number
parse_argument argument value o =
    if same argument (codes "--group")
    then with_text argument value (λ v. record o { group = v })
    else if same argument (codes "--port")
    then with_number 16 argument value (λ n. record o { port = n })
    else if same argument (codes "--recovery-host")
    then with_text argument value (λ v. record o { recovery_host = v })
    else if same argument (codes "--recovery-port")
    then with_number 16 argument value (λ n. record o { recovery_port = n })
    else if same argument (codes "--messages")
    then with_number 64 argument value (λ n. record o { messages = n })
    else if same argument (codes "--cpu-core")
    then with_number 64 argument value (λ n. record o { cpu_core = n })
    else if same argument (codes "--benchmark")
    then ok (record o { benchmark = true }, false)
    else if same argument (codes "--help")
    then err help_shown
    else err (unknown_argument argument)

unfoldable pub parse_args : List Text → Result ArgsError Options
unfolding parse_loop parse_argument
parse_args arguments = parse_loop parse_argument arguments default_options

-- A command line that says all options.
abbrev pub arguments_of : Options → List Text
arguments_of o =
    codes "--group"
    ∷ o.group
    ∷ codes "--port"
    ∷ decimal o.port
    ∷ codes "--recovery-host"
    ∷ o.recovery_host
    ∷ codes "--recovery-port"
    ∷ decimal o.recovery_port
    ∷ codes "--messages"
    ∷ decimal o.messages
    ∷ codes "--cpu-core"
    ∷ decimal o.cpu_core
    ∷ []

abbrev pub command_line : Options → List Text
command_line o = if o.benchmark then codes "--benchmark" ∷ arguments_of o else arguments_of o

-- Each number fits its C++ type.
pub record IsOptions (o : Options) : Type 0 where
  pub port : o.port < 2 ^ 16
  pub recovery_port : o.recovery_port < 2 ^ 16
  pub messages : o.messages < 2 ^ 64
  pub cpu_core : o.cpu_core < 2 ^ 64

arguments_of_lem :
    (o start : Options) (rest : List Text)
    → IsOptions o
    → parse_loop parse_argument (arguments_of o ++ rest) start
      ≡ parse_loop parse_argument rest (record o { benchmark = start.benchmark })
unfolding parse_loop parse_argument
arguments_of_lem o start rest h = rw (
  parse_unsigned-decimal 16 o.port (codes "--port") h.port,
  parse_unsigned-decimal 16 o.recovery_port (codes "--recovery-port") h.recovery_port,
  parse_unsigned-decimal 64 o.messages (codes "--messages") h.messages,
  parse_unsigned-decimal 64 o.cpu_core (codes "--cpu-core") h.cpu_core,
)

command_line_lem :
    (o : Options) (rest : List Text)
    → IsOptions o
    → parse_args (command_line o ++ rest) ≡ parse_loop parse_argument rest o
unfolding parse_args
command_line_lem o rest h = elim (Bool-cases o.benchmark) [
  | inl on ↦ rw on (arguments_of_lem o (record default_options { benchmark = true }) rest h)
  | inr off ↦ rw off (arguments_of_lem o default_options rest h)
]

-- A command line of feed_handler that says all options is parsed to them, where the numbers fit their C++ types.
pub parse_args-command_line : (o : Options) → IsOptions o → parse_args (command_line o) ≡ ok o
unfolding parse_loop
parse_args-command_line o h =
    subst (λ (arguments : List Text). parse_args arguments ≡ ok o) (append-nil (command_line o))
      (command_line_lem o [] h)

-- The flags with a value, and those among them with a number and its width.
pub data ValueFlag : Type 0 where
  group port recovery_host recovery_port messages cpu_core : ValueFlag

abbrev pub name_of : ValueFlag → Text
name_of group = codes "--group"
name_of port = codes "--port"
name_of recovery_host = codes "--recovery-host"
name_of recovery_port = codes "--recovery-port"
name_of messages = codes "--messages"
name_of cpu_core = codes "--cpu-core"

-- `none` where every text is a value.
abbrev pub width_of : ValueFlag → Option ℕ
width_of group = none
width_of port = some 16
width_of recovery_host = none
width_of recovery_port = some 16
width_of messages = some 64
width_of cpu_core = some 64

abbrev pub IsUnknown : Text → Type 0
IsUnknown argument =
    ((flag : ValueFlag) → same argument (name_of flag) ≡ false)
    × (same argument (codes "--benchmark") ≡ false)
    × (same argument (codes "--help") ≡ false)

stops_missing :
    (flag : ValueFlag) (o : Options)
    → parse_loop parse_argument (name_of flag ∷ []) o ≡ err (missing_value (name_of flag))
unfolding parse_loop parse_argument
stops_missing group o = refl
stops_missing port o = refl
stops_missing recovery_host o = refl
stops_missing recovery_port o = refl
stops_missing messages o = refl
stops_missing cpu_core o = refl

-- A text that is no number for the flag: not all of it digits, or none, or a value that does not fit.
abbrev pub IsRefused : ValueFlag → Text → Type 0
IsRefused flag value = elim (width_of flag) [ none ↦ ⊥ | some width ↦ ¬ IsNumber width value ]

stops_invalid :
    (flag : ValueFlag) (value : Text) (rest : List Text) (o : Options)
    → IsRefused flag value
    → parse_loop parse_argument (name_of flag ∷ value ∷ rest) o
      ≡ err (invalid_number (name_of flag))
unfolding parse_loop parse_argument
stops_invalid group value rest o e = absurd e
stops_invalid port value rest o e = rw (parse_unsigned_refuses 16 value (codes "--port") e)
stops_invalid recovery_host value rest o e = absurd e
stops_invalid recovery_port value rest o e =
    rw (parse_unsigned_refuses 16 value (codes "--recovery-port") e)
stops_invalid messages value rest o e = rw (parse_unsigned_refuses 64 value (codes "--messages") e)
stops_invalid cpu_core value rest o e = rw (parse_unsigned_refuses 64 value (codes "--cpu-core") e)

stops_unknown :
    (argument : Text) (rest : List Text) (o : Options)
    → IsUnknown argument
    → parse_loop parse_argument (argument ∷ rest) o ≡ err (unknown_argument argument)
unfolding parse_loop parse_argument
stops_unknown argument [] o (flag, b, h) = rw (
  flag group,
  flag port,
  flag recovery_host,
  flag recovery_port,
  flag messages,
  flag cpu_core,
  b,
  h,
)
stops_unknown argument (value ∷ rest) o (flag, b, h) = rw (
  flag group,
  flag port,
  flag recovery_host,
  flag recovery_port,
  flag messages,
  flag cpu_core,
  b,
  h,
)

-- Only an argument that needs no value goes without one.
parse_argument-alone :
    (argument value : Text) (o o' : Options) (taken : Bool)
    → parse_argument argument none o ≡ ok (o', taken)
    → parse_argument argument (some value) o ≡ ok (o', false)
unfolding parse_argument with_text with_number
parse_argument-alone argument value o o' taken e = ground arith

-- Behind any arguments that parse_args takes, a flag of feed_handler with a number that lacks its value,
-- that flag with a text which is no number that fits its type, and an argument that is no flag each end
-- the parse with the exception that names them, whatever follows.
pub parse_args_stops :
    (before : List Text) (o : Options) (flag : ValueFlag) (value argument : Text) (rest : List Text)
    → parse_args before ≡ ok o
    → IsRefused flag value
    → IsUnknown argument
    → (parse_args (before ++ name_of flag ∷ []) ≡ err (missing_value (name_of flag)))
      × (parse_args (before ++ name_of flag ∷ value ∷ rest) ≡ err (invalid_number (name_of flag)))
      × (parse_args (before ++ argument ∷ rest) ≡ err (unknown_argument argument))
unfolding parse_args
parse_args_stops before o flag value argument rest taken refused unknown =
    let goes_on = λ (behind : List Text).
      parse_loop-append parse_argument parse_argument-alone before behind default_options o taken in
    (
      goes_on (name_of flag ∷ []) ∙ stops_missing flag o,
      goes_on (name_of flag ∷ value ∷ rest) ∙ stops_invalid flag value rest o refused,
      goes_on (argument ∷ rest) ∙ stops_unknown argument rest o unknown,
    )
