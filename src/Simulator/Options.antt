-- ===== src/Simulator/Options.antt =====
-- Options and parse_args of src/exchange_sim/main.cpp.
mod Examples
use binary_market_data_feed.Prelude.{
  ℕ, ◌<◌, ◌≤◌, ◌^◌, ◌≡◌, refl, sym, ap, ◌∙◌, subst, append-nil, Bool, true, false, Bool-cases, inl,
  inr, Option, none, some, List, [], ◌∷◌, ◌++◌, if◌then◌else◌, Result, ok, err, ◌>>=◌, ltb, ◌==◌,
  arith, lt→ltb, le→ltb, ne→==,
}
use binary_market_data_feed.Text.{Text, codes, same, decimal}
use binary_market_data_feed.CommandLine.{
  ArgsError, unknown_argument, help_shown, no_messages_per_packet, too_many_per_packet, with_text,
  with_number, parse_loop, parse_unsigned-decimal,
}
use binary_market_data_feed.Simulator.{max_messages_per_packet}

pub record Options : Type 0 where
  pub group : Text
  pub port : ℕ
  pub recovery_port : ℕ
  pub messages : ℕ
  pub messages_per_packet : ℕ
  pub skip_every : ℕ
  pub interval_ms : ℕ
  pub recovery_grace_ms : ℕ
  pub quiet : Bool

abbrev pub default_options : Options
default_options = record {
  group = codes "239.255.42.99";
  port = 30001;
  recovery_port = 31001;
  messages = 20;
  messages_per_packet = 4;
  skip_every = 0;
  interval_ms = 100;
  recovery_grace_ms = 1000;
  quiet = false;
}

-- The argument, with the one behind it; the flag tells whether that one is its value.
unfoldable pub parse_argument : Text → Option Text → Options → Result ArgsError (Options × Bool)
unfolding same with_text with_number
parse_argument argument value o =
    if same argument (codes "--group")
    then with_text argument value (λ v. record o { group = v })
    else if same argument (codes "--port")
    then with_number 16 argument value (λ n. record o { port = n })
    else if same argument (codes "--recovery-port")
    then with_number 16 argument value (λ n. record o { recovery_port = n })
    else if same argument (codes "--messages")
    then with_number 64 argument value (λ n. record o { messages = n })
    else if same argument (codes "--messages-per-packet")
    then with_number 64 argument value (λ n. record o { messages_per_packet = n })
    else if same argument (codes "--skip-every")
    then with_number 64 argument value (λ n. record o { skip_every = n })
    else if same argument (codes "--interval-ms")
    then with_number 64 argument value (λ n. record o { interval_ms = n })
    else if same argument (codes "--recovery-grace-ms")
    then with_number 64 argument value (λ n. record o { recovery_grace_ms = n })
    else if same argument (codes "--quiet")
    then ok (record o { quiet = true }, false)
    else if same argument (codes "--help")
    then err help_shown
    else err (unknown_argument argument)

-- The tests behind the loop.
unfoldable pub check_options : Options → Result ArgsError Options
check_options o =
    if o.messages_per_packet == 0
    then err no_messages_per_packet
    else if ltb max_messages_per_packet o.messages_per_packet
    then err too_many_per_packet
    else ok o

unfoldable pub parse_args : List Text → Result ArgsError Options
unfolding parse_loop parse_argument check_options
parse_args arguments = parse_loop parse_argument arguments default_options >>= check_options

-- A command line that says all options.
abbrev pub arguments_of : Options → List Text
arguments_of o =
    codes "--group"
    ∷ o.group
    ∷ codes "--port"
    ∷ decimal o.port
    ∷ codes "--recovery-port"
    ∷ decimal o.recovery_port
    ∷ codes "--messages"
    ∷ decimal o.messages
    ∷ codes "--messages-per-packet"
    ∷ decimal o.messages_per_packet
    ∷ codes "--skip-every"
    ∷ decimal o.skip_every
    ∷ codes "--interval-ms"
    ∷ decimal o.interval_ms
    ∷ codes "--recovery-grace-ms"
    ∷ decimal o.recovery_grace_ms
    ∷ []

abbrev pub command_line : Options → List Text
command_line o = if o.quiet then codes "--quiet" ∷ arguments_of o else arguments_of o

-- Each number fits its C++ type.
pub record IsOptions (o : Options) : Type 0 where
  pub port : o.port < 2 ^ 16
  pub recovery_port : o.recovery_port < 2 ^ 16
  pub messages : o.messages < 2 ^ 64
  pub messages_per_packet : o.messages_per_packet < 2 ^ 64
  pub skip_every : o.skip_every < 2 ^ 64
  pub interval_ms : o.interval_ms < 2 ^ 64
  pub recovery_grace_ms : o.recovery_grace_ms < 2 ^ 64

arguments_of_lem :
    (o start : Options)
    → IsOptions o
    → parse_loop parse_argument (arguments_of o) start ≡ ok (record o { quiet = start.quiet })
unfolding parse_loop parse_argument
arguments_of_lem o start h = rw (
  parse_unsigned-decimal 16 o.port (codes "--port") h.port,
  parse_unsigned-decimal 16 o.recovery_port (codes "--recovery-port") h.recovery_port,
  parse_unsigned-decimal 64 o.messages (codes "--messages") h.messages,
  parse_unsigned-decimal 64 o.messages_per_packet (codes "--messages-per-packet")
      h.messages_per_packet,
  parse_unsigned-decimal 64 o.skip_every (codes "--skip-every") h.skip_every,
  parse_unsigned-decimal 64 o.interval_ms (codes "--interval-ms") h.interval_ms,
  parse_unsigned-decimal 64 o.recovery_grace_ms (codes "--recovery-grace-ms") h.recovery_grace_ms,
)

parse_loop-command_line :
    (o : Options) → IsOptions o → parse_loop parse_argument (command_line o) default_options ≡ ok o
unfolding parse_loop parse_argument
parse_loop-command_line o h = elim (Bool-cases o.quiet) [
  | inl on ↦ rw on (arguments_of_lem o (record default_options { quiet = true }) h)
  | inr off ↦ rw off (arguments_of_lem o default_options h)
]

-- A command line of exchange_sim that says all options, whose numbers fit their C++ types, is parsed to them exactly
-- when there are 1 to kMaxMessagesPerPacket messages per packet, and throws one of its own exceptions
-- for 0 and for more.
pub parse_args-check_options :
    (o : Options)
    → IsOptions o
    → parse_args (command_line o) ≡ (
        if o.messages_per_packet == 0
        then err no_messages_per_packet
        else if ltb 42 o.messages_per_packet
        then err too_many_per_packet
        else ok o)
unfolding parse_args
parse_args-check_options o h = rw (parse_loop-command_line o h)

checked_fits :
    (r : Result ArgsError Options) (o : Options)
    → (r >>= check_options) ≡ ok o
    → (1 ≤ o.messages_per_packet) × (o.messages_per_packet ≤ max_messages_per_packet)
unfolding check_options
checked_fits (ok o') o e = ground arith
checked_fits (err x) o e = cc

-- Whatever the command line of exchange_sim is: what parse_args returns has 1 to kMaxMessagesPerPacket messages per
-- packet.
pub parse_args-fits :
    (arguments : List Text) (o : Options)
    → parse_args arguments ≡ ok o
    → (1 ≤ o.messages_per_packet) × (o.messages_per_packet ≤ max_messages_per_packet)
unfolding parse_args
parse_args-fits arguments o e =
    checked_fits (parse_loop parse_argument arguments default_options) o e
