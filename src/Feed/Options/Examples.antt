-- ===== src/Feed/Options/Examples.antt =====
-- Command lines of feed_handler.
use binary_market_data_feed.Prelude.{◌≡◌, refl, true, false, [], ◌∷◌, ◌++◌, arith, ok, err}
use binary_market_data_feed.Text.{Text, codes, same}
use binary_market_data_feed.Text.Numbers.{value_of}
use binary_market_data_feed.CommandLine.{
  missing_value, invalid_number, unknown_argument, help_shown, require_value, with_text,
  with_number, parse_loop,
}
use binary_market_data_feed.Feed.Options.{
  Options, default_options, parse_argument, parse_args, command_line, IsOptions,
  parse_args-command_line, ValueFlag, group, port, recovery_host, recovery_port, messages, cpu_core,
  name_of, IsRefused, IsUnknown, parse_args_stops,
}

abbrev bench : Options
bench = record default_options { port = 65535; messages = 1000; benchmark = true }

bench-IsOptions : IsOptions bench
bench-IsOptions = record {
  port = omega arith;
  recovery_port = omega arith;
  messages = omega arith;
  cpu_core = omega arith;
}

parse_args-command_line_example : parse_args (command_line bench) ≡ ok bench
parse_args-command_line_example = parse_args-command_line bench bench-IsOptions

abbrev too_large : Text
too_large = codes "65536"

too_large-IsRefused : IsRefused port too_large
unfolding value_of
too_large-IsRefused (digits, some_there, fits) = absurd (omega (arith, fits))

abbrev no_flag : Text
no_flag = codes "--prot"

no_flag_differs : (flag : ValueFlag) → same no_flag (name_of flag) ≡ false
unfolding same
no_flag_differs group = refl
no_flag_differs port = refl
no_flag_differs recovery_host = refl
no_flag_differs recovery_port = refl
no_flag_differs messages = refl
no_flag_differs cpu_core = refl

no_flag-IsUnknown : IsUnknown no_flag
unfolding same
no_flag-IsUnknown = (no_flag_differs, refl, refl)

parse_args_stops_example :
    (parse_args (command_line bench ++ name_of port ∷ []) ≡ err (missing_value (name_of port)))
    × (parse_args (command_line bench ++ name_of port ∷ too_large ∷ [])
        ≡ err (invalid_number (name_of port)))
    × (parse_args (command_line bench ++ no_flag ∷ []) ≡ err (unknown_argument no_flag))
parse_args_stops_example =
    parse_args_stops (command_line bench) bench port too_large no_flag []
      (parse_args-command_line bench bench-IsOptions) too_large-IsRefused no_flag-IsUnknown

-- The argument behind a flag is its value, even if it looks like a flag.
takes_flag_as_value :
    parse_args (codes "--group" ∷ codes "--help" ∷ [])
    ≡ ok (record default_options { group = codes "--help" })
unfolding parse_args parse_loop parse_argument same with_text with_number require_value
takes_flag_as_value = refl

shows_help : parse_args (codes "--benchmark" ∷ codes "--help" ∷ []) ≡ err help_shown
unfolding parse_args parse_loop parse_argument same with_text with_number require_value
shows_help = refl
