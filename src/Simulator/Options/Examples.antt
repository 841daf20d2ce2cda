-- ===== src/Simulator/Options/Examples.antt =====
-- Command lines of exchange_sim.
use binary_market_data_feed.Prelude.{
  ◌≡◌, refl, true, List, [], ◌∷◌, arith, ok, err, ltb, ◌==◌, if◌then◌else◌,
}
use binary_market_data_feed.Text.{Text, codes, same, from_chars, scan_digits, is_digit, in_range}
use binary_market_data_feed.CommandLine.{
  no_messages_per_packet, too_many_per_packet, whole_number, parse_unsigned, require_value,
  with_text, with_number, parse_loop,
}
use binary_market_data_feed.Simulator.Options.{
  Options, default_options, parse_argument, check_options, parse_args, command_line,
  parse_args-check_options,
}

abbrev chosen : Options
chosen = record default_options { messages_per_packet = 42; skip_every = 3; quiet = true }

parse_args-check_options_example : parse_args (command_line chosen) ≡ (
    if chosen.messages_per_packet == 0
    then err no_messages_per_packet
    else if ltb 42 chosen.messages_per_packet
    then err too_many_per_packet
    else ok chosen)
parse_args-check_options_example = parse_args-check_options chosen (record {
  port = omega arith;
  recovery_port = omega arith;
  messages = omega arith;
  messages_per_packet = omega arith;
  skip_every = omega arith;
  interval_ms = omega arith;
  recovery_grace_ms = omega arith;
})

abbrev arguments : List Text
arguments = codes "--messages-per-packet" ∷ codes "42" ∷ codes "--quiet" ∷ []

takes_arguments :
    parse_args arguments ≡ ok (record default_options { messages_per_packet = 42; quiet = true })
unfolding parse_args parse_loop parse_argument same with_text with_number require_value
    check_options parse_unsigned whole_number from_chars scan_digits is_digit in_range
takes_arguments = refl
