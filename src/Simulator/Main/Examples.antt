-- ===== src/Simulator/Main/Examples.antt =====
-- Runs of exchange_sim where every call works.
use binary_market_data_feed.Prelude.{
  ◌+◌, ◌≡◌, refl, true, some, List, [], ◌∷◌, arith, ok, Meets, length,
}
use binary_market_data_feed.Text.{Text, codes, same, from_chars, scan_digits, is_digit, in_range}
use binary_market_data_feed.CommandLine.{
  whole_number, parse_unsigned, require_value, with_text, with_number, parse_loop,
}
use binary_market_data_feed.Sockets.{Kernel, Process}
use binary_market_data_feed.Sockets.Scopes.{exit_code}
use binary_market_data_feed.Simulator.Options.{
  Options, default_options, parse_argument, check_options, parse_args,
}
use binary_market_data_feed.Simulator.Publisher.{World}
use binary_market_data_feed.Simulator.Rounds.{IsWorld}
use binary_market_data_feed.Simulator.Main.{
  main, main_parsed, IsComplete, IsUnopened, main-publishes,
}

abbrev kernel : Kernel
kernel = record { descriptor = λ n. some (n + 3); succeeds = λ n. true; inet_pton = λ text. some 1 }

abbrev fresh : Process
fresh = record { calls = 0; open_descriptors = 2 ∷ 1 ∷ 0 ∷ [] }

abbrev world : World
world = record {
  draw = λ n lo hi. lo;
  read_tsc = λ n. 5;
  sendto = λ ds packet. some (length packet);
}

world-IsWorld : IsWorld world
world-IsWorld = record {
  dist = λ n lo hi h. (omega arith, h);
  tsc = λ n. omega arith;
  sends = λ ds packet. refl;
}

abbrev arguments : List Text
arguments = codes "--messages-per-packet" ∷ codes "42" ∷ codes "--quiet" ∷ []

abbrev chosen : Options
chosen = record default_options { messages_per_packet = 42; quiet = true }

takes_arguments : parse_args arguments ≡ ok chosen
unfolding parse_args parse_loop parse_argument same with_text with_number require_value
    check_options parse_unsigned whole_number from_chars scan_digits is_digit in_range
takes_arguments = refl

main-publishes_example :
    Meets (IsComplete world chosen) IsUnopened (main kernel world arguments fresh).0
main-publishes_example =
    main-publishes kernel world arguments chosen fresh takes_arguments world-IsWorld (omega arith)

-- The text of options is no failure.
helps : exit_code (main kernel world (codes "--help" ∷ []) fresh).0 ≡ 0
unfolding exit_code main main_parsed parse_args parse_loop parse_argument same check_options
helps = refl
