-- ===== src/Feed/Main/Examples.antt =====
-- A run of feed_handler where every call works, and one that waits in vain.
use binary_market_data_feed.Prelude.{◌+◌, ◌≡◌, refl, true, some, List, [], ◌∷◌, ok, err}
use binary_market_data_feed.Text.{Text, codes, same, from_chars, scan_digits, is_digit, in_range}
use binary_market_data_feed.CommandLine.{
  whole_number, parse_unsigned, require_value, with_text, with_number, parse_loop,
}
use binary_market_data_feed.Sockets.{Kernel, Process}
use binary_market_data_feed.Sockets.Scopes.{thrown}
use binary_market_data_feed.Feed.Loop.{interrupted, failed_wait, woken}
use binary_market_data_feed.Feed.Options.{Options, default_options, parse_argument, parse_args}
use binary_market_data_feed.Feed.Main.{
  core_too_large, not_pinned, connects, disconnects, Machine, pin_current_thread_to_cpu, main,
  main_parsed, main_pinned,
}
use binary_market_data_feed.Feed.Main.Ending.{IsEnd, main-IsEnd}

abbrev kernel : Kernel
kernel = record { descriptor = λ n. some (n + 3); succeeds = λ n. true; inet_pton = λ text. some 1 }

abbrev fresh : Process
fresh = record { calls = 0; open_descriptors = 2 ∷ 1 ∷ 0 ∷ [] }

abbrev machine : Machine
machine = record {
  online_processors = some 4;
  set_affinity = λ core. true;
  waits = interrupted ∷ woken [] ∷ failed_wait ∷ [];
  client_calls = connects ∷ disconnects ∷ connects ∷ [];
  setup = record {
    messages = 0;
    read_tsc = λ n. n;
    add_long_double = λ a b. a + b;
    request_packets = λ n a b. some [];
  };
}

abbrev arguments : List Text
arguments = codes "--cpu-core" ∷ codes "3" ∷ codes "--benchmark" ∷ []

abbrev chosen : Options
chosen = record default_options { cpu_core = 3; benchmark = true }

takes_arguments : parse_args arguments ≡ ok chosen
unfolding parse_args parse_loop parse_argument same with_text with_number require_value
    parse_unsigned whole_number from_chars scan_digits is_digit in_range
takes_arguments = refl

main-IsEnd_example :
    IsEnd kernel machine chosen (2 ∷ 1 ∷ 0 ∷ []) (main kernel machine arguments fresh)
main-IsEnd_example =
    main-IsEnd kernel machine arguments chosen fresh takes_arguments (λ a b small. refl)

-- There is no core of this number.
fifth_core :
    main_parsed kernel machine (ok (record chosen { cpu_core = 4 })) fresh
    ≡ (err (thrown (not_pinned (core_too_large 4))), fresh)
unfolding main_parsed main_pinned pin_current_thread_to_cpu
fifth_core = refl
