-- ===== src/Simulator/Main.antt =====
-- main of src/exchange_sim/main.cpp: the command line, the objects, the publishing loop and the exit code.
-- That the thread of the recovery server starts and is joined is assumed.
mod Examples
use binary_market_data_feed.Prelude.{ℕ, ◌+◌, ◌^◌, ◌<◌, ◌≡◌, refl, ◌∙◌, List, Result, ok, err, Meets}
use binary_market_data_feed.Text.{Text}
use binary_market_data_feed.CommandLine.{ArgsError}
use binary_market_data_feed.Sockets.{
  OpenError, Kernel, Process, Opened, open_sender, create_listen_socket,
}
use binary_market_data_feed.Sockets.Opening.{opening_lem}
use binary_market_data_feed.Sockets.Scopes.{
  MainError, bad_arguments, not_opened, thrown, Ended, scoped, scoped_lem,
}
use binary_market_data_feed.Simulator.Options.{Options, parse_args, parse_args-fits}
use binary_market_data_feed.Simulator.Publisher.{PublishError, Publisher, World, publish}
use binary_market_data_feed.Simulator.Published.{all_publications}
use binary_market_data_feed.Simulator.Rounds.{IsWorld, HasPublished}
use binary_market_data_feed.Simulator.Session.{publish_lem}

unfoldable pub published : Result PublishError Publisher → Result (MainError PublishError) Publisher
published (ok p) = ok p
published (err e) = err (thrown e)

-- What ended the program is that a socket could not be opened.
abbrev pub IsUnopened : MainError PublishError → Type 0
IsUnopened e = (x : OpenError) × (e ≡ not_opened x)

-- All messages are emitted, in the packets that the generator makes.
abbrev pub IsComplete : World → Options → Publisher → Type 0
IsComplete world o p =
    HasPublished o (all_publications world o) p × (p.emitted_messages ≡ o.messages)

module _ (kernel : Kernel) (world : World) where
  -- From the options on: the sender, the recovery server, and the publishing loop.
  unfoldable pub main_with : Options → Process → Ended PublishError Publisher
  unfolding scoped published open_sender create_listen_socket publish
  main_with o process = scoped (open_sender kernel o.group process) (λ sender process'.
      scoped (create_listen_socket kernel process')
        (λ server process''. (published (publish world o), process'')))

  unfoldable pub main_parsed : Result ArgsError Options → Process → Ended PublishError Publisher
  unfolding main_with
  main_parsed (err e) process = (err (bad_arguments e), process)
  main_parsed (ok o) process = main_with o process

  unfoldable pub main : List Text → Process → Ended PublishError Publisher
  unfolding main_parsed parse_args
  main arguments process = main_parsed (parse_args arguments) process

  main_with-open_descriptors :
      (o : Options) (process : Process)
      → (main_with o process).1.open_descriptors ≡ process.open_descriptors
  unfolding main_with
  main_with-open_descriptors o process =
      let (sender, _, _, _) = opening_lem kernel o.group o.group process in
      scoped_lem process.open_descriptors (open_sender kernel o.group process) _ sender (λ fd p h.
        let (_, listener, _, _) = opening_lem kernel o.group o.group p in
        scoped_lem p.open_descriptors (create_listen_socket kernel p) _ listener (λ fd' p' h'. h')
        ∙ h)

  main_parsed-open_descriptors :
      (parsed : Result ArgsError Options) (process : Process)
      → (main_parsed parsed process).1.open_descriptors ≡ process.open_descriptors
  unfolding main_parsed
  main_parsed-open_descriptors (ok o) process = main_with-open_descriptors o process
  main_parsed-open_descriptors (err e) process = refl

  -- However main of exchange_sim ends, and whatever the system calls return, it leaves open the
  -- descriptors that were open before.
  pub main-open_descriptors :
      (arguments : List Text) (process : Process)
      → (main arguments process).1.open_descriptors ≡ process.open_descriptors
  unfolding main
  main-open_descriptors arguments process =
      main_parsed-open_descriptors (parse_args arguments) process

  module _ (Q : Publisher → Type 0) where
    scoped-Meets :
        (opened : Opened) (body : ℕ → Process → Ended PublishError Publisher)
        → ((fd : ℕ) (p : Process) → Meets Q IsUnopened (body fd p).0)
        → Meets Q IsUnopened (scoped opened body).0
    unfolding scoped
    scoped-Meets (ok fd, p) body h = h fd p
    scoped-Meets (err e, p) body h = (e, refl)

    main_with-Meets :
        (o : Options) (process : Process)
        → (p : Publisher) × (publish world o ≡ ok p) × Q p
        → Meets Q IsUnopened (main_with o process).0
    unfolding main_with published
    main_with-Meets o process (p, e, q) =
        scoped-Meets (open_sender kernel o.group process) _ (λ sender process'.
          scoped-Meets (create_listen_socket kernel process') _
            (λ server process''. rw (e, published) q))

-- With a command line that parse_args takes, for fewer than 2 ^ 32 - 1 messages: the program is ended only by a
-- socket that cannot be opened. Else it returns normally, and all messages are published in exactly the
-- packets that the generator makes, as `HasPublished` says: each packet in the history under its number,
-- those not skipped sent in order. Nothing else is asked of the command line: what is published fits
-- because of the tests in parse_args. Assumed is that random numbers keep their bounds, the clock has
-- 64 bits, and ::sendto sends each datagram whole.
pub main-publishes :
    (kernel : Kernel) (world : World) (arguments : List Text) (o : Options) (process : Process)
    → parse_args arguments ≡ ok o
    → IsWorld world
    → o.messages + 1 < 2 ^ 32
    → Meets (IsComplete world o) IsUnopened (main kernel world arguments process).0
unfolding main main_parsed
main-publishes kernel world arguments o process parsed fine room =
    let (some_per_packet, few_per_packet) = parse_args-fits arguments o parsed in
    let (p, returns, all, emitted) = publish_lem world o fine (record {
      some_per_packet = some_per_packet;
      few_per_packet = few_per_packet;
      room = room;
    }) in
    rw (parsed, main_parsed)
      (main_with-Meets kernel world (IsComplete world o) o process (p, returns, (all, emitted)))
