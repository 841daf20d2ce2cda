-- ===== src/Feed/Main.antt =====
-- main of src/feed_handler/main.cpp: the command line, the CPU, the objects, the event loop and the exit.
-- The recovery client connects when it is first asked; its calls in the loop are a list.
pub mod Ending
pub mod Pinning
mod Examples
use binary_market_data_feed.Prelude.{
  ℕ, ◌+◌, Bool, Bool-cases, inl, inr, ==→eq, Option, none, some, List, [], ◌∷◌, ltb, ◌==◌, not,
  if◌then◌else◌, Result, ok, err, ◌>>=◌, Meets,
}
use binary_market_data_feed.Text.{Text}
use binary_market_data_feed.CommandLine.{ArgsError}
use binary_market_data_feed.Sockets.{
  OpenError, invalid_address, Kernel, Process, Opened, remove, close, close_if_open, open_receiver,
  open_epoll, connect_to,
}
use binary_market_data_feed.Sockets.Opening.{IsLeaky, opening_lem, remove-newest}
use binary_market_data_feed.Sockets.Scopes.{
  MainError, bad_arguments, not_opened, thrown, Ended, scoped,
}
use binary_market_data_feed.Feed.{FeedError, Feed, Setup, start}
use binary_market_data_feed.Feed.Loop.{WaitOutcome, run}
use binary_market_data_feed.Feed.Options.{Options, parse_args}
use binary_market_data_feed.Feed.Keeping.{IsReal}
use binary_market_data_feed.Feed.Counters.{IsCounted}
use binary_market_data_feed.Feed.Running.{run-IsCounted}

pub data PinError : Type 0 where
  no_processor_count affinity_failed : PinError
  core_too_large : ℕ → PinError

pub data HandlerError : Type 0 where
  not_pinned : PinError → HandlerError
  not_added : HandlerError
  not_handled : FeedError → HandlerError

-- The calls of the recovery client in the loop.
pub data ClientCall : Type 0 where
  connects disconnects : ClientCall

-- What the machine and the network give: the result of ::sysconf, `none` where it is negative, that of
-- ::pthread_setaffinity_np for a core, what ::epoll_wait returns, and the rest of what the loop needs.
pub record Machine : Type 0 where
  pub online_processors : Option ℕ
  pub set_affinity : ℕ → Bool
  pub waits : List WaitOutcome
  pub client_calls : List ClientCall
  pub setup : Setup

unfoldable pub pin_current_thread_to_cpu : Machine → ℕ → Result PinError (Unit {0})
pin_current_thread_to_cpu machine cpu_core = elim machine.online_processors [
  | none ↦ err no_processor_count
  | some cpu_count ↦
      if cpu_count == 0
      then err no_processor_count
      else if not (ltb cpu_core cpu_count)
      then err (core_too_large cpu_count)
      else if machine.set_affinity cpu_core
      then ok tt
      else err affinity_failed
]

module _ (kernel : Kernel) where
  unfoldable pub ensure_connected : Text → Option ℕ → Process → Opened
  unfolding connect_to
  ensure_connected host none p = connect_to kernel host p
  ensure_connected host (some fd) p = (ok fd, p)

  -- The member `socket_fd_` behind a call that may throw.
  unfoldable pub held : Opened → Option ℕ × Process
  held (ok fd, p) = (some fd, p)
  held (err e, p) = (none, p)

  unfoldable pub use_client : Text → List ClientCall → Option ℕ → Process → Option ℕ × Process
  unfolding ensure_connected held close_if_open
  use_client host [] socket p = (socket, p)
  use_client host (connects ∷ calls) socket p =
      let (socket', p') = held (ensure_connected host socket p) in use_client host calls socket' p'
  use_client host (disconnects ∷ calls) socket p =
      let (socket', p') = close_if_open socket p in use_client host calls socket' p'

  -- `add_readable_fd`: the call of ::epoll_ctl.
  unfoldable pub add_readable_fd : Process → Result HandlerError (Unit {0}) × Process
  add_readable_fd p =
      let p' = record p { calls = p.calls + 1 } in
      if kernel.succeeds p.calls then (ok tt, p') else (err not_added, p')

unfoldable pub handled : Result FeedError Feed → Result (MainError HandlerError) Feed
handled (ok s) = ok s
handled (err e) = err (thrown (not_handled e))

module _ (kernel : Kernel) (machine : Machine) (o : Options) where
  -- The limit is the one of the command line.
  abbrev pub setup_of : Setup
  setup_of = record machine.setup { messages = o.messages }

  -- From `add_readable_fd` on: how the loop ends, and the socket of the client then.
  unfoldable pub serve :
      Result HandlerError (Unit {0}) × Process
      → Result (MainError HandlerError) Feed × (Option ℕ × Process)
  unfolding handled use_client run
  serve (err e, p) = (err (thrown e), (none, p))
  serve (ok done, p) = (
    handled (run setup_of machine.waits start),
    use_client kernel o.recovery_host machine.client_calls none p,
  )

  -- What stands behind the client: the epoll instance, and its destructor.
  unfoldable pub with_epoll : Opened → Result (MainError HandlerError) Feed × (Option ℕ × Process)
  unfolding serve add_readable_fd close
  with_epoll (err e, p) = (err (not_opened e), (none, p))
  with_epoll (ok fd, p) =
      let (r, (socket, p')) = serve (add_readable_fd kernel p) in (r, (socket, close fd p'))

  -- The client, with its destructor.
  unfoldable pub with_client : Process → Ended HandlerError Feed
  unfolding with_epoll open_epoll close_if_open
  with_client p =
      let (r, (socket, p')) = with_epoll (open_epoll kernel p) in (r, (close_if_open socket p').1)

  unfoldable pub main_pinned : Result PinError (Unit {0}) → Process → Ended HandlerError Feed
  unfolding scoped open_receiver with_client
  main_pinned (err e) p = (err (thrown (not_pinned e)), p)
  main_pinned (ok done) p = scoped (open_receiver kernel o.group p) (λ fd p'. with_client p')

module _ (kernel : Kernel) (machine : Machine) where
  unfoldable pub main_parsed : Result ArgsError Options → Process → Ended HandlerError Feed
  unfolding main_pinned pin_current_thread_to_cpu
  main_parsed (err e) p = (err (bad_arguments e), p)
  main_parsed (ok o) p =
      main_pinned kernel machine o (pin_current_thread_to_cpu machine o.cpu_core) p

  unfoldable pub main : List Text → Process → Ended HandlerError Feed
  unfolding main_parsed parse_args
  main arguments p = main_parsed (parse_args arguments) p
