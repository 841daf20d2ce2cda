-- ===== src/Feed/Main/Ending.antt =====
-- How main of src/feed_handler/main.cpp ends, and which descriptors it leaves open.
use binary_market_data_feed.Prelude.{
  ℕ, ◌+◌, ◌≡◌, ◌≢◌, refl, sym, subst, ap, ◌∙◌, Bool-cases, inl, inr, Option-cases, ==→eq, ==-refl,
  Option, none, some, List, [], ◌∷◌, ◌==◌, Result, ok, err, Meets,
}
use binary_market_data_feed.Text.{Text}
use binary_market_data_feed.Sockets.{
  invalid_address, Kernel, Process, Opened, remove, close, close_if_open, open_receiver, open_epoll,
  connect_to,
}
use binary_market_data_feed.Sockets.Opening.{IsTidy, IsLeaky, opening_lem, remove-newest}
use binary_market_data_feed.Sockets.Scopes.{MainError, not_opened, thrown, Ended, scoped}
use binary_market_data_feed.Feed.{FeedError, out_of_fuel, Feed, start}
use binary_market_data_feed.Feed.Loop.{run}
use binary_market_data_feed.Feed.Options.{Options, parse_args}
use binary_market_data_feed.Feed.Keeping.{IsReal}
use binary_market_data_feed.Feed.Stats.{IsLongDoubleSum}
use binary_market_data_feed.Feed.Counters.{IsCounted}
use binary_market_data_feed.Feed.Running.{run-IsCounted}
use binary_market_data_feed.Feed.Main.{
  PinError, HandlerError, not_added, not_handled, ClientCall, connects, disconnects, Machine,
  pin_current_thread_to_cpu, ensure_connected, held, use_client, add_readable_fd, handled, setup_of,
  serve, with_epoll, with_client, main_pinned, main_parsed, main,
}

-- A socket, where there is one, beside the others.
abbrev pub beside : Option ℕ → List ℕ → List ℕ
beside none before = before
beside (some fd) before = fd ∷ before

-- The descriptors behind the newest go.
remove-second : (fd c : ℕ) (before : List ℕ) → remove fd (c ∷ fd ∷ before) ≡ c ∷ before
unfolding remove
remove-second fd c before = elim (Bool-cases (c == fd)) [
  | inl same ↦ rw same (ap (λ x. x ∷ before) (sym (==→eq c fd same)))
  | inr other ↦ rw (other, ==-refl fd) refl
]

remove-beside :
    (fd : ℕ) (socket : Option ℕ) (before : List ℕ)
    → remove fd (beside socket (fd ∷ before)) ≡ beside socket before
remove-beside fd none before = remove-newest fd before
remove-beside fd (some c) before = remove-second fd c before

module _ (kernel : Kernel) (before : List ℕ) where
  -- The client's socket is what its member says.
  abbrev IsHeld : Option ℕ × Process → Type 0
  IsHeld (socket, p) = p.open_descriptors ≡ beside socket before

  close_if_open-IsHeld :
      (socket : Option ℕ) (p : Process)
      → IsHeld (socket, p)
      → (close_if_open socket p).1.open_descriptors ≡ before
  unfolding close_if_open close
  close_if_open-IsHeld none p h = h
  close_if_open-IsHeld (some fd) p h = ap (remove fd) h ∙ remove-newest fd before

  held-IsHeld : (opened : Opened) → IsTidy before opened → IsHeld (held kernel opened)
  unfolding held
  held-IsHeld (ok fd, p) h = h.0
  held-IsHeld (err e, p) h = h

  ensure_connected-IsHeld :
      (host : Text) (socket : Option ℕ) (p : Process)
      → IsHeld (socket, p)
      → IsHeld (held kernel (ensure_connected kernel host socket p))
  unfolding ensure_connected held
  ensure_connected-IsHeld host none p h =
      let (_, _, client, _) = opening_lem kernel host host p in
      held-IsHeld (connect_to kernel host p)
        (subst (λ ds. IsTidy ds (connect_to kernel host p)) h client)
  ensure_connected-IsHeld host (some fd) p h = h

  use_client-IsHeld :
      (host : Text) (calls : List ClientCall) (socket : Option ℕ) (p : Process)
      → IsHeld (socket, p)
      → IsHeld (use_client kernel host calls socket p)
  unfolding use_client
  use_client-IsHeld host [] socket p h = h
  use_client-IsHeld host (connects ∷ calls) socket p h =
      let (socket', p') = held kernel (ensure_connected kernel host socket p) in
      use_client-IsHeld host calls socket' p' (ensure_connected-IsHeld host socket p h)
  use_client-IsHeld host (disconnects ∷ calls) none p h = use_client-IsHeld host calls none p h
  use_client-IsHeld host (disconnects ∷ calls) (some fd) p h =
      use_client-IsHeld host calls none _ (close_if_open-IsHeld (some fd) p h)

-- What a main never is ended by.
abbrev pub IsExpected : MainError HandlerError → Type 0
IsExpected e = e ≢ thrown (not_handled out_of_fuel)

-- The descriptors from before are open then, and one more exactly where the exception says that the group
-- is no address.
abbrev pub IsLeft : List ℕ → Ended HandlerError Feed → Type 0
IsLeft before (r, p) =
    (r ≢ err (not_opened invalid_address) → p.open_descriptors ≡ before)
    × (r ≡ err (not_opened invalid_address) → (fd : ℕ) × (p.open_descriptors ≡ fd ∷ before))

module _ (kernel : Kernel) (machine : Machine) (o : Options) where
  -- How the loop ended.
  abbrev IsServed : Result (MainError HandlerError) Feed → Type 0
  IsServed r =
      Meets (IsCounted (setup_of kernel machine o)) IsExpected r
      × (r ≢ err (not_opened invalid_address))

  -- The client's socket is the only one more.
  abbrev IsClient : List ℕ → Result (MainError HandlerError) Feed × (Option ℕ × Process) → Type 0
  IsClient before (r, (socket, p)) = IsServed r × (p.open_descriptors ≡ beside socket before)

  abbrev pub IsEnd : List ℕ → Ended HandlerError Feed → Type 0
  IsEnd before (r, p) =
      Meets (IsCounted (setup_of kernel machine o)) IsExpected r × IsLeft before (r, p)

module _ (kernel : Kernel) (machine : Machine) (o : Options)
    (exact : IsLongDoubleSum machine.setup.add_long_double) where
  handled-IsServed :
      (r : Result FeedError Feed)
      → Meets (IsCounted (setup_of kernel machine o)) IsReal r
      → IsServed kernel machine o (handled r)
  unfolding handled
  handled-IsServed (ok s) h = (h, λ x. cc)
  handled-IsServed (err e) h = (λ x. h cc, λ x. cc)

  serve_lem :
      (before : List ℕ) (added : Result HandlerError (Unit {0})) (p : Process)
      → added ≢ err (not_handled out_of_fuel)
      → p.open_descriptors ≡ before
      → IsClient kernel machine o before (serve kernel machine o (added, p))
  unfolding serve
  serve_lem before (err e) p other h = ((λ x. other cc, λ x. cc), h)
  serve_lem before (ok done) p other h = (
    handled-IsServed (run (setup_of kernel machine o) machine.waits start)
        (run-IsCounted (setup_of kernel machine o) machine.waits exact),
    use_client-IsHeld kernel before o.recovery_host machine.client_calls none p h,
  )

  serve-add_readable_fd :
      (before : List ℕ) (p : Process)
      → p.open_descriptors ≡ before
      → IsClient kernel machine o before (serve kernel machine o (add_readable_fd kernel p))
  unfolding add_readable_fd
  serve-add_readable_fd before p h = elim (Bool-cases (kernel.succeeds p.calls)) [
    | inl works ↦ rw (works, add_readable_fd) (serve_lem before (ok tt) _ (λ x. cc) h)
    | inr broken ↦ rw (broken, add_readable_fd) (serve_lem before (err not_added) _ (λ x. cc) h)
  ]

  with_epoll_lem :
      (before : List ℕ) (p : Process)
      → p.open_descriptors ≡ before
      → IsClient kernel machine o before (with_epoll kernel machine o (open_epoll kernel p))
  unfolding with_epoll open_epoll close
  with_epoll_lem before p h = elim (Option-cases (kernel.descriptor p.calls)) [
    | inl e ↦ rw (e, open_epoll) ((λ x. cc, λ x. cc), h)
    | inr (fd, e) ↦
        let p' : Process = record {
          calls = p.calls + 1;
          open_descriptors = fd ∷ p.open_descriptors;
        } in
        let (served, left) = serve-add_readable_fd (fd ∷ before) p' (ap (λ ds. fd ∷ ds) h) in
        let socket = (serve kernel machine o (add_readable_fd kernel p')).1.0 in
        rw (e, open_epoll) (served, ap (remove fd) left ∙ remove-beside fd socket before)
  ]

  with_client_lem :
      (before : List ℕ) (p : Process)
      → p.open_descriptors ≡ before
      → IsServed kernel machine o (with_client kernel machine o p).0
        × ((with_client kernel machine o p).1.open_descriptors ≡ before)
  unfolding with_client
  with_client_lem before p h =
      let (served, left) = with_epoll_lem before p h in
      let (socket, p') = (with_epoll kernel machine o (open_epoll kernel p)).1 in
      (served, close_if_open-IsHeld kernel before socket p' left)

  -- The receiver, with its destructor.
  scoped_lem :
      (before : List ℕ) (opened : Opened)
      → IsLeaky before opened
      → IsEnd kernel machine o before (scoped opened (λ fd p. with_client kernel machine o p))
  unfolding scoped close_if_open close
  scoped_lem before (err e, p) leaky = (λ x. cc, (λ n. leaky.0 (λ x. n cc), λ x. leaky.1 cc))
  scoped_lem before (ok fd, p) leaky =
      let ((meets, other), left) = with_client_lem (fd ∷ before) p leaky.0 in
      (meets, (λ n. ap (remove fd) left ∙ remove-newest fd before, λ x. absurd (other x)))

  main_pinned_lem :
      (pinned : Result PinError (Unit {0})) (p : Process)
      → IsEnd kernel machine o p.open_descriptors (main_pinned kernel machine o pinned p)
  unfolding main_pinned
  main_pinned_lem (err e) p = (λ x. cc, (λ n. refl, λ x. absurd cc))
  main_pinned_lem (ok done) p =
      let (_, _, _, receiver) = opening_lem kernel o.group o.group p in
      scoped_lem p.open_descriptors (open_receiver kernel o.group p) receiver

-- A command line that parse_args takes, whatever the machine, the network, the recovery server and the
-- system calls do: main of feed_handler is not ended by a drain out of fuel, and where it ends without
-- an exception, the counters and statistics are as `IsCounted` says, with the limit on messages of the
-- command line. The descriptors that were open before are open then, and one more exactly where the
-- exception is that the group is no address: the sockets of the receiver and of the client, and the
-- epoll instance, are closed on each other way out. Assumed is that the sum of two long doubles is exact
-- below 2 ^ 64; nothing is assumed of it above.
pub main-IsEnd :
    (kernel : Kernel) (machine : Machine) (arguments : List Text) (o : Options) (p : Process)
    → parse_args arguments ≡ ok o
    → IsLongDoubleSum machine.setup.add_long_double
    → IsEnd kernel machine o p.open_descriptors (main kernel machine arguments p)
unfolding main main_parsed
main-IsEnd kernel machine arguments o p parsed exact =
    rw (parsed, main_parsed)
      (main_pinned_lem kernel machine o exact (pin_current_thread_to_cpu machine o.cpu_core) p)
