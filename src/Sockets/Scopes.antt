-- ===== src/Sockets/Scopes.antt =====
-- Objects that hold a descriptor, over the rest of the block that they stand in: what both mains have.
use binary_market_data_feed.Prelude.{ℕ, ◌≡◌, ap, ◌∙◌, some, List, ◌∷◌, Result, ok, err}
use binary_market_data_feed.CommandLine.{ArgsError, help_shown}
use binary_market_data_feed.Sockets.{OpenError, Process, Opened, close_if_open, remove, close}
use binary_market_data_feed.Sockets.Opening.{remove-newest, IsTidy}

-- What ends a main: parse_args, the opening of a socket, or something else.
pub data MainError (E : Type 0) : Type 0 where
  bad_arguments : ArgsError → MainError E
  not_opened : OpenError → MainError E
  thrown : E → MainError E

-- How a main ends, and the process then.
abbrev pub Ended : Type 0 → Type 0 → Type 0
Ended E A = Result (MainError E) A × Process

-- `return 0`, `return 1` in the handler, and std::exit(0) of `--help`.
unfoldable pub exit_code : {E A : Type 0} → Result (MainError E) A → ℕ
exit_code (ok a) = 0
exit_code (err (bad_arguments help_shown)) = 0
exit_code (err e) = 1

-- A constructor, the rest of the block, and the destructor on each way out of it.
unfoldable pub scoped : {E A : Type 0} → Opened → (ℕ → Process → Ended E A) → Ended E A
unfolding close_if_open
scoped (err e, p) body = (err (not_opened e), p)
scoped (ok fd, p) body = let (r, p') = body fd p in (r, (close_if_open (some fd) p').1)

-- The descriptors behind a block are those before it.
pub scoped_lem :
    {E A : Type 0} (before : List ℕ) (opened : Opened) (body : ℕ → Process → Ended E A)
    → IsTidy before opened
    → ((fd : ℕ) (p : Process)
        → p.open_descriptors ≡ fd ∷ before
        → (body fd p).1.open_descriptors ≡ fd ∷ before)
    → (scoped opened body).1.open_descriptors ≡ before
unfolding scoped close_if_open close
scoped_lem before (err e, p) body tidy keeps = tidy
scoped_lem before (ok fd, p) body tidy keeps =
    ap (remove fd) (keeps fd p tidy.0) ∙ remove-newest fd before
