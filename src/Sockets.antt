-- ===== src/Sockets.antt =====
-- How src/common/udp_multicast.cpp and src/common/recovery.cpp open and close their sockets, and
-- EpollInstance of src/feed_handler/main.cpp its descriptor, by what the system calls return. The descriptors that the process has open are state.
pub mod Opening
pub mod Scopes
mod Examples
use binary_market_data_feed.Prelude.{
  ℕ, ◌+◌, Bool, Option, none, some, List, [], ◌∷◌, ◌==◌, if◌then◌else◌, Result, ok, err,
}
use binary_market_data_feed.Text.{Text}

pub data OpenError : Type 0 where
  socket_failed setsockopt_failed bind_failed listen_failed connect_failed fcntl_failed : OpenError
  invalid_address epoll_create_failed : OpenError

-- What the system gives: the result of the call with each number, and of ::inet_pton for a text, which
-- is `none` where the text is no address.
pub record Kernel : Type 0 where
  pub descriptor : ℕ → Option ℕ
  pub succeeds : ℕ → Bool
  pub inet_pton : Text → Option ℕ

-- The calls made, and the open descriptors, the newest first.
pub record Process : Type 0 where
  pub calls : ℕ
  pub open_descriptors : List ℕ

unfoldable pub remove : ℕ → List ℕ → List ℕ
remove fd [] = []
remove fd (x ∷ xs) = let rest = remove fd xs in if x == fd then xs else x ∷ rest

-- ::close.
unfoldable pub close : ℕ → Process → Process
unfolding remove
close fd p = record p { open_descriptors = remove fd p.open_descriptors }

-- A descriptor member, `none` for -1.
unfoldable pub close_if_open : Option ℕ → Process → Option ℕ × Process
unfolding close
close_if_open none p = (none, p)
close_if_open (some fd) p = (none, close fd p)

-- What a constructor returns or throws, and the process then.
abbrev pub Opened : Type 0
Opened = Result OpenError ℕ × Process

module _ (kernel : Kernel) where
  -- ::socket, and what follows where there is a descriptor.
  unfoldable pub with_socket : (ℕ → Process → Opened) → Process → Opened
  with_socket next p =
      let p' = record p { calls = p.calls + 1 } in
      elim (kernel.descriptor p.calls) [
        | none ↦ (err socket_failed, p')
        | some fd ↦ next fd (record p' { open_descriptors = fd ∷ p.open_descriptors })
      ]

  -- A call on the descriptor; where it fails, the descriptor is closed and an exception thrown.
  unfoldable pub or_close : OpenError → ℕ → (Process → Opened) → Process → Opened
  unfolding close
  or_close e fd next p =
      let p' = record p { calls = p.calls + 1 } in
      if kernel.succeeds p.calls then next p' else (err e, close fd p')

  -- Both calls of ::fcntl; the handler around it closes the descriptor.
  unfoldable pub set_non_blocking : ℕ → (Process → Opened) → Process → Opened
  unfolding or_close
  set_non_blocking fd next p = or_close fcntl_failed fd (or_close fcntl_failed fd next) p

  -- make_address throws where the text is no address.
  unfoldable pub open_sender : Text → Process → Opened
  unfolding with_socket or_close
  open_sender group p = elim (kernel.inet_pton group) [
    | none ↦ (err invalid_address, p)
    | some address ↦
        with_socket
          (λ fd. or_close setsockopt_failed fd (or_close setsockopt_failed fd (λ p'. (ok fd, p'))))
          p
  ]

  -- No handler is around the call of make_address, and the destructor of an object that is not
  -- constructed does not run.
  unfoldable pub join_group : Text → ℕ → Process → Opened
  unfolding or_close set_non_blocking
  join_group group fd p = elim (kernel.inet_pton group) [
    | none ↦ (err invalid_address, p)
    | some address ↦ or_close setsockopt_failed fd (set_non_blocking fd (λ p'. (ok fd, p'))) p
  ]

  unfoldable pub open_receiver : Text → Process → Opened
  unfolding with_socket or_close join_group
  open_receiver group p =
      with_socket
        (λ fd. or_close setsockopt_failed fd (or_close bind_failed fd (join_group group fd))) p

  unfoldable pub create_listen_socket : Process → Opened
  unfolding with_socket or_close
  create_listen_socket p =
      with_socket
        (λ fd.
          or_close setsockopt_failed fd
            (or_close bind_failed fd (or_close listen_failed fd (λ p'. (ok fd, p')))))
        p

  unfoldable pub connect_socket : Text → ℕ → Process → Opened
  unfolding or_close close
  connect_socket host fd p = elim (kernel.inet_pton host) [
    | none ↦ (err invalid_address, close fd p)
    | some address ↦ or_close connect_failed fd (λ p'. (ok fd, p')) p
  ]

  -- `ensure_connected` of a client that has no socket.
  unfoldable pub connect_to : Text → Process → Opened
  unfolding with_socket connect_socket
  connect_to host p = with_socket (connect_socket host) p

  -- EpollInstance's constructor.
  unfoldable pub open_epoll : Process → Opened
  open_epoll p =
      let p' = record p { calls = p.calls + 1 } in
      elim (kernel.descriptor p.calls) [
        | none ↦ (err epoll_create_failed, p')
        | some fd ↦ (ok fd, record p' { open_descriptors = fd ∷ p.open_descriptors })
      ]
