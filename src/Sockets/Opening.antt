-- ===== src/Sockets/Opening.antt =====
-- Which descriptors are open after a socket was opened, or could not be.
use binary_market_data_feed.Prelude.{
  ℕ, ◌≡◌, refl, Option-cases, Bool-cases, inl, inr, ==-refl, some, List, ◌∷◌, ok, err,
}
use binary_market_data_feed.Text.{Text}
use binary_market_data_feed.Sockets.{
  OpenError, socket_failed, setsockopt_failed, bind_failed, listen_failed, connect_failed,
  fcntl_failed, invalid_address, Kernel, Process, remove, close, close_if_open, Opened, with_socket,
  or_close, set_non_blocking, open_sender, join_group, open_receiver, create_listen_socket,
  connect_socket, connect_to,
}

-- The socket is open beside those of `before`, and the destructor closes it.
abbrev pub IsOpened : List ℕ → ℕ → Process → Type 0
IsOpened before fd p =
    (p.open_descriptors ≡ fd ∷ before) × ((close_if_open (some fd) p).1.open_descriptors ≡ before)

-- Where an exception is thrown, nothing is left open.
abbrev pub IsTidy : List ℕ → Opened → Type 0
IsTidy before (ok fd, p) = IsOpened before fd p
IsTidy before (err e, p) = p.open_descriptors ≡ before

-- Where the exception says that the group is no address, one descriptor is left open, and nothing where
-- it says something else.
abbrev pub IsLeaky : List ℕ → Opened → Type 0
IsLeaky before (ok fd, p) = IsOpened before fd p
IsLeaky before (err e, p) =
    (¬ (e ≡ invalid_address) → p.open_descriptors ≡ before)
    × (e ≡ invalid_address → (fd : ℕ) × (p.open_descriptors ≡ fd ∷ before))

pub remove-newest : (fd : ℕ) (before : List ℕ) → remove fd (fd ∷ before) ≡ before
unfolding remove
remove-newest fd before = rw (==-refl fd) refl

-- A property of what an opening returns or throws, from what the descriptors are then.
module _ (kernel : Kernel) (before : List ℕ) (Q : Opened → Type 0)
    (fails : (e : OpenError) (p : Process)
      → ¬ (e ≡ invalid_address)
      → p.open_descriptors ≡ before
      → Q (err e, p))
    (opens : (fd : ℕ) (p : Process) → p.open_descriptors ≡ fd ∷ before → Q (ok fd, p)) where
  or_close_lem :
      (e : OpenError) (fd : ℕ) (next : Process → Opened)
      → ¬ (e ≡ invalid_address)
      → ((p : Process) → p.open_descriptors ≡ fd ∷ before → Q (next p))
      → (p : Process) → p.open_descriptors ≡ fd ∷ before
      → Q (or_close kernel e fd next p)
  unfolding or_close close
  or_close_lem e fd next other goes p h = elim (Bool-cases (kernel.succeeds p.calls)) [
    | inl works ↦ rw works (goes _ h)
    | inr broken ↦ rw broken (fails e _ other (rw h (remove-newest fd before)))
  ]

  with_socket_lem :
      (next : ℕ → Process → Opened)
      → ((fd : ℕ) (p : Process) → p.open_descriptors ≡ fd ∷ before → Q (next fd p))
      → (p : Process) → p.open_descriptors ≡ before
      → Q (with_socket kernel next p)
  unfolding with_socket
  with_socket_lem next goes p h = elim (Option-cases (kernel.descriptor p.calls)) [
    | inl e ↦ rw (e, with_socket) (fails socket_failed _ (λ x. cc) h)
    | inr (fd, e) ↦ rw (e, with_socket) (goes fd _ (λ i. fd ∷ h i))
  ]

  open_sender_lem :
      (group : Text) (p : Process)
      → ((p' : Process) → p'.open_descriptors ≡ before → Q (err invalid_address, p'))
      → p.open_descriptors ≡ before
      → Q (open_sender kernel group p)
  unfolding open_sender
  open_sender_lem group p invalid h = elim (Option-cases (kernel.inet_pton group)) [
    | inl e ↦ rw (e, open_sender) (invalid p h)
    | inr (a, e) ↦
        rw (e, open_sender)
          (with_socket_lem _
            (λ fd.
              or_close_lem setsockopt_failed fd _ (λ x. cc)
                (or_close_lem setsockopt_failed fd _ (λ x. cc) (opens fd)))
            p h)
  ]

  create_listen_socket_lem :
      (p : Process) → p.open_descriptors ≡ before → Q (create_listen_socket kernel p)
  unfolding create_listen_socket
  create_listen_socket_lem = with_socket_lem _ (λ fd.
      or_close_lem setsockopt_failed fd _ (λ x. cc)
        (or_close_lem bind_failed fd _ (λ x. cc)
          (or_close_lem listen_failed fd _ (λ x. cc) (opens fd))))

  connect_socket_lem :
      (host : Text) (fd : ℕ) (p : Process)
      → ((p' : Process) → p'.open_descriptors ≡ before → Q (err invalid_address, p'))
      → p.open_descriptors ≡ fd ∷ before
      → Q (connect_socket kernel host fd p)
  unfolding connect_socket close
  connect_socket_lem host fd p invalid h = elim (Option-cases (kernel.inet_pton host)) [
    | inl e ↦ rw (e, connect_socket) (invalid _ (rw h (remove-newest fd before)))
    | inr (a, e) ↦
        rw (e, connect_socket) (or_close_lem connect_failed fd _ (λ x. cc) (opens fd) p h)
  ]

  connect_to_lem :
      (host : Text) (p : Process)
      → ((p' : Process) → p'.open_descriptors ≡ before → Q (err invalid_address, p'))
      → p.open_descriptors ≡ before
      → Q (connect_to kernel host p)
  unfolding connect_to
  connect_to_lem host p invalid =
      with_socket_lem _ (λ fd p' h'. connect_socket_lem host fd p' invalid h') p

  join_group_lem :
      (group : Text) (fd : ℕ) (p : Process)
      → ((p' : Process) → p'.open_descriptors ≡ fd ∷ before → Q (err invalid_address, p'))
      → p.open_descriptors ≡ fd ∷ before
      → Q (join_group kernel group fd p)
  unfolding join_group set_non_blocking
  join_group_lem group fd p leaves h = elim (Option-cases (kernel.inet_pton group)) [
    | inl e ↦ rw (e, join_group) (leaves p h)
    | inr (a, e) ↦
        rw (e, join_group)
          (or_close_lem setsockopt_failed fd _ (λ x. cc)
            (or_close_lem fcntl_failed fd _ (λ x. cc)
              (or_close_lem fcntl_failed fd _ (λ x. cc) (opens fd)))
            p h)
  ]

  open_receiver_lem :
      (group : Text) (p : Process)
      → ((fd : ℕ) (p' : Process) → p'.open_descriptors ≡ fd ∷ before → Q (err invalid_address, p'))
      → p.open_descriptors ≡ before
      → Q (open_receiver kernel group p)
  unfolding open_receiver
  open_receiver_lem group p leaves =
      with_socket_lem _
        (λ fd.
          or_close_lem setsockopt_failed fd _ (λ x. cc)
            (or_close_lem bind_failed fd _ (λ x. cc)
              (λ p' h'. join_group_lem group fd p' (leaves fd) h')))
        p

newest-IsOpened :
    (before : List ℕ) (fd : ℕ) (p : Process)
    → p.open_descriptors ≡ fd ∷ before
    → IsOpened before fd p
unfolding close_if_open close
newest-IsOpened before fd p h = (h, rw h (remove-newest fd before))

-- Whatever the system calls return: each socket that is opened is open beside the descriptors from
-- before, until the destructor closes it. Where an exception is thrown, UdpMulticastSender's
-- constructor, create_listen_socket and RecoveryClient::ensure_connected leave no descriptor open, and
-- UdpMulticastReceiver's constructor leaves one exactly where the exception is that the group is no
-- address.
pub opening_lem :
    (kernel : Kernel) (group host : Text) (p : Process)
    → IsTidy p.open_descriptors (open_sender kernel group p)
      × IsTidy p.open_descriptors (create_listen_socket kernel p)
      × IsTidy p.open_descriptors (connect_to kernel host p)
      × IsLeaky p.open_descriptors (open_receiver kernel group p)
opening_lem kernel group host p =
    let before = p.open_descriptors in
    let tidy =
      λ (e : OpenError) (p' : Process) (n : ¬ (e ≡ invalid_address))
          (h : p'.open_descriptors ≡ before).
        h in
    let opened = newest-IsOpened before in
    (
      open_sender_lem kernel before (IsTidy before) tidy opened group p (λ p' h. h) refl,
      create_listen_socket_lem kernel before (IsTidy before) tidy opened p refl,
      connect_to_lem kernel before (IsTidy before) tidy opened host p (λ p' h. h) refl,
      open_receiver_lem kernel before (IsLeaky before) (λ e p' n h. (λ _. h, λ x. absurd (n x)))
          opened group p (λ fd p' h. (λ n. absurd (n refl), λ x. (fd, h))) refl,
    )
