-- ===== src/Channel/Transfer.antt =====
-- However the operating system cuts the stream into pieces, send_all sends all bytes in order and
-- recv_exact_or_eof reads exactly the bytes that it is asked for.
use binary_market_data_feed.Prelude.{
  ℕ, zero, suc, ◌+◌, ◌-◌, ◌≤◌, ◌<◌, ◌≡◌, refl, ap, ◌∙◌, min, Option, some, List, [], ◌∷◌, ◌++◌,
  append_assoc, append-nil, arith, length, take, drop, length-drop, take-append-drop, drop-drop,
  Result, ok,
}
use binary_market_data_feed.Channel.{
  SendOutcome, sends, send_interrupted, send_failed, RecvOutcome, ready, recv_interrupted,
  recv_failed, SocketError, Socket, send_loop, send_all, recv_loop, recv_exact_or_eof,
}

-- How many of the calls transfer bytes.
abbrev pub readies : List RecvOutcome → ℕ
readies [] = 0
readies (ready n ∷ outcomes) = suc (readies outcomes)
readies (recv_interrupted ∷ outcomes) = readies outcomes
readies (recv_failed ∷ outcomes) = readies outcomes

abbrev pub transfers : List SendOutcome → ℕ
transfers [] = 0
transfers (sends n ∷ outcomes) = suc (transfers outcomes)
transfers (send_interrupted ∷ outcomes) = transfers outcomes
transfers (send_failed ∷ outcomes) = transfers outcomes

-- No call fails.
abbrev pub IsUp : List RecvOutcome → Type 0
IsUp [] = Unit {0}
IsUp (ready n ∷ outcomes) = IsUp outcomes
IsUp (recv_interrupted ∷ outcomes) = IsUp outcomes
IsUp (recv_failed ∷ outcomes) = ⊥

abbrev pub IsOpen : List SendOutcome → Type 0
IsOpen [] = Unit {0}
IsOpen (sends n ∷ outcomes) = (0 < n) × IsOpen outcomes
IsOpen (send_interrupted ∷ outcomes) = IsOpen outcomes
IsOpen (send_failed ∷ outcomes) = ⊥

module _ {ℓ} {A : Type ℓ} where
  take-empty : (m : ℕ) → take {A = A} m [] ≡ []
  take-empty zero = refl
  take-empty (suc m) = refl

  take-take-drop : (c m : ℕ) (xs : List A) → take c xs ++ take m (drop c xs) ≡ take (c + m) xs
  take-take-drop zero m xs = let e : 0 + m ≡ m = omega arith in rw e
  take-take-drop (suc c) m [] = rw (take-empty m, take-empty (suc c + m))
  take-take-drop (suc c) m (x ∷ xs) =
      let e : suc c + m ≡ suc (c + m) = omega arith in rw e (ap (◌∷◌ x) (take-take-drop c m xs))

  -- A piece, and then the others, are what one cut takes.
  two_cuts :
      (got xs : List A) (c m : ℕ)
      → c ≤ m
      → (got ++ take c xs) ++ take (m - c) (drop c xs) ≡ got ++ take m xs
  two_cuts got xs c m h =
      let whole : c + (m - c) ≡ m = omega arith in
      rw (append_assoc, take-take-drop c (m - c) xs, whole)

  drop_rest : (xs : List A) (c m : ℕ) → c ≤ m → drop (m - c) (drop c xs) ≡ drop m xs
  drop_rest xs c m h =
      let whole : c + (m - c) ≡ m = omega arith in rw (drop-drop c (m - c) xs, whole)

abbrev RecvResult : Type 0
RecvResult = Result SocketError (Option (List ℕ) × List ℕ × List RecvOutcome)

-- The call got `bytes`, left `rest` of the stream, and took at most `n` outcomes with bytes.
abbrev pub Took : List RecvOutcome → ℕ → List ℕ → List ℕ → RecvResult → Type 0
Took outcomes n bytes rest r =
    (left : List RecvOutcome) × (r ≡ ok (some bytes, rest, left))
    × IsUp left
    × (readies outcomes ≤ readies left + n)

recv_step :
    (outcomes : List RecvOutcome) (n count m : ℕ) (got stream : List ℕ) (r : RecvResult)
    → 0 < count
    → count ≤ m
    → Took outcomes
        (m - count)
        ((got ++ take count stream) ++ take (m - count) (drop count stream))
        (drop (m - count) (drop count stream))
        r
    → Took (ready n ∷ outcomes) m (got ++ take m stream) (drop m stream) r
recv_step outcomes n count m got stream r some_read bound (left, e, up, used) = (
  left,
  e ∙ rw (two_cuts got stream count m bound, drop_rest stream count m bound),
  up,
  omega arith,
)

recv_loop-Took :
    (outcomes : List RecvOutcome) (missing : ℕ) (got incoming : List ℕ)
    → IsUp outcomes
    → missing ≤ readies outcomes
    → missing ≤ length incoming
    → Took outcomes missing
        (got ++ take missing incoming)
        (drop missing incoming)
        (recv_loop outcomes missing got incoming)
unfolding recv_loop
recv_loop-Took outcomes zero got incoming up enough long =
    (outcomes, rw append-nil, up, omega arith)
recv_loop-Took [] (suc missing) got incoming up enough long = absurd (omega arith)
recv_loop-Took (recv_interrupted ∷ outcomes) (suc missing) got incoming up enough long =
    recv_loop-Took outcomes (suc missing) got incoming up enough long
recv_loop-Took (recv_failed ∷ outcomes) (suc missing) got incoming up enough long = absurd up
recv_loop-Took (ready n ∷ outcomes) (suc missing) got [] up enough long = absurd (omega arith)
recv_loop-Took (ready n ∷ outcomes) (suc missing) got (b ∷ incoming) up enough long =
    let stream : List ℕ = b ∷ incoming in
    let count : ℕ = min (min (suc n) (suc missing)) (length stream) in
    recv_step outcomes n count (suc missing) got stream _ (omega arith) (omega arith) (
      recv_loop-Took outcomes (suc missing - count) (got ++ take count stream) (drop count stream)
        up (omega arith) (omega (arith, length-drop count stream)))

-- However the operating system cuts the stream into pieces, and however often a signal interrupts a
-- call, recv_exact_or_eof returns exactly the next `size` bytes of the stream and leaves the bytes
-- behind them, provided that no call fails, that the peer has sent `size` bytes, and that `size` calls
-- return with bytes.
pub recv_exact_or_eof-all :
    (size : ℕ) (s : Socket)
    → IsUp s.recv_outcomes
    → size ≤ readies s.recv_outcomes
    → size ≤ length s.incoming
    → (left : List RecvOutcome) × (recv_exact_or_eof size s
        ≡ ok (
          some (take size s.incoming),
          record s { incoming = drop size s.incoming; recv_outcomes = left },
        ))
      × IsUp left
      × (readies s.recv_outcomes ≤ readies left + size)
unfolding recv_exact_or_eof
recv_exact_or_eof-all size s up enough long =
    let (left, e, up_left, used) =
      recv_loop-Took s.recv_outcomes size [] s.incoming up enough long in
    (left, rw (recv_exact_or_eof, e), up_left, used)

-- The send calls took `rest` behind `sent`, and at most `n` outcomes that transfer.
abbrev pub Gave :
    List SendOutcome → ℕ → List ℕ → Result SocketError (List ℕ × List SendOutcome) → Type 0
Gave outcomes n sent r =
    (left : List SendOutcome) × (r ≡ ok (sent, left))
    × IsOpen left
    × (transfers outcomes ≤ transfers left + n)

send_step :
    (outcomes : List SendOutcome) (n count : ℕ) (rest sent : List ℕ)
    (r : Result SocketError (List ℕ × List SendOutcome))
    → 0 < count
    → count ≤ length rest
    → Gave outcomes (length (drop count rest)) ((sent ++ take count rest) ++ drop count rest) r
    → Gave (sends n ∷ outcomes) (length rest) (sent ++ rest) r
send_step outcomes n count rest sent r some_sent bound (left, e, open_left, used) = (
  left,
  e ∙ rw (append_assoc, take-append-drop count rest),
  open_left,
  omega (arith, length-drop count rest),
)

send_loop-Gave :
    (outcomes : List SendOutcome) (rest sent : List ℕ)
    → IsOpen outcomes
    → length rest ≤ transfers outcomes
    → Gave outcomes (length rest) (sent ++ rest) (send_loop outcomes rest sent)
unfolding send_loop
send_loop-Gave outcomes [] sent o enough = (outcomes, rw append-nil, o, omega arith)
send_loop-Gave [] (b ∷ rest) sent o enough = absurd (omega arith)
send_loop-Gave (sends zero ∷ outcomes) (b ∷ rest) sent o enough = absurd (omega (arith, o.0))
send_loop-Gave (sends (suc n) ∷ outcomes) (b ∷ rest) sent o enough =
    let stream : List ℕ = b ∷ rest in
    let count : ℕ = min (suc n) (length stream) in
    send_step outcomes (suc n) count stream sent _ (omega arith) (omega arith) (
      send_loop-Gave outcomes (drop count stream) (sent ++ take count stream) o.1
        (omega (arith, length-drop count stream)))
send_loop-Gave (send_interrupted ∷ outcomes) (b ∷ rest) sent o enough =
    send_loop-Gave outcomes (b ∷ rest) sent o enough
send_loop-Gave (send_failed ∷ outcomes) (b ∷ rest) sent o enough = absurd o

-- However few bytes each call of ::send takes, and however often a signal interrupts one, send_all
-- hands over all its bytes in order, provided that no call fails or takes nothing, and that as many
-- calls take bytes as there are bytes.
pub send_all-all :
    (bytes : List ℕ) (s : Socket)
    → IsOpen s.send_outcomes
    → length bytes ≤ transfers s.send_outcomes
    → (left : List SendOutcome) × (send_all bytes s
        ≡ ok (record s { sent = s.sent ++ bytes; send_outcomes = left }))
      × IsOpen left
      × (transfers s.send_outcomes ≤ transfers left + length bytes)
unfolding send_all
send_all-all bytes s o enough =
    let (left, e, open_left, used) = send_loop-Gave s.send_outcomes bytes s.sent o enough in
    (left, rw (send_all, e), open_left, used)
