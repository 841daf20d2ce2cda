-- ===== src/Channel.antt =====
-- send_all and recv_exact_or_eof of src/common/recovery.cpp, over a stream socket. What each call of
-- ::send and ::recv does is the operating system's choice: a list of outcomes, of which each call
-- takes the next. A call that finds none does not return.
pub mod Transfer
mod Examples
use binary_market_data_feed.Prelude.{
  ℕ, zero, suc, ◌+◌, ◌-◌, ◌≤◌, min, Option, none, some, List, [], ◌∷◌, ◌++◌, leb, ◌==◌,
  if◌then◌else◌, length, take, drop, Result, ok, err,
}

-- EINTR; another error; or up to `n` bytes taken.
pub data SendOutcome : Type 0 where
  sends : ℕ → SendOutcome
  send_interrupted send_failed : SendOutcome

-- EINTR; another error; or at least one byte and up to `n` more, and 0 bytes only when the peer has
-- closed the stream and all is read.
pub data RecvOutcome : Type 0 where
  ready : ℕ → RecvOutcome
  recv_interrupted recv_failed : RecvOutcome

pub data SocketError : Type 0 where
  send_error send_returned_zero recv_error unexpected_eof blocked : SocketError

-- `incoming` are the bytes that the peer sends before it closes, `sent` those that were taken.
pub record Socket : Type 0 where
  pub incoming : List ℕ
  pub recv_outcomes : List RecvOutcome
  pub sent : List ℕ
  pub send_outcomes : List SendOutcome

-- The `while` of send_all, with the bytes from `cursor` on. The result is what was sent, and the
-- outcomes that are left.
unfoldable pub send_loop :
    List SendOutcome → (rest sent : List ℕ) → Result SocketError (List ℕ × List SendOutcome)
send_loop outcomes [] sent = ok (sent, outcomes)
send_loop [] (b ∷ rest) sent = err blocked
send_loop (sends zero ∷ outcomes) (b ∷ rest) sent = err send_returned_zero
send_loop (sends (suc n) ∷ outcomes) (b ∷ rest) sent =
    let count : ℕ = min (suc n) (length (b ∷ rest)) in
    send_loop outcomes (drop count (b ∷ rest)) (sent ++ take count (b ∷ rest))
send_loop (send_interrupted ∷ outcomes) (b ∷ rest) sent = send_loop outcomes (b ∷ rest) sent
send_loop (send_failed ∷ outcomes) (b ∷ rest) sent = err send_error

unfoldable pub send_all : List ℕ → Socket → Result SocketError Socket
send_all bytes s = elim (send_loop s.send_outcomes bytes s.sent) [
  | err e ↦ err e
  | ok (sent, outcomes) ↦ ok (record s { sent = sent; send_outcomes = outcomes })
]

-- ::recv returned 0: false if nothing was read, and an exception in the middle.
unfoldable pub end_of_stream :
    List ℕ → List RecvOutcome → Result SocketError (Option (List ℕ) × List ℕ × List RecvOutcome)
end_of_stream [] outcomes = ok (none, [], outcomes)
end_of_stream (g ∷ got) outcomes = err unexpected_eof

-- The `while` of recv_exact_or_eof, with `missing` bytes to come and `got` read. `none` is the
-- result `false`. Beside the bytes stand the rest of the stream and the outcomes that are left.
unfoldable pub recv_loop :
    List RecvOutcome
    → (missing : ℕ) (got incoming : List ℕ)
    → Result SocketError (Option (List ℕ) × List ℕ × List RecvOutcome)
recv_loop outcomes zero got incoming = ok (some got, incoming, outcomes)
recv_loop [] (suc missing) got incoming = err blocked
recv_loop (recv_interrupted ∷ outcomes) (suc missing) got incoming =
    recv_loop outcomes (suc missing) got incoming
recv_loop (recv_failed ∷ outcomes) (suc missing) got incoming = err recv_error
recv_loop (ready n ∷ outcomes) (suc missing) got [] = end_of_stream got outcomes
recv_loop (ready n ∷ outcomes) (suc missing) got (b ∷ incoming) =
    let count : ℕ = min (min (suc n) (suc missing)) (length (b ∷ incoming)) in
    recv_loop outcomes (suc missing - count) (got ++ take count (b ∷ incoming))
      (drop count (b ∷ incoming))

unfoldable pub recv_exact_or_eof : ℕ → Socket → Result SocketError (Option (List ℕ) × Socket)
recv_exact_or_eof size s = elim (recv_loop s.recv_outcomes size [] s.incoming) [
  | err e ↦ err e
  | ok (bytes, incoming, outcomes) ↦
      ok (bytes, record s { incoming = incoming; recv_outcomes = outcomes })
]
