-- ===== src/Channel/Examples.antt =====
-- A stream that arrives in pieces, and a send that takes several calls.
use binary_market_data_feed.Prelude.{
  ◌+◌, ◌≤◌, ◌≡◌, refl, some, none, List, [], ◌∷◌, ◌++◌, arith, take, drop, ok, err,
}
use binary_market_data_feed.Channel.{
  SendOutcome, sends, send_interrupted, send_failed, RecvOutcome, ready, recv_interrupted,
  unexpected_eof, send_error, Socket, send_all, recv_exact_or_eof, send_loop, recv_loop,
  end_of_stream,
}
use binary_market_data_feed.Channel.Transfer.{
  readies, transfers, IsUp, IsOpen, recv_exact_or_eof-all, send_all-all,
}

-- One byte, then up to three at a time, with a signal between.
abbrev socket : Socket
socket = record {
  incoming = 1 ∷ 2 ∷ 3 ∷ 4 ∷ 5 ∷ [];
  recv_outcomes = ready 0 ∷ recv_interrupted ∷ ready 2 ∷ ready 2 ∷ ready 2 ∷ [];
  sent = [];
  send_outcomes = sends 2 ∷ send_interrupted ∷ sends 7 ∷ sends 1 ∷ [];
}

reads_four :
    recv_exact_or_eof 4 socket
    ≡ ok (
      some (1 ∷ 2 ∷ 3 ∷ 4 ∷ []),
      record socket { incoming = 5 ∷ []; recv_outcomes = ready 2 ∷ ready 2 ∷ [] },
    )
unfolding recv_exact_or_eof recv_loop
reads_four = refl

-- The peer closes in the middle, or before the first byte.
closed_in_the_middle : recv_exact_or_eof 6 socket ≡ err unexpected_eof
unfolding recv_exact_or_eof recv_loop end_of_stream
closed_in_the_middle = refl

closed_before :
    recv_exact_or_eof 6 (record socket { incoming = [] })
    ≡ ok (
      none,
      record socket {
        incoming = [];
        recv_outcomes = recv_interrupted ∷ ready 2 ∷ ready 2 ∷ ready 2 ∷ [];
      },
    )
unfolding recv_exact_or_eof recv_loop end_of_stream
closed_before = refl

send_breaks :
    send_all (8 ∷ 9 ∷ []) (record socket { send_outcomes = sends 1 ∷ send_failed ∷ [] })
    ≡ err send_error
unfolding send_all send_loop
send_breaks = refl

recv_exact_or_eof-all_example :
    (left : List RecvOutcome) × (recv_exact_or_eof 4 socket
      ≡ ok (
        some (take 4 socket.incoming),
        record socket { incoming = drop 4 socket.incoming; recv_outcomes = left },
      ))
    × IsUp left
    × (readies socket.recv_outcomes ≤ readies left + 4)
recv_exact_or_eof-all_example = recv_exact_or_eof-all 4 socket tt (omega arith) (omega arith)

send_all-all_example :
    (left : List SendOutcome) × (send_all (7 ∷ 8 ∷ 9 ∷ []) socket
      ≡ ok (record socket { sent = [] ++ 7 ∷ 8 ∷ 9 ∷ []; send_outcomes = left }))
    × IsOpen left
    × (transfers socket.send_outcomes ≤ transfers left + 3)
send_all-all_example =
    send_all-all (7 ∷ 8 ∷ 9 ∷ []) socket (omega arith, (omega arith, (omega arith, tt)))
      (omega arith)
