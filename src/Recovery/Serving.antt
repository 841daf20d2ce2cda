-- ===== src/Recovery/Serving.antt =====
-- A client with several requests, whatever other clients did before.
use binary_market_data_feed.Prelude.{
  ℕ, suc, ◌+◌, ◌-◌, ◌*◌, ◌^◌, ◌≤◌, ◌<◌, ◌≡◌, refl, sym, ap, ◌∙◌, subst, Bool, false, none, List, [],
  ◌∷◌, ◌++◌, append_assoc, append-nil, arith, length, All, length-append, Result, ok,
}
use binary_market_data_feed.History.{PacketHistory}
use binary_market_data_feed.History.Lookup.{stored}
use binary_market_data_feed.Channel.{
  RecvOutcome, ready, recv_interrupted, recv_failed, Socket, recv_loop, end_of_stream,
  recv_exact_or_eof,
}
use binary_market_data_feed.Channel.Transfer.{readies, IsUp}
use binary_market_data_feed.Recovery.{
  RecoveryError, Served, client_left, request_bytes, on_socket, serve_request, handle_client,
}
use binary_market_data_feed.Recovery.Conversation.{Connected, fewer}
use binary_market_data_feed.Recovery.Packets.{IsReplayable, reply_bytes}
use binary_market_data_feed.Recovery.RoundTrip.{serve_request_lem}
use binary_market_data_feed.Recovery.Server.{
  Round, stop, poll_interrupted, poll_failed, idle, accept_interrupted, accept_failed, accepted,
  Ended, run,
}

-- The packets that a request asks for.
abbrev pub asked : PacketHistory → ℕ × ℕ → List (List ℕ)
asked h (start_seq, end_seq) = stored h start_seq (end_seq + 1 - start_seq)

-- A range of 32-bit numbers, all of whose stored packets can be sent and taken.
abbrev pub IsServable : PacketHistory → ℕ × ℕ → Type 0
IsServable h (start_seq, end_seq) =
    (start_seq < 2 ^ 32)
    × (end_seq < 2 ^ 32)
    × All IsReplayable (asked h (start_seq, end_seq))
    × (length (asked h (start_seq, end_seq)) < 2 ^ 32)

-- A request, with the history as it is when it is looked up.
abbrev pub Request : Type 0
Request = PacketHistory × (ℕ × ℕ)

abbrev pub IsServableThen : Request → Type 0
IsServableThen (h, range) = IsServable h range

unfoldable pub all_requests : List Request → List ℕ
all_requests [] = []
all_requests ((h, (start_seq, end_seq)) ∷ requests) =
    request_bytes start_seq end_seq ++ all_requests requests

unfoldable pub all_replies : List Request → List ℕ
all_replies [] = []
all_replies ((h, range) ∷ requests) = reply_bytes (asked h range) ++ all_replies requests

-- `stop_` is not set while they are served.
abbrev pub turns_of : List Request → List (Bool × PacketHistory)
turns_of [] = []
turns_of ((h, range) ∷ requests) = (false, h) ∷ turns_of requests

-- Nothing comes any more: the end of the stream.
recv_loop-end :
    (outcomes : List RecvOutcome) (missing : ℕ)
    → IsUp outcomes
    → 1 ≤ readies outcomes
    → (left : List RecvOutcome) × (recv_loop outcomes (suc missing) [] [] ≡ ok (none, [], left))
unfolding recv_loop end_of_stream
recv_loop-end [] missing up some_ready = absurd (omega arith)
recv_loop-end (ready n ∷ outcomes) missing up some_ready = (outcomes, refl)
recv_loop-end (recv_interrupted ∷ outcomes) missing up some_ready =
    recv_loop-end outcomes missing up some_ready
recv_loop-end (recv_failed ∷ outcomes) missing up some_ready = absurd up

serve_request-end :
    (h : PacketHistory) (s : Socket) (sent : List ℕ) (t : ℕ)
    → Connected s [] sent 1 t
    → serve_request h s ≡ ok none
unfolding serve_request on_socket recv_exact_or_eof
serve_request-end h s sent t c =
    let (left, e) = recv_loop-end s.recv_outcomes 7 c.up c.reads in
    let here : recv_loop s.recv_outcomes 8 [] s.incoming ≡ ok (none, [], left) =
      subst (λ (b : List ℕ). recv_loop s.recv_outcomes 8 [] b ≡ ok (none, [], left))
        (sym c.incoming_is) e in
    rw (here, recv_exact_or_eof) refl

handle_client-end :
    (h : PacketHistory) (s : Socket) (sent : List ℕ) (t : ℕ)
    → Connected s [] sent 1 t
    → handle_client ((false, h) ∷ []) s ≡ ok client_left
unfolding handle_client
handle_client-end h s sent t c = rw (serve_request-end h s sent t c) refl

abbrev Log : Type 0
Log = List (Result RecoveryError Served) × Ended

run_accepted :
    (turns : List (Bool × PacketHistory)) (client : Socket) (after : List Round)
    → handle_client turns client ≡ ok client_left
    → run (accepted turns client ∷ after) ≡ (ok client_left ∷ (run after).0, (run after).1)
unfolding run
run_accepted turns client after e =
    ap (λ (r : Result RecoveryError Served). (r ∷ (run after).0, (run after).1)) e

handle_client_rounds :
    (requests : List Request) (s : Socket) (sent : List ℕ) (r t : ℕ)
    → All IsServableThen requests
    → Connected s
        (all_requests requests)
        sent
        (length requests * 8 + r)
        (length (all_replies requests) + t)
    → (s' : Socket) × ((turns : List (Bool × PacketHistory))
        → handle_client (turns_of requests ++ turns) s ≡ handle_client turns s')
      × Connected s' [] (sent ++ all_replies requests) r t
unfolding handle_client all_requests all_replies
handle_client_rounds [] s sent r t all c =
    (s, λ turns. refl, rw (append-nil sent) (fewer s [] sent _ _ r t c (omega arith) (omega arith)))
handle_client_rounds ((h, (start_seq, end_seq)) ∷ requests) s sent r t all c =
    let packets = asked h (start_seq, end_seq) in
    let later : ℕ = length requests * 8 + r in
    let more : ℕ = length (all_replies requests) + t in
    let (s', e, c') =
      serve_request_lem h start_seq end_seq s (all_requests requests) sent later more all.0.0
        all.0.1 all.0.2 all.0.3
        (fewer s _ sent _ _ (8 + later) (length (reply_bytes packets) + more) c (omega arith)
          (omega (arith, length-append (reply_bytes packets) (all_replies requests)))) in
    let (s'', f, c'') =
      handle_client_rounds requests s' (sent ++ reply_bytes packets) r t all.1 c' in
    (
      s'',
      λ turns. rw e (f turns),
      subst (λ (b : List ℕ). Connected s'' [] b r t)
          (append_assoc sent (reply_bytes packets) (all_replies requests)) c'',
    )

-- The loop of the server goes on behind these rounds.
abbrev pub GoesOn : List Round → Type 0
GoesOn [] = Unit {0}
GoesOn (stop ∷ rounds) = ⊥
GoesOn (poll_interrupted ∷ rounds) = GoesOn rounds
GoesOn (poll_failed ∷ rounds) = ⊥
GoesOn (idle ∷ rounds) = GoesOn rounds
GoesOn (accept_interrupted ∷ rounds) = GoesOn rounds
GoesOn (accept_failed ∷ rounds) = GoesOn rounds
GoesOn (accepted turns client ∷ rounds) = GoesOn rounds

run-append :
    (before after : List Round)
    → GoesOn before
    → run (before ++ after) ≡ ((run before).0 ++ (run after).0, (run after).1)
unfolding run
run-append [] after h = refl
run-append (stop ∷ before) after h = absurd h
run-append (poll_interrupted ∷ before) after h = run-append before after h
run-append (poll_failed ∷ before) after h = absurd h
run-append (idle ∷ before) after h = run-append before after h
run-append (accept_interrupted ∷ before) after h = run-append before after h
run-append (accept_failed ∷ before) after h = run-append before after h
run-append (accepted turns client ∷ before) after h =
    ap (λ (r : List (Result RecoveryError Served) × Ended). (handle_client turns client ∷ r.0, r.1))
      (run-append before after h)

-- A client that sends some requests for ranges and then closes the stream, on a connection where no call
-- fails and enough are made, with the history as it is at each request, whatever is stored in between,
-- and while stop_ is not set: whatever the server's loop went through before, with clients whose
-- conversations failed, it answers each request with the packets of its range that are stored then, in
-- the order of the requests, ends this conversation without an exception, and goes on with the rounds
-- behind. Each stored packet has 1 to 4096 bytes, and a range has less than 2 ^ 32 of them.
pub serves_session :
    (requests : List Request) (last : PacketHistory) (client : Socket) (before after : List Round)
    → All IsServableThen requests
    → Connected client
        (all_requests requests)
        []
        (length requests * 8 + 1)
        (length (all_replies requests))
    → GoesOn before
    → (client' : Socket) × ((turns : List (Bool × PacketHistory))
        → handle_client (turns_of requests ++ turns) client ≡ handle_client turns client')
      × (client'.sent ≡ all_replies requests)
      × (run (before ++ accepted (turns_of requests ++ (false, last) ∷ []) client ∷ after)
          ≡ ((run before).0 ++ ok client_left ∷ (run after).0, (run after).1))
serves_session requests last client before after all c goes =
    let (client', e, c') =
      handle_client_rounds requests client [] 1 0 all (
        fewer client _ [] _ _ _ (length (all_replies requests) + 0) c (omega arith)
          (omega arith)) in
    let end = (false, last) ∷ [] in
    let left = e end ∙ handle_client-end last client' _ 0 c' in
    (
      client',
      e,
      c'.sent_is,
      run-append before (accepted (turns_of requests ++ end) client ∷ after) goes
          ∙ ap (λ (r : Log). ((run before).0 ++ r.0, r.1)) (run_accepted _ client after left),
    )
