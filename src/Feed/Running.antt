-- ===== src/Feed/Running.antt =====
-- What the single state changes keep is kept by the event loop: the counters and statistics, among others.
use binary_market_data_feed.Prelude.{
  inl, inr, Bool-cases, List, [], ◌∷◌, take, Meets, Meets-bind, ◌>>=◌, err,
}
use binary_market_data_feed.Feed.{wait_failed, Feed, start, Setup, limit_reached, receive_datagram}
use binary_market_data_feed.Feed.Loop.{
  EpollEvent, WaitOutcome, interrupted, failed_wait, woken, receive_ready, handle_event,
  handle_events, run,
}
use binary_market_data_feed.Feed.Keeping.{IsReal}
use binary_market_data_feed.Feed.Progress.{IsKept, receive_datagram-Meets}
use binary_market_data_feed.Udp.{
  RecvfromOutcome, would_block, recvfrom_error, received, receive_buffer_size,
}
use binary_market_data_feed.Feed.Stats.{IsLongDoubleSum}
use binary_market_data_feed.Feed.Counters.{IsCounted, start-IsCounted, IsCounted-IsKept}

module _ (setup : Setup) (P : Feed → Type 0) (kept : IsKept setup P) where
  receive_ready-Meets :
      (outcomes : List RecvfromOutcome) (s : Feed)
      → P s
      → Meets P IsReal (receive_ready setup outcomes s)
  unfolding receive_ready
  receive_ready-Meets [] s h = h
  receive_ready-Meets (would_block ∷ outcomes) s h = elim (Bool-cases (limit_reached setup s)) [
    | inl full ↦ rw full h
    | inr free ↦ rw free h
  ]
  receive_ready-Meets (recvfrom_error ∷ outcomes) s h = elim (Bool-cases (limit_reached setup s)) [
    | inl full ↦ rw full h
    | inr free ↦ rw free (λ p. cc)
  ]
  receive_ready-Meets (received datagram ∷ outcomes) s h =
      elim (Bool-cases (limit_reached setup s)) [
        | inl full ↦ rw full h
        | inr free ↦
            let bytes = take receive_buffer_size datagram in
            rw free (
              Meets-bind P P IsReal (receive_datagram setup bytes s) (receive_ready setup outcomes)
                (receive_datagram-Meets setup P kept bytes s free h)
                (λ s' h'. receive_ready-Meets outcomes s' h'))
      ]

  handle_event-Meets :
      (event : EpollEvent) (s : Feed) → P s → Meets P IsReal (handle_event setup event s)
  unfolding handle_event
  handle_event-Meets event s h = elim (Bool-cases event.failed) [
    | inl failed ↦ rw failed (λ p. cc)
    | inr fine ↦ rw fine (elim (Bool-cases event.readable) [
      | inl readable ↦ rw readable (receive_ready-Meets event.receives s h)
      | inr nothing ↦ rw nothing h
    ])
  ]

  handle_events-Meets :
      (events : List EpollEvent) (s : Feed) → P s → Meets P IsReal (handle_events setup events s)
  unfolding handle_events
  handle_events-Meets [] s h = h
  handle_events-Meets (event ∷ events) s h = elim (Bool-cases (limit_reached setup s)) [
    | inl full ↦ rw full h
    | inr free ↦ rw free (
        Meets-bind P P IsReal (handle_event setup event s) (handle_events setup events)
          (handle_event-Meets event s h) (λ s' h'. handle_events-Meets events s' h'))
  ]

  pub run-Meets :
      (outcomes : List WaitOutcome) (s : Feed) → P s → Meets P IsReal (run setup outcomes s)
  unfolding run
  run-Meets [] s h = h
  run-Meets (outcome ∷ outcomes) s h = elim (Bool-cases (limit_reached setup s)) [
    | inl full ↦ rw full h
    | inr free ↦
        rw free
          (elim outcome
            as (λ o. Meets P IsReal (elim o [
              | interrupted ↦ run setup outcomes s
              | failed_wait ↦ err wait_failed
              | woken events ↦ handle_events setup events s >>= run setup outcomes
            ])) [
              | interrupted ↦ run-Meets outcomes s h
              | failed_wait ↦ λ p. cc
              | woken events ↦
                  Meets-bind P P IsReal (handle_events setup events s) (run setup outcomes)
                    (handle_events-Meets events s h) (λ s' h'. run-Meets outcomes s' h')
            ])
  ]

-- Whatever the network and the recovery server send, and whatever limit on messages is set: the event
-- loop never runs out of the fuel of a drain, and in the state that it leaves each processed packet
-- is counted as live, replayed or drained, there is at most one latency sample for each packet and
-- for each message, at most as many messages as the limit are applied, and the expected sequence number
-- has 32 bits. The sum of latencies lies between their number times the smallest and times the largest,
-- or the latter is 2 ^ 64 or more. Assumed is that the sum of two long doubles is exact below 2 ^ 64;
-- nothing is assumed of it above.
pub run-IsCounted :
    (setup : Setup) (outcomes : List WaitOutcome)
    → IsLongDoubleSum setup.add_long_double
    → Meets (IsCounted setup) IsReal (run setup outcomes start)
run-IsCounted setup outcomes exact =
    run-Meets setup (IsCounted setup) (IsCounted-IsKept setup exact) outcomes start
      (start-IsCounted setup)
