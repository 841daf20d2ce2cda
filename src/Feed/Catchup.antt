-- ===== src/Feed/Catchup.antt =====
-- The event loop on a published stream: what the handler has applied after the wake-ups of epoll.
use binary_market_data_feed.Prelude.{
  ℕ, suc, ◌+◌, ◌≤◌, ◌<◌, ◌≡◌, ◌^◌, refl, subst, List, [], ◌∷◌, map, arith,
}
use binary_market_data_feed.Feed.{Feed, Setup, start}
use binary_market_data_feed.Feed.Loop.{handle_event, handle_events, run}
use binary_market_data_feed.Feed.Stream.{
  Publication, IsPublication, At, Ends, Ends-bind, book_upto, limit_reached_off,
}
use binary_market_data_feed.Feed.Delivery.{
  Arrival, datagram, highest, Answers, receive_all_delivers,
}
use binary_market_data_feed.Feed.Wakes.{
  Wake, signal, arrived, together, arrivals_of, receive_ready_all, event_of, outcome_of,
  AreReceived, AreEvents, AreWakes, Comes, highest-append, highest-le, highest-together-le,
  highest-arrivals_of-le, Comes-highest,
}

module _ (setup : Setup) (unlimited : setup.messages ≡ 0) (stream : ℕ → Publication) (last : ℕ)
    (published : (k : ℕ) → k ≤ last → IsPublication (stream k)) (room : last + 1 < 2 ^ 32)
    (answers : Answers setup stream last) where
  event_delivers :
      (n : ℕ) (arrivals : List Arrival) (s : Feed)
      → n ≤ last
      → AreReceived stream last arrivals
      → At s (book_upto stream n) [] (suc n)
      → let m = highest n arrivals in
        Ends (handle_event setup (event_of stream arrivals) s) (book_upto stream m) [] (suc m)
  unfolding handle_event
  event_delivers n arrivals s h v a =
      rw (receive_ready_all setup (map (datagram stream) arrivals) s v.1) (
        receive_all_delivers setup unlimited stream last published room answers n arrivals s h v.0
          a)

  events_deliver :
      (n : ℕ) (events : List (List Arrival)) (s : Feed)
      → n ≤ last
      → AreEvents stream last events
      → At s (book_upto stream n) [] (suc n)
      → let m = highest n (together events) in
        Ends (handle_events setup (map (event_of stream) events) s) (book_upto stream m) [] (suc m)
  unfolding handle_events together highest
  events_deliver n [] s h v a = (s, refl, a)
  events_deliver n (arrivals ∷ events) s h v a =
      let m = highest n arrivals in
      rw (limit_reached_off setup unlimited s, highest-append n arrivals (together events))
        (Ends-bind (event_delivers n arrivals s h v.0 a)
          (λ s' a'. events_deliver m events s' (highest-le last n arrivals h v.0.0) v.1 a'))

  -- The event loop, from a state in which all packets up to some number are applied and none is
  -- buffered: whatever signals interrupt the waits, however the datagrams are spread over wake-ups and
  -- events, and whatever the network loses, repeats, reorders or adds of what is no packet, the handler
  -- never throws, keeps nothing buffered, and its book is that of all packets up to the highest number
  -- received, each applied once and in order. The limit on messages is off, the numbers do not wrap, the
  -- datagrams fit the receive buffer, and the recovery server replays every packet of the stream.
  pub run_delivers :
      (n : ℕ) (wakes : List Wake) (s : Feed)
      → n ≤ last
      → AreWakes stream last wakes
      → At s (book_upto stream n) [] (suc n)
      → let m = highest n (arrivals_of wakes) in
        Ends (run setup (map (outcome_of stream) wakes) s) (book_upto stream m) [] (suc m)
  unfolding run arrivals_of highest
  run_delivers n [] s h v a = (s, refl, a)
  run_delivers n (signal ∷ wakes) s h v a =
      rw (limit_reached_off setup unlimited s) (run_delivers n wakes s h v a)
  run_delivers n (arrived events ∷ wakes) s h v a =
      let m = highest n (together events) in
      rw
        (
          limit_reached_off setup unlimited s,
          highest-append n (together events) (arrivals_of wakes),
        )
        (Ends-bind (events_deliver n events s h v.0 a) (λ s' a'.
          run_delivers m wakes s' (highest-together-le stream last n events h v.0) v.1 a'))

  -- From the start of the event loop, whatever signals interrupt the waits, however the datagrams are
  -- spread over wake-ups and events, and whatever the network loses, repeats, reorders or adds of what
  -- is no packet: if the last packet of the stream ever arrives, then all its packets are applied, each
  -- once and in order, the handler does not throw, and nothing stays buffered. The limit on messages is
  -- off, the numbers do not wrap, the datagrams fit the receive buffer, and the recovery server replays
  -- every packet of the stream.
  pub run_catches_up :
      (wakes : List Wake)
      → AreWakes stream last wakes
      → Comes last (arrivals_of wakes)
      → Ends (run setup (map (outcome_of stream) wakes) start) (book_upto stream last) [] (suc last)
  unfolding book_upto
  run_catches_up wakes v comes =
      let low = highest-arrivals_of-le stream last 0 wakes (omega arith) v in
      let high = Comes-highest last 0 (arrivals_of wakes) comes in
      let all : highest 0 (arrivals_of wakes) ≡ last = omega arith in
      subst
        (λ (m : ℕ).
          Ends (run setup (map (outcome_of stream) wakes) start) (book_upto stream m) [] (suc m))
        all
        (run_delivers 0 wakes start (omega arith) v
          (record { book_is = refl; buffer_is = refl; seq_is = refl }))
