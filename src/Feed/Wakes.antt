-- ===== src/Feed/Wakes.antt =====
-- What arrives over the wake-ups of the event loop.
use binary_market_data_feed.Prelude.{
  ℕ, ◌≤◌, ◌≡◌, ◌⊎◌, refl, ap, inl, inr, Bool-cases, true, false, List, [], ◌∷◌, ◌++◌, map, fun_ext,
  arith, ltb, if◌then◌else◌, length, take_all, All, Result, ◌>>=◌,
}
use binary_market_data_feed.Udp.{would_block, received, receive_buffer_size}
use binary_market_data_feed.Feed.{
  FeedError, Feed, Setup, limit_reached, receive_datagram, receive_all,
}
use binary_market_data_feed.Feed.Loop.{EpollEvent, WaitOutcome, interrupted, woken, receive_ready}
use binary_market_data_feed.Feed.Stream.{Publication}
use binary_market_data_feed.Feed.Delivery.{Arrival, noise, packet, datagram, AreArrivals, highest}

-- A wake-up: a signal, or events, each with the datagrams that are there.
pub data Wake : Type 0 where
  signal : Wake
  arrived : List (List Arrival) → Wake

unfoldable pub together : List (List Arrival) → List Arrival
together [] = []
together (arrivals ∷ events) = arrivals ++ together events

unfoldable pub arrivals_of : List Wake → List Arrival
arrivals_of [] = []
arrivals_of (signal ∷ wakes) = arrivals_of wakes
arrivals_of (arrived events ∷ wakes) = together events ++ arrivals_of wakes

module _ (setup : Setup) where
  -- The calls of ::recvfrom until the socket would block.
  pub receive_ready_all :
      (datagrams : List (List ℕ)) (s : Feed)
      → All (λ bytes. length bytes ≤ receive_buffer_size) datagrams
      → receive_ready setup (map received datagrams ++ would_block ∷ []) s
        ≡ receive_all setup datagrams s
  unfolding receive_ready receive_all
  receive_ready_all [] s fits = elim (Bool-cases (limit_reached setup s)) [
    | inl full ↦ rw full
    | inr free ↦ rw free
  ]
  receive_ready_all (bytes ∷ datagrams) s fits = elim (Bool-cases (limit_reached setup s)) [
    | inl full ↦ rw full
    | inr free ↦
        rw (free, take_all receive_buffer_size bytes fits.0)
          (ap (λ (f : Feed → Result FeedError Feed). receive_datagram setup bytes s >>= f)
            (fun_ext (λ s'. receive_ready_all datagrams s' fits.1)))
  ]

-- A readable event on which no error is reported.
abbrev pub event_of : (ℕ → Publication) → List Arrival → EpollEvent
event_of stream arrivals = record {
  failed = false;
  readable = true;
  receives = map received (map (datagram stream) arrivals) ++ would_block ∷ [];
}

abbrev pub outcome_of : (ℕ → Publication) → Wake → WaitOutcome
outcome_of stream signal = interrupted
outcome_of stream (arrived events) = woken (map (event_of stream) events)

-- The packets that arrive are of the stream, and every datagram fits the receive buffer.
abbrev pub AreReceived : (ℕ → Publication) → ℕ → List Arrival → Type 0
AreReceived stream last arrivals =
    AreArrivals last arrivals
    × All (λ bytes. length bytes ≤ receive_buffer_size) (map (datagram stream) arrivals)

abbrev pub AreEvents : (ℕ → Publication) → ℕ → List (List Arrival) → Type 0
AreEvents stream last [] = Unit {0}
AreEvents stream last (arrivals ∷ events) =
    AreReceived stream last arrivals × AreEvents stream last events

abbrev pub AreWakes : (ℕ → Publication) → ℕ → List Wake → Type 0
AreWakes stream last [] = Unit {0}
AreWakes stream last (signal ∷ wakes) = AreWakes stream last wakes
AreWakes stream last (arrived events ∷ wakes) =
    AreEvents stream last events × AreWakes stream last wakes

pub highest-append :
    (n : ℕ) (xs ys : List Arrival) → highest n (xs ++ ys) ≡ highest (highest n xs) ys
unfolding highest
highest-append n [] ys = refl
highest-append n (noise bytes ∷ xs) ys = highest-append n xs ys
highest-append n (packet k ∷ xs) ys = highest-append (if ltb n k then k else n) xs ys

pub highest-le :
    (last n : ℕ) (arrivals : List Arrival)
    → n ≤ last
    → AreArrivals last arrivals
    → highest n arrivals ≤ last
unfolding highest
highest-le last n [] h v = h
highest-le last n (noise bytes ∷ rest) h v = highest-le last n rest h v.1
highest-le last n (packet k ∷ rest) h v =
    highest-le last (if ltb n k then k else n) rest (ground arith) v.1

pub highest-together-le :
    (stream : ℕ → Publication) (last n : ℕ) (events : List (List Arrival))
    → n ≤ last
    → AreEvents stream last events
    → highest n (together events) ≤ last
unfolding together highest
highest-together-le stream last n [] h v = h
highest-together-le stream last n (arrivals ∷ events) h v =
    rw (highest-append n arrivals (together events)) (
      highest-together-le stream last (highest n arrivals) events
        (highest-le last n arrivals h v.0.0) v.1)

pub highest-arrivals_of-le :
    (stream : ℕ → Publication) (last n : ℕ) (wakes : List Wake)
    → n ≤ last
    → AreWakes stream last wakes
    → highest n (arrivals_of wakes) ≤ last
unfolding arrivals_of highest
highest-arrivals_of-le stream last n [] h v = h
highest-arrivals_of-le stream last n (signal ∷ wakes) h v =
    highest-arrivals_of-le stream last n wakes h v
highest-arrivals_of-le stream last n (arrived events ∷ wakes) h v =
    rw (highest-append n (together events) (arrivals_of wakes)) (
      highest-arrivals_of-le stream last (highest n (together events)) wakes
        (highest-together-le stream last n events h v.0) v.1)

-- Packet `k` is among the arrivals.
abbrev pub Comes : ℕ → List Arrival → Type 0
Comes k [] = ⊥
Comes k (noise bytes ∷ rest) = Comes k rest
Comes k (packet j ∷ rest) = (j ≡ k) ⊎ Comes k rest

le-highest : (n : ℕ) (arrivals : List Arrival) → n ≤ highest n arrivals
unfolding highest
le-highest n [] = omega arith
le-highest n (noise bytes ∷ rest) = le-highest n rest
le-highest n (packet k ∷ rest) =
    let up : n ≤ (if ltb n k then k else n) = ground arith in
    omega (arith, up, le-highest (if ltb n k then k else n) rest)

pub Comes-highest : (k n : ℕ) (arrivals : List Arrival) → Comes k arrivals → k ≤ highest n arrivals
unfolding highest
Comes-highest k n [] c = absurd c
Comes-highest k n (noise bytes ∷ rest) c = Comes-highest k n rest c
Comes-highest k n (packet j ∷ rest) (inl same) =
    let up : j ≤ (if ltb n j then j else n) = ground arith in
    omega (arith, up, le-highest (if ltb n j then j else n) rest)
Comes-highest k n (packet j ∷ rest) (inr later) =
    Comes-highest k (if ltb n j then j else n) rest later
