-- ===== src/Feed/Cut.antt =====
-- What the handler makes of a datagram while no request for packets is answered.
use binary_market_data_feed.Prelude.{
  ℕ, suc, ◌+◌, ◌^◌, ◌≤◌, ◌<◌, ◌≡◌, refl, inl, inr, ◌⊎◌, none, [], ◌∷◌, le→ltb, err,
}
use binary_market_data_feed.Feed.{recovery_failed, Feed, Setup, request_replay, receive_datagram}
use binary_market_data_feed.Feed.Stream.{
  Publication, book_upto, IsPublication, At, Ends, limit_reached_off,
}
use binary_market_data_feed.Feed.Delivery.{
  Arrival, datagram, IsArrival, highest, buffer_packet_ahead, receive_arrival_by,
}

-- No request is answered: the connection fails, or there is no server.
abbrev pub IsCut : Setup → Type 0
IsCut setup = (requests a b : ℕ) → setup.request_packets requests a b ≡ none

cut_request :
    (setup : Setup) (n j : ℕ) (s : Feed)
    → setup.messages ≡ 0
    → IsCut setup
    → n < j
    → request_replay setup (suc n) j s ≡ err recovery_failed
unfolding request_replay
cut_request setup n j s unlimited cut gap =
    rw (le→ltb j (suc n) gap, limit_reached_off setup unlimited s, cut s.replay_requests (suc n) j)
      refl

module _ (setup : Setup) (unlimited : setup.messages ≡ 0) (stream : ℕ → Publication) (last : ℕ)
    (published : (k : ℕ) → k ≤ last → IsPublication (stream k)) (room : last + 1 < 2 ^ 32)
    (cut : IsCut setup) where
  -- It goes as with a server, or the program ends with the exception of the recovery client.
  pub receive_arrival_cut :
      (n : ℕ) (a : Arrival) (s : Feed)
      → n ≤ last
      → IsArrival last a
      → At s (book_upto stream n) [] (suc n)
      → let m = highest n (a ∷ []) in
        let r = receive_datagram setup (datagram stream a) s in
        Ends r (book_upto stream m) [] (suc m) ⊎ (r ≡ err recovery_failed)
  receive_arrival_cut =
      receive_arrival_by setup unlimited stream last published room
        (λ r m. Ends r (book_upto stream m) [] (suc m) ⊎ (r ≡ err recovery_failed))
        (λ r m ends. inl ends)
        (λ n j s gap h at. inr (
          buffer_packet_ahead setup unlimited stream last published room
            (λ r. r ≡ err recovery_failed) n j s h at
            (λ at'. cut_request setup n j _ unlimited cut gap)))
