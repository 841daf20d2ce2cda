-- ===== src/System/Interleaving/Numbers.antt =====
-- The sequence numbers of datagrams, and which datagrams are sent.
use binary_market_data_feed.Prelude.{
  ℕ, zero, suc, ◌^◌, ◌≤◌, ◌<◌, ◌≡◌, refl, inl, inr, Bool-cases, some, List, [], ◌∷◌, ◌++◌, arith,
  ltb, if◌then◌else◌, length, get_elem?, get_elem?-append,
}
use binary_market_data_feed.Wire.Fields.{decode-make_packet_header}
use binary_market_data_feed.Feed.Stream.{Publication, IsPublication, image_of}
use binary_market_data_feed.Feed.Sequence.{parsed_image}
use binary_market_data_feed.Feed.Delivery.{Arrival, noise, packet, datagram, IsArrival, highest}
use binary_market_data_feed.Simulator.Publisher.{should_skip}
use binary_market_data_feed.Simulator.Published.{sent_upto}
use binary_market_data_feed.System.Interleaving.{number_of, highest_number}

pub highest_number-append :
    (n : ℕ) (xs ys : List (List ℕ))
    → highest_number n (xs ++ ys) ≡ highest_number (highest_number n xs) ys
unfolding highest_number
highest_number-append n [] ys = refl
highest_number-append n (bytes ∷ xs) ys =
    highest_number-append (if ltb n (number_of bytes) then number_of bytes else n) xs ys

-- What is sent is the image of a packet that was published.
pub sent_upto-elem :
    (skip_every : ℕ) (stream : ℕ → Publication) (n i : ℕ) (bytes : List ℕ)
    → get_elem? (sent_upto skip_every stream n) i ≡ some bytes
    → (k : ℕ) × (suc k ≤ n) × (bytes ≡ image_of stream (suc k))
unfolding sent_upto
sent_upto-elem skip_every stream zero i bytes e = cc
sent_upto-elem skip_every stream (suc n) i bytes e =
    elim (Bool-cases (should_skip skip_every (suc n))) [
      | inl skipped ↦
          let (k, below, same) = sent_upto-elem skip_every stream n i bytes (rw skipped at e) in
          (k, omega arith, same)
      | inr kept ↦
          elim (get_elem?-append (sent_upto skip_every stream n) _ i bytes (rw kept at e)) [
            | inl before ↦
                let (k, below, same) = sent_upto-elem skip_every stream n i bytes before in
                (k, omega arith, same)
            | inr (j, last) ↦ (n, omega arith, only j last)
          ]
    ]
  where
    only :
        (j : ℕ)
        → get_elem? (image_of stream (suc n) ∷ []) j ≡ some bytes
        → bytes ≡ image_of stream (suc n)
    only zero e = cc
    only (suc j) e = cc

pub number_of-image :
    (stream : ℕ → Publication) (k : ℕ)
    → k < 2 ^ 32
    → IsPublication (stream k)
    → number_of (image_of stream k) ≡ k
unfolding number_of
number_of-image stream k small p =
    rw (parsed_image stream k p, number_of)
      (decode-make_packet_header k (length (stream k).messages) (stream k).publish_tsc small
        (omega (arith, p.few)) p.tsc).0

-- The number that the handler's proof counts is that of the datagram.
pub highest-datagram :
    (stream : ℕ → Publication) (n last : ℕ) (a : Arrival)
    → ((k : ℕ) → IsPublication (stream k))
    → last < 2 ^ 32
    → IsArrival last a
    → highest n (a ∷ []) ≡ highest_number n (datagram stream a ∷ [])
unfolding highest highest_number datagram
highest-datagram stream n last (noise bytes) published small v =
    let none_there : number_of bytes ≡ 0 = rw (v, number_of) refl in rw none_there (ground arith)
highest-datagram stream n last (packet k) published small v =
    rw (number_of-image stream k (omega (arith, v.1)) (published k)) refl
