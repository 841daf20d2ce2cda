-- ===== src/Simulator/Published.antt =====
-- What the publishing loop leaves: a history of all packets, numbered from 1, and the datagrams of those
-- that it does not skip.
use binary_market_data_feed.Prelude.{
  ℕ, zero, suc, ◌+◌, ◌-◌, ◌≤◌, ◌≡◌, refl, sym, ap, List, [], ◌∷◌, ◌++◌, map, arith, min, ltb,
  if◌then◌else◌, length, length-append, get_or, get_or-append_lt, get_or-append_end,
}
use binary_market_data_feed.Wire.Packet.RoundTrip.{packet_image}
use binary_market_data_feed.History.{store}
use binary_market_data_feed.Wire.Structs.{view_of}
use binary_market_data_feed.Book.Run.{update_all}
use binary_market_data_feed.Feed.Stream.{Publication, image_of, book_upto}
use binary_market_data_feed.Feed.Answers.{history_upto}
use binary_market_data_feed.Simulator.Options.{Options}
use binary_market_data_feed.Simulator.Generator.{Generator, new_generator}
use binary_market_data_feed.Simulator.Publisher.{World, should_skip, make_batch}

abbrev pub no_publication : Publication
no_publication = record { messages = []; publish_tsc = 0 }

-- The stream of these packets, the first with number 1.
unfoldable pub stream_of : List Publication → ℕ → Publication
stream_of ps k = get_or ps (k - 1) no_publication

-- The datagrams of the packets up to `n` that are not skipped.
unfoldable pub sent_upto : ℕ → (ℕ → Publication) → ℕ → List (List ℕ)
sent_upto skip_every stream zero = []
sent_upto skip_every stream (suc n) =
    let front = sent_upto skip_every stream n in
    if should_skip skip_every (suc n) then front else front ++ image_of stream (suc n) ∷ []

unfoldable pub messages_in : List Publication → ℕ
messages_in [] = 0
messages_in (p ∷ ps) = length p.messages + messages_in ps

-- Both are made by the packets up to `n` alone.
module _ (f g : ℕ → Publication) where
  abbrev pub Agree : ℕ → Type 0
  Agree n = (k : ℕ) → 1 ≤ k → k ≤ n → f k ≡ g k

  image_of_ext : (k : ℕ) → f k ≡ g k → image_of f k ≡ image_of g k
  unfolding image_of
  image_of_ext k e = ap (λ (p : Publication). packet_image k p.messages p.publish_tsc) e

  history_upto_ext : (n : ℕ) → Agree n → history_upto f n ≡ history_upto g n
  unfolding history_upto
  history_upto_ext zero same = refl
  history_upto_ext (suc n) same =
      let here = image_of_ext (suc n) (same (suc n) (omega arith) (omega arith)) in
      let before = history_upto_ext n (λ k l h. same k l (omega arith)) in
      λ i. store (before i) (suc n) (here i)

  sent_upto_ext : (skip_every n : ℕ) → Agree n → sent_upto skip_every f n ≡ sent_upto skip_every g n
  unfolding sent_upto
  sent_upto_ext skip_every zero same = refl
  sent_upto_ext skip_every (suc n) same =
      let here = image_of_ext (suc n) (same (suc n) (omega arith) (omega arith)) in
      let before = sent_upto_ext skip_every n (λ k l h. same k l (omega arith)) in
      λ i. if should_skip skip_every (suc n) then before i else before i ++ here i ∷ []

  pub book_upto_ext : (n : ℕ) → Agree n → book_upto f n ≡ book_upto g n
  unfolding book_upto
  book_upto_ext zero same = refl
  book_upto_ext (suc n) same =
      let here = same (suc n) (omega arith) (omega arith) in
      let before = book_upto_ext n (λ k l h. same k l (omega arith)) in
      λ i. update_all (before i) (map view_of (here i).messages)

module _ (ps : List Publication) (q : Publication) where
  pub stream_of-snoc : Agree (stream_of ps) (stream_of (ps ++ q ∷ [])) (length ps)
  unfolding stream_of
  stream_of-snoc k l h = sym (get_or-append_lt ps (q ∷ []) (k - 1) no_publication (omega arith))

  stream_of-snoc_last : stream_of (ps ++ q ∷ []) (suc (length ps)) ≡ q
  unfolding stream_of
  stream_of-snoc_last =
      let at_end : suc (length ps) - 1 ≡ length ps = omega arith in
      rw at_end (get_or-append_end ps q no_publication)

  image_of-snoc :
      image_of (stream_of (ps ++ q ∷ [])) (suc (length ps))
      ≡ packet_image (suc (length ps)) q.messages q.publish_tsc
  unfolding image_of
  image_of-snoc =
      ap (λ (p : Publication). packet_image (suc (length ps)) p.messages p.publish_tsc)
        stream_of-snoc_last

  length-snoc_publication : length (ps ++ q ∷ []) ≡ suc (length ps)
  length-snoc_publication = omega (arith, length-append ps (q ∷ []))

  -- One more packet is stored.
  pub history_upto-snoc :
      history_upto (stream_of (ps ++ q ∷ [])) (length (ps ++ q ∷ []))
      ≡ store
          (history_upto (stream_of ps) (length ps))
          (suc (length ps))
          (packet_image (suc (length ps)) q.messages q.publish_tsc)
  unfolding history_upto
  history_upto-snoc =
      let before = sym (history_upto_ext _ _ (length ps) stream_of-snoc) in
      rw length-snoc_publication (λ i. store (before i) (suc (length ps)) (image_of-snoc i))

  -- One more packet is sent, unless it is skipped.
  pub sent_upto-snoc :
      (skip_every : ℕ)
      → sent_upto skip_every (stream_of (ps ++ q ∷ [])) (length (ps ++ q ∷ [])) ≡ (
          let front = sent_upto skip_every (stream_of ps) (length ps) in
          if should_skip skip_every (suc (length ps))
          then front
          else front ++ packet_image (suc (length ps)) q.messages q.publish_tsc ∷ [])
  unfolding sent_upto
  sent_upto-snoc skip_every =
      let before = sym (sent_upto_ext _ _ skip_every (length ps) stream_of-snoc) in
      rw length-snoc_publication (λ i.
        if should_skip skip_every (suc (length ps))
        then before i
        else before i ++ image_of-snoc i ∷ [])

pub messages_in-snoc :
    (ps : List Publication) (q : Publication)
    → messages_in (ps ++ q ∷ []) ≡ messages_in ps + length q.messages
unfolding messages_in
messages_in-snoc [] q = omega arith
messages_in-snoc (p ∷ ps) q = omega (arith, messages_in-snoc ps q)

-- What the options, the random numbers and the clock say is to be published, without any of the
-- transport: batches of the generator's messages, until all are made.
module _ (world : World) (o : Options) where
  unfoldable pub publications : (fuel emitted reads : ℕ) → Generator → List Publication
  unfolding make_batch
  publications zero emitted reads g = []
  publications (suc fuel) emitted reads g =
      let n : ℕ = min o.messages_per_packet (o.messages - emitted) in
      let (batch, g') = make_batch world n g in
      let p : Publication = record { messages = batch; publish_tsc = world.read_tsc reads } in
      let rest = publications fuel (emitted + n) (reads + 1) g' in
      if ltb emitted o.messages then p ∷ rest else []

  unfoldable pub all_publications : List Publication
  unfolding publications
  all_publications = publications (suc o.messages) 0 0 new_generator
