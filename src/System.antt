-- ===== src/System.antt =====
-- exchange_sim and feed_handler together: what is published, over a network that loses, repeats and
-- reorders, with the recovery server's history for the gaps.
mod Examples
pub mod Composition
pub mod LiveOrders
pub mod Interleaving
use binary_market_data_feed.Prelude.{
  ℕ, zero, suc, ◌+◌, ◌-◌, ◌*◌, ◌^◌, ◌≤◌, ◌<◌, ◌≡◌, refl, sym, ap, ◌∙◌, subst, Option, none, some,
  List, [], ◌∷◌, ◌++◌, map, append_assoc, append-nil, arith, get_or, length, length-append, All,
  All-append, ok,
}
use binary_market_data_feed.Wire.Structs.{Message, MessageView, view_of, buy, sell}
use binary_market_data_feed.Wire.Packet.RoundTrip.{length-packet_image}
use binary_market_data_feed.Book.{OrderBook, empty_book, update, bbo}
use binary_market_data_feed.Book.Handlers.{IsNonzeroAdd}
use binary_market_data_feed.Book.Run.{update_all, spec_all, book_correct}
use binary_market_data_feed.Book.Spec.{orders_of}
use binary_market_data_feed.Book.Quotes.{IsBest}
use binary_market_data_feed.Book.Small.{SetsAtMost, small-IsAdmissible}
use binary_market_data_feed.Map.{size}
use binary_market_data_feed.History.{PacketHistory, Loop, returned, running, lookup_range}
use binary_market_data_feed.History.Lookup.{stored, lookup_range_lem}
use binary_market_data_feed.Feed.{Feed, Setup, start}
use binary_market_data_feed.Feed.Loop.{run}
use binary_market_data_feed.Feed.Stream.{Publication, IsPublication, image_of, book_upto}
use binary_market_data_feed.Feed.Sequence.{range}
use binary_market_data_feed.Feed.Answers.{history_upto, stored-history_upto}
use binary_market_data_feed.Feed.Delivery.{Answers}
use binary_market_data_feed.Feed.Wakes.{Wake, arrivals_of, outcome_of, AreWakes, Comes}
use binary_market_data_feed.Feed.Catchup.{run_catches_up}
use binary_market_data_feed.Simulator.Options.{Options}
use binary_market_data_feed.Simulator.Publisher.{Publisher}
use binary_market_data_feed.Simulator.Published.{stream_of, messages_in, no_publication}
use binary_market_data_feed.Simulator.Batches.{IsSmall}
use binary_market_data_feed.Simulator.Rounds.{IsPacketOf, HasPublished}
use binary_market_data_feed.Simulator.Session.{IsSensible, length-le-messages_in}

-- What the recovery client gets of the server's lookup.
unfoldable pub answer_of : Loop (List (List ℕ)) → Option (List (List ℕ))
answer_of (returned packets) = some packets
answer_of running = none

-- All published messages, in order.
unfoldable pub all_views : List Publication → List MessageView
all_views [] = []
all_views (p ∷ ps) = map view_of p.messages ++ all_views ps

pub stream_of-IsPublication :
    (ps : List Publication) → All IsPacketOf ps → (k : ℕ) → IsPublication (stream_of ps k)
unfolding stream_of
stream_of-IsPublication ps h k = at ps h (k - 1)
  where
    at :
        (ps : List Publication)
        → All IsPacketOf ps
        → (i : ℕ) → IsPublication (get_or ps i no_publication)
    at [] h i = record { fits = tt; parsable = tt; few = omega arith; tsc = omega arith }
    at (p ∷ ps) h zero = h.0.publication
    at (p ∷ ps) h (suc i) = at ps h.1 i

pub history-Answers :
    (setup : Setup) (h : PacketHistory) (stream : ℕ → Publication) (last : ℕ)
    → h ≡ history_upto stream last
    → last < 2 ^ 32
    → ((requests a b : ℕ) → setup.request_packets requests a b ≡ answer_of (lookup_range h a b))
    → Answers setup stream last
unfolding answer_of
history-Answers setup h stream last same room replies requests a b l order below =
    let count : b + 1 - a ≡ b - a + 1 = omega arith in
    let found : lookup_range h a b ≡ returned (range stream a (b - a + 1)) =
      lookup_range_lem h a b (omega arith)
      ∙ ap returned (
          (λ i. stored (same i) a (count i))
          ∙ stored-history_upto stream last a (b - a + 1) l (omega arith)) in
    replies requests a b ∙ ap answer_of found

update_all-append :
    (b : OrderBook) (ms ns : List MessageView)
    → update_all b (ms ++ ns) ≡ update_all (update_all b ms) ns
unfolding update_all
update_all-append b [] ns = refl
update_all-append b (m ∷ ms) ns = update_all-append (update b m) ms ns

-- The book goes through the messages of the next packets.
pub book_upto-add :
    (stream : ℕ → Publication) (n : ℕ) (ps : List Publication)
    → ((i : ℕ) → i < length ps → stream (suc (n + i)) ≡ get_or ps i no_publication)
    → book_upto stream (n + length ps) ≡ update_all (book_upto stream n) (all_views ps)
unfolding update_all all_views book_upto
book_upto-add stream n [] same = let e : n + 0 ≡ n = omega arith in rw e
book_upto-add stream n (p ∷ ps) same =
    let e : n + suc (length ps) ≡ suc n + length ps = omega arith in
    let first : stream (suc n) ≡ p =
      let z : n + 0 ≡ n = omega arith in rw z at (same 0 (omega arith)) in
    rw (e, update_all-append (book_upto stream n) (map view_of p.messages) (all_views ps))
      (book_upto-add stream (suc n) ps (λ i below.
          let shift : n + suc i ≡ suc n + i = omega arith in
          rw shift at (same (suc i) (omega arith)))
        ∙ ap
            (λ (q : Publication).
              update_all (update_all (book_upto stream n) (map view_of q.messages)) (all_views ps))
            first)

pub book_upto-stream_of :
    (ps : List Publication)
    → book_upto (stream_of ps) (length ps) ≡ update_all empty_book (all_views ps)
unfolding stream_of book_upto
book_upto-stream_of ps =
    let e : 0 + length ps ≡ length ps = omega arith in
    rw e at (
      book_upto-add (stream_of ps) 0 ps
        (λ i below. let index : suc (0 + i) - 1 ≡ i = omega arith in rw index refl))

All-views :
    (P : MessageView → Type 0) (ms : List Message)
    → All (λ m. P (view_of m)) ms
    → All P (map view_of ms)
All-views P [] h = tt
All-views P (m ∷ ms) h = (h.0, All-views P ms h.1)

small_views :
    (ms : List Message)
    → All IsSmall ms
    → All (λ m. IsNonzeroAdd (view_of m)) ms × All (λ m. SetsAtMost 250 (view_of m)) ms
small_views [] h = (tt, tt)
small_views (m ∷ ms) h = let (pos, few) = small_views ms h.1 in ((h.0.1, pos), (h.0.2, few))

pub all_views-small :
    (ps : List Publication)
    → All IsPacketOf ps
    → All IsNonzeroAdd (all_views ps) × All (SetsAtMost 250) (all_views ps)
unfolding all_views
all_views-small [] h = (tt, tt)
all_views-small (p ∷ ps) h =
    let (pos, few) = small_views p.messages h.0.small in
    let (pos', few') = all_views-small ps h.1 in
    (
      All-append IsNonzeroAdd (map view_of p.messages) _ (All-views IsNonzeroAdd p.messages pos)
          pos',
      All-append (SetsAtMost 250) (map view_of p.messages) _
          (All-views (SetsAtMost 250) p.messages few) few',
    )

length-map-view_of : (ms : List Message) → length (map view_of ms) ≡ length ms
length-map-view_of [] = refl
length-map-view_of (m ∷ ms) = ap suc (length-map-view_of ms)

pub length-all_views : (ps : List Publication) → length (all_views ps) ≡ messages_in ps
unfolding all_views messages_in
length-all_views [] = refl
length-all_views (p ∷ ps) = omega (
  arith,
  length-append (map view_of p.messages) (all_views ps),
  length-map-view_of p.messages,
  length-all_views ps,
)

-- A book with the live orders that the specification without levels makes of these packets, and with
-- the best prices of these orders.
abbrev pub IsBookOf : List Publication → OrderBook → Type 0
IsBookOf ps b =
    ((id : ℕ) → orders_of b id ≡ spec_all (λ _. none) (all_views ps) id)
    × IsBest buy (λ x y. x < y) b (bbo b).best_bid
    × IsBest sell (λ x y. y < x) b (bbo b).best_ask

pub book-IsBookOf :
    (ps : List Publication) (b : OrderBook)
    → All IsPacketOf ps
    → messages_in ps * 250 < 2 ^ 32
    → b ≡ update_all empty_book (all_views ps)
    → IsBookOf ps b
unfolding size
book-IsBookOf ps b h few same =
    let (pos, small) = all_views-small ps h in
    let total = length-all_views ps in
    let (orders, bid, ask) = book_correct (all_views ps) (
      small-IsAdmissible 250 0 empty_book (all_views ps) pos small (tt, omega arith)
        (omega (arith, total))) in
    subst (IsBookOf ps) (sym same) (orders, bid, ask)
