-- ===== src/System/Composition.antt =====
-- What exchange_sim publishes, feed_handler applies.
use binary_market_data_feed.Prelude.{
  ℕ, ◌+◌, ◌*◌, ◌^◌, ◌<◌, ◌≡◌, ◌∙◌, subst, none, List, [], map, arith, length, ok,
}
use binary_market_data_feed.Wire.Structs.{buy, sell}
use binary_market_data_feed.Book.{bbo}
use binary_market_data_feed.Book.Run.{spec_all}
use binary_market_data_feed.Book.Spec.{orders_of}
use binary_market_data_feed.Book.Quotes.{IsBest}
use binary_market_data_feed.History.{lookup_range}
use binary_market_data_feed.Feed.{Feed, Setup, start}
use binary_market_data_feed.Feed.Loop.{run}
use binary_market_data_feed.Feed.Stream.{Publication}
use binary_market_data_feed.Feed.Wakes.{Wake, arrivals_of, outcome_of, AreWakes, Comes}
use binary_market_data_feed.Feed.Catchup.{run_catches_up}
use binary_market_data_feed.Simulator.Options.{Options}
use binary_market_data_feed.Simulator.Publisher.{Publisher}
use binary_market_data_feed.Simulator.Published.{stream_of}
use binary_market_data_feed.Simulator.Rounds.{HasPublished}
use binary_market_data_feed.Simulator.Session.{IsSensible, length-le-messages_in}
use binary_market_data_feed.Simulator.Publisher.{World, publish}
use binary_market_data_feed.Simulator.Published.{all_publications}
use binary_market_data_feed.Simulator.Rounds.{IsWorld}
use binary_market_data_feed.Simulator.Session.{publish_lem}
use binary_market_data_feed.System.{
  answer_of, all_views, stream_of-IsPublication, history-Answers, book_upto-stream_of, IsBookOf,
  book-IsBookOf,
}

-- The theorem below, by what the publishing loop leaves.
applied_lem :
    (o : Options) (ps : List Publication) (p : Publisher) (setup : Setup) (wakes : List Wake)
    → HasPublished o ps p
    → p.emitted_messages * 250 < 2 ^ 32
    → setup.messages ≡ 0
    → ((requests a b : ℕ)
        → setup.request_packets requests a b ≡ answer_of (lookup_range p.packet_history a b))
    → AreWakes (stream_of ps) (length ps) wakes
    → Comes (length ps) (arrivals_of wakes)
    → (s : Feed) × (run setup (map (outcome_of (stream_of ps)) wakes) start ≡ ok s)
      × (s.buffered_packets ≡ [])
      × IsBookOf ps s.order_book
applied_lem o ps p setup wakes h few unlimited replies arrives comes =
    let packets = length-le-messages_in ps h.packets in
    let room : length ps + 1 < 2 ^ 32 = omega (arith, packets, h.emitted) in
    let (s, e, a) =
      run_catches_up setup unlimited (stream_of ps) (length ps)
        (λ k below. stream_of-IsPublication ps h.packets k) room
        (history-Answers setup p.packet_history (stream_of ps) (length ps) h.history (omega arith)
          replies)
        wakes arrives comes in
    (
      s,
      e,
      a.buffer_is,
      book-IsBookOf ps s.order_book h.packets (omega (arith, h.emitted))
          (a.book_is ∙ book_upto-stream_of ps),
    )

ok-HasPublished :
    (world : World) (o : Options) (p : Publisher)
    → IsWorld world
    → IsSensible o
    → publish world o ≡ ok p
    → HasPublished o (all_publications world o) p × (p.emitted_messages ≡ o.messages)
ok-HasPublished world o p fine sensible e =
    let (q, e', h, all) = publish_lem world o fine sensible in
    let same : q ≡ p = cc in
    subst
      (λ (x : Publisher).
        HasPublished o (all_publications world o) x × (x.emitted_messages ≡ o.messages))
      same (h, all)

-- The publishing loop, with 1 to 42 messages per packet and so few messages that 250 for each stay below
-- 2 ^ 32, and a feed handler whose requests are answered from the history that the loop leaves. If the
-- network delivers what it likes of the published packets, in any order and with anything beside them
-- that is no packet, and at some time the last packet, then the handler never throws and keeps nothing
-- buffered; its live orders are those that the specification without levels makes of all messages of
-- the generator, each once and in order, and its best bid and ask are the best prices of these orders,
-- with the quantities there. The limit on messages is off, the datagrams fit the receive buffer, random
-- numbers keep their bounds, the clock has 64 bits, and ::sendto sends each datagram whole.
pub published_then_applied :
    (world : World) (o : Options) (p : Publisher) (setup : Setup) (wakes : List Wake)
    → IsWorld world
    → IsSensible o
    → publish world o ≡ ok p
    → o.messages * 250 < 2 ^ 32
    → setup.messages ≡ 0
    → ((requests a b : ℕ)
        → setup.request_packets requests a b ≡ answer_of (lookup_range p.packet_history a b))
    → let ps = all_publications world o in
      AreWakes (stream_of ps) (length ps) wakes
      → Comes (length ps) (arrivals_of wakes)
      → (s : Feed) × (run setup (map (outcome_of (stream_of ps)) wakes) start ≡ ok s)
        × (s.buffered_packets ≡ [])
        × ((id : ℕ) → orders_of s.order_book id ≡ spec_all (λ _. none) (all_views ps) id)
        × IsBest buy (λ x y. x < y) s.order_book (bbo s.order_book).best_bid
        × IsBest sell (λ x y. y < x) s.order_book (bbo s.order_book).best_ask
published_then_applied world o p setup wakes fine sensible e few unlimited replies arrives comes =
    let (h, all) = ok-HasPublished world o p fine sensible e in
    let (s, e', empty, book) =
      applied_lem o (all_publications world o) p setup wakes h (omega arith) unlimited replies
        arrives comes in
    (s, e', empty, book.0, book.1, book.2)
