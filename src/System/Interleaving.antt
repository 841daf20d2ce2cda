-- ===== src/System/Interleaving.antt =====
-- exchange_sim and feed_handler at the same time: rounds of the publishing loop between the datagrams
-- that the handler receives. The network delivers any datagram that was sent, at any time after, again
-- or never, and also what is no packet. A request for packets is answered from the history as it is
-- then: store and lookup_range hold one mutex, so a lookup stands between two rounds. At any datagram
-- the recovery channel may also be cut, so that no request is answered.
pub mod Numbers
pub mod Invariant
pub mod Running
pub mod Correct
pub mod Progress
mod Examples
use binary_market_data_feed.Prelude.{
  ℕ, ◌<◌, ◌≡◌, Bool, true, false, Option, none, some, List, [], ◌∷◌, ◌++◌, ltb, if◌then◌else◌,
  get_elem?, Result, ok,
}
use binary_market_data_feed.Wire.Structs.{PacketHeader, decode_seq_num}
use binary_market_data_feed.Wire.Packet.{PacketView, parse_packet}
use binary_market_data_feed.History.{lookup_range}
use binary_market_data_feed.Feed.{FeedError, Feed, Setup, start, receive_datagram}
use binary_market_data_feed.Simulator.Options.{Options}
use binary_market_data_feed.Simulator.Publisher.{
  PublishError, Publisher, World, new_publisher, publish_packet,
}
use binary_market_data_feed.System.{answer_of}

-- `publisher` and `handler` are the states of the two mains, or what each has thrown; `received` are
-- the datagrams that the handler has got, and `cut` says whether the recovery channel was cut at one of
-- them.
pub record State : Type 0 where
  pub publisher : Result PublishError Publisher
  pub handler : Result FeedError Feed
  pub received : List (List ℕ)
  pub cut : Bool

abbrev pub initial : State
initial = record { publisher = ok new_publisher; handler = ok start; received = []; cut = false }

-- The handler's surroundings: no limit on messages, and a recovery server with this history, or none.
abbrev pub setup_with : Setup → Bool → Publisher → Setup
setup_with setup connected p = record setup {
  messages = 0;
  request_packets =
      λ requests a b. if connected then answer_of (lookup_range p.packet_history a b) else none;
}

-- The handler gets a datagram.
abbrev pub gets : Setup → State → Bool → Publisher → Feed → List ℕ → State
gets setup s connected p f bytes = record s {
  handler = receive_datagram (setup_with setup connected p) bytes f;
  received = s.received ++ bytes ∷ [];
  cut = if connected then s.cut else true;
}

module _ (world : World) (o : Options) (setup : Setup) where
  pub data Step : State → State → Type 0 where
    publishes :
        (s : State) (p : Publisher)
        → s.publisher ≡ ok p
        → p.emitted_messages < o.messages
        → Step s (record s { publisher = publish_packet world o p })
    delivers :
        (s : State) (connected : Bool) (p : Publisher) (f : Feed) (i : ℕ) (bytes : List ℕ)
        → s.publisher ≡ ok p
        → s.handler ≡ ok f
        → get_elem? p.datagrams i ≡ some bytes
        → Step s (gets setup s connected p f bytes)
    disturbs :
        (s : State) (connected : Bool) (p : Publisher) (f : Feed) (bytes : List ℕ)
        → s.publisher ≡ ok p
        → s.handler ≡ ok f
        → parse_packet bytes ≡ none
        → Step s (gets setup s connected p f bytes)

  pub data Reach (from : State) : State → Type 0 where
    begin : Reach from from
    next : {s t : State} → Reach from s → Step s t → Reach from t

-- The sequence number of a datagram, 0 where it is no packet.
unfoldable pub number_of : List ℕ → ℕ
number_of bytes = elim (parse_packet bytes) [
  | none ↦ 0
  | some packet ↦ elim packet.header [ none ↦ 0 | some header ↦ decode_seq_num header ]
]

-- The highest sequence number among datagrams, or `n`.
unfoldable pub highest_number : ℕ → List (List ℕ) → ℕ
unfolding number_of
highest_number n [] = n
highest_number n (bytes ∷ rest) =
    highest_number (if ltb n (number_of bytes) then number_of bytes else n) rest
