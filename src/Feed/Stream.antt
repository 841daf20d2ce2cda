-- ===== src/Feed/Stream.antt =====
-- A stream of published packets, and the handler's progress along it: how many packets are applied,
-- with which book. The limit on messages is off (`--messages 0`).
use binary_market_data_feed.Prelude.{
  ℕ, zero, suc, ◌+◌, ◌^◌, ◌≤◌, ◌<◌, ◌≡◌, refl, ap, some, List, [], ◌∷◌, map, arith, Bool, true,
  false, ◌==◌, if◌then◌else◌, length, get_elem?, All, Result, ok, ◌>>=◌,
}
use binary_market_data_feed.Map.{Map}
use binary_market_data_feed.Wire.Structs.{Message, MessageView, view_of}
use binary_market_data_feed.Wire.Layout.{IsMessage}
use binary_market_data_feed.Wire.Packet.{PacketView, message_at}
use binary_market_data_feed.Wire.Packet.RoundTrip.{IsParsable, packet_image}
use binary_market_data_feed.Book.{OrderBook, empty_book, update, apply}
use binary_market_data_feed.Book.Run.{update_all}
use binary_market_data_feed.Feed.{
  PacketSource, live, replay, drain, FeedError, Feed, Setup, limit_reached, sample_bbo,
  apply_message, apply_messages, finish_packet,
}

pub record Publication : Type 0 where
  pub messages : List Message
  pub publish_tsc : ℕ

-- The datagram of a published packet; packets are numbered from 1.
unfoldable pub image_of : (ℕ → Publication) → ℕ → List ℕ
image_of stream k = packet_image k (stream k).messages (stream k).publish_tsc

abbrev pub views_of : Publication → List MessageView
views_of p = map view_of p.messages

-- The book that the first `n` packets make.
unfoldable pub book_upto : (ℕ → Publication) → ℕ → OrderBook
book_upto stream zero = empty_book
book_upto stream (suc n) = update_all (book_upto stream n) (views_of (stream (suc n)))

-- Each packet can be serialized and read back.
pub record IsPublication (p : Publication) : Type 0 where
  pub fits : All IsMessage p.messages
  pub parsable : All IsParsable p.messages
  pub few : length p.messages ≤ 65535
  pub tsc : p.publish_tsc < 2 ^ 64

-- The state as far as the sequence is concerned.
pub record At (s : Feed) (book : OrderBook) (buffer : Map (List ℕ)) (seq : ℕ) : Type 0 where
  pub book_is : s.order_book ≡ book
  pub buffer_is : s.buffered_packets ≡ buffer
  pub seq_is : s.expected_packet_seq ≡ seq

-- A step returns, in such a state.
abbrev pub Ends : Result FeedError Feed → OrderBook → Map (List ℕ) → ℕ → Type 0
Ends r book buffer seq = (s : Feed) × (r ≡ ok s) × At s book buffer seq

pub Ends-bind :
    {r : Result FeedError Feed} {f : Feed → Result FeedError Feed} {book book' : OrderBook}
    {buffer buffer' : Map (List ℕ)} {seq seq' : ℕ}
    → Ends r book buffer seq
    → ((s : Feed) → At s book buffer seq → Ends (f s) book' buffer' seq')
    → Ends (r >>= f) book' buffer' seq'
Ends-bind (s, e, a) k = rw e (k s a)

-- From `index` on the packet shows these messages.
abbrev pub Covers : PacketView → ℕ → List Message → Type 0
Covers packet index ms =
    (i : ℕ) (m : Message)
    → get_elem? ms i ≡ some m
    → message_at packet (index + i) ≡ some (view_of m)

At-if :
    (c : Bool) {x y : Feed} {book : OrderBook} {buffer : Map (List ℕ)} {seq : ℕ}
    → At x book buffer seq
    → At y book buffer seq
    → At (if c then x else y) book buffer seq
At-if true a b = a
At-if false a b = b

module _ (setup : Setup) (unlimited : setup.messages ≡ 0) where
  pub limit_reached_off : (s : Feed) → limit_reached setup s ≡ false
  unfolding limit_reached
  limit_reached_off s = rw unlimited

  sample_bbo-At :
      (publish_tsc : ℕ) (s : Feed) (book : OrderBook) (buffer : Map (List ℕ)) (seq : ℕ)
      → At s book buffer seq
      → At (sample_bbo setup publish_tsc s) book buffer seq
  unfolding sample_bbo
  sample_bbo-At publish_tsc s book buffer seq a =
      At-if (publish_tsc == 0)
        (record { book_is = a.book_is; buffer_is = a.buffer_is; seq_is = a.seq_is })
        (record { book_is = a.book_is; buffer_is = a.buffer_is; seq_is = a.seq_is })

  apply_message-At :
      (publish_tsc : ℕ) (message : MessageView) (s : Feed) (book : OrderBook)
      (buffer : Map (List ℕ)) (seq : ℕ)
      → At s book buffer seq
      → At (apply_message setup publish_tsc message s) (update book message) buffer seq
  unfolding apply_message apply
  apply_message-At publish_tsc message s book buffer seq a =
      let applied : Feed = record s {
        order_book = update s.order_book message;
        received_messages = s.received_messages + 1;
      } in
      let at : At applied (update book message) buffer seq = record {
        book_is = ap (λ (b : OrderBook). update b message) a.book_is;
        buffer_is = a.buffer_is;
        seq_is = a.seq_is;
      } in
      At-if _ (sample_bbo-At publish_tsc applied (update book message) buffer seq at) at

  apply_messages_step :
      (source : PacketSource) (packet : PacketView) (k publish_tsc left index : ℕ)
      (message : MessageView) (s : Feed)
      → message_at packet index ≡ some message
      → apply_messages setup source packet k publish_tsc (suc left) index s
        ≡ apply_messages setup source packet k publish_tsc left
            (index + 1)
            (apply_message setup publish_tsc message s)
  unfolding apply_messages
  apply_messages_step source packet k publish_tsc left index message s e =
      ground (arith, e, limit_reached_off (apply_message setup publish_tsc message s))

  pub apply_messages_all :
      (source : PacketSource) (packet : PacketView) (k publish_tsc index : ℕ) (ms : List Message)
      (s : Feed) (book : OrderBook) (buffer : Map (List ℕ)) (seq : ℕ)
      → Covers packet index ms
      → At s book buffer seq
      → Ends
          (apply_messages setup source packet k publish_tsc (length ms) index s)
          (update_all book (map view_of ms))
          buffer
          seq
  unfolding apply_messages update_all
  apply_messages_all source packet k publish_tsc index [] s book buffer seq c a = (s, refl, a)
  apply_messages_all source packet k publish_tsc index (m ∷ ms) s book buffer seq c a =
      let first : message_at packet index ≡ some (view_of m) =
        let e : index + 0 ≡ index = omega arith in rw e at (c 0 m refl) in
      let s' = apply_message setup publish_tsc (view_of m) s in
      let rest =
        apply_messages_all source packet k publish_tsc (index + 1) ms s' (update book (view_of m))
          buffer seq
          (λ i x e.
            let shift : index + suc i ≡ index + 1 + i = omega arith in rw shift at (c (suc i) x e))
          (apply_message-At publish_tsc (view_of m) s book buffer seq a) in
      rw (apply_messages_step source packet k publish_tsc (length ms) index (view_of m) s first)
        rest

  -- The state after the packet's messages, at the end of the packet.
  pub finish_packet-At :
      (source : PacketSource) (n publish_tsc : ℕ) (s : Feed) (book : OrderBook)
      (buffer : Map (List ℕ)) (seq : ℕ)
      → n + 1 < 2 ^ 32
      → At s book buffer seq
      → At (finish_packet setup source n publish_tsc s) book buffer (suc n)
  unfolding finish_packet
  finish_packet-At live n publish_tsc s book buffer seq h a = record {
    book_is = a.book_is;
    buffer_is = a.buffer_is;
    seq_is = omega arith;
  }
  finish_packet-At replay n publish_tsc s book buffer seq h a = record {
    book_is = a.book_is;
    buffer_is = a.buffer_is;
    seq_is = omega arith;
  }
  finish_packet-At drain n publish_tsc s book buffer seq h a = record {
    book_is = a.book_is;
    buffer_is = a.buffer_is;
    seq_is = omega arith;
  }
