-- ===== src/Recovery/Conversation.antt =====
-- A connection on which no call fails, with enough outcomes for what is to be read and sent.
use binary_market_data_feed.Prelude.{
  ℕ, ◌+◌, ◌≤◌, ◌≡◌, refl, ap, ◌∙◌, some, List, ◌++◌, arith, length, take, drop, length-append,
  take-append, drop-append, ok,
}
use binary_market_data_feed.Channel.{Socket, send_all, recv_exact_or_eof}
use binary_market_data_feed.Channel.Transfer.{
  readies, transfers, IsUp, IsOpen, recv_exact_or_eof-all, send_all-all,
}

-- The peer sends `incoming`, we have sent `sent`; at least `r` calls of ::recv and `t` of ::send
-- transfer bytes.
pub record Connected (s : Socket) (incoming sent : List ℕ) (r t : ℕ) : Type 0 where
  pub incoming_is : s.incoming ≡ incoming
  pub sent_is : s.sent ≡ sent
  pub up : IsUp s.recv_outcomes
  pub open_out : IsOpen s.send_outcomes
  pub reads : r ≤ readies s.recv_outcomes
  pub sends : t ≤ transfers s.send_outcomes

pub recv_next :
    (s : Socket) (bytes rest sent : List ℕ) (r t : ℕ)
    → Connected s (bytes ++ rest) sent (length bytes + r) t
    → (s' : Socket) × (recv_exact_or_eof (length bytes) s ≡ ok (some bytes, s'))
      × Connected s' rest sent r t
recv_next s bytes rest sent r t c =
    let long : length bytes ≤ length s.incoming =
      omega (arith, ap length c.incoming_is, length-append bytes rest) in
    let (left, e, up, used) =
      recv_exact_or_eof-all (length bytes) s c.up (omega (arith, c.reads)) long in
    let front : take (length bytes) s.incoming ≡ bytes =
      rw c.incoming_is (take-append (length bytes) bytes rest refl) in
    let back : drop (length bytes) s.incoming ≡ rest =
      rw c.incoming_is (drop-append (length bytes) bytes rest refl) in
    let s' : Socket = record s {
      incoming = drop (length bytes) s.incoming;
      recv_outcomes = left;
    } in
    (
      s',
      e ∙ ap (λ (b : List ℕ). ok (some b, s')) front,
      record {
        incoming_is = back;
        sent_is = c.sent_is;
        up = up;
        open_out = c.open_out;
        reads = omega (arith, c.reads, used);
        sends = c.sends;
      },
    )

pub send_next :
    (s : Socket) (bytes incoming sent : List ℕ) (r t : ℕ)
    → Connected s incoming sent r (length bytes + t)
    → (s' : Socket) × (send_all bytes s ≡ ok s') × Connected s' incoming (sent ++ bytes) r t
send_next s bytes incoming sent r t c =
    let (left, e, open_left, used) = send_all-all bytes s c.open_out (omega (arith, c.sends)) in
    (
      record s { sent = s.sent ++ bytes; send_outcomes = left },
      e,
      record {
        incoming_is = c.incoming_is;
        sent_is = ap (λ (b : List ℕ). b ++ bytes) c.sent_is;
        up = c.up;
        open_out = open_left;
        reads = c.reads;
        sends = omega (arith, c.sends, used);
      },
    )

pub fewer :
    (s : Socket) (incoming sent : List ℕ) (r t r' t' : ℕ)
    → Connected s incoming sent r t
    → r' ≤ r
    → t' ≤ t
    → Connected s incoming sent r' t'
fewer s incoming sent r t r' t' c h k = record {
  incoming_is = c.incoming_is;
  sent_is = c.sent_is;
  up = c.up;
  open_out = c.open_out;
  reads = omega (arith, c.reads);
  sends = omega (arith, c.sends);
}
