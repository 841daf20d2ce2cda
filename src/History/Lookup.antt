-- ===== src/History/Lookup.antt =====
-- lookup_range returns, at every 32-bit range, the stored packets of the range in ascending order.
use binary_market_data_feed.Prelude.{
  ℕ, zero, suc, ◌+◌, ◌-◌, ◌%◌, ◌^◌, ◌≤◌, ◌<◌, ◌≡◌, refl, sym, ap, ◌∙◌, Option, none, some, List, [],
  ◌∷◌, ◌++◌, append_assoc, append-nil, arith, length, ltb, ◌==◌, Bool-cases, inl, inr, ltb→lt,
  ltb→le, true, le→ltb, le→leb, lt→leb, ==→eq, ==→ne,
}
use binary_market_data_feed.Map.{find}
use binary_market_data_feed.History.{PacketHistory, returned, push_found, lookup_loop, lookup_range}

-- The stored packets among `count` numbers from `seq_num` on.
unfoldable pub stored : PacketHistory → ℕ → ℕ → List (List ℕ)
stored h seq_num zero = []
stored h seq_num (suc count) =
    push_found (find seq_num h.packets) [] ++ stored h (suc seq_num) count

push_found_lem :
    (o : Option (List ℕ)) (packets : List (List ℕ))
    → push_found o packets ≡ packets ++ push_found o []
unfolding push_found
push_found_lem none packets = sym (append-nil packets)
push_found_lem (some packet) packets = refl

regroup :
    (found packets one rest : List (List ℕ))
    → found ≡ packets ++ one
    → found ++ rest ≡ packets ++ (one ++ rest)
regroup found packets one rest e = rw (e, append_assoc)

-- The values of `f` at `count` numbers from `k` on.
unfoldable pub from_to : (ℕ → List ℕ) → ℕ → ℕ → List (List ℕ)
from_to f k zero = []
from_to f k (suc count) = f k ∷ from_to f (suc k) count

module _ (h : PacketHistory) where
  -- With enough fuel the loop returns, also where the range ends at the largest number.
  lookup_loop-returned :
      (rounds fuel seq_num end_seq : ℕ) (packets : List (List ℕ))
      → seq_num + rounds ≡ end_seq + 1
      → end_seq < 2 ^ 32
      → rounds < fuel
      → lookup_loop h fuel seq_num end_seq packets ≡ returned (packets ++ stored h seq_num rounds)
  unfolding lookup_loop stored
  lookup_loop-returned rounds zero seq_num end_seq packets e r f = absurd (omega arith)
  lookup_loop-returned zero (suc fuel) seq_num end_seq packets e r f =
      rw (lt→leb seq_num end_seq (omega arith), append-nil)
  lookup_loop-returned (suc rounds) (suc fuel) seq_num end_seq packets e r f =
      let found = push_found (find seq_num h.packets) packets in
      let here = push_found_lem (find seq_num h.packets) packets in
      rw (le→leb seq_num end_seq (omega arith)) (elim (Bool-cases (seq_num == 2 ^ 32 - 1)) [
        | inl max ↦
            let last : rounds ≡ 0 = omega (arith, ==→eq _ _ max) in
            rw (max, last, append-nil) (ap returned here)
        | inr below ↦
            let next : (seq_num + 1) % 2 ^ 32 ≡ suc seq_num = omega (arith, ==→ne _ _ below) in
            rw (below, next)
              (lookup_loop-returned rounds fuel (suc seq_num) end_seq found (omega arith) r
                  (omega arith)
                ∙ ap returned (regroup found packets _ _ here))
      ])

  pub lookup_range-returned :
      (start_seq end_seq : ℕ)
      → start_seq ≤ end_seq
      → end_seq < 2 ^ 32
      → lookup_range h start_seq end_seq ≡ returned (stored h start_seq (end_seq - start_seq + 1))
  unfolding lookup_range
  lookup_range-returned start_seq end_seq order r = rw (le→ltb end_seq start_seq order) (
      lookup_loop-returned (end_seq - start_seq + 1) (end_seq - start_seq + 2) start_seq end_seq []
        (omega arith) r (omega arith))

empty_range :
    (h : PacketHistory) (start_seq end_seq : ℕ)
    → ltb end_seq start_seq ≡ true
    → lookup_range h start_seq end_seq ≡ returned (stored h start_seq 0)
unfolding lookup_range stored
empty_range h start_seq end_seq e = rw e

-- lookup_range returns at every 32-bit range, the ones that end at the largest number included: with
-- nothing if the range is empty, and otherwise with the stored packets of the range in ascending
-- order, each once.
pub lookup_range_lem :
    (h : PacketHistory) (start_seq end_seq : ℕ)
    → end_seq < 2 ^ 32
    → lookup_range h start_seq end_seq ≡ returned (stored h start_seq (end_seq + 1 - start_seq))
lookup_range_lem h start_seq end_seq r = elim (Bool-cases (ltb end_seq start_seq)) [
  | inl none_asked ↦
      let nothing : end_seq + 1 - start_seq ≡ 0 = omega (arith, ltb→lt _ _ none_asked) in
      rw nothing (empty_range h start_seq end_seq none_asked)
  | inr some_asked ↦
      let order : start_seq ≤ end_seq = ltb→le _ _ some_asked in
      let count : end_seq + 1 - start_seq ≡ end_seq - start_seq + 1 = omega arith in
      rw count (lookup_range-returned h start_seq end_seq order r)
]

-- A range of which every packet is stored comes back whole: the packet at each place is that of its
-- number.
pub stored_all :
    (h : PacketHistory) (f : ℕ → List ℕ) (seq_num count : ℕ)
    → ((i : ℕ) → i < count → find (seq_num + i) h.packets ≡ some (f (seq_num + i)))
    → stored h seq_num count ≡ from_to f seq_num count
unfolding stored push_found from_to
stored_all h f seq_num zero all = refl
stored_all h f seq_num (suc count) all =
    let here : find seq_num h.packets ≡ some (f seq_num) =
      let start : seq_num + 0 ≡ seq_num = omega arith in rw start at (all 0 (omega arith)) in
    rw here (
      ap (◌∷◌ (f seq_num)) (
        stored_all h f (suc seq_num) count (λ i below.
          let shift : seq_num + suc i ≡ suc seq_num + i = omega arith in
          rw shift at (all (suc i) (omega arith)))))

pub length-stored-le :
    (h : PacketHistory) (seq_num count : ℕ) → length (stored h seq_num count) ≤ count
unfolding stored push_found
length-stored-le h seq_num zero = omega arith
length-stored-le h seq_num (suc count) = ground (arith, length-stored-le h (suc seq_num) count)
