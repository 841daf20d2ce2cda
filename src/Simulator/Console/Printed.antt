-- ===== src/Simulator/Console/Printed.antt =====
-- What main of src/exchange_sim/main.cpp prints, against a description of its lines by relations.
use binary_market_data_feed.Prelude.{
  ℕ, suc, ◌+◌, ◌*◌, ◌%◌, ◌<◌, ◌≡◌, false, List, [], ◌∷◌, ◌++◌, length, get_or,
}
use binary_market_data_feed.Text.{Text, codes, written, decimal}
use binary_market_data_feed.Wire.Structs.{Message, view_of}
use binary_market_data_feed.Wire.Describe.{describe}
use binary_market_data_feed.Feed.Stream.{Publication}
use binary_market_data_feed.Simulator.Options.{Options}
use binary_market_data_feed.Simulator.Publisher.{Publisher}
use binary_market_data_feed.Simulator.Console.{dropped_line, sent_line}

-- The packets that --skip-every leaves out.
abbrev pub IsLeftOut : (skip_every seq : ℕ) → Type 0
IsLeftOut skip_every seq = (0 < skip_every) × (seq % skip_every ≡ 0)

-- One line for each message, with its index, from `first` on.
abbrev pub AreMessageLines : Text → (seq first : ℕ) → List Message → List Text → Type 0
AreMessageLines word seq first ms lines =
    (length lines ≡ length ms)
    × ((m : Message) (i : ℕ)
        → i < length ms
        → get_or lines i []
          ≡ written (codes "  " ∷ word ∷ describe seq (first + i) (view_of (get_or ms i m)) ∷ []))

-- The lines of these packets, the first with number `seq`: of each its own line, and those of its messages.
pub data IsTranscript (skip_every : ℕ) : ℕ → List Publication → List Text → Type 0 where
  ended : {seq : ℕ} → IsTranscript skip_every seq [] []
  sent_packet :
      (seq : ℕ) (q : Publication) (qs : List Publication) (below rest : List Text)
      → ¬ IsLeftOut skip_every seq
      → AreMessageLines (codes "send ") seq 0 q.messages below
      → IsTranscript skip_every (suc seq) qs rest
      → IsTranscript skip_every seq (q ∷ qs) (
          sent_line seq (length q.messages) (14 + length q.messages * 24) q.publish_tsc
          ∷ (below ++ rest))
  dropped_packet :
      (seq : ℕ) (q : Publication) (qs : List Publication) (below rest : List Text)
      → IsLeftOut skip_every seq
      → AreMessageLines (codes "drop ") seq 0 q.messages below
      → IsTranscript skip_every (suc seq) qs rest
      → IsTranscript skip_every seq
          (q ∷ qs)
          (dropped_line seq (length q.messages) q.publish_tsc ∷ (below ++ rest))

-- The last line, where the recovery server stays for a time.
abbrev pub IsGrace : ℕ → List Text → Type 0
IsGrace ms lines =
    (ms ≡ 0 → lines ≡ [])
    × (0 < ms
        → lines
          ≡ written (codes "keeping recovery server alive for " ∷ decimal ms ∷ codes " ms" ∷ [])
            ∷ [])

abbrev loud : Options → Options
loud o = record o { quiet = false }
