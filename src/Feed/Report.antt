-- ===== src/Feed/Report.antt =====
-- CycleStats::summary and to_string(PacketSource) of src/feed_handler/main.cpp.
use binary_market_data_feed.Prelude.{ℕ, ◌≡◌, refl, false, [], ◌∷◌, ◌==◌, if◌then◌else◌}
use binary_market_data_feed.Text.{Text, codes, written, is_digit, decimal}
use binary_market_data_feed.Text.Pieces.{append-cancel, field-injective}
use binary_market_data_feed.Feed.{PacketSource, live, replay, drain, CycleStats}

unfoldable pub source_to_string : PacketSource → Text
source_to_string live = codes "live"
source_to_string replay = codes "replay"
source_to_string drain = codes "drain"

-- The mean. `divide` is the quotient of two long doubles, cut to an integer of 64 bits.
unfoldable pub average_cycles : (ℕ → ℕ → ℕ) → CycleStats → ℕ
average_cycles divide stats = divide stats.total_cycles stats.samples

unfoldable pub summary : (ℕ → ℕ → ℕ) → Text → CycleStats → Text
unfolding written average_cycles
summary divide label stats =
    if stats.samples == 0
    then written (label ∷ codes ": " ∷ codes "no samples" ∷ [])
    else written (
        label
        ∷ codes ": "
        ∷ codes "samples="
        ∷ decimal stats.samples
        ∷ codes " min="
        ∷ decimal stats.min_cycles
        ∷ codes " avg="
        ∷ decimal (average_cycles divide stats)
        ∷ codes " max="
        ∷ decimal stats.max_cycles
        ∷ codes " cycles"
        ∷ [])

-- With samples, the summary says how many there are, the extremes and the mean.
pub summary-injective :
    (divide : ℕ → ℕ → ℕ) (label : Text) (a b : CycleStats)
    → (a.samples == 0) ≡ false
    → (b.samples == 0) ≡ false
    → summary divide label a ≡ summary divide label b
    → (a.samples ≡ b.samples)
      × (a.min_cycles ≡ b.min_cycles)
      × (average_cycles divide a ≡ average_cycles divide b)
      × (a.max_cycles ≡ b.max_cycles)
unfolding summary written is_digit
summary-injective divide label a b some_a some_b e =
    let e1 = append-cancel (codes ": ") _ _ (append-cancel label _ _ (rw (some_a, some_b) at e)) in
    let (samples, e2) = field-injective (codes "samples=") a.samples b.samples _ _ refl refl e1 in
    let (mins, e3) = field-injective (codes " min=") a.min_cycles b.min_cycles _ _ refl refl e2 in
    let (means, e4) =
      field-injective (codes " avg=") (average_cycles divide a) (average_cycles divide b) _ _ refl
        refl e3 in
    let (maxes, _) = field-injective (codes " max=") a.max_cycles b.max_cycles _ _ refl refl e4 in
    (samples, mins, means, maxes)
