-- ===== src/Feed/Stats.antt =====
-- CycleStats: what holds of the extremes and the sum of the samples.
use binary_market_data_feed.Prelude.{
  ℕ, ◌+◌, ◌*◌, ◌^◌, ◌≤◌, ◌<◌, ◌≡◌, ◌⊎◌, inl, inr, Bool-cases, arith, ltb, ltb→lt, ltb→le,
  if◌then◌else◌,
}
use binary_market_data_feed.Feed.{CycleStats, record_cycles}

-- A long double has 64 bits of precision on x86, so that a sum below 2 ^ 64 is exact. Above, it is
-- rounded.
abbrev pub IsLongDoubleSum : (ℕ → ℕ → ℕ) → Type 0
IsLongDoubleSum add = (a b : ℕ) → a + b < 2 ^ 64 → add a b ≡ a + b

-- The sum lies between what the extremes allow, or these allow a sum of 2 ^ 64 and more, where it may be
-- rounded.
abbrev pub IsStats : CycleStats → Type 0
IsStats c =
    (2 ^ 64 ≤ c.samples * c.max_cycles)
    ⊎ ((c.samples * c.min_cycles ≤ c.total_cycles) × (c.total_cycles ≤ c.samples * c.max_cycles))

times_mono : (n a b : ℕ) → a ≤ b → n * a ≤ n * b
times_mono n a b h = grind arith

next_times : (n m : ℕ) → (n + 1) * m ≡ n * m + m
next_times n m = grind arith

low_step : (n m m' t c : ℕ) → n * m ≤ t → m' ≤ m → m' ≤ c → (n + 1) * m' ≤ t + c
low_step n m m' t c h k l = omega (arith, next_times n m', times_mono n m' m k)

high_step : (n m m' t c : ℕ) → t ≤ n * m → m ≤ m' → c ≤ m' → t + c ≤ (n + 1) * m'
high_step n m m' t c h k l = omega (arith, next_times n m', times_mono n m m' k)

-- The sum with one more sample is exact where the extremes keep it below 2 ^ 64.
sum_step :
    (add : ℕ → ℕ → ℕ) (n min max min' max' t c : ℕ)
    → IsLongDoubleSum add
    → min' ≤ min
    → min' ≤ c
    → max ≤ max'
    → c ≤ max'
    → (n + 1) * max' < 2 ^ 64
    → n * min ≤ t
    → t ≤ n * max
    → ((n + 1) * min' ≤ add t c) × (add t c ≤ (n + 1) * max')
sum_step add n min max min' max' t c exact k l k' l' room low high =
    let top = high_step n max max' t c high k' l' in
    let sum = exact t c (omega (arith, top)) in
    (omega (arith, sum, low_step n min min' t c low k l), omega (arith, sum, top))

pub record_cycles-IsStats :
    (add : ℕ → ℕ → ℕ) (c : CycleStats) (cycles : ℕ)
    → IsLongDoubleSum add
    → IsStats c
    → IsStats (record_cycles add c cycles)
unfolding record_cycles
record_cycles-IsStats add c cycles exact h =
    let min' : ℕ = if ltb cycles c.min_cycles then cycles else c.min_cycles in
    let max' : ℕ = if ltb c.max_cycles cycles then cycles else c.max_cycles in
    let min_old : min' ≤ c.min_cycles = ground arith in
    let min_new : min' ≤ cycles = ground arith in
    let max_old : c.max_cycles ≤ max' = ground arith in
    let max_new : cycles ≤ max' = ground arith in
    let less = times_mono c.samples c.max_cycles max' max_old in
    elim (Bool-cases (ltb ((c.samples + 1) * max') (2 ^ 64))) [
      | inr wide ↦ inl (ltb→le _ _ wide)
      | inl room ↦
          let below = ltb→lt ((c.samples + 1) * max') (2 ^ 64) room in
          elim h [
            | inl wide ↦ absurd (omega (arith, wide, below, less, next_times c.samples max'))
            | inr (low, high) ↦ inr (
                sum_step add c.samples c.min_cycles c.max_cycles min' max' c.total_cycles cycles
                  exact min_old min_new max_old max_new below low high)
          ]
    ]

pub samples_next :
    (add : ℕ → ℕ → ℕ) (c : CycleStats) (cycles n : ℕ)
    → c.samples ≤ n
    → (record_cycles add c cycles).samples ≤ n + 1
unfolding record_cycles
samples_next add c cycles n h = omega arith
