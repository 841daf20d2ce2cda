-- ===== src/Feed/Main/Pinning.antt =====
-- When pin_current_thread_to_cpu of src/feed_handler/main.cpp returns.
use binary_market_data_feed.Prelude.{
  ℕ, ◌<◌, ◌≡◌, ◌↔◌, true, inl, inr, Option-cases, some, ok, err, arith,
}
use binary_market_data_feed.Feed.Main.{no_processor_count, Machine, pin_current_thread_to_cpu}

module _ (machine : Machine) (cpu_core cpu_count : ℕ) where
  -- It returns on this many processors, none being an error of its own.
  counted :
      machine.online_processors ≡ some cpu_count
      → (pin_current_thread_to_cpu machine cpu_core ≡ ok tt)
        ↔ ((cpu_core < cpu_count) × (machine.set_affinity cpu_core ≡ true))
  unfolding pin_current_thread_to_cpu
  counted e =
      rw (e, pin_current_thread_to_cpu) (λ returns. ground arith, λ (below, works). ground arith)

-- pin_current_thread_to_cpu returns exactly for a core below the number of online processors that the
-- thread can be bound to.
pub pin_current_thread_to_cpu_iff :
    (machine : Machine) (cpu_core : ℕ)
    → (pin_current_thread_to_cpu machine cpu_core ≡ ok tt) ↔ (
        (cpu_count : ℕ) × (machine.online_processors ≡ some cpu_count)
        × (cpu_core < cpu_count)
        × (machine.set_affinity cpu_core ≡ true))
unfolding pin_current_thread_to_cpu
pin_current_thread_to_cpu_iff machine cpu_core = (
  λ returns. elim (Option-cases machine.online_processors) [
    | inl e ↦ let refused : err no_processor_count ≡ ok tt = rw e at returns in absurd cc
    | inr (cpu_count, e) ↦
        let (below, works) = (counted machine cpu_core cpu_count e).0 returns in
        (cpu_count, e, below, works)
  ],
  λ (cpu_count, e, below, works). (counted machine cpu_core cpu_count e).1 (below, works),
)
