-- ===== src/Bench/Suite.antt =====
-- The pool's part of `run_benchmark`, for the pools of the two benchmarks.
use cpp_trading_exchange.Base.{ℕ, ◌<◌, ◌≡◌, refl, Bool, some, List, [], length}
use mathlib.Core.List.{Permᴰ}
use cpp_trading_exchange.Base.Cmd.{Returns, returns, Returns-mono}
use cpp_trading_exchange.Pool.{mem_pool}
use cpp_trading_exchange.Pool.FreeList.{IsPool, range}
use cpp_trading_exchange.SeparatePool.Laws.{IsSeparatePool}
use cpp_trading_exchange.Pool.Build.{mem_pool_lem}
use cpp_trading_exchange.SeparatePool.{separate_pool}
use cpp_trading_exchange.SeparatePool.Build.{separate_pool_lem}
use cpp_trading_exchange.Bench.{Order, Bench}
use cpp_trading_exchange.Bench.Pools
use cpp_trading_exchange.Bench.Pools.{bench_overlay}
use cpp_trading_exchange.Bench.Separate
use cpp_trading_exchange.Bench.Cold.{run_workloads, new_memory}
use cpp_trading_exchange.Bench.Spread.{Spread}
use cpp_trading_exchange.Bench.LivePool.{live_laws}
use cpp_trading_exchange.Bench.Lifetimes.{Lived, newborn, checked_laws, InLife-none}
use cpp_trading_exchange.Bench.Sequence.{NoneLive, run_workloads_lem}
use cpp_trading_exchange.Bench.Instances.{
  Spread-range, OwnsElements, pool_laws, OwnsBlocks, separate_laws,
}

module _ (ticks : ℕ → ℕ) (buffer : List ℕ) (coin : ℕ → Bool) (pick : ℕ → ℕ → ℕ)
    (picks : (i k : ℕ) → 0 < k → pick i k < k) (n : ℕ) (order : List ℕ) (more : 0 < n)
    (shuffled : Permᴰ (range 0 n) order) where
  pub run_pool_lem :
      (b : Bench (Lived Pools.OrderPool))
      → Returns
          (λ _ b'.
            (b'.memory.live ≡ [])
            × (free : List ℕ) × OwnsElements n b'.memory.memory free
            × Spread n [] free)
          (run_workloads Pools.lived_allocator ticks buffer
            (new_memory (newborn (mem_pool bench_overlay n)))
            coin
            pick
            order
            n
            b)
  unfolding new_memory
  run_pool_lem b =
      let (p, made, is, size) = mem_pool_lem bench_overlay n more in
      let laws =
        checked_laws Pools.pool_allocator n (live_laws Pools.pool_allocator n (pool_laws n)) in
      Returns-mono
        (run_workloads_lem Pools.lived_allocator ticks n laws buffer coin pick picks order shuffled
          (new_memory (newborn (mem_pool bench_overlay n))) b more (renewed p made is size b)
          λ b0 _. renewed p made is size b0)
        λ _ b' ((free, owns, spread), same). (
          InLife-none Pools.pool_allocator n (live_laws Pools.pool_allocator n (pool_laws n))
              b'.memory ((free, owns, spread), same),
          free,
          owns,
          spread,
        )
    where
      renewed :
          (p : Pools.OrderPool)
          → mem_pool bench_overlay n ≡ some p
          → IsPool bench_overlay p (range 0 n)
          → length p.store ≡ n
          → (b0 : Bench (Lived Pools.OrderPool))
          → Returns
              (λ _. NoneLive Pools.lived_allocator ticks n (
                checked_laws Pools.pool_allocator n
                  (live_laws Pools.pool_allocator n (pool_laws n))))
              (new_memory (newborn (mem_pool bench_overlay n)) b0)
      renewed p made is size b0 =
          rw (made, new_memory) (returns ((range 0 n, (is, size), Spread-range n), λ x. refl))

  pub run_separate_lem :
      (blank : Order) (b : Bench (Lived Separate.OrderPool))
      → Returns
          (λ _ b'.
            (b'.memory.live ≡ [])
            × (free : List ℕ) × OwnsBlocks n b'.memory.memory free
            × Spread n [] free)
          (run_workloads Separate.lived_allocator ticks buffer
            (new_memory (newborn (separate_pool blank n)))
            coin
            pick
            order
            n
            b)
  unfolding new_memory
  run_separate_lem blank b =
      let (p, made, is, size) = separate_pool_lem blank n more in
      let laws =
        checked_laws Separate.pool_allocator n
          (live_laws Separate.pool_allocator n (separate_laws n)) in
      Returns-mono
        (run_workloads_lem Separate.lived_allocator ticks n laws buffer coin pick picks order
          shuffled (new_memory (newborn (separate_pool blank n))) b more (renewed p made is size b)
          λ b0 _. renewed p made is size b0)
        λ _ b' ((free, owns, spread), same). (
          InLife-none Separate.pool_allocator n
              (live_laws Separate.pool_allocator n (separate_laws n)) b'.memory
              ((free, owns, spread), same),
          free,
          owns,
          spread,
        )
    where
      renewed :
          (p : Separate.OrderPool)
          → separate_pool blank n ≡ some p
          → IsSeparatePool p (range 0 n)
          → length p.store ≡ n
          → (b0 : Bench (Lived Separate.OrderPool))
          → Returns
              (λ _. NoneLive Separate.lived_allocator ticks n (
                checked_laws Separate.pool_allocator n
                  (live_laws Separate.pool_allocator n (separate_laws n))))
              (new_memory (newborn (separate_pool blank n)) b0)
      renewed p made is size b0 =
          rw (made, new_memory) (returns ((range 0 n, (is, size), Spread-range n), λ x. refl))
