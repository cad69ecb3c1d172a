-- ===== src/Bench/Main.antt =====
-- `run_benchmark` of project/mem_pool_benchmark.cpp and of
-- project/mem_pool_separate_free_structure_benchmark.cpp, up to the print of the results. The random
-- order and the draws of the three engines, which have the same seed, are arguments.
use cpp_trading_exchange.Base.{ℕ, Bool, List, none, some}
use cpp_trading_exchange.Base.Cmd.{Cmd, pure, ◌>>=◌}
use cpp_trading_exchange.Pool.{mem_pool}
use cpp_trading_exchange.SeparatePool.{separate_pool}
use cpp_trading_exchange.Bench.{Order, Bench}
use cpp_trading_exchange.Bench.Heap.{Heap, heap_allocator}
use cpp_trading_exchange.Bench.Lifetimes.{born, newborn}
use cpp_trading_exchange.Bench.Pools
use cpp_trading_exchange.Bench.Pools.{bench_overlay}
use cpp_trading_exchange.Bench.Separate
use cpp_trading_exchange.Bench.Cold.{Timings, g_flush_buffer, run_workloads, new_memory, beside}

module _ (ticks : ℕ → ℕ) (coin : ℕ → Bool) (pick : ℕ → ℕ → ℕ) (random_order : List ℕ) where
  unfoldable pub heap_workloads : ℕ → Cmd (Bench Heap) Timings
  unfolding run_workloads g_flush_buffer
  heap_workloads n =
      run_workloads heap_allocator ticks g_flush_buffer (pure tt) coin pick random_order n

  -- The cycles of the pool, of `new` and `delete`, and of `malloc` and `free`.
  unfoldable pub run_benchmark : ℕ → Cmd (Bench Heap) (Timings × Timings × Timings)
  unfolding run_workloads new_memory beside heap_workloads g_flush_buffer
  run_benchmark n b = elim (mem_pool bench_overlay n) [
    | none ↦ none
    | some p ↦
        (do
          pool ← beside (born p) (
              run_workloads Pools.lived_allocator ticks g_flush_buffer
                (new_memory (newborn (mem_pool bench_overlay n))) coin pick random_order n)
          heap ← heap_workloads n
          malloc ← heap_workloads n
          pure (pool, heap, malloc))
          b
  ]

  -- `blank` is what the storage of the blocks holds.
  unfoldable pub run_separate_benchmark : Order → ℕ → Cmd (Bench Heap) (Timings × Timings × Timings)
  unfolding run_workloads new_memory beside heap_workloads g_flush_buffer
  run_separate_benchmark blank n b = elim (separate_pool blank n) [
    | none ↦ none
    | some p ↦
        (do
          pool ← beside (born p) (
              run_workloads Separate.lived_allocator ticks g_flush_buffer
                (new_memory (newborn (separate_pool blank n))) coin pick random_order n)
          heap ← heap_workloads n
          malloc ← heap_workloads n
          pure (pool, heap, malloc))
          b
  ]
