-- ===== src/Bench/Whole.antt =====
-- `run_benchmark` and `main` of the two benchmarks of pools as a whole, with what they print.
use cpp_trading_exchange.Base.{ℕ, ◌<◌, refl, inl, inr, Bool, List, arith, some, none, Option}
use mathlib.Core.List.{Permᴰ}
use cpp_trading_exchange.Base.Cmd.{Cmd, pure, ◌>>=◌, Returns, returns, Returns-bind, Returns-mono}
use cpp_trading_exchange.Pool.{mem_pool}
use cpp_trading_exchange.Pool.FreeList.{range}
use cpp_trading_exchange.Pool.Build.{mem_pool_lem}
use cpp_trading_exchange.SeparatePool.{separate_pool}
use cpp_trading_exchange.SeparatePool.Build.{separate_pool_lem}
use cpp_trading_exchange.Bench.{Order, Bench}
use cpp_trading_exchange.Bench.Pools.{bench_overlay}
use cpp_trading_exchange.Bench.Heap.{Heap, heap_allocator}
use cpp_trading_exchange.Bench.Cold.{Timings, g_flush_buffer, run_workloads, new_memory, beside}
use cpp_trading_exchange.Bench.Pools
use cpp_trading_exchange.Bench.Separate
use cpp_trading_exchange.Bench.Report.{
  pool_notes, separate_notes, print_benchmark, print_separate_benchmark, main, separate_main,
}
use cpp_trading_exchange.Bench.Main.{heap_workloads, run_benchmark, run_separate_benchmark}
use cpp_trading_exchange.Bench.Printing.{SameHeap, SameHeap-then, Prints, Reports, print_all_lem}
use cpp_trading_exchange.Bench.Lifetimes.{newborn, born}
use cpp_trading_exchange.Bench.LiveHeap.{heap_laws}
use cpp_trading_exchange.Bench.Sequence.{run_workloads_lem}
use cpp_trading_exchange.Bench.Suite.{run_pool_lem, run_separate_lem}

-- A benchmark beside the heap leaves the heap alone.
beside_lem :
    {M A : Type 0} {P : A → Bench M → Type 0} (m : M) (c : Cmd (Bench M) A) (b : Bench Heap)
    → Returns P (c (record { memory = m; sink = b.sink; readings = b.readings }))
    → Returns (λ _. SameHeap b) (beside m c b)
unfolding beside
beside_lem {M} {A} {P} m c b h = on_run h
  where
    on_run :
        {run : Option (A × Bench M)}
        → Returns P run
        → Returns
            (λ _. SameHeap b)
            (elim run [
              | none ↦ none
              | some (x, b') ↦
                  some (x, record { memory = b.memory; sink = b'.sink; readings = b'.readings })
            ])
    on_run (returns p) = returns λ x. refl

module _ (ticks : ℕ → ℕ) (coin : ℕ → Bool) (pick : ℕ → ℕ → ℕ)
    (picks : (i k : ℕ) → 0 < k → pick i k < k) where
  module _ (n : ℕ) (order : List ℕ) (more : 0 < n) (shuffled : Permᴰ (range 0 n) order) where
    heap_workloads_lem :
        (b : Bench Heap) → Returns (λ _. SameHeap b) (heap_workloads ticks coin pick order n b)
    unfolding heap_workloads
    heap_workloads_lem b =
        Returns-mono
          (run_workloads_lem heap_allocator ticks n (heap_laws b.memory n) g_flush_buffer coin pick
            picks order shuffled (λ b0. some (tt, b0)) b more (returns λ x. inl (refl, refl))
            λ b0 live. returns live)
          λ _ b' ours x. elim (ours x) [
            | inl (_, same) ↦ same
            | inr (one, _, _, _) ↦ absurd (omega (arith, one))
          ]

    -- The pool's part, and then the two of the heap.
    abbrev three_parts : Cmd (Bench Heap) Timings → Cmd (Bench Heap) (Timings × Timings × Timings)
    three_parts pool_part = do
      pool ← pool_part
      heap ← heap_workloads ticks coin pick order n
      malloc ← heap_workloads ticks coin pick order n
      pure (pool, heap, malloc)

    three_parts_lem :
        (pool_part : Cmd (Bench Heap) Timings) (b : Bench Heap)
        → Returns (λ _. SameHeap b) (pool_part b)
        → Returns (λ _. SameHeap b) (three_parts pool_part b)
    three_parts_lem pool_part b done = Returns-bind done λ pool b1 h1.
        Returns-bind (heap_workloads_lem b1) λ heap b2 h2.
          Returns-bind (heap_workloads_lem b2)
            λ malloc b3 h3. returns (SameHeap-then b b1 b3 h1 (SameHeap-then b1 b2 b3 h2 h3))

    pub run_benchmark_lem :
        (b : Bench Heap) → Returns (λ _. SameHeap b) (run_benchmark ticks coin pick order n b)
    unfolding run_benchmark
    run_benchmark_lem b =
        let (p, made, _, _) = mem_pool_lem bench_overlay n more in
        let pool_part =
          run_workloads Pools.lived_allocator ticks g_flush_buffer
            (new_memory (newborn (mem_pool bench_overlay n))) coin pick order n in
        rw (run_benchmark, made)
          (three_parts_lem (beside (born p) pool_part) b (
            beside_lem (born p) pool_part b (
              run_pool_lem ticks g_flush_buffer coin pick picks n order more shuffled
                (record { memory = born p; sink = b.sink; readings = b.readings }))))

    pub run_separate_benchmark_lem :
        (blank : Order) (b : Bench Heap)
        → Returns (λ _. SameHeap b) (run_separate_benchmark ticks coin pick order blank n b)
    unfolding run_separate_benchmark
    run_separate_benchmark_lem blank b =
        let (p, made, _, _) = separate_pool_lem blank n more in
        let pool_part =
          run_workloads Separate.lived_allocator ticks g_flush_buffer
            (new_memory (newborn (separate_pool blank n))) coin pick order n in
        rw (run_separate_benchmark, made)
          (three_parts_lem (beside (born p) pool_part) b (
            beside_lem (born p) pool_part b (
              run_separate_lem ticks g_flush_buffer coin pick picks n order more shuffled blank
                (record { memory = born p; sink = b.sink; readings = b.readings }))))

  module _ (shuffled : ℕ → List ℕ) (shuffles : (n : ℕ) → Permᴰ (range 0 n) (shuffled n)) where
    print_benchmark_lem : Prints "MemPool" (print_benchmark ticks coin pick shuffled)
    unfolding print_benchmark
    print_benchmark_lem n b more =
        Returns-bind (run_benchmark_lem n (shuffled n) more (shuffles n) b)
          λ timings b1 same. returns (same, timings, refl)

    print_separate_benchmark_lem :
        (blank : Order)
        → Prints "MemPoolSeparateFreeStructure"
            (print_separate_benchmark ticks coin pick shuffled blank)
    unfolding print_separate_benchmark
    print_separate_benchmark_lem blank n b more =
        Returns-bind (run_separate_benchmark_lem n (shuffled n) more (shuffles n) blank b)
          λ timings b1 same. returns (same, timings, refl)

    -- `main` of project/mem_pool_benchmark.cpp, on a heap that is never out of memory, with any
    -- counter, any draws below their bounds and any shuffled orders, never faults and ends, where
    -- a read or a deallocation of an object that is not in its lifetime is a fault, in the pools and on the
    -- heap. None of its objects is left on the heap, where all other objects are as before. It prints the
    -- results of the sizes 100, 100000 and 1000000, from the smallest up, with some timings, and the notes
    -- with the sink as it is then.
    pub pool_main_lem :
        (b : Bench Heap)
        → Returns
            (λ output b'. SameHeap b b' × Reports "MemPool" pool_notes output b')
            (main ticks coin pick shuffled b)
    unfolding main
    pool_main_lem b =
        print_all_lem "MemPool" (print_benchmark ticks coin pick shuffled) pool_notes b
          print_benchmark_lem

    -- `main` of project/mem_pool_separate_free_structure_benchmark.cpp, on a heap that is never out of
    -- memory, with any counter, any draws below their bounds and any shuffled orders, never faults and ends, where
    -- a read or a deallocation of an object that is not in its lifetime is a fault, in the pools and on the
    -- heap. None of its objects is left on the heap, where all other objects are as before. It prints the
    -- results of the sizes 100, 100000 and 1000000, from the smallest up, with some timings, and the notes
    -- with the sink as it is then.
    pub separate_main_lem :
        (blank : Order) (b : Bench Heap)
        → Returns
            (λ output b'.
              SameHeap b b' × Reports "MemPoolSeparateFreeStructure" separate_notes output b')
            (separate_main ticks coin pick shuffled blank b)
    unfolding separate_main
    separate_main_lem blank b =
        print_all_lem "MemPoolSeparateFreeStructure"
          (print_separate_benchmark ticks coin pick shuffled blank) separate_notes b
          (print_separate_benchmark_lem blank)
