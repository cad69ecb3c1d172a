-- ===== src/Bench/Separate.antt =====
-- The workloads of project/mem_pool_separate_free_structure_benchmark.cpp, on
-- `MemPoolSeparateFreeStructure`, `new` and `malloc`.
use cpp_trading_exchange.Base.{ℕ, Bool, Option, none, some, List}
use cpp_trading_exchange.Base.Cmd.{Cmd}
use cpp_trading_exchange.Bench.{
  Order, Allocator, Bench, bench_allocate, bench_deallocate, bench_dealloc_random, bench_churn,
}
use cpp_trading_exchange.Base.{get_elem?}
use cpp_trading_exchange.Bench.Cold.{g_flush_buffer, bench_allocate_cold}
use cpp_trading_exchange.Bench.Lifetimes.{Lived, checked}
use cpp_trading_exchange.Bench.Heap.{Heap, heap_allocator}
use cpp_trading_exchange.SeparatePool.{MemPoolSeparateFreeStructure, allocate, deallocate}

abbrev pub OrderPool : Type 0
OrderPool = MemPoolSeparateFreeStructure Order

unfoldable pub pool_allocate : Order → Cmd OrderPool (Option ℕ)
pool_allocate t p = some (allocate t p)

-- The storage of a block that was given back still holds its bytes; the pool keeps no flag.
unfoldable pub pool_load : ℕ → Cmd OrderPool Order
pool_load i p = elim (get_elem? p.store i) [ none ↦ none | some b ↦ some (b.storage, p) ]

unfoldable pub pool_deallocate : ℕ → Cmd OrderPool (Unit {0})
pool_deallocate i p = elim (deallocate i p) [ none ↦ none | some p' ↦ some (tt, p') ]

abbrev pub pool_allocator : Allocator OrderPool
pool_allocator = record { allocate = pool_allocate; load = pool_load; deallocate = pool_deallocate }

-- The pool with the lifetimes of its objects, on which the workloads run.
abbrev pub lived_allocator : Allocator (Lived OrderPool)
lived_allocator = checked pool_allocator

unfoldable pub bench_pool_allocate :
    (ℕ → ℕ) → List (Option ℕ) → ℕ → Cmd (Bench (Lived OrderPool)) (List (Option ℕ) × ℕ)
unfolding bench_allocate
bench_pool_allocate = bench_allocate lived_allocator

unfoldable pub bench_pool_deallocate :
    (ℕ → ℕ) → List (Option ℕ) → ℕ → Cmd (Bench (Lived OrderPool)) ℕ
unfolding bench_deallocate
bench_pool_deallocate = bench_deallocate lived_allocator

unfoldable pub bench_pool_dealloc_random :
    (ℕ → ℕ) → List (Option ℕ) → List ℕ → Cmd (Bench (Lived OrderPool)) ℕ
unfolding bench_dealloc_random
bench_pool_dealloc_random = bench_dealloc_random lived_allocator

unfoldable pub bench_pool_churn :
    (ℕ → ℕ) → (ℕ → Bool) → (ℕ → ℕ → ℕ) → ℕ → Cmd (Bench (Lived OrderPool)) ℕ
unfolding bench_churn
bench_pool_churn = bench_churn lived_allocator

unfoldable pub bench_new_allocate :
    (ℕ → ℕ) → List (Option ℕ) → ℕ → Cmd (Bench Heap) (List (Option ℕ) × ℕ)
unfolding bench_allocate
bench_new_allocate = bench_allocate heap_allocator

unfoldable pub bench_new_deallocate : (ℕ → ℕ) → List (Option ℕ) → ℕ → Cmd (Bench Heap) ℕ
unfolding bench_deallocate
bench_new_deallocate = bench_deallocate heap_allocator

unfoldable pub bench_new_dealloc_random : (ℕ → ℕ) → List (Option ℕ) → List ℕ → Cmd (Bench Heap) ℕ
unfolding bench_dealloc_random
bench_new_dealloc_random = bench_dealloc_random heap_allocator

unfoldable pub bench_new_churn : (ℕ → ℕ) → (ℕ → Bool) → (ℕ → ℕ → ℕ) → ℕ → Cmd (Bench Heap) ℕ
unfolding bench_churn
bench_new_churn = bench_churn heap_allocator

unfoldable pub bench_malloc_allocate :
    (ℕ → ℕ) → List (Option ℕ) → ℕ → Cmd (Bench Heap) (List (Option ℕ) × ℕ)
unfolding bench_allocate
bench_malloc_allocate = bench_allocate heap_allocator

unfoldable pub bench_malloc_deallocate : (ℕ → ℕ) → List (Option ℕ) → ℕ → Cmd (Bench Heap) ℕ
unfolding bench_deallocate
bench_malloc_deallocate = bench_deallocate heap_allocator

unfoldable pub bench_malloc_dealloc_random : (ℕ → ℕ) → List (Option ℕ) → List ℕ → Cmd (Bench Heap) ℕ
unfolding bench_dealloc_random
bench_malloc_dealloc_random = bench_dealloc_random heap_allocator

unfoldable pub bench_malloc_churn : (ℕ → ℕ) → (ℕ → Bool) → (ℕ → ℕ → ℕ) → ℕ → Cmd (Bench Heap) ℕ
unfolding bench_churn
bench_malloc_churn = bench_churn heap_allocator

unfoldable pub bench_pool_allocate_cold :
    (ℕ → ℕ) → List (Option ℕ) → Cmd (Bench (Lived OrderPool)) (List (Option ℕ) × ℕ)
unfolding bench_allocate_cold g_flush_buffer
bench_pool_allocate_cold ticks = bench_allocate_cold lived_allocator ticks g_flush_buffer

unfoldable pub bench_new_allocate_cold :
    (ℕ → ℕ) → List (Option ℕ) → Cmd (Bench Heap) (List (Option ℕ) × ℕ)
unfolding bench_allocate_cold g_flush_buffer
bench_new_allocate_cold ticks = bench_allocate_cold heap_allocator ticks g_flush_buffer

unfoldable pub bench_malloc_allocate_cold :
    (ℕ → ℕ) → List (Option ℕ) → Cmd (Bench Heap) (List (Option ℕ) × ℕ)
unfolding bench_allocate_cold g_flush_buffer
bench_malloc_allocate_cold ticks = bench_allocate_cold heap_allocator ticks g_flush_buffer
