-- ===== src/Bench/Report.antt =====
-- What project/mem_pool_benchmark.cpp and project/mem_pool_separate_free_structure_benchmark.cpp print,
-- and their `main`.
use cpp_trading_exchange.Base.{ℕ, Bool, List, [], ◌∷◌, ◌++◌}
use cpp_trading_exchange.Base.Cmd.{Cmd, pure, ◌>>=◌}
use Prim.Native.String.{String}
use cpp_trading_exchange.Base.Output.{Piece, text, number, left_in, right_in}
use cpp_trading_exchange.Bench.{Order, Bench}
use cpp_trading_exchange.Bench.Heap.{Heap}
use cpp_trading_exchange.Bench.Cold.{Timings, k_cold_samples}
use cpp_trading_exchange.Bench.Main.{run_benchmark, run_separate_benchmark}

unfoldable pub row : String → ℕ → ℕ → ℕ → List Piece
row label pool_cycles new_cycles malloc_cycles =
    text "  "
    ∷ left_in 36 label
    ∷ text "  MemPool: "
    ∷ right_in 10 pool_cycles
    ∷ text "   new/delete: "
    ∷ right_in 10 new_cycles
    ∷ text "   malloc/free: "
    ∷ right_in 10 malloc_cycles
    ∷ text "  cycles\n"
    ∷ []

unfoldable pub rows : Timings × Timings × Timings → List Piece
unfolding row
rows (pool, heap, malloc) =
    row "Allocate N (total)" pool.alloc heap.alloc malloc.alloc
    ++ row "Deallocate N (total)" pool.dealloc heap.dealloc malloc.dealloc
    ++ row "Dealloc random order (total)" pool.dealloc_rand heap.dealloc_rand malloc.dealloc_rand
    ++ row "Alloc cold (avg cycles/op)" pool.alloc_cold heap.alloc_cold malloc.alloc_cold
    ++ row "Churn N ops (total)" pool.churn heap.churn malloc.churn

unfoldable pub results : String → ℕ → Timings × Timings × Timings → List Piece
unfolding rows
results title n timings =
    text "\n=== " ∷ text title ∷ text " Benchmark (N=" ∷ number n ∷ text ") ===\n\n" ∷ rows timings

-- The lines that the notes of both benchmarks have in common.
unfoldable pub notes : ℕ → List Piece
notes sink =
    text "  - new/delete and malloc/free go through the system allocator on every call.\n"
    ∷ text "  - 'Alloc cold' evicts the cache (64 MB buffer scan) before each allocation;\n"
    ∷ text "    sampled over "
    ∷ number k_cold_samples
    ∷ text " operations.\n"
    ∷ text "  - 'Churn' randomly interleaves allocations and deallocations at ~50% occupancy.\n"
    ∷ text
        "  - Object type: Order (4 x uint64_t = 32 bytes), representative of an order book entry.\n"
    ∷ text "  - sink="
    ∷ number sink
    ∷ text " (prevents dead-code elimination)\n\n"
    ∷ []

unfoldable pub pool_notes : ℕ → List Piece
unfolding notes
pool_notes sink =
    text "\nNotes:\n"
    ∷ text
        "  - MemPool pre-allocates all slots in a contiguous vector — zero system-allocator calls.\n"
    ∷ notes sink

unfoldable pub separate_notes : ℕ → List Piece
unfolding notes
separate_notes sink =
    text "\nNotes:\n"
    ∷ text "  - MemPoolSeparateFreeStructure pre-allocates all slots in a contiguous vector —\n"
    ∷ text "    zero system-allocator calls. The free-list index is stored in a separate field\n"
    ∷ text "    alongside (but outside) the object storage.\n"
    ∷ notes sink

abbrev pub read_sink : {M : Type 0} → Cmd (Bench M) ℕ
read_sink b = pure b.sink b

-- `shuffled n` is the random order of the numbers below `n`.
module _ (ticks : ℕ → ℕ) (coin : ℕ → Bool) (pick : ℕ → ℕ → ℕ) (shuffled : ℕ → List ℕ) where
  -- `run_benchmark` with its print.
  unfoldable pub print_benchmark : ℕ → Cmd (Bench Heap) (List Piece)
  unfolding run_benchmark results
  print_benchmark n = do
    timings ← run_benchmark ticks coin pick (shuffled n) n
    pure (results "MemPool" n timings)

  unfoldable pub print_separate_benchmark : Order → ℕ → Cmd (Bench Heap) (List Piece)
  unfolding run_separate_benchmark results
  print_separate_benchmark blank n = do
    timings ← run_separate_benchmark ticks coin pick (shuffled n) blank n
    pure (results "MemPoolSeparateFreeStructure" n timings)

  unfoldable pub main : Cmd (Bench Heap) (List Piece)
  unfolding print_benchmark pool_notes
  main = do
    small ← print_benchmark 100
    medium ← print_benchmark 100000
    large ← print_benchmark 1000000
    sink ← read_sink
    pure (small ++ medium ++ large ++ pool_notes sink)

  unfoldable pub separate_main : Order → Cmd (Bench Heap) (List Piece)
  unfolding print_separate_benchmark separate_notes
  separate_main blank = do
    small ← print_separate_benchmark blank 100
    medium ← print_separate_benchmark blank 100000
    large ← print_separate_benchmark blank 1000000
    sink ← read_sink
    pure (small ++ medium ++ large ++ separate_notes sink)
