-- ===== src/Containers/Report.antt =====
-- What examples/container_benchmark.cpp prints, and its `main`. The manipulator `std::left` has no effect
-- on `printf`, which fills the fields.
use cpp_trading_exchange.Base.{ℕ, List, [], ◌∷◌, ◌++◌}
use cpp_trading_exchange.Base.Cmd.{Cmd, pure, ◌>>=◌}
use Prim.Native.String.{String}
use cpp_trading_exchange.Base.Output.{Piece, text, number, left_in, right_in}
use cpp_trading_exchange.Bench.{Bench}
use cpp_trading_exchange.Bench.Cold.{k_cold_samples}
use cpp_trading_exchange.Bench.Report.{read_sink}
use cpp_trading_exchange.Containers.{Table}
use cpp_trading_exchange.Containers.Run.{Cycles, run_benchmark}

unfoldable pub row : String → ℕ → ℕ → ℕ → List Piece
row label vec_cycles map_cycles umap_cycles =
    text "  "
    ∷ left_in 28 label
    ∷ text "  vector: "
    ∷ right_in 8 vec_cycles
    ∷ text "   map: "
    ∷ right_in 8 map_cycles
    ∷ text "   unordered_map: "
    ∷ right_in 8 umap_cycles
    ∷ text "  cycles\n"
    ∷ []

unfoldable pub results : ℕ → Cycles × Cycles × Cycles → List Piece
unfolding row
results n (vec, m, um) =
    text "\n=== Container Benchmark (N="
    ∷ number n
    ∷ text ") ===\n\n"
    ∷ (row "Insert (total cycles)" vec.insert m.insert um.insert
        ++ row "Lookup (avg cycles/op)" vec.lookup m.lookup um.lookup
        ++ row "Lookup cold (avg cycles/op)" vec.lookup_cold m.lookup_cold um.lookup_cold
        ++ row "Iterate (total cycles)" vec.iterate m.iterate um.iterate)

unfoldable pub container_notes : ℕ → List Piece
container_notes sink =
    text "\nNotes:\n"
    ∷ text "  - vector lookup uses binary search (O(log N)), same asymptotic cost as map.\n"
    ∷ text "  - vector iteration is a contiguous memory scan — maximally cache-friendly.\n"
    ∷ text
        "  - map nodes are heap-allocated individually; each traversal step risks a cache miss.\n"
    ∷ text "  - unordered_map is pre-sized (reserve) to avoid rehashing penalty.\n"
    ∷ text "  - 'Lookup cold' evicts the cache (64 MB buffer scan) before each probe so\n"
    ∷ text "    the lookup pays the cost of refetching from memory; sampled over "
    ∷ number k_cold_samples
    ∷ text " keys.\n"
    ∷ text "  - at small N, timings are dominated by rdtsc overhead and quantization.\n"
    ∷ text "  - sink="
    ∷ number sink
    ∷ text " (prevents dead-code elimination)\n\n"
    ∷ []

-- `shuffled n` are the keys below `n` as `make_random_keys` shuffles them.
module _ {M : Type 0} (ticks : ℕ → ℕ) (buffer : List ℕ) (arrange : Table → Table)
    (shuffled : ℕ → List ℕ) where
  -- `run_benchmark` with its print.
  unfoldable pub print_benchmark : ℕ → Cmd (Bench M) (List Piece)
  unfolding run_benchmark results
  print_benchmark n = do
    cycles ← run_benchmark ticks buffer arrange (shuffled n) n
    pure (results n cycles)

  unfoldable pub main : Cmd (Bench M) (List Piece)
  unfolding print_benchmark container_notes
  main = do
    small ← print_benchmark 100
    medium ← print_benchmark 100000
    large ← print_benchmark 10000000
    sink ← read_sink
    pure (small ++ medium ++ large ++ container_notes sink)
