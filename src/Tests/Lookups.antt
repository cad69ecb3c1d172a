-- ===== src/Tests/Lookups.antt =====
-- The theorems on the containers, on two or three keys.
use cpp_trading_exchange.Base.{ℕ, ◌*◌, ◌≡◌, refl, some, List, [], ◌∷◌, arith}
use mathlib.Core.List.{Permᴰ}
use mathlib.Core.List.Permᴰ
use cpp_trading_exchange.Base.Cmd.{Returns}
use cpp_trading_exchange.Pool.FreeList.{range}
use cpp_trading_exchange.Bench.{Bench}
use cpp_trading_exchange.Containers.{
  Entry, Table, lower_bound, vector_value, sort_by_key, value_of, push_all, assign_all, map_assign,
  umap_assign,
}
use cpp_trading_exchange.Containers.Sums.{Adds}
use cpp_trading_exchange.Containers.Search.{entry}
use cpp_trading_exchange.Containers.Agree.{containers-agree}
use cpp_trading_exchange.Containers.Run.{Cycles, run_benchmark}
use cpp_trading_exchange.Containers.Stages.{fed, VectorStages, MapStages, UmapStages}
use cpp_trading_exchange.Containers.Whole.{run_benchmark_lem}

-- Key 4 stands twice, key 5 is missing.
abbrev some_entries : List Entry
some_entries = entry 1 ∷ entry 4 ∷ entry 4 ∷ entry 9 ∷ []

lower_bound-place : lower_bound some_entries 5 ≡ some 3
unfolding lower_bound
lower_bound-place = refl

abbrev some_keys : List ℕ
some_keys = 7 ∷ 2 ∷ 7 ∷ 5 ∷ []

abbrev a_bench : Bench (Unit {0})
a_bench = record { memory = tt; sink = 0; readings = 0 }

containers-agree_example :
    Returns
      (λ vec _. vector_value (sort_by_key vec) 2 ≡ some (2 * 2))
      (push_all some_keys [] a_bench)
    × Returns (λ m _. value_of m 2 ≡ some (2 * 2)) (assign_all map_assign some_keys [] a_bench)
    × Returns (λ m _. value_of m 2 ≡ some (2 * 2)) (assign_all umap_assign some_keys [] a_bench)
containers-agree_example =
    containers-agree some_keys 2 a_bench
      (omega arith, (omega arith, (omega arith, (omega arith, tt)))) refl

-- An iteration that starts at the second entry.
abbrev swap_first : Table → Table
swap_first [] = []
swap_first (x ∷ []) = x ∷ []
swap_first (x ∷ y ∷ m) = y ∷ x ∷ m

swap_first-Perm : (m : Table) → Permᴰ m (swap_first m)
swap_first-Perm [] = Permᴰ.nil
swap_first-Perm (x ∷ []) = Permᴰ.refl _
swap_first-Perm (x ∷ y ∷ m) = Permᴰ.swap refl refl

abbrev steady : ℕ → ℕ
steady i = 7 * i

abbrev shuffled : List ℕ
shuffled = 1 ∷ 0 ∷ []

abbrev a_buffer : List ℕ
a_buffer = 3 ∷ []

run_benchmark_example :
    (vec : Cycles) × (m : Cycles) × (um : Cycles) × (b1 : Bench (Unit {0})) × (b2 : Bench
      (Unit {0}))
    × (b' : Bench (Unit {0})) × (run_benchmark steady a_buffer swap_first shuffled 2 a_bench
        ≡ some ((vec, m, um), b'))
    × VectorStages steady a_buffer swap_first (range 0 2) shuffled a_bench vec b1
    × MapStages steady a_buffer swap_first (range 0 2) shuffled b1 m b2
    × UmapStages steady a_buffer swap_first (range 0 2) shuffled b2 um b'
    × Adds (3 * fed a_buffer (range 0 2) shuffled) a_bench b'
run_benchmark_example =
    run_benchmark_lem steady a_buffer swap_first swap_first-Perm 2 shuffled a_bench (omega arith)
      (omega arith) (Permᴰ.swap refl refl)
