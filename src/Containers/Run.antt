-- ===== src/Containers/Run.antt =====
-- The benchmark of each container, and `run_benchmark` of examples/container_benchmark.cpp up to the
-- print of the results. The shuffled keys, the buffer that evicts the cache, and the order in which an
-- unordered map is iterated are arguments.
use cpp_trading_exchange.Base.{ℕ, List, [], map}
use cpp_trading_exchange.Base.Cmd.{Cmd, pure, ◌>>=◌}
use cpp_trading_exchange.Bench.{Bench}
use cpp_trading_exchange.Containers.{
  Entry, Table, map_assign, umap_assign, value_of, vector_value, sort_by_key, make_keys,
  bench_vector_insert, bench_insert, bench_lookup, bench_lookup_cold, bench_iterate,
}

-- The cycles of the four workloads on a container.
pub record Cycles : Type 0 where
  pub insert : ℕ
  pub lookup : ℕ
  pub lookup_cold : ℕ
  pub iterate : ℕ

module _ {M : Type 0} (ticks : ℕ → ℕ) (buffer : List ℕ) (arrange : Table → Table) where
  unfoldable pub bench_vector_lookup : List Entry → List ℕ → Cmd (Bench M) ℕ
  unfolding vector_value bench_lookup
  bench_vector_lookup vec = bench_lookup ticks (vector_value vec)

  unfoldable pub bench_vector_lookup_cold : List Entry → List ℕ → Cmd (Bench M) ℕ
  unfolding vector_value bench_lookup_cold
  bench_vector_lookup_cold vec = bench_lookup_cold ticks buffer (vector_value vec)

  unfoldable pub bench_vector_iterate : List Entry → Cmd (Bench M) ℕ
  unfolding bench_iterate
  bench_vector_iterate vec = bench_iterate ticks (map (λ e. e.value) vec)

  unfoldable pub bench_map_insert : Table → List ℕ → Cmd (Bench M) (Table × ℕ)
  unfolding bench_insert map_assign
  bench_map_insert = bench_insert ticks map_assign

  unfoldable pub bench_map_lookup : Table → List ℕ → Cmd (Bench M) ℕ
  unfolding bench_lookup value_of
  bench_map_lookup m = bench_lookup ticks (value_of m)

  unfoldable pub bench_map_lookup_cold : Table → List ℕ → Cmd (Bench M) ℕ
  unfolding bench_lookup_cold value_of
  bench_map_lookup_cold m = bench_lookup_cold ticks buffer (value_of m)

  unfoldable pub bench_map_iterate : Table → Cmd (Bench M) ℕ
  unfolding bench_iterate
  bench_map_iterate m = bench_iterate ticks (map (λ kv. kv.1) m)

  unfoldable pub bench_umap_insert : Table → List ℕ → Cmd (Bench M) (Table × ℕ)
  unfolding bench_insert umap_assign
  bench_umap_insert = bench_insert ticks umap_assign

  unfoldable pub bench_umap_lookup : Table → List ℕ → Cmd (Bench M) ℕ
  unfolding bench_lookup value_of
  bench_umap_lookup m = bench_lookup ticks (value_of m)

  unfoldable pub bench_umap_lookup_cold : Table → List ℕ → Cmd (Bench M) ℕ
  unfolding bench_lookup_cold value_of
  bench_umap_lookup_cold m = bench_lookup_cold ticks buffer (value_of m)

  unfoldable pub bench_umap_iterate : Table → Cmd (Bench M) ℕ
  unfolding bench_iterate
  bench_umap_iterate m = bench_iterate ticks (map (λ kv. kv.1) (arrange m))

  -- The part of `run_benchmark` for the vector.
  unfoldable pub run_vector : List ℕ → List ℕ → Cmd (Bench M) Cycles
  unfolding bench_vector_insert bench_vector_lookup bench_vector_lookup_cold bench_vector_iterate
      sort_by_key
  run_vector keys random_keys = do
    (unsorted, insert) ← bench_vector_insert ticks [] keys
    let vec = sort_by_key unsorted
    lookup ← bench_vector_lookup vec random_keys
    lookup_cold ← bench_vector_lookup_cold vec random_keys
    iterate ← bench_vector_iterate vec
    pure (record { insert = insert; lookup = lookup; lookup_cold = lookup_cold; iterate = iterate })

  -- The part for the map.
  unfoldable pub run_map : List ℕ → List ℕ → Cmd (Bench M) Cycles
  unfolding bench_map_insert bench_map_lookup bench_map_lookup_cold bench_map_iterate
  run_map keys random_keys = do
    (m, insert) ← bench_map_insert [] keys
    lookup ← bench_map_lookup m random_keys
    lookup_cold ← bench_map_lookup_cold m random_keys
    iterate ← bench_map_iterate m
    pure (record { insert = insert; lookup = lookup; lookup_cold = lookup_cold; iterate = iterate })

  -- The part for the unordered map.
  unfoldable pub run_umap : List ℕ → List ℕ → Cmd (Bench M) Cycles
  unfolding bench_umap_insert bench_umap_lookup bench_umap_lookup_cold bench_umap_iterate
  run_umap keys random_keys = do
    (m, insert) ← bench_umap_insert [] keys
    lookup ← bench_umap_lookup m random_keys
    lookup_cold ← bench_umap_lookup_cold m random_keys
    iterate ← bench_umap_iterate m
    pure (record { insert = insert; lookup = lookup; lookup_cold = lookup_cold; iterate = iterate })

  unfoldable pub run_benchmark : List ℕ → ℕ → Cmd (Bench M) (Cycles × Cycles × Cycles)
  unfolding make_keys run_vector run_map run_umap
  run_benchmark random_keys n = do
    keys ← make_keys n
    vec ← run_vector keys random_keys
    m ← run_map keys random_keys
    um ← run_umap keys random_keys
    pure (vec, m, um)
