-- ===== src/Containers/Stages.antt =====
-- The benchmark of one container in examples/container_benchmark.cpp, stage by stage, and what each of them
-- adds to the sink.
use cpp_trading_exchange.Base.{ℕ, ◌+◌, ◌*◌, ◌≡◌, refl, some, List, [], map, arith, length}
use Prim.Native.Nat.{min}
use cpp_trading_exchange.Base.Cmd.{Cmd, pure, ◌>>=◌, Returns, Returns-some}
use cpp_trading_exchange.Bench.{Bench}
use cpp_trading_exchange.Bench.Cold.{k_cold_samples}
use cpp_trading_exchange.Containers.{Table, bench_vector_insert, sort_by_key}
use cpp_trading_exchange.Containers.Run.{
  Cycles, bench_vector_lookup, bench_vector_lookup_cold, bench_vector_iterate, bench_map_insert,
  bench_map_lookup, bench_map_lookup_cold, bench_map_iterate, bench_umap_insert, bench_umap_lookup,
  bench_umap_lookup_cold, bench_umap_iterate,
}
use cpp_trading_exchange.Containers.Sums.{total, take, Adds}
use cpp_trading_exchange.Containers.Loops.{evicted}

abbrev pub doubles : List ℕ → List ℕ
doubles = map (λ k. k * 2)

-- What the cold lookups of the first 256 keys add, with the passes over the buffer before each.
abbrev pub cold_fed : List ℕ → List ℕ → ℕ
cold_fed buffer random_keys =
    total (
      map (λ k. evicted buffer + k * 2)
        (take (min (length random_keys) k_cold_samples) random_keys))

-- What a container feeds the sink in the lookups, the cold lookups of the first 256 and the scan.
abbrev pub fed : List ℕ → List ℕ → List ℕ → ℕ
fed buffer keys random_keys =
    total (doubles random_keys) + cold_fed buffer random_keys + total (doubles keys)

module _ {M V : Type 0} (buffer keys random_keys : List ℕ) (insert : Cmd (Bench M) (V × ℕ))
    (lookup lookup_cold iterate : V → Cmd (Bench M) ℕ) where
  -- The benchmark of a container from `b` to `b'` in its stages, with the cycles of each: nothing is added
  -- by the insertion, the doubles of the keys by the lookups and by the scan, and the cold sum between.
  abbrev pub Stages : Bench M → Cycles → Bench M → Type 0
  Stages b cycles b' =
      (v : V) × (b1 : Bench M) × (b2 : Bench M) × (b3 : Bench M) × (insert b
        ≡ some ((v, cycles.insert), b1))
      × (b1.sink ≡ b.sink)
      × (lookup v b1 ≡ some (cycles.lookup, b2))
      × Adds (total (doubles random_keys)) b1 b2
      × (lookup_cold v b2 ≡ some (cycles.lookup_cold, b3))
      × Adds (cold_fed buffer random_keys) b2 b3
      × (iterate v b3 ≡ some (cycles.iterate, b'))
      × Adds (total (doubles keys)) b3 b'

module _ {M : Type 0} (ticks : ℕ → ℕ) (buffer : List ℕ) (arrange : Table → Table) where
  -- The stages for each container, of a vector that is sorted before its first lookup.
  abbrev pub VectorStages : List ℕ → List ℕ → Bench M → Cycles → Bench M → Type 0
  VectorStages keys random_keys =
      Stages buffer keys random_keys (bench_vector_insert ticks [] keys)
        (λ vec. bench_vector_lookup ticks buffer arrange (sort_by_key vec) random_keys)
        (λ vec. bench_vector_lookup_cold ticks buffer arrange (sort_by_key vec) random_keys)
        (λ vec. bench_vector_iterate ticks buffer arrange (sort_by_key vec))

  abbrev pub MapStages : List ℕ → List ℕ → Bench M → Cycles → Bench M → Type 0
  MapStages keys random_keys =
      Stages buffer keys random_keys (bench_map_insert ticks buffer arrange [] keys)
        (λ m. bench_map_lookup ticks buffer arrange m random_keys)
        (λ m. bench_map_lookup_cold ticks buffer arrange m random_keys)
        (bench_map_iterate ticks buffer arrange)

  abbrev pub UmapStages : List ℕ → List ℕ → Bench M → Cycles → Bench M → Type 0
  UmapStages keys random_keys =
      Stages buffer keys random_keys (bench_umap_insert ticks buffer arrange [] keys)
        (λ m. bench_umap_lookup ticks buffer arrange m random_keys)
        (λ m. bench_umap_lookup_cold ticks buffer arrange m random_keys)
        (bench_umap_iterate ticks buffer arrange)

-- The run is defined, goes through these stages and adds `v` in all.
abbrev pub Staged :
    {M : Type 0}
    → (Bench M → Cycles → Bench M → Type 0)
    → ℕ
    → Cmd (Bench M) Cycles
    → Bench M
    → Type 0
Staged {M} Through v run b =
    (cycles : Cycles) × (b' : Bench M) × (run b ≡ some (cycles, b'))
    × Through b cycles b'
    × Adds v b b'

module _ {M V : Type 0} (buffer keys random_keys : List ℕ) (insert : Cmd (Bench M) (V × ℕ))
    (lookup lookup_cold iterate : V → Cmd (Bench M) ℕ) where
  -- The stages one after the other.
  abbrev in_stages : Cmd (Bench M) Cycles
  in_stages = do
    (v, cycles) ← insert
    lookup_cycles ← lookup v
    cold_cycles ← lookup_cold v
    iterate_cycles ← iterate v
    pure (record {
      insert = cycles;
      lookup = lookup_cycles;
      lookup_cold = cold_cycles;
      iterate = iterate_cycles;
    })

  in_stages-some :
      {v : V} {i l c s : ℕ} {b b1 b2 b3 b' : Bench M}
      → insert b ≡ some ((v, i), b1)
      → lookup v b1 ≡ some (l, b2)
      → lookup_cold v b2 ≡ some (c, b3)
      → iterate v b3 ≡ some (s, b')
      → in_stages b ≡ some (record { insert = i; lookup = l; lookup_cold = c; iterate = s }, b')
  in_stages-some e0 e1 e2 e3 = rw (e0, e1, e2, e3) refl

  pub stages_lem :
      (Good : V → Type 0) (b : Bench M)
      → Returns (λ r b'. Good r.0 × (b'.sink ≡ b.sink)) (insert b)
      → ((v : V)
          → Good v
          → (c : Bench M) → Returns (λ _. Adds (total (doubles random_keys)) c) (lookup v c))
      → ((v : V)
          → Good v
          → (c : Bench M) → Returns (λ _. Adds (cold_fed buffer random_keys) c) (lookup_cold v c))
      → ((v : V)
          → Good v
          → (c : Bench M) → Returns (λ _. Adds (total (doubles keys)) c) (iterate v c))
      → Staged
          (Stages buffer keys random_keys insert lookup lookup_cold iterate)
          (fed buffer keys random_keys)
          in_stages
          b
  stages_lem Good b inserted looks cold scans =
      let (r, b1, e0, (good, same)) = Returns-some inserted in
      let (l, b2, e1, h1) = Returns-some (looks r.0 good b1) in
      let (c, b3, e2, h2) = Returns-some (cold r.0 good b2) in
      let (i, b', e3, h3) = Returns-some (scans r.0 good b3) in
      (
        record { insert = r.1; lookup = l; lookup_cold = c; iterate = i },
        b',
        in_stages-some e0 e1 e2 e3,
        (r.0, b1, b2, b3, e0, same, e1, h1, e2, h2, e3, h3),
        omega (arith, same, h1, h2, h3),
      )
