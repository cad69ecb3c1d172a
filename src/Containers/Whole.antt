-- ===== src/Containers/Whole.antt =====
-- `run_benchmark` of examples/container_benchmark.cpp as a whole: what each stage of each container
-- feeds the sink.
use cpp_trading_exchange.Base.{
  ℕ, zero, suc, ◌+◌, ◌*◌, ◌^◌, ◌≤◌, ◌<◌, ◌≡◌, ◌∙◌, refl, sym, ap, true, Option, some, List, [], ◌∷◌,
  map, arith, ltb, length, has, Distinct,
}
use mathlib.Core.List.{Permᴰ}
use cpp_trading_exchange.Base.Cmd.{Returns, returns, Returns-bind}
use cpp_trading_exchange.Pool.FreeList.{range, Distinct-range, length-range}
use cpp_trading_exchange.Book.Levels.{find}
use cpp_trading_exchange.Bench.{Bench, rdtsc, elapsed}
use cpp_trading_exchange.Containers.{
  int_end, Entry, Table, map_assign, umap_assign, value_of, vector_value, sort_by_key, make_keys,
  iota, bench_vector_insert, bench_insert,
}
use cpp_trading_exchange.Containers.Run.{
  Cycles, bench_vector_lookup, bench_vector_lookup_cold, bench_vector_iterate, bench_map_insert,
  bench_map_lookup, bench_map_lookup_cold, bench_map_iterate, bench_umap_insert, bench_umap_lookup,
  bench_umap_lookup_cold, bench_umap_iterate, run_vector, run_map, run_umap, run_benchmark,
}
use cpp_trading_exchange.Containers.Sums.{total, total-Perm, has-Perm, length-Perm, Adds}
use cpp_trading_exchange.Containers.Stages.{
  doubles, fed, Staged, VectorStages, MapStages, UmapStages, stages_lem,
}
use cpp_trading_exchange.Containers.Search.{entry, sort_by_key_lem}
use cpp_trading_exchange.Containers.Maps.{
  MapLaws, map_laws, umap_laws, values, AllSmall, assign_all-find, assign_all-total,
}
use cpp_trading_exchange.Containers.Loops.{
  bench_lookup_lem, bench_lookup_cold_lem, bench_iterate_lem,
}
use cpp_trading_exchange.Containers.Agree.{push_all_lem, value_of_lem, sorted_value}

total-entries : (ks : List ℕ) → total (map (λ e. e.value) (map entry ks)) ≡ total (doubles ks)
total-entries [] = refl
total-entries (k ∷ ks) = ap (◌+◌ (k * 2)) (total-entries ks)

Returns-both :
    {M A : Type 0} {P Q : A → M → Type 0} {r : Option (A × M)}
    → Returns P r
    → Returns Q r
    → Returns (λ x m. P x m × Q x m) r
Returns-both (returns p) (returns q) = returns (p, q)

iota_lem : {M : Type 0} (n i : ℕ) (b : M) → i + n < int_end → iota n i b ≡ some (range i n, b)
unfolding iota
iota_lem zero i b h = refl
iota_lem (suc n) i b h =
    let low : ltb (i + 1) int_end ≡ true = ground (arith, h) in
    rw (iota, low, iota_lem n (i + 1) b (omega (arith, h))) refl

AllSmall-range : (n i : ℕ) → (i + n) * 2 ≤ int_end → AllSmall (range i n)
AllSmall-range zero i h = tt
AllSmall-range (suc n) i h = (omega (arith, h), AllSmall-range n (i + 1) (omega (arith, h)))

-- The map has the doubles of the keys.
abbrev Filled : List ℕ → Table → Type 0
Filled keys m =
    ((k : ℕ) → has k keys ≡ true → value_of m k ≡ some (k * 2))
    × (total (values m) ≡ total (doubles keys))

module _ {M : Type 0} (ticks : ℕ → ℕ) (buffer : List ℕ) (arrange : Table → Table)
    (arranged : (m : Table) → Permᴰ m (arrange m)) where
  vector_insert_lem :
      (keys : List ℕ) (b : Bench M)
      → AllSmall keys
      → Returns
          (λ r b'. (r.0 ≡ map entry keys) × (b'.sink ≡ b.sink))
          (bench_vector_insert ticks [] keys b)
  unfolding bench_vector_insert rdtsc elapsed
  vector_insert_lem keys b small =
      rw (push_all_lem keys [] (record b { readings = b.readings + 1 }) small)
        (returns (refl, refl))

  insert_lem :
      (assign : ℕ → ℕ → Table → Table) (laws : MapLaws assign) (keys : List ℕ) (b : Bench M)
      → AllSmall keys
      → Distinct keys
      → Returns (λ r b'. Filled keys r.0 × (b'.sink ≡ b.sink)) (bench_insert ticks assign [] keys b)
  unfolding bench_insert rdtsc elapsed find
  insert_lem assign laws keys b small d =
      let b0 = record b { readings = b.readings + 1 } in
      Returns-bind
        (Returns-both (assign_all-find assign laws keys [] b0 small)
          (assign_all-total assign laws keys [] b0 small d λ x h. refl))
        λ m b1 ((same, all), sums).
          returns
            (((λ k h. value_of_lem keys m k all h), omega (arith, sums)), ap (λ c. c.sink) same)

  module _ (keys random_keys : List ℕ) (small : AllSmall keys) (d : Distinct keys)
      (shuffled : Permᴰ keys random_keys) (more : 0 < length keys) where
    run_vector_lem :
        (b : Bench M)
        → Staged
            (VectorStages ticks buffer arrange keys random_keys)
            (fed buffer keys random_keys)
            (run_vector ticks buffer arrange keys random_keys)
            b
    unfolding run_vector bench_vector_lookup bench_vector_lookup_cold bench_vector_iterate
    run_vector_lem b =
        let some_random : 0 < length random_keys = omega (arith, more, length-Perm shuffled) in
        let (js, sorted, p, _) = sort_by_key_lem keys in
        let found : (vec : List Entry)
            → vec ≡ map entry keys
            → (k : ℕ) → has k random_keys ≡ true
            → vector_value (sort_by_key vec) k ≡ some (k * 2) =
          λ vec e k h.
            ap (λ v. vector_value (sort_by_key v) k) e
            ∙ sorted_value keys k (has-Perm k shuffled ∙ h) in
        let values_total : (vec : List Entry)
            → vec ≡ map entry keys
            → total (map (λ x. x.value) (sort_by_key vec)) ≡ total (doubles keys) =
          λ vec e.
            ap (λ v. total (map (λ x. x.value) (sort_by_key v))) e
            ∙ ap (λ v. total (map (λ x. x.value) v)) sorted
            ∙ total-entries js
            ∙ sym (total-Perm (λ k. k * 2) p) in
        stages_lem buffer keys random_keys (bench_vector_insert ticks [] keys)
          (λ vec. bench_vector_lookup ticks buffer arrange (sort_by_key vec) random_keys)
          (λ vec. bench_vector_lookup_cold ticks buffer arrange (sort_by_key vec) random_keys)
          (λ vec. bench_vector_iterate ticks buffer arrange (sort_by_key vec))
          (λ vec. vec ≡ map entry keys) b (vector_insert_lem keys b small)
          (λ vec e b1.
            bench_lookup_lem ticks (vector_value (sort_by_key vec)) random_keys b1 some_random
              (found vec e))
          (λ vec e b1.
            bench_lookup_cold_lem ticks buffer (vector_value (sort_by_key vec)) random_keys b1
              some_random (found vec e))
          (λ vec e b1.
            rw (sym (values_total vec e))
              (bench_iterate_lem ticks (map (λ x. x.value) (sort_by_key vec)) b1))

    run_map_lem :
        (b : Bench M)
        → Staged
            (MapStages ticks buffer arrange keys random_keys)
            (fed buffer keys random_keys)
            (run_map ticks buffer arrange keys random_keys)
            b
    unfolding run_map bench_map_insert bench_map_lookup bench_map_lookup_cold bench_map_iterate
    run_map_lem b =
        let some_random : 0 < length random_keys = omega (arith, more, length-Perm shuffled) in
        stages_lem buffer keys random_keys (bench_map_insert ticks buffer arrange [] keys)
          (λ m. bench_map_lookup ticks buffer arrange m random_keys)
          (λ m. bench_map_lookup_cold ticks buffer arrange m random_keys)
          (bench_map_iterate ticks buffer arrange) (Filled keys) b
          (insert_lem map_assign map_laws keys b small d)
          (λ m (all, _) b1.
            bench_lookup_lem ticks (value_of m) random_keys b1 some_random
              λ k h. all k (has-Perm k shuffled ∙ h))
          (λ m (all, _) b1.
            bench_lookup_cold_lem ticks buffer (value_of m) random_keys b1 some_random
              λ k h. all k (has-Perm k shuffled ∙ h))
          (λ m (_, sums) b1. rw (sym sums) (bench_iterate_lem ticks (values m) b1))

    run_umap_lem :
        (b : Bench M)
        → Staged
            (UmapStages ticks buffer arrange keys random_keys)
            (fed buffer keys random_keys)
            (run_umap ticks buffer arrange keys random_keys)
            b
    unfolding run_umap bench_umap_insert bench_umap_lookup bench_umap_lookup_cold bench_umap_iterate
    run_umap_lem b =
        let some_random : 0 < length random_keys = omega (arith, more, length-Perm shuffled) in
        stages_lem buffer keys random_keys (bench_umap_insert ticks buffer arrange [] keys)
          (λ m. bench_umap_lookup ticks buffer arrange m random_keys)
          (λ m. bench_umap_lookup_cold ticks buffer arrange m random_keys)
          (bench_umap_iterate ticks buffer arrange) (Filled keys) b
          (insert_lem umap_assign umap_laws keys b small d)
          (λ m (all, _) b1.
            bench_lookup_lem ticks (value_of m) random_keys b1 some_random
              λ k h. all k (has-Perm k shuffled ∙ h))
          (λ m (all, _) b1.
            bench_lookup_cold_lem ticks buffer (value_of m) random_keys b1 some_random
              λ k h. all k (has-Perm k shuffled ∙ h))
          (λ m (_, sums) b1.
            rw (sym (sym (total-Perm (λ kv. kv.1) (arranged m)) ∙ sums))
              (bench_iterate_lem ticks (values (arrange m)) b1))

  -- `run_benchmark` for 1 to 2^30 keys, any shuffled order of them and any order in which the unordered
  -- map iterates, is defined and ends. Its run is that of the vector, then of the map, then of the
  -- unordered map, and each of the three is its insertion, its lookups, its cold lookups and its scan, one
  -- after the other, with the cycles that each returns. The insertion leaves the sink as it is; the lookups
  -- add the doubles of all keys to it, modulo 2^64; the cold ones those of the first 256 shuffled keys,
  -- with what a pass over the buffer adds before each; and the scan again those of all keys. In all it
  -- grows by three times their sum.
  pub run_benchmark_lem :
      (n : ℕ) (random_keys : List ℕ) (b : Bench M)
      → 0 < n
      → n ≤ 2 ^ 30
      → Permᴰ (range 0 n) random_keys
      → (vec : Cycles) × (m : Cycles) × (um : Cycles) × (b1 : Bench M) × (b2 : Bench M)
        × (b' : Bench M) × (run_benchmark ticks buffer arrange random_keys n b
            ≡ some ((vec, m, um), b'))
        × VectorStages ticks buffer arrange (range 0 n) random_keys b vec b1
        × MapStages ticks buffer arrange (range 0 n) random_keys b1 m b2
        × UmapStages ticks buffer arrange (range 0 n) random_keys b2 um b'
        × Adds (3 * fed buffer (range 0 n) random_keys) b b'
  unfolding run_benchmark make_keys
  run_benchmark_lem n random_keys b more fits shuffled =
      let keys = range 0 n in
      let small = AllSmall-range n 0 (omega (arith, fits)) in
      let d = Distinct-range 0 n in
      let some_keys : 0 < length keys = omega (arith, more, length-range 0 n) in
      let (vec, b1, e1, s1, h1) = run_vector_lem keys random_keys small d shuffled some_keys b in
      let (m, b2, e2, s2, h2) = run_map_lem keys random_keys small d shuffled some_keys b1 in
      let (um, b', e3, s3, h3) = run_umap_lem keys random_keys small d shuffled some_keys b2 in
      (
        vec,
        m,
        um,
        b1,
        b2,
        b',
        rw (run_benchmark, iota_lem n 0 b (omega (arith, fits)), e1, e2, e3) refl,
        s1,
        s2,
        s3,
        omega (arith, h1, h2, h3),
      )
