-- ===== src/Bench/Sequence.antt =====
-- The workloads of `run_benchmark` in a row, for any way to allocate.
use cpp_trading_exchange.Base.{
  ℕ, zero, suc, ◌+◌, ◌%◌, ◌≤◌, ◌<◌, ◌≡◌, ◌∙◌, sym, ap, subst, refl, Bool, Option, none, some, List,
  [], ◌∷◌, ◌++◌, map, arith, length, length-append, length-map, length-replicate, set, replicate,
}
use Prim.Native.Nat.{min}
use mathlib.Core.List.{Permᴰ}
use cpp_trading_exchange.Base.Cmd.{Cmd, Returns, returns, Returns-bind, Returns-mono}
use cpp_trading_exchange.Pool.FreeList.{range}
use cpp_trading_exchange.Bench.{
  uint64, Allocator, Bench, add_to_sink, rdtsc, elapsed, bench_allocate, bench_deallocate,
  bench_dealloc_random,
}
use cpp_trading_exchange.Bench.Cold.{
  k_cold_samples, evict_cache, cold_loop, average, bench_allocate_cold, run_workloads,
}
use cpp_trading_exchange.Bench.Laws.{LiveLaws}
use cpp_trading_exchange.Bench.Select.{Selects-range, Selects-Perm}
use cpp_trading_exchange.Bench.Churn.{allocate_next, bench_churn_lem, cleanup_lem}
use cpp_trading_exchange.Bench.Bursts.{
  Taken, put_next, at_next, map-nil, allocate_loop_lem, deallocate_each_lem, deallocate_loop_lem,
}

module _ {M : Type 0} (a : Allocator M) (ticks : ℕ → ℕ) (n : ℕ) (laws : LiveLaws a n) where
  -- Nothing that the workloads have allocated is live.
  abbrev pub NoneLive : Bench M → Type 0
  NoneLive b = laws.Live b.memory []

  bench_allocate_lem :
      (ptrs : List (Option ℕ)) (b : Bench M)
      → length ptrs ≡ n
      → NoneLive b
      → Returns (λ r. Taken a ticks n laws n r.0) (bench_allocate a ticks ptrs n b)
  unfolding bench_allocate rdtsc elapsed
  bench_allocate_lem ptrs b long is =
      Returns-bind (allocate_loop_lem a ticks n laws n 0 [] ptrs _ refl long (omega arith) is)
        λ ptrs1 b1 (ps, e, size, is1). returns (ps, e, omega (arith, size), is1)

  bench_deallocate_lem :
      (ptrs : List (Option ℕ)) (b : Bench M)
      → Taken a ticks n laws n ptrs b
      → Returns (λ _. NoneLive) (bench_deallocate a ticks ptrs n b)
  unfolding bench_deallocate rdtsc elapsed
  bench_deallocate_lem ptrs b (ps, e, size, is) =
      rw (e, sym size)
        (Returns-bind (deallocate_loop_lem a ticks n laws ps _ is) λ _ b1 done. returns done)

  bench_dealloc_random_lem :
      (order : List ℕ) (ptrs : List (Option ℕ)) (b : Bench M)
      → Permᴰ (range 0 n) order
      → Taken a ticks n laws n ptrs b
      → Returns (λ _. NoneLive) (bench_dealloc_random a ticks ptrs order b)
  unfolding bench_dealloc_random rdtsc elapsed
  bench_dealloc_random_lem order ptrs b perm (ps, e, size, is) =
      let perm' = subst (λ k. Permᴰ (range 0 k) order) (sym size) perm in
      let (qs, sel, counts, long) = Selects-Perm ps ps perm' (Selects-range ps) in
      rw e (
        Returns-bind
          (deallocate_each_lem a ticks n laws order qs ps _ sel
            (laws.reorder b.memory ps qs is counts long))
          λ _ b1 done. returns done)

  rdtsc_lem : (b : Bench M) → Returns (λ _ b'. b'.memory ≡ b.memory) (rdtsc ticks b)
  unfolding rdtsc
  rdtsc_lem b = returns refl

  elapsed_lem :
      (start : ℕ) (b : Bench M) → Returns (λ _ b'. b'.memory ≡ b.memory) (elapsed ticks start b)
  unfolding elapsed rdtsc
  elapsed_lem start b = returns refl

  module _ (buffer : List ℕ) where
    -- Evicting the cache leaves the memory as it is.
    evict_cache_lem : (b : Bench M) → Returns (λ _ b'. b'.memory ≡ b.memory) (evict_cache buffer b)
    unfolding evict_cache add_to_sink
    evict_cache_lem b = returns refl

    cold_loop_lem :
        (rounds i : ℕ) (ps : List ℕ) (rest : List (Option ℕ)) (total : ℕ) (b : Bench M)
        → i ≡ length ps
        → length rest ≡ rounds
        → i + rounds ≤ n
        → laws.Live b.memory ps
        → Returns
            (λ r. Taken a ticks n laws (i + rounds) r.0)
            (cold_loop a ticks buffer rounds i (map some ps ++ rest) total b)
    unfolding cold_loop
    cold_loop_lem zero i ps [] total b e long enough is =
        returns (ps, map-nil ps, omega (arith, e), is)
    cold_loop_lem zero i ps (r ∷ rest) total b e long enough is = absurd (omega (arith, long))
    cold_loop_lem (suc rounds) i ps [] total b e long enough is = absurd (omega (arith, long))
    cold_loop_lem (suc rounds) i ps (r ∷ rest) total b e long enough is =
        rw (cold_loop, at_next a ticks n laws ps i r rest e)
          (Returns-bind (evict_cache_lem b) λ _ b0 same.
            Returns-bind (rdtsc_lem b0) λ start b1 same1.
              Returns-bind
                (allocate_next a ticks n laws i ps b1 (omega (arith, e, enough))
                  (rw (same1, same) is))
                λ p b2 (j, ep, is2).
                  Returns-bind
                    {k = λ cycles.
                      cold_loop a ticks buffer rounds (i + 1) (set (map some ps ++ r ∷ rest) i p)
                        ((total + cycles) % uint64)}
                    (elapsed_lem start b2)
                    λ cycles b3 same3.
                      rw (ep, put_next a ticks n laws ps i j r rest e)
                        (Returns-mono
                          (cold_loop_lem rounds (i + 1) (ps ++ j ∷ []) rest _ b3
                            (omega (arith, e, length-append ps (j ∷ []))) (omega (arith, long))
                            (omega (arith, enough)) (rw same3 is2))
                          λ res b4 (qs, eq, size, is4). (qs, eq, omega (arith, size), is4)))

    average_lem :
        (total count : ℕ) (b : Bench M)
        → 0 < count
        → Returns (λ _ b'. b' ≡ b) (average total count b)
    unfolding average
    average_lem total zero b h = elim h [ ]
    average_lem total (suc count) b h = returns refl

    bench_allocate_cold_lem :
        (ptrs : List (Option ℕ)) (b : Bench M)
        → length ptrs ≡ min n k_cold_samples
        → 0 < n
        → NoneLive b
        → Returns
            (λ r. Taken a ticks n laws (min n k_cold_samples) r.0)
            (bench_allocate_cold a ticks buffer ptrs b)
    unfolding bench_allocate_cold
    bench_allocate_cold_lem ptrs b long more is =
        let count : min (length ptrs) k_cold_samples ≡ length ptrs = omega (arith, long) in
        rw count (
          Returns-bind
            (cold_loop_lem (length ptrs) 0 [] ptrs 0 b refl refl (omega (arith, long)) is)
            λ (ptrs1, total) b1 (ps, e, size, is1).
              Returns-bind (average_lem total (length ptrs) b1 (omega (arith, long, more)))
                λ mean b2 same. returns (ps, e, omega (arith, size, long), rw same is1))

    module _ (coin : ℕ → Bool) (pick : ℕ → ℕ → ℕ) (picks : (i k : ℕ) → 0 < k → pick i k < k)
        (order : List ℕ) (shuffled : Permᴰ (range 0 n) order) where
      -- The workloads one after the other, with any shuffled order and any draws: no read or
      -- deallocation is of what is not live, and at the end nothing is.
      pub run_workloads_lem :
          (renew : Cmd (Bench M) (Unit {0})) (b : Bench M)
          → 0 < n
          → Returns (λ _. NoneLive) (renew b)
          → ((b' : Bench M) → NoneLive b' → Returns (λ _. NoneLive) (renew b'))
          → Returns (λ _. NoneLive) (run_workloads a ticks buffer renew coin pick order n b)
      unfolding run_workloads
      run_workloads_lem renew b more first renews = Returns-bind first λ _ b1 all1.
          Returns-bind (bench_allocate_lem (replicate n none) b1 (length-replicate n none) all1)
            λ (ptrs, alloc) b2 taken.
              Returns-bind (bench_deallocate_lem ptrs b2 taken) λ dealloc b3 all3.
                Returns-bind (bench_allocate_lem ptrs b3 (full_size ptrs b2 taken) all3)
                  λ (ptrs', again) b4 taken'.
                    Returns-bind (bench_dealloc_random_lem order ptrs' b4 shuffled taken')
                      λ dealloc_rand b5 all5. Returns-bind (renews b5 all5) λ _ b6 all6.
                        Returns-bind
                          (bench_churn_lem a ticks n laws coin pick picks n b6 (omega arith) all6)
                          λ churn b7 all7. Returns-bind (renews b7 all7) λ _ b8 all8.
                            Returns-bind
                              (bench_allocate_cold_lem (replicate (min n k_cold_samples) none) b8
                                (length-replicate (min n k_cold_samples) none) more all8)
                              λ (cold, mean) b9 (ps, e, size, is9). rw e (
                                Returns-bind (cleanup_lem a ticks n laws coin pick picks ps b9 is9)
                                  λ _ b10 done. returns done)
        where
          full_size :
              (ptrs : List (Option ℕ)) (b : Bench M)
              → Taken a ticks n laws n ptrs b
              → length ptrs ≡ n
          full_size ptrs b (ps, e, size, _) = ap length e ∙ length-map some ps ∙ size
