-- ===== src/Bench/Churn.antt =====
-- `bench_pool_churn`, on any way to allocate.
use cpp_trading_exchange.Base.{
  ℕ, zero, suc, ◌+◌, ◌/◌, ◌≤◌, ◌<◌, ◌≡◌, ◌∙◌, ap, refl, inl, inr, Bool, Bool-cases, Option, some,
  List, [], ◌∷◌, ◌++◌, map, arith, length, length-append, length-map, get_elem?, get_elem?-map,
  get_elem?-some,
}
use mathlib.Core.Option
use cpp_trading_exchange.Base.Cmd.{
  Cmd, pure, ◌>>=◌, ◌>>◌, Returns, returns, Returns-bind, Returns-mono,
}
use cpp_trading_exchange.Bench.{
  Allocator, Bench, in_memory, add_to_sink, order_of, swap_out, rdtsc, elapsed, deallocate_at,
  push_some, prefill, churn_round, churn_loop, cleanup, bench_churn,
}
use cpp_trading_exchange.Bench.Spread.{copies, copies-get_elem?, swap_out_lem}
use cpp_trading_exchange.Bench.Laws.{LiveLaws, Without, in_memory_lem}

pub map-snoc : (ps : List ℕ) (p : ℕ) → map some ps ++ some p ∷ [] ≡ map some (ps ++ p ∷ [])
map-snoc [] p = refl
map-snoc (x ∷ ps) p = ap (◌∷◌ (some x)) (map-snoc ps p)

-- The first pointer taken away.
pub Without-head : (p : ℕ) (ps : List ℕ) → Without p (p ∷ ps) ps
Without-head p ps = record { once = λ x. omega arith; fewer = omega arith }

module _ {M : Type 0} (a : Allocator M) (ticks : ℕ → ℕ) (n : ℕ) (laws : LiveLaws a n) where
  -- `sink += ptrs[i]->order_id; pool.deallocate(ptrs[i]);` at a live pointer.
  pub deallocate_at_lem :
      (b : Bench M) (live : List (Option ℕ)) (i p : ℕ) (ps qs : List ℕ)
      → get_elem? live i ≡ some (some p)
      → laws.Live b.memory ps
      → 0 < copies p ps
      → Without p ps qs
      → Returns (λ _ b'. laws.Live b'.memory qs) (deallocate_at a ticks i live b)
  unfolding deallocate_at add_to_sink
  deallocate_at_lem b live i p ps qs at is here w =
      rw (deallocate_at, at)
        (Returns-bind (in_memory_lem (a.load p) b (laws.load-Live b.memory p ps is here))
          λ o b1 same.
            in_memory_lem (a.deallocate p) _
              (laws.deallocate-Live b1.memory p ps qs (rw same is) w))

  -- The vector holds pointers, which are the live ones.
  abbrev pub Filled : List (Option ℕ) → Bench M → Type 0
  Filled live b = (ps : List ℕ) × (live ≡ map some ps) × laws.Live b.memory ps

  -- An allocation where memory is left.
  pub allocate_next :
      (i : ℕ) (ps : List ℕ) (b : Bench M)
      → length ps < n
      → laws.Live b.memory ps
      → Returns
          (λ p b'. (j : ℕ) × (p ≡ some j) × laws.Live b'.memory (ps ++ j ∷ []))
          (in_memory (a.allocate (order_of i)) b)
  allocate_next i ps b more is =
      Returns-mono
        (in_memory_lem (a.allocate (order_of i)) b (laws.allocate-Live b.memory (order_of i) ps is))
        λ p b' served. elim served [
          | inl it ↦ it
          | inr (_, full, _) ↦ absurd (omega (arith, more, full))
        ]

  pub prefill_lem :
      (rounds i : ℕ) (ps : List ℕ) (b : Bench M)
      → length ps + rounds ≤ n
      → laws.Live b.memory ps
      → Returns Filled (prefill a ticks rounds i (map some ps) b)
  unfolding prefill
  prefill_lem zero i ps b enough is = returns (ps, refl, is)
  prefill_lem (suc rounds) i ps b enough is =
      Returns-bind (allocate_next i ps b (omega (arith, enough)) is) λ p b1 (j, e, is1).
        rw (e, map-snoc ps j)
          (prefill_lem rounds (i + 1) (ps ++ j ∷ []) b1
            (omega (arith, enough, length-append ps (j ∷ []))) is1)

  -- The branch of a round that allocates.
  abbrev grow : ℕ → List (Option ℕ) → Cmd (Bench M) (List (Option ℕ))
  grow i live = do p ← in_memory (a.allocate (order_of i)); pure (push_some a ticks live p)

  grow_lem :
      (i : ℕ) (ps : List ℕ) (b : Bench M)
      → laws.Live b.memory ps
      → Returns Filled (grow i (map some ps) b)
  grow_lem i ps b is =
      Returns-bind
        (in_memory_lem (a.allocate (order_of i)) b (laws.allocate-Live b.memory (order_of i) ps is))
        λ p b1 served. elim served [
          | inl (j, e, is1) ↦ rw e (returns (ps ++ j ∷ [], map-snoc ps j, is1))
          | inr (e, _, is1) ↦ rw e (returns (ps, refl, is1))
        ]

  -- The branch of a round that deallocates the pointer at `idx`.
  abbrev drop_at : ℕ → List (Option ℕ) → Cmd (Bench M) (List (Option ℕ))
  drop_at idx live = deallocate_at a ticks idx live >> pure (swap_out idx live)

  drop_at_lem :
      (idx : ℕ) (ps : List ℕ) (b : Bench M)
      → idx < length ps
      → laws.Live b.memory ps
      → Returns Filled (drop_at idx (map some ps) b)
  drop_at_lem idx ps b low is =
      let (p, at) = get_elem?-some ps idx low in
      let (qs, e, counts, fewer) = swap_out_lem ps idx p at in
      Returns-bind
        (deallocate_at_lem b (map some ps) idx p ps qs
          (get_elem?-map some ps idx ∙ ap (Option.map some) at) is (copies-get_elem? ps idx p at)
          (record { once = counts; fewer = fewer }))
        λ _ b1 is1. returns (qs, e, is1)

  module _ (coin : ℕ → Bool) (pick : ℕ → ℕ → ℕ) (picks : (i k : ℕ) → 0 < k → pick i k < k) where
    churn_round_lem :
        (i : ℕ) (ps : List ℕ) (b : Bench M)
        → laws.Live b.memory ps
        → Returns Filled (churn_round a ticks coin pick i (map some ps) b)
    unfolding churn_round
    churn_round_lem i [] b is = elim (Bool-cases (coin i)) [
      | inl c ↦ rw (churn_round, c) (grow_lem i [] b is)
      | inr c ↦ rw (churn_round, c) (grow_lem i [] b is)
    ]
    churn_round_lem i (x ∷ ps) b is = elim (Bool-cases (coin i)) [
      | inl c ↦
          rw (churn_round, c)
            (drop_at_lem (pick i (length (map some (x ∷ ps)))) (x ∷ ps) b
              (omega (
                arith,
                picks i (length (map some (x ∷ ps))) (omega arith),
                length-map some (x ∷ ps),
              ))
              is)
      | inr c ↦ rw (churn_round, c) (grow_lem i (x ∷ ps) b is)
    ]

    churn_loop_lem :
        (rounds i : ℕ) (ps : List ℕ) (b : Bench M)
        → laws.Live b.memory ps
        → Returns Filled (churn_loop a ticks coin pick rounds i (map some ps) b)
    unfolding churn_loop
    churn_loop_lem zero i ps b is = returns (ps, refl, is)
    churn_loop_lem (suc rounds) i ps b is =
        Returns-bind (churn_round_lem i ps b is)
          λ live b1 (qs, e, is1). rw e (churn_loop_lem rounds (i + 1) qs b1 is1)

    pub cleanup_lem :
        (ps : List ℕ) (b : Bench M)
        → laws.Live b.memory ps
        → Returns (λ _ b'. laws.Live b'.memory []) (cleanup a ticks (map some ps) b)
    unfolding cleanup
    cleanup_lem [] b is = returns is
    cleanup_lem (p ∷ ps) b is =
        Returns-bind
          (in_memory_lem (a.deallocate p) b
            (laws.deallocate-Live b.memory p (p ∷ ps) ps is (Without-head p ps)))
          λ _ b1 is1. cleanup_lem ps b1 is1

    -- With nothing live and memory for half of the rounds, and any draws of the coin and of an index
    -- below the bound, the churn never faults and ends: it never reads or gives back what is not
    -- live. At its end nothing is live.
    pub bench_churn_lem :
        (ops : ℕ) (b : Bench M)
        → ops / 2 ≤ n
        → laws.Live b.memory []
        → Returns (λ _ b'. laws.Live b'.memory []) (bench_churn a ticks coin pick ops b)
    unfolding bench_churn rdtsc elapsed
    bench_churn_lem ops b enough is =
        Returns-bind (prefill_lem (ops / 2) 0 [] b (omega (arith, enough)) is)
          λ live b1 (ps, e, is1). rw e (
            Returns-bind (churn_loop_lem ops 0 ps _ is1) λ live2 b2 (ps2, e2, is2).
              rw e2 (Returns-bind (cleanup_lem ps2 _ is2) λ _ b3 done. returns done))
