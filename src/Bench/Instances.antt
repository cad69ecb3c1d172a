-- ===== src/Bench/Instances.antt =====
-- Both pools meet the laws that the workloads ask for, from their constructors on.
use cpp_trading_exchange.Base.{
  ℕ, zero, suc, ◌+◌, ◌<◌, ◌≡◌, ◌∙◌, refl, false, none, some, List, [], ◌∷◌, arith, ltb,
  if◌then◌else◌, length, get_elem?-some, has,
}
use cpp_trading_exchange.Base.Cmd.{Returns, returns}
use cpp_trading_exchange.Pool.{MemPool, object_at}
use cpp_trading_exchange.Pool.FreeList.{IsPool, range, length-range}
use cpp_trading_exchange.Pool.Laws.{allocate_lem, allocate-nil, deallocate_lem}
use cpp_trading_exchange.SeparatePool.{MemPoolSeparateFreeStructure}
use cpp_trading_exchange.SeparatePool.Laws.{IsSeparatePool, serve_lem, give_back_lem}
use cpp_trading_exchange.Bench.{Order}
use cpp_trading_exchange.Bench.Spread.{one_if, copies, Spread}
use cpp_trading_exchange.Bench.Laws.{PoolLaws}
use cpp_trading_exchange.Bench.Pools
use cpp_trading_exchange.Bench.Pools.{bench_overlay}
use cpp_trading_exchange.Bench.Separate

copies-range : (a i n : ℕ) → copies a (range i n) ≡ (if ltb a i then 0 else one_if (ltb a (i + n)))
copies-range a i zero = ground arith
copies-range a i (suc n) = ground (arith, copies-range a (i + 1) n)

-- The slots of a new pool, all free.
pub Spread-range : (n : ℕ) → Spread n [] (range 0 n)
Spread-range n = record {
  once = λ a. ground (arith, copies-range a 0 n);
  whole = omega (arith, length-range 0 n);
}

-- `MemPool` of `n` elements.
abbrev pub OwnsElements : ℕ → MemPool Order → List ℕ → Type 0
OwnsElements n p free = IsPool bench_overlay p free × (length p.store ≡ n)

module _ (n : ℕ) where
  live_object :
      (p : MemPool Order) (i : ℕ) (free : List ℕ)
      → OwnsElements n p free
      → i < n
      → has i free ≡ false
      → (t : Order) × (object_at p i ≡ some t)
  unfolding object_at
  live_object p i free (is, e) low miss =
      let (d, at) = get_elem?-some p.store i (omega (arith, low, e)) in
      (d.object, rw (object_at, at, is.flags i d at, miss) refl)

  pub pool_allocate-cons :
      (p : MemPool Order) (t : Order) (i : ℕ) (free : List ℕ)
      → OwnsElements n p (i ∷ free)
      → Returns (λ r p'. (r ≡ some i) × OwnsElements n p' free) (Pools.pool_allocate t p)
  unfolding Pools.pool_allocate
  pool_allocate-cons p t i free (is, e) =
      let (r, is', _, e') = allocate_lem bench_overlay p t i free is in returns (r, (is', e' ∙ e))

  pub pool_allocate-nil :
      (p : MemPool Order) (t : Order)
      → OwnsElements n p []
      → Returns (λ r p'. (r ≡ none) × OwnsElements n p' []) (Pools.pool_allocate t p)
  unfolding Pools.pool_allocate
  pool_allocate-nil p t (is, e) = rw (allocate-nil bench_overlay p t is) (returns (refl, (is, e)))

  pub pool_load-live :
      (p : MemPool Order) (i : ℕ) (free : List ℕ)
      → OwnsElements n p free
      → i < n
      → has i free ≡ false
      → Returns (λ o p'. p' ≡ p) (Pools.pool_load i p)
  unfolding Pools.pool_load
  pool_load-live p i free owns low miss =
      let (t, live) = live_object p i free owns low miss in
      rw (Pools.pool_load, live) (returns refl)

  pub pool_deallocate-live :
      (p : MemPool Order) (i : ℕ) (free : List ℕ)
      → OwnsElements n p free
      → i < n
      → has i free ≡ false
      → Returns (λ _ p'. OwnsElements n p' (i ∷ free)) (Pools.pool_deallocate i p)
  unfolding Pools.pool_deallocate
  pool_deallocate-live p i free (is, e) low miss =
      let (t, live) = live_object p i free (is, e) low miss in
      let (p', run, (is', _, e')) = deallocate_lem bench_overlay p i free is live in
      rw (Pools.pool_deallocate, run) (returns (is', e' ∙ e))

  abbrev pub pool_laws : PoolLaws Pools.pool_allocator n
  pool_laws = record {
    Owns = OwnsElements n;
    allocate-cons = pool_allocate-cons;
    allocate-nil = pool_allocate-nil;
    load-live = pool_load-live;
    deallocate-live = pool_deallocate-live;
  }

-- `MemPoolSeparateFreeStructure` of `n` blocks.
abbrev pub OwnsBlocks : ℕ → MemPoolSeparateFreeStructure Order → List ℕ → Type 0
OwnsBlocks n p free = IsSeparatePool p free × (length p.store ≡ n)

module _ (n : ℕ) where
  pub separate_allocate-cons :
      (p : MemPoolSeparateFreeStructure Order) (t : Order) (i : ℕ) (free : List ℕ)
      → OwnsBlocks n p (i ∷ free)
      → Returns (λ r p'. (r ≡ some i) × OwnsBlocks n p' free) (Separate.pool_allocate t p)
  unfolding Separate.pool_allocate
  separate_allocate-cons p t i free (is, e) =
      let (r, is', _, e') = serve_lem p t (i ∷ free) is in returns (r, (is', e' ∙ e))

  pub separate_allocate-nil :
      (p : MemPoolSeparateFreeStructure Order) (t : Order)
      → OwnsBlocks n p []
      → Returns (λ r p'. (r ≡ none) × OwnsBlocks n p' []) (Separate.pool_allocate t p)
  unfolding Separate.pool_allocate
  separate_allocate-nil p t (is, e) = rw (serve_lem p t [] is) (returns (refl, (is, e)))

  pub separate_load-live :
      (p : MemPoolSeparateFreeStructure Order) (i : ℕ) (free : List ℕ)
      → OwnsBlocks n p free
      → i < n
      → has i free ≡ false
      → Returns (λ o p'. p' ≡ p) (Separate.pool_load i p)
  unfolding Separate.pool_load
  separate_load-live p i free (is, e) low miss =
      let (b, at) = get_elem?-some p.store i (omega (arith, low, e)) in
      rw (Separate.pool_load, at) (returns refl)

  pub separate_deallocate-live :
      (p : MemPoolSeparateFreeStructure Order) (i : ℕ) (free : List ℕ)
      → OwnsBlocks n p free
      → i < n
      → has i free ≡ false
      → Returns (λ _ p'. OwnsBlocks n p' (i ∷ free)) (Separate.pool_deallocate i p)
  unfolding Separate.pool_deallocate
  separate_deallocate-live p i free (is, e) low miss =
      let (p', run, (is', _, e')) = give_back_lem p i free is (omega (arith, low, e)) miss in
      rw (Separate.pool_deallocate, run) (returns (is', e' ∙ e))

  abbrev pub separate_laws : PoolLaws Separate.pool_allocator n
  separate_laws = record {
    Owns = OwnsBlocks n;
    allocate-cons = separate_allocate-cons;
    allocate-nil = separate_allocate-nil;
    load-live = separate_load-live;
    deallocate-live = separate_deallocate-live;
  }
