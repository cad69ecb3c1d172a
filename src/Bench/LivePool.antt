-- ===== src/Bench/LivePool.antt =====
-- A pool as the workloads see it: the live slots are those that are not free.
use cpp_trading_exchange.Base.{
  ℕ, ◌<◌, ◌≤◌, ◌≡◌, ◌⊎◌, inl, inr, false, none, some, List, [], ◌∷◌, ◌++◌, arith, length,
  length-append, has,
}
use cpp_trading_exchange.Base.Cmd.{Returns, Returns-mono}
use cpp_trading_exchange.Bench.{Order, Allocator}
use cpp_trading_exchange.Bench.Spread.{copies, copies-append, copies-has, Spread}
use cpp_trading_exchange.Bench.Laws.{PoolLaws, Without, LiveLaws}

module _ {M : Type 0} (a : Allocator M) (n : ℕ) (laws : PoolLaws a n) where
  -- All slots are free but those of `ps`.
  abbrev pub AllBut : M → List ℕ → Type 0
  AllBut m ps = (free : List ℕ) × laws.Owns m free × Spread n ps free

  pub AllBut-once : (m : M) (ps : List ℕ) (x : ℕ) → AllBut m ps → copies x ps ≤ 1
  AllBut-once m ps x (free, owns, s) = let once = s.once x in ground arith

  pub AllBut-reorder :
      (m : M) (ps qs : List ℕ)
      → AllBut m ps
      → ((x : ℕ) → copies x qs ≡ copies x ps)
      → length qs ≡ length ps
      → AllBut m qs
  AllBut-reorder m ps qs (free, owns, s) same long = (
    free,
    owns,
    record { once = λ x. omega (arith, s.once x, same x); whole = omega (arith, s.whole, long) },
  )

  Spread-push : (ps free : List ℕ) (i : ℕ) → Spread n ps (i ∷ free) → Spread n (ps ++ i ∷ []) free
  Spread-push ps free i s = record {
    once = λ x. omega (arith, s.once x, copies-append ps (i ∷ []) x);
    whole = omega (arith, s.whole, length-append ps (i ∷ []));
  }

  pub allocate-AllBut :
      (m : M) (t : Order) (ps : List ℕ)
      → AllBut m ps
      → Returns
          (λ p m'.
            ((j : ℕ) × (p ≡ some j) × AllBut m' (ps ++ j ∷ []))
            ⊎ ((p ≡ none) × (n ≤ length ps) × AllBut m' ps))
          (a.allocate t m)
  allocate-AllBut m t ps ([], owns, s) =
      Returns-mono (laws.allocate-nil m t owns)
        λ p m' (e, owns'). inr (e, omega (arith, s.whole), ([], owns', s))
  allocate-AllBut m t ps (i ∷ free, owns, s) =
      Returns-mono (laws.allocate-cons m t i free owns)
        λ p m' (e, owns'). inl (i, e, (free, owns', Spread-push ps free i s))

  Spread-live :
      (ps free : List ℕ) (p : ℕ)
      → Spread n ps free
      → 0 < copies p ps
      → (p < n) × (has p free ≡ false)
  Spread-live ps free p s here =
      let once = s.once p in (ground arith, copies-has p free (ground arith))

  pub load-AllBut :
      (m : M) (p : ℕ) (ps : List ℕ)
      → AllBut m ps
      → 0 < copies p ps
      → Returns (λ o m'. m' ≡ m) (a.load p m)
  load-AllBut m p ps (free, owns, s) here =
      let (low, miss) = Spread-live ps free p s here in laws.load-live m p free owns low miss

  pub deallocate-AllBut :
      (m : M) (p : ℕ) (ps qs : List ℕ)
      → AllBut m ps
      → Without p ps qs
      → Returns (λ _ m'. AllBut m' qs) (a.deallocate p m)
  deallocate-AllBut m p ps qs (free, owns, s) w =
      let here = w.once p in
      let (low, miss) = Spread-live ps free p s (ground arith) in
      Returns-mono (laws.deallocate-live m p free owns low miss) λ _ m' owns'. (
        p ∷ free,
        owns',
        record {
          once = λ x. omega (arith, w.once x, s.once x);
          whole = omega (arith, w.fewer, s.whole);
        },
      )

  abbrev pub live_laws : LiveLaws a n
  live_laws = record {
    Live = AllBut;
    once-Live = AllBut-once;
    reorder = AllBut-reorder;
    allocate-Live = allocate-AllBut;
    load-Live = load-AllBut;
    deallocate-Live = deallocate-AllBut;
  }
