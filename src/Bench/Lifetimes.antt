-- ===== src/Bench/Lifetimes.antt =====
-- The lifetimes of the objects in the pools of the benchmarks. The pools keep no record of them, and a
-- read of an object before its lifetime or after it is undefined, as is its destruction: they are a part
-- of the state here, next to the memory.
use cpp_trading_exchange.Base.{
  ℕ, ◌+◌, ◌≤◌, ◌<◌, ◌≡◌, ◌⊎◌, ◌∙◌, sym, ap, refl, inl, inr, Bool-cases, true, false, Option, none,
  some, List, [], ◌∷◌, ◌++◌, arith, ◌==◌, ==-refl, if◌then◌else◌, length, has,
}
use cpp_trading_exchange.Base.Cmd.{Cmd, Returns, returns}
use cpp_trading_exchange.Bench.{Order, Allocator}
use cpp_trading_exchange.Bench.Spread.{one_if, copies, copies-append, copies-has}
use cpp_trading_exchange.Bench.Laws.{Without, LiveLaws}

-- `live` are the objects that have been constructed and not destroyed.
pub record Lived (M : Type 0) : Type 0 where
  pub memory : M
  pub live : List ℕ

-- A new memory, with no object.
abbrev pub born : {M : Type 0} → M → Lived M
born m = record { memory = m; live = [] }

abbrev pub newborn : {M : Type 0} → Option M → Option (Lived M)
newborn none = none
newborn (some m) = some (born m)

unfoldable pub end_life : ℕ → List ℕ → List ℕ
end_life p [] = []
end_life p (x ∷ xs) = let rest = end_life p xs in if p == x then xs else x ∷ rest

module _ {M : Type 0} (a : Allocator M) where
  -- A construction in the place of an object that lives is undefined too.
  unfoldable pub allocate_lived : Order → Cmd (Lived M) (Option ℕ)
  allocate_lived t m = elim (a.allocate t m.memory) [
    | none ↦ none
    | some (none, memory) ↦ some (none, record m { memory = memory })
    | some (some p, memory) ↦
        if has p m.live then none else some (some p, record { memory = memory; live = p ∷ m.live })
  ]

  unfoldable pub load_lived : ℕ → Cmd (Lived M) Order
  load_lived p m = elim (has p m.live) [
    | false ↦ none
    | true ↦ elim (a.load p m.memory) [
      | none ↦ none
      | some (o, memory) ↦ some (o, record m { memory = memory })
    ]
  ]

  unfoldable pub deallocate_lived : ℕ → Cmd (Lived M) (Unit {0})
  unfolding end_life
  deallocate_lived p m = elim (has p m.live) [
    | false ↦ none
    | true ↦ elim (a.deallocate p m.memory) [
      | none ↦ none
      | some (_, memory) ↦ some (tt, record { memory = memory; live = end_life p m.live })
    ]
  ]

  -- The allocator, with a fault wherever an object is not in its lifetime.
  abbrev pub checked : Allocator (Lived M)
  checked = record { allocate = allocate_lived; load = load_lived; deallocate = deallocate_lived }

copies-end_life :
    (p x : ℕ) (xs : List ℕ)
    → has p xs ≡ true
    → copies x (end_life p xs) + one_if (x == p) ≡ copies x xs
unfolding end_life
copies-end_life p x [] h = cc
copies-end_life p x (y ∷ ys) h = elim (Bool-cases (p == y)) [
  | inl e ↦ let same : p ≡ y = ground arith in rw (e, same) (omega arith)
  | inr e ↦ rw e (ground (arith, copies-end_life p x ys, e, h))
]

has-copies : (p : ℕ) (xs : List ℕ) → 0 < copies p xs → has p xs ≡ true
has-copies p [] h = absurd (omega (arith, h))
has-copies p (x ∷ xs) h = ground (arith, has-copies p xs)

copies-none : (xs : List ℕ) → ((x : ℕ) → copies x xs ≡ 0) → xs ≡ []
copies-none [] h = refl
copies-none (x ∷ xs) h = absurd (omega (arith, h x, ap one_if (==-refl x)))

module _ {M : Type 0} (a : Allocator M) (n : ℕ) (laws : LiveLaws a n) where
  -- The objects in their lifetime are those at `ps`.
  abbrev pub InLife : Lived M → List ℕ → Type 0
  InLife m ps = laws.Live m.memory ps × ((x : ℕ) → copies x m.live ≡ copies x ps)

  pub allocate-InLife :
      (m : Lived M) (t : Order) (ps : List ℕ)
      → InLife m ps
      → Returns
          (λ p m'.
            ((j : ℕ) × (p ≡ some j) × InLife m' (ps ++ j ∷ []))
            ⊎ ((p ≡ none) × (n ≤ length ps) × InLife m' ps))
          (allocate_lived a t m)
  unfolding allocate_lived
  allocate-InLife m t ps (is, same) = placed (laws.allocate-Live m.memory t ps is)
    where
      placed :
          {run : Option (Option ℕ × M)}
          → Returns
              (λ p m'.
                ((j : ℕ) × (p ≡ some j) × laws.Live m' (ps ++ j ∷ []))
                ⊎ ((p ≡ none) × (n ≤ length ps) × laws.Live m' ps))
              run
          → Returns
              (λ p m'.
                ((j : ℕ) × (p ≡ some j) × InLife m' (ps ++ j ∷ []))
                ⊎ ((p ≡ none) × (n ≤ length ps) × InLife m' ps))
              (elim run [
                | none ↦ none
                | some (none, memory) ↦ some (none, record m { memory = memory })
                | some (some p, memory) ↦
                    if has p m.live
                    then none
                    else some (some p, record { memory = memory; live = p ∷ m.live })
              ])
      placed (returns {m = m'} (inl (j, e, now))) =
          let once = laws.once-Live m' (ps ++ j ∷ []) j now in
          let more = copies-append ps (j ∷ []) j in
          let fresh : has j m.live ≡ false =
            copies-has j m.live (omega (arith, once, more, same j, ap one_if (==-refl j))) in
          rw (e, fresh)
            (returns
              (inl (j, refl, (now, λ x. omega (arith, copies-append ps (j ∷ []) x, same x)))))
      placed (returns (inr (e, full, now))) = rw e (returns (inr (refl, full, (now, same))))

  pub load-InLife :
      (m : Lived M) (p : ℕ) (ps : List ℕ)
      → InLife m ps
      → 0 < copies p ps
      → Returns (λ o m'. m' ≡ m) (load_lived a p m)
  unfolding load_lived
  load-InLife m p ps (is, same) here =
      rw (load_lived, has-copies p m.live (omega (arith, here, same p)))
        (kept (laws.load-Live m.memory p ps is here))
    where
      kept :
          {run : Option (Order × M)}
          → Returns (λ o m'. m' ≡ m.memory) run
          → Returns
              (λ o m'. m' ≡ m)
              (elim run [ none ↦ none | some (o, memory) ↦ some (o, record m { memory = memory }) ])
      kept (returns e) = returns (ap (λ memory. record m { memory = memory }) e)

  pub deallocate-InLife :
      (m : Lived M) (p : ℕ) (ps qs : List ℕ)
      → InLife m ps
      → Without p ps qs
      → Returns (λ _ m'. InLife m' qs) (deallocate_lived a p m)
  unfolding deallocate_lived
  deallocate-InLife m p ps qs (is, same) w =
      let lives = has-copies p m.live (omega (arith, same p, w.once p, ap one_if (==-refl p))) in
      rw (deallocate_lived, lives) (ended lives (laws.deallocate-Live m.memory p ps qs is w))
    where
      ended :
          {run : Option (Unit {0} × M)}
          → has p m.live ≡ true
          → Returns (λ _ m'. laws.Live m' qs) run
          → Returns
              (λ _ m'. InLife m' qs)
              (elim run [
                | none ↦ none
                | some (_, memory) ↦ some (tt, record { memory = memory; live = end_life p m.live })
              ])
      ended lives (returns now) =
          returns (now, λ x. omega (arith, copies-end_life p x m.live lives, w.once x, same x))

  abbrev pub checked_laws : LiveLaws (checked a) n
  checked_laws = record {
    Live = InLife;
    once-Live = λ m ps x is. laws.once-Live m.memory ps x is.0;
    reorder = λ m ps qs is counts long.
        (laws.reorder m.memory ps qs is.0 counts long, λ x. is.1 x ∙ sym (counts x));
    allocate-Live = allocate-InLife;
    load-Live = load-InLife;
    deallocate-Live = deallocate-InLife;
  }

  -- Where none of the workloads' objects is left, none is in its lifetime.
  pub InLife-none : (m : Lived M) → InLife m [] → m.live ≡ []
  InLife-none m is = copies-none m.live is.1
