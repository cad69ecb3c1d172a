-- ===== src/Bench/LiveHeap.antt =====
-- The C++ heap as the workloads see it: nothing but their own objects is touched.
use cpp_trading_exchange.Base.{
  ℕ, zero, suc, ◌<◌, ◌≤◌, ◌≡◌, ◌⊎◌, ◌∙◌, sym, ap, refl, inl, inr, Bool-cases, none, some, List, [],
  ◌∷◌, ◌++◌, arith, ◌==◌, ==-refl, if◌then◌else◌, length, get_elem?, get_elem?-set, set,
}
use cpp_trading_exchange.Base.Cmd.{Returns, returns}
use cpp_trading_exchange.Bench.{Order}
use cpp_trading_exchange.Bench.Heap.{
  Heap, object_of, make_object, read_object, release_object, heap_allocator,
}
use cpp_trading_exchange.Bench.Spread.{one_if, copies, copies-append}
use cpp_trading_exchange.Bench.Laws.{Without, LiveLaws}

get_elem?-snoc :
    {A : Type 0} (xs : List A) (v : A) (i : ℕ)
    → get_elem? (xs ++ v ∷ []) i ≡ (if i == length xs then some v else get_elem? xs i)
get_elem?-snoc [] v zero = ground arith
get_elem?-snoc [] v (suc i) = ground arith
get_elem?-snoc (x ∷ xs) v zero = ground arith
get_elem?-snoc (x ∷ xs) v (suc i) = ground (arith, get_elem?-snoc xs v i)

-- What stands at an address after `new`.
object_of-make :
    (h : Heap) (t : Order) (x : ℕ)
    → object_of (h ++ some t ∷ []) x ≡ (if x == length h then some t else object_of h x)
unfolding object_of
object_of-make h t x = elim (Bool-cases (x == length h)) [
  | inl e ↦ rw (object_of, get_elem?-snoc h (some t) x, e) refl
  | inr e ↦ rw (object_of, get_elem?-snoc h (some t) x, e) refl
]

object_of-lt : (h : Heap) (p : ℕ) (t : Order) → object_of h p ≡ some t → p < length h
unfolding object_of
object_of-lt [] p t e = cc
object_of-lt (c ∷ h) zero t e = omega arith
object_of-lt (c ∷ h) (suc p) t e = omega (arith, object_of-lt h p t e)

object_of-end : (h : Heap) → object_of h (length h) ≡ none
unfolding object_of
object_of-end [] = refl
object_of-end (c ∷ h) = object_of-end h

-- What stands at an address after `delete p`.
object_of-release :
    (h : Heap) (p x : ℕ)
    → p < length h
    → object_of (set h p none) x ≡ (if p == x then none else object_of h x)
unfolding object_of
object_of-release h p x low = elim (Bool-cases (p == x)) [
  | inl e ↦ rw (object_of, get_elem?-set h p x none low, e) refl
  | inr e ↦ rw (object_of, get_elem?-set h p x none low, e) refl
]

module _ (before : Heap) where
  -- The objects of the workloads are those at `ps`, which were not there before, and all others are as
  -- they were.
  abbrev pub Ours : Heap → List ℕ → Type 0
  Ours h ps =
      (x : ℕ)
      → ((copies x ps ≡ 0) × (object_of h x ≡ object_of before x))
        ⊎ ((copies x ps ≡ 1) × (object_of before x ≡ none) × (t : Order) × (object_of h x ≡ some t))

  pub Ours-once : (h : Heap) (ps : List ℕ) (x : ℕ) → Ours h ps → copies x ps ≤ 1
  Ours-once h ps x ours = elim (ours x) [
    | inl (zero_here, _) ↦ omega (arith, zero_here)
    | inr (one, _, _, _) ↦ omega (arith, one)
  ]

  pub Ours-reorder :
      (h : Heap) (ps qs : List ℕ)
      → Ours h ps
      → ((x : ℕ) → copies x qs ≡ copies x ps)
      → length qs ≡ length ps
      → Ours h qs
  Ours-reorder h ps qs ours same long x = elim (ours x) [
    | inl (zero_here, e) ↦ inl (same x ∙ zero_here, e)
    | inr (one, new, t, is) ↦ inr (same x ∙ one, new, t, is)
  ]

  Ours-here :
      (h : Heap) (p : ℕ) (ps : List ℕ)
      → Ours h ps
      → 0 < copies p ps
      → (copies p ps ≡ 1) × (object_of before p ≡ none) × (t : Order) × (object_of h p ≡ some t)
  Ours-here h p ps ours here = elim (ours p) [
    | inl (zero_here, _) ↦ absurd (omega (arith, zero_here, here))
    | inr more ↦ more
  ]

  -- The address that `new` takes is that of nothing live.
  make_object-Ours :
      (h : Heap) (t : Order) (ps : List ℕ)
      → Ours h ps
      → object_of before (length h) ≡ none
      → copies (length h) ps ≡ 0
      → Ours (h ++ some t ∷ []) (ps ++ length h ∷ [])
  make_object-Ours h t ps ours fresh zero_here x =
      let more = copies-append ps (length h ∷ []) x in
      elim (Bool-cases (x == length h)) [
        | inl e ↦
            let same : x ≡ length h = ground (arith, e) in
            inr (
              rw same (
                  omega (
                    arith,
                    copies-append ps (length h ∷ []) (length h),
                    zero_here,
                    ap one_if (==-refl (length h)),
                  )),
              rw same fresh,
              t,
              rw (object_of-make h t x, e) refl,
            )
        | inr e ↦
            let at : object_of (h ++ some t ∷ []) x ≡ object_of h x =
              rw (object_of-make h t x, e) refl in
            elim (ours x) [
              | inl (none_here, was) ↦ inl (ground (arith, more, none_here, e), at ∙ was)
              | inr (one, new, t', is) ↦ inr (ground (arith, more, one, e), new, t', at ∙ is)
            ]
      ]

  release_object-Ours :
      (h : Heap) (p : ℕ) (t : Order) (ps qs : List ℕ)
      → Ours h ps
      → Without p ps qs
      → object_of h p ≡ some t
      → object_of before p ≡ none
      → copies p ps ≡ 1
      → Ours (set h p none) qs
  release_object-Ours h p t ps qs ours w at fresh one x =
      let left = w.once x in
      let read = object_of-release h p x (object_of-lt h p t at) in
      elim (Bool-cases (p == x)) [
        | inl e ↦
            let same : p ≡ x = ground (arith, e) in
            inl (
              ground (arith, w.once p, one, same, ==-refl p),
              rw (read, e) (sym (sym (ap (object_of before) same) ∙ fresh)),
            )
        | inr e ↦
            let still : object_of (set h p none) x ≡ object_of h x = rw (read, e) refl in
            elim (ours x) [
              | inl (zero_here, was) ↦ inl (ground (arith, left, zero_here), still ∙ was)
              | inr (once, new, t', is) ↦ inr (ground (arith, left, once, e), new, t', still ∙ is)
            ]
      ]

  pub allocate-Ours :
      (n : ℕ) (h : Heap) (t : Order) (ps : List ℕ)
      → Ours h ps
      → Returns
          (λ p h'.
            ((j : ℕ) × (p ≡ some j) × Ours h' (ps ++ j ∷ []))
            ⊎ ((p ≡ none) × (n ≤ length ps) × Ours h' ps))
          (make_object t h)
  unfolding make_object
  allocate-Ours n h t ps ours = elim (ours (length h)) [
    | inl (zero_here, was) ↦
        returns
          (inl (length h, refl, make_object-Ours h t ps ours (sym was ∙ object_of-end h) zero_here))
    | inr (_, _, t', at) ↦ absurd (omega (arith, object_of-lt h (length h) t' at))
  ]

  pub load-Ours :
      (h : Heap) (p : ℕ) (ps : List ℕ)
      → Ours h ps
      → 0 < copies p ps
      → Returns (λ o h'. h' ≡ h) (read_object p h)
  unfolding read_object
  load-Ours h p ps ours here =
      let (_, _, t, at) = Ours-here h p ps ours here in rw (read_object, at) (returns refl)

  pub deallocate-Ours :
      (h : Heap) (p : ℕ) (ps qs : List ℕ)
      → Ours h ps
      → Without p ps qs
      → Returns (λ _ h'. Ours h' qs) (release_object p h)
  unfolding release_object
  deallocate-Ours h p ps qs ours w =
      let (one, fresh, t, at) =
        Ours-here h p ps ours (omega (arith, w.once p, ap one_if (==-refl p))) in
      rw (release_object, at) (returns (release_object-Ours h p t ps qs ours w at fresh one))

  abbrev pub heap_laws : (n : ℕ) → LiveLaws heap_allocator n
  heap_laws n = record {
    Live = Ours;
    once-Live = Ours-once;
    reorder = Ours-reorder;
    allocate-Live = allocate-Ours n;
    load-Live = load-Ours;
    deallocate-Live = deallocate-Ours;
  }
