-- ===== src/Bench/Bursts.antt =====
-- The workloads that allocate as much as there is memory for, and that give it all back in some order.
use cpp_trading_exchange.Base.{
  ℕ, zero, suc, ◌+◌, ◌≤◌, ◌≡◌, ◌∙◌, sym, ap, refl, Option, some, List, [], ◌∷◌, ◌++◌, map, arith,
  length, length-append, length-map, get_elem?, get_elem?-map, set,
}
use mathlib.Core.Option
use cpp_trading_exchange.Base.Cmd.{◌>>◌, Returns, returns, Returns-bind, Returns-mono}
use cpp_trading_exchange.Pool.FreeList.{range}
use cpp_trading_exchange.Bench.{
  Allocator, Bench, deallocate_at, allocate_loop, deallocate_loop, deallocate_each,
}
use cpp_trading_exchange.Bench.Spread.{copies-get_elem?}
use cpp_trading_exchange.Bench.Laws.{LiveLaws}
use cpp_trading_exchange.Bench.Select.{Selects, Selects-range}
use cpp_trading_exchange.Bench.Churn.{map-snoc, Without-head, deallocate_at_lem, allocate_next}

get_elem?-middle :
    {A : Type 0} (xs : List A) (i : ℕ) (y : A) (ys : List A)
    → i ≡ length xs
    → get_elem? (xs ++ y ∷ ys) i ≡ some y
get_elem?-middle [] zero y ys e = refl
get_elem?-middle [] (suc i) y ys e = absurd (omega (arith, e))
get_elem?-middle (x ∷ xs) zero y ys e = absurd (omega (arith, e))
get_elem?-middle (x ∷ xs) (suc i) y ys e = get_elem?-middle xs i y ys (omega (arith, e))

set-middle :
    {A : Type 0} (xs : List A) (i : ℕ) (y v : A) (ys : List A)
    → i ≡ length xs
    → set (xs ++ y ∷ ys) i v ≡ (xs ++ v ∷ []) ++ ys
set-middle [] zero y v ys e = refl
set-middle [] (suc i) y v ys e = absurd (omega (arith, e))
set-middle (x ∷ xs) zero y v ys e = absurd (omega (arith, e))
set-middle (x ∷ xs) (suc i) y v ys e = ap (◌∷◌ x) (set-middle xs i y v ys (omega (arith, e)))

pub map-nil : (ps : List ℕ) → map some ps ++ [] ≡ map some ps
map-nil [] = refl
map-nil (p ∷ ps) = ap (◌∷◌ (some p)) (map-nil ps)

module _ {M : Type 0} (a : Allocator M) (ticks : ℕ → ℕ) (n : ℕ) (laws : LiveLaws a n) where
  -- The vector holds `k` pointers, which are the live ones.
  abbrev pub Taken : ℕ → List (Option ℕ) → Bench M → Type 0
  Taken k ptrs b = (ps : List ℕ) × (ptrs ≡ map some ps) × (length ps ≡ k) × laws.Live b.memory ps

  -- The vector after a pointer has been put at the place that is next.
  pub put_next :
      (ps : List ℕ) (i j : ℕ) (r : Option ℕ) (rest : List (Option ℕ))
      → i ≡ length ps
      → set (map some ps ++ r ∷ rest) i (some j) ≡ map some (ps ++ j ∷ []) ++ rest
  put_next ps i j r rest e =
      set-middle (map some ps) i r (some j) rest (e ∙ sym (length-map some ps))
      ∙ ap (λ xs. xs ++ rest) (map-snoc ps j)

  pub at_next :
      (ps : List ℕ) (i : ℕ) (r : Option ℕ) (rest : List (Option ℕ))
      → i ≡ length ps
      → get_elem? (map some ps ++ r ∷ rest) i ≡ some r
  at_next ps i r rest e = get_elem?-middle (map some ps) i r rest (e ∙ sym (length-map some ps))

  pub allocate_loop_lem :
      (rounds i : ℕ) (ps : List ℕ) (rest : List (Option ℕ)) (b : Bench M)
      → i ≡ length ps
      → length rest ≡ rounds
      → i + rounds ≤ n
      → laws.Live b.memory ps
      → Returns (Taken (i + rounds)) (allocate_loop a ticks rounds i (map some ps ++ rest) b)
  unfolding allocate_loop
  allocate_loop_lem zero i ps [] b e long enough is = returns (ps, map-nil ps, omega (arith, e), is)
  allocate_loop_lem zero i ps (r ∷ rest) b e long enough is = absurd (omega (arith, long))
  allocate_loop_lem (suc rounds) i ps [] b e long enough is = absurd (omega (arith, long))
  allocate_loop_lem (suc rounds) i ps (r ∷ rest) b e long enough is =
      rw (allocate_loop, at_next ps i r rest e)
        (Returns-bind (allocate_next a ticks n laws i ps b (omega (arith, e, enough)) is)
          λ p b1 (j, ep, is1).
            rw (ep, put_next ps i j r rest e)
              (Returns-mono
                (allocate_loop_lem rounds (i + 1) (ps ++ j ∷ []) rest b1
                  (omega (arith, e, length-append ps (j ∷ []))) (omega (arith, long))
                  (omega (arith, enough)) is1)
                λ ptrs b2 (qs, eq, size, is2). (qs, eq, omega (arith, size), is2)))

  pub deallocate_each_lem :
      (order qs ps : List ℕ) (b : Bench M)
      → Selects ps order qs
      → laws.Live b.memory qs
      → Returns (λ _ b'. laws.Live b'.memory []) (deallocate_each a ticks order (map some ps) b)
  unfolding deallocate_each
  deallocate_each_lem [] [] ps b sel is = returns is
  deallocate_each_lem [] (q ∷ qs) ps b sel is = elim sel [ ]
  deallocate_each_lem (i ∷ order) [] ps b sel is = elim sel [ ]
  deallocate_each_lem (i ∷ order) (q ∷ qs) ps b sel is =
      Returns-bind
        (deallocate_at_lem a ticks n laws b (map some ps) i q (q ∷ qs) qs
          (get_elem?-map some ps i ∙ ap (Option.map some) sel.0) is
          (copies-get_elem? (q ∷ qs) 0 q refl) (Without-head q qs))
        λ _ b1 is1. deallocate_each_lem order qs ps b1 sel.1 is1

  deallocate_loop_eq :
      (rounds i : ℕ) (ptrs : List (Option ℕ))
      → deallocate_loop a ticks rounds i ptrs ≡ deallocate_each a ticks (range i rounds) ptrs
  unfolding deallocate_loop deallocate_each
  deallocate_loop_eq zero i ptrs = refl
  deallocate_loop_eq (suc rounds) i ptrs =
      ap (λ c. deallocate_at a ticks i ptrs >> c) (deallocate_loop_eq rounds (i + 1) ptrs)

  pub deallocate_loop_lem :
      (ps : List ℕ) (b : Bench M)
      → laws.Live b.memory ps
      → Returns
          (λ _ b'. laws.Live b'.memory [])
          (deallocate_loop a ticks (length ps) 0 (map some ps) b)
  deallocate_loop_lem ps b is =
      rw (deallocate_loop_eq (length ps) 0 (map some ps))
        (deallocate_each_lem (range 0 (length ps)) ps ps b (Selects-range ps) is)
