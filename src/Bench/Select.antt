-- ===== src/Bench/Select.antt =====
-- The pointers at given indices of a vector, in the order in which the indices are visited.
use cpp_trading_exchange.Base.{
  ℕ, suc, ◌+◌, ◌≡◌, ◌∙◌, sym, ap, refl, some, List, [], ◌∷◌, arith, length, get_elem?,
}
use mathlib.Core.List.{Permᴰ}
use cpp_trading_exchange.Pool.FreeList.{range}
use cpp_trading_exchange.Bench.Spread.{copies}

abbrev pub Selects : List ℕ → List ℕ → List ℕ → Type 0
Selects ps [] [] = Unit
Selects ps [] (q ∷ qs) = ⊥
Selects ps (i ∷ is) [] = ⊥
Selects ps (i ∷ is) (q ∷ qs) = (get_elem? ps i ≡ some q) × Selects ps is qs

Selects-range_from :
    (all : List ℕ) (i : ℕ) (ys : List ℕ)
    → ((j : ℕ) → get_elem? all (i + j) ≡ get_elem? ys j)
    → Selects all (range i (length ys)) ys
Selects-range_from all i [] same = tt
Selects-range_from all i (y ∷ ys) same = (
  ap (get_elem? all) (omega arith) ∙ same 0,
  Selects-range_from all (i + 1) ys λ j. ap (get_elem? all) (omega arith) ∙ same (suc j),
)

-- Each index once, from the first to the last, selects the whole vector.
pub Selects-range : (ps : List ℕ) → Selects ps (range 0 (length ps)) ps
Selects-range ps = Selects-range_from ps 0 ps λ j. ap (get_elem? ps) (omega arith)

-- The same pointers in another order.
abbrev pub Reordered : List ℕ → List ℕ → List ℕ → Type 0
Reordered ps js qs =
    (rs : List ℕ) × Selects ps js rs
    × ((a : ℕ) → copies a rs ≡ copies a qs)
    × (length rs ≡ length qs)

pub Selects-Perm :
    (ps : List ℕ) {is js : List ℕ} (qs : List ℕ)
    → Permᴰ is js
    → Selects ps is qs
    → Reordered ps js qs
Selects-Perm ps [] Permᴰ.nil s = ([], tt, (λ a. refl), refl)
Selects-Perm ps (q ∷ qs) Permᴰ.nil s = elim s [ ]
Selects-Perm ps [] (Permᴰ.cons e d) s = elim s [ ]
Selects-Perm ps (q ∷ qs) (Permᴰ.cons e d) s =
    let (rs, t, counts, long) = Selects-Perm ps qs d s.1 in
    (
      q ∷ rs,
      (ap (get_elem? ps) (sym e) ∙ s.0, t),
      (λ a. omega (arith, counts a)),
      omega (arith, long),
    )
Selects-Perm ps [] (Permᴰ.swap e e') s = elim s [ ]
Selects-Perm ps (q ∷ []) (Permᴰ.swap e e') s = elim s.1 [ ]
Selects-Perm ps (q ∷ r ∷ qs) (Permᴰ.swap e e') s = (
  r ∷ q ∷ qs,
  (ap (get_elem? ps) (sym e') ∙ s.1.0, (ap (get_elem? ps) (sym e) ∙ s.0, s.1.1)),
  (λ a. omega arith),
  refl,
)
Selects-Perm ps qs (Permᴰ.trans d d') s =
    let (rs, t, counts, long) = Selects-Perm ps qs d s in
    let (rs', t', counts', long') = Selects-Perm ps rs d' t in
    (rs', t', (λ a. counts' a ∙ counts a), long' ∙ long)
