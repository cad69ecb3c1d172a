-- ===== src/Bench/Spread.antt =====
-- How often a slot stands in a list, and what the vectors of project/mem_pool_benchmark.cpp do to it.
use cpp_trading_exchange.Base.{
  ℕ, zero, suc, ◌+◌, ◌<◌, ◌≡◌, sym, ap, refl, Bool, true, false, some, List, [], ◌∷◌, ◌++◌, map,
  arith, ltb, ◌==◌, ==-refl, length, length-set, map-set, get_elem?, set, has,
}
use mathlib.Core.Option
use cpp_trading_exchange.Bench.{back, pop_back, swap_out}

abbrev pub one_if : Bool → ℕ
one_if true = 1
one_if false = 0

abbrev pub copies : ℕ → List ℕ → ℕ
copies a [] = 0
copies a (x ∷ xs) = one_if (a == x) + copies a xs

pub copies-append :
    (live more : List ℕ) (a : ℕ) → copies a (live ++ more) ≡ copies a live + copies a more
copies-append [] more a = omega arith
copies-append (p ∷ live) more a = omega (arith, copies-append live more a)

pub copies-has : (a : ℕ) (xs : List ℕ) → copies a xs ≡ 0 → has a xs ≡ false
copies-has a [] h = refl
copies-has a (x ∷ xs) h = ground (arith, copies-has a xs)

pub copies-get_elem? : (xs : List ℕ) (i p : ℕ) → get_elem? xs i ≡ some p → 0 < copies p xs
copies-get_elem? [] i p h = cc
copies-get_elem? (x ∷ xs) zero p h = ground (arith, ==-refl p)
copies-get_elem? (x ∷ xs) (suc i) p h = ground (arith, copies-get_elem? xs i p)

-- The slots of `live` and `free` together are those below `n`, each once.
pub record Spread (n : ℕ) (live free : List ℕ) : Type 0 where
  pub once : (a : ℕ) → copies a live + copies a free ≡ one_if (ltb a n)
  pub whole : length live + length free ≡ n

back-set : (xs : List ℕ) (i x : ℕ) → back xs ≡ some x → back (set xs i x) ≡ some x
unfolding back
back-set [] i x h = h
back-set (y ∷ []) zero x h = refl
back-set (y ∷ []) (suc i) x h = h
back-set (y ∷ z ∷ xs) zero x h = h
back-set (y ∷ z ∷ xs) (suc zero) x h = back-set (z ∷ xs) zero x h
back-set (y ∷ z ∷ xs) (suc (suc i)) x h = back-set (z ∷ xs) (suc i) x h

copies-pop_back :
    (a : ℕ) (xs : List ℕ) (x : ℕ)
    → back xs ≡ some x
    → copies a (pop_back xs) + one_if (a == x) ≡ copies a xs
unfolding back pop_back
copies-pop_back a [] x h = cc
copies-pop_back a (y ∷ []) x h = let e : y ≡ x = ground arith in rw e (omega arith)
copies-pop_back a (y ∷ z ∷ xs) x h = omega (arith, copies-pop_back a (z ∷ xs) x h)

copies-set :
    (a : ℕ) (xs : List ℕ) (i p x : ℕ)
    → get_elem? xs i ≡ some p
    → copies a (set xs i x) + one_if (a == p) ≡ copies a xs + one_if (a == x)
copies-set a [] i p x h = cc
copies-set a (y ∷ xs) zero p x h = let e : y ≡ p = ground arith in rw e (omega arith)
copies-set a (y ∷ xs) (suc i) p x h = omega (arith, copies-set a xs i p x h)

back-some : (xs : List ℕ) → 0 < length xs → (x : ℕ) × (back xs ≡ some x)
unfolding back
back-some [] h = elim h [ ]
back-some (y ∷ []) h = (y, refl)
back-some (y ∷ z ∷ xs) h = back-some (z ∷ xs) (omega arith)

length-pop_back : (xs : List ℕ) → 0 < length xs → length (pop_back xs) + 1 ≡ length xs
unfolding pop_back
length-pop_back [] h = elim h [ ]
length-pop_back (y ∷ []) h = omega arith
length-pop_back (y ∷ z ∷ xs) h = omega (arith, length-pop_back (z ∷ xs))

back-map : (xs : List ℕ) → back (map some xs) ≡ Option.map some (back xs)
unfolding back
back-map [] = refl
back-map (y ∷ []) = refl
back-map (y ∷ z ∷ xs) = back-map (z ∷ xs)

pop_back-map : (xs : List ℕ) → pop_back (map some xs) ≡ map some (pop_back xs)
unfolding pop_back
pop_back-map [] = refl
pop_back-map (y ∷ []) = refl
pop_back-map (y ∷ z ∷ xs) = ap (◌∷◌ (some y)) (pop_back-map (z ∷ xs))

get_elem?-positive :
    {A : Type 0} (xs : List A) (i : ℕ) (p : A) → get_elem? xs i ≡ some p → 0 < length xs
get_elem?-positive [] i p h = cc
get_elem?-positive (x ∷ xs) i p h = omega arith

-- `live[idx] = live.back(); live.pop_back();` takes one occurrence of the pointer at `idx` away.
pub swap_out_lem :
    (ps : List ℕ) (i p : ℕ)
    → get_elem? ps i ≡ some p
    → (qs : List ℕ) × (swap_out i (map some ps) ≡ map some qs)
      × ((a : ℕ) → copies a qs + one_if (a == p) ≡ copies a ps)
      × (length qs + 1 ≡ length ps)
unfolding swap_out
swap_out_lem ps i p h =
    let (x, e) = back-some ps (get_elem?-positive ps i p h) in
    let last = back-set ps i x e in
    (
      pop_back (set ps i x),
      rw (swap_out, back-map ps, e, sym (map-set some ps i x)) (pop_back-map (set ps i x)),
      (λ a. omega (arith, copies-pop_back a (set ps i x) x last, copies-set a ps i p x h)),
      omega (arith, length-pop_back (set ps i x), length-set ps i x, get_elem?-positive ps i p h),
    )
