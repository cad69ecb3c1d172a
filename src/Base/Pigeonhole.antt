-- ===== src/Base/Pigeonhole.antt =====
-- A list of different numbers below `n` has at most `n` of them.
use Prim.Native.Nat.{ℕ, zero, suc, ◌+◌, ◌≤◌, ◌<◌}
use mathlib.Core.Path.{◌≡◌, refl}
use mathlib.Core.Bool.{true, ◌&&◌, not}
use mathlib.Core.Logic.{inl, inr}
use mathlib.Core.List.{List, [], ◌∷◌}
use native.Mathlib.Omega.{arith}
use cpp_trading_exchange.Base.Tests.{Bool-cases, ◌==◌, ==-refl, if◌then◌else◌}
use cpp_trading_exchange.Base.Lists.{length, has, Distinct}

without : ℕ → List ℕ → List ℕ
without a [] = []
without a (x ∷ xs) = if a == x then xs else x ∷ without a xs

has-without :
    (a b : ℕ) (xs : List ℕ) → Distinct xs → has b (without a xs) ≡ (has b xs && not (b == a))
unfolding without
has-without a b [] d = refl
has-without a b (x ∷ xs) d = ground (arith, has-without a b xs d.1, d.0)

length-without : (a : ℕ) (xs : List ℕ) → has a xs ≡ true → length (without a xs) + 1 ≡ length xs
unfolding without
length-without a [] h = cc
length-without a (x ∷ xs) h = ground (arith, length-without a xs)

Distinct-without : (a : ℕ) (xs : List ℕ) → Distinct xs → Distinct (without a xs)
unfolding without
Distinct-without a [] d = tt
Distinct-without a (x ∷ xs) d = elim (Bool-cases (a == x)) [
  | inl hit ↦ rw hit d.1
  | inr miss ↦ rw miss (ground (arith, has-without a x xs d.1, d.0), Distinct-without a xs d.1)
]

pub length-Distinct :
    (n : ℕ) (xs : List ℕ) → Distinct xs → ((a : ℕ) → has a xs ≡ true → a < n) → length xs ≤ n
length-Distinct zero [] d low = omega arith
length-Distinct zero (x ∷ xs) d low = absurd (omega (arith, low x (ground (arith, ==-refl x))))
length-Distinct (suc n) xs d low = elim (Bool-cases (has n xs)) [
  | inl hit ↦
      let fewer =
        length-Distinct n (without n xs) (Distinct-without n xs d)
          λ a h. ground (arith, has-without n a xs d, low a, h) in
      omega (arith, fewer, length-without n xs hit)
  | inr miss ↦
      let few = length-Distinct n xs d λ a h. elim (Bool-cases (a == n)) [
        | inl same ↦ let e : a ≡ n = ground arith in absurd (cc)
        | inr other ↦ ground (arith, low a h)
      ] in
      omega (arith, few)
]
