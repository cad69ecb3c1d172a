-- ===== src/Containers/Sums.antt =====
-- Totals of lists, which no reordering changes, and what they add to the sink.
use cpp_trading_exchange.Base.{
  ℕ, zero, suc, ◌+◌, ◌%◌, ◌≡◌, refl, ap, List, [], ◌∷◌, arith, map, has, length,
}
use mathlib.Core.List.{Permᴰ}
use cpp_trading_exchange.Bench.{uint64, Bench}

abbrev pub total : List ℕ → ℕ
total [] = 0
total (x ∷ xs) = x + total xs

pub total-Perm :
    {A : Type 0} (f : A → ℕ) {xs ys : List A} → Permᴰ xs ys → total (map f xs) ≡ total (map f ys)
total-Perm f Permᴰ.nil = refl
total-Perm f (Permᴰ.cons e d) = omega (arith, ap f e, total-Perm f d)
total-Perm f (Permᴰ.swap e e') = omega (arith, ap f e, ap f e')
total-Perm f (Permᴰ.trans d d') = omega (arith, total-Perm f d, total-Perm f d')

pub has-Perm : (k : ℕ) {xs ys : List ℕ} → Permᴰ xs ys → has k xs ≡ has k ys
has-Perm k Permᴰ.nil = refl
has-Perm k (Permᴰ.cons e d) = rw (e, has-Perm k d)
has-Perm k (Permᴰ.swap e e') = rw (e, e') (ground arith)
has-Perm k (Permᴰ.trans d d') = rw (has-Perm k d, has-Perm k d')

pub length-Perm : {A : Type 0} {xs ys : List A} → Permᴰ xs ys → length xs ≡ length ys
length-Perm Permᴰ.nil = refl
length-Perm (Permᴰ.cons e d) = ap suc (length-Perm d)
length-Perm (Permᴰ.swap e e') = refl
length-Perm (Permᴰ.trans d d') = omega (arith, length-Perm d, length-Perm d')

-- The sink has grown by `v`, modulo 2^64.
abbrev pub Adds : {M : Type 0} → ℕ → Bench M → Bench M → Type 0
Adds v b b' = b'.sink % uint64 ≡ (b.sink + v) % uint64

abbrev pub take : {A : Type 0} → ℕ → List A → List A
take zero xs = []
take (suc n) [] = []
take (suc n) (x ∷ xs) = x ∷ take n xs

pub Adds-trans :
    {M : Type 0} (v w : ℕ) (b b' b'' : Bench M) → Adds v b b' → Adds w b' b'' → Adds (v + w) b b''
Adds-trans v w b b' b'' h g = omega (arith, h, g)

pub Adds-none : {M : Type 0} (b : Bench M) → Adds 0 b b
Adds-none b = omega arith
