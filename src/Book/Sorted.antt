-- ===== src/Book/Sorted.antt =====
-- The order of the levels, and what matching and reversal keep of it.
use cpp_trading_exchange.Base.{
  ℕ, ◌+◌, ◌<◌, ◌≡◌, ◌∙◌, sym, ap, refl, Bool, true, false, List, [], ◌∷◌, ◌++◌, arith, length, has,
  has-append, has_other, Distinct, Distinct-append,
}
use mathlib.Core.List.{reverse, reverse-cons}
use cpp_trading_exchange.Order.Memory.{Memory}
use cpp_trading_exchange.Book.{PriceLevels}
use cpp_trading_exchange.Book.Rows.{Resting, match_row}
use cpp_trading_exchange.Book.Sweep.{Row, is_nil, sweep, sweep_cases}
use cpp_trading_exchange.Book.Side.{Placed, keys, WellPlaced, IsSide}

-- Every number of the list is above `k`.
abbrev pub Above : ℕ → List ℕ → Type 0
Above k [] = Unit
Above k (j ∷ js) = (k < j) × Above k js

abbrev pub Ascending : List ℕ → Type 0
Ascending [] = Unit
Ascending (k ∷ ks) = Above k ks × Ascending ks

pub Above-not_has : (k : ℕ) (ks : List ℕ) → Above k ks → has k ks ≡ false
Above-not_has k [] h = refl
Above-not_has k (j ∷ js) h = ground (arith, Above-not_has k js h.1)

pub Ascending-Distinct : (ks : List ℕ) → Ascending ks → Distinct ks
Ascending-Distinct [] a = tt
Ascending-Distinct (k ∷ ks) a = (Above-not_has k ks a.0, Ascending-Distinct ks a.1)

pub Above-append_left : (k : ℕ) (xs ys : List ℕ) → Above k (xs ++ ys) → Above k xs
Above-append_left k [] ys h = tt
Above-append_left k (x ∷ xs) ys h = (h.0, Above-append_left k xs ys h.1)

pub Ascending-append_left : (xs ys : List ℕ) → Ascending (xs ++ ys) → Ascending xs
Ascending-append_left [] ys h = tt
Ascending-append_left (x ∷ xs) ys h =
    (Above-append_left x xs ys h.0, Ascending-append_left xs ys h.1)

pub Ascending-append_right : (xs ys : List ℕ) → Ascending (xs ++ ys) → Ascending ys
Ascending-append_right [] ys h = h
Ascending-append_right (x ∷ xs) ys h = Ascending-append_right xs ys h.1

pub has-reverse : (a : ℕ) (xs : List ℕ) → has a (reverse xs) ≡ has a xs
has-reverse a [] = refl
has-reverse a (x ∷ xs) =
    rw (reverse-cons x xs, has-append a (reverse xs) (x ∷ []), has-reverse a xs) (ground arith)

pub Distinct-reverse : (xs : List ℕ) → Distinct xs → Distinct (reverse xs)
Distinct-reverse [] d = tt
Distinct-reverse (x ∷ xs) d = rw (reverse-cons x xs) (
    Distinct-append (reverse xs) (x ∷ []) (Distinct-reverse xs d.1) (refl, tt)
      λ a h. let k : has a xs ≡ true = sym (has-reverse a xs) ∙ h in has_other a x xs d.0 k)

-- Every level is not empty and holds orders of its price and of the side.
abbrev pub AllPlaced : Bool → List Row → Type 0
AllPlaced s [] = Unit
AllPlaced s ((k, xs) ∷ rs) = (0 < length xs) × Placed s k xs × AllPlaced s rs

pub AllPlaced-WellPlaced :
    (s : Bool) (rs : List Row) → AllPlaced s rs → Distinct (keys rs) → WellPlaced s rs
AllPlaced-WellPlaced s [] p d = tt
AllPlaced-WellPlaced s ((k, xs) ∷ rs) p d = (d.0, p.0, p.1, AllPlaced-WellPlaced s rs p.2 d.1)

AllPlaced-append :
    (s : Bool) (xs ys : List Row) → AllPlaced s xs → AllPlaced s ys → AllPlaced s (xs ++ ys)
AllPlaced-append s [] ys p q = q
AllPlaced-append s (r ∷ rs) ys p q = (p.0, p.1, AllPlaced-append s rs ys p.2 q)

pub AllPlaced-reverse : (s : Bool) (rs : List Row) → AllPlaced s rs → AllPlaced s (reverse rs)
AllPlaced-reverse s [] p = tt
AllPlaced-reverse s (r ∷ rs) p =
    rw (reverse-cons r rs)
      (AllPlaced-append s (reverse rs) (r ∷ []) (AllPlaced-reverse s rs p.2) (p.0, p.1, tt))

keys-append : {V : Type 0} (xs ys : List (ℕ × V)) → keys (xs ++ ys) ≡ keys xs ++ keys ys
keys-append [] ys = refl
keys-append ((k, v) ∷ xs) ys = rw (keys-append xs ys)

pub keys-reverse : {V : Type 0} (xs : List (ℕ × V)) → keys (reverse xs) ≡ reverse (keys xs)
keys-reverse [] = refl
keys-reverse ((k, v) ∷ xs) =
    rw (reverse-cons (k, v) xs, keys-append (reverse xs) ((k, v) ∷ []), keys-reverse xs)
      (sym (reverse-cons k (keys xs)))

pub IsSide-append :
    (m : Memory) (ls ks : PriceLevels) (rs ss : List Row)
    → IsSide m ls rs
    → IsSide m ks ss
    → IsSide m (ls ++ ks) (rs ++ ss)
IsSide-append m [] ks [] ss p q = q
IsSide-append m [] ks (r ∷ rs) ss p q = elim p [ ]
IsSide-append m (l ∷ ls) ks [] ss p q = elim p [ ]
IsSide-append m (l ∷ ls) ks (r ∷ rs) ss p q = (p.0, p.1, IsSide-append m ls ks rs ss p.2 q)

pub IsSide-reverse :
    (m : Memory) (ls : PriceLevels) (rs : List Row)
    → IsSide m ls rs
    → IsSide m (reverse ls) (reverse rs)
IsSide-reverse m [] [] p = tt
IsSide-reverse m [] (r ∷ rs) p = elim p [ ]
IsSide-reverse m (l ∷ ls) [] p = elim p [ ]
IsSide-reverse m (l ∷ ls) (r ∷ rs) p =
    rw (reverse-cons l ls, reverse-cons r rs)
      (IsSide-append m (reverse ls) (l ∷ []) (reverse rs) (r ∷ []) (IsSide-reverse m ls rs p.2)
        (p.0, p.1, tt))

match_row-Placed :
    (s : Bool) (k size : ℕ) (xs : List Resting) (total : ℕ)
    → Placed s k xs
    → Placed s k (match_row size xs total).rows
unfolding match_row
match_row-Placed s k size [] total p = tt
match_row-Placed s k size ((i, o) ∷ xs) total p =
    ground (arith, match_row-Placed s k size xs (total + o.size) p.3)

not_nil : {A : Type 0} (xs : List A) → is_nil xs ≡ false → 0 < length xs
not_nil [] h = cc
not_nil (x ∷ xs) h = omega arith

-- Matching keeps every level that it leaves well placed.
pub sweep-AllPlaced :
    (beyond : ℕ → Bool) (s : Bool) (size : ℕ) (rs : List Row) (total : ℕ)
    → AllPlaced s rs
    → AllPlaced s (sweep beyond size rs total).rows
unfolding sweep
sweep-AllPlaced beyond s size [] total p = tt
sweep-AllPlaced beyond s size ((k, xs) ∷ rs) total p =
    sweep_cases (λ r. AllPlaced s r.rows) beyond size k xs rs total (λ _. p)
      (λ go near e. sweep-AllPlaced beyond s size rs (match_row size xs total).total p.2)
      (λ go near e. (not_nil _ e, match_row-Placed s k size xs total p.1, p.2))

-- The prices that are left are the last of those before.
pub sweep-keys :
    (beyond : ℕ → Bool) (size : ℕ) (rs : List Row) (total : ℕ)
    → (gone : List ℕ) × (keys rs ≡ gone ++ keys (sweep beyond size rs total).rows)
unfolding sweep
sweep-keys beyond size [] total = ([], refl)
sweep-keys beyond size ((k, xs) ∷ rs) total =
    sweep_cases (λ r. (gone : List ℕ) × (k ∷ keys rs ≡ gone ++ keys r.rows)) beyond size k xs rs
      total (λ _. ([], refl))
      (λ go near e.
        let (gone, q) = sweep-keys beyond size rs (match_row size xs total).total in
        (k ∷ gone, ap (◌∷◌ k) q))
      (λ go near e. ([], refl))
