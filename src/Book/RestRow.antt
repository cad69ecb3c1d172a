-- ===== src/Book/RestRow.antt =====
-- What it does to the rows of a side that an order comes to rest in project/order_book.cpp.
use cpp_trading_exchange.Base.{
  ℕ, ◌+◌, ◌<◌, ◌≡◌, refl, inl, inr, Bool, Bool-cases, false, ◌||◌, some, List, [], ◌∷◌, ◌++◌, arith,
  ltb, ◌==◌, ==-refl, length, length-append, has,
}
use cpp_trading_exchange.Order.{Order}
use cpp_trading_exchange.Order.Memory.{Memory}
use cpp_trading_exchange.Book.Levels.{find, put}
use cpp_trading_exchange.Book.Rows.{Resting, slots}
use cpp_trading_exchange.Book.Level.{Live}
use cpp_trading_exchange.Book.Sweep.{Row, all_slots}
use cpp_trading_exchange.Book.Side.{keys, Placed}
use cpp_trading_exchange.Book.Sorted.{Above, Ascending, AllPlaced}
use cpp_trading_exchange.Book.Located.{rest_row}

pub find-middle :
    {V : Type 0} (k : ℕ) (v : V) (xs ys : List (ℕ × V))
    → has k (keys xs) ≡ false
    → find k (xs ++ (k, v) ∷ ys) ≡ some v
unfolding find
find-middle k v [] ys h = rw (==-refl k)
find-middle k v ((j, w) ∷ xs) ys h = ground (arith, find-middle k v xs ys)

pub put-none :
    {V : Type 0} (k : ℕ) (w : V) (xs : List (ℕ × V)) → has k (keys xs) ≡ false → put k w xs ≡ xs
unfolding put
put-none k w [] h = refl
put-none k w ((j, v) ∷ xs) h = ground (arith, put-none k w xs)

pub put-middle :
    {V : Type 0} (k : ℕ) (v w : V) (xs ys : List (ℕ × V))
    → has k (keys xs) ≡ false
    → has k (keys ys) ≡ false
    → put k w (xs ++ (k, v) ∷ ys) ≡ xs ++ (k, w) ∷ ys
unfolding put
put-middle k v w [] ys h g = rw (==-refl k, put-none k w ys g)
put-middle k v w ((j, u) ∷ xs) ys h g = ground (arith, put-middle k v w xs ys)

Placed-snoc :
    (s : Bool) (k : ℕ) (xs : List Resting) (e : Resting)
    → Placed s k xs
    → Placed s k (e ∷ [])
    → Placed s k (xs ++ e ∷ [])
Placed-snoc s k [] e p q = q
Placed-snoc s k (x ∷ xs) e p q = (p.0, p.1, p.2, Placed-snoc s k xs e p.3 q)

pub Placed-init :
    (s : Bool) (k : ℕ) (xs : List Resting) (e : Resting) → Placed s k (xs ++ e ∷ []) → Placed s k xs
Placed-init s k [] e p = tt
Placed-init s k (x ∷ xs) e p = (p.0, p.1, p.2, Placed-init s k xs e p.3)

module _ (s : Bool) (k : ℕ) (e : Resting) where
  pub rest_row-AllPlaced :
      (rs : List Row) → AllPlaced s rs → Placed s k (e ∷ []) → AllPlaced s (rest_row k e rs)
  unfolding rest_row
  rest_row-AllPlaced [] p q = (omega arith, q, tt)
  rest_row-AllPlaced ((j, xs) ∷ rs) p q = elim (Bool-cases (ltb k j)) [
    | inl before ↦ rw before (omega arith, q, p)
    | inr after ↦ elim (Bool-cases (j == k)) [
      | inl hit ↦
          let same : k ≡ j = ground arith in
          rw (after, hit)
            (omega (arith, length-append xs (e ∷ [])), Placed-snoc s j xs e p.1 (rw same at q), p.2)
      | inr miss ↦ rw (after, miss) (p.0, p.1, rest_row-AllPlaced rs p.2 q)
    ]
  ]

rest_row-Above :
    (k j : ℕ) (e : Resting) (rs : List Row)
    → Above j (keys rs)
    → j < k
    → Above j (keys (rest_row k e rs))
unfolding rest_row
rest_row-Above k j e [] a h = (h, tt)
rest_row-Above k j e ((i, xs) ∷ rs) a h = ground (arith, rest_row-Above k j e rs)

Above-below : (k j : ℕ) (ks : List ℕ) → k < j → Above j ks → Above k ks
Above-below k j [] h a = tt
Above-below k j (i ∷ ks) h a = (omega arith, Above-below k j ks h a.1)

pub rest_row-Ascending :
    (k : ℕ) (e : Resting) (rs : List Row) → Ascending (keys rs) → Ascending (keys (rest_row k e rs))
unfolding rest_row
rest_row-Ascending k e [] a = (tt, tt)
rest_row-Ascending k e ((j, xs) ∷ rs) a =
    ground (arith, rest_row-Ascending k e rs, rest_row-Above k j e rs, Above-below k j (keys rs))

pub slots-append : (xs ys : List Resting) → slots (xs ++ ys) ≡ slots xs ++ slots ys
slots-append [] ys = refl
slots-append ((i, o) ∷ xs) ys = rw (slots-append xs ys)

pub length-rest_row :
    (k i : ℕ) (o : Order) (rs : List Row)
    → length (all_slots (rest_row k (i, o) rs)) ≡ length (all_slots rs) + 1
unfolding rest_row all_slots
length-rest_row k i o [] = omega arith
length-rest_row k i o ((j, xs) ∷ rs) =
    let before = length-append (slots xs) (all_slots rs) in
    elim (Bool-cases (ltb k j)) [
      | inl first ↦ rw first (omega arith)
      | inr after ↦ elim (Bool-cases (j == k)) [
        | inl hit ↦
            rw (after, hit, slots-append xs ((i, o) ∷ []))
              (omega (
                arith,
                before,
                length-append (slots xs ++ i ∷ []) (all_slots rs),
                length-append (slots xs) (i ∷ []),
              ))
        | inr miss ↦
            rw (after, miss)
              (omega (
                arith,
                before,
                length-rest_row k i o rs,
                length-append (slots xs) (all_slots (rest_row k (i, o) rs)),
              ))
      ]
    ]

pub Live-append : (m : Memory) (xs ys : List Resting) → Live m xs → Live m ys → Live m (xs ++ ys)
Live-append m [] ys p q = q
Live-append m (x ∷ xs) ys p q = (p.0, Live-append m xs ys p.1 q)

pub has-keys :
    (a : ℕ) (rs ss : List Row) → has a (keys (rs ++ ss)) ≡ (has a (keys rs) || has a (keys ss))
has-keys a [] ss = refl
has-keys a ((k, xs) ∷ rs) ss = ground (arith, has-keys a rs ss)
