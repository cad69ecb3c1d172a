-- ===== src/Book/Backwards.antt =====
-- The bids are matched from the far end of the map: the loop of `matchAskOrder` is the loop of
-- `matchBidOrder` over the levels in descending order of price.
use cpp_trading_exchange.Base.{
  ℕ, zero, suc, ◌≡◌, ◌∙◌, sym, ap, refl, inl, inr, Bool, true, false, Bool-cases, Option-cases,
  some, List, [], ◌∷◌, ◌++◌, arith, ltb, ◌==◌, if◌then◌else◌,
}
use mathlib.Core.Option
use mathlib.Core.List.{reverse, reverse-cons, reverse-reverse, append-nil}
use cpp_trading_exchange.Base.Cmd.{Cmd, pure}
use cpp_trading_exchange.Queue.{IntrusiveQueue, empty}
use cpp_trading_exchange.Order.Memory.{Memory}
use cpp_trading_exchange.Book.{PriceLevels, match_at_level, match_loop}
use cpp_trading_exchange.Book.Levels.{begin, rbegin, erase, put}

module _ {V : Type 0} where
  rbegin-snoc : (xs : List (ℕ × V)) (x : ℕ × V) → rbegin (xs ++ x ∷ []) ≡ some x
  unfolding rbegin
  rbegin-snoc [] x = refl
  rbegin-snoc (y ∷ []) x = refl
  rbegin-snoc (y ∷ z ∷ xs) x = rbegin-snoc (z ∷ xs) x

  rbegin-reverse : (xs : List (ℕ × V)) → rbegin (reverse xs) ≡ begin xs
  unfolding rbegin begin
  rbegin-reverse [] = refl
  rbegin-reverse (x ∷ xs) = rw (reverse-cons x xs) (rbegin-snoc (reverse xs) x)

  pub rbegin-eq : (xs : List (ℕ × V)) → rbegin xs ≡ begin (reverse xs)
  rbegin-eq xs = ap rbegin (sym (reverse-reverse xs)) ∙ rbegin-reverse (reverse xs)

  erase-append : (k : ℕ) (xs ys : List (ℕ × V)) → erase k (xs ++ ys) ≡ erase k xs ++ erase k ys
  unfolding erase
  erase-append k [] ys = refl
  erase-append k ((j, v) ∷ xs) ys = ground (arith, erase-append k xs ys)

  erase-reverse : (k : ℕ) (xs : List (ℕ × V)) → erase k (reverse xs) ≡ reverse (erase k xs)
  unfolding erase
  erase-reverse k [] = refl
  erase-reverse k ((j, v) ∷ xs) = elim (Bool-cases (j == k)) [
    | inl hit ↦
        rw
          (
            reverse-cons (j, v) xs,
            erase-append k (reverse xs) ((j, v) ∷ []),
            erase-reverse k xs,
            hit,
          )
          (append-nil (reverse (erase k xs)))
    | inr miss ↦
        rw
          (
            reverse-cons (j, v) xs,
            erase-append k (reverse xs) ((j, v) ∷ []),
            erase-reverse k xs,
            miss,
          )
          (sym (reverse-cons (j, v) (erase k xs)))
  ]

  put-append :
      (k : ℕ) (w : V) (xs ys : List (ℕ × V)) → put k w (xs ++ ys) ≡ put k w xs ++ put k w ys
  unfolding put
  put-append k w [] ys = refl
  put-append k w ((j, v) ∷ xs) ys = rw (put-append k w xs ys)

  put-reverse : (k : ℕ) (w : V) (xs : List (ℕ × V)) → put k w (reverse xs) ≡ reverse (put k w xs)
  unfolding put
  put-reverse k w [] = refl
  put-reverse k w ((j, v) ∷ xs) =
      rw (reverse-cons (j, v) xs, put-append k w (reverse xs) ((j, v) ∷ []), put-reverse k w xs)
        (sym (reverse-cons (j, if j == k then w else v) (put k w xs)))

abbrev pub turn : (PriceLevels × ℕ) × Memory → (PriceLevels × ℕ) × Memory
turn ((ls, t), m) = ((reverse ls, t), m)

-- What the loop does once a level is matched.
settle :
    (beyond : ℕ → Bool) (fuel size k : ℕ) (ls : PriceLevels) (q : IntrusiveQueue) (t : ℕ)
    (m : Memory)
    → match_loop rbegin beyond fuel size (erase k ls) t m
      ≡ Option.map turn (match_loop begin beyond fuel size (reverse (erase k ls)) t m)
    → (elim (empty q) as (λ _. Cmd Memory (PriceLevels × ℕ)) [
      | true ↦ match_loop rbegin beyond fuel size (erase k ls) t
      | false ↦ pure (put k q ls, t)
    ])
        m
      ≡ Option.map turn (
          (elim (empty q) as (λ _. Cmd Memory (PriceLevels × ℕ)) [
            | true ↦ match_loop begin beyond fuel size (erase k (reverse ls)) t
            | false ↦ pure (put k q (reverse ls), t)
          ])
            m)
settle beyond fuel size k ls q t m ih = elim (Bool-cases (empty q)) [
  | inl gone ↦ rw (gone, erase-reverse k ls) ih
  | inr left ↦ rw (left, put-reverse k q ls) (rw reverse-reverse)
]

pub match_loop-reverse :
    (beyond : ℕ → Bool) (fuel size : ℕ) (ls : PriceLevels) (total : ℕ) (m : Memory)
    → match_loop rbegin beyond fuel size ls total m
      ≡ Option.map turn (match_loop begin beyond fuel size (reverse ls) total m)
unfolding match_loop
match_loop-reverse beyond zero size ls total m = refl
match_loop-reverse beyond (suc fuel) size ls total m = elim (Bool-cases (ltb total size)) [
  | inr full ↦ rw (match_loop, full) (rw reverse-reverse)
  | inl go ↦ elim (Option-cases (begin (reverse ls))) [
    | inl none_left ↦ rw (match_loop, go, rbegin-eq ls, none_left) (rw reverse-reverse)
    | inr ((k, q), first) ↦ elim (Bool-cases (beyond k)) [
      | inl far ↦ rw (match_loop, go, rbegin-eq ls, first, far) (rw reverse-reverse)
      | inr near ↦ elim (Option-cases (match_at_level size q total m)) [
        | inl stuck ↦ rw (match_loop, go, rbegin-eq ls, first, near, stuck)
        | inr (((q', t), m'), done) ↦
            rw (match_loop, go, rbegin-eq ls, first, near, done)
              (settle beyond fuel size k ls q' t m'
                (match_loop-reverse beyond fuel size (erase k ls) t m'))
      ]
    ]
  ]
]
