-- ===== src/Book/Crossing.antt =====
-- Prices of bids under prices of asks, through the matching rule on lists and the coming to rest.
use cpp_trading_exchange.Base.{
  ℕ, ◌≤◌, ◌<◌, ◌≡◌, ◌∙◌, sym, ap, subst, inl, inr, Bool, Bool-cases, true, false, ◌||◌, List, [],
  ◌∷◌, ◌++◌, arith, ltb, ◌==◌, has, has-append,
}
use mathlib.Core.List.{reverse, reverse-cons}
use cpp_trading_exchange.Order.{OrderType}
use cpp_trading_exchange.Book.{beyond_bid, beyond_ask}
use cpp_trading_exchange.Book.Rows.{Resting, match_row}
use cpp_trading_exchange.Book.Sweep.{Row, sweep, sweep_cases}
use cpp_trading_exchange.Book.Priority.{match_row-unfilled}
use cpp_trading_exchange.Book.Side.{keys}
use cpp_trading_exchange.Book.Sorted.{Above, Ascending, keys-reverse, has-reverse, sweep-keys}
use cpp_trading_exchange.Book.Located.{rest_row}

-- Every number of the first list is below every number of the second.
abbrev pub Under : List ℕ → List ℕ → Type 0
Under xs ys = (a c : ℕ) → has a xs ≡ true → has c ys ≡ true → a < c

Above-has : (k c : ℕ) (ks : List ℕ) → Above k ks → has c ks ≡ true → k < c
Above-has k c [] a h = cc
Above-has k c (j ∷ ks) a h = ground (arith, Above-has k c ks a.1)

Ascending-last : (k c : ℕ) (ks : List ℕ) → Ascending (ks ++ k ∷ []) → has c ks ≡ true → c < k
Ascending-last k c [] a h = cc
Ascending-last k c (j ∷ ks) a h = elim (Bool-cases (c == j)) [
  | inl e ↦
      let same : c ≡ j = ground arith in
      let low : j < k =
        Above-has j k (ks ++ k ∷ []) a.0 (ground (arith, has-append k ks (k ∷ []))) in
      omega (arith, same, low)
  | inr e ↦ Ascending-last k c ks a.1 (ground arith)
]

-- What stops a sweep short of the quantity is the end of the side, or a price beyond the limit.
abbrev Stopped : (ℕ → Bool) → List Row → Type 0
Stopped beyond [] = Unit
Stopped beyond ((k, xs) ∷ rs) = beyond k ≡ true

sweep-Stopped :
    (beyond : ℕ → Bool) (size : ℕ) (rs : List Row) (total : ℕ)
    → (sweep beyond size rs total).total < size
    → Stopped beyond (sweep beyond size rs total).rows
unfolding sweep
sweep-Stopped beyond size [] total = λ h. tt
sweep-Stopped beyond size ((k, xs) ∷ rs) total =
    sweep_cases (λ s. s.total < size → Stopped beyond s.rows) beyond size k xs rs total
      (λ stop short. elim stop [ inl full ↦ absurd (not_short full short) | inr far ↦ far ])
      (λ go near e. sweep-Stopped beyond size rs (match_row size xs total).total)
      (λ go near e short.
        let filled = match_row-unfilled size xs total e (low go) in
        absurd (omega (arith, short, filled)))
  where
    not_short : ltb total size ≡ false → total < size → ⊥
    not_short full short = ground arith

    low : ltb total size ≡ true → total ≤ size
    low go = ground arith

pub sweep-has :
    (beyond : ℕ → Bool) (size : ℕ) (rs : List Row) (total c : ℕ)
    → has c (keys (sweep beyond size rs total).rows) ≡ true
    → has c (keys rs) ≡ true
sweep-has beyond size rs total c h =
    let (gone, e) = sweep-keys beyond size rs total in
    ap (has c) e ∙ ground (arith, has-append c gone (keys (sweep beyond size rs total).rows))

pub has-rest_row :
    (a k : ℕ) (e : Resting) (rs : List Row)
    → has a (keys (rest_row k e rs)) ≡ (has a (keys rs) || (a == k))
unfolding rest_row
has-rest_row a k e [] = ground arith
has-rest_row a k e ((j, xs) ∷ rs) = ground (arith, has-rest_row a k e rs)

pub has-keys-reverse : (a : ℕ) (rs : List Row) → has a (keys (reverse rs)) ≡ has a (keys rs)
has-keys-reverse a rs = ap (has a) (keys-reverse rs) ∙ has-reverse a (keys rs)

bid_gap_rows :
    (type : OrderType) (price c : ℕ) (rs : List Row)
    → Stopped (beyond_bid type price) rs
    → Ascending (keys rs)
    → has c (keys rs) ≡ true
    → price < c
unfolding beyond_bid
bid_gap_rows type price c [] stop sorted h = cc
bid_gap_rows type price c ((k, xs) ∷ rs) stop sorted h =
    let far : price < k = ground arith in ground (arith, Above-has k c (keys rs) sorted.0)

-- A bid that is not filled leaves no ask at or under its price.
pub bid_gap :
    (type : OrderType) (price size : ℕ) (asks : List Row) (c : ℕ)
    → let r = sweep (beyond_bid type price) size asks 0 in
      r.total < size → Ascending (keys r.rows) → has c (keys r.rows) ≡ true → price < c
bid_gap type price size asks c short sorted h =
    bid_gap_rows type price c _ (sweep-Stopped (beyond_bid type price) size asks 0 short) sorted h

ask_gap_rows :
    (type : OrderType) (price c : ℕ) (rs : List Row)
    → Stopped (beyond_ask type price) rs
    → Ascending (keys (reverse rs))
    → has c (keys rs) ≡ true
    → c < price
unfolding beyond_ask
ask_gap_rows type price c [] stop sorted h = cc
ask_gap_rows type price c ((k, xs) ∷ rs) stop sorted h =
    let far : k < price = ground arith in
    let turned : keys (reverse ((k, xs) ∷ rs)) ≡ reverse (keys rs) ++ k ∷ [] =
      keys-reverse ((k, xs) ∷ rs) ∙ reverse-cons k (keys rs) in
    ground (
      arith,
      Ascending-last k c (reverse (keys rs)) (subst Ascending turned sorted),
      has-reverse c (keys rs),
    )

-- An ask that is not filled leaves no bid at or over its price.
pub ask_gap :
    (type : OrderType) (price size : ℕ) (bids : List Row) (c : ℕ)
    → let r = sweep (beyond_ask type price) size (reverse bids) 0 in
      r.total < size
      → Ascending (keys (reverse r.rows))
      → has c (keys (reverse r.rows)) ≡ true
      → c < price
ask_gap type price size bids c short sorted h =
    let r = sweep (beyond_ask type price) size (reverse bids) 0 in
    ask_gap_rows type price c r.rows
      (sweep-Stopped (beyond_ask type price) size (reverse bids) 0 short) sorted
      (sym (has-keys-reverse c r.rows) ∙ h)
