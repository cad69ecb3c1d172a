-- ===== src/Book/Best.antt =====
-- The best prices of a side of the book, which `begin` and `rbegin` of its map give.
use cpp_trading_exchange.Base.{
  ℕ, ◌<◌, ◌≡◌, ◌⊎◌, ◌+◌, ap, refl, sym, inl, inr, Option, Option-cases, none, some, List, [], ◌∷◌,
  arith,
}
use Prim.Native.Nat.{min, max}
use cpp_trading_exchange.Book.{OrderBook}
use cpp_trading_exchange.Book.Levels.{begin, rbegin}
use cpp_trading_exchange.Book.Sweep.{Row}
use cpp_trading_exchange.Book.Side.{keys, keys-same}
use cpp_trading_exchange.Book.Sorted.{Above, Ascending}
use cpp_trading_exchange.Book.Match.{IsBook}

-- The highest and the lowest of some prices, in any order.
abbrev pub highest : List ℕ → Option ℕ
highest [] = none
highest (k ∷ ks) = elim (highest ks) [ none ↦ some k | some j ↦ some (max k j) ]

abbrev pub lowest : List ℕ → Option ℕ
lowest [] = none
lowest (k ∷ ks) = elim (lowest ks) [ none ↦ some k | some j ↦ some (min k j) ]

-- The sum of the highest bid and the lowest ask, 0 where a side has no price.
abbrev pub best_sum : Option ℕ → Option ℕ → ℕ
best_sum none ask = 0
best_sum (some bid) none = 0
best_sum (some bid) (some ask) = bid + ask

lowest-Ascending : (k : ℕ) (ks : List ℕ) → Above k ks → Ascending ks → lowest (k ∷ ks) ≡ some k
lowest-Ascending k [] h a = refl
lowest-Ascending k (j ∷ js) h a = rw (lowest-Ascending j js a.0 a.1) (ap some (ground (arith, h.0)))

highest-Above : (k i : ℕ) (is : List ℕ) (j : ℕ) → k < i → highest (i ∷ is) ≡ some j → max k j ≡ j
highest-Above k i is j h e = elim (Option-cases (highest is)) [
  | inl alone ↦ ground (arith, e, alone, h)
  | inr (top, there) ↦ ground (arith, e, there, h)
]

module _ {V : Type 0} where
  -- What an iterator to a level shows: its price is `best`.
  abbrev pub ShowsBest : Option (ℕ × V) → Option ℕ → Type 0
  ShowsBest level best =
      ((level ≡ none) × (best ≡ none))
      ⊎ ((k : ℕ) × (v : V) × (level ≡ some (k, v)) × (best ≡ some k))

  begin-lowest : (ls : List (ℕ × V)) → Ascending (keys ls) → ShowsBest (begin ls) (lowest (keys ls))
  unfolding begin
  begin-lowest [] a = inl (refl, refl)
  begin-lowest ((k, v) ∷ ls) a = inr (k, v, refl, lowest-Ascending k (keys ls) a.0 a.1)

  last-highest :
      (k : ℕ) (v : V) (ls : List (ℕ × V))
      → Ascending (keys ((k, v) ∷ ls))
      → (j : ℕ) × (u : V) × (rbegin ((k, v) ∷ ls) ≡ some (j, u))
        × (highest (keys ((k, v) ∷ ls)) ≡ some j)
  unfolding rbegin
  last-highest k v [] a = (k, v, refl, refl)
  last-highest k v ((i, w) ∷ ls) a =
      let (j, u, found, best) = last-highest i w ls a.1 in
      (j, u, found, rw best (ap some (highest-Above k i (keys ls) j (a.0).0 best)))

  rbegin-highest :
      (ls : List (ℕ × V)) → Ascending (keys ls) → ShowsBest (rbegin ls) (highest (keys ls))
  unfolding rbegin
  rbegin-highest [] a = inl (refl, refl)
  rbegin-highest ((k, v) ∷ ls) a = inr (last-highest k v ls a)

-- In a well-formed book the last level of the bids is at the highest price.
pub best_bid :
    {b : OrderBook} {bids asks : List Row} {free : List ℕ}
    → IsBook b bids asks free
    → ShowsBest (rbegin b.bid_levels) (highest (keys bids))
best_bid {b} {bids} is =
    let same = keys-same b.order_pool b.bid_levels bids (is.bid_side).side in
    rw (sym same) (rbegin-highest b.bid_levels (rw same (is.bid_side).sorted))

-- The first level of the asks is at the lowest one.
pub best_ask :
    {b : OrderBook} {bids asks : List Row} {free : List ℕ}
    → IsBook b bids asks free
    → ShowsBest (begin b.ask_levels) (lowest (keys asks))
best_ask {b} {bids} {asks} is =
    let same = keys-same b.order_pool b.ask_levels asks (is.ask_side).side in
    rw (sym same) (begin-lowest b.ask_levels (rw same (is.ask_side).sorted))
