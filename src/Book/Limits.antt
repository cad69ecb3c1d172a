-- ===== src/Book/Limits.antt =====
-- What an order may trade with: the opposite orders within its limit, told by their prices alone.
use cpp_trading_exchange.Base.{
  ℕ, ◌+◌, ◌<◌, ◌≤◌, ◌≡◌, ap, refl, Bool, Bool-cases, inl, inr, true, ◌&&◌, not, List, [], ◌∷◌, ◌++◌,
  arith, ltb, leb, if◌then◌else◌,
}
use mathlib.Core.List.{reverse, reverse-cons}
use cpp_trading_exchange.Order.{OrderType, limit, market}
use cpp_trading_exchange.Book.{beyond_bid, beyond_ask}
use cpp_trading_exchange.Book.Rows.{Resting, volume}
use cpp_trading_exchange.Book.Sweep.{Row, depth, reachable}
use cpp_trading_exchange.Book.Side.{keys}
use cpp_trading_exchange.Book.Sorted.{Above, Ascending}

-- The quantity at prices of at most the limit, and all of it for a market order.
abbrev pub offered_to_bid : OrderType → ℕ → List Row → ℕ
offered_to_bid type price [] = 0
offered_to_bid market price ((k, xs) ∷ rs) = volume xs + offered_to_bid market price rs
offered_to_bid limit price ((k, xs) ∷ rs) =
    (if leb k price then volume xs else 0) + offered_to_bid limit price rs

-- The quantity at prices of at least the limit, and all of it for a market order.
abbrev pub offered_to_ask : OrderType → ℕ → List Row → ℕ
offered_to_ask type price [] = 0
offered_to_ask market price ((k, xs) ∷ rs) = volume xs + offered_to_ask market price rs
offered_to_ask limit price ((k, xs) ∷ rs) =
    (if leb price k then volume xs else 0) + offered_to_ask limit price rs

offered_to_bid-Above :
    (k price : ℕ) (rs : List Row)
    → price < k
    → Above k (keys rs)
    → offered_to_bid limit price rs ≡ 0
offered_to_bid-Above k price [] h a = refl
offered_to_bid-Above k price ((j, xs) ∷ rs) h a =
    ground (arith, offered_to_bid-Above k price rs h a.1, a.0)

-- From the lowest ask up, the levels that a bid reaches are those within its limit.
pub reachable-bid :
    (type : OrderType) (price : ℕ) (rs : List Row)
    → Ascending (keys rs)
    → depth (reachable (beyond_bid type price) rs) ≡ offered_to_bid type price rs
unfolding reachable depth beyond_bid
reachable-bid type price [] a = refl
reachable-bid market price ((k, xs) ∷ rs) a =
    ap (◌+◌ (volume xs)) (reachable-bid market price rs a.1)
reachable-bid limit price ((k, xs) ∷ rs) a = elim (Bool-cases (ltb price k)) [
  | inl beyond ↦
      rw beyond
        (ground (arith, offered_to_bid-Above k price rs (ground (arith, beyond)) a.0, beyond))
  | inr within ↦ rw within (ground (arith, reachable-bid limit price rs a.1, within))
]

-- No level is beyond the limit.
abbrev all_within : (ℕ → Bool) → List Row → Bool
all_within beyond [] = true
all_within beyond ((k, xs) ∷ rs) = not (beyond k) && all_within beyond rs

all_within-snoc :
    (beyond : ℕ → Bool) (rs : List Row) (k : ℕ) (xs : List Resting)
    → all_within beyond (rs ++ (k, xs) ∷ []) ≡ (all_within beyond rs && not (beyond k))
all_within-snoc beyond [] k xs = ground arith
all_within-snoc beyond ((j, ys) ∷ rs) k xs = ground (arith, all_within-snoc beyond rs k xs)

reachable-snoc :
    (beyond : ℕ → Bool) (rs : List Row) (k : ℕ) (xs : List Resting)
    → depth (reachable beyond (rs ++ (k, xs) ∷ []))
      ≡ depth (reachable beyond rs)
        + (if all_within beyond rs && not (beyond k) then volume xs else 0)
unfolding reachable depth
reachable-snoc beyond [] k xs = ground arith
reachable-snoc beyond ((j, ys) ∷ rs) k xs = ground (arith, reachable-snoc beyond rs k xs)

all_within-Above :
    (price k : ℕ) (rs : List Row)
    → price ≤ k
    → Above k (keys rs)
    → all_within (beyond_ask limit price) (reverse rs) ≡ true
unfolding beyond_ask
all_within-Above price k [] h a = refl
all_within-Above price k ((j, ys) ∷ rs) h a =
    rw (reverse-cons (j, ys) rs, all_within-snoc (beyond_ask limit price) (reverse rs) j ys)
      (ground (arith, all_within-Above price k rs h a.1, a.0))

all_within-market : (price : ℕ) (rs : List Row) → all_within (beyond_ask market price) rs ≡ true
unfolding beyond_ask
all_within-market price [] = refl
all_within-market price ((k, xs) ∷ rs) = all_within-market price rs

-- From the highest bid down, the levels that an ask reaches are those within its limit.
pub reachable-ask :
    (type : OrderType) (price : ℕ) (rs : List Row)
    → Ascending (keys rs)
    → depth (reachable (beyond_ask type price) (reverse rs)) ≡ offered_to_ask type price rs
unfolding reachable depth beyond_ask
reachable-ask type price [] a = refl
reachable-ask market price ((k, xs) ∷ rs) a =
    rw (reverse-cons (k, xs) rs, reachable-snoc (beyond_ask market price) (reverse rs) k xs)
      (ground (arith, reachable-ask market price rs a.1, all_within-market price (reverse rs)))
reachable-ask limit price ((k, xs) ∷ rs) a =
    rw (reverse-cons (k, xs) rs, reachable-snoc (beyond_ask limit price) (reverse rs) k xs)
      (elim (Bool-cases (ltb k price)) [
        | inl beyond ↦ ground (arith, reachable-ask limit price rs a.1, beyond)
        | inr within ↦ ground (
          arith,
          reachable-ask limit price rs a.1,
          all_within-Above price k rs (ground (arith, within)) a.0,
          within,
        )
      ])
