-- ===== src/Book/Alive.antt =====
-- Orders that rest in the book of project/order_book.cpp, before and after a match.
use cpp_trading_exchange.Base.{
  ℕ, ◌<◌, ◌≡◌, ◌⊎◌, ap, inl, inr, Bool, Bool-cases, true, false, ◌||◌, some, List, [], ◌∷◌, ◌++◌,
  arith, ◌==◌, has, has-append,
}
use mathlib.Core.List.{reverse}
use cpp_trading_exchange.Order.{Order, OrderType}
use cpp_trading_exchange.Order.Memory.{Memory, view}
use cpp_trading_exchange.Book.{OrderBook, PriceLevels, beyond_bid, beyond_ask}
use cpp_trading_exchange.Book.Rows.{Resting, slots}
use cpp_trading_exchange.Book.Level.{Live}
use cpp_trading_exchange.Book.Sweep.{Row, all_slots}
use cpp_trading_exchange.Book.Priority.{sweep-slots}
use cpp_trading_exchange.Book.Side.{Placed, IsSide}
use cpp_trading_exchange.Book.Sorted.{AllPlaced}
use cpp_trading_exchange.Book.Invariant.{has-all_slots-reverse}
use cpp_trading_exchange.Book.Match.{IsBook}
use cpp_trading_exchange.Book.Located.{rest_row}
use cpp_trading_exchange.Book.RestRow.{slots-append}
use cpp_trading_exchange.Book.Add.{crossed, bids_left, asks_left}

-- An order lives at the slot and has something left.
abbrev pub Alive : OrderBook → ℕ → Type 0
Alive b a = (o : Order) × (view b.order_pool a ≡ some o) × (0 < o.size)

level-alive :
    (m : Memory) (s : Bool) (k a : ℕ) (xs : List Resting)
    → Live m xs
    → Placed s k xs
    → has a (slots xs) ≡ true
    → (o : Order) × (view m a ≡ some o) × (0 < o.size)
level-alive m s k a [] l p h = cc
level-alive m s k a ((i, o) ∷ xs) l p h = elim (Bool-cases (a == i)) [
  | inl hit ↦ let e : a ≡ i = ground arith in (o, rw e l.0, p.2)
  | inr miss ↦ level-alive m s k a xs l.1 p.3 (ground arith)
]

side-alive :
    (m : Memory) (s : Bool) (a : ℕ) (ls : PriceLevels) (rs : List Row)
    → IsSide m ls rs
    → AllPlaced s rs
    → has a (all_slots rs) ≡ true
    → (o : Order) × (view m a ≡ some o) × (0 < o.size)
unfolding all_slots
side-alive m s a ls [] is p h = cc
side-alive m s a [] (r ∷ rs) is p h = elim is [ ]
side-alive m s a (l ∷ ls) ((k, xs) ∷ rs) is p h = elim (Bool-cases (has a (slots xs))) [
  | inl hit ↦ level-alive m s k a xs (is.1).live p.1 hit
  | inr miss ↦
      side-alive m s a ls rs is.2 p.2 (ground (arith, has-append a (slots xs) (all_slots rs)))
]

-- The slot stands at a level of one of the sides.
abbrev pub AtLevel : ℕ → List Row → List Row → Type 0
AtLevel a bids asks = (has a (all_slots bids) ≡ true) ⊎ (has a (all_slots asks) ≡ true)

pub AtLevel-Alive :
    (b : OrderBook) (bids asks : List Row) (free : List ℕ) (a : ℕ)
    → IsBook b bids asks free
    → AtLevel a bids asks
    → Alive b a
AtLevel-Alive b bids asks free a is (inl h) =
    side-alive b.order_pool true a b.bid_levels bids (is.bid_side).side (is.bid_side).placed h
AtLevel-Alive b bids asks free a is (inr h) =
    side-alive b.order_pool false a b.ask_levels asks (is.ask_side).side (is.ask_side).placed h

-- What is at a level and is not used up is at a level after the match.
pub AtLevel-crossed :
    (s : Bool) (type : OrderType) (price size : ℕ) (bids asks : List Row) (a : ℕ)
    → AtLevel a bids asks
    → has a (crossed s type price size bids asks).closed ≡ false
    → let r = crossed s type price size bids asks in
      AtLevel a (bids_left s r bids) (asks_left s r asks)
AtLevel-crossed true type price size bids asks a (inl h) kept = inl h
AtLevel-crossed true type price size bids asks a (inr h) kept =
    let r = crossed true type price size bids asks in
    inr (
      ground (
        arith,
        has-append a r.closed (all_slots r.rows),
        ap (has a) (sweep-slots (beyond_bid type price) size asks 0),
        h,
        kept,
      ))
AtLevel-crossed false type price size bids asks a (inl h) kept =
    let r = crossed false type price size bids asks in
    inl (
      ground (
        arith,
        has-append a r.closed (all_slots r.rows),
        ap (has a) (sweep-slots (beyond_ask type price) size (reverse bids) 0),
        has-all_slots-reverse a bids,
        has-all_slots-reverse a r.rows,
        h,
        kept,
      ))
AtLevel-crossed false type price size bids asks a (inr h) kept = inr h

pub has-rest_row :
    (a k i : ℕ) (o : Order) (rs : List Row)
    → has a (all_slots (rest_row k (i, o) rs)) ≡ ((a == i) || has a (all_slots rs))
unfolding rest_row all_slots
has-rest_row a k i o [] = ground arith
has-rest_row a k i o ((j, xs) ∷ rs) = ground (
  arith,
  has-rest_row a k i o rs,
  has-append a (slots xs) (all_slots rs),
  has-append a (slots xs) (all_slots (rest_row k (i, o) rs)),
  has-append a (slots (xs ++ (i, o) ∷ [])) (all_slots rs),
  slots-append xs ((i, o) ∷ []),
  has-append a (slots xs) (i ∷ []),
)
