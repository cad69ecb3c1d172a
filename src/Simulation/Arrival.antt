-- ===== src/Simulation/Arrival.antt =====
-- What the arrival of an order leaves to the driver of project/entrypoint.cpp.
use cpp_trading_exchange.Base.{
  ℕ, ◌≡◌, ◌⊎◌, refl, inl, inr, Bool, Bool-cases, true, false, some, List, [], ◌∷◌, arith, ltb, ◌==◌,
  ==-refl, has, has-append, Distinct, Distinct-append,
}
use cpp_trading_exchange.Order.{Order}
use cpp_trading_exchange.Order.Memory.{view}
use cpp_trading_exchange.Book.{OrderBook}
use cpp_trading_exchange.Book.Sweep.{Row}
use cpp_trading_exchange.Book.Match.{IsBook}
use cpp_trading_exchange.Book.Located.{rest_row}
use cpp_trading_exchange.Book.Add.{Entered}
use cpp_trading_exchange.Book.Alive.{AtLevel, AtLevel-Alive, has-rest_row}
use cpp_trading_exchange.Simulation.Tracking.{tracked_after}

-- The book once an order has entered at slot `i`, with something `left` of it or nothing.
pub record Arrived (left : Bool) (i : ℕ) (b : OrderBook) (bids asks : List Row) (free : List ℕ)
    : Type 0 where
  pub bids' : List Row
  pub asks' : List Row
  pub is : IsBook b bids' asks' free
  pub stays : (a : ℕ) → AtLevel a bids asks → AtLevel a bids' asks'
  pub here : left ≡ true → AtLevel i bids' asks'
  pub order : Order
  pub seen : view b.order_pool i ≡ some order
  pub some_left : ltb 0 order.size ≡ left

pub Entered-Arrived :
    (left s : Bool) (i : ℕ) (o : Order) (b : OrderBook) (bids asks : List Row) (free : List ℕ)
    → Entered left s i o b bids asks free
    → (left ≡ false → o.size ≡ 0)
    → Arrived left i b bids asks free
Entered-Arrived false s i o b bids asks free is empty = record {
  bids' = bids;
  asks' = asks;
  is = is.book;
  stays = λ a h. h;
  here = λ e. cc;
  order = o;
  seen = is.seen;
  some_left = ground (arith, empty refl);
}
Entered-Arrived true true i o b bids asks free is empty =
    let here : AtLevel i (rest_row o.price (i, o) bids) asks =
      inl (ground (arith, has-rest_row i o.price i o bids, ==-refl i)) in
    let (x, seen, more) = AtLevel-Alive b _ asks free i is here in
    record {
      bids' = rest_row o.price (i, o) bids;
      asks' = asks;
      is = is;
      stays = λ a h. elim h [
        | inl hit ↦ inl (ground (arith, has-rest_row a o.price i o bids, hit))
        | inr hit ↦ inr hit
      ];
      here = λ e. here;
      order = x;
      seen = seen;
      some_left = ground (arith, more);
    }
Entered-Arrived true false i o b bids asks free is empty =
    let here : AtLevel i bids (rest_row o.price (i, o) asks) =
      inr (ground (arith, has-rest_row i o.price i o asks, ==-refl i)) in
    let (x, seen, more) = AtLevel-Alive b bids _ free i is here in
    record {
      bids' = bids;
      asks' = rest_row o.price (i, o) asks;
      is = is;
      stays = λ a h. elim h [
        | inl hit ↦ inl hit
        | inr hit ↦ inr (ground (arith, has-rest_row a o.price i o asks, hit))
      ];
      here = λ e. here;
      order = x;
      seen = seen;
      some_left = ground (arith, more);
    }

-- Whether the match uses up one of the orders.
pub used-cases :
    (orders closed : List ℕ)
    → ((j : ℕ) × (has j orders ≡ true) × (has j closed ≡ true))
      ⊎ ((a : ℕ) → has a orders ≡ true → has a closed ≡ false)
used-cases [] closed = inr λ a h. cc
used-cases (p ∷ orders) closed = elim (Bool-cases (has p closed)) [
  | inl used ↦ inl (p, ground (arith, ==-refl p), used)
  | inr kept ↦ elim (used-cases orders closed) [
    | inl (j, tracks, used) ↦ inl (j, ground (arith, tracks), used)
    | inr all ↦ inr λ a h. elim (Bool-cases (a == p)) [
      | inl same ↦ let e : a ≡ p = ground arith in rw e kept
      | inr other ↦ all a (ground (arith, h))
    ]
  ]
]

module _ (left : Bool) (i : ℕ) (orders : List ℕ) where
  pub has-tracked_after :
      (a : ℕ)
      → has a (tracked_after left i orders) ≡ true
      → (has a orders ≡ true) ⊎ ((left ≡ true) × (a ≡ i))
  has-tracked_after a h = by_left left refl h
    where
      by_left :
          (l : Bool)
          → left ≡ l
          → has a (tracked_after l i orders) ≡ true
          → (has a orders ≡ true) ⊎ ((left ≡ true) × (a ≡ i))
      by_left false e h = inl h
      by_left true e h = elim (Bool-cases (has a orders)) [
        | inl hit ↦ inl hit
        | inr miss ↦ inr (e, ground (arith, has-append a orders (i ∷ [])))
      ]

  pub tracked_after-has : (a : ℕ) → has a orders ≡ true → has a (tracked_after left i orders) ≡ true
  tracked_after-has a h = by_left left
    where
      by_left : (l : Bool) → has a (tracked_after l i orders) ≡ true
      by_left false = h
      by_left true = ground (arith, has-append a orders (i ∷ []))

  pub Distinct-tracked_after :
      Distinct orders → has i orders ≡ false → Distinct (tracked_after left i orders)
  Distinct-tracked_after d new = by_left left
    where
      by_left : (l : Bool) → Distinct (tracked_after l i orders)
      by_left false = d
      by_left true =
          Distinct-append orders (i ∷ []) d (refl, tt)
            λ a h. elim (Bool-cases (a == i)) [
              | inl same ↦ let e : a ≡ i = ground arith in absurd (cc)
              | inr other ↦ ground (arith, other)
            ]
