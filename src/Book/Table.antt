-- ===== src/Book/Table.antt =====
-- The table that `toString` of project/order_book.cpp prints, as numbers.
use cpp_trading_exchange.Base.{
  ℕ, ◌%◌, ◌≤◌, ◌<◌, ◌≡◌, ◌⊎◌, ap, refl, subst, inl, inr, Bool-cases, true, ◌||◌, Option,
  Option-cases, none, some, List, [], ◌∷◌, map, arith, ltb, ◌==◌, if◌then◌else◌, length, has,
  get_elem?, get_elem?-lt, length-Distinct,
}
use cpp_trading_exchange.Queue.{IntrusiveQueue}
use cpp_trading_exchange.Pool.{object_at}
use cpp_trading_exchange.Order.Memory.{Memory}
use cpp_trading_exchange.Order.Access.{view-live}
use cpp_trading_exchange.Book.{OrderBook, PriceLevels, uint32, in_pool}
use cpp_trading_exchange.Book.Levels.{find}
use cpp_trading_exchange.Book.Rows.{Resting, slots, volume}
use cpp_trading_exchange.Book.LevelRound.{length-slots}
use cpp_trading_exchange.Book.Level.{Live, IsLevel}
use cpp_trading_exchange.Book.Sweep.{Row}
use cpp_trading_exchange.Book.Side.{keys, IsSide, keys-same}
use cpp_trading_exchange.Book.Match.{IsBook}
use cpp_trading_exchange.Book.Depth.{count_at, insert_price, insert_prices, table}
use cpp_trading_exchange.Book.DepthSum.{total_size_lem}

-- The depth that is shown at a price, none where the side has no level there.
abbrev pub depth_at : ℕ → List Row → Option ℕ
depth_at p [] = none
depth_at p ((k, xs) ∷ rs) = if k == p then some (volume xs % uint32) else depth_at p rs

abbrev pub Below : ℕ → List ℕ → Type 0
Below k [] = Unit
Below k (j ∷ js) = (j < k) × Below k js

abbrev pub Descending : List ℕ → Type 0
Descending [] = Unit
Descending (k ∷ ks) = Below k ks × Descending ks

has-insert_price : (a p : ℕ) (xs : List ℕ) → has a (insert_price p xs) ≡ ((a == p) || has a xs)
unfolding insert_price
has-insert_price a p [] = refl
has-insert_price a p (x ∷ xs) = ground (arith, has-insert_price a p xs)

Below-mono : (k j : ℕ) (ks : List ℕ) → k < j → Below k ks → Below j ks
Below-mono k j [] h b = tt
Below-mono k j (i ∷ ks) h b = (omega (arith, h, b.0), Below-mono k j ks h b.1)

insert_price-Below : (k p : ℕ) (xs : List ℕ) → p < k → Below k xs → Below k (insert_price p xs)
unfolding insert_price
insert_price-Below k p [] h b = (h, tt)
insert_price-Below k p (x ∷ xs) h b = elim (Bool-cases (ltb x p)) [
  | inl first ↦ rw first (h, b)
  | inr later ↦ elim (Bool-cases (p == x)) [
    | inl there ↦ rw (later, there) b
    | inr further ↦ rw (later, further) (b.0, insert_price-Below k p xs h b.1)
  ]
]

insert_price-Descending : (p : ℕ) (xs : List ℕ) → Descending xs → Descending (insert_price p xs)
unfolding insert_price
insert_price-Descending p [] d = (tt, tt)
insert_price-Descending p (x ∷ xs) d = elim (Bool-cases (ltb x p)) [
  | inl first ↦ let low : x < p = ground arith in rw first ((low, Below-mono x p xs low d.0), d)
  | inr later ↦ elim (Bool-cases (p == x)) [
    | inl there ↦ rw (later, there) d
    | inr further ↦
        rw (later, further)
          (insert_price-Below x p xs (ground arith) d.0, insert_price-Descending p xs d.1)
  ]
]

insert_prices_lem :
    (ls : PriceLevels) (prices : List ℕ)
    → Descending prices
    → Descending (insert_prices ls prices)
      × ((a : ℕ) → has a (insert_prices ls prices) ≡ (has a (keys ls) || has a prices))
unfolding insert_prices
insert_prices_lem [] prices d = (d, λ a. refl)
insert_prices_lem ((p, q) ∷ ls) prices d =
    let (down, all) =
      insert_prices_lem ls (insert_price p prices) (insert_price-Descending p prices d) in
    (down, λ a. ground (arith, all a, has-insert_price a p prices))

Live-lt :
    (m : Memory) (xs : List Resting) (a : ℕ)
    → Live m xs
    → has a (slots xs) ≡ true
    → a < length m.store
unfolding object_at
Live-lt m [] a l h = cc
Live-lt m ((i, o) ∷ xs) a l h = elim (Bool-cases (a == i)) [
  | inr miss ↦ Live-lt m xs a l.1 (rw miss at h)
  | inl hit ↦
      let e : i ≡ a = ground arith in
      let (x, at, _) = view-live m i l.0 in
      elim (Option-cases (get_elem? m.store i)) [
        | inl gone ↦ let dead : object_at m i ≡ none = rw (object_at, gone) refl in cc
        | inr (y, here) ↦ subst (λ z. z < length m.store) e (get_elem?-lt m.store i here)
      ]
]

-- A level has no more orders than the pool has slots.
IsLevel-length :
    (m : Memory) (q : IntrusiveQueue) (xs : List Resting)
    → IsLevel m q xs
    → length xs ≤ length m.store
IsLevel-length m q xs is = omega (
  arith,
  length-Distinct (length m.store) (slots xs) is.queue.distinct λ a h. Live-lt m xs a is.live h,
  length-slots xs,
)

-- What `find` returns, in terms of the rows.
find-IsLevel :
    (m : Memory) (p : ℕ) (ls : PriceLevels) (rs : List Row)
    → IsSide m ls rs
    → ((find p ls ≡ none) × (depth_at p rs ≡ none))
      ⊎ ((q : IntrusiveQueue) × (xs : List Resting) × (find p ls ≡ some q)
          × IsLevel m q xs
          × (depth_at p rs ≡ some (volume xs % uint32)))
unfolding find
find-IsLevel m p [] [] is = inl (refl, refl)
find-IsLevel m p [] (r ∷ rs) is = elim is [ ]
find-IsLevel m p (l ∷ ls) [] is = elim is [ ]
find-IsLevel m p ((k, q) ∷ ls) ((j, xs) ∷ rs) is = rw is.0 (elim (Bool-cases (j == p)) [
  | inl hit ↦ inr (q, xs, rw hit refl, is.1, rw hit refl)
  | inr miss ↦ rw miss (find-IsLevel m p ls rs is.2)
])

count_at_lem :
    (m : Memory) (p : ℕ) (ls : PriceLevels) (rs : List Row)
    → IsSide m ls rs
    → count_at p ls m ≡ some (depth_at p rs, m)
unfolding count_at
count_at_lem m p ls rs is = elim (find-IsLevel m p ls rs is) [
  | inl (missing, none_shown) ↦ rw (count_at, missing, none_shown) refl
  | inr (q, xs, found, level, shown) ↦
      rw (count_at, found, shown, total_size_lem m q xs level (IsLevel-length m q xs level)) refl
]

-- The line of a price: the depths of the bids and of the asks.
abbrev pub line : List Row → List Row → ℕ → Option ℕ × ℕ × Option ℕ
line bids asks p = (depth_at p bids, p, depth_at p asks)

table_lem :
    (b : OrderBook) (bids asks : List Row) (prices : List ℕ)
    → IsSide b.order_pool b.bid_levels bids
    → IsSide b.order_pool b.ask_levels asks
    → table prices b b.order_pool ≡ some (map (line bids asks) prices, b.order_pool)
unfolding table
table_lem b bids asks [] p q = refl
table_lem b bids asks (price ∷ prices) p q =
    rw
      (
        table,
        count_at_lem b.order_pool price b.bid_levels bids p,
        count_at_lem b.order_pool price b.ask_levels asks q,
        table_lem b bids asks prices p q,
      )
      refl

-- The rows of the table, from the highest price down.
pub table_rows :
    (b : OrderBook) (bids asks : List Row) (free : List ℕ)
    → IsBook b bids asks free
    → (prices : List ℕ) × (in_pool
          (table (insert_prices b.ask_levels (insert_prices b.bid_levels [])) b)
          b
        ≡ some (map (line bids asks) prices, b))
      × Descending prices
      × ((p : ℕ) → has p prices ≡ (has p (keys bids) || has p (keys asks)))
unfolding in_pool
table_rows b bids asks free is =
    let m = b.order_pool in
    let some_prices = insert_prices b.bid_levels [] in
    let prices = insert_prices b.ask_levels some_prices in
    let (down, in_bids) = insert_prices_lem b.bid_levels [] tt in
    let (down', in_both) = insert_prices_lem b.ask_levels some_prices down in
    let bid_keys = keys-same m b.bid_levels bids (is.bid_side).side in
    let ask_keys = keys-same m b.ask_levels asks (is.ask_side).side in
    (
      prices,
      rw (in_pool, table_lem b bids asks prices (is.bid_side).side (is.ask_side).side) refl,
      down',
      λ p. ground (arith, in_both p, in_bids p, ap (has p) bid_keys, ap (has p) ask_keys),
    )
