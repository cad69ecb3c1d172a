-- ===== src/Book/Ledger.antt =====
-- Where the slots of the pool are after any calls of project/order_book.cpp: free, at a level, or held by an
-- order that was filled as it came in, which `addOrder` does not give back.
use cpp_trading_exchange.Base.{
  ℕ, ◌+◌, ◌<◌, ◌≡◌, ap, refl, subst, inl, inr, Bool, true, false, Option, none, some, List, [], ◌∷◌,
  arith, ltb, ◌==◌, ==-refl, if◌then◌else◌, length,
}
use Prim.Native.String.{String}
use mathlib.Core.List.{reverse}
use cpp_trading_exchange.Queue.{size_t}
use cpp_trading_exchange.Pool.FreeList.{range, length-range}
use cpp_trading_exchange.Order.{Order, OrderType}
use cpp_trading_exchange.Order.Memory.{view}
use cpp_trading_exchange.Order.Access.{load_order, load_order_lem}
use cpp_trading_exchange.Book.{
  OrderBook, uint32, order_book, add_order, cancel_order, beyond_bid, beyond_ask,
}
use cpp_trading_exchange.Book.Rows.{release}
use cpp_trading_exchange.Book.Sweep.{Row, all_slots}
use cpp_trading_exchange.Book.Match.{IsBook, sweep-room, length-all_slots-reverse}
use cpp_trading_exchange.Book.RestRow.{length-rest_row}
use cpp_trading_exchange.Book.Add.{
  crossed, bids_left, asks_left, Entered, add_order_lem, add_order-full,
}
use cpp_trading_exchange.Book.Alive.{AtLevel, AtLevel-Alive, has-rest_row}
use cpp_trading_exchange.Book.Resting.{resting_count, cancel_order-Struck}
use cpp_trading_exchange.Book.Initial.{order_book_lem}
use cpp_trading_exchange.Book.Reach.{after}

-- 1 if the call returned an order with nothing left of it, and 0 if not.
abbrev pub filled : Option ℕ → OrderBook → ℕ
filled none b = 0
filled (some p) b = elim (load_order p b.order_pool) [
  | none ↦ 0
  | some (o, _) ↦ if o.size == 0 then 1 else 0
]

filled-view :
    (i : ℕ) (o : Order) (b : OrderBook)
    → view b.order_pool i ≡ some o
    → filled (some i) b ≡ (if o.size == 0 then 1 else 0)
filled-view i o b h =
    let (x, run, same, _) = load_order_lem b.order_pool i h in
    rw (filled, run) (ap (λ (y : Order). if y.size == 0 then 1 else 0) same)

-- The order at slot `i` rests: it is at a level, however the book is read.
abbrev pub Stands : OrderBook → ℕ → Type 0
Stands b i = (bids asks : List Row) (free : List ℕ) → IsBook b bids asks free → AtLevel i bids asks

-- The books that calls lead to, with the number of orders that were filled as they came in.
pub data Run (symbol : String) (pool_size : ℕ) : ℕ → OrderBook → Type 0 where
  opens : {b : OrderBook} → order_book symbol pool_size ≡ some b → Run symbol pool_size 0 b
  adds :
      {used : ℕ} {b b' : OrderBook} (order_id client_id size price : ℕ) (is_buy_side : Bool)
      (order_type : OrderType) (p : Option ℕ)
      → size < uint32
      → Run symbol pool_size used b
      → add_order order_id client_id size price is_buy_side order_type b ≡ some (p, b')
      → Run symbol pool_size (used + filled p b') b'
  cancels :
      {used : ℕ} {b b' : OrderBook} (i : ℕ)
      → Run symbol pool_size used b
      → Stands b i
      → cancel_order (some i) b ≡ some (tt, b')
      → Run symbol pool_size used b'

-- All `n` slots: the free ones, those of the orders at a level, and `used` others.
abbrev pub Accounted : ℕ → ℕ → OrderBook → Type 0
Accounted n used b =
    (bids : List Row) × (asks : List Row) × (free : List ℕ) × IsBook b bids asks free
    × (length free + resting_count bids asks + used ≡ n)

-- A match moves slots from the levels to the free list.
crossed-count :
    (s : Bool) (type : OrderType) (price size : ℕ) (bids asks : List Row) (free : List ℕ)
    → let r = crossed s type price size bids asks in
      length (release r.closed free) + resting_count (bids_left s r bids) (asks_left s r asks)
      ≡ length free + resting_count bids asks
crossed-count true type price size bids asks free =
    omega (arith, sweep-room (beyond_bid type price) size asks 0 free)
crossed-count false type price size bids asks free =
    let r = crossed false type price size bids asks in
    omega (
      arith,
      sweep-room (beyond_ask type price) size (reverse bids) 0 free,
      length-all_slots-reverse bids,
      length-all_slots-reverse r.rows,
    )

-- What an order does to the count, as it rests or is filled.
Entered-count :
    (left s : Bool) (i : ℕ) (o : Order) (b : OrderBook) (bids asks : List Row) (free : List ℕ)
    → Entered left s i o b bids asks free
    → (left ≡ false → o.size ≡ 0)
    → (bids' : List Row) × (asks' : List Row) × IsBook b bids' asks' free
      × (resting_count bids' asks' + filled (some i) b ≡ resting_count bids asks + 1)
Entered-count true true i o b bids asks free is empty =
    let here = has-rest_row i o.price i o bids in
    let (x, seen, more) =
      AtLevel-Alive b _ asks free i is (inl (ground (arith, here, ==-refl i))) in
    (_, asks, is, ground (arith, filled-view i x b seen, length-rest_row o.price i o bids, more))
Entered-count true false i o b bids asks free is empty =
    let here = has-rest_row i o.price i o asks in
    let (x, seen, more) =
      AtLevel-Alive b bids _ free i is (inr (ground (arith, here, ==-refl i))) in
    (bids, _, is, ground (arith, filled-view i x b seen, length-rest_row o.price i o asks, more))
Entered-count false s i o b bids asks free is empty =
    let used = filled-view i o b is.seen in (bids, asks, is.book, ground (arith, used, empty refl))

add_order-Accounted :
    (n used order_id client_id size price : ℕ) (s : Bool) (type : OrderType) (p : Option ℕ)
    (b b' : OrderBook)
    → size < uint32
    → Accounted n used b
    → add_order order_id client_id size price s type b ≡ some (p, b')
    → Accounted n (used + filled p b') b'
add_order-Accounted n used order_id client_id size price s type p b b' small
      (bids, asks, [], is, count) run =
    let full = add_order-full order_id client_id size price s type b bids asks is in
    let same : b ≡ b' = ground arith in
    let null : none ≡ p = ground arith in
    subst (λ x. Accounted n (used + filled x b') b') null
      (subst (λ x. Accounted n (used + 0) x) same (bids, asks, [], is, omega (arith, count)))
add_order-Accounted n used order_id client_id size price s type p b b' small
      (bids, asks, i ∷ free, is, count) run =
    let r = crossed s type price size bids asks in
    let (ep, entered, _) =
      after p b' (add_order_lem order_id client_id size price s type b bids asks i free small is)
        run in
    let (bids', asks', book, adds_up) =
      Entered-count (ltb r.total size) s i _ b' _ _ (release r.closed free) entered
        λ h. ground (arith, h) in
    let here = crossed-count s type price size bids asks free in
    (bids', asks', release r.closed free, book, rw ep (omega (arith, adds_up, here, count)))

-- After any calls on a new book of a pool of one slot at least, additions of any sizes below 2^32 and
-- cancellations of orders at a level, the book is well formed, and the slots that are free, the orders at
-- a level and the additions that returned an order with nothing left of it add up to the size of the
-- pool: each such order keeps its slot for good.
pub Run-Accounted :
    (symbol : String) (n used : ℕ) (b : OrderBook)
    → 0 < n
    → n < size_t
    → Run symbol n used b
    → Accounted n used b
unfolding all_slots
Run-Accounted symbol n used b more fits (opens e) =
    let (b0, run, is, _) = order_book_lem symbol n more fits in
    let same : b0 ≡ b = ground arith in
    subst (Accounted n 0) same ([], [], range 0 n, is, omega (arith, length-range 0 n))
Run-Accounted symbol n used b' more fits
      (adds {used = u} {b = b} order_id client_id size price s type p small r run) =
    add_order-Accounted n u order_id client_id size price s type p b b' small
      (Run-Accounted symbol n u b more fits r) run
Run-Accounted symbol n used b' more fits (cancels {b = b} i r stands run) =
    let (bids, asks, free, is, count) = Run-Accounted symbol n used b more fits r in
    let (bids', asks', book, _, one) =
      after tt b' (cancel_order-Struck b bids asks free i is (stands bids asks free is)) run in
    (bids', asks', i ∷ free, book, omega (arith, one, count))
