-- ===== src/Book/Filled.antt =====
-- What `addOrder` of project/order_book.cpp promises to a trader: how much trades at once, and that the
-- rest comes to the book.
use cpp_trading_exchange.Base.{
  ℕ, ◌+◌, ◌-◌, ◌<◌, ◌≡◌, ◌∙◌, ap, refl, Bool, true, false, not, some, List, [], ◌∷◌, ◌++◌, arith,
  ltb, has, has-append,
}
use Prim.Native.Nat.{min}
use mathlib.Core.List.{reverse, reverse-cons}
use cpp_trading_exchange.Base.Cmd.{Returns, Returns-mono}
use cpp_trading_exchange.Order.{Order, OrderType}
use cpp_trading_exchange.Book.{OrderBook, uint32, beyond_bid, beyond_ask, new_order_of, add_order}
use cpp_trading_exchange.Book.Rows.{Resting, volume, slots, release}
use cpp_trading_exchange.Book.Sweep.{Row, sweep, all_slots, depth}
use cpp_trading_exchange.Book.Priority.{sweep-total, sweep-depth}
use cpp_trading_exchange.Book.Limits.{offered_to_bid, offered_to_ask, reachable-bid, reachable-ask}
use cpp_trading_exchange.Book.Located.{rest_row}
use cpp_trading_exchange.Book.Match.{IsBook}
use cpp_trading_exchange.Book.Add.{crossed, bids_left, asks_left, Entered, add_order_lem}

-- What the other side offers an order within its limit.
abbrev pub offered : Bool → OrderType → ℕ → List Row → List Row → ℕ
offered true type price bids asks = offered_to_bid type price asks
offered false type price bids asks = offered_to_ask type price bids

-- The side of buyers, or that of sellers.
abbrev pub side_of : Bool → List Row → List Row → List Row
side_of true bids asks = bids
side_of false bids asks = asks

volume-snoc :
    (xs : List Resting) (i : ℕ) (o : Order) → volume (xs ++ (i, o) ∷ []) ≡ volume xs + o.size
unfolding volume
volume-snoc [] i o = omega arith
volume-snoc ((j, p) ∷ xs) i o = omega (arith, volume-snoc xs i o)

has-slots-snoc : (xs : List Resting) (i : ℕ) (o : Order) → has i (slots (xs ++ (i, o) ∷ [])) ≡ true
has-slots-snoc [] i o = ground arith
has-slots-snoc ((j, p) ∷ xs) i o = ground (arith, has-slots-snoc xs i o)

depth-rest_row :
    (k i : ℕ) (o : Order) (rs : List Row) → depth (rest_row k (i, o) rs) ≡ depth rs + o.size
unfolding depth rest_row volume
depth-rest_row k i o [] = omega arith
depth-rest_row k i o ((j, xs) ∷ rs) = ground (arith, depth-rest_row k i o rs, volume-snoc xs i o)

has-rest_row :
    (k i : ℕ) (o : Order) (rs : List Row) → has i (all_slots (rest_row k (i, o) rs)) ≡ true
unfolding all_slots rest_row
has-rest_row k i o [] = ground arith
has-rest_row k i o ((j, xs) ∷ rs) = ground (
  arith,
  has-rest_row k i o rs,
  has-slots-snoc xs i o,
  has-append i (slots xs) (all_slots (rest_row k (i, o) rs)),
  has-append i (slots (xs ++ (i, o) ∷ [])) (all_slots rs),
)

depth-append : (rs ss : List Row) → depth (rs ++ ss) ≡ depth rs + depth ss
unfolding depth
depth-append [] ss = omega arith
depth-append ((k, xs) ∷ rs) ss = omega (arith, depth-append rs ss)

depth-reverse : (rs : List Row) → depth (reverse rs) ≡ depth rs
unfolding depth
depth-reverse [] = refl
depth-reverse ((k, xs) ∷ rs) =
    rw (reverse-cons (k, xs) rs, depth-append (reverse rs) ((k, xs) ∷ []))
      (omega (arith, depth-reverse rs))

-- What the match of an incoming order fills, and what it leaves of the other side.
crossed-fill :
    (s : Bool) (type : OrderType) (price size : ℕ) {b : OrderBook} {bids asks : List Row}
    {free : List ℕ}
    → IsBook b bids asks free
    → let r = crossed s type price size bids asks in
      (r.total ≡ min size (offered s type price bids asks))
      × (depth (side_of s (bids_left s r bids) (asks_left s r asks)) ≡ depth (side_of s bids asks))
      × (depth (side_of (not s) (bids_left s r bids) (asks_left s r asks)) + r.total
          ≡ depth (side_of (not s) bids asks))
crossed-fill true type price size {b} {bids} {asks} is =
    let beyond = beyond_bid type price in
    (
      sweep-total beyond size asks 0 (omega arith)
          ∙ ap (λ d. min size (0 + d)) (reachable-bid type price asks (is.ask_side).sorted)
          ∙ omega arith,
      refl,
      omega (arith, sweep-depth beyond size asks 0),
    )
crossed-fill false type price size {b} {bids} {asks} is =
    let beyond = beyond_ask type price in
    let r = sweep beyond size (reverse bids) 0 in
    (
      sweep-total beyond size (reverse bids) 0 (omega arith)
          ∙ ap (λ d. min size (0 + d)) (reachable-ask type price bids (is.bid_side).sorted)
          ∙ omega arith,
      refl,
      omega (
        arith,
        sweep-depth beyond size (reverse bids) 0,
        depth-reverse bids,
        depth-reverse r.rows,
      ),
    )

-- What an order that is put into the book or kept out of it adds to its side.
Entered-depth :
    (left s : Bool) (i : ℕ) (o : Order) (b : OrderBook) (bids asks : List Row) (free : List ℕ)
    → (left ≡ false → o.size ≡ 0)
    → Entered left s i o b bids asks free
    → (bids' : List Row) × (asks' : List Row) × IsBook b bids' asks' free
      × (depth (side_of s bids' asks') ≡ depth (side_of s bids asks) + o.size)
      × (depth (side_of (not s) bids' asks') ≡ depth (side_of (not s) bids asks))
      × (has i (all_slots (side_of s bids' asks')) ≡ left)
Entered-depth true true i o b bids asks free none_left is = (
  rest_row o.price (i, o) bids,
  asks,
  is,
  depth-rest_row o.price i o bids,
  refl,
  has-rest_row o.price i o bids,
)
Entered-depth true false i o b bids asks free none_left is = (
  bids,
  rest_row o.price (i, o) asks,
  is,
  depth-rest_row o.price i o asks,
  refl,
  has-rest_row o.price i o asks,
)
Entered-depth false true i o b bids asks free none_left is =
    (bids, asks, is.book, omega (arith, none_left refl), refl, is.not_bid)
Entered-depth false false i o b bids asks free none_left is =
    (bids, asks, is.book, omega (arith, none_left refl), refl, is.not_ask)

-- `addOrder` of a size below 2^32 in a well-formed book with a free slot never faults and ends, and returns
-- the order at the first free slot. It trades at once the smaller of its size and the total size of the
-- opposite orders at prices within its limit, or of all of them for a market order: the opposite side
-- shrinks by just that much, and its own side grows by just the rest. The order rests there exactly if it
-- was not filled, and the book keeps its invariant.
pub add_order-fill :
    (order_id client_id size price : ℕ) (s : Bool) (type : OrderType) (b : OrderBook)
    (bids asks : List Row) (i : ℕ) (free : List ℕ)
    → size < uint32
    → IsBook b bids asks (i ∷ free)
    → let filled = min size (offered s type price bids asks) in
      Returns
        (λ p b'.
          (p ≡ some i)
          × (bids' : List Row) × (asks' : List Row) × (closed : List ℕ) × IsBook b' bids' asks'
              (release closed free)
          × (depth (side_of (not s) bids' asks') + filled ≡ depth (side_of (not s) bids asks))
          × (depth (side_of s bids' asks') + filled ≡ depth (side_of s bids asks) + size)
          × (has i (all_slots (side_of s bids' asks')) ≡ ltb filled size))
        (add_order order_id client_id size price s type b)
add_order-fill order_id client_id size price s type b bids asks i free small is =
    let r = crossed s type price size bids asks in
    let o = record (new_order_of b.symbol order_id client_id size price s type) {
      size = size - r.total;
    } in
    let (total, own, other) = crossed-fill s type price size is in
    Returns-mono (add_order_lem order_id client_id size price s type b bids asks i free small is)
      λ p b' (ep, entered, _).
        let (bids', asks', is', grown, same, rests) =
          Entered-depth (ltb r.total size) s i o b' (bids_left s r bids) (asks_left s r asks)
            (release r.closed free) (λ h. ground arith) entered in
        (
          ep,
          bids',
          asks',
          r.closed,
          is',
          omega (arith, total, other, same),
          omega (arith, total, own, grown),
          rests ∙ ap (λ t. ltb t size) total,
        )
