-- ===== src/Book/Match.antt =====
-- The invariant of the whole book, and `matchBidOrder` and `matchAskOrder` of project/order_book.cpp.
use cpp_trading_exchange.Base.{
  ℕ, ◌+◌, ◌<◌, ◌≡◌, ◌≢◌, ap, refl, inr, Bool, true, false, Option, none, some, List, [], ◌∷◌, ◌++◌,
  arith, length, length-append, has, has-append,
}
use mathlib.Core.List.{reverse, reverse-cons}
use cpp_trading_exchange.Base.Cmd.{Returns, returns}
use cpp_trading_exchange.Queue.{size_t}
use cpp_trading_exchange.Pool.FreeList.{IsPool}
use cpp_trading_exchange.Order.{OrderType}
use cpp_trading_exchange.Order.Memory.{Memory, order_overlay}
use cpp_trading_exchange.Order.Access.{Frame}
use cpp_trading_exchange.Book.{
  OrderBook, PriceLevels, uint32, match_bid_order, match_ask_order, beyond_bid, beyond_ask,
}
use cpp_trading_exchange.Book.Rows.{slots, release}
use cpp_trading_exchange.Book.Sweep.{Row, Swept, sweep, all_slots}
use cpp_trading_exchange.Book.Priority.{sweep-slots}
use cpp_trading_exchange.Book.Side.{WellPlaced, IsSide, IsSide-Frame, level-apart}
use cpp_trading_exchange.Book.Invariant.{
  HoldsSide, HoldsSide-WellPlaced, Matches, match_asks, match_bids, all_slots-append,
}

pub record IsBook (b : OrderBook) (bids asks : List Row) (free : List ℕ) : Type 0 where
  pub pool : IsPool order_overlay b.order_pool free
  pub bid_side : HoldsSide b.order_pool true b.bid_levels bids
  pub ask_side : HoldsSide b.order_pool false b.ask_levels asks
  pub room : length free + (length (all_slots bids) + length (all_slots asks)) < size_t

-- The slots of the two sides are apart, since an order knows its side.
sides-apart :
    (m : Memory) (s t : Bool) (ls ks : PriceLevels) (rs ss : List Row)
    → s ≢ t
    → IsSide m ls rs
    → WellPlaced s rs
    → IsSide m ks ss
    → WellPlaced t ss
    → (a : ℕ) → has a (all_slots ss) ≡ true
    → has a (all_slots rs) ≡ false
unfolding all_slots
sides-apart m s t [] ks [] ss ne p w q v a h = refl
sides-apart m s t [] ks (r ∷ rs) ss ne p w q v a h = elim p [ ]
sides-apart m s t (l ∷ ls) ks [] ss ne p w q v a h = elim p [ ]
sides-apart m s t (l ∷ ls) ks ((k, xs) ∷ rs) ss ne p w q v a h =
    rw
      (
        has-append a (slots xs) (all_slots rs),
        level-apart m s t k xs ks ss (p.1).live w.2 q v (inr ne) a h,
      )
      (sides-apart m s t ls ks rs ss ne p.2 w.3 q v a h)

pub HoldsSide-apart :
    {m : Memory} {s t : Bool} {ls ks : PriceLevels} {rs ss : List Row}
    → s ≢ t
    → HoldsSide m s ls rs
    → HoldsSide m t ks ss
    → (a : ℕ) → has a (all_slots ss) ≡ true
    → has a (all_slots rs) ≡ false
HoldsSide-apart {m} {s} {t} {ls} {ks} {rs} {ss} ne p q =
    sides-apart m s t ls ks rs ss ne p.side (HoldsSide-WellPlaced p) q.side (HoldsSide-WellPlaced q)

pub HoldsSide-Frame :
    {m m' : Memory} {s : Bool} {ls : PriceLevels} {rs : List Row} (ys : List ℕ)
    → Frame ys m m'
    → ((a : ℕ) → has a (all_slots rs) ≡ true → has a ys ≡ false)
    → HoldsSide m s ls rs
    → HoldsSide m' s ls rs
HoldsSide-Frame {m} {m'} {ls} {rs} ys f apart h = record {
  side = IsSide-Frame m m' ys ls rs f apart h.side;
  placed = h.placed;
  sorted = h.sorted;
}

length-release : (is free : List ℕ) → length (release is free) ≡ length is + length free
length-release [] free = omega arith
length-release (i ∷ is) free = omega (arith, length-release is (i ∷ free))

-- What a sweep takes off a side it gives to the pool.
pub sweep-room :
    (beyond : ℕ → Bool) (size : ℕ) (rs : List Row) (total : ℕ) (free : List ℕ)
    → let r = sweep beyond size rs total in
      length (release r.closed free) + length (all_slots r.rows)
      ≡ length free + length (all_slots rs)
sweep-room beyond size rs total free =
    let r = sweep beyond size rs total in
    omega (
      arith,
      length-release r.closed free,
      ap length (sweep-slots beyond size rs total),
      length-append r.closed (all_slots r.rows),
    )

pub length-all_slots-reverse :
    (rs : List Row) → length (all_slots (reverse rs)) ≡ length (all_slots rs)
unfolding all_slots
length-all_slots-reverse [] = refl
length-all_slots-reverse ((k, xs) ∷ rs) =
    rw (reverse-cons (k, xs) rs, all_slots-append (reverse rs) ((k, xs) ∷ []))
      (omega (
        arith,
        length-append (all_slots (reverse rs)) (slots xs ++ []),
        length-append (slots xs) [],
        length-append (slots xs) (all_slots rs),
        length-all_slots-reverse rs,
      ))

module _ (price size : ℕ) (type : OrderType) (total : ℕ) (b : OrderBook) (bids asks : List Row)
    (free : List ℕ) (small : size < uint32) (is : IsBook b bids asks free) where
  -- `matchBidOrder` of a size below 2^32 in a well-formed book never faults and ends. It sweeps the asks from the lowest price, up to the limit
  -- price of a limit order, as the rule on lists does; the bids stay as they are, the book keeps its
  -- invariant, and nothing but the asks' slots changes in the pool.
  pub match_bid_order_lem :
      let r = sweep (beyond_bid type price) size asks total in
      Returns
        (λ t b'.
          (t ≡ r.total)
          × IsBook b' bids r.rows (release r.closed free)
          × (b'.symbol ≡ b.symbol)
          × Frame (all_slots asks) b.order_pool b'.order_pool)
        (match_bid_order price size type total b)
  unfolding match_bid_order
  match_bid_order_lem = in_book (
      match_asks (beyond_bid type price) size total small b.order_pool false b.ask_levels asks free
        (length b.ask_levels + 1) (omega arith) is.ask_side is.pool)
    where
      r : Swept
      r = sweep (beyond_bid type price) size asks total

      in_book :
          {run : Option ((PriceLevels × ℕ) × Memory)}
          → Returns (Matches b.order_pool false free (all_slots asks) r.rows r) run
          → Returns
              (λ t b'.
                (t ≡ r.total)
                × IsBook b' bids r.rows (release r.closed free)
                × (b'.symbol ≡ b.symbol)
                × Frame (all_slots asks) b.order_pool b'.order_pool)
              (elim run [
                | none ↦ none
                | some ((levels, t), pool) ↦
                    some (t, record b { ask_levels = levels; order_pool = pool })
              ])
      in_book (returns (et, held, pool, frame)) = returns (
        et,
        record {
          pool = pool;
          bid_side =
              HoldsSide-Frame (all_slots asks) frame
                (HoldsSide-apart (λ e. cc) is.ask_side is.bid_side) is.bid_side;
          ask_side = held;
          room = omega (arith, is.room, sweep-room (beyond_bid type price) size asks total free);
        },
        refl,
        frame,
      )

  -- `matchAskOrder`, on the same conditions, does the same to the bids, from the highest price down.
  pub match_ask_order_lem :
      let r = sweep (beyond_ask type price) size (reverse bids) total in
      Returns
        (λ t b'.
          (t ≡ r.total)
          × IsBook b' (reverse r.rows) asks (release r.closed free)
          × (b'.symbol ≡ b.symbol)
          × Frame (all_slots bids) b.order_pool b'.order_pool)
        (match_ask_order price size type total b)
  unfolding match_ask_order
  match_ask_order_lem = in_book (
      match_bids (beyond_ask type price) size total small b.order_pool true b.bid_levels bids free
        (length b.bid_levels + 1) (omega arith) is.bid_side is.pool)
    where
      r : Swept
      r = sweep (beyond_ask type price) size (reverse bids) total

      in_book :
          {run : Option ((PriceLevels × ℕ) × Memory)}
          → Returns (Matches b.order_pool true free (all_slots bids) (reverse r.rows) r) run
          → Returns
              (λ t b'.
                (t ≡ r.total)
                × IsBook b' (reverse r.rows) asks (release r.closed free)
                × (b'.symbol ≡ b.symbol)
                × Frame (all_slots bids) b.order_pool b'.order_pool)
              (elim run [
                | none ↦ none
                | some ((levels, t), pool) ↦
                    some (t, record b { bid_levels = levels; order_pool = pool })
              ])
      in_book (returns (et, held, pool, frame)) = returns (
        et,
        record {
          pool = pool;
          bid_side = held;
          ask_side =
              HoldsSide-Frame (all_slots bids) frame
                (HoldsSide-apart (λ e. cc) is.bid_side is.ask_side) is.ask_side;
          room = omega (
            arith,
            is.room,
            sweep-room (beyond_ask type price) size (reverse bids) total free,
            length-all_slots-reverse bids,
            length-all_slots-reverse r.rows,
          );
        },
        refl,
        frame,
      )
