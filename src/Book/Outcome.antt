-- ===== src/Book/Outcome.antt =====
-- What `matchBidOrder` and `matchAskOrder` of project/order_book.cpp promise to a trader: how much is
-- filled, and whose orders are used up.
use cpp_trading_exchange.Base.{ℕ, ◌+◌, ◌≤◌, ◌<◌, ◌≡◌, ◌∙◌, ap, List, ◌++◌, arith}
use Prim.Native.Nat.{min}
use mathlib.Core.List.{reverse}
use cpp_trading_exchange.Base.Cmd.{Returns, Returns-mono}
use cpp_trading_exchange.Order.{OrderType}
use cpp_trading_exchange.Book.{
  OrderBook, uint32, match_bid_order, match_ask_order, beyond_bid, beyond_ask,
}
use cpp_trading_exchange.Book.Rows.{release}
use cpp_trading_exchange.Book.Sweep.{Row, sweep, all_slots, depth}
use cpp_trading_exchange.Book.Limits.{offered_to_bid, offered_to_ask, reachable-bid, reachable-ask}
use cpp_trading_exchange.Book.Priority.{sweep-total, sweep-slots, sweep-depth}
use cpp_trading_exchange.Book.Match.{IsBook, match_bid_order_lem, match_ask_order_lem}

module _ (price size : ℕ) (type : OrderType) (total : ℕ) (b : OrderBook) (bids asks : List Row)
    (free : List ℕ) (small : size < uint32) (begun : total ≤ size)
    (is : IsBook b bids asks free) where
  -- A bid of a size below 2^32, not yet filled beyond it, that matches in a well-formed book is filled with
  -- the smaller of what it wants and what it has been filled with before plus the total size of all asks
  -- at prices of at most its limit, or of all asks for a market order; what the asks have less is what was
  -- filled now; the orders used up are the first in price-time order, none skipped, and their slots are
  -- free again.
  pub match_bid_order-fill :
      Returns
        (λ t b'.
          (asks' : List Row) × (closed : List ℕ) × IsBook b' bids asks' (release closed free)
          × (t ≡ min size (total + offered_to_bid type price asks))
          × (depth asks' + t ≡ depth asks + total)
          × (all_slots asks ≡ closed ++ all_slots asks'))
        (match_bid_order price size type total b)
  match_bid_order-fill =
      Returns-mono (match_bid_order_lem price size type total b bids asks free small is)
        λ t b' (et, is', _, _).
          let beyond = beyond_bid type price in
          let r = sweep beyond size asks total in
          (
            r.rows,
            r.closed,
            is',
            et
                ∙ sweep-total beyond size asks total begun
                ∙ ap (λ d. min size (total + d))
                    (reachable-bid type price asks (is.ask_side).sorted),
            omega (arith, et, sweep-depth beyond size asks total),
            sweep-slots beyond size asks total,
          )

  -- An ask likewise, with the bids at prices of at least its limit, or all bids for a market order, and
  -- the orders used up counted from the highest price down.
  pub match_ask_order-fill :
      Returns
        (λ t b'.
          (bids' : List Row) × (closed : List ℕ) × IsBook b'
            (reverse bids')
            asks
            (release closed free)
          × (t ≡ min size (total + offered_to_ask type price bids))
          × (depth bids' + t ≡ depth (reverse bids) + total)
          × (all_slots (reverse bids) ≡ closed ++ all_slots bids'))
        (match_ask_order price size type total b)
  match_ask_order-fill =
      Returns-mono (match_ask_order_lem price size type total b bids asks free small is)
        λ t b' (et, is', _, _).
          let beyond = beyond_ask type price in
          let r = sweep beyond size (reverse bids) total in
          (
            r.rows,
            r.closed,
            is',
            et
                ∙ sweep-total beyond size (reverse bids) total begun
                ∙ ap (λ d. min size (total + d))
                    (reachable-ask type price bids (is.bid_side).sorted),
            omega (arith, et, sweep-depth beyond size (reverse bids) total),
            sweep-slots beyond size (reverse bids) total,
          )
