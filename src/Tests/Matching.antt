-- ===== src/Tests/Matching.antt =====
-- The theorems on matching, on the book of the parent.
use cpp_trading_exchange.Base.{ℕ, ◌+◌, ◌≡◌, List, [], ◌∷◌, ◌++◌, arith}
use Prim.Native.Nat.{min}
use mathlib.Core.List.{reverse}
use cpp_trading_exchange.Base.Cmd.{Returns}
use cpp_trading_exchange.Order.{limit, market}
use cpp_trading_exchange.Order.Access.{Frame}
use cpp_trading_exchange.Book.{
  beyond_bid, beyond_ask, match_at_level, match_bid_order, match_ask_order,
}
use cpp_trading_exchange.Book.Rows.{match_row, release}
use cpp_trading_exchange.Book.LevelRound.{LevelMatched}
use cpp_trading_exchange.Book.LevelMatch.{match_at_level_lem}
use cpp_trading_exchange.Book.Sweep.{Row, sweep, all_slots, depth}
use cpp_trading_exchange.Book.Limits.{offered_to_bid, offered_to_ask}
use cpp_trading_exchange.Book.Outcome.{match_bid_order-fill, match_ask_order-fill}
use cpp_trading_exchange.Book.Match.{IsBook, match_bid_order_lem, match_ask_order_lem}
use cpp_trading_exchange.Tests.{
  four_slots, two_asks, ask_orders, ask_rows, bid_rows, a_book, four_slots-IsPool, two_asks-IsLevel,
  a_book-IsBook,
}

-- A market order for 12 takes the first ask and 2 of the second.
match_bid_order_example :
    let r = sweep (beyond_bid market 0) 12 ask_rows 0 in
    Returns
      (λ t b'.
        (t ≡ r.total)
        × IsBook b' bid_rows r.rows (release r.closed (3 ∷ []))
        × (b'.symbol ≡ "AAPL")
        × Frame (all_slots ask_rows) four_slots b'.order_pool)
      (match_bid_order 0 12 market 0 a_book)
match_bid_order_example =
    match_bid_order_lem 0 12 market 0 a_book bid_rows ask_rows (3 ∷ []) (omega arith) a_book-IsBook

match_ask_order_example :
    let r = sweep (beyond_ask limit 98) 4 (reverse bid_rows) 0 in
    Returns
      (λ t b'.
        (t ≡ r.total)
        × IsBook b' (reverse r.rows) ask_rows (release r.closed (3 ∷ []))
        × (b'.symbol ≡ "AAPL")
        × Frame (all_slots bid_rows) four_slots b'.order_pool)
      (match_ask_order 98 4 limit 0 a_book)
match_ask_order_example =
    match_ask_order_lem 98 4 limit 0 a_book bid_rows ask_rows (3 ∷ []) (omega arith) a_book-IsBook

match_at_level_example :
    Returns
      (LevelMatched four_slots (3 ∷ []) (0 ∷ 1 ∷ []) (match_row 12 ask_orders 0))
      (match_at_level 12 two_asks 0 four_slots)
match_at_level_example =
    match_at_level_lem 12 0 four_slots two_asks ask_orders (3 ∷ []) (omega arith) two_asks-IsLevel
      four_slots-IsPool

match_bid_order-fill_example :
    Returns
      (λ t b'.
        (asks' : List Row) × (closed : List ℕ) × IsBook b' bid_rows asks' (release closed (3 ∷ []))
        × (t ≡ min 12 (0 + offered_to_bid limit 100 ask_rows))
        × (depth asks' + t ≡ depth ask_rows + 0)
        × (all_slots ask_rows ≡ closed ++ all_slots asks'))
      (match_bid_order 100 12 limit 0 a_book)
match_bid_order-fill_example =
    match_bid_order-fill 100 12 limit 0 a_book bid_rows ask_rows (3 ∷ []) (omega arith)
      (omega arith) a_book-IsBook

match_ask_order-fill_example :
    Returns
      (λ t b'.
        (bids' : List Row) × (closed : List ℕ) × IsBook b'
          (reverse bids')
          ask_rows
          (release closed (3 ∷ []))
        × (t ≡ min 9 (0 + offered_to_ask limit 98 bid_rows))
        × (depth bids' + t ≡ depth (reverse bid_rows) + 0)
        × (all_slots (reverse bid_rows) ≡ closed ++ all_slots bids'))
      (match_ask_order 98 9 limit 0 a_book)
match_ask_order-fill_example =
    match_ask_order-fill 98 9 limit 0 a_book bid_rows ask_rows (3 ∷ []) (omega arith) (omega arith)
      a_book-IsBook
