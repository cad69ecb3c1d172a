-- ===== src/Tests/Stale.antt =====
-- A market bid of 12 at price 99 on the book of the parent: it is filled, and then cancelled.
use cpp_trading_exchange.Base.{ℕ, ◌≡◌, refl, true, Option, none, some, [], arith}
use cpp_trading_exchange.Base.Cmd.{Returns}
use cpp_trading_exchange.Queue.{append, remove, empty, peek}
use cpp_trading_exchange.Pool.{object_at, allocate, deallocate}
use cpp_trading_exchange.Order.{Order, market, decrease_size}
use cpp_trading_exchange.Order.Memory.{get_node, write_object}
use cpp_trading_exchange.Order.Access.{load_order, store_order, new_order, delete_order}
use cpp_trading_exchange.Book.{
  OrderBook, add_order, cancel_order, levels_of, match_bid_order, match_at_level, match_loop,
  append_at, new_order_of, beyond_bid,
}
use cpp_trading_exchange.Book.Levels.{begin, find, put, touch}
use cpp_trading_exchange.Book.Rows.{release, match_row}
use cpp_trading_exchange.Book.Sweep.{sweep}
use cpp_trading_exchange.Book.Pending.{Pending}
use cpp_trading_exchange.Book.Add.{crossed, add_order_lem}
use cpp_trading_exchange.Book.Reach.{after}
use cpp_trading_exchange.Book.Stale.{without_orders, cancel_order-stale}
use cpp_trading_exchange.Tests.{a_book, a_book-IsBook, bid_rows, ask_rows, one_bid}

abbrev book_of : Option (Option ℕ × OrderBook) → OrderBook
book_of none = a_book
book_of (some (p, b)) = b

abbrev filled : OrderBook
filled = book_of (add_order 14 7 12 99 true market a_book)

abbrev filled_order : Order
filled_order = record (new_order_of "AAPL" 14 7 12 99 true market) { size = 0 }

filled-add_order : add_order 14 7 12 99 true market a_book ≡ some (some 3, filled)
unfolding add_order allocate deallocate object_at get_node write_object load_order store_order
    new_order decrease_size match_bid_order begin find put touch append remove match_loop
    match_at_level append_at empty peek delete_order
filled-add_order = refl

filled-Pending :
    let r = crossed true market 99 12 bid_rows ask_rows in
    Pending 3 filled_order filled bid_rows r.rows (release r.closed [])
unfolding sweep match_row beyond_bid
filled-Pending =
    (after (some 3) filled
      (add_order_lem 14 7 12 99 true market a_book bid_rows ask_rows 3 [] (omega arith)
        a_book-IsBook)
      filled-add_order).1

bid_level-there : find 99 (levels_of true filled) ≡ some one_bid
unfolding add_order allocate deallocate object_at get_node write_object load_order store_order
    new_order decrease_size match_bid_order begin find put touch append remove match_loop
    match_at_level append_at empty peek delete_order
bid_level-there = refl

cancel_order-stale_example :
    Returns
      (λ _ b'. levels_of true b' ≡ without_orders 99 one_bid (levels_of true filled))
      (cancel_order (some 3) filled)
unfolding new_order_of
cancel_order-stale_example =
    let r = crossed true market 99 12 bid_rows ask_rows in
    cancel_order-stale 3 filled_order filled bid_rows r.rows (release r.closed []) one_bid
      filled-Pending bid_level-there
