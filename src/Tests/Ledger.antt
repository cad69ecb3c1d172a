-- ===== src/Tests/Ledger.antt =====
-- The slots of a pool of two, after an order that was filled as it came in.
use cpp_trading_exchange.Base.{◌≡◌, refl, true, false, some, [], ◌∷◌, arith}
use cpp_trading_exchange.Queue.{empty, peek, remove}
use cpp_trading_exchange.Pool.{object_at, allocate, deallocate}
use cpp_trading_exchange.Order.{limit, decrease_size}
use cpp_trading_exchange.Order.Memory.{get_node, write_object}
use cpp_trading_exchange.Order.Access.{load_order, store_order, new_order, delete_order}
use cpp_trading_exchange.Book.{OrderBook, add_order, match_ask_order, match_loop, beyond_ask}
use cpp_trading_exchange.Book.Levels.{rbegin, erase, put}
use cpp_trading_exchange.Book.Ledger.{opens, adds, Accounted, Run-Accounted}
use cpp_trading_exchange.Tests.{shown, in_use}
use cpp_trading_exchange.Tests.Calls.{new_book_bid, new_book-order_book, new_book-add_order}

-- The ask takes the bid, whose slot is free again. Its own is not.
abbrev new_book_filled : OrderBook
new_book_filled = record {
  symbol = "AAPL";
  order_pool = record {
    store =
        record { is_free_or_in_use = true; object = record (shown 1 0 100 true) { order_id = 2 } }
        ∷ in_use (shown 2 0 100 false)
        ∷ [];
    next_free_index = 0;
  };
  bid_levels = [];
  ask_levels = [];
}

new_book_bid-add_order :
    add_order 2 100 20 100 false limit new_book_bid ≡ some (some 1, new_book_filled)
unfolding add_order allocate deallocate object_at get_node write_object load_order store_order
    new_order delete_order decrease_size match_ask_order rbegin erase put match_loop beyond_ask
    empty peek remove
new_book_bid-add_order = refl

-- Two slots: the one is free, and the other is lost.
Run-Accounted_example : Accounted 2 1 new_book_filled
unfolding load_order object_at
Run-Accounted_example = Run-Accounted "AAPL" 2 1 new_book_filled (omega arith) (omega arith) (
    adds 2 100 20 100 false limit (some 1) (omega arith)
      (adds 1 100 20 100 true limit (some 0) (omega arith) (opens new_book-order_book)
        new_book-add_order)
      new_book_bid-add_order)
