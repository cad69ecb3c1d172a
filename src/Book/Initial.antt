-- ===== src/Book/Initial.antt =====
-- The book that the constructor of project/order_book.cpp makes.
use cpp_trading_exchange.Base.{ℕ, ◌<◌, ◌≡◌, refl, some, [], arith}
use Prim.Native.String.{String}
use cpp_trading_exchange.Queue.{size_t}
use cpp_trading_exchange.Pool.FreeList.{range, length-range}
use cpp_trading_exchange.Pool.Build.{mem_pool_lem}
use cpp_trading_exchange.Order.Memory.{order_overlay}
use cpp_trading_exchange.Book.{OrderBook, order_book}
use cpp_trading_exchange.Book.Sweep.{all_slots}
use cpp_trading_exchange.Book.Match.{IsBook}

-- A new book has no levels, all its slots are free, to be used in the order of their indices, and it
-- has the invariant that matching and adding keep.
pub order_book_lem :
    (symbol : String) (n : ℕ)
    → 0 < n
    → n < size_t
    → (b : OrderBook) × (order_book symbol n ≡ some b)
      × IsBook b [] [] (range 0 n)
      × (b.symbol ≡ symbol)
unfolding order_book all_slots
order_book_lem symbol n more fits =
    let (p, e, is, _) = mem_pool_lem order_overlay n more in
    (
      record { symbol = symbol; order_pool = p; bid_levels = []; ask_levels = [] },
      rw (order_book, e),
      record {
        pool = is;
        bid_side = record { side = tt; placed = tt; sorted = tt };
        ask_side = record { side = tt; placed = tt; sorted = tt };
        room = omega (arith, length-range 0 n, fits);
      },
      refl,
    )
