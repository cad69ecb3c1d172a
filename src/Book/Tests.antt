-- ===== src/Book/Tests.antt =====
-- The scenarios of project/tests/order_book_test.cpp, run on the model.
use cpp_trading_exchange.Base.{ℕ, ◌≡◌, refl, false, Option, none, some, List, [], ◌∷◌, map}
use cpp_trading_exchange.Base.Cmd.{Cmd, pure, ◌>>=◌}
use cpp_trading_exchange.Queue.{peek, empty, remove, append}
use cpp_trading_exchange.Pool.{mem_pool, allocate, deallocate, object_at}
use cpp_trading_exchange.Order.{limit, market, decrease_size}
use cpp_trading_exchange.Order.Memory.{get_node, write_object}
use cpp_trading_exchange.Order.Access.{load_order, store_order, new_order, delete_order}
use cpp_trading_exchange.Book.{
  OrderBook, order_book, add_order, match_bid_order, match_ask_order, in_pool, match_at_level,
  match_loop,
}
use cpp_trading_exchange.Book.Levels.{begin, rbegin, find, erase, put, touch}

-- A run from an empty book with a pool of `n` orders: its result, if it is defined.
abbrev on_book : {A : Type 0} → ℕ → Cmd OrderBook A → Option A
on_book n c = elim (order_book "AAPL" n) [
  | none ↦ none
  | some b ↦ elim (c b) [ none ↦ none | some (a, _) ↦ some a ]
]

-- The price and the size of each level.
abbrev levels : Cmd OrderBook (List (ℕ × ℕ) × List (ℕ × ℕ))
levels b =
    some ((map (λ (p, q). (p, q.size)) b.bid_levels, map (λ (p, q). (p, q.size)) b.ask_levels), b)

abbrev size_of : ℕ → Cmd OrderBook ℕ
size_of p b = elim (in_pool (load_order p) b) [ none ↦ none | some (o, b') ↦ some (o.size, b') ]

abbrev buy_sweep : Cmd OrderBook (ℕ × ℕ × (List (ℕ × ℕ) × List (ℕ × ℕ)))
buy_sweep = do
  _ ← add_order 1 101 100 15000 false limit
  _ ← add_order 2 102 100 15100 false limit
  matched ← match_bid_order 0 150 market 0
  left ← size_of 1
  ls ← levels
  pure (matched, left, ls)

market_buy_sweeps : on_book 10 buy_sweep ≡ some (150, 50, ([], (15100, 1) ∷ []))
unfolding order_book mem_pool add_order allocate deallocate object_at get_node write_object
    load_order store_order new_order delete_order decrease_size match_bid_order match_ask_order
    in_pool begin rbegin find erase put touch peek empty remove append match_at_level match_loop
market_buy_sweeps = refl
