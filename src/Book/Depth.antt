-- ===== src/Book/Depth.antt =====
-- The numbers that `toString` of project/order_book.cpp prints: the depth of the levels, from the
-- highest price down, and the mid price. Book/Text has the text.
use cpp_trading_exchange.Base.{
  ℕ, zero, suc, ◌+◌, ◌%◌, Option, none, some, List, [], ◌∷◌, ltb, ◌==◌, if◌then◌else◌, length,
}
use cpp_trading_exchange.Base.Cmd.{Cmd, pure, fault, ◌>>=◌}
use cpp_trading_exchange.Order.Memory.{Memory}
use cpp_trading_exchange.Order.Access.{load_order}
use cpp_trading_exchange.Book.{PriceLevel, PriceLevels, OrderBook, uint32, in_pool}
use cpp_trading_exchange.Book.Levels.{begin, rbegin, find}

-- `for (order; order; order = order->list_node.next) total_size += order->size;`
unfoldable pub total_size_loop : ℕ → Option ℕ → ℕ → Cmd Memory ℕ
total_size_loop fuel none total_size = pure total_size
total_size_loop zero (some p) total_size = fault
total_size_loop (suc fuel) (some p) total_size = do
  order ← load_order p
  total_size_loop fuel (order.list_node.next) ((total_size + order.size) % uint32)

-- A round for each element of the pool is enough for a list without a cycle.
unfoldable pub total_size : PriceLevel → Cmd Memory ℕ
unfolding total_size_loop
total_size level m = total_size_loop (length m.store) level.head 0 m

-- The total at a price, `none` where the side has no level there and the code prints 0.
unfoldable pub count_at : ℕ → PriceLevels → Cmd Memory (Option ℕ)
unfolding total_size
count_at price levels = elim (find price levels) [
  | none ↦ pure none
  | some level ↦ do total ← total_size level; pure (some total)
]

-- `prices.insert(price)`, for a set in descending order.
unfoldable pub insert_price : ℕ → List ℕ → List ℕ
insert_price p [] = p ∷ []
insert_price p (x ∷ xs) =
    let rest = insert_price p xs in
    if ltb x p then p ∷ x ∷ xs else (if p == x then x ∷ xs else x ∷ rest)

unfoldable pub insert_prices : PriceLevels → List ℕ → List ℕ
unfolding insert_price
insert_prices [] prices = prices
insert_prices ((price, _) ∷ levels) prices = insert_prices levels (insert_price price prices)

-- The lines of the table: the totals of bids and asks at each price.
unfoldable pub table : List ℕ → OrderBook → Cmd Memory (List (Option ℕ × ℕ × Option ℕ))
unfolding count_at
table [] b = pure []
table (price ∷ prices) b = do
  bid_count ← count_at price b.bid_levels
  ask_count ← count_at price b.ask_levels
  rows ← table prices b
  pure ((bid_count, price, ask_count) ∷ rows)

-- Two hundred times the mid price, as an exact number.
unfoldable pub mid_price_200 : OrderBook → ℕ
unfolding begin rbegin
mid_price_200 b = elim (rbegin b.bid_levels) [
  | none ↦ 0
  | some (bid, _) ↦ elim (begin b.ask_levels) [ none ↦ 0 | some (ask, _) ↦ bid + ask ]
]

unfoldable pub book_numbers : Cmd OrderBook (List (Option ℕ × ℕ × Option ℕ) × ℕ)
unfolding in_pool insert_prices table mid_price_200
book_numbers b =
    (do
      rows ← in_pool (table (insert_prices b.ask_levels (insert_prices b.bid_levels [])) b)
      pure (rows, mid_price_200 b))
      b
