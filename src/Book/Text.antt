-- ===== src/Book/Text.antt =====
-- OrderBook::toString of project/order_book.cpp as a text. The numbers in it are those of Book/Depth.
use cpp_trading_exchange.Base.{ℕ, Option, none, some, List, [], ◌∷◌, ◌++◌, map}
use cpp_trading_exchange.Base.Cmd.{Cmd, pure, ◌>>=◌}
use cpp_trading_exchange.Base.Text.{concat, end_line}
use Prim.Native.String.{String}
use cpp_trading_exchange.Order.Text.{Format}
use cpp_trading_exchange.Book.{OrderBook, in_pool}
use cpp_trading_exchange.Book.Levels.{begin, rbegin}
use cpp_trading_exchange.Book.Depth.{insert_prices, table}

module _ (f : Format) where
  -- `bid_count` or `ask_count`, "0" where there is no level.
  unfoldable pub count_text : Option ℕ → String
  count_text none = "0"
  count_text (some total_size) = f.fixed 3 (f.over (f.to_double total_size) (f.to_double 1000))

  -- `fmt::format("{:>10} | {:>10.2f} | {:>10}\n", …)`, without the end of the line.
  unfoldable pub table_line : Option ℕ × ℕ × Option ℕ → String
  unfolding count_text
  table_line (bid_count, price, ask_count) = concat (
      f.right 10 (count_text bid_count)
      ∷ " | "
      ∷ f.fixed_right 10 2 (f.over (f.to_double price) (f.to_double 100))
      ∷ " | "
      ∷ f.right 10 (count_text ask_count)
      ∷ [])

  unfoldable pub mid_price : OrderBook → f.Double
  unfolding begin rbegin
  mid_price b = elim (rbegin b.bid_levels) [
    | none ↦ f.to_double 0
    | some (bid, _) ↦ elim (begin b.ask_levels) [
      | none ↦ f.to_double 0
      | some (ask, _) ↦ f.over (f.plus (f.to_double bid) (f.to_double ask)) (f.to_double 200)
    ]
  ]

  unfoldable pub title : OrderBook → String
  title b = concat ("Order Book for " ∷ b.symbol ∷ ":" ∷ [])

  unfoldable pub heading : String
  heading = concat (f.right 10 "Bids" ∷ " | " ∷ f.right 10 "Price" ∷ " | " ∷ f.right 10 "Asks" ∷ [])

  abbrev pub rule : String
  rule = "-------------------------------------"

  unfoldable pub mid_line : OrderBook → String
  unfolding mid_price
  mid_line b = concat ("Mid Price: " ∷ f.fixed 2 (mid_price b) ∷ [])

  -- What is written to the stream, line by line.
  unfoldable pub book_lines : OrderBook → List (Option ℕ × ℕ × Option ℕ) → List String
  unfolding table_line title heading mid_line
  book_lines b rows = title b ∷ heading ∷ rule ∷ (map table_line rows ++ rule ∷ mid_line b ∷ [])

  unfoldable pub to_string : Cmd OrderBook String
  unfolding book_lines in_pool insert_prices table
  to_string b =
      (do
        rows ← in_pool (table (insert_prices b.ask_levels (insert_prices b.bid_levels [])) b)
        pure (concat (map end_line (book_lines b rows))))
        b
