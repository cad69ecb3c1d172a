-- ===== src/Book/Lines.antt =====
-- The text of OrderBook::toString, line by line.
use cpp_trading_exchange.Base.{ℕ, ◌≡◌, ◌∙◌, ◌||◌, refl, Option, none, some, List, [], ◌∷◌, map, has}
use cpp_trading_exchange.Base.Text.{
  lines, Single, AllSingle, concat, end_line, Single-concat, Single-test, AllSingle-append,
  AllSingle-map, lines-concat,
}
use Prim.Native.String.{String}
use cpp_trading_exchange.Order.Text.{Format}
use cpp_trading_exchange.Book.{OrderBook}
use cpp_trading_exchange.Book.Sweep.{Row}
use cpp_trading_exchange.Book.Side.{keys}
use cpp_trading_exchange.Book.Match.{IsBook}
use cpp_trading_exchange.Book.Shown.{shown_book, book_lines-shown}
use cpp_trading_exchange.Book.Table.{Descending, line, table_rows}
use cpp_trading_exchange.Book.Text.{
  count_text, table_line, mid_price, title, heading, rule, mid_line, book_lines, to_string,
}

-- What fmt writes for a number, or for a text with no end of line, has none.
pub record WritesOneLine (f : Format) : Type 0 where
  pub fixed-Single : (n : ℕ) (d : f.Double) → Single (f.fixed n d)
  pub right-Single : (w : ℕ) (s : String) → Single s → Single (f.right w s)
  pub fixed_right-Single : (w n : ℕ) (d : f.Double) → Single (f.fixed_right w n d)

module _ (f : Format) (one : WritesOneLine f) where
  count_text-Single : (count : Option ℕ) → Single (count_text f count)
  unfolding count_text
  count_text-Single none = Single-test "0" refl
  count_text-Single (some n) = one.fixed-Single 3 (f.over (f.to_double n) (f.to_double 1000))

  -- Three fields and what stands between them.
  fields-Single :
      (s t u : String)
      → Single s
      → Single t
      → Single u
      → Single (concat (s ∷ " | " ∷ t ∷ " | " ∷ u ∷ []))
  fields-Single s t u p q r =
      let between = Single-test " | " refl in
      Single-concat (s ∷ " | " ∷ t ∷ " | " ∷ u ∷ []) (p, (between, (q, (between, (r, tt)))))

  table_line-Single : (row : Option ℕ × ℕ × Option ℕ) → Single (table_line f row)
  unfolding table_line
  table_line-Single (bid_count, price, ask_count) =
      fields-Single (f.right 10 (count_text f bid_count))
        (f.fixed_right 10 2 (f.over (f.to_double price) (f.to_double 100)))
        (f.right 10 (count_text f ask_count))
        (one.right-Single 10 (count_text f bid_count) (count_text-Single bid_count))
        (one.fixed_right-Single 10 2 (f.over (f.to_double price) (f.to_double 100)))
        (one.right-Single 10 (count_text f ask_count) (count_text-Single ask_count))

  heading-Single : Single (heading f)
  unfolding heading
  heading-Single =
      fields-Single (f.right 10 "Bids") (f.right 10 "Price") (f.right 10 "Asks")
        (one.right-Single 10 "Bids" (Single-test "Bids" refl))
        (one.right-Single 10 "Price" (Single-test "Price" refl))
        (one.right-Single 10 "Asks" (Single-test "Asks" refl))

  title-Single : (b : OrderBook) → Single b.symbol → Single (title f b)
  unfolding title
  title-Single b p =
      Single-concat ("Order Book for " ∷ b.symbol ∷ ":" ∷ [])
        (Single-test "Order Book for " refl, (p, (Single-test ":" refl, tt)))

  mid_line-Single : (b : OrderBook) → Single (mid_line f b)
  unfolding mid_line
  mid_line-Single b =
      Single-concat ("Mid Price: " ∷ f.fixed 2 (mid_price f b) ∷ [])
        (Single-test "Mid Price: " refl, (one.fixed-Single 2 (mid_price f b), tt))

  book_lines-AllSingle :
      (b : OrderBook) (rows : List (Option ℕ × ℕ × Option ℕ))
      → Single b.symbol
      → AllSingle (book_lines f b rows)
  unfolding book_lines
  book_lines-AllSingle b rows p =
      let under = Single-test (rule f) refl in
      (
        title-Single b p,
        (
          heading-Single,
          (
            under,
            AllSingle-append (map (table_line f) rows) (rule f ∷ mid_line f b ∷ [])
                (AllSingle-map (table_line f) rows table_line-Single)
                (under, (mid_line-Single b, tt)),
          ),
        ),
      )

  -- toString of a well-formed book, of a symbol with no end of line, with formats that write none, is defined, ends and changes nothing.
  -- The lines of its text are the title with the symbol, the heading "Bids", "Price", "Asks" and a rule,
  -- then for each price that has a level on either side, from the highest price down, none twice, the
  -- price in units between the total sizes of the orders that rest there, modulo 2^32 and in thousands, or
  -- "0" for no level, then a rule and the mid price, which is the sum of the highest bid and the lowest ask
  -- by 200, or 0 if there is no bid or no ask.
  pub to_string-lines :
      (b : OrderBook) (bids asks : List Row) (free : List ℕ)
      → IsBook b bids asks free
      → Single b.symbol
      → (prices : List ℕ) × (text : String) × (to_string f b ≡ some (text, b))
        × (lines text ≡ shown_book f b bids asks prices)
        × Descending prices
        × ((p : ℕ) → has p prices ≡ (has p (keys bids) || has p (keys asks)))
  unfolding to_string
  to_string-lines b bids asks free is p =
      let (prices, rows, down, all) = table_rows b bids asks free is in
      let written = book_lines f b (map (line bids asks) prices) in
      (
        prices,
        concat (map end_line written),
        rw (to_string, rows) refl,
        lines-concat written (book_lines-AllSingle b (map (line bids asks) prices) p)
            ∙ book_lines-shown f b bids asks free prices is,
        down,
        all,
      )
