-- ===== src/Book/Shown.antt =====
-- The text that OrderBook::toString is to write, told by the rows of the book alone: the depths, the best
-- prices and the words between them, with none of the functions that write it.
use cpp_trading_exchange.Base.{ℕ, ◌≡◌, refl, inl, inr, Option, none, some, List, [], ◌∷◌, ◌++◌, map}
use cpp_trading_exchange.Base.Text.{concat}
use Prim.Native.String.{String}
use cpp_trading_exchange.Order.Text.{Format}
use cpp_trading_exchange.Book.{OrderBook}
use cpp_trading_exchange.Book.Sweep.{Row}
use cpp_trading_exchange.Book.Side.{keys}
use cpp_trading_exchange.Book.Match.{IsBook}
use cpp_trading_exchange.Book.Best.{highest, lowest, best_bid, best_ask}
use cpp_trading_exchange.Book.Table.{depth_at, line}
use cpp_trading_exchange.Book.Text.{
  count_text, table_line, mid_price, title, heading, mid_line, book_lines,
}

module _ (f : Format) where
  -- What a depth is printed as: in thousands with three places, "0" for no level.
  abbrev pub shown_depth : Option ℕ → String
  shown_depth none = "0"
  shown_depth (some n) = f.fixed 3 (f.over (f.to_double n) (f.to_double 1000))

  -- Half the sum of the highest bid and the lowest ask in units, and 0 without either.
  abbrev pub best_mid : Option ℕ → Option ℕ → f.Double
  best_mid none ask = f.to_double 0
  best_mid (some bid) none = f.to_double 0
  best_mid (some bid) (some ask) =
      f.over (f.plus (f.to_double bid) (f.to_double ask)) (f.to_double 200)

  -- The printed row of a price.
  abbrev pub shown_row : List Row → List Row → ℕ → String
  shown_row bids asks p = concat (
      f.right 10 (shown_depth (depth_at p bids))
      ∷ " | "
      ∷ f.fixed_right 10 2 (f.over (f.to_double p) (f.to_double 100))
      ∷ " | "
      ∷ f.right 10 (shown_depth (depth_at p asks))
      ∷ [])

  count_text-shown : (count : Option ℕ) → count_text f count ≡ shown_depth count
  unfolding count_text
  count_text-shown none = refl
  count_text-shown (some n) = refl

  table_line-shown :
      (bids asks : List Row) (prices : List ℕ)
      → map (table_line f) (map (line bids asks) prices) ≡ map (shown_row bids asks) prices
  unfolding table_line
  table_line-shown bids asks [] = refl
  table_line-shown bids asks (p ∷ prices) =
      rw
        (
          table_line,
          count_text-shown (depth_at p bids),
          count_text-shown (depth_at p asks),
          table_line-shown bids asks prices,
        )
        refl

  mid_price-best :
      {b : OrderBook} {bids asks : List Row} {free : List ℕ}
      → IsBook b bids asks free
      → mid_price f b ≡ best_mid (highest (keys bids)) (lowest (keys asks))
  unfolding mid_price
  mid_price-best is = elim (best_bid is) [
    | inl (found, best) ↦ rw (mid_price, found, best) refl
    | inr (bid, level, found, best) ↦ elim (best_ask is) [
      | inl (found', best') ↦ rw (mid_price, found, best, found', best') refl
      | inr (ask, level', found', best') ↦ rw (mid_price, found, best, found', best') refl
    ]
  ]

  -- The lines of a printed book, given the prices of its table.
  abbrev pub shown_book : OrderBook → List Row → List Row → List ℕ → List String
  shown_book b bids asks prices =
      concat ("Order Book for " ∷ b.symbol ∷ ":" ∷ [])
      ∷ concat (f.right 10 "Bids" ∷ " | " ∷ f.right 10 "Price" ∷ " | " ∷ f.right 10 "Asks" ∷ [])
      ∷ "-------------------------------------"
      ∷ (map (shown_row bids asks) prices
          ++ "-------------------------------------"
            ∷ concat (
                "Mid Price: "
                ∷ f.fixed 2 (best_mid (highest (keys bids)) (lowest (keys asks)))
                ∷ [])
            ∷ [])

  pub book_lines-shown :
      (b : OrderBook) (bids asks : List Row) (free : List ℕ) (prices : List ℕ)
      → IsBook b bids asks free
      → book_lines f b (map (line bids asks) prices) ≡ shown_book b bids asks prices
  unfolding book_lines title heading mid_line
  book_lines-shown b bids asks free prices is =
      rw (book_lines, table_line-shown bids asks prices, mid_line, mid_price-best is) refl
