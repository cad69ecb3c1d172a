-- ===== src/Tests/Texts.antt =====
-- The text of a book, with a format that writes decimal digits and cuts off what is beyond them.
use cpp_trading_exchange.Base.{
  ℕ, zero, suc, ◌+◌, ◌-◌, ◌*◌, ◌/◌, ◌%◌, ◌≡◌, ◌||◌, refl, inl, inr, Bool-cases, true, none, some,
  List, [], ◌∷◌, ltb, if◌then◌else◌, has,
}
use Prim.Native.String.{String, ◌++◌ as join, count}
use cpp_trading_exchange.Base.Text.{lines, Single, AllSingle, Single-join, Single-test}
use cpp_trading_exchange.Order.{limit}
use cpp_trading_exchange.Order.Text
use cpp_trading_exchange.Order.Text.{Format}
use cpp_trading_exchange.Book.{new_order_of}
use cpp_trading_exchange.Book.Side.{keys}
use cpp_trading_exchange.Book.Table.{Descending}
use cpp_trading_exchange.Book.Text.{table_line, to_string}
use cpp_trading_exchange.Book.Lines.{WritesOneLine, to_string-lines}
use cpp_trading_exchange.Book.Shown.{shown_book}
use cpp_trading_exchange.Tests.{ask_rows, bid_rows, a_book, a_book-IsBook}

abbrev nth : ℕ → List String → String
nth i [] = ""
nth zero (s ∷ ss) = s
nth (suc i) (s ∷ ss) = nth i ss

nth-Single : (i : ℕ) (ss : List String) → AllSingle ss → Single (nth i ss)
nth-Single i [] p = tt
nth-Single zero (s ∷ ss) (p, ps) = p
nth-Single (suc i) (s ∷ ss) (p, ps) = nth-Single i ss ps

abbrev digit : ℕ → String
digit n = nth n ("0" ∷ "1" ∷ "2" ∷ "3" ∷ "4" ∷ "5" ∷ "6" ∷ "7" ∷ "8" ∷ "9" ∷ [])

digit-Single : (n : ℕ) → Single (digit n)
digit-Single n = nth-Single n ("0" ∷ "1" ∷ "2" ∷ "3" ∷ "4" ∷ "5" ∷ "6" ∷ "7" ∷ "8" ∷ "9" ∷ []) (
  (refl, tt),
  (
    (refl, tt),
    (
      (refl, tt),
      (
        (refl, tt),
        ((refl, tt), ((refl, tt), ((refl, tt), ((refl, tt), ((refl, tt), ((refl, tt), tt)))))),
      ),
    ),
  ),
)

-- The last digits of a number, at most as many as the fuel.
abbrev digits : ℕ → ℕ → String
digits zero n = ""
digits (suc fuel) n =
    let rest = digits fuel (n / 10) in if ltb n 10 then digit n else join rest (digit (n % 10))

digits-Single : (fuel n : ℕ) → Single (digits fuel n)
digits-Single zero n = tt
digits-Single (suc fuel) n = elim (Bool-cases (ltb n 10)) [
  | inl e ↦ rw e (digit-Single n)
  | inr e ↦ rw e (
      Single-join (digits fuel (n / 10)) (digit (n % 10)) (digits-Single fuel (n / 10))
        (digit-Single (n % 10)))
]

abbrev decimals : ℕ → ℕ → ℕ → String
decimals zero rest n = ""
decimals (suc places) rest n = join (digit (rest * 10 / n)) (decimals places (rest * 10 % n) n)

decimals-Single : (places rest n : ℕ) → Single (decimals places rest n)
decimals-Single zero rest n = tt
decimals-Single (suc places) rest n =
    Single-join (digit (rest * 10 / n)) (decimals places (rest * 10 % n) n)
      (digit-Single (rest * 10 / n)) (decimals-Single places (rest * 10 % n) n)

abbrev spaces : ℕ → String
spaces zero = ""
spaces (suc n) = join " " (spaces n)

spaces-Single : (n : ℕ) → Single (spaces n)
spaces-Single zero = tt
spaces-Single (suc n) = Single-join " " (spaces n) (refl, tt) (spaces-Single n)

-- Doubles as fractions.
abbrev fixed_point : ℕ → ℕ × ℕ → String
fixed_point places (a, b) = join (digits 20 (a / b)) (join "." (decimals places (a % b) b))

fixed_point-Single : (places : ℕ) (d : ℕ × ℕ) → Single (fixed_point places d)
fixed_point-Single places (a, b) =
    Single-join (digits 20 (a / b)) (join "." (decimals places (a % b) b))
      (digits-Single 20 (a / b))
      (Single-join "." (decimals places (a % b) b) (refl, tt) (decimals-Single places (a % b) b))

abbrev pad : ℕ → String → String
pad w s = join (spaces (w - count s)) s

pad-Single : (w : ℕ) (s : String) → Single s → Single (pad w s)
pad-Single w s p = Single-join (spaces (w - count s)) s (spaces-Single (w - count s)) p

abbrev fractions : Format
fractions = record {
  Double = ℕ × ℕ;
  to_double = λ n. (n, 1);
  plus = λ (a, b) (c, d). (a * d + c * b, b * d);
  over = λ (a, b) (c, d). (a * d, b * c);
  decimal = digits 20;
  fixed = fixed_point;
  right = pad;
  fixed_right = λ w places d. pad w (fixed_point places d);
}

fractions-WritesOneLine : WritesOneLine fractions
fractions-WritesOneLine = record {
  fixed-Single = fixed_point-Single;
  right-Single = pad-Single;
  fixed_right-Single =
      λ w places d. pad-Single w (fixed_point places d) (fixed_point-Single places d);
}

to_string-lines_example :
    (prices : List ℕ) × (text : String) × (to_string fractions a_book ≡ some (text, a_book))
    × (lines text ≡ shown_book fractions a_book bid_rows ask_rows prices)
    × Descending prices
    × ((p : ℕ) → has p prices ≡ (has p (keys bid_rows) || has p (keys ask_rows)))
to_string-lines_example =
    to_string-lines fractions fractions-WritesOneLine a_book bid_rows ask_rows (3 ∷ [])
      a_book-IsBook (Single-test "AAPL" refl)

a_line : table_line fractions (some 1500, 12345, none) ≡ "     1.500 |     123.45 |          0"
unfolding table_line
a_line = refl

-- The resting bid of the book, in its color.
an_order_text :
    Text.to_string fractions (new_order_of "AAPL" 14 7 7000 9900 true limit)
    ≡ "\u{1b}[92mBid, Limit: AAPL, 7.000 @ $99.00 [id: 14]\u{1b}[0m"
unfolding Text.to_string new_order_of
an_order_text = refl
