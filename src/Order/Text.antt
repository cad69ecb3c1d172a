-- ===== src/Order/Text.antt =====
-- Order::toString of project/order.hpp, with the formats of fmt and the doubles that it writes as an
-- argument.
use cpp_trading_exchange.Base.{ℕ, [], ◌∷◌, if◌then◌else◌}
use cpp_trading_exchange.Base.Text.{concat}
use Prim.Native.String.{String}
use cpp_trading_exchange.Order
use cpp_trading_exchange.Order.{Order}

-- The doubles, and how fmt writes.
pub record Format : Type 1 where
  pub Double : Type 0
  -- The double nearest to a number, the sum and the quotient.
  pub to_double : ℕ → Double
  pub plus : Double → Double → Double
  pub over : Double → Double → Double
  -- `{}`, `{:.3f}` for 3, `{:>10}` for 10, `{:>10.2f}` for 10 and 2.
  pub decimal : ℕ → String
  pub fixed : ℕ → Double → String
  pub right : ℕ → String → String
  pub fixed_right : ℕ → ℕ → Double → String

unfoldable pub to_string : Format → Order → String
unfolding Order.to_string
to_string f o =
    let color : String = if o.is_buy_side then "\u{1b}[92m" else "\u{1b}[31m" in
    let reset : String = "\u{1b}[0m" in
    concat (
      color
      ∷ (if o.is_buy_side then "Bid" else "Ask")
      ∷ ", "
      ∷ Order.to_string o.order_type
      ∷ ": "
      ∷ o.symbol
      ∷ ", "
      ∷ f.fixed 3 (f.over (f.to_double o.size) (f.to_double 1000))
      ∷ " @ $"
      ∷ f.fixed 2 (f.over (f.to_double o.price) (f.to_double 100))
      ∷ " [id: "
      ∷ f.decimal o.order_id
      ∷ "]"
      ∷ reset
      ∷ [])
