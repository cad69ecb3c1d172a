-- ===== src/Order.antt =====
-- project/order_type.hpp and project/order.hpp: order types, and an order with the node by which it
-- hangs in the queue of its price level. A pointer to an order is the number of its slot in the
-- pool, `none` for null.
pub mod Memory
pub mod Fields
pub mod Access
pub mod Text
use cpp_trading_exchange.Base.{ℕ, ◌-◌, Bool, leb, if◌then◌else◌}
use cpp_trading_exchange.Queue.{Node}
use Prim.Native.String.{String}

pub data OrderType : Type 0 where
  limit market : OrderType

unfoldable pub to_string : OrderType → String
to_string limit = "Limit"
to_string market = "Market"

pub record Order : Type 0 where
  pub order_id : ℕ
  pub client_id : ℕ
  pub symbol : String
  pub size : ℕ
  pub price : ℕ
  pub is_buy_side : Bool
  pub order_type : OrderType
  pub list_node : Node

-- The order afterwards, and the amount removed.
unfoldable pub decrease_size : Order → ℕ → Order × ℕ
decrease_size o amount =
    if leb o.size amount
    then (record o { size = 0 }, o.size)
    else (record o { size = o.size - amount }, amount)
