-- ===== src/Order/Fields.antt =====
-- What `decrease_size` does on both branches.
use cpp_trading_exchange.Base.{ℕ, ◌+◌, ◌≡◌, arith}
use cpp_trading_exchange.Order.{Order, decrease_size}
use Prim.Native.Nat.{min}

-- `decreaseSize` takes off as much of the amount as the order has, never more, and changes no other
-- field: what it takes and what stays add up to the size before, and the order is used up just when
-- the amount reaches its size.
pub decrease_size_lem :
    (o : Order) (amount : ℕ)
    → let r = decrease_size o amount in
      (r.1 ≡ min amount o.size) × (r.0.size + r.1 ≡ o.size) × (r.0 ≡ record o { size = r.0.size })
unfolding decrease_size
decrease_size_lem o amount = ground arith
