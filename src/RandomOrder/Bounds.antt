-- ===== src/RandomOrder/Bounds.antt =====
-- The prices that the generator makes.
use cpp_trading_exchange.Base.{ℕ, ◌+◌, ◌^◌, ◌≤◌, ◌<◌, ◌≡◌, Bool, if◌then◌else◌, arith}
use Prim.Native.Nat.{max}
use cpp_trading_exchange.RandomOrder.{
  Generator, ℤ, pos, negsuc, cluster_price, round_price, generate_random_price,
}

-- Offsets as the distribution draws them, from -300 to 300.
abbrev pub Offset : ℤ → Type 0
Offset (pos n) = n ≤ 300
Offset (negsuc n) = n + 1 ≤ 300

cluster_price_le : (d : ℤ) (p : ℕ) → Offset d → p < 2 ^ 63 → cluster_price d p ≤ p + 300
unfolding cluster_price
cluster_price_le (pos n) p h low = omega (arith, h, low)
cluster_price_le (negsuc n) p h low = ground (arith, h, low)

round_price_le : (p : ℕ) → p < 2 ^ 63 + 1000 → round_price p ≤ p + 50
unfolding round_price
round_price_le p low = omega (arith, low)

-- Whatever the draws, the next price is at least the minimum of 100; it leaves the wide range by a
-- step from the last price and a rounding at most, so no arithmetic on prices wraps around.
pub generate_random_price_lem :
    (cluster : Bool) (offset : ℤ) (wide : ℕ) (round : Bool) (g : Generator)
    → Offset offset
    → wide ≤ 20000
    → g.last_price < 2 ^ 63
    → let r = generate_random_price cluster offset wide round g in
      (100 ≤ r.0)
      × (r.0 ≤ max (g.last_price + 350) 20050)
      × (r.1.last_price ≡ r.0)
      × (r.1.current_id ≡ g.current_id)
unfolding generate_random_price
generate_random_price_lem cluster offset wide round g near wide_low low = ground (
  arith,
  cluster_price_le offset g.last_price near low,
  low,
  wide_low,
  round_price_le (if cluster then cluster_price offset g.last_price else wide),
)
