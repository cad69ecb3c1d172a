-- ===== src/RandomOrder.antt =====
-- project/random_order_generator.hpp: what the generator makes of the draws of its random devices,
-- which are arguments. Its static variables are its state.
pub mod Bounds
use cpp_trading_exchange.Base.{
  ℕ, ◌+◌, ◌-◌, ◌*◌, ◌/◌, ◌%◌, ◌^◌, Bool, true, false, ltb, leb, if◌then◌else◌,
}

pub record Generator : Type 0 where
  pub current_id : ℕ
  pub last_price : ℕ

abbrev pub fresh_generator : Generator
fresh_generator = record { current_id = 1; last_price = 15000 }

-- A signed offset, `negsuc n` for `- (n + 1)`.
pub data ℤ : Type 0 where
  pos : ℕ → ℤ
  negsuc : ℕ → ℤ

abbrev uint64 : ℕ
uint64 = 2 ^ 64

-- The draw from all of `uint64_t`.
abbrev pub generate_uuid_v4_as_uint64 : ℕ → ℕ
generate_uuid_v4_as_uint64 dis = dis

unfoldable pub get_next_order_id : Generator → ℕ × Generator
get_next_order_id g = (g.current_id, record g { current_id = (g.current_id + 1) % uint64 })

unfoldable pub generate_random_size : Bool → ℕ → ℕ → ℕ
generate_random_size fractional_dis frac_val_dis dis =
    if fractional_dis then frac_val_dis * 250 % 2 ^ 32 else dis * 1000 % 2 ^ 32

-- The nearby price: `last_price` moved by the offset, or the minimum where that would not be positive.
unfoldable pub cluster_price : ℤ → ℕ → ℕ
cluster_price (pos n) last_price = (last_price + n) % uint64
cluster_price (negsuc n) last_price =
    if leb last_price (n + 1) then 100 else (last_price + uint64 - (n + 1)) % uint64

unfoldable pub round_price : ℕ → ℕ
round_price last_price = (last_price + 50) % uint64 / 100 * 100 % uint64

unfoldable pub generate_random_price : Bool → ℤ → ℕ → Bool → Generator → ℕ × Generator
unfolding cluster_price round_price
generate_random_price cluster_dis offset_dis wide_dis round_dis g =
    let moved = if cluster_dis then cluster_price offset_dis g.last_price else wide_dis in
    let rounded = if round_dis then round_price moved else moved in
    let last_price = if ltb rounded 100 then 100 else rounded in
    (last_price, record g { last_price = last_price })
