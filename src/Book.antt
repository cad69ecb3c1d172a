-- ===== src/Book.antt =====
-- project/order_book.hpp and project/order_book.cpp. The matching functions work on the pool of
-- orders and on the levels of one side; a run that is `none` is undefined behaviour or has no fuel
-- left. Log lines are left out.
pub mod Levels
pub mod Rows
pub mod Level
pub mod LevelMatch
pub mod LevelRound
pub mod Sweep
pub mod Priority
pub mod Side
pub mod SideMatch
pub mod Backwards
pub mod Sorted
pub mod Invariant
pub mod Match
pub mod Limits
pub mod Best
pub mod Outcome
pub mod Depth
pub mod DepthSum
pub mod Initial
pub mod Located
pub mod Rest
pub mod RestRow
pub mod Pending
pub mod Settle
pub mod Add
pub mod Filled
pub mod Split
pub mod Strike
pub mod Cancel
pub mod Reach
pub mod Crossing
pub mod Uncrossed
pub mod RoundTrip
pub mod Recovery
pub mod Alive
pub mod Resting
pub mod Ledger
pub mod Table
pub mod Text
pub mod Shown
pub mod Lines
pub mod Stale
pub mod Tests
use cpp_trading_exchange.Base.{
  ℕ, zero, suc, ◌+◌, ◌%◌, ◌-◌, ◌^◌, Bool, true, false, ◌&&◌, not, Option, none, some, List, [], ltb,
  ◌==◌, if◌then◌else◌, length,
}
use cpp_trading_exchange.Base.Cmd.{Cmd, pure, fault, deref, ◌>>=◌, ◌>>◌}
use cpp_trading_exchange.Queue.{IntrusiveQueue, null_node, empty_queue, peek, empty, remove, append}
use cpp_trading_exchange.Pool.{mem_pool}
use cpp_trading_exchange.Order.{Order, OrderType, limit, market, decrease_size}
use cpp_trading_exchange.Order.Memory.{Memory, order_memory, order_overlay}
use cpp_trading_exchange.Order.Access.{load_order, store_order, new_order, delete_order}
use Prim.Native.String.{String}
use Levels.{begin, rbegin, find, erase, put, touch}

abbrev pub PriceLevel : Type 0
PriceLevel = IntrusiveQueue

abbrev pub PriceLevels : Type 0
PriceLevels = List (ℕ × PriceLevel)

pub record OrderBook : Type 0 where
  pub symbol : String
  pub order_pool : Memory
  pub bid_levels : PriceLevels
  pub ask_levels : PriceLevels

-- `uint32_t`
abbrev pub uint32 : ℕ
uint32 = 2 ^ 32

-- The constructor; `none` where the pool's assertion fails.
unfoldable pub order_book : String → ℕ → Option OrderBook
order_book symbol pool_size = elim (mem_pool order_overlay pool_size) [
  | none ↦ none
  | some pool ↦
      some (record { symbol = symbol; order_pool = pool; bid_levels = []; ask_levels = [] })
]

-- `if (order->size == 0)` in `matchAtLevel`: an order that is used up leaves the level and the pool.
unfoldable pub close_order : ℕ → PriceLevel → Cmd Memory PriceLevel
close_order item level = do level' ← remove order_memory item level; delete_order item; pure level'

unfoldable pub match_at_level_loop : ℕ → ℕ → PriceLevel → ℕ → Cmd Memory (PriceLevel × ℕ)
unfolding close_order
match_at_level_loop zero size level total_matched = fault
match_at_level_loop (suc fuel) size level total_matched =
    elim (not (empty level) && ltb total_matched size) [
      | false ↦ pure (level, total_matched)
      | true ↦ do
        item ← deref (peek level)
        order ← load_order item
        let amount_to_match = (size + uint32 - total_matched) % uint32
        let r = decrease_size order amount_to_match
        store_order item r.0
        level' ← if (r.0).size == 0 then close_order item level else pure level
        match_at_level_loop fuel size level' ((total_matched + r.1) % uint32)
    ]

-- Each round takes an order off the level or fills the request, so a round for each order and one more
-- for the last test are enough.
unfoldable pub match_at_level : ℕ → PriceLevel → ℕ → Cmd Memory (PriceLevel × ℕ)
unfolding match_at_level_loop
match_at_level size level total_matched =
    match_at_level_loop (level.size + 1) size level total_matched

abbrev pub is_limit : OrderType → Bool
is_limit limit = true
is_limit market = false

-- The loop of `matchBidOrder` and `matchAskOrder`, which differ in the level that they take next and
-- in the test of a limit price.
unfoldable pub match_loop :
    (PriceLevels → Option (ℕ × PriceLevel))
    → (ℕ → Bool)
    → ℕ
    → ℕ
    → PriceLevels
    → ℕ
    → Cmd Memory (PriceLevels × ℕ)
unfolding match_at_level
match_loop next beyond zero size levels total_matched = fault
match_loop next beyond (suc fuel) size levels total_matched = elim (ltb total_matched size) [
  | false ↦ pure (levels, total_matched)
  | true ↦ elim (next levels) [
    | none ↦ pure (levels, total_matched)
    | some (first, level) ↦ elim (beyond first) [
      | true ↦ pure (levels, total_matched)
      | false ↦ do
        (level', total) ← match_at_level size level total_matched
        elim (empty level') [
          | true ↦ match_loop next beyond fuel size (erase first levels) total
          | false ↦ pure (put first level' levels, total)
        ]
    ]
  ]
]

-- `it->first > price`, for a limit order.
unfoldable pub beyond_bid : OrderType → ℕ → ℕ → Bool
beyond_bid type price first = is_limit type && ltb price first

-- `it->first < price`, for a limit order.
unfoldable pub beyond_ask : OrderType → ℕ → ℕ → Bool
beyond_ask type price first = is_limit type && ltb first price

unfoldable pub match_bid_order : ℕ → ℕ → OrderType → ℕ → Cmd OrderBook ℕ
unfolding match_loop beyond_bid begin
match_bid_order price size type total_matched b =
    elim (match_loop begin (beyond_bid type price) (length b.ask_levels + 1) size b.ask_levels
      total_matched b.order_pool) [
        | none ↦ none
        | some ((levels, total), pool) ↦
            some (total, record b { ask_levels = levels; order_pool = pool })
      ]

unfoldable pub match_ask_order : ℕ → ℕ → OrderType → ℕ → Cmd OrderBook ℕ
unfolding match_loop beyond_ask rbegin
match_ask_order price size type total_matched b =
    elim (match_loop rbegin (beyond_ask type price) (length b.bid_levels + 1) size b.bid_levels
      total_matched b.order_pool) [
        | none ↦ none
        | some ((levels, total), pool) ↦
            some (total, record b { bid_levels = levels; order_pool = pool })
      ]

-- A command on the pool, run in the book.
unfoldable pub in_pool : {A : Type 0} → Cmd Memory A → Cmd OrderBook A
in_pool c b = elim (c b.order_pool) [
  | none ↦ none
  | some (a, pool) ↦ some (a, record b { order_pool = pool })
]

unfoldable pub levels_of : Bool → OrderBook → PriceLevels
levels_of true b = b.bid_levels
levels_of false b = b.ask_levels

unfoldable pub set_levels : Bool → PriceLevels → Cmd OrderBook (Unit {0})
set_levels true levels b = some (tt, record b { bid_levels = levels })
set_levels false levels b = some (tt, record b { ask_levels = levels })

-- `levels[price].append(order)`
unfoldable pub append_at : ℕ → ℕ → PriceLevels → Cmd Memory PriceLevels
append_at price order levels =
    let made = touch price empty_queue levels in
    elim (find price made) [
      | none ↦ fault
      | some level ↦ do level' ← append order_memory order level; pure (put price level' made)
    ]

unfoldable pub rest_order : ℕ → ℕ → Bool → Cmd OrderBook (Unit {0})
unfolding append_at in_pool set_levels levels_of
rest_order price order is_buy_side b =
    (do
      levels ← in_pool (append_at price order (levels_of is_buy_side b))
      set_levels is_buy_side levels)
      b

unfoldable pub new_order_of : String → ℕ → ℕ → ℕ → ℕ → Bool → OrderType → Order
new_order_of symbol order_id client_id size price is_buy_side order_type = record {
  order_id = order_id;
  client_id = client_id;
  symbol = symbol;
  size = size;
  price = price;
  is_buy_side = is_buy_side;
  order_type = order_type;
  list_node = null_node;
}

-- `order->decreaseSize(matched_size)`
unfoldable pub decrease_order : ℕ → ℕ → Cmd OrderBook (Unit {0})
unfolding in_pool
decrease_order order matched_size = do
  o ← in_pool (load_order order)
  in_pool (store_order order (decrease_size o matched_size).0)

-- What `addOrder` does once the order has its place in the pool.
unfoldable pub match_and_rest : ℕ → ℕ → ℕ → Bool → OrderType → Cmd OrderBook (Option ℕ)
unfolding decrease_order match_bid_order match_ask_order rest_order
match_and_rest order size price is_buy_side order_type = do
  matched_size ←
      if is_buy_side
      then match_bid_order price size order_type 0
      else match_ask_order price size order_type 0
  decrease_order order matched_size
  if ltb matched_size size then rest_order price order is_buy_side else pure tt
  pure (some order)

unfoldable pub add_order : ℕ → ℕ → ℕ → ℕ → Bool → OrderType → Cmd OrderBook (Option ℕ)
unfolding in_pool match_and_rest new_order_of
add_order order_id client_id size price is_buy_side order_type b =
    (do
      order ←
          in_pool
            (new_order (new_order_of b.symbol order_id client_id size price is_buy_side order_type))
      elim order [ none ↦ pure none | some p ↦ match_and_rest p size price is_buy_side order_type ])
      b

-- The level of a cancelled order: the order leaves it, and an empty level leaves the map.
unfoldable pub remove_at : ℕ → ℕ → PriceLevels → Cmd Memory PriceLevels
remove_at price order levels = elim (find price levels) [
  | none ↦ pure levels
  | some level ↦ do
    level' ← remove order_memory order level
    pure (if empty level' then erase price levels else put price level' levels)
]

unfoldable pub cancel_order : Option ℕ → Cmd OrderBook (Unit {0})
unfolding in_pool remove_at set_levels levels_of
cancel_order none b = some (tt, b)
cancel_order (some p) b =
    (do
      o ← in_pool (load_order p)
      levels ← in_pool (remove_at o.price p (levels_of o.is_buy_side b))
      set_levels o.is_buy_side levels
      in_pool (delete_order p))
      b
