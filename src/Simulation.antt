-- ===== src/Simulation.antt =====
-- project/entrypoint.cpp: the driver, which adds random orders and cancels some. The draws of its
-- random devices are arguments. The vector of orders holds pointers, which may dangle: a read through
-- one is undefined, so the run is `none` there.
pub mod Dangling
pub mod Tracking
pub mod Course
pub mod Arrival
pub mod Round
pub mod Main
use cpp_trading_exchange.Base.{
  ℕ, zero, suc, Bool, true, false, ◌&&◌, not, Option, none, some, List, [], ◌∷◌, ◌++◌, ltb, ◌==◌,
  if◌then◌else◌, length, get_elem?,
}
use cpp_trading_exchange.Base.Cmd.{Cmd, pure, fault, ◌>>=◌, ◌>>◌}
use cpp_trading_exchange.Order.{limit, market}
use cpp_trading_exchange.Order.Access.{load_order}
use cpp_trading_exchange.Book.{OrderBook, order_book, in_pool, add_order, cancel_order}
use cpp_trading_exchange.RandomOrder.{
  Generator, fresh_generator, ℤ, generate_uuid_v4_as_uint64, get_next_order_id,
  generate_random_size, generate_random_price,
}

-- The draws of one round.
pub record Draws : Type 0 where
  pub client_id : ℕ
  pub fractional_dis : Bool
  pub frac_val_dis : ℕ
  pub dis : ℕ
  pub cluster_dis : Bool
  pub offset_dis : ℤ
  pub wide_dis : ℕ
  pub round_dis : Bool
  pub side_dis : ℕ
  pub type_dis : ℕ
  -- `cancel_dis(gen) < 0.10`
  pub cancels : Bool
  -- `std::uniform_int_distribution<size_t>(0, n - 1)(gen)`, for the size `n` of the vector.
  pub index_to_cancel : ℕ → ℕ

pub record Driver : Type 0 where
  pub book : OrderBook
  pub generator : Generator
  pub orders : List ℕ

abbrev pub is_empty : List ℕ → Bool
is_empty [] = true
is_empty (x ∷ xs) = false

-- `v.erase(v.begin() + i)`
unfoldable pub erase_at : ℕ → List ℕ → List ℕ
erase_at i [] = []
erase_at zero (x ∷ xs) = xs
erase_at (suc i) (x ∷ xs) = x ∷ erase_at i xs

-- `order->size`
unfoldable pub size_at : ℕ → Cmd OrderBook ℕ
unfolding in_pool
size_at p = do o ← in_pool (load_order p); pure o.size

-- `if (order && order->size > 0) orders.push_back(order);`
unfoldable pub track : Option ℕ → List ℕ → Cmd OrderBook (List ℕ)
unfolding size_at
track none orders = pure orders
track (some p) orders = do size ← size_at p; pure (if ltb 0 size then orders ++ p ∷ [] else orders)

unfoldable pub cancel_at : ℕ → List ℕ → Cmd OrderBook (List ℕ)
unfolding size_at
cancel_at i orders = elim (get_elem? orders i) [
  | none ↦ fault
  | some order_to_cancel ↦ do
    size ← size_at order_to_cancel
    if ltb 0 size then cancel_order (some order_to_cancel) else pure tt
    pure (erase_at i orders)
]

-- `std::remove_if` by `o->size == 0`, and the erasure of what it leaves behind.
unfoldable pub clean_up : List ℕ → Cmd OrderBook (List ℕ)
unfolding size_at
clean_up [] = pure []
clean_up (o ∷ orders) = do
  size ← size_at o
  rest ← clean_up orders
  pure (if size == 0 then rest else o ∷ rest)

-- What a round does once its numbers are drawn.
unfoldable pub round_on_book : Draws → ℕ → ℕ → ℕ → List ℕ → Cmd OrderBook (List ℕ)
unfolding track cancel_at clean_up
round_on_book d order_id size price orders = do
  order ←
      add_order order_id (generate_uuid_v4_as_uint64 d.client_id) size price (d.side_dis == 0)
        (if d.type_dis == 0 then limit else market)
  tracked ← track order orders
  left ← elim (not (is_empty tracked) && d.cancels) [
    | true ↦ cancel_at (d.index_to_cancel (length tracked)) tracked
    | false ↦ pure tracked
  ]
  clean_up left

unfoldable pub round : Draws → Driver → Option Driver
unfolding round_on_book
round d s =
    let (order_id, g) = get_next_order_id s.generator in
    let size = generate_random_size d.fractional_dis d.frac_val_dis d.dis in
    let (price, g') = generate_random_price d.cluster_dis d.offset_dis d.wide_dis d.round_dis g in
    elim (round_on_book d order_id size price s.orders s.book) [
      | none ↦ none
      | some (orders, book) ↦ some (record { book = book; generator = g'; orders = orders })
    ]

-- A round for each of the draws.
unfoldable pub rounds : List Draws → Driver → Option Driver
unfolding round
rounds [] s = some s
rounds (d ∷ ds) s = elim (round d s) [ none ↦ none | some s' ↦ rounds ds s' ]

-- `main`, with the draws of its hundred rounds, up to the print of the book.
unfoldable pub main : List Draws → Option Driver
unfolding rounds
main draws = elim (order_book "AAPL" 1024) [
  | none ↦ none
  | some book ↦ rounds draws (record { book = book; generator = fresh_generator; orders = [] })
]
