-- ===== src/Tests.antt =====
-- One book, in its memory: the asks 10 and 5 at price 100, the bid 7 at price 99, one free slot.
mod Matching
mod Parts
mod Calls
mod Driver
mod Workloads
mod Programs
mod Lookups
mod Stale
mod Ledger
mod Texts
use cpp_trading_exchange.Base.{
  ℕ, zero, suc, ◌+◌, ◌<◌, ◌≡◌, refl, subst, inl, map, ◌||◌, Bool, true, false, none, some, List, [],
  ◌∷◌, ◌++◌, arith, length, get_elem?, has,
}
use Prim.Native.Nat.{min}
use mathlib.Core.List.{reverse}
use cpp_trading_exchange.Base.Cmd.{◌>>=◌, Returns}
use cpp_trading_exchange.Queue.{Node, null_node, IntrusiveQueue, append, remove, pop}
use cpp_trading_exchange.Queue.Seg.{IsQueue}
use cpp_trading_exchange.Queue.Append.{Appended, append_lem}
use cpp_trading_exchange.Queue.Remove.{Removed, remove_lem, Popped, pop_lem}
use cpp_trading_exchange.Pool.{Element, object_at, mem_pool, allocate, deallocate}
use cpp_trading_exchange.Pool.FreeList.{IsPool, range}
use cpp_trading_exchange.Pool.Build.{mem_pool_lem}
use cpp_trading_exchange.Pool.Laws.{Allocated, allocate_lem, Deallocated, deallocate_lem}
use cpp_trading_exchange.Order.{Order, limit, market, decrease_size}
use cpp_trading_exchange.Order.Fields.{decrease_size_lem}
use cpp_trading_exchange.Order.Memory.{
  Memory, order_overlay, order_memory, get_node, zeroed_order, view,
}
use cpp_trading_exchange.Order.Access.{Frame}
use cpp_trading_exchange.Book.{
  OrderBook, beyond_bid, beyond_ask, match_at_level, match_bid_order, match_ask_order, append_at,
}
use cpp_trading_exchange.Book.Rows.{Resting, match_row, release}
use cpp_trading_exchange.Book.Level.{IsLevel}
use cpp_trading_exchange.Book.LevelRound.{LevelMatched}
use cpp_trading_exchange.Book.LevelMatch.{match_at_level_lem}
use cpp_trading_exchange.Book.Sweep.{Row, sweep, all_slots, depth, reachable}
use cpp_trading_exchange.Book.Outcome.{match_bid_order-fill, match_ask_order-fill}
use cpp_trading_exchange.Book.Invariant.{HoldsSide}
use cpp_trading_exchange.Book.Match.{IsBook, match_bid_order_lem, match_ask_order_lem}
use cpp_trading_exchange.Book.Located.{rest_row}
use cpp_trading_exchange.Book.Rest.{append_at_lem}
use cpp_trading_exchange.Book.{add_order, new_order_of, order_book, uint32}
use cpp_trading_exchange.Book.Add.{
  crossed, Entered, bids_left, asks_left, add_order_lem, add_order-full,
}
use cpp_trading_exchange.Book.RoundTrip.{add-cancel}
use cpp_trading_exchange.Book.Initial.{order_book_lem}
use cpp_trading_exchange.Book.{cancel_order}
use cpp_trading_exchange.Book.Split.{level_row}
use cpp_trading_exchange.Book.Uncrossed.{Uncrossed, Reachable-Uncrossed}
use cpp_trading_exchange.Book.Reach.{IsWell, Reachable, Reachable-IsWell, steps, starts, adds}
use cpp_trading_exchange.Order.Memory.{write_object}
use cpp_trading_exchange.Order.Access.{load_order, store_order, new_order}
use cpp_trading_exchange.Book.Levels.{begin, find, put, touch}
use cpp_trading_exchange.Book.{match_loop}
use cpp_trading_exchange.Book.Cancel.{IsBookOf, cancel_order_lem}
use cpp_trading_exchange.Book.Depth.{total_size, mid_price_200, book_numbers}
use cpp_trading_exchange.Book.Side.{keys}
use cpp_trading_exchange.Book.Table.{line, Descending}
use cpp_trading_exchange.Book.DepthSum.{total_size_lem}
use cpp_trading_exchange.Book.Rows.{volume}
use cpp_trading_exchange.Base.{ltb, ◌-◌, ◌%◌, ◌≤◌}
use Prim.Native.Nat.{max}
use cpp_trading_exchange.SeparatePool
use cpp_trading_exchange.SeparatePool.{MemPoolSeparateFreeStructure}
use cpp_trading_exchange.SeparatePool.Laws.{
  IsSeparatePool, Served, serve_lem, Returned, give_back_lem,
}
use cpp_trading_exchange.Simulation.{Draws, round_on_book}
use cpp_trading_exchange.Book.Alive.{AtLevel}
use cpp_trading_exchange.Simulation.Tracking.{tracked_after, round-tracked}
use cpp_trading_exchange.Simulation.Dangling.{round-dangling}
use cpp_trading_exchange.RandomOrder.{fresh_generator, pos, negsuc, generate_random_price}
use cpp_trading_exchange.RandomOrder.Bounds.{generate_random_price_lem}

abbrev pub an_order : ℕ → ℕ → ℕ → Bool → Node → Order
an_order order_id size price is_buy_side list_node = record {
  order_id = order_id;
  client_id = 100;
  symbol = "AAPL";
  size = size;
  price = price;
  is_buy_side = is_buy_side;
  order_type = limit;
  list_node = list_node;
}

abbrev pub shown : ℕ → ℕ → ℕ → Bool → Order
shown order_id size price is_buy_side =
    an_order order_id size price is_buy_side (record { next = none; prev = none })

abbrev pub in_use : Order → Element Order
in_use o = record { is_free_or_in_use = false; object = o }

abbrev pub four_slots : Memory
four_slots = record {
  store =
      in_use (an_order 11 10 100 false (record { next = some 1; prev = none }))
      ∷ in_use (an_order 12 5 100 false (record { next = none; prev = some 0 }))
      ∷ in_use (an_order 13 7 99 true (record { next = none; prev = none }))
      ∷ record { is_free_or_in_use = true; object = record zeroed_order { order_id = 4 } }
      ∷ [];
  next_free_index = 3;
}

abbrev pub two_asks : IntrusiveQueue
two_asks = record { head = some 0; tail = some 1; size = 2 }

abbrev one_bid : IntrusiveQueue
one_bid = record { head = some 2; tail = some 2; size = 1 }

abbrev pub ask_orders : List Resting
ask_orders = (0, shown 11 10 100 false) ∷ (1, shown 12 5 100 false) ∷ []

abbrev pub ask_rows : List Row
ask_rows = (100, ask_orders) ∷ []

abbrev pub bid_rows : List Row
bid_rows = (99, (2, shown 13 7 99 true) ∷ []) ∷ []

abbrev pub a_book : OrderBook
a_book = record {
  symbol = "AAPL";
  order_pool = four_slots;
  bid_levels = (99, one_bid) ∷ [];
  ask_levels = (100, two_asks) ∷ [];
}

four_slots-flags :
    (i : ℕ) (e : Element Order)
    → get_elem? four_slots.store i ≡ some e
    → e.is_free_or_in_use ≡ has i (3 ∷ [])
four_slots-flags zero e g = ground arith
four_slots-flags (suc zero) e g = ground arith
four_slots-flags (suc (suc zero)) e g = ground arith
four_slots-flags (suc (suc (suc zero))) e g = ground arith
four_slots-flags (suc (suc (suc (suc i)))) e g = cc

pub four_slots-IsPool : IsPool order_overlay four_slots (3 ∷ [])
four_slots-IsPool = record {
  chain = (refl, tt);
  next_first = refl;
  distinct = (refl, tt);
  flags = four_slots-flags;
}

pub two_asks-IsQueue : IsQueue (get_node four_slots) two_asks (0 ∷ 1 ∷ [])
unfolding get_node object_at
two_asks-IsQueue = record {
  chain = (refl, (refl, tt));
  distinct = (refl, (refl, tt));
  head_first = refl;
  tail_last = refl;
  counted = refl;
  fits = omega arith;
}

pub two_asks-IsLevel : IsLevel four_slots two_asks ask_orders
unfolding view object_at
two_asks-IsLevel = record { queue = two_asks-IsQueue; live = (refl, (refl, tt)) }

one_bid-IsLevel : IsLevel four_slots one_bid ((2, shown 13 7 99 true) ∷ [])
unfolding view get_node object_at
one_bid-IsLevel = record {
  queue = record {
    chain = (refl, tt);
    distinct = (refl, tt);
    head_first = refl;
    tail_last = refl;
    counted = refl;
    fits = omega arith;
  };
  live = (refl, tt);
}

ask_rows-HoldsSide : HoldsSide four_slots false a_book.ask_levels ask_rows
ask_rows-HoldsSide = record {
  side = (refl, two_asks-IsLevel, tt);
  placed = (omega arith, (refl, refl, omega arith, (refl, refl, omega arith, tt)), tt);
  sorted = (tt, tt);
}

bid_rows-HoldsSide : HoldsSide four_slots true a_book.bid_levels bid_rows
bid_rows-HoldsSide = record {
  side = (refl, one_bid-IsLevel, tt);
  placed = (omega arith, (refl, refl, omega arith, tt), tt);
  sorted = (tt, tt);
}

pub a_book-IsBook : IsBook a_book bid_rows ask_rows (3 ∷ [])
unfolding all_slots
a_book-IsBook = record {
  pool = four_slots-IsPool;
  bid_side = bid_rows-HoldsSide;
  ask_side = ask_rows-HoldsSide;
  room = omega arith;
}
