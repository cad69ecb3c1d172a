-- ===== src/Tests/Calls.antt =====
-- The theorems on the calls of a book.
use cpp_trading_exchange.Base.{
  ℕ, zero, suc, ◌<◌, ◌≡◌, refl, true, false, none, some, List, [], ◌∷◌, ◌++◌, arith, get_elem?, has,
}
use Prim.Native.Nat.{min}
use cpp_trading_exchange.Base.Cmd.{◌>>=◌, ◌>>◌, Returns}
use cpp_trading_exchange.Queue.{append}
use cpp_trading_exchange.Pool.{Element, object_at, mem_pool, allocate}
use cpp_trading_exchange.Pool.FreeList.{range}
use cpp_trading_exchange.Order.{Order, limit, decrease_size}
use cpp_trading_exchange.Order.Memory.{Memory, get_node, zeroed_order}
use cpp_trading_exchange.Book.{OrderBook, beyond_bid, match_bid_order, append_at}
use cpp_trading_exchange.Book.Rows.{match_row, release}
use cpp_trading_exchange.Book.Sweep.{Row, depth, sweep, all_slots}
use cpp_trading_exchange.Book.Match.{IsBook}
use cpp_trading_exchange.Book.{add_order, new_order_of, order_book, uint32}
use cpp_trading_exchange.Book.Add.{
  crossed, Entered, bids_left, asks_left, add_order_lem, add_order-full,
}
use cpp_trading_exchange.Book.RoundTrip.{add-cancel}
use cpp_trading_exchange.Book.Recovery.{cancel-add}
use cpp_trading_exchange.Book.Initial.{order_book_lem}
use cpp_trading_exchange.Book.{cancel_order}
use cpp_trading_exchange.Book.Split.{level_row}
use cpp_trading_exchange.Book.Uncrossed.{Uncrossed, Reachable-Uncrossed}
use cpp_trading_exchange.Book.Reach.{
  Rests, rests, IsWell, Reachable, Reachable-IsWell, steps, starts, adds,
}
use cpp_trading_exchange.Order.Memory.{write_object}
use cpp_trading_exchange.Order.Access.{load_order, store_order, new_order}
use cpp_trading_exchange.Book.Levels.{begin, find, put, touch}
use cpp_trading_exchange.Book.{match_loop}
use cpp_trading_exchange.Book.Cancel.{IsBookOf, cancel_order_lem}
use cpp_trading_exchange.Book.Depth.{total_size}
use cpp_trading_exchange.Book.Filled.{offered, side_of, add_order-fill}
use cpp_trading_exchange.Book.DepthSum.{total_size_lem}
use cpp_trading_exchange.Book.Rows.{volume}
use cpp_trading_exchange.Base.{ltb, ◌+◌, ◌-◌, ◌%◌}
use cpp_trading_exchange.Tests.{
  shown, in_use, four_slots, two_asks, ask_orders, ask_rows, bid_rows, a_book, two_asks-IsLevel,
  a_book-IsBook,
}

-- A bid for 20 takes both asks, and 5 of it rest.
add_order_example :
    let r = crossed true limit 100 20 bid_rows ask_rows in
    let o = record (new_order_of "AAPL" 14 7 20 100 true limit) { size = 20 - r.total } in
    Returns
      (λ p b'.
        (p ≡ some 3)
        × Entered
            (ltb r.total 20)
            true
            3
            o
            b'
            (bids_left true r bid_rows)
            (asks_left true r ask_rows)
            (release r.closed [])
        × (b'.symbol ≡ "AAPL"))
      (add_order 14 7 20 100 true limit a_book)
add_order_example =
    add_order_lem 14 7 20 100 true limit a_book bid_rows ask_rows 3 [] (omega arith) a_book-IsBook

add_order-fill_example :
    Returns
      (λ p b'.
        (p ≡ some 3)
        × (bids' : List Row) × (asks' : List Row) × (closed : List ℕ) × IsBook b' bids' asks'
            (release closed [])
        × (depth (side_of false bids' asks') + min 20 (offered true limit 100 bid_rows ask_rows)
            ≡ depth (side_of false bid_rows ask_rows))
        × (depth (side_of true bids' asks') + min 20 (offered true limit 100 bid_rows ask_rows)
            ≡ depth (side_of true bid_rows ask_rows) + 20)
        × (has 3 (all_slots (side_of true bids' asks'))
            ≡ ltb (min 20 (offered true limit 100 bid_rows ask_rows)) 20))
      (add_order 14 7 20 100 true limit a_book)
add_order-fill_example =
    add_order-fill 14 7 20 100 true limit a_book bid_rows ask_rows 3 [] (omega arith) a_book-IsBook

some_left : (crossed true limit 100 20 bid_rows ask_rows).total < 20
unfolding sweep match_row beyond_bid
some_left = omega arith

add-cancel_example :
    let r = crossed true limit 100 20 bid_rows ask_rows in
    Returns
      (λ _ b'.
        IsBook b' (bids_left true r bid_rows) (asks_left true r ask_rows) (3 ∷ release r.closed [])
        × (b'.symbol ≡ "AAPL"))
      ((add_order 14 7 20 100 true limit >>= cancel_order) a_book)
add-cancel_example =
    add-cancel 14 7 20 100 true limit a_book bid_rows ask_rows 3 [] (omega arith) a_book-IsBook
      some_left

-- One slot, in use.
abbrev one_slot : Memory
one_slot = record { store = in_use (shown 11 10 100 false) ∷ []; next_free_index = 1 }

abbrev a_full_book : OrderBook
a_full_book = record { symbol = "AAPL"; order_pool = one_slot; bid_levels = []; ask_levels = [] }

one_slot-flags :
    (i : ℕ) (e : Element Order)
    → get_elem? one_slot.store i ≡ some e
    → e.is_free_or_in_use ≡ has i []
one_slot-flags zero e g = ground arith
one_slot-flags (suc i) e g = cc

a_full_book-IsBook : IsBook a_full_book [] [] []
unfolding all_slots
a_full_book-IsBook = record {
  pool = record { chain = tt; next_first = refl; distinct = tt; flags = one_slot-flags };
  bid_side = record { side = tt; placed = tt; sorted = tt };
  ask_side = record { side = tt; placed = tt; sorted = tt };
  room = omega arith;
}

add_order-full_example : add_order 14 7 20 100 true limit a_full_book ≡ (some (none, a_full_book))
add_order-full_example = add_order-full 14 7 20 100 true limit a_full_book [] [] a_full_book-IsBook

order_book_example :
    (b : OrderBook) × (order_book "AAPL" 1024 ≡ some b)
    × IsBook b [] [] (range 0 1024)
    × (b.symbol ≡ "AAPL")
order_book_example = order_book_lem "AAPL" 1024 (omega arith) (omega arith)

total_size_example : total_size two_asks four_slots ≡ some (volume ask_orders % uint32, four_slots)
total_size_example = total_size_lem four_slots two_asks ask_orders two_asks-IsLevel (omega arith)

-- The first of the two asks is cancelled.
cancel_order_example :
    Returns
      (λ _ b'.
        IsBookOf false b'
          (level_row 100 ((1, shown 12 5 100 false) ∷ []) ++ [])
          bid_rows
          (0 ∷ 3 ∷ [])
        × (b'.symbol ≡ "AAPL"))
      (cancel_order (some 0) a_book)
cancel_order_example =
    cancel_order_lem false a_book bid_rows (3 ∷ []) 100 0 (shown 11 10 100 false) [] []
      ((1, shown 12 5 100 false) ∷ []) [] a_book-IsBook

the_bid-Rests : Rests a_book 2
the_bid-Rests = rests true ask_rows (3 ∷ []) 99 (shown 13 7 99 true) [] [] [] [] a_book-IsBook

-- The bid makes place for a new one.
cancel-add_example :
    Returns
      (λ p b'. (p ≡ some 2) × IsWell b')
      ((cancel_order (some 2) >> add_order 14 7 20 100 true limit) a_book)
cancel-add_example = cancel-add 14 7 20 100 true limit (omega arith) a_book 2 the_bid-Rests

-- A book with a pool of two, and the same book after a bid.
abbrev pub new_book : OrderBook
new_book = record {
  symbol = "AAPL";
  order_pool = record {
    store =
        record { is_free_or_in_use = true; object = record zeroed_order { order_id = 1 } }
        ∷ record { is_free_or_in_use = true; object = record zeroed_order { order_id = 2 } }
        ∷ [];
    next_free_index = 0;
  };
  bid_levels = [];
  ask_levels = [];
}

abbrev pub new_book_bid : OrderBook
new_book_bid = record {
  symbol = "AAPL";
  order_pool = record {
    store =
        in_use (shown 1 20 100 true)
        ∷ record { is_free_or_in_use = true; object = record zeroed_order { order_id = 2 } }
        ∷ [];
    next_free_index = 1;
  };
  bid_levels = (100, record { head = some 0; tail = some 0; size = 1 }) ∷ [];
  ask_levels = [];
}

pub new_book-order_book : order_book "AAPL" 2 ≡ some new_book
unfolding order_book mem_pool
new_book-order_book = refl

pub new_book-add_order : add_order 1 100 20 100 true limit new_book ≡ some (some 0, new_book_bid)
unfolding add_order allocate object_at get_node write_object load_order store_order new_order
    decrease_size match_bid_order begin find put touch append match_loop append_at
new_book-add_order = refl

new_book_bid-Reachable : Reachable "AAPL" 2 new_book_bid
new_book_bid-Reachable =
    steps (starts new_book-order_book)
      (adds 1 100 20 100 true limit (some 0) (omega arith) new_book-add_order)

Reachable-IsWell_example : IsWell new_book_bid
Reachable-IsWell_example =
    Reachable-IsWell "AAPL" 2 new_book_bid (omega arith) (omega arith) new_book_bid-Reachable

Reachable-Uncrossed_example : Uncrossed new_book_bid
Reachable-Uncrossed_example =
    Reachable-Uncrossed "AAPL" 2 new_book_bid (omega arith) (omega arith) new_book_bid-Reachable
