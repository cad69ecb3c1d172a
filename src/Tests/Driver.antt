-- ===== src/Tests/Driver.antt =====
-- The theorems on the rounds of the driver, on the book of the parent.
use cpp_trading_exchange.Base.{
  ℕ, ◌≡◌, refl, subst, inl, ◌⊎◌, some, true, false, none, [], ◌∷◌, arith, has,
}
use cpp_trading_exchange.Base.Cmd.{Returns}
use cpp_trading_exchange.Order.{limit}
use cpp_trading_exchange.Book.{beyond_bid}
use cpp_trading_exchange.Book.Rows.{match_row, release}
use cpp_trading_exchange.Book.Sweep.{sweep, all_slots}
use cpp_trading_exchange.Book.{new_order_of}
use cpp_trading_exchange.Book.Add.{crossed, Entered, bids_left, asks_left}
use cpp_trading_exchange.Base.{ltb, ◌-◌}
use cpp_trading_exchange.Simulation.{Draws, Driver, rounds, main, round_on_book}
use cpp_trading_exchange.Simulation.Main.{Finishes, Fails, main_lem}
use cpp_trading_exchange.RandomOrder.{fresh_generator}
use cpp_trading_exchange.Book.{OrderBook, order_book}
use cpp_trading_exchange.Book.Alive.{AtLevel}
use cpp_trading_exchange.Simulation.Tracking.{tracked_after, round-tracked}
use cpp_trading_exchange.Simulation.Dangling.{round-dangling}
use cpp_trading_exchange.RandomOrder.{pos}
use cpp_trading_exchange.Tests.{ask_rows, bid_rows, a_book, a_book-IsBook}

-- A round of the driver that buys 20 at 100.
abbrev a_round : Draws
a_round = record {
  client_id = 7;
  fractional_dis = false;
  frac_val_dis = 1;
  dis = 1;
  cluster_dis = true;
  offset_dis = pos 0;
  wide_dis = 12000;
  round_dis = false;
  side_dis = 0;
  type_dis = 0;
  cancels = false;
  index_to_cancel = λ n. 0;
}

first_ask-closed : has 0 (crossed true limit 100 20 bid_rows ask_rows).closed ≡ true
unfolding sweep match_row beyond_bid
first_ask-closed = refl

-- The driver still has the pointers to the first ask and to the bid.
round-dangling_example : round_on_book a_round 14 20 100 (0 ∷ 2 ∷ []) a_book ≡ none
round-dangling_example =
    round-dangling a_round 14 20 100 (0 ∷ 2 ∷ []) a_book bid_rows ask_rows 3 [] 0 (omega arith)
      a_book-IsBook refl first_ask-closed refl

-- The bid rests, and is not used up.
the_bid-AtLevel :
    (a : ℕ)
    → has a (2 ∷ []) ≡ true
    → AtLevel a bid_rows ask_rows
      × (has a (crossed true limit 100 20 bid_rows ask_rows).closed ≡ false)
unfolding sweep match_row beyond_bid all_slots
the_bid-AtLevel a h =
    let same : 2 ≡ a = ground arith in
    subst
      (λ x.
        AtLevel x bid_rows ask_rows
        × (has x (crossed true limit 100 20 bid_rows ask_rows).closed ≡ false))
      same (inl refl, refl)

round-tracked_example :
    let r = crossed true limit 100 20 bid_rows ask_rows in
    let o = record (new_order_of "AAPL" 14 7 20 100 true limit) { size = 20 - r.total } in
    Returns
      (λ kept b'.
        (kept ≡ tracked_after (ltb r.total 20) 3 (2 ∷ []))
        × Entered
            (ltb r.total 20)
            true
            3
            o
            b'
            (bids_left true r bid_rows)
            (asks_left true r ask_rows)
            (release r.closed []))
      (round_on_book a_round 14 20 100 (2 ∷ []) a_book)
round-tracked_example =
    round-tracked a_round 14 20 100 (2 ∷ []) a_book bid_rows ask_rows 3 [] (omega arith)
      a_book-IsBook refl the_bid-AtLevel

-- Two rounds from the constructor on.
main_example :
    (b : OrderBook) × (order_book "AAPL" 1024 ≡ some b)
    × (let s : Driver = record { book = b; generator = fresh_generator; orders = [] } in
        (main (a_round ∷ a_round ∷ []) ≡ rounds (a_round ∷ a_round ∷ []) s)
        × (Finishes (a_round ∷ a_round ∷ []) s ⊎ Fails (a_round ∷ a_round ∷ []) s))
main_example =
    main_lem (a_round ∷ a_round ∷ [])
      ((λ n more. omega (arith, more)), ((λ n more. omega (arith, more)), tt))
