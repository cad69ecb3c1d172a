-- ===== src/Book/Recovery.antt =====
-- A cancellation in project/order_book.cpp gives a slot of the pool back to the next addition.
use cpp_trading_exchange.Base.{ℕ, ◌<◌, ◌≡◌, Bool, true, false, some, List, ◌∷◌}
use cpp_trading_exchange.Base.Cmd.{◌>>◌, Returns, Returns-bind, Returns-mono}
use cpp_trading_exchange.Order.{OrderType}
use cpp_trading_exchange.Book.{OrderBook, uint32, add_order, cancel_order}
use cpp_trading_exchange.Book.Sweep.{Row}
use cpp_trading_exchange.Book.Add.{add_order_lem}
use cpp_trading_exchange.Book.Cancel.{IsBookOf, cancel_order_lem}
use cpp_trading_exchange.Book.Reach.{Rests, rests, IsWell, Entered-IsWell}

module _ (order_id client_id size price : ℕ) (is_buy_side : Bool) (order_type : OrderType)
    (small : size < uint32) where
  add_to_side :
      (s : Bool) (b : OrderBook) (rows others : List Row) (i : ℕ) (free : List ℕ)
      → IsBookOf s b rows others (i ∷ free)
      → Returns
          (λ p b'. (p ≡ some i) × IsWell b')
          (add_order order_id client_id size price is_buy_side order_type b)
  add_to_side true b rows others i free is =
      Returns-mono
        (add_order_lem order_id client_id size price is_buy_side order_type b rows others i free
          small is)
        λ p b' (e, entered, _). (e, Entered-IsWell _ is_buy_side i _ b' _ _ _ entered)
  add_to_side false b rows others i free is =
      Returns-mono
        (add_order_lem order_id client_id size price is_buy_side order_type b others rows i free
          small is)
        λ p b' (e, entered, _). (e, Entered-IsWell _ is_buy_side i _ b' _ _ _ entered)

  -- In a well-formed book, whether its pool is exhausted or not, the cancellation of an order that rests
  -- and then the addition of any order of a size below 2^32: neither call faults, both end, and the new
  -- order gets the slot of the cancelled one. The book is well formed afterwards.
  pub cancel-add :
      (b : OrderBook) (i : ℕ)
      → Rests b i
      → Returns
          (λ p b'. (p ≡ some i) × IsWell b')
          ((cancel_order (some i) >> add_order order_id client_id size price is_buy_side order_type)
            b)
  cancel-add b i (rests s others free k o below xs ys above is) =
      Returns-bind (cancel_order_lem s b others free k i o below xs ys above is)
        λ _ b1 (book, _). add_to_side s b1 _ others i free book
