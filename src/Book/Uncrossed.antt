-- ===== src/Book/Uncrossed.antt =====
-- The two sides of a reachable book do not cross.
use cpp_trading_exchange.Base.{
  ℕ, ◌<◌, ◌≡◌, ◌∙◌, sym, ap, subst, refl, Bool, true, false, List, [], ◌∷◌, ◌++◌, arith, has,
}
use Prim.Native.String.{String}
use mathlib.Core.List.{reverse}
use cpp_trading_exchange.Queue.{size_t}
use cpp_trading_exchange.Order.{Order, OrderType}
use cpp_trading_exchange.Book.{OrderBook, new_order_of, beyond_bid, beyond_ask}
use cpp_trading_exchange.Book.Rows.{Resting}
use cpp_trading_exchange.Book.Sweep.{Row}
use cpp_trading_exchange.Book.Side.{keys, keys-same}
use cpp_trading_exchange.Book.Match.{IsBook}
use cpp_trading_exchange.Book.Add.{
  crossed, bids_left, asks_left, Entered, add_order_lem, add_order-full,
}
use cpp_trading_exchange.Book.Split.{level_row}
use cpp_trading_exchange.Book.Cancel.{IsBookOf, cancel_order_lem}
use cpp_trading_exchange.Book.Initial.{order_book_lem}
use cpp_trading_exchange.Book.Reach.{
  rests, Step, adds, cancels, Reachable, starts, steps, IsWell, Reachable-IsWell, after,
}
use cpp_trading_exchange.Book.Crossing.{
  Under, sweep-has, has-rest_row, has-keys-reverse, bid_gap, ask_gap,
}

-- Every bid is at a lower price than every ask.
abbrev pub Uncrossed : OrderBook → Type 0
Uncrossed b = Under (keys b.bid_levels) (keys b.ask_levels)

module _ {b : OrderBook} {bids asks : List Row} {free : List ℕ} (is : IsBook b bids asks free) where
  pub of_rows : Under (keys bids) (keys asks) → Uncrossed b
  of_rows u a c h k =
      u a c (sym (ap (has a) (keys-same _ _ _ is.bid_side.side)) ∙ h)
        (sym (ap (has c) (keys-same _ _ _ is.ask_side.side)) ∙ k)

  pub to_rows : Uncrossed b → Under (keys bids) (keys asks)
  to_rows u a c h k =
      u a c (ap (has a) (keys-same _ _ _ is.bid_side.side) ∙ h)
        (ap (has c) (keys-same _ _ _ is.ask_side.side) ∙ k)

matched-Under :
    (s : Bool) (type : OrderType) (price size : ℕ) (bids asks : List Row)
    → Under (keys bids) (keys asks)
    → let r = crossed s type price size bids asks in
      Under (keys (bids_left s r bids)) (keys (asks_left s r asks))
matched-Under true type price size bids asks u a c h k =
    u a c h (sweep-has (beyond_bid type price) size asks 0 c k)
matched-Under false type price size bids asks u a c h k =
    let r = crossed false type price size bids asks in
    let old =
      sweep-has (beyond_ask type price) size (reverse bids) 0 a
        (sym (has-keys-reverse a r.rows) ∙ h) in
    u a c (sym (has-keys-reverse a bids) ∙ old) k

Entered-Under :
    (left s : Bool) (i price size : ℕ) (type : OrderType) (o : Order) (b : OrderBook)
    (bids asks : List Row) (free : List ℕ)
    → let r = crossed s type price size bids asks in
      o.price ≡ price
      → (left ≡ true → r.total < size)
      → Under (keys bids) (keys asks)
      → Entered left s i o b (bids_left s r bids) (asks_left s r asks) free
      → Uncrossed b
Entered-Under false s i price size type o b bids asks free e short u is =
    of_rows is.book (matched-Under s type price size bids asks u)
Entered-Under true true i price size type o b bids asks free e short u is = of_rows is λ a c h k.
    let r = crossed true type price size bids asks in
    let gap = bid_gap type price size asks c (short refl) is.ask_side.sorted k in
    ground (
      arith,
      gap,
      has-rest_row a o.price (i, o) bids,
      e,
      matched-Under true type price size bids asks u a c,
    )
Entered-Under true false i price size type o b bids asks free e short u is = of_rows is λ a c h k.
    let r = crossed false type price size bids asks in
    let gap = ask_gap type price size bids a (short refl) is.bid_side.sorted h in
    ground (
      arith,
      gap,
      has-rest_row c o.price (i, o) asks,
      e,
      matched-Under false type price size bids asks u a c,
    )

has-struck :
    (a k : ℕ) (below : List Row) (ws zs : List Resting) (above : List Row)
    → has a (keys (below ++ (level_row k zs ++ above))) ≡ true
    → has a (keys (below ++ (k, ws) ∷ above)) ≡ true
has-struck a k [] ws [] above h = ground arith
has-struck a k [] ws (z ∷ zs) above h = h
has-struck a k ((j, xs) ∷ below) ws zs above h = ground (arith, has-struck a k below ws zs above)

struck-Uncrossed :
    (s : Bool) (b b' : OrderBook) (k : ℕ) (below : List Row) (ws zs : List Resting)
    (above others : List Row) (free free' : List ℕ)
    → IsBookOf s b (below ++ (k, ws) ∷ above) others free
    → IsBookOf s b' (below ++ (level_row k zs ++ above)) others free'
    → Uncrossed b
    → Uncrossed b'
struck-Uncrossed true b b' k below ws zs above others free free' is is' u =
    of_rows is' λ a c h g. to_rows is u a c (has-struck a k below ws zs above h) g
struck-Uncrossed false b b' k below ws zs above others free free' is is' u =
    of_rows is' λ a c h g. to_rows is u a c h (has-struck c k below ws zs above g)

Step-Uncrossed : (b b' : OrderBook) → Step b b' → IsWell b → Uncrossed b → Uncrossed b'
unfolding new_order_of
Step-Uncrossed b b' (adds order_id client_id size price s type p small run) (bids, asks, [], is) u =
    let full = add_order-full order_id client_id size price s type b bids asks is in
    let same : b ≡ b' = ground arith in subst Uncrossed same u
Step-Uncrossed b b' (adds order_id client_id size price s type p small run)
      (bids, asks, i ∷ free, is) u =
    let law = add_order_lem order_id client_id size price s type b bids asks i free small is in
    Entered-Under _ s i price size type _ b' bids asks _ refl (λ h. ground arith) (to_rows is u)
      (after p b' law run).1
Step-Uncrossed b b' (cancels i (rests s others free k o below xs ys above is) run) well u =
    let law = cancel_order_lem s b others free k i o below xs ys above is in
    struck-Uncrossed s b b' k below (xs ++ (i, o) ∷ ys) (xs ++ ys) above others free (i ∷ free) is
      (after tt b' law run).0 u

-- In every book that calls lead to, from a constructor with a pool of one slot at least, by adding
-- any orders of sizes below 2^32, market orders too, and cancelling orders that rest, every bid is
-- at a lower price than every ask.
pub Reachable-Uncrossed :
    (symbol : String) (n : ℕ) (b : OrderBook)
    → 0 < n
    → n < size_t
    → Reachable symbol n b
    → Uncrossed b
Reachable-Uncrossed symbol n b more fits (starts e) =
    let (b0, run, is, _) = order_book_lem symbol n more fits in
    let same : b0 ≡ b = ground arith in subst Uncrossed same (of_rows is λ a c h k. cc)
Reachable-Uncrossed symbol n b' more fits (steps {b} r s) =
    Step-Uncrossed b b' s (Reachable-IsWell symbol n b more fits r)
      (Reachable-Uncrossed symbol n b more fits r)
