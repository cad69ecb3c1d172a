-- ===== src/Book/RoundTrip.antt =====
-- `addOrder` and `cancelOrder` of project/order_book.cpp, one after the other.
use cpp_trading_exchange.Base.{
  ℕ, ◌-◌, ◌<◌, ◌≡◌, ◌∙◌, ap, refl, inl, inr, Bool, Bool-cases, true, false, some, List, [], ◌∷◌,
  ◌++◌, arith, ltb, ◌==◌, subst,
}
use mathlib.Core.List.{append-nil, reverse}
use cpp_trading_exchange.Base.Cmd.{◌>>=◌, Returns, Returns-bind, Returns-mono}
use cpp_trading_exchange.Order.{Order, OrderType}
use cpp_trading_exchange.Book.{OrderBook, uint32, new_order_of, add_order, cancel_order}
use cpp_trading_exchange.Book.Rows.{Resting, release}
use cpp_trading_exchange.Book.Sweep.{Row, Swept}
use cpp_trading_exchange.Book.Sorted.{AllPlaced}
use cpp_trading_exchange.Book.Match.{IsBook}
use cpp_trading_exchange.Book.Located.{rest_row}
use cpp_trading_exchange.Book.Split.{level_row}
use cpp_trading_exchange.Book.Add.{crossed, bids_left, asks_left, Entered, add_order_lem}
use cpp_trading_exchange.Book.Cancel.{IsBookOf, cancel_order_lem}

-- Where an order came to rest, and what is there without it.
record Split (k : ℕ) (e : Resting) (rs : List Row) : Type 0 where
  below : List Row
  orders : List Resting
  above : List Row
  rested : rest_row k e rs ≡ below ++ (k, orders ++ e ∷ []) ∷ above
  without : below ++ (level_row k orders ++ above) ≡ rs

split : (s : Bool) (k : ℕ) (e : Resting) (rs : List Row) → AllPlaced s rs → Split k e rs
unfolding rest_row
split s k e [] p = record { below = []; orders = []; above = []; rested = refl; without = refl }
split s k e ((j, []) ∷ rs) p = absurd (omega (arith, p.0))
split s k e ((j, x ∷ xs) ∷ rs) p = elim (Bool-cases (ltb k j)) [
  | inl before ↦ record {
    below = [];
    orders = [];
    above = (j, x ∷ xs) ∷ rs;
    rested = rw before;
    without = refl;
  }
  | inr after ↦ elim (Bool-cases (j == k)) [
    | inl hit ↦ record {
      below = [];
      orders = x ∷ xs;
      above = rs;
      rested = rw (after, hit) (ap (λ z. (z, (x ∷ xs) ++ e ∷ []) ∷ rs) (ground arith));
      without = ap (λ z. (z, x ∷ xs) ∷ rs) (ground arith);
    }
    | inr miss ↦
        let rest = split s k e rs p.2 in
        record {
          below = (j, x ∷ xs) ∷ rest.below;
          orders = rest.orders;
          above = rest.above;
          rested = rw (after, miss) (ap (◌∷◌ (j, x ∷ xs)) rest.rested);
          without = ap (◌∷◌ (j, x ∷ xs)) rest.without;
        }
  ]
]

-- What cancelling does to the order that has just come to rest.
cancel_rested :
    (s : Bool) (b : OrderBook) (rows others : List Row) (free : List ℕ) (k i : ℕ) (o : Order)
    → AllPlaced s rows
    → IsBookOf s b (rest_row k (i, o) rows) others free
    → Returns
        (λ _ b'. IsBookOf s b' rows others (i ∷ free) × (b'.symbol ≡ b.symbol))
        (cancel_order (some i) b)
cancel_rested s b rows others free k i o placed is =
    let at = split s k (i, o) rows placed in
    Returns-mono
      (cancel_order_lem s b others free k i o at.below at.orders [] at.above
        (subst (λ rs. IsBookOf s b rs others free) at.rested is))
      λ _ b' (book, same). (
        subst (λ rs. IsBookOf s b' rs others (i ∷ free))
            (ap (λ xs. at.below ++ (level_row k xs ++ at.above)) (append-nil at.orders)
              ∙ at.without)
            book,
        same,
      )

-- An order of a size below 2^32 that a well-formed book with a free slot does not fill, added and at
-- once cancelled by the pointer that `addOrder` returned: neither call faults, and what is left is the
-- book that the match alone leaves. The order's own side is as it was, and its slot is the next to be
-- used, before those of the orders that it used up.
pub add-cancel :
    (order_id client_id size price : ℕ) (s : Bool) (type : OrderType) (b : OrderBook)
    (bids asks : List Row) (i : ℕ) (free : List ℕ)
    → size < uint32
    → IsBook b bids asks (i ∷ free)
    → (crossed s type price size bids asks).total < size
    → let r = crossed s type price size bids asks in
      Returns
        (λ _ b'.
          IsBook b' (bids_left s r bids) (asks_left s r asks) (i ∷ release r.closed free)
          × (b'.symbol ≡ b.symbol))
        ((add_order order_id client_id size price s type >>= cancel_order) b)
unfolding new_order_of
add-cancel order_id client_id size price s type b bids asks i free small is left =
    let r = crossed s type price size bids asks in
    let o = record (new_order_of b.symbol order_id client_id size price s type) {
      size = size - r.total;
    } in
    let some_left : ltb r.total size ≡ true = ground arith in
    Returns-bind (add_order_lem order_id client_id size price s type b bids asks i free small is)
      λ p b1 (ep, entered, same). rw ep (
        Returns-mono
          (of_side b1 r o (release r.closed free) s is (
            subst
              (λ l.
                Entered l s i o b1 (bids_left s r bids) (asks_left s r asks)
                  (release r.closed free))
              some_left entered))
          λ _ b2 (book, same2). (book, same2 ∙ same))
  where
    of_side :
        (b1 : OrderBook) (r : Swept) (o : Order) (free1 : List ℕ) (s : Bool)
        → IsBook b bids asks (i ∷ free)
        → Entered true s i o b1 (bids_left s r bids) (asks_left s r asks) free1
        → Returns
            (λ _ b'.
              IsBook b' (bids_left s r bids) (asks_left s r asks) (i ∷ free1)
              × (b'.symbol ≡ b1.symbol))
            (cancel_order (some i) b1)
    of_side b1 r o free1 true was book =
        cancel_rested true b1 bids r.rows free1 o.price i o was.bid_side.placed book
    of_side b1 r o free1 false was book =
        cancel_rested false b1 asks (reverse r.rows) free1 o.price i o was.ask_side.placed book
