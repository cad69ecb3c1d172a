-- ===== src/Book/Reach.antt =====
-- The books that calls of project/order_book.cpp lead to, from the constructor on.
use cpp_trading_exchange.Base.{
  ℕ, ◌<◌, ◌≡◌, subst, Bool, true, false, Option, some, List, [], ◌∷◌, ◌++◌, arith,
}
use Prim.Native.String.{String}
use cpp_trading_exchange.Base.Cmd.{Returns, returns}
use cpp_trading_exchange.Queue.{size_t}
use cpp_trading_exchange.Pool.FreeList.{range}
use cpp_trading_exchange.Order.{Order, OrderType}
use cpp_trading_exchange.Book.{OrderBook, uint32, order_book, add_order, cancel_order}
use cpp_trading_exchange.Book.Rows.{Resting}
use cpp_trading_exchange.Book.Sweep.{Row}
use cpp_trading_exchange.Book.Match.{IsBook}
use cpp_trading_exchange.Book.Add.{Entered, add_order_lem, add_order-full}
use cpp_trading_exchange.Book.Cancel.{IsBookOf, cancel_order_lem}
use cpp_trading_exchange.Book.Initial.{order_book_lem}

-- The order at slot `i` rests in the book: it stands at a level of one of the sides.
pub data Rests (b : OrderBook) (i : ℕ) : Type 0 where
  rests :
      (s : Bool) (others : List Row) (free : List ℕ) (k : ℕ) (o : Order) (below : List Row)
      (xs ys : List Resting) (above : List Row)
      → IsBookOf s b (below ++ (k, xs ++ (i, o) ∷ ys) ∷ above) others free
      → Rests b i

-- A call that returns: any order is added, an order that rests is cancelled.
pub data Step (b b' : OrderBook) : Type 0 where
  adds :
      (order_id client_id size price : ℕ) (is_buy_side : Bool) (order_type : OrderType)
      (p : Option ℕ)
      → size < uint32
      → add_order order_id client_id size price is_buy_side order_type b ≡ some (p, b')
      → Step b b'
  cancels : (i : ℕ) → Rests b i → cancel_order (some i) b ≡ some (tt, b') → Step b b'

pub data Reachable (symbol : String) (pool_size : ℕ) : OrderBook → Type 0 where
  starts : {b : OrderBook} → order_book symbol pool_size ≡ some b → Reachable symbol pool_size b
  steps :
      {b b' : OrderBook} → Reachable symbol pool_size b → Step b b' → Reachable symbol pool_size b'

-- The book is well formed, with some orders on its sides and some free slots.
abbrev pub IsWell : OrderBook → Type 0
IsWell b = (bids : List Row) × (asks : List Row) × (free : List ℕ) × IsBook b bids asks free

pub after :
    {A : Type 0} {P : A → OrderBook → Type 0} {run : Option (A × OrderBook)} (a : A) (b : OrderBook)
    → Returns P run
    → run ≡ some (a, b)
    → P a b
after {P} a b (returns {a = x} {m = y} p) e =
    let same : x ≡ a = ground arith in
    let same_book : y ≡ b = ground arith in subst (P a) same_book (subst (λ z. P z y) same p)

pub Entered-IsWell :
    (left s : Bool) (i : ℕ) (o : Order) (b : OrderBook) (bids asks : List Row) (free : List ℕ)
    → Entered left s i o b bids asks free
    → IsWell b
Entered-IsWell true true i o b bids asks free is = (_, _, _, is)
Entered-IsWell true false i o b bids asks free is = (_, _, _, is)
Entered-IsWell false s i o b bids asks free is = (_, _, _, is.book)

IsBookOf-IsWell :
    (s : Bool) (b : OrderBook) (rows others : List Row) (free : List ℕ)
    → IsBookOf s b rows others free
    → IsWell b
IsBookOf-IsWell true b rows others free is = (_, _, _, is)
IsBookOf-IsWell false b rows others free is = (_, _, _, is)

Step-IsWell : (b b' : OrderBook) → Step b b' → IsWell b → IsWell b'
Step-IsWell b b' (adds order_id client_id size price s type p small run) (bids, asks, [], is) =
    let full = add_order-full order_id client_id size price s type b bids asks is in
    let same : b ≡ b' = ground arith in (bids, asks, [], subst (λ x. IsBook x bids asks []) same is)
Step-IsWell b b' (adds order_id client_id size price s type p small run)
      (bids, asks, i ∷ free, is) =
    let law = add_order_lem order_id client_id size price s type b bids asks i free small is in
    Entered-IsWell _ s i _ b' _ _ _ (after p b' law run).1
Step-IsWell b b' (cancels i (rests s others free k o below xs ys above is) run) well =
    let law = cancel_order_lem s b others free k i o below xs ys above is in
    IsBookOf-IsWell s b' _ others (i ∷ free) (after tt b' law run).0

-- Every book that calls lead to is well formed, from a constructor with a pool of one slot at least,
-- by adding any orders of sizes below 2^32 and cancelling orders that rest.
pub Reachable-IsWell :
    (symbol : String) (n : ℕ) (b : OrderBook) → 0 < n → n < size_t → Reachable symbol n b → IsWell b
Reachable-IsWell symbol n b more fits (starts e) =
    let (b0, run, is, _) = order_book_lem symbol n more fits in
    let same : b0 ≡ b = ground arith in
    ([], [], range 0 n, subst (λ x. IsBook x [] [] (range 0 n)) same is)
Reachable-IsWell symbol n b' more fits (steps {b} r s) =
    Step-IsWell b b' s (Reachable-IsWell symbol n b more fits r)
