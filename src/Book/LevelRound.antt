-- ===== src/Book/LevelRound.antt =====
-- The parts of a round of `matchAtLevel` of project/order_book.cpp.
use cpp_trading_exchange.Base.{
  ℕ, suc, ◌+◌, ◌-◌, ◌%◌, ◌<◌, ◌≡◌, ◌∙◌, refl, true, false, ◌&&◌, not, none, some, List, [], ◌∷◌,
  arith, ltb, ◌==◌, if◌then◌else◌, length, has, has_other,
}
use cpp_trading_exchange.Base.Cmd.{pure, ◌>>=◌, ◌>>◌, Returns, returns, Returns-bind}
use cpp_trading_exchange.Queue.{IntrusiveQueue, peek, empty}
use cpp_trading_exchange.Queue.Seg.{IsQueue}
use cpp_trading_exchange.Queue.Remove.{remove_lem}
use cpp_trading_exchange.Pool.FreeList.{IsPool}
use cpp_trading_exchange.Order.{Order, decrease_size}
use cpp_trading_exchange.Order.Memory.{
  Memory, get_node, view, view_same, order_memory, order_overlay, IsPool-same,
}
use cpp_trading_exchange.Order.Access.{
  load_order, store_order, delete_order_lem, Frame, Frame-trans, OnlyNodes-Frame,
}
use cpp_trading_exchange.Book.{uint32, close_order, match_at_level_loop}
use cpp_trading_exchange.Book.Rows.{Resting, slots, Matched, match_row, release}
use cpp_trading_exchange.Book.Level.{Live, IsLevel, Live-Frame, IsLevel-Frame}

pub length-slots : (xs : List Resting) → length (slots xs) ≡ length xs
length-slots [] = refl
length-slots ((i, o) ∷ xs) = omega (arith, length-slots xs)

no_self : (a i : ℕ) (xs : List ℕ) → has i xs ≡ false → has a xs ≡ true → has a (i ∷ []) ≡ false
no_self a i xs h k = has_other a i xs h k

-- The used-up order is unlinked and goes back to the pool.
pub close_order_lem :
    (m : Memory) (q : IntrusiveQueue) (i : ℕ) (xs : List Resting) (free : List ℕ) {v : Order}
    → IsQueue (get_node m) q (i ∷ slots xs)
    → view m i ≡ some v
    → Live m xs
    → IsPool order_overlay m free
    → Returns
        (λ q' m'.
          IsLevel m' q' xs
          × IsPool order_overlay m' (i ∷ free)
          × Frame (i ∷ slots xs) m m'
          × (view m' i ≡ none))
        (close_order i q m)
unfolding close_order
close_order_lem m q i xs free is seen live pool =
    Returns-bind (remove_lem order_memory m q [] i (slots xs) is) λ q' m1 (is1, _, only).
      let same = view_same m m1 only.same_rest in
      let (m2, e, del, pool2) =
        delete_order_lem m1 i free (same i ∙ seen) (IsPool-same m m1 only.same_rest free pool) in
      rw e (
        returns (
          IsLevel-Frame (i ∷ []) xs del.frame (λ a h. no_self a i (slots xs) is.distinct.0 h)
              (record { queue = is1; live = Live-Frame m m1 xs (λ a h. same a) live }),
          pool2,
          Frame-trans (i ∷ slots xs) (i ∷ []) (i ∷ slots xs) (OnlyNodes-Frame _ m m1 only) del.frame
              (λ a h. ground arith),
          del.gone,
        ))

-- The run from memory `m`, with the orders `xs` at the level, did what `r` says.
abbrev pub LevelMatched : Memory → List ℕ → List ℕ → Matched → IntrusiveQueue × ℕ → Memory → Type 0
LevelMatched m free is r (q', t') m' =
    (t' ≡ r.total)
    × IsLevel m' q' r.rows
    × IsPool order_overlay m' (release r.closed free)
    × Frame is m m'

pub decrease_size-part :
    (o : Order) (n : ℕ)
    → ltb n o.size ≡ true
    → decrease_size o n ≡ (record o { size = o.size - n }, n)
unfolding decrease_size
decrease_size-part o n h = ground arith

pub decrease_size-full :
    (o : Order) (n : ℕ) → ltb n o.size ≡ false → decrease_size o n ≡ (record o { size = 0 }, o.size)
unfolding decrease_size
decrease_size-full o n h = ground arith

pub match_row-part :
    (size total i : ℕ) (o : Order) (xs : List Resting)
    → ltb total size ≡ true
    → ltb (size - total) o.size ≡ true
    → match_row size ((i, o) ∷ xs) total ≡ record {
      rows = (i, record o { size = o.size - (size - total) }) ∷ xs;
      total = size;
      closed = [];
    }
unfolding match_row
match_row-part size total i o xs go part = rw (match_row, go, part)

pub match_row-full :
    (size total i : ℕ) (o : Order) (xs : List Resting)
    → ltb total size ≡ true
    → ltb (size - total) o.size ≡ false
    → match_row size ((i, o) ∷ xs) total
      ≡ (let r = match_row size xs (total + o.size) in record r { closed = i ∷ r.closed })
unfolding match_row
match_row-full size total i o xs go part = rw (match_row, go, part)

pub match_row-stop :
    (size total : ℕ) (xs : List Resting)
    → ltb total size ≡ false
    → match_row size xs total ≡ record { rows = xs; total = total; closed = [] }
unfolding match_row
match_row-stop size total [] stop = refl
match_row-stop size total ((i, o) ∷ xs) stop = rw (match_row, stop)

-- A round that takes an order: what is done with it, and the rest of the loop.
pub round :
    (fuel size total i : ℕ) (q : IntrusiveQueue) (m : Memory) (x : Order)
    → empty q ≡ false
    → ltb total size ≡ true
    → size < uint32
    → peek q ≡ some i
    → load_order i m ≡ some (x, m)
    → match_at_level_loop (suc fuel) size q total m
      ≡ (do
        let r = decrease_size x (size - total)
        store_order i r.0
        level' ← if (r.0).size == 0 then close_order i q else pure q
        match_at_level_loop fuel size level' ((total + r.1) % uint32))
          m
unfolding match_at_level_loop
round fuel size total i q m x full go small head load =
    rw (match_at_level_loop, full, go, head, load, amount)
  where
    amount : (size + uint32 - total) % uint32 ≡ size - total
    amount = ground arith

-- The loop ends where its test fails.
pub idle :
    (fuel size total : ℕ) (q : IntrusiveQueue) (m : Memory)
    → (not (empty q) && ltb total size) ≡ false
    → match_at_level_loop (suc fuel) size q total m ≡ some ((q, total), m)
unfolding match_at_level_loop
idle fuel size total q m h = rw (match_at_level_loop, h)

pub empty-nil : (q : IntrusiveQueue) {m : Memory} → IsLevel m q [] → empty q ≡ true
unfolding empty
empty-nil q is = let e : q.size ≡ 0 = is.queue.counted in ground arith

pub empty-cons :
    (m : Memory) (q : IntrusiveQueue) (i : ℕ) (xs : List ℕ)
    → IsQueue (get_node m) q (i ∷ xs)
    → empty q ≡ false
unfolding empty
empty-cons m q i xs is = let e : q.size ≡ suc (length xs) = is.counted in ground arith

pub peek-cons :
    (m : Memory) (q : IntrusiveQueue) (i : ℕ) (xs : List ℕ)
    → IsQueue (get_node m) q (i ∷ xs)
    → peek q ≡ some i
unfolding peek
peek-cons m q i xs is = is.head_first
