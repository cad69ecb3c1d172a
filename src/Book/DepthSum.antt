-- ===== src/Book/DepthSum.antt =====
-- The depth of a level that `toString` of project/order_book.cpp computes.
use cpp_trading_exchange.Base.{
  ℕ, zero, suc, ◌+◌, ◌%◌, ◌≤◌, ◌<◌, ◌≡◌, ◌∙◌, ap, Option, none, some, List, [], ◌∷◌, arith, length,
}
use cpp_trading_exchange.Queue.{IntrusiveQueue}
use cpp_trading_exchange.Queue.Seg.{Seg, first, node}
use cpp_trading_exchange.Order.{Order}
use cpp_trading_exchange.Order.Memory.{Memory, get_node, strip}
use cpp_trading_exchange.Order.Access.{load_order_lem}
use cpp_trading_exchange.Book.{uint32}
use cpp_trading_exchange.Book.Rows.{Resting, slots, volume}
use cpp_trading_exchange.Book.Level.{Live, IsLevel}
use cpp_trading_exchange.Book.Depth.{total_size_loop, total_size}

-- What the loop reads at its next order.
reads :
    (m : Memory) (i : ℕ) (o : Order) (p n : Option ℕ) (x : Order)
    → strip x ≡ o
    → get_node m i ≡ some (node p n)
    → get_node m i ≡ some x.list_node
    → (x.list_node.next ≡ n) × (x.size ≡ o.size)
reads m i o p n x e g h = ground arith

add_wrap : (a b c : ℕ) → ((a + b) % uint32 + c) % uint32 ≡ (a + (b + c)) % uint32
add_wrap a b c = omega arith

total_size_loop_lem :
    (m : Memory) (xs : List Resting) (fuel : ℕ) (p : Option ℕ) (total : ℕ)
    → Live m xs
    → Seg (get_node m) p (slots xs) none
    → length xs ≤ fuel
    → total < uint32
    → total_size_loop fuel (first (slots xs) none) total m ≡ some ((total + volume xs) % uint32, m)
unfolding total_size_loop volume
total_size_loop_lem m [] zero p total l s enough small = ground arith
total_size_loop_lem m [] (suc fuel) p total l s enough small = ground arith
total_size_loop_lem m ((i, o) ∷ xs) zero p total l s enough small = absurd (omega (arith, enough))
total_size_loop_lem m ((i, o) ∷ xs) (suc fuel) p total l s enough small =
    let (x, run, same, at) = load_order_lem m i l.0 in
    let (next, size) = reads m i o p _ x same s.0 at in
    let rest =
      total_size_loop_lem m xs fuel (some i) ((total + o.size) % uint32) l.1 s.1
        (omega (arith, enough)) (omega arith) in
    rw (total_size_loop, run)
      (ap (λ (f : Option ℕ). total_size_loop fuel f ((total + x.size) % uint32) m) next
        ∙ ap (λ (k : ℕ). total_size_loop fuel (first (slots xs) none) ((total + k) % uint32) m) size
        ∙ rest
        ∙ ap (λ (n : ℕ). some (n, m)) (add_wrap total o.size (volume xs)))

-- The depth that is printed for a level is the sum of the sizes of its orders modulo 2^32: the loop
-- ends and never faults, but a level that holds 2^32 or more shows less than it holds.
pub total_size_lem :
    (m : Memory) (q : IntrusiveQueue) (xs : List Resting)
    → IsLevel m q xs
    → length xs ≤ length m.store
    → total_size q m ≡ some (volume xs % uint32, m)
unfolding total_size
total_size_lem m q xs is enough = rw is.queue.head_first (
    total_size_loop_lem m xs (length m.store) none 0 is.live is.queue.chain enough (omega arith)
    ∙ ap (λ (n : ℕ). some (n % uint32, m)) (omega arith))
