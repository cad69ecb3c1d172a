-- ===== src/Queue.antt =====
-- project/intrusive_queue.hpp: a queue threaded through nodes that lie inside the queued items. The
-- items are in a memory that the queue sees through `get_node` only.
pub mod Seg
pub mod Relink
pub mod Append
pub mod Remove
use cpp_trading_exchange.Base.{
  ℕ, ◌+◌, ◌-◌, ◌%◌, ◌^◌, ◌≡◌, Bool, Option, none, some, ◌==◌, if◌then◌else◌,
}
use cpp_trading_exchange.Base.Cmd.{Cmd, pure, fault, deref, ◌>>=◌, ◌>>◌}

pub record Node : Type 0 where
  pub next : Option ℕ
  pub prev : Option ℕ

abbrev pub null_node : Node
null_node = record { next = none; prev = none }

-- What the queue asks of a memory of items: `get_node` is `none` where no item lives, a write to a
-- node is seen by the reads of that node alone, and `rest` is all that no node shows.
pub record NodeMemory (M : Type 0) : Type 1 where
  pub Rest : Type 0
  pub get_node : M → ℕ → Option Node
  pub put_node : M → ℕ → Node → M
  pub rest : M → Rest
  pub get-put :
      (m : M) (i j : ℕ) (n : Node) {old : Node}
      → get_node m i ≡ some old
      → get_node (put_node m i n) j ≡ (if i == j then some n else get_node m j)
  pub rest-put : (m : M) (i : ℕ) (n : Node) → rest (put_node m i n) ≡ rest m

pub record IntrusiveQueue : Type 0 where
  pub head : Option ℕ
  pub tail : Option ℕ
  pub size : ℕ

abbrev pub empty_queue : IntrusiveQueue
empty_queue = record { head = none; tail = none; size = 0 }

-- `size_` is a `std::size_t`.
abbrev pub size_t : ℕ
size_t = 2 ^ 64

unfoldable pub peek : IntrusiveQueue → Option ℕ
peek q = q.head

unfoldable pub empty : IntrusiveQueue → Bool
empty q = q.size == 0

module _ {M : Type 0} (mem : NodeMemory M) where
  open mem use {get_node, put_node}

  unfoldable pub load_node : ℕ → Cmd M Node
  load_node i m = elim (get_node m i) [ none ↦ none | some n ↦ some (n, m) ]

  unfoldable pub set_next : ℕ → Option ℕ → Cmd M (Unit {0})
  set_next i p m = elim (get_node m i) [
    | none ↦ none
    | some n ↦ some (tt, put_node m i (record n { next = p }))
  ]

  unfoldable pub set_prev : ℕ → Option ℕ → Cmd M (Unit {0})
  set_prev i p m = elim (get_node m i) [
    | none ↦ none
    | some n ↦ some (tt, put_node m i (record n { prev = p }))
  ]

  -- `if (node.prev) get_node(node.prev).next = node.next; else head_ = node.next;` returns `head_`.
  unfoldable pub unlink_prev : Option ℕ → Node → Cmd M (Option ℕ)
  unfolding set_next
  unlink_prev head n = elim n.prev [ none ↦ pure n.next | some p ↦ set_next p n.next >> pure head ]

  -- `if (node.next) get_node(node.next).prev = node.prev; else tail_ = node.prev;` returns `tail_`.
  unfoldable pub unlink_next : Option ℕ → Node → Cmd M (Option ℕ)
  unfolding set_prev
  unlink_next tail n = elim n.next [ none ↦ pure n.prev | some s ↦ set_prev s n.prev >> pure tail ]

  -- `node` is a reference, so it is read again after the first write.
  unfoldable pub remove : ℕ → IntrusiveQueue → Cmd M IntrusiveQueue
  unfolding load_node unlink_prev unlink_next set_next set_prev
  remove item q = do
    n ← load_node item
    head ← unlink_prev q.head n
    n' ← load_node item
    tail ← unlink_next q.tail n'
    set_next item none
    set_prev item none
    pure (record { head = head; tail = tail; size = (q.size + size_t - 1) % size_t })

  unfoldable pub append : ℕ → IntrusiveQueue → Cmd M IntrusiveQueue
  unfolding load_node set_next set_prev
  append item q = elim q.head [
    | none ↦ do
      set_prev item none
      set_next item none
      pure (record { head = some item; tail = some item; size = (q.size + 1) % size_t })
    | some _ ↦ do
      t ← deref q.tail
      set_next t (some item)
      set_prev item q.tail
      set_next item none
      pure (record { head = q.head; tail = some item; size = (q.size + 1) % size_t })
  ]

  unfoldable pub pop : IntrusiveQueue → Cmd M (Option ℕ × IntrusiveQueue)
  unfolding remove
  pop q = elim q.head [
    | none ↦ pure (none, q)
    | some item ↦ do q' ← remove item q; pure (some item, q')
  ]
