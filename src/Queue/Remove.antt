-- ===== src/Queue/Remove.antt =====
-- `remove` and `pop` of project/intrusive_queue.hpp.
use cpp_trading_exchange.Base.{
  ℕ, ◌+◌, ◌-◌, ◌%◌, ◌≡◌, ◌∙◌, refl, false, true, Option, none, some, List, [], ◌∷◌, ◌++◌, arith,
  length-append, has, has-append, has_other, Distinct, Distinct-append_left, Distinct-append_right,
  Distinct-Apart, Distinct-append,
}
use cpp_trading_exchange.Base.Cmd.{pure, ◌>>=◌, Returns, returns, Returns-bind}
use cpp_trading_exchange.Queue.{Node, NodeMemory, IntrusiveQueue, null_node, size_t, remove, pop}
use cpp_trading_exchange.Queue.Seg.{
  node, first, last, Seg, Seg-frame, first-append, last-append, Seg-append, Seg-split, OnlyNodes,
  IsQueue,
}
use cpp_trading_exchange.Queue.Relink.{
  OnlyNodes-put, OnlyNodes-trans, get-put_self, load_node_lem, set_next_lem, set_prev_lem,
  unlink_prev_lem, unlink_next_lem, UnlinksPrev, UnlinksNext,
}

-- What distinctness says about an item between two parts of the queue.
record Between (xs : List ℕ) (x : ℕ) (ys : List ℕ) : Type 0 where
  front : Distinct xs
  back : Distinct ys
  not_front : has x xs ≡ false
  not_back : has x ys ≡ false
  apart : (a : ℕ) → has a xs ≡ true → has a ys ≡ false
  rest : Distinct (xs ++ ys)

between : (xs : List ℕ) (x : ℕ) (ys : List ℕ) → Distinct (xs ++ x ∷ ys) → Between xs x ys
between xs x ys d = record {
  front = Distinct-append_left xs (x ∷ ys) d;
  back = right.1;
  not_front = ground (arith, split x);
  not_back = right.0;
  apart = apart;
  rest = Distinct-append xs ys (Distinct-append_left xs (x ∷ ys) d) right.1 apart;
}
  where
    right : (has x ys ≡ false) × Distinct ys
    right = Distinct-append_right xs (x ∷ ys) d

    split : (a : ℕ) → has a xs ≡ true → has a (x ∷ ys) ≡ false
    split = Distinct-Apart xs (x ∷ ys) d

    apart : (a : ℕ) → has a xs ≡ true → has a ys ≡ false
    apart a h = ground (arith, split a)

module _ {M : Type 0} (mem : NodeMemory M) where
  -- The last two writes of `remove`: the removed node is cleared.
  abbrev clear : ℕ → Node → M → M
  clear x n m = mem.put_node (mem.put_node m x (record n { next = none })) x null_node

  clear-OnlyNodes :
      (x : ℕ) (n : Node) (m : M)
      → mem.get_node m x ≡ some n
      → OnlyNodes mem (x ∷ []) m (clear x n m) × (mem.get_node (clear x n m) x ≡ some null_node)
  clear-OnlyNodes x n m e = (
    OnlyNodes-trans mem (x ∷ []) (x ∷ []) (x ∷ [])
        (OnlyNodes-put mem (x ∷ []) m x half n e (ground arith))
        (OnlyNodes-put mem (x ∷ []) m' x null_node half got (ground arith)) (λ a o. (o, o)),
    get-put_self mem m' x null_node got,
  )
    where
      half : Node
      half = record n { next = none }

      m' : M
      m' = mem.put_node m x half

      got : mem.get_node m' x ≡ some half
      got = get-put_self mem m x half e

  abbrev pub Removed : M → List ℕ → ℕ → List ℕ → IntrusiveQueue → M → Type 0
  Removed m xs x ys q m' =
      IsQueue (mem.get_node m') q (xs ++ ys)
      × (mem.get_node m' x ≡ some null_node)
      × OnlyNodes mem (xs ++ x ∷ ys) m m'

  -- The three phases together.
  removed :
      {m m1 m2 : M} {q : IntrusiveQueue} (head tail : Option ℕ) (xs : List ℕ) (x : ℕ) (ys : List ℕ)
      → IsQueue (mem.get_node m) q (xs ++ x ∷ ys)
      → (head ≡ first xs (first ys none))
        × Seg (mem.get_node m1) none xs (first ys none)
        × OnlyNodes mem xs m m1
      → (tail ≡ last ys (last xs none))
        × Seg (mem.get_node m2) (last xs none) ys none
        × OnlyNodes mem ys m1 m2
      → (n : Node) → mem.get_node m2 x ≡ some n
      → Removed m xs x ys
          (record { head = head; tail = tail; size = (q.size + size_t - 1) % size_t })
          (clear x n m2)
  removed {m2} {q} head tail xs x ys is (h1, s1, o1) (h2, s2, o2) n at_x = (
    record {
      chain =
          Seg-frame none (xs ++ ys) none (λ a h. o3.outside a (out a h))
            (Seg-append (mem.get_node m2) none xs ys none
              (Seg-frame none xs (first ys none) (λ a h. o2.outside a (b.apart a h)) s1) s2);
      distinct = b.rest;
      head_first = rw (first-append xs ys none) h1;
      tail_last = rw (last-append xs ys none) h2;
      counted = omega (arith, is.counted, is.fits, length-append xs (x ∷ ys), length-append xs ys);
      fits = omega arith;
    },
    cleared.1,
    OnlyNodes-trans mem xs (x ∷ ys) (xs ++ x ∷ ys) o1
        (OnlyNodes-trans mem ys (x ∷ []) (x ∷ ys) o2 o3 λ a o. ground arith)
        λ a o. ground (arith, has-append a xs (x ∷ ys)),
  )
    where
      b : Between xs x ys
      b = between xs x ys is.distinct

      cleared :
          OnlyNodes mem (x ∷ []) m2 (clear x n m2)
          × (mem.get_node (clear x n m2) x ≡ some null_node)
      cleared = clear-OnlyNodes x n m2 at_x

      o3 : OnlyNodes mem (x ∷ []) m2 (clear x n m2)
      o3 = cleared.0

      not_rest : has x (xs ++ ys) ≡ false
      not_rest = rw (has-append x xs ys, b.not_front) b.not_back

      out : (a : ℕ) → has a (xs ++ ys) ≡ true → has a (x ∷ []) ≡ false
      out a h = has_other a x (xs ++ ys) not_rest h

  -- `remove` of any item of the queue, first, last or between, never faults, takes that item out and
  -- keeps the order of the others, clears its node, and writes to no node outside the queue.
  pub remove_lem :
      (m : M) (q : IntrusiveQueue) (xs : List ℕ) (x : ℕ) (ys : List ℕ)
      → IsQueue (mem.get_node m) q (xs ++ x ∷ ys)
      → Returns (Removed m xs x ys) (remove mem x q m)
  unfolding remove UnlinksPrev UnlinksNext
  remove_lem m q xs x ys is =
      rw
        (
          load_node_lem mem m x at_x,
          is.head_first,
          is.tail_last,
          first-append xs (x ∷ ys) none,
          last-append xs (x ∷ ys) none,
        )
        (Returns-bind (unlink_prev_lem mem (some x) (first ys none) xs m parts.0 b.front)
          λ head m1 p1.
            let at_x1 = p1.2.outside x b.not_front ∙ at_x in
            rw (load_node_lem mem m1 x at_x1) (
              Returns-bind
                (unlink_next_lem mem (some x) (last xs none) ys m1
                  (Seg-frame (some x) ys none (λ a h. p1.2.outside a (away a h)) parts.1.1) b.back)
                λ tail m2 p2.
                  let at_x2 = p2.2.outside x b.not_back ∙ at_x1 in
                  let got = get-put_self mem m2 x (record n { next = none }) at_x2 in
                  rw (set_next_lem mem m2 x none at_x2, set_prev_lem mem _ x none got)
                    (returns (removed head tail xs x ys is p1 p2 n at_x2))))
    where
      b : Between xs x ys
      b = between xs x ys is.distinct

      parts :
          Seg (mem.get_node m) none xs (some x) × Seg (mem.get_node m) (last xs none) (x ∷ ys) none
      parts = Seg-split (mem.get_node m) none xs (x ∷ ys) none is.chain

      n : Node
      n = node (last xs none) (first ys none)

      at_x : mem.get_node m x ≡ some n
      at_x = parts.1.0

      away : (a : ℕ) → has a ys ≡ true → has a xs ≡ false
      away a h = ground (arith, b.apart a)

  pop-none : (m : M) (q : IntrusiveQueue) → q.head ≡ none → pop mem q m ≡ some ((none, q), m)
  unfolding pop
  pop-none m q e = rw e

  pop-some :
      (m : M) (q : IntrusiveQueue) (x : ℕ)
      → q.head ≡ some x
      → pop mem q m ≡ (do q' ← remove mem x q; pure (some x, q')) m
  unfolding pop
  pop-some m q x e = rw e

  abbrev pub Popped : M → List ℕ → Option ℕ × IntrusiveQueue → M → Type 0
  Popped m [] (item, q) m' = (item ≡ none) × IsQueue (mem.get_node m') q [] × (m' ≡ m)
  Popped m (x ∷ xs) (item, q) m' = (item ≡ some x) × Removed m [] x xs q m'

  -- `pop` of a queue that is not empty returns the oldest item and removes it alone; of an empty
  -- queue it returns null and changes nothing.
  pub pop_lem :
      (m : M) (q : IntrusiveQueue) (xs : List ℕ)
      → IsQueue (mem.get_node m) q xs
      → Returns (Popped m xs) (pop mem q m)
  pop_lem m q [] is = rw (pop-none m q is.head_first) (returns (refl, is, refl))
  pop_lem m q (x ∷ xs) is =
      rw (pop-some m q x is.head_first)
        (Returns-bind (remove_lem m q [] x xs is) λ q' m' r. returns (refl, r))
