-- ===== src/Queue/Append.antt =====
-- `append` of project/intrusive_queue.hpp.
use cpp_trading_exchange.Base.{
  ℕ, ◌+◌, ◌%◌, ◌<◌, ◌≡◌, ◌∙◌, sym, refl, false, inl, inr, Option, none, some, List, [], ◌∷◌, ◌++◌,
  arith, length, length-append, has, has_other, Distinct-append,
}
use cpp_trading_exchange.Base.Cmd.{pure, ◌>>◌, Returns, returns}
use cpp_trading_exchange.Queue.{
  Node, NodeMemory, IntrusiveQueue, size_t, append, set_next, set_prev,
}
use cpp_trading_exchange.Queue.Seg.{
  node, first, last, Seg, Seg-frame, first-append, last-append, Seg-append, OnlyNodes, IsQueue,
}
use cpp_trading_exchange.Queue.Relink.{
  snoc_cases, OnlyNodes-put, OnlyNodes-trans, set_next_lem, set_prev_lem, get-put_self, relink_last,
}

first-snoc : (ys : List ℕ) (y : ℕ) (d : Option ℕ) → (h : ℕ) × (first (ys ++ y ∷ []) d ≡ some h)
first-snoc [] y d = (y, refl)
first-snoc (z ∷ ys) y d = (z, refl)

module _ {M : Type 0} (mem : NodeMemory M) where
  abbrev pub Appended : M → List ℕ → ℕ → IntrusiveQueue → M → Type 0
  Appended m xs x q m' = IsQueue (mem.get_node m') q (xs ++ x ∷ []) × OnlyNodes mem (x ∷ xs) m m'

  -- The two writes to the new node.
  abbrev place : ℕ → Option ℕ → Node → M → M
  place x p n m = mem.put_node (mem.put_node m x (record n { prev = p })) x (node p none)

  place-OnlyNodes :
      (x : ℕ) (p : Option ℕ) (n : Node) (m : M)
      → mem.get_node m x ≡ some n
      → OnlyNodes mem (x ∷ []) m (place x p n m)
        × (mem.get_node (place x p n m) x ≡ some (node p none))
  place-OnlyNodes x p n m e = (
    OnlyNodes-trans mem (x ∷ []) (x ∷ []) (x ∷ [])
        (OnlyNodes-put mem (x ∷ []) m x half n e (ground arith))
        (OnlyNodes-put mem (x ∷ []) m' x (node p none) half got (ground arith)) (λ a o. (o, o)),
    get-put_self mem m' x (node p none) got,
  )
    where
      half : Node
      half = record n { prev = p }

      m' : M
      m' = mem.put_node m x half

      got : mem.get_node m' x ≡ some half
      got = get-put_self mem m x half e

  -- The segment in front ends at the new item, which is placed behind it.
  appended :
      {m m1 : M} (q : IntrusiveQueue) (xs : List ℕ) (x : ℕ) (head : Option ℕ) (n : Node)
      → IsQueue (mem.get_node m) q xs
      → has x xs ≡ false
      → length xs + 1 < size_t
      → Seg (mem.get_node m1) none xs (some x)
      → OnlyNodes mem xs m m1
      → head ≡ first xs (some x)
      → mem.get_node m1 x ≡ some n
      → Appended m xs x
          (record { head = head; tail = some x; size = (q.size + 1) % size_t })
          (place x (last xs none) n m1)
  appended {m1} q xs x head n is new room s o h e = (
    record {
      chain =
          Seg-append _ none xs (x ∷ []) none
            (Seg-frame none xs (some x) (λ a m. p.0.outside a (has_other a x xs new m)) s)
            (p.1, tt);
      distinct = Distinct-append xs (x ∷ []) is.distinct (refl, tt) λ a m. has_other a x xs new m;
      head_first = rw (first-append xs (x ∷ []) none) h;
      tail_last = rw (last-append xs (x ∷ []) none);
      counted = omega (arith, is.counted, length-append xs (x ∷ []));
      fits = omega arith;
    },
    OnlyNodes-trans mem xs (x ∷ []) (x ∷ xs) o p.0 λ a m. ground arith,
  )
    where
      p :
          OnlyNodes mem (x ∷ []) m1 (place x (last xs none) n m1)
          × (mem.get_node (place x (last xs none) n m1) x ≡ some (node (last xs none) none))
      p = place-OnlyNodes x (last xs none) n m1 e

  append-nil :
      (m : M) (q : IntrusiveQueue) (x : ℕ) (n : Node)
      → IsQueue (mem.get_node m) q []
      → mem.get_node m x ≡ some n
      → Returns (Appended m [] x) (append mem x q m)
  unfolding append
  append-nil m q x n is e =
      rw
        (
          is.head_first,
          set_prev_lem mem m x none e,
          set_next_lem mem _ x none (get-put_self mem m x (record n { prev = none }) e),
        )
        (returns (
          appended q [] x (some x) n is refl (omega arith) tt
            (record { outside = λ a o. refl; alive = λ a l. l; same_rest = refl }) refl e))

  -- The branch of `append` for a queue that is not empty.
  append_nonempty :
      (m : M) (q : IntrusiveQueue) (h t x : ℕ)
      → q.head ≡ some h
      → q.tail ≡ some t
      → append mem x q m
        ≡ (do
          set_next mem t (some x)
          set_prev mem x (some t)
          set_next mem x none
          pure (record { head = q.head; tail = some x; size = (q.size + 1) % size_t }))
            m
  unfolding append
  append_nonempty m q h t x eh et = rw (eh, et)

  append-snoc :
      (m : M) (q : IntrusiveQueue) (ys : List ℕ) (y x : ℕ) (n : Node)
      → IsQueue (mem.get_node m) q (ys ++ y ∷ [])
      → has x (ys ++ y ∷ []) ≡ false
      → length (ys ++ y ∷ []) + 1 < size_t
      → mem.get_node m x ≡ some n
      → Returns (Appended m (ys ++ y ∷ []) x) (append mem x q m)
  append-snoc m q ys y x n is new room e =
      let f = relink_last mem m ys y none (some x) is.chain is.distinct in
      let at_x = f.2.outside x new ∙ e in
      let (h, starts) = first-snoc ys y none in
      let ends : last (ys ++ y ∷ []) none ≡ some y = last-append ys (y ∷ []) none in
      let got = get-put_self mem _ x (record n { prev = some y }) at_x in
      rw
        (
          append_nonempty m q h y x (is.head_first ∙ starts) (is.tail_last ∙ ends),
          set_next_lem mem m y (some x) f.0,
          set_prev_lem mem _ x (some y) at_x,
          set_next_lem mem _ x none got,
          ← ends,
        )
        (returns (
          appended q (ys ++ y ∷ []) x q.head n is new room f.1 f.2
            (is.head_first
              ∙ first-append ys (y ∷ []) none
              ∙ sym (first-append ys (y ∷ []) (some x)))
            at_x))

  -- `append` of an item that is not in the queue never faults, puts it behind all others, and writes
  -- to no node but its own and those of the queue.
  pub append_lem :
      (m : M) (q : IntrusiveQueue) (xs : List ℕ) (x : ℕ) (n : Node)
      → IsQueue (mem.get_node m) q xs
      → has x xs ≡ false
      → length xs + 1 < size_t
      → mem.get_node m x ≡ some n
      → Returns (Appended m xs x) (append mem x q m)
  append_lem m q xs x n = elim (snoc_cases xs) [
    | inl e ↦ rw e λ is new room at_x. append-nil m q x n is at_x
    | inr (ys, y, e) ↦ rw e (append-snoc m q ys y x n)
  ]
