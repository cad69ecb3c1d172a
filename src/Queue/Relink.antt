-- ===== src/Queue/Relink.antt =====
-- The single writes of the queue, and what they do to the segments on each side of an item.
use cpp_trading_exchange.Base.{
  ℕ, ◌≡◌, ◌∙◌, ◌⊎◌, inl, inr, refl, false, true, Option, none, some, List, [], ◌∷◌, ◌++◌, arith,
  ◌==◌, if◌then◌else◌, has, has-append, Distinct, Distinct-Apart,
}
use cpp_trading_exchange.Base.Cmd.{Returns, returns}
use cpp_trading_exchange.Queue.{
  Node, NodeMemory, load_node, set_next, set_prev, unlink_prev, unlink_next,
}
use cpp_trading_exchange.Queue.Seg.{
  Nodes, node, first, last, Seg, Seg-frame, first-append, last-append, Seg-append, Seg-split,
  OnlyNodes,
}

pub snoc_cases : (xs : List ℕ) → (xs ≡ []) ⊎ ((ys : List ℕ) × (y : ℕ) × (xs ≡ ys ++ y ∷ []))
snoc_cases [] = inl refl
snoc_cases (x ∷ xs) = elim (snoc_cases xs) [
  | inl e ↦ inr ([], x, ground arith)
  | inr (ys, y, e) ↦ inr (x ∷ ys, y, ground arith)
]

module _ {M : Type 0} (mem : NodeMemory M) where
  pub OnlyNodes-refl : (xs : List ℕ) (m : M) → OnlyNodes mem xs m m
  OnlyNodes-refl xs m = record { outside = λ a o. refl; alive = λ a l. l; same_rest = refl }

  -- A write to one node.
  pub OnlyNodes-put :
      (xs : List ℕ) (m : M) (i : ℕ) (n old : Node)
      → mem.get_node m i ≡ some old
      → has i xs ≡ true
      → OnlyNodes mem xs m (mem.put_node m i n)
  OnlyNodes-put xs m i n old e h = record {
    outside = λ a o. ground (arith, mem.get-put m i a n e);
    alive = λ a l. ground (arith, mem.get-put m i a n e);
    same_rest = mem.rest-put m i n;
  }

  pub OnlyNodes-trans :
      (xs ys zs : List ℕ) {m m' m'' : M}
      → OnlyNodes mem xs m m'
      → OnlyNodes mem ys m' m''
      → ((a : ℕ) → has a zs ≡ false → (has a xs ≡ false) × (has a ys ≡ false))
      → OnlyNodes mem zs m m''
  OnlyNodes-trans xs ys zs f g out = record {
    outside = λ a o. let p = out a o in g.outside a p.1 ∙ f.outside a p.0;
    alive = λ a l. g.alive a (f.alive a l);
    same_rest = g.same_rest ∙ f.same_rest;
  }

  pub get-put_self :
      (m : M) (i : ℕ) (n : Node) {old : Node}
      → mem.get_node m i ≡ some old
      → mem.get_node (mem.put_node m i n) i ≡ some n
  get-put_self m i n e = ground (arith, mem.get-put m i i n e)

  pub load_node_lem :
      (m : M) (i : ℕ) {n : Node} → mem.get_node m i ≡ some n → load_node mem i m ≡ some (n, m)
  unfolding load_node
  load_node_lem m i e = rw (e, load_node)

  -- The first write of `remove`: the items in front of the removed one now lead on to `nx`.
  unfoldable pub UnlinksPrev : Option ℕ → Option ℕ → List ℕ → Type 0
  UnlinksPrev x nx xs =
      (m : M)
      → Seg (mem.get_node m) none xs x
      → Distinct xs
      → Returns
          (λ head m'.
            (head ≡ first xs nx) × Seg (mem.get_node m') none xs nx × OnlyNodes mem xs m m')
          (unlink_prev mem (first xs x) (node (last xs none) nx) m)

  pub set_next_lem :
      (m : M) (i : ℕ) (p : Option ℕ) {n : Node}
      → mem.get_node m i ≡ some n
      → set_next mem i p m ≡ some (tt, mem.put_node m i (record n { next = p }))
  unfolding set_next
  set_next_lem m i p e = rw (e, set_next)

  -- A write to the last node of a segment: it now leads on to `nx`.
  pub relink_last :
      (m : M) (ys : List ℕ) (y : ℕ) (x nx : Option ℕ)
      → Seg (mem.get_node m) none (ys ++ y ∷ []) x
      → Distinct (ys ++ y ∷ [])
      → (mem.get_node m y ≡ some (node (last ys none) x))
        × Seg (mem.get_node (mem.put_node m y (node (last ys none) nx))) none (ys ++ y ∷ []) nx
        × OnlyNodes mem (ys ++ y ∷ []) m (mem.put_node m y (node (last ys none) nx))
  relink_last m ys y x nx s d = (
    at_y,
    Seg-append g' none ys (y ∷ []) nx (Seg-frame none ys (some y) same parts.0)
        (ground (arith, put y), tt),
    OnlyNodes-put (ys ++ y ∷ []) m y new _ at_y (ground (arith, has-append y ys (y ∷ []))),
  )
    where
      g : Nodes
      g = mem.get_node m

      parts : Seg g none ys (some y) × Seg g (last ys none) (y ∷ []) x
      parts = Seg-split g none ys (y ∷ []) x s

      at_y : g y ≡ some (node (last ys none) x)
      at_y = parts.1.0

      new : Node
      new = node (last ys none) nx

      g' : Nodes
      g' = mem.get_node (mem.put_node m y new)

      put : (a : ℕ) → g' a ≡ (if y == a then some new else g a)
      put a = mem.get-put m y a new at_y

      same : (a : ℕ) → has a ys ≡ true → g' a ≡ g a
      same a h = ground (arith, put a, Distinct-Apart ys (y ∷ []) d a h)

  unlink_prev-snoc : (x nx : Option ℕ) (ys : List ℕ) (y : ℕ) → UnlinksPrev x nx (ys ++ y ∷ [])
  unfolding UnlinksPrev unlink_prev
  unlink_prev-snoc x nx ys y m s d =
      let f = relink_last m ys y x nx s d in
      rw (last-append ys (y ∷ []) none, unlink_prev, set_next_lem m y nx f.0)
        (returns (simp first-append, f.1, f.2))

  pub unlink_prev_lem : (x nx : Option ℕ) (xs : List ℕ) → UnlinksPrev x nx xs
  unfolding UnlinksPrev unlink_prev
  unlink_prev_lem x nx xs = elim (snoc_cases xs) [
    | inl e ↦ rw e λ m s d. returns (refl, tt, OnlyNodes-refl [] m)
    | inr (ys, y, e) ↦ rw e (unlink_prev-snoc x nx ys y)
  ]

  unfoldable pub UnlinksNext : Option ℕ → Option ℕ → List ℕ → Type 0
  UnlinksNext x pv xs =
      (m : M)
      → Seg (mem.get_node m) x xs none
      → Distinct xs
      → Returns
          (λ tail m'.
            (tail ≡ last xs pv) × Seg (mem.get_node m') pv xs none × OnlyNodes mem xs m m')
          (unlink_next mem (last xs x) (node pv (first xs none)) m)

  pub set_prev_lem :
      (m : M) (i : ℕ) (p : Option ℕ) {n : Node}
      → mem.get_node m i ≡ some n
      → set_prev mem i p m ≡ some (tt, mem.put_node m i (record n { prev = p }))
  unfolding set_prev
  set_prev_lem m i p e = rw (e, set_prev)

  -- The second write of `remove`: the items behind the removed one now follow `pv`.
  pub unlink_next_lem : (x pv : Option ℕ) (xs : List ℕ) → UnlinksNext x pv xs
  unfolding UnlinksNext unlink_next
  unlink_next_lem x pv [] m s d = returns (refl, tt, OnlyNodes-refl [] m)
  unlink_next_lem x pv (y ∷ ys) m s d = rw (set_prev_lem m y pv s.0) (
      returns (
        refl,
        (ground (arith, put y), Seg-frame (some y) ys none same s.1),
        OnlyNodes-put (y ∷ ys) m y new _ s.0 (ground arith),
      ))
    where
      new : Node
      new = node pv (first ys none)

      put :
          (a : ℕ)
          → mem.get_node (mem.put_node m y new) a ≡ (if y == a then some new else mem.get_node m a)
      put a = mem.get-put m y a new s.0

      same : (a : ℕ) → has a ys ≡ true → mem.get_node (mem.put_node m y new) a ≡ mem.get_node m a
      same a h = ground (arith, put a, d.0)
