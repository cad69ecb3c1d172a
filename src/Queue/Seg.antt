-- ===== src/Queue/Seg.antt =====
-- Doubly linked segments of nodes, and what a queue of given items looks like in memory.
use cpp_trading_exchange.Base.{
  ℕ, ◌<◌, ◌≡◌, ◌≢◌, refl, false, true, Option, none, some, List, [], ◌∷◌, ◌++◌, arith, length, has,
  Distinct,
}
use cpp_trading_exchange.Queue.{Node, NodeMemory, IntrusiveQueue, size_t}

abbrev pub Nodes : Type 0
Nodes = ℕ → Option Node

abbrev pub node : Option ℕ → Option ℕ → Node
node p n = record { next = n; prev = p }

abbrev pub first : List ℕ → Option ℕ → Option ℕ
first [] d = d
first (x ∷ xs) d = some x

abbrev pub last : List ℕ → Option ℕ → Option ℕ
last [] d = d
last (x ∷ xs) d = last xs (some x)

-- The nodes of `xs` are linked in this order, between `p` and `n`.
abbrev pub Seg : Nodes → Option ℕ → List ℕ → Option ℕ → Type 0
Seg g p [] n = Unit
Seg g p (x ∷ xs) n = (g x ≡ some (node p (first xs n))) × Seg g (some x) xs n

-- A segment is kept by what spares its nodes.
pub Seg-frame :
    {g h : Nodes} (p : Option ℕ) (xs : List ℕ) (n : Option ℕ)
    → ((a : ℕ) → has a xs ≡ true → h a ≡ g a)
    → Seg g p xs n
    → Seg h p xs n
Seg-frame p [] n same s = tt
Seg-frame p (x ∷ xs) n same s =
    (ground (arith, same x), Seg-frame (some x) xs n (λ a m. same a (ground arith)) s.1)

pub first-append : (xs ys : List ℕ) (d : Option ℕ) → first (xs ++ ys) d ≡ first xs (first ys d)
first-append [] ys d = refl
first-append (x ∷ xs) ys d = refl

pub last-append : (xs ys : List ℕ) (d : Option ℕ) → last (xs ++ ys) d ≡ last ys (last xs d)
last-append [] ys d = refl
last-append (x ∷ xs) ys d = last-append xs ys (some x)

module _ (g : Nodes) where
  pub Seg-append :
      (p : Option ℕ) (xs ys : List ℕ) (n : Option ℕ)
      → Seg g p xs (first ys n)
      → Seg g (last xs p) ys n
      → Seg g p (xs ++ ys) n
  Seg-append p [] ys n s t = t
  Seg-append p (x ∷ xs) ys n s t =
      (ground (arith, first-append xs ys n), Seg-append (some x) xs ys n s.1 t)

  pub Seg-split :
      (p : Option ℕ) (xs ys : List ℕ) (n : Option ℕ)
      → Seg g p (xs ++ ys) n
      → Seg g p xs (first ys n) × Seg g (last xs p) ys n
  Seg-split p [] ys n s = (tt, s)
  Seg-split p (x ∷ xs) ys n s =
      let (s', t) = Seg-split (some x) xs ys n s.1 in
      ((ground (arith, first-append xs ys n), s'), t)

-- The queue `q` holds the items `xs`, oldest first.
pub record IsQueue (g : Nodes) (q : IntrusiveQueue) (xs : List ℕ) : Type 0 where
  pub chain : Seg g none xs none
  pub distinct : Distinct xs
  pub head_first : q.head ≡ first xs none
  pub tail_last : q.tail ≡ last xs none
  pub counted : q.size ≡ length xs
  pub fits : q.size < size_t

-- `m'` differs from `m` at most in the nodes of `xs`.
pub record OnlyNodes {M : Type 0} (mem : NodeMemory M) (xs : List ℕ) (m m' : M) : Type 0 where
  pub outside : (a : ℕ) → has a xs ≡ false → mem.get_node m' a ≡ mem.get_node m a
  pub alive : (a : ℕ) → mem.get_node m a ≢ none → mem.get_node m' a ≢ none
  pub same_rest : mem.rest m' ≡ mem.rest m
