-- ===== src/Pool/FreeList.antt =====
-- Free lists that run through links between indices.
use cpp_trading_exchange.Base.{
  ℕ, zero, suc, ◌+◌, ◌≤◌, ◌<◌, ◌≡◌, refl, false, true, Option, some, List, [], ◌∷◌, arith, length,
  get_elem?, has, Distinct,
}
use mathlib.Core.Option
use cpp_trading_exchange.Pool.{Overlay, Element, MemPool}

abbrev pub start : List ℕ → ℕ → ℕ
start [] stop = stop
start (i ∷ is) stop = i

-- The links lead from each index of the list to the next, and from the last to `stop`.
abbrev pub Chain : (ℕ → Option ℕ) → List ℕ → ℕ → Type 0
Chain l [] stop = Unit
Chain l (i ∷ is) stop = (l i ≡ some (start is stop)) × Chain l is stop

pub Chain-frame :
    {k l : ℕ → Option ℕ} (is : List ℕ) (stop : ℕ)
    → ((i : ℕ) → has i is ≡ true → l i ≡ k i)
    → Chain k is stop
    → Chain l is stop
Chain-frame [] stop same c = tt
Chain-frame (i ∷ is) stop same c =
    (ground (arith, same i), Chain-frame is stop (λ j h. same j (ground arith)) c.1)

-- `i, i + 1, …, i + n - 1`
abbrev pub range : ℕ → ℕ → List ℕ
range i zero = []
range i (suc n) = i ∷ range (i + 1) n

pub has-range : (j i n : ℕ) → j < i → has j (range i n) ≡ false
has-range j i zero h = refl
has-range j i (suc n) h = ground (arith, has-range j (i + 1) n)

pub has-range_iff : (j i n : ℕ) → i ≤ j → j < i + n → has j (range i n) ≡ true
has-range_iff j i zero h k = absurd (omega arith)
has-range_iff j i (suc n) h k = ground (arith, has-range_iff j (i + 1) n)

pub Distinct-range : (i n : ℕ) → Distinct (range i n)
Distinct-range i zero = tt
Distinct-range i (suc n) = (has-range i (i + 1) n (omega arith), Distinct-range (i + 1) n)

pub length-range : (i n : ℕ) → length (range i n) ≡ n
length-range i zero = refl
length-range i (suc n) = omega (arith, length-range (i + 1) n)

pub Chain-range :
    (l : ℕ → Option ℕ) (i n stop : ℕ)
    → i + n ≡ stop
    → ((j : ℕ) → i ≤ j → j < stop → l j ≡ some (j + 1))
    → Chain l (range i n) stop
Chain-range l i zero stop e h = tt
Chain-range l i (suc n) stop e h = (
  ground (arith, h i, start-range (i + 1) n stop),
  Chain-range l (i + 1) n stop (omega arith) λ j a b. h j (omega arith) b,
)
  where
    start-range : (i n stop : ℕ) → i + n ≡ stop → start (range i n) stop ≡ i
    start-range i zero stop e = omega arith
    start-range i (suc n) stop e = refl

module _ {T : Type 0} (o : Overlay T) where
  -- The index that the storage of an element holds.
  abbrev pub link : List (Element T) → ℕ → Option ℕ
  link s i = Option.map (λ e. o.next_free_of e.object) (get_elem? s i)

  -- The free elements of the pool are those of `free`, in the order in which they will be served.
  pub record IsPool (p : MemPool T) (free : List ℕ) : Type 0 where
    pub chain : Chain (link p.store) free (length p.store)
    pub next_first : p.next_free_index ≡ start free (length p.store)
    pub distinct : Distinct free
    pub flags :
        (i : ℕ) (e : Element T) → get_elem? p.store i ≡ some e → e.is_free_or_in_use ≡ has i free
