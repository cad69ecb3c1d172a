-- ===== src/Book/Level.antt =====
-- What a price level of given orders looks like in memory, and how it outlives changes elsewhere.
use cpp_trading_exchange.Base.{ℕ, ◌≡◌, ◌∙◌, false, true, some, List, [], ◌∷◌, arith, has}
use cpp_trading_exchange.Queue.{IntrusiveQueue}
use cpp_trading_exchange.Queue.Seg.{Nodes, Seg-frame, IsQueue}
use cpp_trading_exchange.Order.Memory.{Memory, get_node, view}
use cpp_trading_exchange.Order.Access.{Frame}
use cpp_trading_exchange.Book.Rows.{Resting, slots}

-- Each slot holds the order that the list says.
abbrev pub Live : Memory → List Resting → Type 0
Live m [] = Unit
Live m ((i, o) ∷ xs) = (view m i ≡ some o) × Live m xs

pub record IsLevel (m : Memory) (q : IntrusiveQueue) (xs : List Resting) : Type 0 where
  pub queue : IsQueue (get_node m) q (slots xs)
  pub live : Live m xs

pub IsQueue-frame :
    {g h : Nodes} {q : IntrusiveQueue} (xs : List ℕ)
    → ((a : ℕ) → has a xs ≡ true → h a ≡ g a)
    → IsQueue g q xs
    → IsQueue h q xs
IsQueue-frame xs same is = record {
  chain = Seg-frame _ xs _ same is.chain;
  distinct = is.distinct;
  head_first = is.head_first;
  tail_last = is.tail_last;
  counted = is.counted;
  fits = is.fits;
}

pub Live-Frame :
    (m m' : Memory) (xs : List Resting)
    → ((a : ℕ) → has a (slots xs) ≡ true → view m' a ≡ view m a)
    → Live m xs
    → Live m' xs
Live-Frame m m' [] same l = tt
Live-Frame m m' ((i, o) ∷ xs) same l =
    (same i (ground arith) ∙ l.0, Live-Frame m m' xs (λ a h. same a (ground arith)) l.1)

pub IsLevel-Frame :
    {m m' : Memory} {q : IntrusiveQueue} (ys : List ℕ) (xs : List Resting)
    → Frame ys m m'
    → ((a : ℕ) → has a (slots xs) ≡ true → has a ys ≡ false)
    → IsLevel m q xs
    → IsLevel m' q xs
IsLevel-Frame {m} {m'} ys xs f apart is = record {
  queue = IsQueue-frame (slots xs) (λ a h. f.nodes a (apart a h)) is.queue;
  live = Live-Frame m m' xs (λ a h. f.views a (apart a h)) is.live;
}
