-- ===== src/Book/Invariant.antt =====
-- The invariant of a book, and that matching keeps it.
use cpp_trading_exchange.Base.{
  ℕ, ◌<◌, ◌≡◌, ◌∙◌, sym, ap, subst, refl, Bool, Option, List, [], ◌∷◌, ◌++◌, arith, length,
  length-append, has, has-append, Distinct,
}
use mathlib.Core.Option
use mathlib.Core.List.{reverse, reverse-cons, reverse-reverse, reverse-append, append_assoc}
use cpp_trading_exchange.Base.Cmd.{Returns, returns, Returns-mono}
use cpp_trading_exchange.Pool.FreeList.{IsPool}
use cpp_trading_exchange.Order.Memory.{Memory, order_overlay}
use cpp_trading_exchange.Order.Access.{Frame, Frame-mono}
use cpp_trading_exchange.Book.{PriceLevels, uint32, match_loop}
use cpp_trading_exchange.Book.Levels.{begin, rbegin}
use cpp_trading_exchange.Book.Rows.{slots, release}
use cpp_trading_exchange.Book.Sweep.{Row, Swept, sweep, all_slots}
use cpp_trading_exchange.Book.Side.{keys, WellPlaced, IsSide}
use cpp_trading_exchange.Book.SideMatch.{SideSwept, match_loop_lem}
use cpp_trading_exchange.Book.Backwards.{turn, match_loop-reverse}
use cpp_trading_exchange.Book.Sorted.{
  Ascending, Ascending-Distinct, Ascending-append_left, Ascending-append_right, AllPlaced,
  AllPlaced-WellPlaced, AllPlaced-reverse, keys-reverse, Distinct-reverse, IsSide-reverse,
  sweep-AllPlaced, sweep-keys,
}

-- One side of the book: the levels of the map hold the rows, in ascending order of distinct prices,
-- each with orders of its price and of the side, none of them used up.
pub record HoldsSide (m : Memory) (s : Bool) (ls : PriceLevels) (rs : List Row) : Type 0 where
  pub side : IsSide m ls rs
  pub placed : AllPlaced s rs
  pub sorted : Ascending (keys rs)

pub HoldsSide-WellPlaced :
    {m : Memory} {s : Bool} {ls : PriceLevels} {rs : List Row}
    → HoldsSide m s ls rs
    → WellPlaced s rs
HoldsSide-WellPlaced {s} {rs} h =
    AllPlaced-WellPlaced s rs h.placed (Ascending-Distinct (keys rs) h.sorted)

pub all_slots-append : (xs ys : List Row) → all_slots (xs ++ ys) ≡ all_slots xs ++ all_slots ys
unfolding all_slots
all_slots-append [] ys = refl
all_slots-append ((k, xs) ∷ rs) ys =
    rw (all_slots-append rs ys) (sym (append_assoc (slots xs) (all_slots rs) (all_slots ys)))

has_turn :
    (a : ℕ) (xs ys zs : List ℕ) → has a ys ≡ has a zs → has a (ys ++ (xs ++ [])) ≡ has a (xs ++ zs)
has_turn a xs ys zs e =
    rw (has-append a ys (xs ++ []), has-append a xs [], has-append a xs zs, e) (ground arith)

pub length-reverse : {A : Type 0} (xs : List A) → length (reverse xs) ≡ length xs
length-reverse [] = refl
length-reverse (x ∷ xs) =
    rw (reverse-cons x xs, length-append (reverse xs) (x ∷ []), length-reverse xs) (omega arith)

pub has-all_slots-reverse :
    (a : ℕ) (rs : List Row) → has a (all_slots (reverse rs)) ≡ has a (all_slots rs)
unfolding all_slots
has-all_slots-reverse a [] = refl
has-all_slots-reverse a ((k, xs) ∷ rs) =
    rw (reverse-cons (k, xs) rs, all_slots-append (reverse rs) ((k, xs) ∷ []))
      (has_turn a (slots xs) (all_slots (reverse rs)) (all_slots rs) (has-all_slots-reverse a rs))

-- What matching from a memory and a side does, in terms of the rule on lists.
abbrev pub Matches :
    Memory → Bool → List ℕ → List ℕ → List Row → Swept → PriceLevels × ℕ → Memory → Type 0
Matches m s free is rows r (ls', t) m' =
    (t ≡ r.total)
    × HoldsSide m' s ls' rows
    × IsPool order_overlay m' (release r.closed free)
    × Frame is m m'

module _ (beyond : ℕ → Bool) (size total : ℕ) (small : size < uint32) where
  -- Matching against the asks, from the lowest price.
  pub match_asks :
      (m : Memory) (s : Bool) (ls : PriceLevels) (rs : List Row) (free : List ℕ) (fuel : ℕ)
      → length ls < fuel
      → HoldsSide m s ls rs
      → IsPool order_overlay m free
      → let r = sweep beyond size rs total in
        Returns
          (Matches m s free (all_slots rs) r.rows r)
          (match_loop begin beyond fuel size ls total m)
  match_asks m s ls rs free fuel enough h pool =
      Returns-mono
        (match_loop_lem beyond size small s fuel total m ls rs free enough h.side
          (HoldsSide-WellPlaced h) pool)
        λ a m' (et, is, pool', frame). (
          et,
          record {
            side = is;
            placed = sweep-AllPlaced beyond s size rs total h.placed;
            sorted = sorted;
          },
          pool',
          frame,
        )
    where
      sorted : Ascending (keys (sweep beyond size rs total).rows)
      sorted =
          let (gone, e) = sweep-keys beyond size rs total in
          Ascending-append_right gone _ (subst Ascending e h.sorted)

  -- Matching against the bids, from the highest price.
  pub match_bids :
      (m : Memory) (s : Bool) (ls : PriceLevels) (rs : List Row) (free : List ℕ) (fuel : ℕ)
      → length ls < fuel
      → HoldsSide m s ls rs
      → IsPool order_overlay m free
      → let r = sweep beyond size (reverse rs) total in
        Returns
          (Matches m s free (all_slots rs) (reverse r.rows) r)
          (match_loop rbegin beyond fuel size ls total m)
  match_bids m s ls rs free fuel enough h pool =
      rw (match_loop-reverse beyond fuel size ls total m) (
        turned (
          match_loop_lem beyond size small s fuel total m (reverse ls) (reverse rs) free
            (rw (length-reverse ls) enough) (IsSide-reverse m ls rs h.side) placed pool))
    where
      r : Swept
      r = sweep beyond size (reverse rs) total

      distinct : Distinct (keys (reverse rs))
      distinct =
          rw (keys-reverse rs) (Distinct-reverse (keys rs) (Ascending-Distinct (keys rs) h.sorted))

      placed : WellPlaced s (reverse rs)
      placed = AllPlaced-WellPlaced s (reverse rs) (AllPlaced-reverse s rs h.placed) distinct

      sorted : Ascending (keys (reverse r.rows))
      sorted =
          let (gone, e) = sweep-keys beyond size (reverse rs) total in
          let turned_keys : keys rs ≡ reverse (keys r.rows) ++ reverse gone =
            sym (reverse-reverse (keys rs))
            ∙ ap reverse (sym (keys-reverse rs))
            ∙ ap reverse e
            ∙ reverse-append gone (keys r.rows) in
          rw (keys-reverse r.rows) (
            Ascending-append_left (reverse (keys r.rows)) (reverse gone)
              (subst Ascending turned_keys h.sorted))

      turned :
          {run : Option ((PriceLevels × ℕ) × Memory)}
          → Returns (SideSwept m free (all_slots (reverse rs)) r) run
          → Returns (Matches m s free (all_slots rs) (reverse r.rows) r) (Option.map turn run)
      turned (returns {a} {m = m'} (et, is, pool', frame)) = returns (
        et,
        record {
          side = IsSide-reverse m' a.0 r.rows is;
          placed =
              AllPlaced-reverse s r.rows (
                sweep-AllPlaced beyond s size (reverse rs) total (AllPlaced-reverse s rs h.placed));
          sorted = sorted;
        },
        pool',
        Frame-mono (all_slots (reverse rs)) (all_slots rs) frame
            λ c k. has-all_slots-reverse c rs ∙ k,
      )
