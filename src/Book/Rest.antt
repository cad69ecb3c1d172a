-- ===== src/Book/Rest.antt =====
-- `levels[price].append(order)` of project/order_book.cpp, against the rule on lists.
use cpp_trading_exchange.Base.{
  ℕ, ◌+◌, ◌<◌, ◌≡◌, ◌∙◌, sym, ap, subst, refl, inl, Bool, true, false, some, List, [], ◌∷◌, ◌++◌,
  arith, length, length-append, has, has-append, has_other,
}
use cpp_trading_exchange.Base.Cmd.{Returns, returns, Returns-bind}
use cpp_trading_exchange.Queue.{Node, size_t}
use cpp_trading_exchange.Queue.Seg.{IsQueue}
use cpp_trading_exchange.Queue.Append.{append_lem}
use cpp_trading_exchange.Pool.FreeList.{IsPool}
use cpp_trading_exchange.Order.{Order}
use cpp_trading_exchange.Order.Memory.{
  Memory, get_node, view, view_same, order_memory, order_overlay, IsPool-same,
}
use cpp_trading_exchange.Order.Access.{Frame, Frame-mono, OnlyNodes-Frame}
use cpp_trading_exchange.Book.{PriceLevels, append_at}
use cpp_trading_exchange.Book.Rows.{Resting, slots}
use cpp_trading_exchange.Book.Level.{Live-Frame}
use cpp_trading_exchange.Book.Sweep.{Row, all_slots}
use cpp_trading_exchange.Book.Side.{
  Placed, WellPlaced, IsSide, IsSide-Frame, level-apart, keys-same,
}
use cpp_trading_exchange.Book.Sorted.{Ascending-Distinct, AllPlaced-WellPlaced, IsSide-append}
use cpp_trading_exchange.Book.Invariant.{HoldsSide}
use cpp_trading_exchange.Book.Located.{rest_row, Located, locate}
use cpp_trading_exchange.Book.RestRow.{
  find-middle, put-middle, Placed-init, rest_row-AllPlaced, rest_row-Ascending, slots-append,
  Live-append, has-keys,
}

-- The parts of a side round one of its levels.
pub record Around (s : Bool) (k : ℕ) (below : List Row) (xs : List Resting) (above : List Row)
    : Type 0 where
  pub lower : WellPlaced s below
  pub middle : Placed s k xs
  pub upper : WellPlaced s above

pub around :
    (s : Bool) (k : ℕ) (below : List Row) (xs : List Resting) (above : List Row)
    → WellPlaced s (below ++ (k, xs) ∷ above)
    → Around s k below xs above
around s k [] xs above w = record { lower = tt; middle = w.2; upper = w.3 }
around s k ((j, ys) ∷ below) xs above w =
    let rest = around s k below xs above w.3 in
    record {
      lower = (ground (arith, has-keys j below ((k, xs) ∷ above)), w.1, w.2, rest.lower);
      middle = rest.middle;
      upper = rest.upper;
    }

has_beside :
    (a i : ℕ) (xs ys : List ℕ)
    → has i ys ≡ false
    → has a ys ≡ true
    → has a xs ≡ false
    → has a (i ∷ xs) ≡ false
has_beside a i xs ys miss hit out = ground (arith, has_other a i ys miss hit)

-- An order rests at its price: it goes behind the others of that price, whether or not they had a
-- level; the map keeps its form, and nothing outside the side and the order's own slot changes.
pub append_at_lem :
    (m : Memory) (s : Bool) (ls : PriceLevels) (rs : List Row) (k i : ℕ) (o : Order) (n : Node)
    (free : List ℕ)
    → HoldsSide m s ls rs
    → Placed s k ((i, o) ∷ [])
    → view m i ≡ some o
    → get_node m i ≡ some n
    → has i (all_slots rs) ≡ false
    → length (all_slots rs) + 1 < size_t
    → IsPool order_overlay m free
    → Returns
        (λ ls' m'.
          HoldsSide m' s ls' (rest_row k (i, o) rs)
          × IsPool order_overlay m' free
          × Frame (i ∷ all_slots rs) m m')
        (append_at k i ls m)
unfolding append_at
append_at_lem m s ls rs k i o n free h placed seen node new room pool =
    rw (append_at, at.touched, find-middle k at.level at.lower at.upper at.not_lower)
      (Returns-bind
        (append_lem order_memory m at.level (slots at.orders) i n at.holds.queue out.1.0
          (omega (
            arith,
            ap length at.all,
            length-append (all_slots at.below) _,
            length-append (slots at.orders) (all_slots at.above),
          ))
          node)
        λ q m' (is, only).
          let f = OnlyNodes-Frame (i ∷ slots at.orders) m m' only in
          let same = view_same m m' only.same_rest in
          rw (at.touched, put-middle k at.level q at.lower at.upper at.not_lower at.not_upper)
            (returns (
              record {
                side = subst (IsSide m' (at.lower ++ (k, q) ∷ at.upper)) (sym (at.rested (i, o))) (
                    IsSide-append m' at.lower ((k, q) ∷ at.upper) at.below _
                      (IsSide-Frame m m' (i ∷ slots at.orders) at.lower at.below f
                        (λ a h. has_beside a i _ (all_slots at.below) out.0 h (apart_lower a h))
                        at.lower_side)
                      (
                        refl,
                        record {
                          queue =
                              subst (IsQueue (get_node m') q)
                                (sym (slots-append at.orders ((i, o) ∷ []))) is;
                          live =
                              Live-append m' at.orders ((i, o) ∷ [])
                                (Live-Frame m m' at.orders (λ a h. same a) at.holds.live)
                                (same i ∙ seen, tt);
                        },
                        IsSide-Frame m m' (i ∷ slots at.orders) at.upper at.above f
                            (λ a h.
                              has_beside a i _ (all_slots at.above) out.1.1 h (apart_upper a h))
                            at.upper_side,
                      ));
                placed = rest_row-AllPlaced s k (i, o) rs h.placed placed;
                sorted = rest_row-Ascending k (i, o) rs h.sorted;
              },
              IsPool-same m m' only.same_rest free pool,
              Frame-mono (i ∷ slots at.orders) (i ∷ all_slots rs) f inside,
            )))
  where
    at : Located m k ls rs
    at = locate m k ls rs h.side h.sorted

    whole : WellPlaced s (at.below ++ (k, at.orders ++ (i, o) ∷ []) ∷ at.above)
    whole = subst (WellPlaced s) (at.rested (i, o)) (
        AllPlaced-WellPlaced s _ (rest_row-AllPlaced s k (i, o) rs h.placed placed)
          (Ascending-Distinct _ (rest_row-Ascending k (i, o) rs h.sorted)))

    parts : Around s k at.below (at.orders ++ (i, o) ∷ []) at.above
    parts = around s k at.below _ at.above whole

    middle : Placed s k at.orders
    middle = Placed-init s k at.orders (i, o) parts.middle

    split :
        (a : ℕ)
        → has a (all_slots rs) ≡ false
        → (has a (all_slots at.below) ≡ false)
          × ((has a (slots at.orders) ≡ false) × (has a (all_slots at.above) ≡ false))
    split a g =
        let e : has a (all_slots at.below ++ (slots at.orders ++ all_slots at.above)) ≡ false =
          ap (has a) (sym at.all) ∙ g in
        ground (
          arith,
          has-append a (all_slots at.below) (slots at.orders ++ all_slots at.above),
          has-append a (slots at.orders) (all_slots at.above),
        )

    out :
        (has i (all_slots at.below) ≡ false)
        × ((has i (slots at.orders) ≡ false) × (has i (all_slots at.above) ≡ false))
    out = split i new

    apart_lower : (a : ℕ) → has a (all_slots at.below) ≡ true → has a (slots at.orders) ≡ false
    apart_lower =
        level-apart m s s k at.orders at.lower at.below at.holds.live middle at.lower_side
          parts.lower
          (inl (ap (has k) (sym (keys-same m at.lower at.below at.lower_side)) ∙ at.not_lower))

    apart_upper : (a : ℕ) → has a (all_slots at.above) ≡ true → has a (slots at.orders) ≡ false
    apart_upper =
        level-apart m s s k at.orders at.upper at.above at.holds.live middle at.upper_side
          parts.upper
          (inl (ap (has k) (sym (keys-same m at.upper at.above at.upper_side)) ∙ at.not_upper))

    inside : (a : ℕ) → has a (i ∷ all_slots rs) ≡ false → has a (i ∷ slots at.orders) ≡ false
    inside a g = ground (arith, split a)
