-- ===== src/Book/Strike.antt =====
-- The part of `cancelOrder` of project/order_book.cpp that takes the order off its level.
use cpp_trading_exchange.Base.{
  ℕ, ◌≡◌, ◌∙◌, sym, ap, subst, refl, inl, inr, Bool, Bool-cases, true, false, some, List, [], ◌∷◌,
  ◌++◌, arith, ◌==◌, if◌then◌else◌, has, has-append,
}
use cpp_trading_exchange.Base.Cmd.{Returns, returns, Returns-bind}
use cpp_trading_exchange.Queue.{IntrusiveQueue, empty}
use cpp_trading_exchange.Queue.Seg.{IsQueue}
use cpp_trading_exchange.Queue.Remove.{remove_lem}
use cpp_trading_exchange.Pool.FreeList.{IsPool}
use cpp_trading_exchange.Order.{Order}
use cpp_trading_exchange.Order.Memory.{
  Memory, get_node, view, view_same, order_memory, order_overlay, IsPool-same,
}
use cpp_trading_exchange.Order.Access.{Frame, OnlyNodes-Frame}
use cpp_trading_exchange.Book.{PriceLevels, remove_at}
use cpp_trading_exchange.Book.Levels.{erase, put}
use cpp_trading_exchange.Book.Rows.{Resting, slots}
use cpp_trading_exchange.Book.Level.{Live, IsLevel, Live-Frame}
use cpp_trading_exchange.Book.Sweep.{Row, all_slots}
use cpp_trading_exchange.Book.Side.{keys, WellPlaced, IsSide, IsSide-Frame, level-apart, keys-same}
use cpp_trading_exchange.Book.Sorted.{IsSide-append}
use cpp_trading_exchange.Book.Invariant.{HoldsSide, HoldsSide-WellPlaced}
use cpp_trading_exchange.Book.RestRow.{find-middle, put-middle, slots-append}
use cpp_trading_exchange.Book.Rest.{Around, around}
use cpp_trading_exchange.Book.Split.{
  level_row, Apart-keys, IsSide-split, erase-middle, Live-drop, Placed-drop, has-drop,
  Ascending-drop, AllPlaced-drop, has-level_row,
}

pub first-IsLevel :
    (m : Memory) (us : PriceLevels) (k : ℕ) (zs : List Resting) (above : List Row)
    → IsSide m us ((k, zs) ∷ above)
    → (q : IntrusiveQueue) × (upper : PriceLevels) × (us ≡ (k, q) ∷ upper)
      × IsLevel m q zs
      × IsSide m upper above
first-IsLevel m [] k zs above is = elim is [ ]
first-IsLevel m ((p, q) ∷ us) k zs above is = (q, us, rw is.0, is.1, is.2)

-- The map after the order has left its level: without the level if no order is left there.
levels_left :
    (m : Memory) (k : ℕ) (lower upper : PriceLevels) (q q' : IntrusiveQueue)
    (below above : List Row) (zs : List Resting)
    → has k (keys lower) ≡ false
    → has k (keys upper) ≡ false
    → IsSide m lower below
    → IsLevel m q' zs
    → IsSide m upper above
    → let ls = lower ++ (k, q) ∷ upper in
      IsSide m (if empty q' then erase k ls else put k q' ls) (below ++ (level_row k zs ++ above))
unfolding empty
levels_left m k lower upper q q' below above [] nl nu pl level pu =
    let none_left : (q'.size == 0) ≡ true = ground (arith, level.queue.counted) in
    rw (none_left, erase-middle k q lower upper nl nu)
      (IsSide-append m lower upper below above pl pu)
levels_left m k lower upper q q' below above (z ∷ zs) nl nu pl level pu =
    let some_left : (q'.size == 0) ≡ false = ground (arith, level.queue.counted) in
    rw (some_left, put-middle k q q' lower upper nl nu)
      (IsSide-append m lower ((k, q') ∷ upper) below ((k, z ∷ zs) ∷ above) pl (refl, level, pu))

miss_other :
    (i : ℕ) (xs ys : List ℕ)
    → has i ys ≡ true
    → ((a : ℕ) → has a xs ≡ true → has a ys ≡ false)
    → has i xs ≡ false
miss_other i xs ys hit apart = elim (Bool-cases (has i xs)) [
  | inl e ↦ let no = apart i e in absurd (cc)
  | inr e ↦ e
]

module _ (m : Memory) (s : Bool) (k i : ℕ) (o : Order) (below : List Row) (xs ys : List Resting)
    (above : List Row) (free : List ℕ) where
  strike_split :
      (lower upper : PriceLevels) (q : IntrusiveQueue)
      → HoldsSide m s (lower ++ (k, q) ∷ upper) (below ++ (k, xs ++ (i, o) ∷ ys) ∷ above)
      → IsSide m lower below
      → IsLevel m q (xs ++ (i, o) ∷ ys)
      → IsSide m upper above
      → IsPool order_overlay m free
      → Returns
          (λ ls' m'.
            HoldsSide m' s ls' (below ++ (level_row k (xs ++ ys) ++ above))
            × IsPool order_overlay m' free
            × Frame (slots (xs ++ (i, o) ∷ ys)) m m'
            × (view m' i ≡ some o)
            × (has i (all_slots (below ++ (level_row k (xs ++ ys) ++ above))) ≡ false))
          (remove_at k i (lower ++ (k, q) ∷ upper) m)
  unfolding remove_at
  strike_split lower upper q h pl level pu pool =
      rw (remove_at, find-middle k q lower upper nl)
        (Returns-bind (remove_lem order_memory m q (slots xs) i (slots ys) queue)
          λ q' m' (is', node, only).
            let f : Frame (slots zs) m m' =
              subst (λ is. Frame is m m') (sym (slots-append xs ((i, o) ∷ ys)))
                (OnlyNodes-Frame (slots xs ++ i ∷ slots ys) m m' only) in
            let same = view_same m m' only.same_rest in
            returns (
              record {
                side =
                    levels_left m' k lower upper q q' below above (xs ++ ys) nl nu
                      (IsSide-Frame m m' (slots zs) lower below f out_lower pl)
                      (record {
                        queue = subst (IsQueue (get_node m') q') (sym (slots-append xs ys)) is';
                        live = Live-Frame m m' (xs ++ ys) (λ a g. same a) dropped.1;
                      })
                      (IsSide-Frame m m' (slots zs) upper above f out_upper pu);
                placed =
                    AllPlaced-drop s k below zs (xs ++ ys) above h.placed
                      (Placed-drop s k xs (i, o) ys parts.middle);
                sorted = Ascending-drop k below zs (xs ++ ys) above h.sorted;
              },
              IsPool-same m m' only.same_rest free pool,
              f,
              same i ∙ dropped.0,
              gone,
            ))
    where
      zs : List Resting
      zs = xs ++ (i, o) ∷ ys

      placed : WellPlaced s (below ++ (k, zs) ∷ above)
      placed = HoldsSide-WellPlaced h

      parts : Around s k below zs above
      parts = around s k below zs above placed

      apart : (has k (keys below) ≡ false) × (has k (keys above) ≡ false)
      apart = Apart-keys s k below zs above placed

      nl : has k (keys lower) ≡ false
      nl = ap (has k) (keys-same m lower below pl) ∙ apart.0

      nu : has k (keys upper) ≡ false
      nu = ap (has k) (keys-same m upper above pu) ∙ apart.1

      queue : IsQueue (get_node m) q (slots xs ++ i ∷ slots ys)
      queue = subst (IsQueue (get_node m) q) (slots-append xs ((i, o) ∷ ys)) level.queue

      dropped : (view m i ≡ some o) × Live m (xs ++ ys)
      dropped = Live-drop m xs i o ys level.live

      out_lower : (a : ℕ) → has a (all_slots below) ≡ true → has a (slots zs) ≡ false
      out_lower =
          level-apart m s s k zs lower below level.live parts.middle pl parts.lower (inl apart.0)

      out_upper : (a : ℕ) → has a (all_slots above) ≡ true → has a (slots zs) ≡ false
      out_upper =
          level-apart m s s k zs upper above level.live parts.middle pu parts.upper (inl apart.1)

      hit : has i (slots zs) ≡ true
      hit =
          ap (has i) (slots-append xs ((i, o) ∷ ys))
          ∙ ground (arith, has-append i (slots xs) (i ∷ slots ys))

      gone : has i (all_slots (below ++ (level_row k (xs ++ ys) ++ above))) ≡ false
      gone =
          let miss : has i (slots (xs ++ ys)) ≡ false =
            ap (has i) (slots-append xs ys) ∙ has-drop i (slots xs) (slots ys) queue.distinct in
          rw
            (
              has-level_row i k below (xs ++ ys) above,
              miss_other i (all_slots below) (slots zs) hit out_lower,
              miss,
              miss_other i (all_slots above) (slots zs) hit out_upper,
            )
            refl

  -- `levels.find(price)`, `remove` and `erase`: the order leaves its level, and an empty level the map.
  pub remove_at_lem :
      (ls : PriceLevels)
      → HoldsSide m s ls (below ++ (k, xs ++ (i, o) ∷ ys) ∷ above)
      → IsPool order_overlay m free
      → Returns
          (λ ls' m'.
            HoldsSide m' s ls' (below ++ (level_row k (xs ++ ys) ++ above))
            × IsPool order_overlay m' free
            × Frame (slots (xs ++ (i, o) ∷ ys)) m m'
            × (view m' i ≡ some o)
            × (has i (all_slots (below ++ (level_row k (xs ++ ys) ++ above))) ≡ false))
          (remove_at k i ls m)
  remove_at_lem ls h pool =
      let (lower, us, e, pl, pu) =
        IsSide-split m ls below ((k, xs ++ (i, o) ∷ ys) ∷ above) h.side in
      let (q, upper, e', level, pu') = first-IsLevel m us k (xs ++ (i, o) ∷ ys) above pu in
      let whole : ls ≡ lower ++ (k, q) ∷ upper = e ∙ ap (◌++◌ lower) e' in
      rw whole (
        strike_split lower upper q
          (subst (λ l. HoldsSide m s l (below ++ (k, xs ++ (i, o) ∷ ys) ∷ above)) whole h) pl level
          pu' pool)
