-- ===== src/Book/SideMatch.antt =====
-- The matching loop over the levels of a side, best price first, does what the rule on lists says.
use cpp_trading_exchange.Base.{
  ℕ, zero, suc, ◌<◌, ◌≡◌, ◌∙◌, ap, refl, inl, inr, ◌⊎◌, Bool, true, false, Bool-cases, some, List,
  [], ◌∷◌, ◌++◌, arith, ltb, ==-refl, length, has, has-append,
}
use cpp_trading_exchange.Base.Cmd.{pure, ◌>>=◌, Returns, returns, Returns-bind, Returns-mono}
use cpp_trading_exchange.Queue.{IntrusiveQueue, empty}
use cpp_trading_exchange.Pool.FreeList.{IsPool}
use cpp_trading_exchange.Order.Memory.{Memory, order_overlay}
use cpp_trading_exchange.Order.Access.{Frame, Frame-refl, Frame-trans, Frame-mono}
use cpp_trading_exchange.Book.{PriceLevels, uint32, match_at_level, match_loop}
use cpp_trading_exchange.Book.Levels.{begin, erase, put}
use cpp_trading_exchange.Book.Rows.{Resting, slots, match_row, release}
use cpp_trading_exchange.Book.Level.{IsLevel}
use cpp_trading_exchange.Book.LevelMatch.{match_at_level_lem}
use cpp_trading_exchange.Book.Sweep.{Row, Swept, sweep, sweep_cases, is_nil, all_slots}
use cpp_trading_exchange.Book.Side.{keys, WellPlaced, IsSide, IsSide-Frame, level-apart, keys-same}

release-append : (is js free : List ℕ) → release (is ++ js) free ≡ release js (release is free)
release-append [] js free = refl
release-append (i ∷ is) js free = release-append is js (i ∷ free)

erase-none : {V : Type 0} (k : ℕ) (ls : List (ℕ × V)) → has k (keys ls) ≡ false → erase k ls ≡ ls
unfolding erase
erase-none k [] h = refl
erase-none k ((j, v) ∷ ls) h = ground (arith, erase-none k ls)

erase-first :
    {V : Type 0} (k : ℕ) (v : V) (ls : List (ℕ × V))
    → has k (keys ls) ≡ false
    → erase k ((k, v) ∷ ls) ≡ ls
unfolding erase
erase-first k v ls h = rw (==-refl k) (erase-none k ls h)

put-none :
    {V : Type 0} (k : ℕ) (w : V) (ls : List (ℕ × V)) → has k (keys ls) ≡ false → put k w ls ≡ ls
unfolding put
put-none k w [] h = refl
put-none k w ((j, v) ∷ ls) h = ground (arith, put-none k w ls)

put-first :
    {V : Type 0} (k : ℕ) (v w : V) (ls : List (ℕ × V))
    → has k (keys ls) ≡ false
    → put k w ((k, v) ∷ ls) ≡ (k, w) ∷ ls
unfolding put
put-first k v w ls h = rw (==-refl k) (ap (◌∷◌ (k, w)) (put-none k w ls h))

abbrev pub SideSwept : Memory → List ℕ → List ℕ → Swept → PriceLevels × ℕ → Memory → Type 0
SideSwept m free is r (levels', t') m' =
    (t' ≡ r.total)
    × IsSide m' levels' r.rows
    × IsPool order_overlay m' (release r.closed free)
    × Frame is m m'

module _ (beyond : ℕ → Bool) (size : ℕ) (small : size < uint32) where
  stopped :
      (fuel total k : ℕ) (q : IntrusiveQueue) (ls : PriceLevels) (m : Memory)
      → (ltb total size ≡ false) ⊎ (beyond k ≡ true)
      → match_loop begin beyond (suc fuel) size ((k, q) ∷ ls) total m
        ≡ some (((k, q) ∷ ls, total), m)
  unfolding match_loop begin
  stopped fuel total k q ls m (inl full) = rw (match_loop, full)
  stopped fuel total k q ls m (inr far) = elim (Bool-cases (ltb total size)) [
    | inl go ↦ rw (match_loop, go, far)
    | inr full ↦ rw (match_loop, full)
  ]

  none_left :
      (fuel total : ℕ) (m : Memory)
      → match_loop begin beyond (suc fuel) size [] total m ≡ some (([], total), m)
  unfolding match_loop begin
  none_left fuel total m = ground arith

  step :
      (fuel total k : ℕ) (q : IntrusiveQueue) (ls : PriceLevels) (m : Memory)
      → ltb total size ≡ true
      → beyond k ≡ false
      → match_loop begin beyond (suc fuel) size ((k, q) ∷ ls) total m
        ≡ (do
          (level', t) ← match_at_level size q total
          elim (empty level') [
            | true ↦ match_loop begin beyond fuel size (erase k ((k, q) ∷ ls)) t
            | false ↦ pure (put k level' ((k, q) ∷ ls), t)
          ])
            m
  unfolding match_loop begin
  step fuel total k q ls m go near = rw (match_loop, go, near)

  empty-is_nil :
      (m : Memory) (q : IntrusiveQueue) (xs : List Resting) → IsLevel m q xs → empty q ≡ is_nil xs
  unfolding empty
  empty-is_nil m q [] is = let e : q.size ≡ 0 = is.queue.counted in ground arith
  empty-is_nil m q ((i, o) ∷ xs) is =
      let e : q.size ≡ suc (length (slots xs)) = is.queue.counted in ground arith

  -- The loop never faults and ends; it sweeps the levels as the rule on lists does, gives the slots of
  -- used-up orders back, and changes nothing outside the side.
  pub match_loop_lem :
      (s : Bool) (fuel total : ℕ) (m : Memory) (ls : PriceLevels) (rs : List Row) (free : List ℕ)
      → length ls < fuel
      → IsSide m ls rs
      → WellPlaced s rs
      → IsPool order_overlay m free
      → Returns
          (SideSwept m free (all_slots rs) (sweep beyond size rs total))
          (match_loop begin beyond fuel size ls total m)
  unfolding all_slots sweep
  match_loop_lem s zero total m ls rs free enough is w pool = absurd (omega arith)
  match_loop_lem s (suc fuel) total m [] [] free enough is w pool =
      rw (sweep, none_left fuel total m) (returns (refl, tt, pool, Frame-refl [] m))
  match_loop_lem s (suc fuel) total m [] (r ∷ rs) free enough is w pool = elim is [ ]
  match_loop_lem s (suc fuel) total m (l ∷ ls) [] free enough is w pool = elim is [ ]
  match_loop_lem s (suc fuel) total m ((p, q) ∷ ls) ((k, xs) ∷ rs) free enough is w pool =
      sweep_cases
        (λ r.
          Returns (SideSwept m free (slots xs ++ all_slots rs) r)
            (match_loop begin beyond (suc fuel) size ((p, q) ∷ ls) total m))
        beyond size k xs rs total
        (λ stop.
          rw (is.0, stopped fuel total k q ls m stop)
            (returns (refl, (refl, is.1, is.2), pool, Frame-refl (slots xs ++ all_slots rs) m)))
        (λ go near e.
          rw (is.0, step fuel total k q ls m go near)
            (Returns-bind (match_at_level_lem size total m q xs free small is.1 pool)
              λ a m1 (et, is1, pool1, frame1).
                let gone : empty a.0 ≡ true = empty-is_nil m1 a.0 _ is1 ∙ ap is_nil e in
                let rest = IsSide-Frame m m1 (slots xs) ls rs frame1 apart is.2 in
                rw (gone, erase-first k q ls new, et)
                  (Returns-mono
                    (match_loop_lem s fuel (match_row size xs total).total m1 ls rs
                      (release (match_row size xs total).closed free) (omega arith) rest w.3 pool1)
                    λ b m2 (et2, is2, pool2, frame2). (
                      et2,
                      is2,
                      rw (release-append (match_row size xs total).closed) pool2,
                      Frame-trans (slots xs) (all_slots rs) (slots xs ++ all_slots rs) frame1 frame2
                          both,
                    ))))
        (λ go near e.
          rw (is.0, step fuel total k q ls m go near)
            (Returns-bind (match_at_level_lem size total m q xs free small is.1 pool)
              λ a m1 (et, is1, pool1, frame1).
                let left : empty a.0 ≡ false = empty-is_nil m1 a.0 _ is1 ∙ e in
                let rest = IsSide-Frame m m1 (slots xs) ls rs frame1 apart is.2 in
                rw (left, put-first k q a.0 ls new)
                  (returns (
                    et,
                    (refl, is1, rest),
                    pool1,
                    Frame-mono (slots xs) (slots xs ++ all_slots rs) frame1 λ c h. (both c h).0,
                  ))))
    where
      new : has k (keys ls) ≡ false
      new = rw (keys-same m ls rs is.2) w.0

      apart : (a : ℕ) → has a (all_slots rs) ≡ true → has a (slots xs) ≡ false
      apart = level-apart m s s k xs ls rs (is.1).live w.2 is.2 w.3 (inl w.0)

      both :
          (a : ℕ)
          → has a (slots xs ++ all_slots rs) ≡ false
          → (has a (slots xs) ≡ false) × (has a (all_slots rs) ≡ false)
      both a h = ground (arith, has-append a (slots xs) (all_slots rs))
