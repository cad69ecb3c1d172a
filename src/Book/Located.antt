-- ===== src/Book/Located.antt =====
-- The level of a price in the map of levels, made by `operator[]` if it was not there, and the same
-- place in the rows.
use cpp_trading_exchange.Base.{
  ℕ, ◌<◌, ◌≡◌, sym, subst, refl, inl, inr, Bool-cases, true, false, List, [], ◌∷◌, ◌++◌, arith, ltb,
  ◌==◌, if◌then◌else◌, has,
}
use mathlib.Core.List.{append_assoc}
use cpp_trading_exchange.Queue.{IntrusiveQueue, empty_queue}
use cpp_trading_exchange.Order.Memory.{Memory}
use cpp_trading_exchange.Book.{PriceLevels}
use cpp_trading_exchange.Book.Levels.{touch}
use cpp_trading_exchange.Book.Rows.{Resting, slots}
use cpp_trading_exchange.Book.Level.{IsLevel}
use cpp_trading_exchange.Book.Sweep.{Row, all_slots}
use cpp_trading_exchange.Book.Side.{keys, IsSide, keys-same}
use cpp_trading_exchange.Book.Sorted.{Above, Ascending, Above-not_has}

-- An order comes to rest behind all others of its price; a level is made for it where there is none.
unfoldable pub rest_row : ℕ → Resting → List Row → List Row
rest_row k e [] = (k, e ∷ []) ∷ []
rest_row k e ((j, xs) ∷ rs) =
    if ltb k j
    then (k, e ∷ []) ∷ (j, xs) ∷ rs
    else (if j == k then (j, xs ++ e ∷ []) ∷ rs else (j, xs) ∷ rest_row k e rs)

-- The level of price `k` once `operator[]` has seen to it.
pub record Located (m : Memory) (k : ℕ) (ls : PriceLevels) (rs : List Row) : Type 0 where
  pub lower : PriceLevels
  pub level : IntrusiveQueue
  pub upper : PriceLevels
  pub below : List Row
  pub orders : List Resting
  pub above : List Row
  pub lower_side : IsSide m lower below
  pub holds : IsLevel m level orders
  pub upper_side : IsSide m upper above
  pub touched : touch k empty_queue ls ≡ lower ++ (k, level) ∷ upper
  pub rested : (e : Resting) → rest_row k e rs ≡ below ++ (k, orders ++ e ∷ []) ∷ above
  pub not_lower : has k (keys lower) ≡ false
  pub not_upper : has k (keys upper) ≡ false
  pub all : all_slots rs ≡ all_slots below ++ (slots orders ++ all_slots above)

empty-IsLevel : (m : Memory) → IsLevel m empty_queue []
empty-IsLevel m = record {
  queue = record {
    chain = tt;
    distinct = tt;
    head_first = refl;
    tail_last = refl;
    counted = refl;
    fits = omega arith;
  };
  live = tt;
}

Above-mono : (k j : ℕ) (ks : List ℕ) → k < j → Above j ks → Above k ks
Above-mono k j [] h a = tt
Above-mono k j (i ∷ ks) h a = (omega arith, Above-mono k j ks h a.1)

pub locate :
    (m : Memory) (k : ℕ) (ls : PriceLevels) (rs : List Row)
    → IsSide m ls rs
    → Ascending (keys rs)
    → Located m k ls rs
unfolding touch rest_row all_slots
locate m k [] [] is a = record {
  lower = [];
  level = empty_queue;
  upper = [];
  below = [];
  orders = [];
  above = [];
  lower_side = tt;
  holds = empty-IsLevel m;
  upper_side = tt;
  touched = refl;
  rested = λ e. refl;
  not_lower = refl;
  not_upper = refl;
  all = refl;
}
locate m k [] (r ∷ rs) is a = elim is [ ]
locate m k (l ∷ ls) [] is a = elim is [ ]
locate m k ((p, q) ∷ ls) ((j, xs) ∷ rs) is a = elim (Bool-cases (ltb k j)) [
  | inl before ↦ record {
    lower = [];
    level = empty_queue;
    upper = (p, q) ∷ ls;
    below = [];
    orders = [];
    above = (j, xs) ∷ rs;
    lower_side = tt;
    holds = empty-IsLevel m;
    upper_side = is;
    touched = rw (is.0, before);
    rested = λ e. rw before;
    not_lower = refl;
    not_upper =
        subst (λ ks. has k ks ≡ false) (sym (keys-same m ((p, q) ∷ ls) ((j, xs) ∷ rs) is))
          (Above-not_has k (j ∷ keys rs)
            (ground arith, Above-mono k j (keys rs) (ground arith) a.0));
    all = refl;
  }
  | inr not_before ↦ elim (Bool-cases (j == k)) [
    | inl hit ↦ record {
      lower = [];
      level = q;
      upper = ls;
      below = [];
      orders = xs;
      above = rs;
      lower_side = tt;
      holds = is.1;
      upper_side = is.2;
      touched = rw (is.0, not_before, hit) (same_key hit q ls);
      rested = λ e. rw (not_before, hit) (same_key hit (xs ++ e ∷ []) rs);
      not_lower = refl;
      not_upper =
          subst (λ ks. has k ks ≡ false) (sym (keys-same m ls rs is.2))
            (key_above hit (Above-not_has j (keys rs) a.0));
      all = refl;
    }
    | inr miss ↦
        let rest = locate m k ls rs is.2 a.1 in
        record {
          lower = (p, q) ∷ rest.lower;
          level = rest.level;
          upper = rest.upper;
          below = (j, xs) ∷ rest.below;
          orders = rest.orders;
          above = rest.above;
          lower_side = (is.0, is.1, rest.lower_side);
          holds = rest.holds;
          upper_side = rest.upper_side;
          touched = rw (is.0, not_before, miss, rest.touched);
          rested = λ e. rw (not_before, miss, rest.rested e);
          not_lower = ground (arith, is.0, rest.not_lower);
          not_upper = rest.not_upper;
          all = rw (rest.all) (sym (append_assoc (slots xs) (all_slots rest.below) _));
        }
  ]
]
  where
    same_key :
        {V : Type 0} → (j == k) ≡ true → (v : V) (vs : List (ℕ × V)) → ((j, v) ∷ vs) ≡ ((k, v) ∷ vs)
    same_key h v vs = let e : j ≡ k = ground arith in rw e

    key_above : (j == k) ≡ true → has j (keys rs) ≡ false → has k (keys rs) ≡ false
    key_above h g = let e : j ≡ k = ground arith in rw (← e) g
