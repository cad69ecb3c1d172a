-- ===== src/Book/Resting.antt =====
-- The cancellation of an order of project/order_book.cpp that rests, by its slot.
use cpp_trading_exchange.Base.{
  ℕ, ◌≡◌, ap, refl, subst, inl, inr, Bool-cases, true, false, some, List, [], ◌∷◌, ◌++◌, arith,
  ◌==◌, has, has-append, ◌+◌, length,
}
use cpp_trading_exchange.Base.Cmd.{Returns, Returns-mono}
use cpp_trading_exchange.Order.{Order}
use cpp_trading_exchange.Book.{OrderBook, cancel_order}
use cpp_trading_exchange.Book.Rows.{Resting, slots}
use cpp_trading_exchange.Book.Sweep.{Row, all_slots}
use cpp_trading_exchange.Book.Match.{IsBook}
use cpp_trading_exchange.Book.RestRow.{slots-append}
use cpp_trading_exchange.Book.Split.{level_row, length-level_row, has-level, has-level_row}
use cpp_trading_exchange.Book.Cancel.{cancel_order_lem}
use cpp_trading_exchange.Book.Alive.{AtLevel}

-- The place of an order in a row.
record InRow (a : ℕ) (zs : List Resting) : Type 0 where
  order : Order
  front : List Resting
  back : List Resting
  whole : zs ≡ front ++ (a, order) ∷ back

in_row : (a : ℕ) (zs : List Resting) → has a (slots zs) ≡ true → InRow a zs
in_row a [] h = absurd (cc)
in_row a ((i, o) ∷ zs) h = elim (Bool-cases (a == i)) [
  | inl hit ↦ record {
    order = o;
    front = [];
    back = zs;
    whole = ap (λ j. (j, o) ∷ zs) (ground arith);
  }
  | inr miss ↦
      let at = in_row a zs (rw miss at h) in
      record {
        order = at.order;
        front = (i, o) ∷ at.front;
        back = at.back;
        whole = ap (◌∷◌ (i, o)) at.whole;
      }
]

-- The place of an order in the rows of a side.
record InRows (a : ℕ) (rs : List Row) : Type 0 where
  price : ℕ
  below : List Row
  row : List Resting
  above : List Row
  at : InRow a row
  whole : rs ≡ below ++ (price, row) ∷ above

in_rows : (a : ℕ) (rs : List Row) → has a (all_slots rs) ≡ true → InRows a rs
unfolding all_slots
in_rows a [] h = absurd (cc)
in_rows a ((k, zs) ∷ rs) h = elim (Bool-cases (has a (slots zs))) [
  | inl hit ↦ record {
    price = k;
    below = [];
    row = zs;
    above = rs;
    at = in_row a zs hit;
    whole = refl;
  }
  | inr miss ↦
      let later = in_rows a rs (ground (arith, has-append a (slots zs) (all_slots rs))) in
      record {
        price = later.price;
        below = (k, zs) ∷ later.below;
        row = later.row;
        above = later.above;
        at = later.at;
        whole = ap (◌∷◌ (k, zs)) later.whole;
      }
]

-- The others stay when one order leaves its level.
has-left :
    (a i k : ℕ) (o : Order) (below : List Row) (xs ys : List Resting) (above : List Row)
    → (a == i) ≡ false
    → has a (all_slots (below ++ (level_row k (xs ++ ys) ++ above)))
      ≡ has a (all_slots (below ++ (k, xs ++ (i, o) ∷ ys) ∷ above))
has-left a i k o below xs ys above other = ground (
  arith,
  has-level a k below (xs ++ (i, o) ∷ ys) above,
  has-level_row a k below (xs ++ ys) above,
  slots-append xs ys,
  slots-append xs ((i, o) ∷ ys),
  has-append a (slots xs) (slots ys),
  has-append a (slots xs) (i ∷ slots ys),
)

-- How many orders rest in the book.
abbrev pub resting_count : List Row → List Row → ℕ
resting_count bids asks = length (all_slots bids) + length (all_slots asks)

-- What is left of a book when the order at a slot has been cancelled.
abbrev pub Struck : OrderBook → List Row → List Row → List ℕ → ℕ → Type 0
Struck b bids asks free k =
    (bids' : List Row) × (asks' : List Row) × IsBook b bids' asks' (k ∷ free)
    × ((a : ℕ) → (a == k) ≡ false → AtLevel a bids asks → AtLevel a bids' asks')
    × (resting_count bids' asks' + 1 ≡ resting_count bids asks)

pub cancel_order-Struck :
    (b : OrderBook) (bids asks : List Row) (free : List ℕ) (k : ℕ)
    → IsBook b bids asks free
    → AtLevel k bids asks
    → Returns (λ _ b'. Struck b' bids asks free k) (cancel_order (some k) b)
cancel_order-Struck b bids asks free k is (inl h) =
    let at = in_rows k bids h in
    let o = (at.at).order in
    let xs = (at.at).front in
    let ys = (at.at).back in
    let whole : bids ≡ at.below ++ (at.price, xs ++ (k, o) ∷ ys) ∷ at.above =
      cc (at.whole, (at.at).whole) in
    Returns-mono
      (cancel_order_lem true b asks free at.price k o at.below xs ys at.above
        (subst (λ rs. IsBook b rs asks free) whole is))
      λ _ b' (book, _). (
        _,
        asks,
        book,
        λ a other p. elim p [
          | inl hit ↦ inl (
              ground (
                arith,
                has-left a k at.price o at.below xs ys at.above other,
                ap (λ rs. has a (all_slots rs)) whole,
                hit,
              ))
          | inr hit ↦ inr hit
        ],
        omega (
          arith,
          length-level_row at.price at.below xs k o ys at.above,
          ap (λ rs. length (all_slots rs)) whole,
        ),
      )
cancel_order-Struck b bids asks free k is (inr h) =
    let at = in_rows k asks h in
    let o = (at.at).order in
    let xs = (at.at).front in
    let ys = (at.at).back in
    let whole : asks ≡ at.below ++ (at.price, xs ++ (k, o) ∷ ys) ∷ at.above =
      cc (at.whole, (at.at).whole) in
    Returns-mono
      (cancel_order_lem false b bids free at.price k o at.below xs ys at.above
        (subst (λ rs. IsBook b bids rs free) whole is))
      λ _ b' (book, _). (
        bids,
        _,
        book,
        λ a other p. elim p [
          | inl hit ↦ inl hit
          | inr hit ↦ inr (
              ground (
                arith,
                has-left a k at.price o at.below xs ys at.above other,
                ap (λ rs. has a (all_slots rs)) whole,
                hit,
              ))
        ],
        omega (
          arith,
          length-level_row at.price at.below xs k o ys at.above,
          ap (λ rs. length (all_slots rs)) whole,
        ),
      )
