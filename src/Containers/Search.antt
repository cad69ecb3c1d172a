-- ===== src/Containers/Search.antt =====
-- `std::lower_bound` on a sorted vector finds what it promises, and the lookup the value of a key.
use cpp_trading_exchange.Base.{
  ℕ, zero, suc, ◌+◌, ◌-◌, ◌*◌, ◌/◌, ◌≤◌, ◌<◌, ◌≡◌, ap, refl, true, some, List, [], ◌∷◌, inl, inr,
  map, subst, ◌∙◌, arith, ltb, leb, ◌==◌, Bool-cases, length, get_elem?, get_elem?-lt,
  get_elem?-some, has,
}
use mathlib.Core.List.{Permᴰ}
use mathlib.Core.List.Permᴰ
use cpp_trading_exchange.Containers.{
  Entry, lower_bound_loop, lower_bound, vector_value, insert_entry, sort_by_key,
}

-- In ascending order of keys.
abbrev pub IsSorted : List Entry → Type 0
IsSorted vec =
    (i j : ℕ) (x y : Entry)
    → i ≤ j
    → get_elem? vec i ≡ some x
    → get_elem? vec j ≡ some y
    → x.key ≤ y.key

-- `i` parts the vector: the keys before it are below `k`, the others are not.
record Parts (vec : List Entry) (k i : ℕ) : Type 0 where
  pub inside : i ≤ length vec
  pub before : (j : ℕ) (e : Entry) → j < i → get_elem? vec j ≡ some e → e.key < k
  pub after : (j : ℕ) (e : Entry) → i ≤ j → get_elem? vec j ≡ some e → k ≤ e.key

module _ (vec : List Entry) (k : ℕ) (sorted : IsSorted vec) where
  lower_bound_loop_lem :
      (fuel first len : ℕ)
      → len ≤ fuel
      → first + len ≤ length vec
      → ((j : ℕ) (e : Entry) → j < first → get_elem? vec j ≡ some e → e.key < k)
      → ((j : ℕ) (e : Entry) → first + len ≤ j → get_elem? vec j ≡ some e → k ≤ e.key)
      → (i : ℕ) × (lower_bound_loop fuel first len k vec ≡ some i) × Parts vec k i
  unfolding lower_bound_loop
  lower_bound_loop_lem zero first len h inside before after = (
    first,
    refl,
    record {
      inside = omega arith;
      before = before;
      after = λ j e low. after j e (omega (arith, h, low));
    },
  )
  lower_bound_loop_lem (suc fuel) first zero h inside before after = (
    first,
    refl,
    record {
      inside = omega arith;
      before = before;
      after = λ j e low. after j e (omega (arith, low));
    },
  )
  lower_bound_loop_lem (suc fuel) first (suc rest) h inside before after =
      let half = suc rest / 2 in
      let (e, at) = get_elem?-some vec (first + half) (omega (arith, inside)) in
      elim (Bool-cases (ltb e.key k)) [
        | inl low ↦
            rw (lower_bound_loop, at, low)
              (lower_bound_loop_lem fuel (first + half + 1) (suc rest - half - 1) (omega (arith, h))
                (omega (arith, inside))
                (λ j x lt in_vec.
                  let below = sorted j (first + half) x e (omega (arith, lt)) in_vec at in
                  ground (arith, below, low))
                λ j x le. after j x (omega (arith, le)))
        | inr high ↦
            rw (lower_bound_loop, at, high)
              (lower_bound_loop_lem fuel first half (omega (arith, h)) (omega (arith, inside))
                before
                λ j x le in_vec.
                  let above = sorted (first + half) j e x (omega (arith, le)) at in_vec in
                  ground (arith, above, high))
      ]

  -- On a vector in ascending order of keys, with keys that repeat or not, `lower_bound` reads nothing
  -- out of range, ends, and returns a place with all keys before it below `k` and none from it on.
  lower_bound_lem : (i : ℕ) × (lower_bound vec k ≡ some i) × Parts vec k i
  unfolding lower_bound
  lower_bound_lem =
      lower_bound_loop_lem (length vec) 0 (length vec) (omega arith) (omega arith)
        (λ j e lt. absurd (omega (arith, lt)))
        λ j e le in_vec. absurd (omega (arith, le, get_elem?-lt vec j in_vec))

abbrev pub AtLeast : ℕ → List Entry → Type 0
AtLeast a [] = Unit
AtLeast a (e ∷ es) = (a ≤ e.key) × AtLeast a es

abbrev pub Ascending : List Entry → Type 0
Ascending [] = Unit
Ascending (e ∷ es) = AtLeast e.key es × Ascending es

AtLeast-mono : (a c : ℕ) (es : List Entry) → a ≤ c → AtLeast c es → AtLeast a es
AtLeast-mono a c [] h p = tt
AtLeast-mono a c (e ∷ es) h p = (omega (arith, h, p.0), AtLeast-mono a c es h p.1)

insert_entry-AtLeast :
    (a : ℕ) (e : Entry) (es : List Entry) → a ≤ e.key → AtLeast a es → AtLeast a (insert_entry e es)
unfolding insert_entry
insert_entry-AtLeast a e [] h p = (h, tt)
insert_entry-AtLeast a e (x ∷ es) h p = elim (Bool-cases (leb e.key x.key)) [
  | inl first ↦ rw first (h, p)
  | inr later ↦ rw later (p.0, insert_entry-AtLeast a e es h p.1)
]

insert_entry-Ascending :
    (e : Entry) (es : List Entry) → Ascending es → Ascending (insert_entry e es)
unfolding insert_entry
insert_entry-Ascending e [] p = (tt, tt)
insert_entry-Ascending e (x ∷ es) p = elim (Bool-cases (leb e.key x.key)) [
  | inl first ↦
      let low : e.key ≤ x.key = ground arith in
      rw first ((low, AtLeast-mono e.key x.key es low p.0), p)
  | inr later ↦
      rw later (insert_entry-AtLeast x.key e es (ground arith) p.0, insert_entry-Ascending e es p.1)
]

sort_by_key-Ascending : (es : List Entry) → Ascending (sort_by_key es)
unfolding sort_by_key
sort_by_key-Ascending [] = tt
sort_by_key-Ascending (e ∷ es) =
    insert_entry-Ascending e (sort_by_key es) (sort_by_key-Ascending es)

AtLeast-get_elem? :
    (a : ℕ) (es : List Entry) (i : ℕ) (e : Entry)
    → AtLeast a es
    → get_elem? es i ≡ some e
    → a ≤ e.key
AtLeast-get_elem? a [] i e p h = cc
AtLeast-get_elem? a (x ∷ es) zero e p h =
    let same : x ≡ e = ground arith in subst (λ y. a ≤ y.key) same p.0
AtLeast-get_elem? a (x ∷ es) (suc i) e p h = AtLeast-get_elem? a es i e p.1 h

Ascending-IsSorted : (es : List Entry) → Ascending es → IsSorted es
Ascending-IsSorted [] p i j x y le at_i at_j = cc
Ascending-IsSorted (e ∷ es) p zero zero x y le at_i at_j =
    let same : x ≡ y = ground arith in subst (λ z. x.key ≤ z.key) same (omega arith)
Ascending-IsSorted (e ∷ es) p zero (suc j) x y le at_i at_j =
    let same : e ≡ x = ground arith in
    subst (λ z. z.key ≤ y.key) same (AtLeast-get_elem? e.key es j y p.0 at_j)
Ascending-IsSorted (e ∷ es) p (suc i) zero x y le at_i at_j = absurd (omega (arith, le))
Ascending-IsSorted (e ∷ es) p (suc i) (suc j) x y le at_i at_j =
    Ascending-IsSorted es p.1 i j x y (omega (arith, le)) at_i at_j

-- The entries that the benchmark stores: a key and its double.
abbrev pub entry : ℕ → Entry
entry k = record { key = k; value = k * 2 }

-- How sorting rearranges keys.
insert_key :
    (k : ℕ) (ks : List ℕ)
    → (js : List ℕ) × (insert_entry (entry k) (map entry ks) ≡ map entry js) × Permᴰ (k ∷ ks) js
unfolding insert_entry
insert_key k [] = (k ∷ [], refl, Permᴰ.refl _)
insert_key k (x ∷ ks) = elim (Bool-cases (leb k x)) [
  | inl first ↦ (k ∷ x ∷ ks, rw first, Permᴰ.refl _)
  | inr later ↦
      let (js, e, d) = insert_key k ks in
      (x ∷ js, rw (later, e), Permᴰ.trans (Permᴰ.swap refl refl) (Permᴰ.cons refl d))
]

-- Sorting the entries of some keys gives those of the same keys in another order, in ascending order.
pub sort_by_key_lem :
    (ks : List ℕ)
    → (js : List ℕ) × (sort_by_key (map entry ks) ≡ map entry js)
      × Permᴰ ks js
      × IsSorted (map entry js)
unfolding sort_by_key
sort_by_key_lem ks =
    let (js, e, d) = permuted ks in
    (js, e, d, subst IsSorted e (Ascending-IsSorted _ (sort_by_key-Ascending (map entry ks))))
  where
    permuted :
        (ks : List ℕ) → (js : List ℕ) × (sort_by_key (map entry ks) ≡ map entry js) × Permᴰ ks js
    permuted [] = ([], refl, Permᴰ.nil)
    permuted (k ∷ ks) =
        let (js, e, d) = permuted ks in
        let (is, e', d') = insert_key k js in
        (is, ap (insert_entry (entry k)) e ∙ e', Permᴰ.trans (Permᴰ.cons refl d) d')

has-entry :
    (k : ℕ) (ks : List ℕ)
    → has k ks ≡ true
    → (j : ℕ) × (get_elem? (map entry ks) j ≡ some (entry k))
has-entry k [] h = cc
has-entry k (x ∷ ks) h = elim (Bool-cases (k == x)) [
  | inl hit ↦ (zero, ap (λ z. some (entry z)) (ground arith))
  | inr miss ↦ let (j, at) = has-entry k ks (rw miss at h) in (suc j, at)
]

get_elem?-entry :
    (ks : List ℕ) (i : ℕ) (e : Entry) → get_elem? (map entry ks) i ≡ some e → e ≡ entry e.key
get_elem?-entry [] i e h = cc
get_elem?-entry (k ∷ ks) zero e h =
    let same : entry k ≡ e = ground arith in subst (λ z. z ≡ entry z.key) same refl
get_elem?-entry (k ∷ ks) (suc i) e h = get_elem?-entry ks i e h

-- The lookup of a key that is in the sorted vector finds its double.
pub vector_value_lem :
    (ks : List ℕ) (k : ℕ)
    → IsSorted (map entry ks)
    → has k ks ≡ true
    → vector_value (map entry ks) k ≡ some (k * 2)
unfolding vector_value
vector_value_lem ks k sorted h =
    let vec = map entry ks in
    let (i, found, parts) = lower_bound_lem vec k sorted in
    let (j, at_j) = has-entry k ks h in
    let not_before : i ≤ j = elim (Bool-cases (leb i j)) [
      | inl le ↦ ground arith
      | inr gt ↦ absurd (omega (arith, parts.before j (entry k) (ground arith) at_j))
    ] in
    let (e, at_i) = get_elem?-some vec i (omega (arith, not_before, get_elem?-lt vec j at_j)) in
    let low = sorted i j e (entry k) not_before at_i at_j in
    let high = parts.after i e (omega arith) at_i in
    let same : e.key ≡ k = omega (arith, low, high) in
    rw (vector_value, found, at_i)
      (ap some (ap (λ z. z.value) (get_elem?-entry ks i e at_i) ∙ ap (λ z. z * 2) same))
