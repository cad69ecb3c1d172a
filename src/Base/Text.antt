-- ===== src/Base/Text.antt =====
-- Texts, and their division into lines.
use cpp_trading_exchange.Base.{
  ◌≡◌, ◌∙◌, ap, refl, Bool, Bool-cases, inl, inr, true, false, not, ◌&&◌, arith, List, [], ◌∷◌,
  ◌++◌, map, ◌==◌, if◌then◌else◌,
}
use Prim.Native.Char.{Char, code}
use Prim.Native.String.{String, ◌++◌ as join}
use Prim.Native.String.append

-- The texts written to a stream one after the other.
abbrev pub concat : List String → String
concat [] = ""
concat (s ∷ ss) = join s (concat ss)

abbrev pub is_newline : Char → Bool
is_newline c = code c == 10

-- `c` in front of the first line.
abbrev pub on_first : Char → List String → List String
on_first c [] = String.◌∷◌ c String.[] ∷ []
on_first c (l ∷ ls) = String.◌∷◌ c l ∷ ls

-- The lines of a text, each without its end; a text that ends with one has no further line.
unfoldable pub lines : String → List String
lines String.[] = []
lines (String.◌∷◌ c s) = let rest = lines s in if is_newline c then "" ∷ rest else on_first c rest

-- No line ends in the text.
abbrev pub Single : String → Type 0
Single String.[] = Unit
Single (String.◌∷◌ c s) = (is_newline c ≡ false) × Single s

pub Single-join : (s t : String) → Single s → Single t → Single (join s t)
Single-join String.[] t p q = rw (append.nil t) q
Single-join (String.◌∷◌ c s) t (h, p) q = rw (append.cons c s t) (h, Single-join s t p q)

abbrev pub AllSingle : List String → Type 0
AllSingle [] = Unit
AllSingle (s ∷ ss) = Single s × AllSingle ss

pub Single-concat : (ss : List String) → AllSingle ss → Single (concat ss)
Single-concat [] p = tt
Single-concat (s ∷ ss) (p, q) = Single-join s (concat ss) p (Single-concat ss q)

abbrev newline : Char
newline = "\n"

lines-newline : (rest : String) → lines (join "\n" rest) ≡ "" ∷ lines rest
unfolding lines
lines-newline rest = rw (append.cons newline "" rest, append.nil rest) refl

-- A text with no end of line, then an end of line: the first line.
pub lines-Single : (l rest : String) → Single l → lines (join l (join "\n" rest)) ≡ l ∷ lines rest
unfolding lines
lines-Single String.[] rest p = rw (append.nil (join "\n" rest)) (lines-newline rest)
lines-Single (String.◌∷◌ c l) rest (h, p) =
    rw (append.cons c l (join "\n" rest), lines, h, lines-Single l rest p) refl

append_assoc : (s t u : String) → join (join s t) u ≡ join s (join t u)
append_assoc String.[] t u = rw (append.nil t, append.nil (join t u)) refl
append_assoc (String.◌∷◌ c s) t u =
    rw
      (
        append.cons c s t,
        append.cons c (join s t) u,
        append.cons c s (join t u),
        append_assoc s t u,
      )
      refl

-- A line and its end.
abbrev pub end_line : String → String
end_line l = join l "\n"

-- A text written line by line has these lines.
pub lines-concat : (ls : List String) → AllSingle ls → lines (concat (map end_line ls)) ≡ ls
unfolding lines
lines-concat [] p = refl
lines-concat (l ∷ ls) (p, q) =
    append-lines ∙ lines-Single l (concat (map end_line ls)) p ∙ ap (◌∷◌ l) (lines-concat ls q)
  where
    append-lines :
        lines (join (join l "\n") (concat (map end_line ls)))
        ≡ lines (join l (join "\n" (concat (map end_line ls))))
    append-lines = ap lines (append_assoc l "\n" (concat (map end_line ls)))

pub AllSingle-append : (ss ts : List String) → AllSingle ss → AllSingle ts → AllSingle (ss ++ ts)
AllSingle-append [] ts p q = q
AllSingle-append (s ∷ ss) ts (p, ps) q = (p, AllSingle-append ss ts ps q)

pub AllSingle-map :
    {A : Type 0} (f : A → String) (xs : List A) → ((x : A) → Single (f x)) → AllSingle (map f xs)
AllSingle-map f [] h = tt
AllSingle-map f (x ∷ xs) h = (h x, AllSingle-map f xs h)

abbrev pub is_single : String → Bool
is_single String.[] = true
is_single (String.◌∷◌ c s) = not (is_newline c) && is_single s

-- For a given text, a test tells.
pub Single-test : (s : String) → is_single s ≡ true → Single s
Single-test String.[] h = tt
Single-test (String.◌∷◌ c s) h = elim (Bool-cases (is_newline c)) [
  | inl e ↦ absurd (ground (arith, e, h))
  | inr e ↦ (e, Single-test s (ground (arith, e, h)))
]
