-- ===== src/Command/Keyed.antt =====
-- The entries of a map, by their keys.
use coxx.Base.{
  ℕ, ◌+◌, ◌<◌, ◌≤◌, ◌≡◌, refl, ap, ◌∙◌, Bool, true, false, Bool-cases, inl, inr, Option, none, some,
  List, [], ◌∷◌, ◌++◌, if◌then◌else◌, arith, ◌==◌,
}
use coxx.Base.Bytes.{Bytes}
use coxx.Map.{Node, Chain, Map}
use coxx.Map.Slots.{to_nat, count, count_all}
use coxx.Map.Moved.{bag}
use coxx.Avl.Order.{occurrences}
use coxx.Zset.Tally.{tally, tally_pos}
use coxx.Entry.{same_text}
use coxx.Entry.Keys.{nodes}

pub same_text_refl : (xs : Bytes) → same_text xs xs ≡ true
unfolding same_text
same_text_refl [] = refl
same_text_refl (a ∷ xs) = ground (arith, same_text_refl xs)

pub same_text-eq : (xs ys : Bytes) → same_text xs ys ≡ true → xs ≡ ys
unfolding same_text
same_text-eq [] [] e = refl
same_text-eq [] (b ∷ ys) e = cc
same_text-eq (a ∷ xs) [] e = cc
same_text-eq (a ∷ xs) (b ∷ ys) e = elim (Bool-cases (a == b)) [
  | inl e' ↦
      let same : a ≡ b = ground (arith, e') in
      rw (same, same_text-eq xs ys (rest (a == b) e' e)) refl
  | inr e' ↦ cc
]
  where
    rest :
        (b : Bool)
        → b ≡ true
        → (if b then same_text xs ys else false) ≡ true
        → same_text xs ys ≡ true
    rest true h e = e
    rest false h e = cc

-- The addresses that the nodes of a map hold.
unfoldable pub items : Chain ℕ → List ℕ
items [] = []
items (n ∷ c) = n.item ∷ items c

tally-items : (q : ℕ → Bool) (c : Chain ℕ) → tally q (items c) ≡ count (λ (n : Node ℕ). q n.item) c
unfolding tally items count
tally-items q [] = refl
tally-items q (n ∷ c) = omega (arith, tally-items q c)

count-append : (p : Node ℕ → Bool) (c c' : Chain ℕ) → count p (c ++ c') ≡ count p c + count p c'
unfolding count
count-append p [] c' = omega arith
count-append p (n ∷ c) c' = omega (arith, count-append p c c')

count-nodes :
    (p : Node ℕ → Bool) (slots : List (Chain ℕ)) → count p (nodes slots) ≡ count_all p slots
unfolding count count_all nodes
count-nodes p [] = refl
count-nodes p (c ∷ slots) = omega (arith, count-append p c (nodes slots), count-nodes p slots)

-- All addresses of a map, in no order that matters.
abbrev pub addresses : Map ℕ → List ℕ
addresses m = items (nodes m.table1.slots ++ nodes m.table2.slots)

pub tally-addresses :
    (q : ℕ → Bool) (m : Map ℕ) → tally q (addresses m) ≡ bag m (λ (n : Node ℕ). q n.item)
tally-addresses q m = omega (
  arith,
  tally-items q (nodes m.table1.slots ++ nodes m.table2.slots),
  count-append (λ (n : Node ℕ). q n.item) (nodes m.table1.slots) (nodes m.table2.slots),
  count-nodes (λ (n : Node ℕ). q n.item) m.table1.slots,
  count-nodes (λ (n : Node ℕ). q n.item) m.table2.slots,
)

unfoldable pub find_first : (ℕ → Bool) → List ℕ → Option ℕ
find_first q [] = none
find_first q (x ∷ xs) = if q x then some x else find_first q xs

pub find_first-none : (q : ℕ → Bool) (xs : List ℕ) → tally q xs ≡ 0 → find_first q xs ≡ none
unfolding find_first tally
find_first-none q [] e = refl
find_first-none q (x ∷ xs) e =
    let test : q x ≡ false = not_counted (q x) (omega arith) in
    rw test (find_first-none q xs (omega arith))
  where
    not_counted : (b : Bool) → to_nat b ≡ 0 → b ≡ false
    not_counted true h = absurd (omega arith)
    not_counted false h = refl

-- The only address that passes a test is the first.
pub find_first-some :
    (q : ℕ → Bool) (xs : List ℕ) (a : ℕ)
    → 0 < occurrences a xs
    → q a ≡ true
    → tally q xs ≤ 1
    → find_first q xs ≡ some a
unfolding find_first tally occurrences
find_first-some q [] a h e few = absurd (omega arith)
find_first-some q (x ∷ xs) a h e few = elim (Bool-cases (x == a)) [
  | inl e' ↦
      let same : x ≡ a = ground (arith, e') in
      let hit : q x ≡ true = ap q same ∙ e in rw hit (ap some same)
  | inr e' ↦
      let behind : 0 < occurrences a xs = ground (arith, e') in
      let miss : q x ≡ false = not_counted (q x) (omega (arith, tally_pos q a xs behind e)) in
      rw miss (find_first-some q xs a behind e (omega arith))
]
  where
    not_counted : (b : Bool) → to_nat b < 1 → b ≡ false
    not_counted true h = absurd (omega arith)
    not_counted false h = refl
