-- ===== src/Zset/Change.antt =====
-- One pair that is stored: what stays of the order and of the scores.
use coxx.Base.{
  ℕ, ◌+◌, ◌<◌, ◌≤◌, ◌≡◌, ◌≢◌, refl, sym, ap, ◌∙◌, subst, Bool, true, false, Bool-cases, inl, inr,
  some, List, [], ◌∷◌, arith, All, length, ◌==◌,
}
use coxx.Base.Bytes.{Bytes}
use coxx.Map.Slots.{to_nat}
use coxx.Avl.Order.{occurrences}
use coxx.Zset.{ZNode, map_cmp, set_pair, less, less_node}
use coxx.Zset.Lex.{ArePairs}
use coxx.Zset.Place.{Sorted}
use coxx.Zset.Tally.{tally, tally-agree, tally-occurrences, All-at}
use coxx.Zset.State.{is_named, is_named-other, score_in, score_in-none, score_in-some, tally-cases}

pub set_pair_same : (pair : ℕ → ZNode) (a : ℕ) (z : ZNode) → set_pair pair a z a ≡ z
set_pair_same pair a z = let test : (a == a) ≡ true = ground arith in rw test refl

pub set_pair_other :
    (pair : ℕ → ZNode) (a : ℕ) (z : ZNode) (b : ℕ) → b ≢ a → set_pair pair a z b ≡ pair b
set_pair_other pair a z b n = let test : (b == a) ≡ false = ground arith in rw test refl

pub set_pair-ArePairs :
    (number : ℕ → Bool) (pair : ℕ → ZNode) (a : ℕ) (z : ZNode)
    → ArePairs number pair
    → number z.score ≡ true
    → z.len ≡ length z.name
    → ArePairs number (set_pair pair a z)
set_pair-ArePairs number pair a z g n e = record {
  numbers = λ b. elim (Bool-cases (b == a)) [ inl e' ↦ rw e' n | inr e' ↦ rw e' (g.numbers b) ];
  lengths = λ b. elim (Bool-cases (b == a)) [ inl e' ↦ rw e' e | inr e' ↦ rw e' (g.lengths b) ];
}

pub is_named-same :
    (pair pair' : ℕ → ZNode) (name : Bytes) (b : ℕ)
    → (pair' b).len ≡ (pair b).len
    → (pair' b).name ≡ (pair b).name
    → is_named pair' name b ≡ is_named pair name b
unfolding map_cmp
is_named-same pair pair' name b e e' = rw (e, e') refl

less_node-same :
    (equals is_below : ℕ → ℕ → Bool) (pair pair' : ℕ → ZNode) (x y : ℕ)
    → pair' x ≡ pair x
    → pair' y ≡ pair y
    → less_node equals is_below pair' x y ≡ less_node equals is_below pair x y
unfolding less
less_node-same equals is_below pair pair' x y e e' = rw (e, e') refl

-- Pairs that are as before are in the same order.
pub Sorted-same :
    (equals is_below : ℕ → ℕ → Bool) (pair pair' : ℕ → ZNode) (xs : List ℕ)
    → All (λ (x : ℕ). pair' x ≡ pair x) xs
    → Sorted (less_node equals is_below pair) xs
    → Sorted (less_node equals is_below pair') xs
Sorted-same equals is_below pair pair' [] same s = tt
Sorted-same equals is_below pair pair' (x ∷ xs) (e, same) (h, s) =
    (moved xs same h, Sorted-same equals is_below pair pair' xs same s)
  where
    moved :
        (ys : List ℕ)
        → All (λ (y : ℕ). pair' y ≡ pair y) ys
        → All (λ (y : ℕ). less_node equals is_below pair y x ≡ false) ys
        → All (λ (y : ℕ). less_node equals is_below pair' y x ≡ false) ys
    moved [] same h = tt
    moved (y ∷ ys) (e', same) (h, hs) =
        (less_node-same equals is_below pair pair' y x e' e ∙ h, moved ys same hs)

-- The pair at `a` was stored under `name`, and any other pair is as before.
pub record Changed (pair pair' : ℕ → ZNode) (a : ℕ) (name : Bytes) (xs xs' : List ℕ) : Type 0 where
  pub lengths : (b : ℕ) → (pair' b).len ≡ length (pair' b).name
  pub kept : (b : ℕ) → b ≢ a → pair' b ≡ pair b
  pub agree : (n : Bytes) → All (λ (b : ℕ). is_named pair' n b ≡ is_named pair n b) xs
  pub named : is_named pair' name a ≡ true
  pub there : 0 < occurrences a xs'
  pub at_least : (q : ℕ → Bool) → tally q xs ≤ tally q xs'
  pub at_most : (q : ℕ → Bool) → tally q xs' ≤ tally q xs + to_nat (q a)
  pub unique : (n : Bytes) → tally (is_named pair' n) xs' ≤ 1

module _ (pair pair' : ℕ → ZNode) (a : ℕ) (name : Bytes) (xs xs' : List ℕ)
    (c : Changed pair pair' a name xs xs') where
  pub score_of_changed : score_in pair' xs' name ≡ some (pair' a).score
  score_of_changed = score_in-some pair' xs' name a c.there c.named (c.unique name)

  -- The scores of the other names are as before.
  pub score_of_others :
      (unique : (n : Bytes) → tally (is_named pair n) xs ≤ 1) (n : Bytes)
      → n ≢ name
      → score_in pair' xs' n ≡ score_in pair xs n
  score_of_others unique n differs = elim (tally-cases (is_named pair n) xs) [
    | inl nobody ↦
        let elsewhere : is_named pair' n a ≡ false =
          not_both (is_named pair' n a)
            λ e. differs (is_named-other pair' c.lengths n name a e c.named) in
        score_in-none pair' xs' n (
          omega (
            arith,
            c.at_most (is_named pair' n),
            tally-agree (is_named pair' n) (is_named pair n) xs (c.agree n),
            ap to_nat elsewhere,
          ))
        ∙ sym (score_in-none pair xs n nobody)
    | inr (b, there, e) ↦
        let e' : is_named pair' n b ≡ true =
          All-at (λ (x : ℕ). is_named pair' n x ≡ is_named pair n x) b xs there (c.agree n) ∙ e in
        let other : b ≢ a = λ same. differs (
          is_named-other pair' c.lengths n name a
            (subst (λ (x : ℕ). is_named pair' n x ≡ true) same e') c.named) in
        score_in-some pair' xs' n b
          (omega (
            arith,
            c.at_least (λ (x : ℕ). x == b),
            tally-occurrences b xs,
            tally-occurrences b xs',
          ))
          e' (c.unique n)
        ∙ (ap (λ (z : ZNode). some z.score) (c.kept b other)
            ∙ sym (score_in-some pair xs n b there e (unique n)))
  ]
    where
      not_both : (b : Bool) → (b ≡ true → ⊥) → b ≡ false
      not_both true h = absurd (h refl)
      not_both false h = refl
