-- ===== src/Zset/Add.antt =====
-- `zset::add` stores one score, and changes no other.
use coxx.Base.{
  ℕ, suc, ◌<◌, ◌≡◌, refl, sym, ap, ◌∙◌, subst, Bool, true, false, inl, inr, Option, none, some,
  arith, length,
}
use coxx.Base.Bytes.{Bytes, u32_mod}
use coxx.Base.Run.{Returns}
use coxx.Avl.{Tree}
use coxx.Avl.Shape.{in_order, size}
use coxx.Avl.Order.{occurrences}
use coxx.Zset.{Pairs, ZSet, added, add}
use coxx.Zset.Lex.{IsComparison, ArePairs}
use coxx.Zset.State.{IsZSet, scores, score_in, score_in-some, score_in-none}
use coxx.Zset.Look.{Answers, lookup-Answers}
use coxx.Zset.Update.{Stored, update-Stored}
use coxx.Zset.Create.{add_new-Stored}

-- Only the tree of the set from before counts.
Stored-tree :
    (number : ℕ → Bool) (equals is_below : ℕ → ℕ → Bool) (pairs : Pairs) (set set₁ : ZSet)
    (name : Bytes) (score : ℕ) (pairs' : Pairs) (set' : ZSet)
    → set₁.tree ≡ set.tree
    → Stored number equals is_below pairs set₁ name score pairs' set'
    → Stored number equals is_below pairs set name score pairs' set'
Stored-tree number equals is_below pairs set set₁ name score pairs' set' e s = record {
  zset = s.zset;
  are_pairs = s.are_pairs;
  stored = elim s.stored [
    | inl now ↦ inl now
    | inr (old, before, same, now) ↦ inr (old, sym (by_tree name) ∙ before, same, now)
  ];
  others = λ n h. s.others n h ∙ by_tree n;
  grows = s.grows;
  framed = λ b h absent. s.framed b h (ap (λ (t : Tree). occurrences b (in_order t)) e ∙ absent);
  within = λ b h. s.within b h ∙ ap (λ (t : Tree). occurrences b (in_order t)) e;
  room = omega (arith, s.room, ap (λ (t : Tree). size t) e);
}
  where
    by_tree : (n : Bytes) → scores pairs.pair set₁ n ≡ scores pairs.pair set n
    by_tree n = ap (λ (t : Tree). score_in pairs.pair (in_order t) n) e

-- Whether a name has no score.
abbrev pub is_missing : Option ℕ → Bool
is_missing none = true
is_missing (some s) = false

module _ (number : ℕ → Bool) (equals is_below : ℕ → ℕ → Bool)
    (law : IsComparison number equals is_below) (pairs : Pairs) (are : ArePairs number pairs.pair)
    (set : ZSet) (g : IsZSet equals is_below pairs.next pairs.pair set) (name : Bytes) (score : ℕ)
    (numeric : number score ≡ true) (room : suc (size set.tree) < u32_mod) where
  added-Stored :
      (answer : Option ℕ)
      → Answers pairs.pair name (in_order set.tree) answer
      → Returns (added equals is_below pairs set name (length name) score answer) λ r.
        Stored number equals is_below pairs set name score r.0 r.1
        × (r.2 ≡ is_missing (scores pairs.pair set name))
  unfolding added
  added-Stored none answers =
      let gone = answers.missed refl in
      let (r, run, s) =
        add_new-Stored number equals is_below law pairs are set g name score numeric room gone in
      (
        (r.0, r.1, true),
        rw run refl,
        (s, sym (ap is_missing (score_in-none pairs.pair (in_order set.tree) name gone))),
      )
  added-Stored (some a) answers =
      let (named, there) = answers.found a refl in
      let (r, run, s) =
        update-Stored number equals is_below law pairs are set g name score numeric room a named
          there in
      (
        (r.0, r.1, false),
        rw run refl,
        (
          s,
          sym (
              ap is_missing
                (score_in-some pairs.pair (in_order set.tree) name a there named (g.unique name))),
        ),
      )

module _ (number : ℕ → Bool) (equals is_below : ℕ → ℕ → Bool)
    (law : IsComparison number equals is_below) (pairs : Pairs) (are : ArePairs number pairs.pair)
    (set : ZSet) (g : IsZSet equals is_below pairs.next pairs.pair set) (name : Bytes) (score : ℕ)
    (numeric : number score ≡ true) (room : suc (size set.tree) < u32_mod) where
  pub add-Stored : Returns (add equals is_below pairs set name (length name) score) λ r.
      Stored number equals is_below pairs set name score r.0 r.1
      × (r.2 ≡ is_missing (scores pairs.pair set name))
  unfolding add
  add-Stored =
      let (r, run, (v, same, answers)) =
        lookup-Answers equals is_below pairs.next pairs.pair are.lengths set g name in
      let (r', run', (s, e)) =
        added-Stored number equals is_below law pairs are r.0 v name score numeric
          (omega (arith, room, ap (λ (t : Tree). size t) same)) r.1
          (subst (λ (t : Tree). Answers pairs.pair name (in_order t) r.1) (sym same) answers) in
      (
        r',
        rw run run',
        (
          Stored-tree number equals is_below pairs set r.0 name score r'.0 r'.1 same s,
          e ∙ ap (λ (t : Tree). is_missing (score_in pairs.pair (in_order t) name)) same,
        ),
      )
