-- ===== src/Command/Replace.antt =====
-- An entry with another value under the same key.
use std.Path.{fun_ext}
use coxx.Base.{
  ℕ, zero, suc, ◌<◌, ◌≤◌, ◌≡◌, ◌≢◌, refl, sym, ap, ◌∙◌, subst, Bool, false, not, Bool-cases, ◌⊎◌,
  inl, inr, Option, none, some, arith, ◌==◌,
}
use coxx.Base.Bytes.{Bytes}
use coxx.Map.{Node}
use coxx.Map.Moved.{bag}
use coxx.Avl.Shape.{in_order}
use coxx.Avl.Order.{occurrences}
use coxx.Zset.{Pairs, ZSet, string_hash}
use coxx.Zset.Lex.{ArePairs}
use coxx.Zset.Tally.{All-at}
use coxx.Zset.State.{IsZSet}
use coxx.Entry.{Entry, same_text}
use coxx.Command.{Database, set_entry}
use coxx.Command.State.{
  view_of, scores_of, Holds, IsEntry, text, sorted, IsDatabase, Rewritten, Binds, view-Binds,
  view-same,
}
use coxx.Command.Insert.{set_entry_same, set_entry_other}
use coxx.Command.Framed.{scores_same, framed-IsZSet}

same_or_not : (x a : ℕ) → (x ≡ a) ⊎ (x ≢ a)
same_or_not x a = elim (Bool-cases (x == a)) [
  | inl e ↦ inl (ground (arith, e))
  | inr e ↦ inr (λ i. distinct e i)
]
  where
    distinct : (x == a) ≡ false → x ≡ a → ⊥
    distinct e i = ground (arith, e, i)

-- The pairs that change were of the old set, and the new set has no other old pairs.
pub record Swapped (pairs : Pairs) (old : Option ZSet) (pairs' : Pairs) (new : Option ZSet)
    : Type 0 where
  pub grows : pairs.next ≤ pairs'.next
  pub framed :
      (p : ℕ)
      → p < pairs.next
      → ((s : ZSet) → old ≡ some s → occurrences p (in_order s.tree) ≡ 0)
      → pairs'.pair p ≡ pairs.pair p
  pub within :
      (s' : ZSet)
      → new ≡ some s'
      → (p : ℕ) → p < pairs.next
      → 0 < occurrences p (in_order s'.tree)
      → (s : ZSet) × (old ≡ some s) × (0 < occurrences p (in_order s.tree))

module _ (number : ℕ → Bool) (equals is_below : ℕ → ℕ → Bool) (state : Database)
    (g : IsDatabase number equals is_below state) (key : Bytes) (a : ℕ) (b : Binds state key a)
    (e : Entry) (same_key : e.key ≡ (state.entry a).key) (pairs' : Pairs)
    (are : ArePairs number pairs'.pair) (sort : IsEntry equals is_below pairs' e)
    (swap : Swapped state.pairs (state.entry a).set pairs' e.set) where
  abbrev entry' : ℕ → Entry
  entry' = set_entry state.entry a e

  abbrev state' : Database
  state' = record state { entry = entry'; pairs = pairs' }

  keys_same : (x : ℕ) → (entry' x).key ≡ (state.entry x).key
  keys_same x = elim (same_or_not x a) [
    | inl here ↦
        ap (λ (y : ℕ). (entry' y).key) here
        ∙ (ap (λ (y : Entry). y.key) (set_entry_same state.entry a e)
            ∙ (same_key ∙ ap (λ (y : ℕ). (state.entry y).key) (sym here)))
    | inr other ↦ ap (λ (y : Entry). y.key) (set_entry_other state.entry a e x other)
  ]

  test_same :
      (f : Node ℕ → Bytes → Bool)
      → bag state.db (λ (n : Node ℕ). f n (entry' n.item).key)
        ≡ bag state.db (λ (n : Node ℕ). f n (state.entry n.item).key)
  test_same f =
      ap (λ (k : ℕ → Bytes). bag state.db (λ (n : Node ℕ). f n (k n.item))) (fun_ext keys_same)

  -- The pairs of another entry's set are not touched.
  untouched :
      (x : ℕ)
      → Holds state.db x
      → x ≢ a
      → (s : ZSet) → (state.entry x).set ≡ some s
      → IsZSet equals is_below state.pairs.next state.pairs.pair s
      → (p : ℕ) → 0 < occurrences p (in_order s.tree)
      → pairs'.pair p ≡ state.pairs.pair p
  untouched x h other s es v p there =
      swap.framed p (All-at (λ (y : ℕ). y < state.pairs.next) p (in_order s.tree) there v.owned)
        λ s' es'. g.apart x a h b.held other s s' es es' p there

  other-IsEntry :
      (x : ℕ)
      → Holds state.db x
      → x ≢ a
      → IsEntry equals is_below pairs' (state.entry x)
        × (view_of pairs' (state.entry x) ≡ view_of state.pairs (state.entry x))
  other-IsEntry x h other = elim (g.entries x h) [
    | text t n ↦ (
      text t n,
      ap (λ (o : Option (Bytes → Option ℕ)). record { val = (state.entry x).val; scores = o })
          (ap (scores_of pairs') n ∙ sym (ap (scores_of state.pairs) n)),
    )
    | sorted s t es v ↦ (
      sorted s t es (
          framed-IsZSet equals is_below state.pairs pairs' s swap.grows (untouched x h other s es v)
            v),
      ap (λ (o : Option (Bytes → Option ℕ)). record { val = (state.entry x).val; scores = o })
          (ap (scores_of pairs') es
            ∙ (ap some (
                  scores_same equals is_below state.pairs pairs' s swap.grows
                    (untouched x h other s es v))
                ∙ sym (ap (scores_of state.pairs) es))),
    )
  ]

  -- The new set and the set of another entry have no pair in common.
  apart_now :
      (x : ℕ)
      → Holds state.db x
      → x ≢ a
      → (s s' : ZSet) → e.set ≡ some s
      → (state.entry x).set ≡ some s'
      → (p : ℕ) → 0 < occurrences p (in_order s.tree)
      → 0 < occurrences p (in_order s'.tree)
      → ⊥
  apart_now x h other s s' es es' p there there' = elim (g.entries x h) [
    | text t n ↦ no_set n es'
    | sorted z t ez v ↦
        let same : z ≡ s' = injective (sym ez ∙ es') in
        let old =
          All-at (λ (y : ℕ). y < state.pairs.next) p (in_order z.tree)
            (subst (λ (y : ZSet). 0 < occurrences p (in_order y.tree)) (sym same) there') v.owned in
        let (s₀, e₀, there₀) = swap.within s es p old there in
        clash (occurrences p (in_order s'.tree)) there'
          (g.apart a x b.held h (λ i. other (sym i)) s₀ s' e₀ es' p there₀)
  ]
    where
      no_set : {o : Option ZSet} → o ≡ none → o ≡ some s' → ⊥
      no_set n h = cc

      injective : {x y : ZSet} → some x ≡ some y → x ≡ y
      injective h = cc

      clash : (n : ℕ) → 0 < n → n ≡ 0 → ⊥
      clash n h e = omega (arith, h, e)

  new_set_of : (s : ZSet) (x : ℕ) → x ≡ a → (entry' x).set ≡ some s → e.set ≡ some s
  new_set_of s x here es =
      ap (λ (y : Entry). y.set) (sym (set_entry_same state.entry a e))
      ∙ (ap (λ (y : ℕ). (entry' y).set) (sym here) ∙ es)

  old_set_of : (s : ZSet) (x : ℕ) → x ≢ a → (entry' x).set ≡ some s → (state.entry x).set ≡ some s
  old_set_of s x other es =
      ap (λ (y : Entry). y.set) (sym (set_entry_other state.entry a e x other)) ∙ es

  replaced-apart :
      (x y : ℕ)
      → Holds state.db x
      → Holds state.db y
      → x ≢ y
      → (s s' : ZSet) → (entry' x).set ≡ some s
      → (entry' y).set ≡ some s'
      → (p : ℕ) → 0 < occurrences p (in_order s.tree)
      → occurrences p (in_order s'.tree) ≡ 0
  replaced-apart x y h k differ s s' es es' p there = elim (same_or_not x a) [
    | inl here ↦
        let not_a : y ≢ a = λ i. differ (here ∙ sym i) in
        never (occurrences p (in_order s'.tree))
          (apart_now y k not_a s s' (new_set_of s x here es) (old_set_of s' y not_a es') p there)
    | inr other ↦ elim (same_or_not y a) [
      | inl here ↦ never (occurrences p (in_order s'.tree)) λ there'.
          apart_now x h other s' s (new_set_of s' y here es') (old_set_of s x other es) p there'
            there
      | inr other' ↦
          g.apart x y h k differ s s' (old_set_of s x other es) (old_set_of s' y other' es') p there
    ]
  ]
    where
      never : (n : ℕ) → (0 < n → ⊥) → n ≡ 0
      never zero h = refl
      never (suc n) h = absurd (h (omega arith))

  replaced-IsDatabase : IsDatabase number equals is_below state'
  replaced-IsDatabase = record {
    map = g.map;
    codes = test_same (λ (n : Node ℕ) (k : Bytes). not (n.code == string_hash k)) ∙ g.codes;
    owned = g.owned;
    once = λ k. omega (arith, g.once k, test_same (λ (n : Node ℕ) (x : Bytes). same_text x k));
    entries = λ x h. elim (same_or_not x a) [
      | inl here ↦
          subst (IsEntry equals is_below pairs')
            (sym (ap entry' here ∙ set_entry_same state.entry a e)) sort
      | inr other ↦
          subst (IsEntry equals is_below pairs') (sym (set_entry_other state.entry a e x other))
            (other-IsEntry x h other).0
    ];
    are_pairs = are;
    apart = replaced-apart;
  }

  pub replaced-Rewritten :
      Rewritten number equals is_below state key (some (view_of pairs' e)) state'
  replaced-Rewritten = record {
    database = replaced-IsDatabase;
    value_now =
        view-Binds state' key (replaced-IsDatabase.once key) a
          (record { held = b.held; named = keys_same a ∙ b.named })
        ∙ ap (λ (y : Entry). some (view_of pairs' y)) (set_entry_same state.entry a e);
    others = λ k differs.
        view-same state state' k (g.once k) (replaced-IsDatabase.once k)
          (λ nothing. test_same (λ (n : Node ℕ) (x : Bytes). same_text x k) ∙ nothing)
          λ x c.
            let other : x ≢ a =
              λ i. differs (sym c.named ∙ (ap (λ (y : ℕ). (state.entry y).key) i ∙ b.named)) in
            (
              record { held = c.held; named = keys_same x ∙ c.named },
              ap (view_of pairs') (set_entry_other state.entry a e x other)
                  ∙ (other-IsEntry x c.held other).1,
            );
  }
