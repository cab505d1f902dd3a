-- ===== src/Command/Sets.antt =====
-- `expectZSet`, `zscore` and `zrem`.

use coxx.Base.{
  ℕ, ◌<◌, ◌≡◌, refl, sym, ap, ◌∙◌, subst, Bool, false, inl, inr, Bool-cases, Option, none, some,
  arith, ◌==◌,
}
use coxx.Base.Bytes.{Bytes}
use coxx.Base.Run.{ok, ◌>>=◌}
use coxx.Map.{Node, Map}
use coxx.Avl.Shape.{in_order}
use coxx.Avl.Order.{occurrences}
use coxx.Zset.{ZSet}
use coxx.Zset.State.{IsZSet, scores}
use coxx.Entry.{zset_type, same_text}
use coxx.Serialize
use coxx.Command.{
  Database, find_entry, expected, expect_zset, put_set, is_found, type_error, expect_zset_text,
}
use coxx.Command.Keyed.{same_text-eq, same_text_refl}
use coxx.Command.State.{
  View, view_of, scores_of, view, Holds, text, sorted, IsDatabase, Rewritten, Binds, view-Unbound,
  view-Binds,
}
use coxx.Command.Find.{Found, find_entry-Found, Kept}
use coxx.Command.Replace.{replaced-Rewritten}

-- What `expectZSet` comes to: a reply because the key is not there or has no sorted set, or the entry.
pub data Expected (equals is_below : ℕ → ℕ → Bool) (state : Database) (key output : Bytes)
    (m : Map ℕ) : Type 0 where
  missing :
      expect_zset state output key ≡ ok (record state { db = m }, Serialize.nil output, none)
      → view state key ≡ none
      → Expected equals is_below state key output m
  mistyped :
      (v : View)
      → expect_zset state output key
        ≡ ok (record state { db = m }, Serialize.err output type_error expect_zset_text, none)
      → view state key ≡ some v
      → v.scores ≡ none
      → Expected equals is_below state key output m
  is_sorted :
      (a : ℕ) (s : ZSet)
      → expect_zset state output key ≡ ok (record state { db = m }, output, some a)
      → Binds (record state { db = m }) key a
      → Holds state.db a
      → (state.entry a).type ≡ zset_type
      → (state.entry a).set ≡ some s
      → IsZSet equals is_below state.pairs.next state.pairs.pair s
      → view state key
        ≡ some (record { val = (state.entry a).val; scores = some (scores state.pairs.pair s) })
      → Expected equals is_below state key output m

module _ (number : ℕ → Bool) (equals is_below : ℕ → ℕ → Bool) (state : Database)
    (g : IsDatabase number equals is_below state) (key output : Bytes) where
  after_find :
      (m : Map ℕ) (answer : Option ℕ)
      → find_entry state key ≡ ok (record state { db = m }, answer)
      → Found number equals is_below state key m answer
      → Expected equals is_below state key output m
  unfolding expect_zset expected
  after_find m none run f =
      missing (rw run refl)
        (sym (f.views key) ∙ view-Unbound (record state { db = m }) key (f.missed refl))
  after_find m (some a) run f =
      let b = f.found a refl in
      let known : view state key ≡ some (view_of state.pairs (state.entry a)) =
        sym (f.views key) ∙ view-Binds (record state { db = m }) key (f.database.once key) a b in
      elim (f.database.entries a b.held) [
        | text t n ↦
            mistyped (view_of state.pairs (state.entry a)) (rw (run, ◌>>=◌, t) refl) known
              (ap (scores_of state.pairs) n)
        | sorted s t es v ↦
            is_sorted a s (rw (run, ◌>>=◌, t) refl) b
              (omega (arith, b.held, f.keeps (λ (n : Node ℕ). n.item == a))) t es v
              (known
                ∙ ap
                    (λ (o : Option (Bytes → Option ℕ)).
                      some (record { val = (state.entry a).val; scores = o }))
                    (ap (scores_of state.pairs) es))
      ]

  pub expect_zset-Expected :
      (m : Map ℕ) × IsDatabase number equals is_below (record state { db = m })
      × ((k : Bytes) → view (record state { db = m }) k ≡ view state k)
      × Expected equals is_below state key output m
  expect_zset-Expected =
      let (m, answer, run, f) = find_entry-Found number equals is_below state g key in
      (m, f.database, f.views, after_find m answer run f)

-- A set with no new pairs in place of the old one.
module _ (number : ℕ → Bool) (equals is_below : ℕ → ℕ → Bool) (state : Database)
    (g : IsDatabase number equals is_below state) (key : Bytes) (a : ℕ) (b : Binds state key a)
    (s s' : ZSet) (t : (state.entry a).type ≡ zset_type) (es : (state.entry a).set ≡ some s)
    (v : IsZSet equals is_below state.pairs.next state.pairs.pair s')
    (fewer : (p : ℕ)
      → 0 < occurrences p (in_order s'.tree)
      → 0 < occurrences p (in_order s.tree)) where
  pub put_set-Rewritten :
      Rewritten number equals is_below state key
        (some (record { val = (state.entry a).val; scores = some (scores state.pairs.pair s') }))
        (put_set state a s')
  put_set-Rewritten =
      replaced-Rewritten number equals is_below state g key a b
        (record (state.entry a) { set = some s' }) refl state.pairs g.are_pairs (sorted s' t refl v)
        (record {
          grows = omega arith;
          framed = λ p h out. refl;
          within = λ z e p h there.
              let same : s' ≡ z = cc in
              (
                s,
                es,
                fewer p
                    (subst (λ (y : ZSet). 0 < occurrences p (in_order y.tree)) (sym same) there),
              );
        })

-- Data in which only a key was written, and that with the value it had.
pub Rewritten-Kept :
    (number : ℕ → Bool) (equals is_below : ℕ → ℕ → Bool) (state : Database) (key : Bytes)
    (state' : Database)
    → Rewritten number equals is_below state key (view state key) state'
    → Kept number equals is_below state state'
Rewritten-Kept number equals is_below state key state' w = record {
  database = w.database;
  views = λ k. elim (Bool-cases (same_text k key)) [
    | inl e ↦
        let same : k ≡ key = same_text-eq k key e in
        ap (view state') same ∙ (w.value_now ∙ ap (view state) (sym same))
    | inr e ↦ w.others k λ i. differ e i
  ];
}
  where
    differ : {k : Bytes} → same_text k key ≡ false → k ≡ key → ⊥
    differ e i = let yes_same = ap (λ (x : Bytes). same_text x key) i ∙ same_text_refl key in cc

-- What `zscore` replies.
abbrev pub value_reply : Bytes → Option ℕ → Bytes
value_reply output none = Serialize.nil output
value_reply output (some score) = Serialize.dbl output score

-- What `zrem` replies.
abbrev pub count_reply : Bytes → Option ℕ → Bytes
count_reply output o = Serialize.num output (is_found o)

abbrev pub in_scores : Bytes → (Option ℕ → Bytes) → Option (Bytes → Option ℕ) → Bytes → Bytes
in_scores output reply none name = Serialize.err output type_error expect_zset_text
in_scores output reply (some f) name = reply (f name)

-- The reply of a command on a sorted set: nil without the key, an error for another type, and
-- otherwise what is made of the name's score.
abbrev pub set_reply : Bytes → (Option ℕ → Bytes) → Option View → Bytes → Bytes
set_reply output reply none name = Serialize.nil output
set_reply output reply (some v) name = in_scores output reply v.scores name
