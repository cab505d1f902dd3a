-- ===== src/Command/Texts.antt =====
-- `set`
use coxx.Base.{
  ℕ, ◌+◌, ◌<◌, ◌≡◌, refl, sym, ap, ◌∙◌, Bool, Option, none, some, List, arith, get_elem?,
}
use coxx.Base.Bytes.{Bytes}
use coxx.Base.Run.{◌>>=◌, Returns}
use coxx.Map.{Map}
use coxx.Map.Tables.{any}
use coxx.Map.Moved.{bag, max_nodes}
use coxx.Zset.{Pairs, ZSet}
use coxx.Entry.{Entry, str_type}
use coxx.Serialize
use coxx.Command.{Database, set_value, set}
use coxx.Command.State.{
  View, view_of, view, IsEntry, text, sorted, IsDatabase, Rewritten, rewritten_from, view-Unbound,
  view-Binds,
}
use coxx.Command.Find.{Found, find_entry-Found}
use coxx.Command.Insert.{new_entry-Created, set_entry_same}
use coxx.Command.Replace.{Swapped, replaced-Rewritten}

-- The text of a key, with the scores that it has.
abbrev pub with_text : Bytes → Option View → View
with_text val none = record { val = val; scores = none }
with_text val (some v) = record v { val = val }

same_pairs : (pairs : Pairs) (s : Option ZSet) → Swapped pairs s pairs s
same_pairs pairs s = record {
  grows = omega arith;
  framed = λ p h out. refl;
  within = λ s' e p h there. (s', e, there);
}

module _ (number : ℕ → Bool) (equals is_below : ℕ → ℕ → Bool) (state : Database)
    (g : IsDatabase number equals is_below state) (key val : Bytes)
    (room : bag state.db any + 1 < max_nodes) where
  set_value-Rewritten :
      (m : Map ℕ) (answer : Option ℕ)
      → Found number equals is_below state key m answer
      → Returns
          (set_value (record state { db = m }) key val answer)
          (Rewritten number equals is_below state key (some (with_text val (view state key))))
  unfolding set_value
  set_value-Rewritten m none f =
      let e : Entry = record { key = key; type = str_type; val = val; set = none } in
      let gone = f.missed refl in
      let (m', run, c) =
        new_entry-Created number equals is_below (record state { db = m }) f.database e gone
          (text refl refl) (λ s h p. cc) (omega (arith, room, f.keeps any)) in
      (
        _,
        rw run refl,
        record {
          database = c.database;
          value_now =
              view-Binds _ key (c.database.once key) state.next c.binds
              ∙ (ap (λ (x : Entry). some (view_of state.pairs x))
                    (set_entry_same state.entry state.next e)
                  ∙ ap (λ (o : Option View). some (with_text val o))
                      (sym (sym (f.views key) ∙ view-Unbound (record state { db = m }) key gone)));
          others = λ k differs. c.others k differs ∙ f.views k;
        },
      )
  set_value-Rewritten m (some a) f =
      let state₁ = record state { db = m } in
      let e : Entry = record (state.entry a) { val = val } in
      let b = f.found a refl in
      let known : view state key ≡ some (view_of state.pairs (state.entry a)) =
        sym (f.views key) ∙ view-Binds state₁ key (f.database.once key) a b in
      let w =
        replaced-Rewritten number equals is_below state₁ f.database key a b e refl state.pairs
          f.database.are_pairs (of_sort (f.database.entries a b.held))
          (same_pairs state.pairs (state.entry a).set) in
      (
        _,
        refl,
        rewritten_from number equals is_below state state₁ key _ _ f.views (record {
          database = w.database;
          value_now = w.value_now ∙ ap (λ (o : Option View). some (with_text val o)) (sym known);
          others = w.others;
        }),
      )
    where
      of_sort :
          {e : Entry}
          → IsEntry equals is_below state.pairs e
          → IsEntry equals is_below state.pairs (record e { val = val })
      of_sort (text t n) = text t n
      of_sort (sorted s t es v) = sorted s t es v

module _ (number : ℕ → Bool) (equals is_below : ℕ → ℕ → Bool) (state : Database)
    (g : IsDatabase number equals is_below state) (key val : Bytes)
    (room : bag state.db any + 1 < max_nodes) (commands : List Bytes) (output : Bytes)
    (second : get_elem? commands 1 ≡ some key) (third : get_elem? commands 2 ≡ some val) where
  pub set-Rewritten : Returns (set state commands output) λ r.
      Rewritten number equals is_below state key (some (with_text val (view state key))) r.0
      × (r.1 ≡ Serialize.nil output)
  unfolding set
  set-Rewritten =
      let (m, answer, run, f) = find_entry-Found number equals is_below state g key in
      let (after, run', w) =
        set_value-Rewritten number equals is_below state g key val room m answer f in
      (
        (after, Serialize.nil output),
        rw (second, ◌>>=◌, run, ◌>>=◌, third, ◌>>=◌, run') refl,
        (w, refl),
      )
