-- ===== src/Command/Drop.antt =====
-- `del`
use coxx.Base.{
  ℕ, ◌+◌, ◌≡◌, ◌≢◌, refl, sym, ap, ◌∙◌, Bool, true, false, Option, none, some, List, arith, ◌==◌,
  get_elem?,
}
use coxx.Base.Bytes.{Bytes}
use coxx.Base.Run.{◌>>=◌, Returns}
use coxx.Map.{Node, Map, matches}
use coxx.Map.Slots.{to_nat}
use coxx.Map.Moved.{bag, IsMap}
use coxx.Map.Methods.{Popped, c_map_pop_lem}
use coxx.Zset.{string_hash}
use coxx.Entry.{entry_equality}
use coxx.Serialize
use coxx.Command.{Database, del, is_found}
use coxx.Command.Keyed.{same_text-eq}
use coxx.Command.State.{
  view, Holds, IsDatabase, Rewritten, Binds, Unbound, view-Unbound, view-Binds, view-same,
  equality_of,
}
use coxx.Command.Find.{and_right, by_code, fewer-IsDatabase, kept-view}

module _ (number : ℕ → Bool) (equals is_below : ℕ → ℕ → Bool) (state : Database)
    (g : IsDatabase number equals is_below state) (key : Bytes) (commands : List Bytes)
    (output : Bytes) (second : get_elem? commands 1 ≡ some key) where
  -- The map gave away one entry.
  module _ (n : Node ℕ) (m : Map ℕ) (v : IsMap m)
      (less : (q : Node ℕ → Bool) → bag m q + to_nat (q n) ≡ bag state.db q)
      (named : (state.entry n.item).key ≡ key) where
    dropped-Unbound : Unbound (record state { db = m }) key
    dropped-Unbound = omega (
      arith,
      less (λ (n : Node ℕ). entry_equality state.entry key n.item),
      ap to_nat (equality_of state.entry key n.item named),
      g.once key,
    )

    dropped-others : (k : Bytes) → k ≢ key → view (record state { db = m }) k ≡ view state k
    dropped-others k differs =
        let test = λ (n : Node ℕ). entry_equality state.entry k n.item in
        view-same state (record state { db = m }) k (g.once k) (omega (arith, g.once k, less test))
          (λ e. omega (arith, e, less test))
          λ a b. (record { held = still_held a b; named = b.named }, refl)
      where
        still_held : (a : ℕ) → Binds state k a → Holds m a
        still_held a b =
            let other : (n.item == a) ≡ false = apart a λ same.
              differs (sym b.named ∙ (ap (λ (x : ℕ). (state.entry x).key) (sym same) ∙ named)) in
            omega (arith, b.held, less (λ (k : Node ℕ). k.item == a), ap to_nat other)
          where
            apart : (a : ℕ) → (n.item ≡ a → ⊥) → (n.item == a) ≡ false
            apart a h = ground (arith, h)

  del-reply :
      (m : Map ℕ) (answer : Option (Node ℕ))
      → Popped state.db (matches (string_hash key) (entry_equality state.entry key)) (m, answer)
      → Rewritten number equals is_below state key none (record state { db = m })
        × (is_found answer ≡ is_found (view state key))
  del-reply m none p =
      let (missed, keeps) = p.missed refl in
      let gone : Unbound state key =
        omega (arith, missed, by_code number equals is_below state g key) in
      let nothing = view-Unbound state key gone in
      (
        record {
          database =
              fewer-IsDatabase number equals is_below state g m p.map λ q. omega (arith, keeps q);
          value_now = kept-view number equals is_below state g m keeps key ∙ nothing;
          others = λ k differs. kept-view number equals is_below state g m keeps k;
        },
        ap is_found (sym nothing),
      )
  del-reply m (some n) p =
      let (hit, less) = p.found n refl in
      let named =
        same_text-eq (state.entry n.item).key key
          (and_right (n.code == string_hash key) (entry_equality state.entry key n.item) hit) in
      (
        record {
          database =
              fewer-IsDatabase number equals is_below state g m p.map λ q. omega (arith, less q);
          value_now =
              view-Unbound (record state { db = m }) key (dropped-Unbound n m p.map less named);
          others = dropped-others n m p.map less named;
        },
        sym (
            ap is_found (
              view-Binds state key (g.once key) n.item
                (record { held = was_held n less; named = named }))),
      )
    where
      was_held :
          (n : Node ℕ)
          → ((q : Node ℕ → Bool) → bag m q + to_nat (q n) ≡ bag state.db q)
          → Holds state.db n.item
      was_held n less =
          let self : (n.item == n.item) ≡ true = ground arith in
          omega (arith, less (λ (k : Node ℕ). k.item == n.item), ap to_nat self)

  pub del-Rewritten : Returns (del state commands output) λ r.
      Rewritten number equals is_below state key none r.0
      × (r.1 ≡ Serialize.num output (is_found (view state key)))
  unfolding del
  del-Rewritten =
      let (r, run, p) =
        c_map_pop_lem state.db g.map (string_hash key) (entry_equality state.entry key) in
      let (dropped, e) = del-reply r.0 r.1 p in
      (
        (record state { db = r.0 }, Serialize.num output (is_found r.1)),
        rw (second, ◌>>=◌, run) refl,
        (dropped, ap (Serialize.num output) e),
      )
