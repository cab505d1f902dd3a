-- ===== src/Command/Insert.antt =====
-- A new entry in the map.
use coxx.Base.{
  ℕ, zero, suc, ◌+◌, ◌<◌, ◌≤◌, ◌≡◌, ◌≢◌, refl, sym, ap, ◌∙◌, subst, Bool, true, false, not,
  Bool-cases, ◌⊎◌, inl, inr, some, arith, ◌==◌,
}
use coxx.Base.Bytes.{Bytes}
use coxx.Base.Run.{ok}
use coxx.Map.{Node, Map}
use coxx.Map.Slots.{to_nat}
use coxx.Map.Tables.{any}
use coxx.Map.Moved.{bag, IsMap, max_nodes}
use coxx.Map.Insert.{c_map_insert_lem}
use coxx.Avl.Shape.{in_order}
use coxx.Avl.Order.{occurrences}
use coxx.Zset.{string_hash, ZSet}
use coxx.Zset.Tally.{bag-cover}
use coxx.Entry.{Entry, same_text, entry_equality}
use coxx.Command.{Database, new_entry, set_entry}
use coxx.Command.Keyed.{same_text-eq}
use coxx.Command.State.{view_of, view, Holds, IsEntry, IsDatabase, Binds, Unbound, view-same}

pub set_entry_same : (entry : ℕ → Entry) (a : ℕ) (e : Entry) → set_entry entry a e a ≡ e
set_entry_same entry a e = let test : (a == a) ≡ true = ground arith in rw test refl

pub set_entry_other :
    (entry : ℕ → Entry) (a : ℕ) (e : Entry) (b : ℕ) → b ≢ a → set_entry entry a e b ≡ entry b
set_entry_other entry a e b n = let test : (b == a) ≡ false = ground arith in rw test refl

-- The new entry has its value, and every other key has what it had.
pub record Created (number : ℕ → Bool) (equals is_below : ℕ → ℕ → Bool) (state : Database)
    (e : Entry) (m : Map ℕ) : Type 0 where
  pub database :
      IsDatabase number equals is_below
        (record state { db = m; next = suc state.next; entry = set_entry state.entry state.next e })
  pub binds :
      Binds
        (record state { db = m; next = suc state.next; entry = set_entry state.entry state.next e })
        e.key
        state.next
  pub others :
      (k : Bytes)
      → k ≢ e.key
      → view
          (record state {
            db = m;
            next = suc state.next;
            entry = set_entry state.entry state.next e;
          })
          k
        ≡ view state k

module _ (number : ℕ → Bool) (equals is_below : ℕ → ℕ → Bool) (state : Database)
    (g : IsDatabase number equals is_below state) (e : Entry) (nobody : Unbound state e.key)
    (sort : IsEntry equals is_below state.pairs e)
    (fresh : (s : ZSet) → e.set ≡ some s → (p : ℕ) → occurrences p (in_order s.tree) ≡ 0) where
  abbrev entry' : ℕ → Entry
  entry' = set_entry state.entry state.next e

  no_next : bag state.db (λ (n : Node ℕ). n.item == state.next) ≡ 0
  no_next =
      none_held (bag state.db (λ (n : Node ℕ). n.item == state.next))
        λ h. omega (arith, g.owned state.next h)
    where
      none_held : (n : ℕ) → (0 < n → ⊥) → n ≡ 0
      none_held zero h = refl
      none_held (suc n) h = absurd (h (omega arith))

  -- A test of the old entries gives the same as before.
  old_entries :
      (f : Node ℕ → Entry → Bool)
      → bag state.db (λ (n : Node ℕ). f n (entry' n.item))
        ≤ bag state.db (λ (n : Node ℕ). f n (state.entry n.item))
  old_entries f = omega (
    arith,
    no_next,
    bag-cover (λ (n : Node ℕ). f n (entry' n.item)) (λ (n : Node ℕ). f n (state.entry n.item))
        (λ (n : Node ℕ). n.item == state.next) cover state.db,
  )
    where
      to_nat_le : (b : Bool) → to_nat b ≤ 1
      to_nat_le true = omega arith
      to_nat_le false = omega arith

      cover :
          (n : Node ℕ)
          → to_nat (f n (entry' n.item))
            ≤ to_nat (f n (state.entry n.item)) + to_nat (n.item == state.next)
      cover n = elim (Bool-cases (n.item == state.next)) [
        | inl here ↦ omega (arith, ap to_nat here, to_nat_le (f n (entry' n.item)))
        | inr other ↦ omega (
          arith,
          ap (λ (x : Entry). to_nat (f n x))
              (set_entry_other state.entry state.next e n.item (ground (arith, other))),
        )
      ]

  module _ (m : Map ℕ) (v : IsMap m)
      (more : (q : Node ℕ → Bool)
        → bag m q
          ≡ bag state.db q
            + to_nat (q (record { code = string_hash e.key; item = state.next }))) where
    abbrev state' : Database
    state' = record state { db = m; next = suc state.next; entry = entry' }

    -- What the map has is the new entry or an old one.
    held-cases : (a : ℕ) → Holds m a → (a ≡ state.next) ⊎ (Holds state.db a × (a ≢ state.next))
    held-cases a h = elim (Bool-cases (state.next == a)) [
      | inl here ↦ inl (ground (arith, here))
      | inr other ↦ inr (
        omega (arith, h, more (λ (n : Node ℕ). n.item == a), ap to_nat other),
        λ same. distinct other same,
      )
    ]
      where
        distinct : {a : ℕ} → (state.next == a) ≡ false → a ≡ state.next → ⊥
        distinct other same = ground (arith, other, same)

    created_codes : bag m (λ (n : Node ℕ). not (n.code == string_hash (entry' n.item).key)) ≡ 0
    created_codes = omega (
      arith,
      more (λ (n : Node ℕ). not (n.code == string_hash (entry' n.item).key)),
      ap (λ (x : Entry). to_nat (not (string_hash e.key == string_hash x.key)))
          (set_entry_same state.entry state.next e),
      itself (string_hash e.key),
      old_entries (λ (n : Node ℕ) (x : Entry). not (n.code == string_hash x.key)),
      g.codes,
    )
      where
        itself : (a : ℕ) → to_nat (not (a == a)) ≡ 0
        itself a = ground arith

    created_once : (k : Bytes) → bag m (λ (n : Node ℕ). entry_equality entry' k n.item) ≤ 1
    created_once k = elim (Bool-cases (entry_equality entry' k state.next)) [
      | inl here ↦
          let same : e.key ≡ k =
            ap (λ (x : Entry). x.key) (sym (set_entry_same state.entry state.next e))
            ∙ same_text-eq (entry' state.next).key k here in
          omega (
            arith,
            more (λ (n : Node ℕ). entry_equality entry' k n.item),
            ap to_nat here,
            old_entries (λ (n : Node ℕ) (x : Entry). same_text x.key k),
            subst (λ (k : Bytes). Unbound state k) same nobody,
          )
      | inr other ↦ omega (
        arith,
        more (λ (n : Node ℕ). entry_equality entry' k n.item),
        ap to_nat other,
        old_entries (λ (n : Node ℕ) (x : Entry). same_text x.key k),
        g.once k,
      )
    ]

    created-IsDatabase : IsDatabase number equals is_below state'
    created-IsDatabase = record {
      map = v;
      codes = created_codes;
      owned = λ a h. elim (held-cases a h) [
        | inl same ↦ omega (arith, same)
        | inr (k, n) ↦ omega (arith, g.owned a k)
      ];
      once = created_once;
      entries = λ a h. elim (held-cases a h) [
        | inl same ↦
            subst (IsEntry equals is_below state.pairs)
              (sym (ap entry' same ∙ set_entry_same state.entry state.next e)) sort
        | inr (k, n) ↦
            subst (IsEntry equals is_below state.pairs)
              (sym (set_entry_other state.entry state.next e a n)) (g.entries a k)
      ];
      are_pairs = g.are_pairs;
      apart = λ a b h k differ s s' es es' p there. elim (held-cases a h) [
        | inl same ↦ absurd (
            none_in (occurrences p (in_order s.tree)) there (
              fresh s
                (ap (λ (x : Entry). x.set)
                    (sym (set_entry_same state.entry state.next e) ∙ ap entry' (sym same))
                  ∙ es)
                p))
        | inr (h', n) ↦ elim (held-cases b k) [
          | inl same ↦
              fresh s'
                (ap (λ (x : Entry). x.set)
                    (sym (set_entry_same state.entry state.next e) ∙ ap entry' (sym same))
                  ∙ es')
                p
          | inr (k', n') ↦
              g.apart a b h' k' differ s s'
                (ap (λ (x : Entry). x.set) (sym (set_entry_other state.entry state.next e a n))
                  ∙ es)
                (ap (λ (x : Entry). x.set) (sym (set_entry_other state.entry state.next e b n'))
                  ∙ es')
                p there
        ]
      ];
    }
      where
        none_in : (n : ℕ) → 0 < n → n ≡ 0 → ⊥
        none_in n h e = omega (arith, h, e)

    insert-Created : Created number equals is_below state e m
    insert-Created = record {
      database = created-IsDatabase;
      binds = record {
        held =
            let self : (state.next == state.next) ≡ true = ground arith in
            omega (arith, more (λ (n : Node ℕ). n.item == state.next), ap to_nat self);
        named = ap (λ (x : Entry). x.key) (set_entry_same state.entry state.next e);
      };
      others = λ k differs.
          view-same state state' k (g.once k) (created_once k)
            (λ nothing.
              let other : entry_equality entry' k state.next ≡ false =
                not_new k (entry_equality entry' k state.next) differs (λ h.
                  ap (λ (x : Entry). x.key) (sym (set_entry_same state.entry state.next e))
                  ∙ same_text-eq (entry' state.next).key k h) in
              omega (
                arith,
                more (λ (n : Node ℕ). entry_equality entry' k n.item),
                ap to_nat other,
                old_entries (λ (n : Node ℕ) (x : Entry). same_text x.key k),
                nothing,
              ))
            λ a b.
              let n : a ≢ state.next = λ same. omega (arith, g.owned a b.held, same) in
              let keep = set_entry_other state.entry state.next e a n in
              (
                record {
                  held = omega (arith, b.held, more (λ (x : Node ℕ). x.item == a));
                  named = ap (λ (x : Entry). x.key) keep ∙ b.named;
                },
                ap (view_of state.pairs) keep,
              );
    }
      where
        not_new : (k : Bytes) (b : Bool) → k ≢ e.key → (b ≡ true → e.key ≡ k) → b ≡ false
        not_new k true differs h = absurd (differs (sym (h refl)))
        not_new k false differs h = refl

  -- `new_entry` of a key that is not there.
  pub new_entry-Created :
      bag state.db any + 1 < max_nodes
      → (m : Map ℕ) × (new_entry state e
          ≡ ok (record state { db = m; next = suc state.next; entry = entry' }, state.next))
        × Created number equals is_below state e m
  unfolding new_entry
  new_entry-Created room =
      let (m, run, (v, more)) =
        c_map_insert_lem state.db g.map (record { code = string_hash e.key; item = state.next })
          (omega (arith, g.map.first.counted, g.map.second.counted, room)) in
      (m, rw run refl, insert-Created m v more)
