-- ===== src/Command/Find.antt =====
-- The lookup of an entry, and `get`.
use coxx.Base.{
  ℕ, ◌+◌, ◌≤◌, ◌≡◌, refl, sym, ap, ◌∙◌, subst, Bool, true, false, not, ◌&&◌, Bool-cases, inl, inr,
  Option, none, some, List, arith, ◌==◌, get_elem?,
}
use coxx.Base.Bytes.{Bytes}
use coxx.Base.Run.{ok, ◌>>=◌, Returns}
use coxx.Map.{Node, Map, matches}
use coxx.Map.Slots.{to_nat}
use coxx.Map.Moved.{bag, IsMap}
use coxx.Map.Methods.{c_map_look_up_lem}
use coxx.Zset.{string_hash, item_of}
use coxx.Zset.Tally.{bag-cover}
use coxx.Entry.{entry_equality}
use coxx.Serialize
use coxx.Command.{Database, find_entry, got, get}
use coxx.Command.Keyed.{same_text-eq}
use coxx.Command.State.{
  View, view, Holds, IsDatabase, Binds, Unbound, view-Unbound, view-Binds, view-same,
}

pub and_right : (a b : Bool) → (a && b) ≡ true → b ≡ true
and_right true b h = h
and_right false b h = cc

by_test : (b : Bool) → 1 ≤ to_nat (b && true) + to_nat (not b)
by_test true = omega arith
by_test false = omega arith

missed_of : (o : Option (Node ℕ)) → item_of o ≡ none → o ≡ none
missed_of none e = refl
missed_of (some n) e = cc

found_of :
    (o : Option (Node ℕ)) (a : ℕ) → item_of o ≡ some a → (n : Node ℕ) × (o ≡ some n) × (n.item ≡ a)
found_of none a e = cc
found_of (some n) a e = (n, refl, cc)

module _ (number : ℕ → Bool) (equals is_below : ℕ → ℕ → Bool) (state : Database)
    (g : IsDatabase number equals is_below state) where
  -- An entry with a key has the key's code.
  pub by_code :
      (key : Bytes)
      → bag state.db (λ (n : Node ℕ). entry_equality state.entry key n.item)
        ≤ bag state.db (matches (string_hash key) (entry_equality state.entry key))
  by_code key = omega (
    arith,
    g.codes,
    bag-cover (λ (n : Node ℕ). entry_equality state.entry key n.item)
        (matches (string_hash key) (entry_equality state.entry key))
        (λ (n : Node ℕ). not (n.code == string_hash (state.entry n.item).key)) cover state.db,
  )
    where
      cover :
          (n : Node ℕ)
          → to_nat (entry_equality state.entry key n.item)
            ≤ to_nat (matches (string_hash key) (entry_equality state.entry key) n)
              + to_nat (not (n.code == string_hash (state.entry n.item).key))
      cover n = elim (Bool-cases (entry_equality state.entry key n.item)) [
        | inl e ↦
            let same = same_text-eq (state.entry n.item).key key e in
            omega (
              arith,
              ap to_nat e,
              covered (n.code == string_hash key) (entry_equality state.entry key n.item) e,
              ap (λ (k : Bytes). to_nat (not (n.code == string_hash k))) same,
            )
        | inr e ↦ omega (arith, ap to_nat e)
      ]
        where
          covered : (b x : Bool) → x ≡ true → 1 ≤ to_nat (b && x) + to_nat (not b)
          covered b true e = by_test b
          covered b false e = cc

  -- Fewer nodes, or the same ones, in another map.
  module _ (m : Map ℕ) (v : IsMap m) (fewer : (q : Node ℕ → Bool) → bag m q ≤ bag state.db q) where
    held_before : (a : ℕ) → Holds m a → Holds state.db a
    held_before a h = omega (arith, h, fewer (λ (n : Node ℕ). n.item == a))

    pub fewer-IsDatabase : IsDatabase number equals is_below (record state { db = m })
    fewer-IsDatabase = record {
      map = v;
      codes = omega (
        arith,
        g.codes,
        fewer (λ (n : Node ℕ). not (n.code == string_hash (state.entry n.item).key)),
      );
      owned = λ a h. g.owned a (held_before a h);
      once = λ key.
          omega (arith, g.once key, fewer (λ (n : Node ℕ). entry_equality state.entry key n.item));
      entries = λ a h. g.entries a (held_before a h);
      are_pairs = g.are_pairs;
      apart = λ a b h k. g.apart a b (held_before a h) (held_before b k);
    }

  -- The same nodes in another map.
  pub kept-view :
      (m : Map ℕ)
      → ((q : Node ℕ → Bool) → bag m q ≡ bag state.db q)
      → (key : Bytes) → view (record state { db = m }) key ≡ view state key
  kept-view m keeps key =
      let test = λ (n : Node ℕ). entry_equality state.entry key n.item in
      view-same state (record state { db = m }) key (g.once key)
        (omega (arith, g.once key, keeps test)) (λ e. keeps test ∙ e)
        λ a b. (
          record {
            held = omega (arith, b.held, keeps (λ (n : Node ℕ). n.item == a));
            named = b.named;
          },
          refl,
        )

-- The answer of a lookup, with data that stands for the same as before.
pub record Found (number : ℕ → Bool) (equals is_below : ℕ → ℕ → Bool) (state : Database)
    (key : Bytes) (m : Map ℕ) (answer : Option ℕ) : Type 0 where
  pub database : IsDatabase number equals is_below (record state { db = m })
  pub views : (k : Bytes) → view (record state { db = m }) k ≡ view state k
  pub keeps : (q : Node ℕ → Bool) → bag m q ≡ bag state.db q
  pub missed : answer ≡ none → Unbound (record state { db = m }) key
  pub found : (a : ℕ) → answer ≡ some a → Binds (record state { db = m }) key a

module _ (number : ℕ → Bool) (equals is_below : ℕ → ℕ → Bool) (state : Database)
    (g : IsDatabase number equals is_below state) (key : Bytes) where
  pub find_entry-Found :
      (m : Map ℕ) × (answer : Option ℕ) × (find_entry state key
        ≡ ok (record state { db = m }, answer))
      × Found number equals is_below state key m answer
  unfolding find_entry
  find_entry-Found =
      let (r, run, looked) =
        c_map_look_up_lem state.db g.map (string_hash key) (entry_equality state.entry key) in
      let test = λ (n : Node ℕ). entry_equality state.entry key n.item in
      (
        r.0,
        item_of r.1,
        rw run refl,
        record {
          database =
              fewer-IsDatabase number equals is_below state g r.0 looked.map
                λ q. omega (arith, looked.keeps q);
          views = kept-view number equals is_below state g r.0 looked.keeps;
          keeps = looked.keeps;
          missed = λ e. omega (
            arith,
            looked.keeps test,
            by_code number equals is_below state g key,
            looked.missed (missed_of r.1 e),
          );
          found = λ a e.
              let (n, here, at) = found_of r.1 a e in
              let (hit, pos) = looked.found n here in
              subst (Binds (record state { db = r.0 }) key) at (record {
                held = omega (
                  arith,
                  looked.keeps (λ (k : Node ℕ). k.item == n.item),
                  pos (λ (k : Node ℕ). k.item == n.item) (ground arith),
                );
                named = same_text-eq (state.entry n.item).key key (
                    and_right (n.code == string_hash key) (entry_equality state.entry key n.item)
                      hit);
              });
        },
      )

-- What `get` replies: the text of the key, and nil when the key is not there.
abbrev pub text_reply : Bytes → Option View → Bytes
text_reply output none = Serialize.nil output
text_reply output (some v) = Serialize.str output v.val

-- The data is in order and stands for the same as before.
pub record Kept (number : ℕ → Bool) (equals is_below : ℕ → ℕ → Bool) (state state' : Database)
    : Type 0 where
  pub database : IsDatabase number equals is_below state'
  pub views : (k : Bytes) → view state' k ≡ view state k

module _ (number : ℕ → Bool) (equals is_below : ℕ → ℕ → Bool) (state : Database)
    (g : IsDatabase number equals is_below state) (key : Bytes) (commands : List Bytes)
    (output : Bytes) (second : get_elem? commands 1 ≡ some key) where
  got-reply :
      (m : Map ℕ) (answer : Option ℕ)
      → Found number equals is_below state key m answer
      → got (record state { db = m }) output answer ≡ text_reply output (view state key)
  unfolding got
  got-reply m none f =
      ap (text_reply output)
        (sym (sym (f.views key) ∙ view-Unbound (record state { db = m }) key (f.missed refl)))
  got-reply m (some a) f = ap (text_reply output) (
      sym (
        sym (f.views key)
        ∙ view-Binds (record state { db = m }) key (f.database.once key) a (f.found a refl)))

  pub get-reply :
      Returns
        (get state commands output)
        λ r. Kept number equals is_below state r.0 × (r.1 ≡ text_reply output (view state key))
  unfolding get
  get-reply =
      let (m, answer, run, f) = find_entry-Found number equals is_below state g key in
      (
        (record state { db = m }, got (record state { db = m }) output answer),
        rw (second, ◌>>=◌, run) refl,
        (record { database = f.database; views = f.views }, got-reply m answer f),
      )
