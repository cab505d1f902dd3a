-- ===== src/Command/State.antt =====
-- When the server's data is in order, and the map from keys to values that it stands for.
use coxx.Base.{
  ℕ, ◌<◌, ◌≤◌, ◌≡◌, ◌≢◌, refl, sym, ap, ◌∙◌, Bool, true, not, ◌⊎◌, inl, inr, Option, none, some,
  arith, ◌==◌,
}
use coxx.Base.Bytes.{Bytes}
use coxx.Map.{Node, Map, init_map}
use coxx.Map.Slots.{count_all}
use coxx.Map.Moved.{bag, IsMap}
use coxx.Map.Methods.{init_map-IsMap}
use coxx.Avl.Shape.{in_order}
use coxx.Avl.Order.{occurrences}
use coxx.Zset.{string_hash, Pairs, ZSet}
use coxx.Zset.Lex.{ArePairs}
use coxx.Zset.Tally.{tally-occurrences}
use coxx.Zset.State.{IsZSet, scores, tally-cases}
use coxx.Entry.{Entry, str_type, zset_type, entry_equality}
use coxx.Command.{Database}
use coxx.Command.Keyed.{
  addresses, tally-addresses, find_first, find_first-none, find_first-some, same_text_refl,
  same_text-eq,
}

-- What a key stands for: its text and, for a sorted set, the score of each name.
pub record View : Type 0 where
  pub val : Bytes
  pub scores : Option (Bytes → Option ℕ)

abbrev pub scores_of : Pairs → Option ZSet → Option (Bytes → Option ℕ)
scores_of pairs none = none
scores_of pairs (some s) = some (scores pairs.pair s)

abbrev pub view_of : Pairs → Entry → View
view_of pairs e = record { val = e.val; scores = scores_of pairs e.set }

abbrev pub view_at : Database → Option ℕ → Option View
view_at state none = none
view_at state (some a) = some (view_of state.pairs (state.entry a))

-- The map from keys to values.
abbrev pub view : Database → Bytes → Option View
view state key = view_at state (find_first (entry_equality state.entry key) (addresses state.db))

-- The map has the address of an entry.
abbrev pub Holds : Map ℕ → ℕ → Type 0
Holds m a = 0 < bag m (λ (n : Node ℕ). n.item == a)

-- An entry is of the one type or of the other.
pub data IsEntry (equals is_below : ℕ → ℕ → Bool) (pairs : Pairs) (e : Entry) : Type 0 where
  text : e.type ≡ str_type → e.set ≡ none → IsEntry equals is_below pairs e
  sorted :
      (s : ZSet)
      → e.type ≡ zset_type
      → e.set ≡ some s
      → IsZSet equals is_below pairs.next pairs.pair s
      → IsEntry equals is_below pairs e

-- The data in order: a map of allocated entries, each in the slot of its key and no two of the same
-- key, whose sorted sets are in order and have no pair in common.
pub record IsDatabase (number : ℕ → Bool) (equals is_below : ℕ → ℕ → Bool) (state : Database)
    : Type 0 where
  pub map : IsMap state.db
  pub codes :
      bag state.db (λ (n : Node ℕ). not (n.code == string_hash (state.entry n.item).key)) ≡ 0
  pub owned : (a : ℕ) → Holds state.db a → a < state.next
  pub once :
      (key : Bytes) → bag state.db (λ (n : Node ℕ). entry_equality state.entry key n.item) ≤ 1
  pub entries : (a : ℕ) → Holds state.db a → IsEntry equals is_below state.pairs (state.entry a)
  pub are_pairs : ArePairs number state.pairs.pair
  pub apart :
      (a b : ℕ)
      → Holds state.db a
      → Holds state.db b
      → a ≢ b
      → (s s' : ZSet) → (state.entry a).set ≡ some s
      → (state.entry b).set ≡ some s'
      → (p : ℕ) → 0 < occurrences p (in_order s.tree)
      → occurrences p (in_order s'.tree) ≡ 0

-- An empty database
abbrev pub new_database : (ℕ → Entry) → Pairs → Database
new_database entry pairs = record { db = init_map; next = 0; entry = entry; pairs = pairs }

pub new_database-IsDatabase :
    (number : ℕ → Bool) (equals is_below : ℕ → ℕ → Bool) (entry : ℕ → Entry) (pairs : Pairs)
    → ArePairs number pairs.pair
    → IsDatabase number equals is_below (new_database entry pairs)
unfolding count_all
new_database-IsDatabase number equals is_below entry pairs are = record {
  map = init_map-IsMap ℕ;
  codes = refl;
  owned = λ a h. absurd (omega (arith, h));
  once = λ key. omega arith;
  entries = λ a h. absurd (omega (arith, h));
  are_pairs = are;
  apart = λ a b h k differ s s' e e' p there. absurd (omega (arith, h));
}

-- The entry of a key.
pub record Binds (state : Database) (key : Bytes) (a : ℕ) : Type 0 where
  pub held : Holds state.db a
  pub named : (state.entry a).key ≡ key

abbrev pub Unbound : Database → Bytes → Type 0
Unbound state key = bag state.db (λ (n : Node ℕ). entry_equality state.entry key n.item) ≡ 0

pub equality_of :
    (entry : ℕ → Entry) (key : Bytes) (a : ℕ)
    → (entry a).key ≡ key
    → entry_equality entry key a ≡ true
equality_of entry key a e = rw e (same_text_refl key)

module _ (state : Database) (key : Bytes) where
  pub view-Unbound : Unbound state key → view state key ≡ none
  view-Unbound e = ap (view_at state) (
      find_first-none (entry_equality state.entry key) (addresses state.db)
        (tally-addresses (entry_equality state.entry key) state.db ∙ e))

  pub view-Binds :
      (once : bag state.db (λ (n : Node ℕ). entry_equality state.entry key n.item) ≤ 1) (a : ℕ)
      → Binds state key a
      → view state key ≡ some (view_of state.pairs (state.entry a))
  view-Binds once a b = ap (view_at state) (
      find_first-some (entry_equality state.entry key) (addresses state.db) a
        (omega (
          arith,
          b.held,
          tally-occurrences a (addresses state.db),
          tally-addresses (λ (x : ℕ). x == a) state.db,
        ))
        (equality_of state.entry key a b.named)
        (omega (arith, once, tally-addresses (entry_equality state.entry key) state.db)))

  pub Binds-cases : Unbound state key ⊎ ((a : ℕ) × Binds state key a)
  Binds-cases = elim (tally-cases (entry_equality state.entry key) (addresses state.db)) [
    | inl e ↦ inl (sym (tally-addresses (entry_equality state.entry key) state.db) ∙ e)
    | inr (a, there, e) ↦ inr (
      a,
      record {
        held = omega (
          arith,
          there,
          tally-occurrences a (addresses state.db),
          tally-addresses (λ (x : ℕ). x == a) state.db,
        );
        named = same_text-eq (state.entry a).key key e;
      },
    )
  ]

-- Entries that stand for the same under a key.
pub view-same :
    (state state' : Database) (key : Bytes)
    → bag state.db (λ (n : Node ℕ). entry_equality state.entry key n.item) ≤ 1
    → bag state'.db (λ (n : Node ℕ). entry_equality state'.entry key n.item) ≤ 1
    → (Unbound state key → Unbound state' key)
    → ((a : ℕ)
        → Binds state key a
        → Binds state' key a
          × (view_of state'.pairs (state'.entry a) ≡ view_of state.pairs (state.entry a)))
    → view state' key ≡ view state key
view-same state state' key once once' gone same = elim (Binds-cases state key) [
  | inl e ↦ view-Unbound state' key (gone e) ∙ sym (view-Unbound state key e)
  | inr (a, b) ↦
      let (b', e) = same a b in
      view-Binds state' key once' a b' ∙ (ap some e ∙ sym (view-Binds state key once a b))
]

-- The key has this value, if any, and every other key has what it had.
pub record Rewritten (number : ℕ → Bool) (equals is_below : ℕ → ℕ → Bool) (state : Database)
    (key : Bytes) (value : Option View) (state' : Database) : Type 0 where
  pub database : IsDatabase number equals is_below state'
  pub value_now : view state' key ≡ value
  pub others : (k : Bytes) → k ≢ key → view state' k ≡ view state k

-- The same from data that stood for the same.
pub rewritten_from :
    (number : ℕ → Bool) (equals is_below : ℕ → ℕ → Bool) (state state₁ : Database) (key : Bytes)
    (value : Option View) (state' : Database)
    → ((k : Bytes) → view state₁ k ≡ view state k)
    → Rewritten number equals is_below state₁ key value state'
    → Rewritten number equals is_below state key value state'
rewritten_from number equals is_below state state₁ key value state' e w = record {
  database = w.database;
  value_now = w.value_now;
  others = λ k differs. w.others k differs ∙ e k;
}
