-- ===== src/Command/Remove.antt =====
-- `zrem`
use coxx.Base.{ℕ, suc, ◌+◌, ◌<◌, ◌≡◌, Option, none, some, if◌then◌else◌}
use coxx.Base.Bytes.{Bytes, u32_mod}
use coxx.Map.{Map}
use coxx.Map.Tables.{any}
use coxx.Map.Moved.{bag, max_nodes}
use coxx.Avl.Shape.{size}
use coxx.Zset.{ZSet}
use coxx.Zset.State.{scores}
use coxx.Entry.{same_text}
use coxx.Serialize
use coxx.Command.{Database}
use coxx.Command.State.{View, Holds}

-- There is room for one entry more in the map, and for one pair more in every set.
pub record HasRoom (state : Database) : Type 0 where
  pub entries : bag state.db any + 1 < max_nodes
  pub sets :
      (a : ℕ)
      → Holds state.db a
      → (s : ZSet) → (state.entry a).set ≡ some s
      → suc (size s.tree) < u32_mod

-- The scores without that of a name.
abbrev pub without : Bytes → (Bytes → Option ℕ) → Bytes → Option ℕ
without name f n = if same_text n name then none else f n

abbrev pub map_scores :
    ((Bytes → Option ℕ) → Bytes → Option ℕ) → Option (Bytes → Option ℕ) → Option (Bytes → Option ℕ)
map_scores f none = none
map_scores f (some g) = some (f g)

-- The value without the score of a name.
abbrev pub forget : Bytes → Option View → Option View
forget name none = none
forget name (some v) = some (record v { scores = map_scores (without name) v.scores })
