-- ===== src/Command/Range.antt =====
-- `zquery`, on every branch.
use coxx.Base.{ℕ, ◌+◌, ◌<◌, ◌≡◌, Bool, ◌⊎◌, Option, none, some, []}
use coxx.Base.Bytes.{Bytes, u32_mod}
use coxx.Base.Int.{ℤ}
use coxx.Avl.Shape.{size}
use coxx.Zset.{ZSet}
use coxx.Serialize
use coxx.Serialize.Value.{Value, emit}
use coxx.Command.{
  Database, type_error, arg_error, expect_zset_text, expect_fp_text, expect_int_text,
}
use coxx.Command.State.{View, view, Holds}
use coxx.Command.Query.{AllSized, range_reply}

-- What `zquery` replies, with the numbers that it reads.
pub data Queried (equals is_below : ℕ → ℕ → Bool) (state : Database) (key name : Bytes)
    (score : Option ℕ) (off limit : Option ℤ) (reply : Bytes) : Type 0 where
  no_score :
      score ≡ none
      → reply ≡ Serialize.err [] arg_error expect_fp_text
      → Queried equals is_below state key name score off limit reply
  no_int :
      (off ≡ none) ⊎ (limit ≡ none)
      → reply ≡ Serialize.err [] arg_error expect_int_text
      → Queried equals is_below state key name score off limit reply
  no_key :
      view state key ≡ none
      → reply ≡ Serialize.arr [] 0
      → Queried equals is_below state key name score off limit reply
  no_zset :
      (v : View)
      → view state key ≡ some v
      → v.scores ≡ none
      → reply ≡ Serialize.err [] type_error expect_zset_text
      → Queried equals is_below state key name score off limit reply
  in_range :
      (x : ℕ) (o l : ℤ) (a : ℕ) (s : ZSet)
      → score ≡ some x
      → off ≡ some o
      → limit ≡ some l
      → Holds state.db a
      → (state.entry a).key ≡ key
      → (state.entry a).set ≡ some s
      → reply ≡ emit [] (range_reply equals is_below state.pairs s x name o l)
      → Queried equals is_below state key name score off limit reply

-- A set of so many pairs that their names and scores can be counted in 32 bits.
pub record HasSmallSets (state : Database) : Type 0 where
  pub sized : AllSized state.pairs
  pub small :
      (a : ℕ)
      → Holds state.db a
      → (s : ZSet) → (state.entry a).set ≡ some s
      → size s.tree + size s.tree < u32_mod
