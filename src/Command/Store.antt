-- ===== src/Command/Store.antt =====
-- `zadd`
use coxx.Base.{
  ℕ, ◌≡◌, ◌≢◌, refl, sym, ap, ◌∙◌, Bool, true, false, ◌&&◌, ◌⊎◌, Option, none, some, [], length,
  ◌==◌, if◌then◌else◌,
}
use coxx.Base.Bytes.{Bytes}
use coxx.Base.Int.{ℤ}
use coxx.Map.{Map}
use coxx.Zset.Lex.{IsComparison}
use coxx.Zset.State.{scores}
use coxx.Zset.Add.{is_missing}
use coxx.Entry.{Entry}
use coxx.Serialize
use coxx.Command.{Database, type_error, arg_error, expect_zset_text, expect_fp_text}
use coxx.Command.Dispatch.{c_str, str_to_double}
use coxx.Command.State.{View, view, IsDatabase, Rewritten}
use coxx.Command.Find.{Kept}

-- The name has the score, or has kept one that compares equal; the other names have what they had.
pub record Scored (equals : ℕ → ℕ → Bool) (name : Bytes) (score : ℕ) (f f' : Bytes → Option ℕ)
    : Type 0 where
  pub stored :
      (f' name ≡ some score)
      ⊎ ((old : ℕ) × (f name ≡ some old) × (equals old score ≡ true) × (f' name ≡ some old))
  pub others : (n : Bytes) → n ≢ name → f' n ≡ f n

-- The text and the scores of a key, with no text and no scores for one that is not there.
abbrev pub text_of : Option View → Bytes
text_of none = []
text_of (some v) = v.val

abbrev pub known_scores : Option View → Option (Bytes → Option ℕ)
known_scores none = some λ n. none
known_scores (some v) = v.scores

-- What `zadd` comes to, with the score that it reads.
pub data Zadded (number : ℕ → Bool) (equals is_below : ℕ → ℕ → Bool) (state : Database)
    (key name output : Bytes) (parsed : Option ℕ) (r : Database × Bytes) : Type 0 where
  no_number :
      parsed ≡ none
      → Kept number equals is_below state r.0
      → r.1 ≡ Serialize.err output arg_error expect_fp_text
      → Zadded number equals is_below state key name output parsed r
  mistyped :
      known_scores (view state key) ≡ none
      → Kept number equals is_below state r.0
      → r.1 ≡ Serialize.err output type_error expect_zset_text
      → Zadded number equals is_below state key name output parsed r
  scored :
      (score : ℕ) (f f' : Bytes → Option ℕ)
      → parsed ≡ some score
      → known_scores (view state key) ≡ some f
      → Scored equals name score f f'
      → Rewritten number equals is_below state key
          (some (record { val = text_of (view state key); scores = some f' }))
          r.0
      → r.1 ≡ Serialize.num output (if is_missing (f name) then 1 else 0)
      → Zadded number equals is_below state key name output parsed r

pub Zadded-IsDatabase :
    (number : ℕ → Bool) (equals is_below : ℕ → ℕ → Bool) (state : Database)
    (key name output : Bytes) (parsed : Option ℕ) (r : Database × Bytes)
    → Zadded number equals is_below state key name output parsed r
    → IsDatabase number equals is_below r.0
Zadded-IsDatabase number equals is_below state key name output parsed r z = elim z [
  | no_number e kept reply ↦ kept.database
  | mistyped e kept reply ↦ kept.database
  | scored score f f' e e' d w reply ↦ w.database
]

module _ (number : ℕ → Bool) (equals is_below : ℕ → ℕ → Bool)
    (law : IsComparison number equals is_below) (strtod : Bytes → ℕ × ℕ)
    (strtol : Bytes → ℤ × ℕ) where
  -- What `strToDouble` accepts is a number.
  pub number-str_to_double :
      (s : Bytes) (score : ℕ)
      → str_to_double strtod strtol number equals is_below s ≡ some score
      → number score ≡ true
  unfolding str_to_double
  number-str_to_double s score e =
      accepted ((strtod (c_str s)).1 == length s) (number (strtod (c_str s)).0) refl e
    where
      accepted :
          (b n : Bool)
          → number (strtod (c_str s)).0 ≡ n
          → (if b && n then some (strtod (c_str s)).0 else none) ≡ some score
          → number score ≡ true
      accepted true true e h =
          let same : (strtod (c_str s)).0 ≡ score = cc in ap number (sym same) ∙ e
      accepted true false e h = cc
      accepted false n e h = cc
