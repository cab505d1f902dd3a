-- ===== src/Command/Total.antt =====
-- Every command ends and leaves the data in order.
use coxx.Base.{
  ℕ, suc, ◌<◌, ◌≡◌, refl, Bool, true, false, ◌&&◌, some, List, [], ◌∷◌, arith, get_elem?,
  get_elem?-some, length, ◌==◌,
}
use coxx.Base.Bytes.{Bytes}
use coxx.Base.Int.{ℤ}
use coxx.Base.Run.{Run}
use coxx.Map.{Map}
use coxx.Zset.Lex.{IsComparison}
use coxx.Serialize
use coxx.Command.{Database}
use coxx.Command.Dispatch.{is_command, is_call}
use coxx.Command.State.{IsDatabase}
use coxx.Command.Remove.{HasRoom}
use coxx.Command.Range.{HasSmallSets}

-- A call has as many words as the test says.
length-is_call :
    (commands : List Bytes) (n : ℕ) (name : Bytes)
    → is_call commands n name ≡ true
    → length commands ≡ n
unfolding is_call
length-is_call [] n name e = cc
length-is_call (word ∷ rest) n name e = both (suc (length rest) == n) (is_command word name) refl e
  where
    both : (b x : Bool) → (suc (length rest) == n) ≡ b → (b && x) ≡ true → suc (length rest) ≡ n
    both true x test e = ground (arith, test)
    both false x test e = cc

module _ (number : ℕ → Bool) (equals is_below : ℕ → ℕ → Bool)
    (law : IsComparison number equals is_below) (strtod : Bytes → ℕ × ℕ) (strtol : Bytes → ℤ × ℕ)
    (state : Database) (g : IsDatabase number equals is_below state) (room : HasRoom state)
    (few : HasSmallSets state) (commands : List Bytes) where
  abbrev InOrder : Database × Bytes → Type 0
  InOrder r = IsDatabase number equals is_below r.0

  word :
      (n : ℕ) (name : Bytes) (i : ℕ)
      → is_call commands n name ≡ true
      → i < n
      → (x : Bytes) × (get_elem? commands i ≡ some x)
  word n name i e h = get_elem?-some commands i (omega (arith, h, length-is_call commands n name e))
