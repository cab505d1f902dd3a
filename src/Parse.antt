-- ===== src/Parse.antt =====
-- common/req.cxx, `Request::parse`: the body of a request, a count of words and then each word
-- behind its length. The request is memory from `requestData` on, which may be longer than `length`.
pub mod Frame
pub mod Words
pub mod RoundTrip
use coxx.Base.{
  ℕ, zero, suc, ◌+◌, ◌*◌, ◌≡◌, Bool, Option, none, some, List, [], ◌∷◌, ◌++◌, ltb, ◌==◌,
  if◌then◌else◌, not,
}
use coxx.Base.Bytes.{Bytes, u32_mod, add32, add64, load32, slice}

-- common/req.hxx
abbrev pub max_message_size : ℕ
max_message_size = 4096

abbrev pub max_num_args : ℕ
max_num_args = 1024

-- `-1` as the function's `uint32_t`
abbrev pub malformed : ℕ
malformed = 0xffff_ffff

-- The returned code and what `outputData` holds then; `none` is a read outside the memory.
abbrev pub Parsed : Type 0
Parsed = Option (ℕ × List Bytes)

infixl 5 ◌>>=◌
abbrev pub ◌>>=◌ {ℓ κ} : {A : Type ℓ} {B : Type κ} → Option A → (A → Option B) → Option B
none >>= f = none
some a >>= f = f a

-- `while (count--)`, and the test after it.
unfoldable pub parse_words : Bytes → ℕ → ℕ → ℕ → List Bytes → Parsed
parse_words mem len zero pos out = if not (pos == len) then some (malformed, out) else some (0, out)
parse_words mem len (suc count) pos out =
    let after = λ (size : ℕ). do
      word ← slice mem (pos + 4) size
      parse_words mem len count (add64 pos (add32 4 size)) (out ++ word ∷ [])
    in let body = do
      size ← load32 mem pos
      let rest = after size
      if ltb len (add64 (add64 pos 4) size) then some (malformed, out) else rest
      in if ltb len (add64 pos 4) then some (malformed, out) else body

unfoldable pub parse : Bytes → ℕ → Parsed
parse mem len = if ltb len 4 then some (malformed, []) else do
  count ← load32 mem 0
  if ltb max_num_args count then some (malformed, []) else parse_words mem len count 4 []
