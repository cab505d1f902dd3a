-- ===== src/Serialize/Value.antt =====
-- The replies that the protocol knows, as data, and the bytes that stand for one.
use coxx.Base.{
  ℕ, suc, ◌%◌, ◌<◌, ◌≡◌, refl, ap, ◌∙◌, sym, [], ◌∷◌, ◌++◌, append-nil, append_assoc, length, arith,
}
use coxx.Base.Bytes.{Bytes, le32, le64, u32_mod, u64_mod}
use coxx.Serialize

mutual
  pub data Value : Type 0 where
    nil : Value
    err : ℕ → Bytes → Value
    str : Bytes → Value
    num : ℕ → Value
    dbl : ℕ → Value
    arr : Values → Value

  -- The elements of an array.
  pub data Values : Type 0 where
    empty : Values
    item : Value → Values → Values

abbrev pub count : Values → ℕ
count empty = 0
count (item v vs) = suc (count vs)

-- The calls of `namespace out` that write a value behind what is already in the output.
unfoldable mutual
  unfolding Serialize.nil Serialize.err Serialize.str Serialize.num Serialize.dbl Serialize.arr

  pub emit : Bytes → Value → Bytes
  emit out nil = Serialize.nil out
  emit out (err code msg) = Serialize.err out code msg
  emit out (str s) = Serialize.str out s
  emit out (num v) = Serialize.num out v
  emit out (dbl v) = Serialize.dbl out v
  emit out (arr vs) = emit_all (Serialize.arr out (count vs)) vs

  pub emit_all : Bytes → Values → Bytes
  emit_all out empty = out
  emit_all out (item v vs) = emit_all (emit out v) vs

-- The bytes of a value on their own.
unfoldable mutual
  pub encode : Value → Bytes
  encode nil = 0 ∷ []
  encode (err code msg) = 1 ∷ (le32 code ++ (le32 (length msg) ++ msg))
  encode (str s) = 2 ∷ (le32 (length s) ++ s)
  encode (num v) = 4 ∷ le64 v
  encode (dbl v) = 5 ∷ le64 v
  encode (arr vs) = 6 ∷ (le32 (count vs) ++ encode_all vs)

  pub encode_all : Values → Bytes
  encode_all empty = []
  encode_all (item v vs) = encode v ++ encode_all vs

-- Numbers fit their words, and so do the lengths of the texts and of the arrays.
abbrev mutual
  pub IsSized : Value → Type 0
  IsSized nil = Unit
  IsSized (err code msg) = (code < u32_mod) × (length msg < u32_mod)
  IsSized (str s) = length s < u32_mod
  IsSized (num v) = v < u64_mod
  IsSized (dbl v) = v < u64_mod
  IsSized (arr vs) = (count vs < u32_mod) × AreSized vs

  pub AreSized : Values → Type 0
  AreSized empty = Unit
  AreSized (item v vs) = IsSized v × AreSized vs

mutual
  unfolding emit encode Serialize.nil Serialize.err Serialize.str Serialize.num Serialize.dbl
      Serialize.arr

  emit_append : (out : Bytes) (v : Value) → IsSized v → emit out v ≡ out ++ encode v
  emit_append out nil h = refl
  emit_append out (err code msg) (_, h) =
      let e : length msg % u32_mod ≡ length msg = omega arith in simp (e, append_assoc)
  emit_append out (str s) h =
      let e : length s % u32_mod ≡ length s = omega arith in simp (e, append_assoc)
  emit_append out (num v) h = append_assoc out (4 ∷ []) (le64 v)
  emit_append out (dbl v) h = append_assoc out (5 ∷ []) (le64 v)
  emit_append out (arr vs) (_, h) =
      emit_all_append (Serialize.arr out (count vs)) vs h ∙ simp append_assoc

  emit_all_append :
      (out : Bytes) (vs : Values) → AreSized vs → emit_all out vs ≡ out ++ encode_all vs
  emit_all_append out empty h = sym (append-nil out)
  emit_all_append out (item v vs) (h, hs) =
      emit_all_append (emit out v) vs hs
      ∙ ap (λ (x : Bytes). x ++ encode_all vs) (emit_append out v h)
      ∙ append_assoc out (encode v) (encode_all vs)

-- Writing a value appends its encoding to the output, and changes nothing before it.
pub emit-encode : (out : Bytes) (v : Value) → IsSized v → emit out v ≡ out ++ encode v
emit-encode = emit_append

pub emit_all-encode_all :
    (out : Bytes) (vs : Values) → AreSized vs → emit_all out vs ≡ out ++ encode_all vs
emit_all-encode_all = emit_all_append
