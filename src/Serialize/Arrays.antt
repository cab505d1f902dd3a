-- ===== src/Serialize/Arrays.antt =====
-- `begin_arr` and `end_arr`: the count of an array, filled in after its elements.
use coxx.Base.{
  ℕ, ◌+◌, ◌-◌, ◌≡◌, refl, ◌∙◌, some, [], ◌∷◌, ◌++◌, append_assoc, length, get_elem?, arith,
  length-append,
}
use coxx.Base.Bytes.{Bytes, le32, blit-append}
use mathlib.Core.Path.{ap₂}
use coxx.Serialize
use coxx.Serialize.Value.{Values, AreSized, emit_all, encode_all, emit_all-encode_all}

get_elem?-append_length :
    (xs : Bytes) (x : ℕ) (ys : Bytes) → get_elem? (xs ++ x ∷ ys) (length xs) ≡ some x
get_elem?-append_length [] x ys = refl
get_elem?-append_length (y ∷ xs) x ys = get_elem?-append_length xs x ys

-- The array that is opened, filled and closed reads as the one whose count was known at the start,
-- for any output before it, any elements and any count.
pub end_arr-begin_arr :
    (out : Bytes) (vs : Values) (n : ℕ)
    → AreSized vs
    → Serialize.end_arr (emit_all (Serialize.begin_arr out).0 vs) (Serialize.begin_arr out).1 n
      ≡ some (emit_all (Serialize.arr out n) vs)
unfolding Serialize.begin_arr Serialize.arr Serialize.end_arr
end_arr-begin_arr out vs n h =
    let opened = out ++ 6 ∷ [] in
    let body = encode_all vs in
    let filled : emit_all (opened ++ 0 ∷ 0 ∷ 0 ∷ 0 ∷ []) vs ≡ opened ++ 0 ∷ 0 ∷ 0 ∷ 0 ∷ body =
      emit_all-encode_all (opened ++ 0 ∷ 0 ∷ 0 ∷ 0 ∷ []) vs h
      ∙ append_assoc opened (0 ∷ 0 ∷ 0 ∷ 0 ∷ []) body in
    let closed : emit_all (opened ++ le32 n) vs ≡ opened ++ (le32 n ++ body) =
      emit_all-encode_all (opened ++ le32 n) vs h ∙ append_assoc opened (le32 n) body in
    let size : length opened ≡ length out + 1 = length-append out (6 ∷ []) in
    let place : length (opened ++ 0 ∷ 0 ∷ 0 ∷ 0 ∷ []) - 4 ≡ length opened =
      omega (arith, length-append opened (0 ∷ 0 ∷ 0 ∷ 0 ∷ [])) in
    let tag : get_elem? (opened ++ 0 ∷ 0 ∷ 0 ∷ 0 ∷ body) (length opened - 1) ≡ some 6 =
      ap₂ (λ (x : Bytes) (i : ℕ). get_elem? x i) (append_assoc out (6 ∷ []) (0 ∷ 0 ∷ 0 ∷ 0 ∷ body))
        (omega arith)
      ∙ get_elem?-append_length out 6 (0 ∷ 0 ∷ 0 ∷ 0 ∷ body) in
    rw (filled, closed, place)
      (ground (arith, tag, blit-append opened (0 ∷ 0 ∷ 0 ∷ 0 ∷ []) (le32 n) body refl))
