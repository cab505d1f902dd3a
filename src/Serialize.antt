-- ===== src/Serialize.antt =====
-- common/serialize.hxx and common/serialize.cxx: the functions of `namespace out`, which append a
-- tagged value to a reply. An integer and a double are the 64-bit patterns that the code copies.
pub mod Value
pub mod Arrays
use coxx.Base.{
  ℕ, ◌+◌, ◌-◌, ◌%◌, Option, none, some, List, [], ◌∷◌, ◌++◌, length, get_elem?, ◌==◌, ltb, ◌&&◌,
  if◌then◌else◌,
}
use coxx.Base.Bytes.{Bytes, le32, le64, u32_mod, blit}

-- `enum class Serialize`
abbrev pub nil_tag : ℕ
nil_tag = 0

abbrev pub err_tag : ℕ
err_tag = 1

abbrev pub str_tag : ℕ
str_tag = 2

abbrev pub int_tag : ℕ
int_tag = 4

abbrev pub dbl_tag : ℕ
dbl_tag = 5

abbrev pub arr_tag : ℕ
arr_tag = 6

unfoldable pub nil : Bytes → Bytes
nil out = out ++ nil_tag ∷ []

unfoldable pub str : Bytes → Bytes → Bytes
str out val = ((out ++ str_tag ∷ []) ++ le32 (length val % u32_mod)) ++ val

unfoldable pub num : Bytes → ℕ → Bytes
num out val = (out ++ int_tag ∷ []) ++ le64 val

unfoldable pub dbl : Bytes → ℕ → Bytes
dbl out val = (out ++ dbl_tag ∷ []) ++ le64 val

-- `code` is the 32-bit pattern of the error's number.
unfoldable pub err : Bytes → ℕ → Bytes → Bytes
err out code msg = (((out ++ err_tag ∷ []) ++ le32 code) ++ le32 (length msg % u32_mod)) ++ msg

unfoldable pub arr : Bytes → ℕ → Bytes
arr out n = (out ++ arr_tag ∷ []) ++ le32 n

-- The new output and the context: the position of the count, to be filled in by `end_arr`.
unfoldable pub begin_arr : Bytes → Bytes × ℕ
begin_arr out =
    let opened = (out ++ arr_tag ∷ []) ++ 0 ∷ 0 ∷ 0 ∷ 0 ∷ [] in (opened, length opened - 4)

-- `none`: the assertion on the tag fails, or the count would be written outside the output.
unfoldable pub end_arr : Bytes → ℕ → ℕ → Option Bytes
end_arr out pos n = elim (get_elem? out (pos - 1)) [
  | none ↦ none
  | some tag ↦ if tag == arr_tag && ltb 0 pos then blit out pos (le32 n) else none
]
