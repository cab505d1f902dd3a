-- ===== src/Client.antt =====
-- client/client.cxx: what the client prints of a reply, and the request that it sends.
pub mod Reads
pub mod Total
pub mod Request
pub mod Response
pub mod Session
use coxx.Base.{
  ℕ, zero, suc, ◌+◌, ◌%◌, ◌^◌, Bool, true, false, Option, none, some, List, [], ◌∷◌, ◌++◌, ltb, leb,
  ◌==◌, not, ◌&&◌, if◌then◌else◌, length, drop, take, replicate,
}
use coxx.Base.Bytes.{Bytes, le32, u32_mod, add32, add64, load32, load64, slice, blit}

-- One line of the client's output. Integers, doubles and error codes are the patterns received.
pub data Line : Type 0 where
  nil arr_end bad_response eof too_long : Line
  err : ℕ → Bytes → Line
  str : Bytes → Line
  int : ℕ → Line
  double : ℕ → Line
  arr_len : ℕ → Line

-- `done lines code`: the lines printed and the `int32_t` returned, as its pattern. `fault` is a read
-- outside the reply or the exception of `substr`; `out_of_fuel` has no counterpart in the program.
pub data Outcome : Type 0 where
  done : List Line → ℕ → Outcome
  fault out_of_fuel : Outcome

-- `-1`
abbrev pub minus_one : ℕ
minus_one = 0xffff_ffff

-- `code < 0`
abbrev pub is_negative : ℕ → Bool
is_negative code = leb (2 ^ 31) code

abbrev pub bad : Outcome
bad = done (bad_response ∷ []) minus_one

-- A value of the memory, or a fault.
abbrev pub loaded {ℓ} : {A : Type ℓ} → Option A → (A → Outcome) → Outcome
loaded none k = fault
loaded (some a) k = k a

-- `case Serialize::ERR`
read_err : Bytes → Outcome
read_err mem =
    if ltb (length mem) 9
    then bad
    else loaded (load32 mem 1) λ code. loaded (load32 mem 5) λ len.
      if ltb (length mem) (add32 9 len)
      then bad
      else loaded (slice mem 9 len) λ text. done (err code text ∷ []) (add32 9 len)

-- `case Serialize::STR`
read_str : Bytes → Outcome
read_str mem =
    if ltb (length mem) 5
    then bad
    else loaded (load32 mem 1) λ len.
      if ltb (length mem) (add32 5 len)
      then bad
      else loaded (slice mem 5 len) λ text. done (str text ∷ []) (add32 5 len)

-- `case Serialize::INT` and `case Serialize::DBL`
read_word : (ℕ → Line) → Bytes → Outcome
read_word line mem =
    if ltb (length mem) 9 then bad else loaded (load64 mem 1) λ val. done (line val ∷ []) 9

-- The loop of `case Serialize::ARR`, on the elements left; `read` is the recursive call.
read_items : (Bytes → Outcome) → Bytes → ℕ → ℕ → List Line → Outcome
read_items read mem zero pos lines = done (lines ++ arr_end ∷ []) (pos % u32_mod)
read_items read mem (suc left) pos lines =
    let element : Outcome = elim (read (drop pos mem)) [
      | done more code ↦
          let rest = read_items read mem left (add64 pos code) (lines ++ more) in
          if is_negative code then done (lines ++ more) code else rest
      | fault ↦ fault
      | out_of_fuel ↦ out_of_fuel
    ] in
    if ltb (length mem) pos then fault else element

-- `case Serialize::ARR`
read_arr : (Bytes → Outcome) → Bytes → Outcome
unfolding read_items
read_arr read mem =
    if ltb (length mem) 5
    then bad
    else loaded (load32 mem 1) λ len. read_items read mem len 5 (arr_len len ∷ [])

-- The switch on the tag of a reply that is not empty.
read_tagged : (Bytes → Outcome) → ℕ → Bytes → Outcome
unfolding read_err read_str read_word read_arr
read_tagged read tag mem =
    if tag == 0
    then done (nil ∷ []) 1
    else if tag == 1
    then read_err mem
    else if tag == 2
    then read_str mem
    else if tag == 4
    then read_word int mem
    else if tag == 5
    then read_word double mem
    else if tag == 6
    then read_arr read mem
    else bad

-- `deserialize`; the fuel bounds how deep arrays nest.
unfoldable pub deserialize : ℕ → Bytes → Outcome
unfolding read_tagged
deserialize zero mem = out_of_fuel
deserialize (suc fuel) [] = bad
deserialize (suc fuel) (tag ∷ mem) = read_tagged (deserialize fuel) tag (tag ∷ mem)

-- The end of `readResponse`: the value must fill the message.
unfoldable pub check_reply : Outcome → ℕ → Outcome
check_reply (done lines code) len =
    if not (is_negative code) && ltb 0 code && not (code == len)
    then done (lines ++ bad_response ∷ []) minus_one
    else done lines code
check_reply fault len = fault
check_reply out_of_fuel len = out_of_fuel
