-- ===== src/Client/Total.antt =====
-- `deserialize` on any reply, well formed or not.
use coxx.Base.{
  Bool, true, false, Option, if◌then◌else◌, ℕ, zero, suc, ◌+◌, ◌^◌, ◌≤◌, ◌<◌, ◌≡◌, refl, ◌⊎◌, inl,
  inr, none, some, List, [], ◌∷◌, ◌++◌, length, drop, arith, length-drop, ltb, ◌==◌,
}
use coxx.Base.Bytes.{
  Bytes, le32, u32_mod, add32, add64, load32, load64, slice, load32-le32, slice-bounds,
}
use coxx.Client.{
  Line, Outcome, done, fault, out_of_fuel, minus_one, is_negative, read_err, read_str, read_word,
  read_items, read_arr, read_tagged, deserialize, int, double, arr_len, loaded,
}

-- A call on `n` bytes ends: with -1, with a count between 1 and `n`, or with a fault.
abbrev pub EndsWithin : ℕ → Outcome → Type 0
EndsWithin n (done lines code) = (code ≡ minus_one) ⊎ ((0 < code) × (code ≤ n))
EndsWithin n fault = Unit
EndsWithin n out_of_fuel = ⊥

EndsWithin-if :
    (n : ℕ) (b : Bool) (x y : Outcome)
    → (b ≡ true → EndsWithin n x)
    → (b ≡ false → EndsWithin n y)
    → EndsWithin n (if b then x else y)
EndsWithin-if n true x y hx hy = hx refl
EndsWithin-if n false x y hx hy = hy refl

EndsWithin-loaded {ℓ} :
    {A : Type ℓ} (n : ℕ) (o : Option A) (k : A → Outcome)
    → ((a : A) → o ≡ some a → EndsWithin n (k a))
    → EndsWithin n (loaded o k)
EndsWithin-loaded n none k h = tt
EndsWithin-loaded n (some a) k h = h a refl

-- A text of `len` bytes behind a header of `start`, with the sum of `start` and `len` in 32 bits.
text_end :
    (mem : Bytes) (start len : ℕ) {text : Bytes}
    → length mem < 2 ^ 31
    → 0 < start
    → slice mem start len ≡ some text
    → (0 < add32 start len) × (add32 start len ≤ length mem)
text_end mem start len h pos e = omega (arith, slice-bounds mem start len e)

read_err-EndsWithin : (mem : Bytes) → length mem < 2 ^ 31 → EndsWithin (length mem) (read_err mem)
unfolding read_err
read_err-EndsWithin mem h =
    EndsWithin-if (length mem) (ltb (length mem) 9) _ _ (λ _. inl refl)
      λ _. EndsWithin-loaded (length mem) (load32 mem 1) _ λ code _.
        EndsWithin-loaded (length mem) (load32 mem 5) _ λ len _.
          EndsWithin-if (length mem) (ltb (length mem) (add32 9 len)) _ _ (λ _. inl refl)
            λ _.
              EndsWithin-loaded (length mem) (slice mem 9 len) _
                λ text e. inr (text_end mem 9 len h (omega arith) e)

read_str-EndsWithin : (mem : Bytes) → length mem < 2 ^ 31 → EndsWithin (length mem) (read_str mem)
unfolding read_str
read_str-EndsWithin mem h =
    EndsWithin-if (length mem) (ltb (length mem) 5) _ _ (λ _. inl refl)
      λ _. EndsWithin-loaded (length mem) (load32 mem 1) _ λ len _.
        EndsWithin-if (length mem) (ltb (length mem) (add32 5 len)) _ _ (λ _. inl refl)
          λ _.
            EndsWithin-loaded (length mem) (slice mem 5 len) _
              λ text e. inr (text_end mem 5 len h (omega arith) e)

read_word-EndsWithin :
    (line : ℕ → Line) (mem : Bytes) → EndsWithin (length mem) (read_word line mem)
unfolding read_word
read_word-EndsWithin line mem =
    EndsWithin-if (length mem) (ltb (length mem) 9) _ _ (λ _. inl refl)
      λ short. EndsWithin-loaded (length mem) (load64 mem 1) _ λ val _. inr (ground arith)

module _ (read : Bytes → Outcome) (mem : Bytes) (small : length mem < 2 ^ 31)
    (inner : (d : Bytes) → length d < length mem → EndsWithin (length d) (read d)) where
  read_items-EndsWithin :
      (left pos : ℕ) (lines : List Line)
      → 5 ≤ pos
      → pos ≤ length mem
      → EndsWithin (length mem) (read_items read mem left pos lines)
  unfolding read_items
  read_items-EndsWithin zero pos lines h k = inr (omega arith)
  read_items-EndsWithin (suc left) pos lines h k =
      EndsWithin-if (length mem) (ltb (length mem) pos) _ _ (λ _. tt)
        λ _.
          element (read (drop pos mem)) (inner (drop pos mem) (omega (arith, length-drop pos mem)))
            (λ code more. read_items-EndsWithin left (add64 pos code) (lines ++ more))
    where
      element :
          (o : Outcome)
          → EndsWithin (length (drop pos mem)) o
          → ((code : ℕ) (more : List Line)
              → 5 ≤ add64 pos code
              → add64 pos code ≤ length mem
              → EndsWithin (length mem) (read_items read mem left (add64 pos code) (lines ++ more)))
          → EndsWithin (length mem) (elim o [
            | done more code ↦
                let rest = read_items read mem left (add64 pos code) (lines ++ more) in
                if is_negative code then done (lines ++ more) code else rest
            | fault ↦ fault
            | out_of_fuel ↦ out_of_fuel
          ])
      element (done more code) (inl e) go = rw e (inl refl)
      element (done more code) (inr (lo, hi)) go =
          let size = length-drop pos mem in
          EndsWithin-if (length mem) (is_negative code) _ _ (λ neg. absurd (ground arith))
            λ _. go code more (omega arith) (omega arith)
      element fault e go = tt
      element out_of_fuel e go = e

  read_arr-EndsWithin : EndsWithin (length mem) (read_arr read mem)
  unfolding read_arr
  read_arr-EndsWithin =
      EndsWithin-if (length mem) (ltb (length mem) 5) _ _ (λ _. inl refl)
        λ long.
          EndsWithin-loaded (length mem) (load32 mem 1) _
            λ len _. read_items-EndsWithin len 5 (arr_len len ∷ []) (omega arith) (ground arith)

  read_tagged-EndsWithin :
      (tag : ℕ) → 0 < length mem → EndsWithin (length mem) (read_tagged read tag mem)
  unfolding read_tagged
  read_tagged-EndsWithin tag pos =
      EndsWithin-if (length mem) (tag == 0) _ _ (λ _. inr (omega arith))
        λ _.
          EndsWithin-if (length mem) (tag == 1) _ _ (λ _. read_err-EndsWithin mem small)
            λ _.
              EndsWithin-if (length mem) (tag == 2) _ _ (λ _. read_str-EndsWithin mem small)
                λ _.
                  EndsWithin-if (length mem) (tag == 4) _ _ (λ _. read_word-EndsWithin int mem)
                    λ _.
                      EndsWithin-if (length mem) (tag == 5) _ _
                        (λ _. read_word-EndsWithin double mem)
                        λ _.
                          EndsWithin-if (length mem) (tag == 6) _ _ (λ _. read_arr-EndsWithin)
                            λ _. inl refl

-- With more fuel than the reply has bytes, `deserialize` ends on every reply of less than 2^31
-- bytes: it returns -1, or a count of bytes between 1 and the reply's size, or it faults.
pub deserialize-EndsWithin :
    (fuel : ℕ) (mem : Bytes)
    → length mem < fuel
    → length mem < 2 ^ 31
    → EndsWithin (length mem) (deserialize fuel mem)
unfolding deserialize
deserialize-EndsWithin zero mem h small = absurd (omega arith)
deserialize-EndsWithin (suc fuel) [] h small = inl refl
deserialize-EndsWithin (suc fuel) (tag ∷ mem) h small =
    read_tagged-EndsWithin (deserialize fuel) (tag ∷ mem) small
      (λ d shorter. deserialize-EndsWithin fuel d (omega arith) (omega arith)) tag (omega arith)

-- A text whose length field is at least 2^32 - 5 passes the client's test, since the test adds 5 to
-- it in 32 bits, and the client then reads outside the reply, whatever bytes follow, if they are
-- fewer than the length field says.
pub deserialize-wrapped_length :
    (fuel len : ℕ) (rest : Bytes)
    → u32_mod ≤ len + 5
    → len < u32_mod
    → length rest < len
    → deserialize (suc fuel) (2 ∷ (le32 len ++ rest)) ≡ fault
unfolding deserialize read_tagged slice
deserialize-wrapped_length fuel len rest wraps h short =
    let mem = 2 ∷ (le32 len ++ rest) in ground (arith, load32-le32 mem 1 len rest h refl)
