-- ===== src/Client/Reads.antt =====
-- `deserialize` on what the server's `namespace out` writes.
use coxx.Base.{
  ℕ, zero, suc, ◌+◌, ◌^◌, ◌≤◌, ◌<◌, ◌≡◌, refl, ap, ◌∙◌, sym, List, [], ◌∷◌, ◌++◌, append_assoc,
  append-nil, length, drop, arith, length-append, drop-drop, drop-append, length-drop,
}
use coxx.Base.Bytes.{
  Bytes, le32, le64, u32_mod, u64_mod, add64, load32-le32, load64-le64, slice-some,
}
use coxx.Serialize.Value.{
  Value, Values, nil, err, str, num, dbl, arr, empty, item, count, encode, encode_all, IsSized,
  AreSized,
}
use coxx.Client.{
  Line, Outcome, done, int, double, arr_len, arr_end, read_err, read_str, read_word, read_items,
  read_arr, deserialize,
}

-- The output that a value should give.
unfoldable mutual
  pub lines : Value → List Line
  lines nil = Line.nil ∷ []
  lines (err code msg) = Line.err code msg ∷ []
  lines (str s) = Line.str s ∷ []
  lines (num v) = int v ∷ []
  lines (dbl v) = double v ∷ []
  lines (arr vs) = arr_len (count vs) ∷ (lines_all vs ++ arr_end ∷ [])

  pub lines_all : Values → List Line
  lines_all empty = []
  lines_all (item v vs) = lines v ++ lines_all vs

read_err-encode :
    (code : ℕ) (msg rest : Bytes)
    → code < u32_mod
    → length msg + 9 < u32_mod
    → let mem = 1 ∷ (le32 code ++ (le32 (length msg) ++ (msg ++ rest))) in
      read_err mem ≡ done (Line.err code msg ∷ []) (9 + length msg)
unfolding read_err
read_err-encode code msg rest hc hl =
    let mem = 1 ∷ (le32 code ++ (le32 (length msg) ++ (msg ++ rest))) in
    ground (
      arith,
      length-append msg rest,
      load32-le32 mem 1 code (le32 (length msg) ++ (msg ++ rest)) hc refl,
      load32-le32 mem 5 (length msg) (msg ++ rest) (omega arith) refl,
      slice-some mem 9 msg rest (omega arith) refl,
    )

read_str-encode :
    (s rest : Bytes)
    → length s + 5 < u32_mod
    → read_str (2 ∷ (le32 (length s) ++ (s ++ rest))) ≡ done (Line.str s ∷ []) (5 + length s)
unfolding read_str
read_str-encode s rest h =
    let mem = 2 ∷ (le32 (length s) ++ (s ++ rest)) in
    ground (
      arith,
      length-append s rest,
      load32-le32 mem 1 (length s) (s ++ rest) (omega arith) refl,
      slice-some mem 5 s rest (omega arith) refl,
    )

read_word-encode :
    (line : ℕ → Line) (tag v : ℕ) (rest : Bytes)
    → v < u64_mod
    → read_word line (tag ∷ (le64 v ++ rest)) ≡ done (line v ∷ []) 9
unfolding read_word
read_word-encode line tag v rest h =
    ground (arith, load64-le64 (tag ∷ (le64 v ++ rest)) 1 v rest h refl)

-- One element of an array is read, and the loop goes on behind it.
read_items_step :
    (read : Bytes → Outcome) (mem : Bytes) (left pos n : ℕ) (printed more : List Line)
    → pos ≤ length mem
    → pos + n < 2 ^ 31
    → read (drop pos mem) ≡ done more n
    → read_items read mem (suc left) pos printed
      ≡ read_items read mem left (pos + n) (printed ++ more)
unfolding read_items
read_items_step read mem left pos n printed more h small e =
    let next : add64 pos n ≡ pos + n = omega arith in ground (arith, e, next)

done_congr : {ls ls' : List Line} {a b : ℕ} → ls ≡ ls' → a ≡ b → done ls a ≡ done ls' b
done_congr p q = λ i. done (p i) (q i)

length-encode_pos : (v : Value) → 0 < length (encode v)
unfolding encode
length-encode_pos nil = omega arith
length-encode_pos _ = omega arith

abbrev ReadsValue : Value → Type 0
ReadsValue v =
    (fuel : ℕ) (rest : Bytes)
    → IsSized v
    → length (encode v) < 2 ^ 31
    → length (encode v) ≤ suc fuel
    → deserialize (suc fuel) (encode v ++ rest) ≡ done (lines v) (length (encode v))

abbrev ReadsValues : Values → Type 0
ReadsValues vs =
    (fuel : ℕ) (mem : Bytes) (pos : ℕ) (printed : List Line) (rest : Bytes)
    → AreSized vs
    → pos ≤ length mem
    → pos + length (encode_all vs) < 2 ^ 31
    → length (encode_all vs) ≤ fuel
    → drop pos mem ≡ encode_all vs ++ rest
    → read_items (deserialize fuel) mem (count vs) pos printed
      ≡ done ((printed ++ lines_all vs) ++ arr_end ∷ []) (pos + length (encode_all vs))

-- The array's tag and count stand before its elements.
read_arr-encode :
    (read : Bytes → Outcome) (n : ℕ) (body : Bytes)
    → n < u32_mod
    → read_arr read (6 ∷ (le32 n ++ body))
      ≡ read_items read (6 ∷ (le32 n ++ body)) n 5 (arr_len n ∷ [])
unfolding read_arr
read_arr-encode read n body h = ground (arith, load32-le32 (6 ∷ (le32 n ++ body)) 1 n body h refl)

mutual
  unfolding encode lines deserialize read_items

  reads_value : (v : Value) → ReadsValue v
  reads_value nil fuel rest s small enough = refl
  reads_value (err code msg) fuel rest (hc, hm) small enough =
      read_err-encode code msg rest hc (omega arith) ∙ done_congr refl (omega arith)
  reads_value (str x) fuel rest s small enough =
      read_str-encode x rest (omega arith) ∙ done_congr refl (omega arith)
  reads_value (num v) fuel rest s small enough = read_word-encode int 4 v rest s
  reads_value (dbl v) fuel rest s small enough = read_word-encode double 5 v rest s
  reads_value (arr vs) fuel rest (hn, s) small enough =
      read_arr-encode (deserialize fuel) (count vs) (encode_all vs ++ rest) hn
      ∙ reads_values vs fuel (6 ∷ (le32 (count vs) ++ (encode_all vs ++ rest))) 5
          (arr_len (count vs) ∷ []) rest s (omega arith) (omega arith) (omega arith) refl
      ∙ done_congr refl (omega arith)

  reads_values : (vs : Values) → ReadsValues vs
  reads_values empty fuel mem pos printed rest s h small enough e =
      done_congr (simp append-nil) (omega arith)
  reads_values (item v vs) zero mem pos printed rest s h small enough e =
      absurd (omega (arith, length-append (encode v) (encode_all vs), length-encode_pos v))
  reads_values (item v vs) (suc fuel) mem pos printed rest (sv, s) h small enough e =
      let size = length-append (encode v) (encode_all vs) in
      let front : drop pos mem ≡ encode v ++ (encode_all vs ++ rest) =
        e ∙ append_assoc (encode v) (encode_all vs) rest in
      let inside : pos + length (encode v) ≤ length mem = omega (
        arith,
        ap length front,
        length-drop pos mem,
        length-append (encode v) (encode_all vs ++ rest),
      ) in
      read_items_step (deserialize (suc fuel)) mem (count vs) pos (length (encode v)) printed
        (lines v) h (omega arith)
        (ap (deserialize (suc fuel)) front
          ∙ reads_value v fuel (encode_all vs ++ rest) sv (omega arith) (omega arith))
      ∙ reads_values vs (suc fuel) mem (pos + length (encode v)) (printed ++ lines v) rest s inside
          (omega arith) (omega arith)
          (sym (drop-drop (length (encode v)) pos mem)
            ∙ ap (drop (length (encode v))) front
            ∙ drop-append (length (encode v)) (encode v) (encode_all vs ++ rest) refl)
      ∙ done_congr (simp append_assoc) (omega arith)

-- `deserialize` on the encoding of a value, whatever follows it: the value's lines are printed, and
-- the result is the encoding's length. The fuel is the encoding's length, the length is that of an
-- `int32_t`, and the numbers, texts and arrays fit their words.
pub deserialize-encode :
    (v : Value) (fuel : ℕ) (rest : Bytes)
    → IsSized v
    → length (encode v) < 2 ^ 31
    → length (encode v) ≤ fuel
    → deserialize fuel (encode v ++ rest) ≡ done (lines v) (length (encode v))
deserialize-encode v zero rest s small enough = absurd (omega (arith, length-encode_pos v))
deserialize-encode v (suc fuel) rest s small enough = reads_value v fuel rest s small enough
