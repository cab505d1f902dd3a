-- ===== src/Parse/Words.antt =====
-- The loop of `parse` over the words of a request.
use coxx.Base.{
  ℕ, zero, suc, ◌+◌, ◌-◌, ◌≤◌, ◌<◌, ◌≡◌, refl, sym, ap, ◌∙◌, subst, ◌⊎◌, inl, inr, some, List, [],
  ◌∷◌, ◌++◌, append-nil, append_assoc, arith, ◌==◌, Bool-cases, length, take, drop, All,
  length-drop, length-take, drop-drop, drop-append, take-append, All-drop, take_add,
}
use coxx.Base.Bytes.{
  Bytes, IsByte, u32_mod, le32, add32, add64, load32, slice, load32-le32, load32_total,
  load32_inverse, slice_lem,
}
use mathlib.Core.Path.{ap₂}
use native.Mathlib.Decide.{dec_lt}
use coxx.Parse.{malformed, parse_words}
use coxx.Parse.Frame.{words, length-words_cons}

-- A request lies in memory, and its length is that of a `uint32_t`.
abbrev pub Fits : Bytes → ℕ → Type 0
Fits mem len = (len ≤ length mem) × (len < u32_mod)

-- One round of the loop.
data Round (mem : Bytes) (len count pos : ℕ) (out : List Bytes) : Type 0 where
  refused :
      parse_words mem len (suc count) pos out ≡ some (malformed, out) → Round mem len count pos out
  took :
      (n : ℕ)
      → load32 mem pos ≡ some n
      → pos + 4 + n ≤ len
      → parse_words mem len (suc count) pos out
        ≡ parse_words mem len count (pos + 4 + n) (out ++ take n (drop (pos + 4) mem) ∷ [])
      → Round mem len count pos out

-- The bytes of one word and of what follows it, as a prefix of the memory behind the word's length.
cut_word :
    (d : Bytes) (n k : ℕ)
    → d ≡ le32 n ++ drop 4 d
    → take (4 + (n + k)) d ≡ le32 n ++ (take n (drop 4 d) ++ take k (drop n (drop 4 d)))
cut_word d n k e =
    let head : take 4 d ≡ le32 n =
      subst (λ (x : Bytes). take 4 x ≡ le32 n) (sym e) (take-append 4 (le32 n) (drop 4 d) refl) in
    take_add 4 (n + k) d ∙ ap₂ (λ (a b : Bytes). a ++ b) head (take_add n k (drop 4 d))

-- The parts of `cut_word` put together: `w` is the word that was read, `ws` those behind it.
read_word :
    (m k n : ℕ) (d w : Bytes) (ws : List Bytes)
    → m ≡ 4 + (n + k)
    → length w ≡ n
    → take n (drop 4 d) ≡ w
    → take k (drop n (drop 4 d)) ≡ words ws
    → take (4 + (n + k)) d ≡ le32 n ++ (take n (drop 4 d) ++ take k (drop n (drop 4 d)))
    → take m d ≡ words (w ∷ ws)
read_word m k n d w ws em el ew er cut =
    ap (λ (t : ℕ). take t d) em
    ∙ cut
    ∙ ap₂ (λ (a b : Bytes). le32 n ++ (a ++ b)) ew er
    ∙ ap (λ (t : ℕ). le32 t ++ (w ++ words ws)) (sym el)

module _ (mem : Bytes) (len : ℕ) (fits : Fits mem len) where
  parse_words_step :
      (count pos n : ℕ) (out : List Bytes)
      → load32 mem pos ≡ some n
      → pos + 4 + n ≤ len
      → parse_words mem len (suc count) pos out
        ≡ parse_words mem len count (pos + 4 + n) (out ++ take n (drop (pos + 4) mem) ∷ [])
  unfolding parse_words
  parse_words_step count pos n out e h =
      let next : add64 pos (add32 4 n) ≡ pos + 4 + n = omega arith in
      let ok : slice mem (pos + 4) n ≡ some (take n (drop (pos + 4) mem)) =
        slice_lem mem (pos + 4) n (omega arith) in
      ground (arith, e, ok, next)

  parse_words_short :
      (count pos : ℕ) (out : List Bytes)
      → pos ≤ len
      → len < pos + 4
      → parse_words mem len (suc count) pos out ≡ some (malformed, out)
  unfolding parse_words
  parse_words_short count pos out h short = ground arith

  parse_words_overlong :
      (count pos n : ℕ) (out : List Bytes)
      → load32 mem pos ≡ some n
      → pos + 4 ≤ len
      → n < u32_mod
      → len < pos + 4 + n
      → parse_words mem len (suc count) pos out ≡ some (malformed, out)
  unfolding parse_words
  parse_words_overlong count pos n out e h small over = ground (arith, e)

  module _ (bytes : All IsByte mem) where
    parse_words-Round : (count pos : ℕ) (out : List Bytes) → pos ≤ len → Round mem len count pos out
    parse_words-Round count pos out h = elim (dec_lt len (pos + 4)) [
      | yes short ↦ refused (parse_words_short count pos out h short)
      | no long ↦
          let (n, e) = load32_total mem pos (omega arith) in
          let small = (load32_inverse mem pos n (All-drop IsByte pos mem bytes) e).0 in
          elim (dec_lt len (pos + 4 + n)) [
            | yes over ↦ refused (parse_words_overlong count pos n out e (omega arith) small over)
            | no room ↦ took n e (omega arith) (parse_words_step count pos n out e (omega arith))
          ]
    ]

    -- The loop ends with one of the two codes, whatever the bytes.
    pub parse_words_total :
        (count pos : ℕ) (out : List Bytes)
        → pos ≤ len
        → (r : ℕ × List Bytes) × (parse_words mem len count pos out ≡ some r)
          × ((r.0 ≡ 0) ⊎ (r.0 ≡ malformed))
    parse_words_total zero pos out h = elim (Bool-cases (pos == len)) [
      | inl e ↦ ((0, out), unfold parse_words in rw e, inl refl)
      | inr e ↦ ((malformed, out), unfold parse_words in rw e, inr refl)
    ]
    parse_words_total (suc count) pos out h = elim (parse_words-Round count pos out h) [
      | refused e ↦ ((malformed, out), e, inr refl)
      | took n _ room e ↦
          let (r, e', c) =
            parse_words_total count (pos + 4 + n) (out ++ take n (drop (pos + 4) mem) ∷ []) room in
          (r, e ∙ e', c)
    ]

    drop_twice : (n pos : ℕ) → drop n (drop 4 (drop pos mem)) ≡ drop (pos + 4 + n) mem
    drop_twice n pos = rw (drop-drop 4 pos mem) (drop-drop n (pos + 4) mem)

    parse_words_end :
        (pos : ℕ) (out res : List Bytes)
        → parse_words mem len 0 pos out ≡ some (0, res)
        → (pos ≡ len) × (res ≡ out)
    unfolding parse_words
    parse_words_end pos out res e = ground arith

    -- A run that accepts has read, from `pos` to the end, the words that it returns.
    pub parse_words_sound :
        (count pos : ℕ) (out res : List Bytes)
        → pos ≤ len
        → parse_words mem len count pos out ≡ some (0, res)
        → (ws : List Bytes) × (res ≡ out ++ ws)
          × (length ws ≡ count)
          × (take (len - pos) (drop pos mem) ≡ words ws)
    parse_words_sound zero pos out res h e =
        let (here, same) = parse_words_end pos out res e in
        ([], same ∙ sym (append-nil out), refl, let z : len - pos ≡ 0 = omega arith in rw z)
    parse_words_sound (suc count) pos out res h e = elim (parse_words-Round count pos out h) [
      | refused e' ↦ absurd (cc)
      | took n load room e' ↦
          let (_, front) = load32_inverse mem pos n (All-drop IsByte pos mem bytes) load in
          let (ws, er, el, et) =
            parse_words_sound count (pos + 4 + n) (out ++ take n (drop (pos + 4) mem) ∷ []) res room
              (sym e' ∙ e) in
          let size : length (take n (drop (pos + 4) mem)) ≡ n =
            length-take n _ (omega (arith, length-drop (pos + 4) mem)) in
          let whole : len - pos ≡ 4 + (n + (len - (pos + 4 + n))) = omega arith in
          let cut = cut_word (drop pos mem) n (len - (pos + 4 + n)) front in
          (
            take n (drop (pos + 4) mem) ∷ ws,
            er ∙ append_assoc out _ ws,
            ap suc el,
            read_word _ _ n (drop pos mem) (take n (drop (pos + 4) mem)) ws whole size
                (ap (take n) (drop-drop 4 pos mem))
                (ap (take (len - (pos + 4 + n))) (drop_twice n pos) ∙ et) cut,
          )
    ]

  -- The words of a frame are read off the memory in order.
  pub parse_words-words :
      (ws : List Bytes) (pos : ℕ) (out : List Bytes) (rest : Bytes)
      → drop pos mem ≡ words ws ++ rest
      → pos + length (words ws) ≡ len
      → parse_words mem len (length ws) pos out ≡ some (0, out ++ ws)
  parse_words-words [] pos out rest d e = unfold parse_words in ground (arith, append-nil out)
  parse_words-words (w ∷ ws) pos out rest d e =
      let tail : drop (pos + 4) mem ≡ w ++ (words ws ++ rest) =
        sym (drop-drop 4 pos mem) ∙ ap (drop 4) d ∙ append_assoc w (words ws) rest in
      let inside : pos ≤ len = omega arith in
      let size = length-words_cons w ws in
      let load = load32-le32 mem pos (length w) ((w ++ words ws) ++ rest) (omega arith) d in
      parse_words_step (length ws) pos (length w) out load (omega arith)
      ∙ ap (λ (x : Bytes). parse_words mem len (length ws) (pos + 4 + length w) (out ++ x ∷ []))
          (ap (take (length w)) tail ∙ take-append (length w) w _ refl)
      ∙ parse_words-words ws (pos + 4 + length w) (out ++ w ∷ []) rest
          (sym (drop-drop (length w) (pos + 4) mem)
            ∙ ap (drop (length w)) tail
            ∙ drop-append (length w) w _ refl)
          (omega arith)
      ∙ ap (λ (x : List Bytes). some (0, x)) (append_assoc out (w ∷ []) ws)
