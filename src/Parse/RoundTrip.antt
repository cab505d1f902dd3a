-- ===== src/Parse/RoundTrip.antt =====
-- `Request::parse` accepts exactly the frames of the protocol, and never reads outside its request.
use coxx.Base.{
  ℕ, ◌+◌, ◌-◌, ◌≤◌, ◌<◌, ◌≡◌, refl, sym, ap, ◌∙◌, ◌⊎◌, inl, inr, ◌↔◌, some, List, [], ◌++◌, arith,
  Option-cases, length, take, drop, All, length-append, length-take, take-append, take-append-drop,
  take_add,
}
use coxx.Base.Bytes.{
  Bytes, IsByte, u32_mod, le32, load32, load32-le32, load32_total, load32_inverse,
}
use mathlib.Core.Path.{ap₂}
use native.Mathlib.Decide.{dec_lt}
use coxx.Parse.{max_num_args, malformed, parse_words, parse}
use coxx.Parse.Frame.{words, frame}
use coxx.Parse.Words.{parse_words_total, parse_words_sound, Fits, parse_words-words}

-- A frame that lies at the front of the memory is parsed to its words, if they are not too many
-- and the frame's length is that of a `uint32_t`.
pub parse-frame :
    (ws : List Bytes) (rest : Bytes)
    → length ws ≤ max_num_args
    → length (frame ws) < u32_mod
    → parse (frame ws ++ rest) (length (frame ws)) ≡ some (0, ws)
unfolding parse
parse-frame ws rest few short =
    let mem = frame ws ++ rest in
    let fits : Fits mem (length (frame ws)) = omega (arith, length-append (frame ws) rest) in
    ground (
      arith,
      load32-le32 mem 0 (length ws) (words ws ++ rest) (omega arith) refl,
      parse_words-words mem (length (frame ws)) fits ws 4 [] rest refl (omega arith),
    )

-- On memory that holds the request `parse` ends, reads nothing outside the request, and returns
-- either 0 or -1.
pub parse_total :
    (mem : Bytes) (len : ℕ)
    → All IsByte mem
    → Fits mem len
    → (r : ℕ × List Bytes) × (parse mem len ≡ some r) × ((r.0 ≡ 0) ⊎ (r.0 ≡ malformed))
unfolding parse
parse_total mem len bytes fits = elim (dec_lt len 4) [
  | yes short ↦ ((malformed, []), ground arith, inr refl)
  | no long ↦
      let (n, e) = load32_total mem 0 (omega arith) in
      elim (dec_lt max_num_args n) [
        | yes many ↦ ((malformed, []), ground (arith, e), inr refl)
        | no few ↦
            let (r, e', c) = parse_words_total mem len fits bytes n 4 [] (omega arith) in
            (r, ground (arith, e, e'), c)
      ]
]

-- A request that is accepted has a count that is not too large, and the loop accepted the rest.
parse_inverse :
    (mem : Bytes) (len : ℕ) (ws : List Bytes)
    → parse mem len ≡ some (0, ws)
    → (n : ℕ) × (4 ≤ len)
      × (load32 mem 0 ≡ some n)
      × (n ≤ max_num_args)
      × (parse_words mem len n 4 [] ≡ some (0, ws))
unfolding parse
parse_inverse mem len ws e = elim (Option-cases (load32 mem 0)) [
  | inl no_word ↦ absurd (ground (arith, no_word))
  | inr (n, load) ↦ (n, ground (arith, load), load, ground (arith, load), ground (arith, load))
]

parse-frame_only :
    (mem : Bytes) (len : ℕ) (ws : List Bytes)
    → All IsByte mem
    → Fits mem len
    → parse mem len ≡ some (0, ws)
    → (length ws ≤ max_num_args) × (take len mem ≡ frame ws)
parse-frame_only mem len ws bytes fits e =
    let (n, long, load, few, e') = parse_inverse mem len ws e in
    let (_, front) = load32_inverse mem 0 n bytes load in
    let (vs, same, count, read) = parse_words_sound mem len fits bytes n 4 [] ws long e' in
    let head : take 4 mem ≡ le32 n = ap (take 4) front ∙ take-append 4 (le32 n) (drop 4 mem) refl in
    let size : length ws ≡ n = ap length same ∙ count in
    let split : len ≡ 4 + (len - 4) = omega arith in
    (
      omega arith,
      ap (λ (t : ℕ). take t mem) split
          ∙ take_add 4 (len - 4) mem
          ∙ ap₂ (λ (a b : Bytes). a ++ b) head read
          ∙ ap₂ (λ (t : ℕ) (v : List Bytes). le32 t ++ words v) (sym size) (sym same),
    )

-- `parse` returns 0 with the words `ws` exactly when the request is the frame of `ws`, and there
-- are at most 1024 of them.
pub parse-eq-zero_iff :
    (mem : Bytes) (len : ℕ) (ws : List Bytes)
    → All IsByte mem
    → Fits mem len
    → (parse mem len ≡ some (0, ws)) ↔ ((length ws ≤ max_num_args) × (take len mem ≡ frame ws))
parse-eq-zero_iff mem len ws bytes fits = (parse-frame_only mem len ws bytes fits, back)
  where
    back : (length ws ≤ max_num_args) × (take len mem ≡ frame ws) → parse mem len ≡ some (0, ws)
    back (few, e) =
        let whole = length-take len mem fits.0 in
        let size : length (frame ws) ≡ len = omega (arith, ap length e) in
        ap₂ parse (sym (take-append-drop len mem) ∙ ap (λ (x : Bytes). x ++ drop len mem) e)
          (sym size)
        ∙ parse-frame ws (drop len mem) few (omega arith)
