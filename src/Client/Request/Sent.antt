-- ===== src/Client/Request/Sent.antt =====
-- What `sendRequest` sends, and that the server's parser reads it back.
use coxx.Base.{
  ℕ, ◌+◌, ◌-◌, ◌%◌, ◌≤◌, ◌<◌, ◌≡◌, refl, sym, ap, ◌∙◌, Option, some, List, [], ◌∷◌, ◌++◌,
  append_assoc, append-nil, length, take, drop, arith, length-append, length-drop, length-take,
  length-replicate, take-append, drop-drop, take_add, ltb, if◌then◌else◌, Bool-cases, inl, inr,
}
use coxx.Base.Bytes.{Bytes, le32, u32_mod, add32, add64, slice, blit, blit-over, slice_lem}
use mathlib.Core.Path.{ap₂}
use coxx.Parse.{max_num_args, max_message_size, parse, ◌>>=◌}
use coxx.Parse.Frame.{words, frame, length-words_cons, length-le-words}
use coxx.Parse.RoundTrip.{parse-frame}
use coxx.Client.Request.{
  add_lengths, copy_words, refused, sent, packed, pack_buffer, blank, send_request,
}

add_lengths-words :
    (len : ℕ) (ws : List Bytes)
    → len + length (words ws) < u32_mod
    → add_lengths len ws ≡ len + length (words ws)
unfolding add_lengths
add_lengths-words len [] h = omega arith
add_lengths-words len (w ∷ ws) h =
    let size = length-words_cons w ws in
    let next : add32 len (4 + length w) ≡ len + (4 + length w) = omega arith in
    rw next (add_lengths-words (len + (4 + length w)) ws (omega arith) ∙ omega arith)

-- One round of the loop: a word behind its length.
copy_words_step :
    (front rest w : Bytes) (current : ℕ) (ws : List Bytes)
    → current ≡ length front
    → 4 + length w ≤ length rest
    → length front + length rest < u32_mod
    → copy_words (front ++ rest) current (w ∷ ws)
      ≡ copy_words
          ((front ++ (le32 (length w) ++ w)) ++ drop (4 + length w) rest)
          (current + (4 + length w))
          ws
unfolding copy_words
copy_words_step front rest w current ws e room small =
    let n = le32 (length w) in
    let size : length w % u32_mod ≡ length w = omega arith in
    let next : add64 current (4 + length w) ≡ current + (4 + length w) = omega arith in
    let place : add64 current 4 ≡ length (front ++ n) = omega (arith, length-append front n) in
    let sized : blit (front ++ rest) (length front) n ≡ some ((front ++ n) ++ drop 4 rest) =
      blit-over front rest n (omega arith) ∙ ap some (sym (append_assoc front n (drop 4 rest))) in
    let filled : blit ((front ++ n) ++ drop 4 rest) (length (front ++ n)) w
        ≡ some ((front ++ (n ++ w)) ++ drop (4 + length w) rest) =
      blit-over (front ++ n) (drop 4 rest) w (omega (arith, length-drop 4 rest))
      ∙ ap some (regroup front n w (drop (length w) (drop 4 rest)))
      ∙ ap (λ (x : Bytes). some ((front ++ (n ++ w)) ++ x)) (drop-drop (length w) 4 rest) in
    rw (size, e, sized, ◌>>=◌, ← e, place, filled, ◌>>=◌, next)
  where
    regroup : (a b c d : Bytes) → (a ++ b) ++ (c ++ d) ≡ (a ++ (b ++ c)) ++ d
    regroup a b c d = simp append_assoc

-- The words are written behind `front`, and what stands behind them stays.
copy_words-words :
    (front rest : Bytes) (current : ℕ) (ws : List Bytes)
    → current ≡ length front
    → length (words ws) ≤ length rest
    → length front + length rest < u32_mod
    → copy_words (front ++ rest) current ws
      ≡ some (front ++ (words ws ++ drop (length (words ws)) rest))
copy_words-words front rest current [] e room h = unfold copy_words in refl
copy_words-words front rest current (w ∷ ws) e room h =
    let size = length-words_cons w ws in
    let front' = front ++ (le32 (length w) ++ w) in
    let rest' = drop (4 + length w) rest in
    let longer = length-append front (le32 (length w) ++ w) in
    let shorter = length-drop (4 + length w) rest in
    copy_words_step front rest w current ws e (omega arith) h
    ∙ copy_words-words front' rest' (current + (4 + length w)) ws (omega arith) (omega arith)
        (omega arith)
    ∙ ap some (join front (le32 (length w)) w (words ws) (drop (length (words ws)) rest'))
    ∙ ap (λ (x : Bytes). some (front ++ (words (w ∷ ws) ++ x)))
        (drop-drop (length (words ws)) (4 + length w) rest ∙ ap (λ (k : ℕ). drop k rest) (sym size))
  where
    join : (a b c d x : Bytes) → (a ++ (b ++ c)) ++ (d ++ x) ≡ a ++ ((b ++ (c ++ d)) ++ x)
    join a b c d x = simp append_assoc

length-blank : (n : ℕ) → length (blank n) ≡ n
unfolding blank
length-blank n = length-replicate n 0

-- The source of the second copy: the count, and then whatever lies behind it on the stack.
source_lem :
    (n len : ℕ) (stack : Bytes)
    → 4 ≤ len
    → len ≤ 4 + length stack
    → slice (le32 n ++ stack) 0 len ≡ some (le32 n ++ take (len - 4) stack)
source_lem n len stack lo hi =
    let split : len ≡ 4 + (len - 4) = omega arith in
    slice_lem (le32 n ++ stack) 0 len (omega arith)
    ∙ ap (λ (k : ℕ). some (take k (le32 n ++ stack))) split
    ∙ ap some (take_add 4 (len - 4) (le32 n ++ stack))

-- The buffer begins with the length, the count and the words; what came from the stack is behind
-- them or overwritten.
pack_buffer-frame :
    (stack : Bytes) (ws : List Bytes) (len : ℕ)
    → len ≡ length (frame ws)
    → len ≤ max_message_size
    → max_message_size ≤ 4 + length stack
    → (rest : Bytes) × (pack_buffer stack ws len ≡ some ((le32 len ++ frame ws) ++ rest))
unfolding pack_buffer
pack_buffer-frame stack ws len e fits deep =
    let n = length ws in
    let zeros = blank (4 + max_message_size) in
    let wide : length zeros ≡ 4 + max_message_size = length-blank (4 + max_message_size) in
    let source = le32 n ++ take (len - 4) stack in
    let cut = length-take (len - 4) stack (omega arith) in
    let tail = take (len - 4) stack ++ drop (length source) (drop 4 zeros) in
    let size : n % u32_mod ≡ n = omega (arith, length-le-words ws) in
    let headed : blit zeros 0 (le32 len) ≡ some (le32 len ++ drop 4 zeros) =
      blit-over [] zeros (le32 len) (omega arith) in
    let counted : blit (le32 len ++ drop 4 zeros) 4 source ≡ some ((le32 len ++ le32 n) ++ tail) =
      blit-over (le32 len) (drop 4 zeros) source (omega (arith, length-drop 4 zeros)) in
    let room : length tail ≡ 4092 = omega (
      arith,
      length-append (take (len - 4) stack) (drop (length source) (drop 4 zeros)),
      length-drop (length source) (drop 4 zeros),
      length-drop 4 zeros,
    ) in
    let copied = copy_words-words (le32 len ++ le32 n) tail 8 ws refl (omega arith) (omega arith) in
    (
      drop (length (words ws)) tail,
      rw
          (
            headed,
            ◌>>=◌,
            size,
            source_lem n len stack (omega arith) (omega arith),
            ◌>>=◌,
            counted,
            ◌>>=◌,
          )
          copied,
    )

send_frame :
    (stack : Bytes) (ws : List Bytes) (len : ℕ)
    → len ≡ length (frame ws)
    → len ≤ max_message_size
    → max_message_size ≤ 4 + length stack
    → packed (pack_buffer stack ws len) (add32 4 len) ≡ sent (le32 len ++ frame ws)
send_frame stack ws len e fits deep =
    let (rest, filled) = pack_buffer-frame stack ws len e fits deep in
    ap (λ (o : Option Bytes). packed o (add32 4 len)) filled
    ∙ ap sent (take-append (add32 4 len) (le32 len ++ frame ws) rest (omega arith))

-- `sendRequest` refuses a command whose frame has more than 4096 bytes, and sends any other as the
-- frame's length and the frame, whatever lies on the stack. The frame's length is that of a
-- `uint32_t`, and the 4096 bytes that the code may copy from the stack can be read.
pub send_request-frame :
    (stack : Bytes) (ws : List Bytes)
    → length (frame ws) < u32_mod
    → max_message_size ≤ 4 + length stack
    → send_request stack ws ≡ (
        if ltb max_message_size (length (frame ws))
        then refused
        else sent (le32 (length (frame ws)) ++ frame ws))
unfolding send_request
send_request-frame stack ws small deep =
    let size : add_lengths 4 ws ≡ length (frame ws) =
      add_lengths-words 4 ws (omega arith) ∙ omega arith in
    rw size (elim (Bool-cases (ltb max_message_size (length (frame ws)))) [
      | inl over ↦ rw over
      | inr fits ↦ rw fits (send_frame stack ws (length (frame ws)) refl (ground arith) deep)
    ])

sent_bytes : {a b : Bytes} → sent a ≡ sent b → a ≡ b
sent_bytes e = cc

parse_whole :
    (n : ℕ) (ws : List Bytes)
    → length ws ≤ max_num_args
    → length (frame ws) < u32_mod
    → parse (drop 4 (le32 n ++ frame ws)) (length (le32 n ++ frame ws) - 4) ≡ some (0, ws)
parse_whole n ws few small =
    ap₂ parse (sym (append-nil (frame ws))) (omega arith) ∙ parse-frame ws [] few small

-- The server reads back, from the body of what was sent, the command that the client was given, if
-- the command has at most 1024 words.
pub parse-send_request :
    (stack : Bytes) (ws : List Bytes) {bytes : Bytes}
    → length ws ≤ max_num_args
    → length (frame ws) < u32_mod
    → max_message_size ≤ 4 + length stack
    → send_request stack ws ≡ sent bytes
    → parse (drop 4 bytes) (length bytes - 4) ≡ some (0, ws)
parse-send_request stack ws {bytes} few small deep e =
    elim (Bool-cases (ltb max_message_size (length (frame ws)))) [
      | inl over ↦
          let none_sent : send_request stack ws ≡ refused =
            send_request-frame stack ws small deep ∙ rw over in
          cc
      | inr fits ↦
          let whole : send_request stack ws ≡ sent (le32 (length (frame ws)) ++ frame ws) =
            send_request-frame stack ws small deep ∙ rw fits in
          let same : bytes ≡ le32 (length (frame ws)) ++ frame ws = sent_bytes (sym e ∙ whole) in
          rw same (parse_whole (length (frame ws)) ws few small)
    ]
