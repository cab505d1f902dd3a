-- ===== src/Socket/Stream.antt =====
-- `readFull` and `writeAll` on a stream.
use coxx.Base.{
  ℕ, zero, suc, ◌+◌, ◌-◌, ◌<◌, ◌≤◌, ◌≡◌, refl, sym, ap, ◌∙◌, true, false, ◌⊎◌, inl, inr, Option,
  none, some, [], ◌∷◌, ◌++◌, arith, ltb, leb, length, take, drop, length-append, append_assoc,
  append-nil,
}
use native.Mathlib.Decide.{dec_lt}
use coxx.Base.Bytes.{Bytes}
use coxx.Base.Run.{ok, Returns}
use coxx.Conn.{done, Os}
use coxx.Socket.{taken, read_loop, read_full}

-- What is relied on of `read` on a blocking socket: it takes a byte or more off the front of what will
-- arrive, and no more than asked for; at the end of the stream it gives none.
pub record IsStream {World : Type 0} (os : Os World) (pending : World → Bytes) : Type 0 where
  pub reads :
      (w : World) (n : ℕ)
      → 0 < n
      → 0 < length (pending w)
      → (w' : World) × (b : ℕ) × (bs : Bytes) × (os.read w n ≡ (w', done (b ∷ bs)))
        × (suc (length bs) ≤ n)
        × (pending w ≡ (b ∷ bs) ++ pending w')
  pub ends :
      (w : World) (n : ℕ) → length (pending w) ≡ 0 → (w' : World) × (os.read w n ≡ (w', done []))

take-split : (xs ys : Bytes) (m k : ℕ) → m ≡ length xs + k → take m (xs ++ ys) ≡ xs ++ take k ys
take-split [] ys m k e = ap (λ (n : ℕ). take n ys) (omega (arith, e))
take-split (x ∷ xs) ys zero k e = absurd (omega (arith, e))
take-split (x ∷ xs) ys (suc m) k e =
    ap (λ (zs : Bytes). x ∷ zs) (take-split xs ys m k (omega (arith, e)))

drop-split : (xs ys : Bytes) (m k : ℕ) → m ≡ length xs + k → drop m (xs ++ ys) ≡ drop k ys
drop-split [] ys m k e = ap (λ (n : ℕ). drop n ys) (omega (arith, e))
drop-split (x ∷ xs) ys zero k e = absurd (omega (arith, e))
drop-split (x ∷ xs) ys (suc m) k e = drop-split xs ys m k (omega (arith, e))

module _ {World : Type 0} (os : Os World) (fuel : ℕ) (w : World) (n : ℕ) (got : Bytes) (w' : World)
    (more : ltb (length got) n ≡ true) where
  read_loop-more :
      (b : ℕ) (bs : Bytes)
      → os.read w (n - length got) ≡ (w', done (b ∷ bs))
      → leb (suc (length bs)) (n - length got) ≡ true
      → read_loop os (suc fuel) w n got ≡ read_loop os fuel w' n (got ++ b ∷ bs)
  unfolding read_loop taken
  read_loop-more b bs call fits = rw (call, more, fits) refl

  read_loop-ends :
      os.read w (n - length got) ≡ (w', done []) → read_loop os (suc fuel) w n got ≡ ok (w', none)
  unfolding read_loop taken
  read_loop-ends call = rw (call, more) refl

module _ {World : Type 0} (os : Os World) (pending : World → Bytes)
    (stream : IsStream os pending) where
  -- Either all of the bytes asked for, which are those next in the stream, or the stream is shorter.
  abbrev pub Read : World → ℕ → Bytes → World × Option Bytes → Type 0
  Read w k got r =
      ((k ≤ length (pending w))
        × (r.1 ≡ some (got ++ take k (pending w)))
        × (pending r.0 ≡ drop k (pending w)))
      ⊎ ((length (pending w) < k) × (r.1 ≡ none))

  read_loop-Read :
      (fuel : ℕ) (w : World) (n k : ℕ) (got : Bytes)
      → n ≡ length got + k
      → k < fuel
      → Returns (read_loop os fuel w n got) (Read w k got)
  unfolding read_loop
  read_loop-Read zero w n k got e enough = absurd (omega arith)
  read_loop-Read (suc fuel) w n zero got e enough =
      let full : ltb (length got) n ≡ false = ground (arith, e) in
      ((w, some got), rw full refl, inl (omega arith, ap some (sym (append-nil got)), refl))
  read_loop-Read (suc fuel) w n (suc k) got e enough =
      let more : ltb (length got) n ≡ true = ground (arith, e) in
      let asked : n - length got ≡ suc k = omega (arith, e) in
      elim (dec_lt 0 (length (pending w))) [
        | no over ↦
            let (w', call) = stream.ends w (n - length got) (omega arith) in
            ((w', none), read_loop-ends os fuel w n got w' more call, inr (omega arith, refl))
        | yes some_there ↦
            let (w', b, bs, call, few, split) =
              stream.reads w (n - length got) (omega arith) some_there in
            let fits : leb (suc (length bs)) (n - length got) ≡ true = ground (arith, few) in
            let left = k - length bs in
            let total : length (pending w) ≡ suc (length bs) + length (pending w') =
              ap (λ (xs : Bytes). length xs) split ∙ length-append (b ∷ bs) (pending w') in
            let (r, run, read) =
              read_loop-Read fuel w' n left (got ++ b ∷ bs)
                (omega (arith, e, asked, few, length-append got (b ∷ bs)))
                (omega (arith, enough)) in
            let cut : suc k ≡ length (b ∷ bs) + left = omega (arith, asked, few) in
            (
              r,
              read_loop-more os fuel w n got w' more b bs call fits ∙ run,
              elim read [
                | inl (there, bytes, rest) ↦ inl (
                  omega (arith, total, there, cut),
                  bytes
                      ∙ ap some (
                          append_assoc got (b ∷ bs) (take left (pending w'))
                          ∙ ap (λ (xs : Bytes). got ++ xs)
                              (sym (
                                ap (take (suc k)) split
                                ∙ take-split (b ∷ bs) (pending w') (suc k) left cut))),
                  rest
                      ∙ sym (
                          ap (drop (suc k)) split
                          ∙ drop-split (b ∷ bs) (pending w') (suc k) left cut),
                )
                | inr (short, nothing) ↦ inr (omega (arith, total, short, cut), nothing)
              ],
            )
      ]

  -- `readFull` returns the next bytes of the stream, as many as it is asked for, or -1 when the stream
  -- ends before.
  pub read_full-Read : (w : World) (n : ℕ) → Returns (read_full os w n) (Read w n [])
  unfolding read_full
  read_full-Read w n = read_loop-Read (suc n) w n n [] (omega arith) (omega arith)
