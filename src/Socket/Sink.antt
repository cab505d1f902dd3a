-- ===== src/Socket/Sink.antt =====
-- `writeAll` on a stream.
use coxx.Base.{
  ℕ, zero, suc, ◌+◌, ◌<◌, ◌≤◌, ◌≡◌, refl, sym, ap, ◌∙◌, true, false, [], ◌∷◌, ◌++◌, arith, ltb,
  length, take, drop, replicate, append_assoc, append-nil, length-drop, take-append, drop-drop,
  take-append-drop,
}
use native.Mathlib.Decide.{dec_lt}
use coxx.Base.Bytes.{Bytes}
use coxx.Base.Run.{Returns}
use coxx.Conn.{done, Os}
use coxx.Socket.{put, write_loop, write_all}

-- What is relied on of `write` on a blocking socket that is open: it sends a byte or more from the front
-- of what it is given.
pub record IsSink {World : Type 0} (os : Os World) (sent : World → Bytes) : Type 0 where
  pub writes :
      (w : World) (bytes : Bytes)
      → 0 < length bytes
      → (w' : World) × (k : ℕ) × (os.write w bytes ≡ (w', done (suc k)))
        × (suc k ≤ length bytes)
        × (sent w' ≡ sent w ++ take (suc k) bytes)

module _ {World : Type 0} (os : Os World) (fuel : ℕ) (w : World) (buffer : Bytes) (wrote : ℕ)
    (w' : World) (k : ℕ) where
  write_loop-more :
      ltb wrote (length buffer) ≡ true
      → os.write w (drop wrote buffer) ≡ (w', done (suc k))
      → write_loop os (suc fuel) w buffer wrote ≡ write_loop os fuel w' buffer (wrote + suc k)
  unfolding write_loop put
  write_loop-more more call = rw (call, more) refl

take-drop : (xs : Bytes) (n m : ℕ) → take n xs ++ drop m (drop n xs) ≡ take n xs ++ drop (n + m) xs
take-drop xs n m = ap (λ (ys : Bytes). take n xs ++ ys) (drop-drop m n xs)

module _ {World : Type 0} (os : Os World) (sent : World → Bytes) (sink : IsSink os sent) where
  write_loop-Sent :
      (fuel : ℕ) (w : World) (buffer : Bytes) (wrote : ℕ)
      → length buffer < wrote + fuel
      → wrote ≤ length buffer
      → Returns
          (write_loop os fuel w buffer wrote)
          λ r. (r.1 ≡ true) × (sent r.0 ≡ sent w ++ drop wrote buffer)
  unfolding write_loop
  write_loop-Sent zero w buffer wrote enough here = absurd (omega arith)
  write_loop-Sent (suc fuel) w buffer wrote enough here = elim (dec_lt wrote (length buffer)) [
    | no over ↦
        let all : ltb wrote (length buffer) ≡ false = ground (arith, over) in
        let nothing = drop_all buffer wrote (omega arith) in
        (
          (w, true),
          rw all refl,
          (refl, sym (ap (λ (xs : Bytes). sent w ++ xs) nothing ∙ append-nil (sent w))),
        )
    | yes left ↦
        let more : ltb wrote (length buffer) ≡ true = ground (arith, left) in
        let (w', k, call, few, wrote_now) =
          sink.writes w (drop wrote buffer) (omega (arith, length-drop wrote buffer)) in
        let (r, run, (done_all, sent_all)) =
          write_loop-Sent fuel w' buffer (wrote + suc k) (omega arith)
            (omega (arith, few, length-drop wrote buffer)) in
        (
          r,
          write_loop-more os fuel w buffer wrote w' k more call ∙ run,
          (
            done_all,
            sent_all
                ∙ (ap (λ (xs : Bytes). xs ++ drop (wrote + suc k) buffer) wrote_now
                    ∙ (append_assoc (sent w) (take (suc k) (drop wrote buffer))
                          (drop (wrote + suc k) buffer)
                        ∙ ap (λ (xs : Bytes). sent w ++ xs)
                            (ap (λ (xs : Bytes). take (suc k) (drop wrote buffer) ++ xs)
                                (sym (drop-drop (suc k) wrote buffer))
                              ∙ take-append-drop (suc k) (drop wrote buffer)))),
          ),
        )
  ]
    where
      drop_all : (xs : Bytes) (n : ℕ) → length xs ≤ n → drop n xs ≡ []
      drop_all xs n h = nil_of (drop n xs) (omega (arith, length-drop n xs, h))
        where
          nil_of : (ys : Bytes) → length ys ≡ 0 → ys ≡ []
          nil_of [] e = refl
          nil_of (y ∷ ys) e = absurd (omega (arith, e))

  -- `writeAll` of the first bytes of a buffer that has as many sends these and returns 0.
  pub write_all-Sent :
      (w : World) (front rest : Bytes)
      → Returns
          (write_all os w (front ++ rest) (length front))
          λ r. (r.1 ≡ true) × (sent r.0 ≡ sent w ++ front)
  unfolding write_all
  write_all-Sent w front rest =
      let cut : take (length front) ((front ++ rest) ++ replicate (length front) 0) ≡ front =
        ap (take (length front)) (append_assoc front rest (replicate (length front) 0))
        ∙ take-append (length front) front (rest ++ replicate (length front) 0) refl in
      let (r, run, sent_all) =
        write_loop-Sent (suc (length front)) w front 0 (omega arith) (omega arith) in
      (r, ap (λ (xs : Bytes). write_loop os (suc (length front)) w xs 0) cut ∙ run, sent_all)
