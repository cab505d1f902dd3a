-- ===== src/Conn/Calls.antt =====
-- The system calls as the connection relies on them, and the loops on EINTR.
use coxx.Base.{ℕ, zero, suc, ◌≤◌, ◌<◌, refl, List, arith, length, All}
use coxx.Base.Bytes.{Bytes, IsByte}
use coxx.Base.Run.{ok, Returns}
use coxx.Conn.{Call, interrupted, again, failed, done, Os, write_retry, read_retry}

-- A call takes some of the world's patience unless it is refused: an interruption, the bytes that
-- arrived and the room for bytes to write are finite until the call fails with EAGAIN.
abbrev pub ReadOk : ℕ → ℕ → ℕ → Call Bytes → Type 0
ReadOk before after n interrupted = after < before
ReadOk before after n again = after ≤ before
ReadOk before after n failed = after ≤ before
ReadOk before after n (done bytes) =
    (length bytes ≤ n) × All IsByte bytes × (after ≤ before) × (0 < length bytes → after < before)

abbrev pub WriteOk : ℕ → ℕ → ℕ → Call ℕ → Type 0
WriteOk before after n interrupted = after < before
WriteOk before after n again = after ≤ before
WriteOk before after n failed = after ≤ before
WriteOk before after n (done k) = (k ≤ n) × (after < before)

-- `read` returns at most as many bytes as there is room for, and `write` takes at most as many as it
-- is given.
pub record IsOs {World : Type 0} (os : Os World) (patience : World → ℕ) : Type 0 where
  pub read_ok :
      (w : World) (n : ℕ) → ReadOk (patience w) (patience (os.read w n).0) n (os.read w n).1
  pub write_ok :
      (w : World) (bytes : Bytes)
      → WriteOk (patience w) (patience (os.write w bytes).0) (length bytes) (os.write w bytes).1

ReadOk-le : (p q r n : ℕ) (c : Call Bytes) → q ≤ p → ReadOk q r n c → ReadOk p r n c
ReadOk-le p q r n interrupted h k = omega arith
ReadOk-le p q r n again h k = omega arith
ReadOk-le p q r n failed h k = omega arith
ReadOk-le p q r n (done bytes) h (a, b, c, d) = (a, b, omega arith, λ e. omega (arith, d e))

pub ReadOk-patient : (p q n : ℕ) (c : Call Bytes) → ReadOk p q n c → q ≤ p
ReadOk-patient p q n interrupted k = omega arith
ReadOk-patient p q n again k = k
ReadOk-patient p q n failed k = k
ReadOk-patient p q n (done bytes) k = k.2

WriteOk-le : (p q r n : ℕ) (c : Call ℕ) → q ≤ p → WriteOk q r n c → WriteOk p r n c
WriteOk-le p q r n interrupted h k = omega arith
WriteOk-le p q r n again h k = omega arith
WriteOk-le p q r n failed h k = omega arith
WriteOk-le p q r n (done b) h (a, c) = (a, omega arith)

module _ {World Store : Type 0} (os : Os World) (run : Store → List Bytes → Store × Bytes)
    (patience : World → ℕ) (law : IsOs os patience) where
  -- The loops on EINTR end.
  pub write_retry-WriteOk :
      (fuel : ℕ) (w : World) (bytes : Bytes)
      → patience w < fuel
      → Returns
          (write_retry os run fuel w bytes)
          λ r. WriteOk (patience w) (patience r.0) (length bytes) r.1
  unfolding write_retry
  write_retry-WriteOk zero w bytes h = absurd (omega arith)
  write_retry-WriteOk (suc fuel) w bytes h =
      by_call (λ w' q. write_retry-WriteOk fuel w' bytes q) (os.write w bytes).0
        (os.write w bytes).1 (law.write_ok w bytes)
    where
      by_call :
          (rest : (w' : World)
            → patience w' < fuel
            → Returns
                (write_retry os run fuel w' bytes)
                λ r. WriteOk (patience w') (patience r.0) (length bytes) r.1)
          (w' : World) (c : Call ℕ)
          → WriteOk (patience w) (patience w') (length bytes) c
          → Returns
              (elim c [
                | interrupted ↦ write_retry os run fuel w' bytes
                | again ↦ ok (w', again)
                | failed ↦ ok (w', failed)
                | done n ↦ ok (w', done n)
              ])
              λ r. WriteOk (patience w) (patience r.0) (length bytes) r.1
      by_call rest w' interrupted k =
          let (r, e, post) = rest w' (omega arith) in
          (
            r,
            e,
            WriteOk-le (patience w) (patience w') (patience r.0) (length bytes) r.1 (omega arith)
                post,
          )
      by_call rest w' again k = ((w', again), refl, k)
      by_call rest w' failed k = ((w', failed), refl, k)
      by_call rest w' (done n) k = ((w', done n), refl, k)

  pub read_retry-ReadOk :
      (fuel : ℕ) (w : World) (n : ℕ)
      → patience w < fuel
      → Returns (read_retry os run fuel w n) λ r. ReadOk (patience w) (patience r.0) n r.1
  unfolding read_retry
  read_retry-ReadOk zero w n h = absurd (omega arith)
  read_retry-ReadOk (suc fuel) w n h =
      by_call (λ w' q. read_retry-ReadOk fuel w' n q) (os.read w n).0 (os.read w n).1
        (law.read_ok w n)
    where
      by_call :
          (rest : (w' : World)
            → patience w' < fuel
            → Returns (read_retry os run fuel w' n) λ r. ReadOk (patience w') (patience r.0) n r.1)
          (w' : World) (c : Call Bytes)
          → ReadOk (patience w) (patience w') n c
          → Returns
              (elim c [
                | interrupted ↦ read_retry os run fuel w' n
                | again ↦ ok (w', again)
                | failed ↦ ok (w', failed)
                | done bytes ↦ ok (w', done bytes)
              ])
              λ r. ReadOk (patience w) (patience r.0) n r.1
      by_call rest w' interrupted k =
          let (r, e, post) = rest w' (omega arith) in
          (r, e, ReadOk-le (patience w) (patience w') (patience r.0) n r.1 (omega arith) post)
      by_call rest w' again k = ((w', again), refl, k)
      by_call rest w' failed k = ((w', failed), refl, k)
      by_call rest w' (done bytes) k = ((w', done bytes), refl, k)
