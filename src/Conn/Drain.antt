-- ===== src/Conn/Drain.antt =====
-- `stateResponse` on a socket that takes what is written: the whole reply is sent.
use coxx.Base.{
  ℕ, zero, suc, ◌+◌, ◌-◌, ◌≤◌, ◌<◌, ◌≡◌, refl, sym, ap, ◌∙◌, subst, true, false, Bool-cases, inl,
  inr, List, ◌++◌, append_assoc, arith, leb, ◌==◌, length, take, drop, take_add, take-append,
  take-length, drop-drop, length-take, length-drop,
}
use coxx.Base.Bytes.{Bytes, add64, slice_lem}
use coxx.Base.Run.{ok, Returns}
use coxx.Conn.{
  Call, done, Os, ConnectionState, req, res, Connection, Machine, sub64, write_retry, flushed,
  written, try_flush_buffer, state_response,
}
use coxx.Conn.Buffers.{IsBuffered, rewritten-IsBuffered}
use coxx.Conn.Reply.{unsent}
use coxx.Socket.Sink.{IsSink}

length-unsent :
    (c : Connection) → IsBuffered c → length (unsent c) ≡ c.write_buffer_size - c.write_buffer_sent
length-unsent c g =
    length-take (c.write_buffer_size - c.write_buffer_sent)
      (drop c.write_buffer_sent c.write_buffer)
      (omega
        (arith, length-drop c.write_buffer_sent c.write_buffer, g.write_fits, g.write_capacity))

-- What is left to write after some bytes of it.
unsent_split :
    (c : Connection) (j : ℕ)
    → IsBuffered c
    → c.write_buffer_sent + j ≤ c.write_buffer_size
    → take j (unsent c) ++ unsent (record c { write_buffer_sent = c.write_buffer_sent + j })
      ≡ unsent c
unsent_split c j g h =
    let n = c.write_buffer_size - c.write_buffer_sent in
    let r = c.write_buffer_size - (c.write_buffer_sent + j) in
    let back = drop c.write_buffer_sent c.write_buffer in
    let front = take j back in
    let later = take r (drop (c.write_buffer_sent + j) c.write_buffer) in
    let l : length front ≡ j = length-take j back (
      omega
        (arith, length-drop c.write_buffer_sent c.write_buffer, g.write_fits, g.write_capacity)) in
    let split : unsent c ≡ front ++ later =
      ap (λ (i : ℕ). take i back) (omega arith)
      ∙ (take_add j r back
          ∙ ap (λ (xs : Bytes). front ++ take r xs)
              (drop-drop j c.write_buffer_sent c.write_buffer)) in
    ap (λ (xs : Bytes). xs ++ later) (ap (take j) split ∙ take-append j front later (sym l))
    ∙ sym split

module _ {World Store : Type 0} (os : Os World) (run : Store → List Bytes → Store × Bytes)
    (sent : World → Bytes) (sink : IsSink os sent) where
  -- The reply is written, and the connection waits for requests again.
  pub record Drained (m m' : Machine World Store) : Type 0 where
    pub conn : m'.conn ≡ record m.conn { state = req; write_buffer_sent = 0; write_buffer_size = 0 }
    pub store : m'.store ≡ m.store
    pub out : sent m'.world ≡ sent m.world ++ unsent m.conn

  write_retry-done :
      (fuel n : ℕ) (w w' : World) (bytes : Bytes)
      → os.write w bytes ≡ (w', done n)
      → write_retry os run (suc fuel) w bytes ≡ ok (w', done n)
  unfolding write_retry
  write_retry-done fuel n w w' bytes e =
      rw (write_retry, e) (ap (λ (r : World × Call ℕ). ok (r.0, done n)) e)

  -- One `write` of `tryFlushBuffer`.
  try_flush_buffer-flushed :
      (fuel n : ℕ) (m : Machine World Store) (w : World)
      → IsBuffered m.conn
      → m.conn.write_buffer_sent < m.conn.write_buffer_size
      → os.write m.world (unsent m.conn) ≡ (w, done n)
      → try_flush_buffer os run (suc fuel) m ≡ flushed os run (record m { world = w }) n
  unfolding try_flush_buffer written
  try_flush_buffer-flushed fuel n m w g h e =
      let left = m.conn.write_buffer_size - m.conn.write_buffer_sent in
      let size : sub64 m.conn.write_buffer_size m.conn.write_buffer_sent ≡ left =
        omega (arith, g.write_fits) in
      let cut =
        slice_lem m.conn.write_buffer m.conn.write_buffer_sent left
          (omega (arith, g.write_fits, g.write_capacity)) in
      rw (size, cut, write_retry-done fuel n m.world w (unsent m.conn) e) refl

  flush_once :
      (fuel : ℕ) (m : Machine World Store)
      → IsBuffered m.conn
      → m.conn.write_buffer_sent < m.conn.write_buffer_size
      → (w : World) × (k : ℕ) × (m.conn.write_buffer_sent + suc k ≤ m.conn.write_buffer_size)
        × (sent w ≡ sent m.world ++ take (suc k) (unsent m.conn))
        × (try_flush_buffer os run (suc fuel) m ≡ flushed os run (record m { world = w }) (suc k))
  flush_once fuel m g h =
      let l = length-unsent m.conn g in
      let (w, k, write_eq, fits, all_sent) =
        sink.writes m.world (unsent m.conn) (omega (arith, l)) in
      (
        w,
        k,
        omega (arith, fits, l),
        all_sent,
        try_flush_buffer-flushed fuel (suc k) m w g h write_eq,
      )

  state_response_step :
      (fuel k : ℕ) (m : Machine World Store) (w : World)
      → IsBuffered m.conn
      → m.conn.write_buffer_sent + suc k < m.conn.write_buffer_size
      → try_flush_buffer os run (suc fuel) m ≡ flushed os run (record m { world = w }) (suc k)
      → state_response os run (suc (suc fuel)) m
        ≡ state_response os run (suc fuel) (record m {
          conn = record m.conn { write_buffer_sent = m.conn.write_buffer_sent + suc k };
          world = w;
        })
  unfolding state_response flushed
  state_response_step fuel k m w g h step =
      let sum : add64 m.conn.write_buffer_sent (suc k) ≡ m.conn.write_buffer_sent + suc k =
        omega (arith, h, g.write_fits) in
      let inside : leb (m.conn.write_buffer_sent + suc k) m.conn.write_buffer_size ≡ true =
        ground (arith, h) in
      let more : (m.conn.write_buffer_sent + suc k == m.conn.write_buffer_size) ≡ false =
        ground (arith, h) in
      rw (step, sum, inside, more) refl

  pub state_response-Drained :
      (fuel : ℕ) (m : Machine World Store)
      → IsBuffered m.conn
      → m.conn.state ≡ res
      → m.conn.write_buffer_sent < m.conn.write_buffer_size
      → suc (m.conn.write_buffer_size - m.conn.write_buffer_sent) < fuel
      → Returns (state_response os run fuel m) (Drained m)
  unfolding state_response flushed
  state_response-Drained zero m g s h enough = absurd (omega arith)
  state_response-Drained (suc zero) m g s h enough = absurd (omega arith)
  state_response-Drained (suc (suc fuel)) m g s h enough =
      let (w, k, fits, out, step) = flush_once fuel m g h in
      let sum : add64 m.conn.write_buffer_sent (suc k) ≡ m.conn.write_buffer_sent + suc k =
        omega (arith, fits, g.write_fits) in
      let inside : leb (m.conn.write_buffer_sent + suc k) m.conn.write_buffer_size ≡ true =
        ground (arith, fits) in
      elim (Bool-cases (m.conn.write_buffer_sent + suc k == m.conn.write_buffer_size)) [
        | inl last ↦
            let count : suc k ≡ m.conn.write_buffer_size - m.conn.write_buffer_sent =
              ground (arith, last) in
            (
              record m {
                conn = record m.conn { state = req; write_buffer_sent = 0; write_buffer_size = 0 };
                world = w;
              },
              rw (step, sum, inside, last) refl,
              record {
                conn = refl;
                store = refl;
                out = out ∙ ap (λ (xs : Bytes). sent m.world ++ xs) (whole k count);
              },
            )
        | inr more ↦
            let later : m.conn.write_buffer_sent + suc k < m.conn.write_buffer_size =
              ground (arith, more, fits) in
            let c : Connection = record m.conn {
              write_buffer_sent = m.conn.write_buffer_sent + suc k;
            } in
            let (m', run_eq, d) =
              state_response-Drained (suc fuel) (record m { conn = c; world = w }) (still k later) s
                later (omega arith) in
            (
              m',
              state_response_step fuel k m w g later step ∙ run_eq,
              record { conn = d.conn; store = d.store; out = d.out ∙ glued w k later out },
            )
      ]
    where
      whole :
          (k : ℕ)
          → suc k ≡ m.conn.write_buffer_size - m.conn.write_buffer_sent
          → take (suc k) (unsent m.conn) ≡ unsent m.conn
      whole k e =
          ap (λ (n : ℕ). take n (unsent m.conn)) (e ∙ sym (length-unsent m.conn g))
          ∙ take-length (unsent m.conn)

      still :
          (k : ℕ)
          → m.conn.write_buffer_sent + suc k < m.conn.write_buffer_size
          → IsBuffered (record m.conn { write_buffer_sent = m.conn.write_buffer_sent + suc k })
      still k h =
          subst
            (λ (st : ConnectionState).
              IsBuffered (record m.conn {
                state = st;
                write_buffer_sent = m.conn.write_buffer_sent + suc k;
              }))
            (sym s)
            (rewritten-IsBuffered m.conn res (m.conn.write_buffer_sent + suc k)
              m.conn.write_buffer_size g g.write_fits h)

      glued :
          (w : World) (k : ℕ)
          → m.conn.write_buffer_sent + suc k < m.conn.write_buffer_size
          → sent w ≡ sent m.world ++ take (suc k) (unsent m.conn)
          → sent w
              ++ unsent (record m.conn { write_buffer_sent = m.conn.write_buffer_sent + suc k })
            ≡ sent m.world ++ unsent m.conn
      glued w k h e =
          let c = record m.conn { write_buffer_sent = m.conn.write_buffer_sent + suc k } in
          ap (λ (xs : Bytes). xs ++ unsent c) e
          ∙ (append_assoc (sent m.world) (take (suc k) (unsent m.conn)) (unsent c)
              ∙ ap (λ (xs : Bytes). sent m.world ++ xs)
                  (unsent_split m.conn (suc k) g (omega (arith, h))))
