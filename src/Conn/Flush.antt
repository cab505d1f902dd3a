-- ===== src/Conn/Flush.antt =====
-- The way from a reply to a flushed buffer: `tryFlushBuffer` and `stateResponse`.
use coxx.Base.{
  ℕ, zero, suc, ◌+◌, ◌-◌, ◌≤◌, ◌<◌, ◌≡◌, refl, sym, ap, subst, ◌∙◌, Bool, true, false, List, arith,
  leb, ◌==◌, length, length-take, length-drop, take, drop,
}
use native.Mathlib.Decide.{dec_lt}
use coxx.Base.Bytes.{Bytes, add64, slice_lem}
use coxx.Base.Run.{Run, ok, ◌>>=◌, Returns}
use coxx.Conn.{
  Call, interrupted, again, failed, done, Os, ConnectionState, req, res, end, Machine, sub64,
  flushed, written, try_flush_buffer, state_response, ended,
}
use coxx.Conn.Buffers.{IsBuffered, Writing, rewritten-IsBuffered}
use coxx.Conn.Calls.{IsOs, WriteOk, write_retry-WriteOk}

module _ {World Store : Type 0} (os : Os World) (run : Store → List Bytes → Store × Bytes)
    (patience : World → ℕ) (law : IsOs os patience) where
  -- One `write`: the read side is as it was, and another one follows only after some were taken.
  pub record Flushed (m : Machine World Store) (before : ℕ) (r : Machine World Store × Bool)
      : Type 0 where
    pub patient : patience r.0.world ≤ before
    pub kept : r.0.conn.read_buffer_size ≡ m.conn.read_buffer_size
    pub buffered : IsBuffered r.0.conn
    pub more : r.1 ≡ true → (r.0.conn.state ≡ res) × (patience r.0.world < before)

  -- What `tryFlushBuffer` does with what `write` returns.
  written-Flushed :
      (m : Machine World Store) (before : ℕ) (c : Call ℕ)
      → IsBuffered m.conn
      → m.conn.state ≡ res
      → m.conn.write_buffer_sent < m.conn.write_buffer_size
      → WriteOk before (patience m.world) (m.conn.write_buffer_size - m.conn.write_buffer_sent) c
      → Returns (written os run m c) (Flushed m before)
  unfolding written flushed
  written-Flushed m before interrupted g s h k = (
    (ended os run m, false),
    refl,
    record {
      patient = omega arith;
      kept = refl;
      buffered =
          rewritten-IsBuffered m.conn end m.conn.write_buffer_sent m.conn.write_buffer_size g
            g.write_fits tt;
      more = λ e. absurd cc;
    },
  )
  written-Flushed m before again g s h k =
      ((m, false), refl, record { patient = k; kept = refl; buffered = g; more = λ e. absurd cc })
  written-Flushed m before failed g s h k = (
    (ended os run m, false),
    refl,
    record {
      patient = k;
      kept = refl;
      buffered =
          rewritten-IsBuffered m.conn end m.conn.write_buffer_sent m.conn.write_buffer_size g
            g.write_fits tt;
      more = λ e. absurd cc;
    },
  )
  written-Flushed m before (done n) g s h k =
      let sent = m.conn.write_buffer_sent + n in
      let sum : add64 m.conn.write_buffer_sent n ≡ sent = omega (arith, g.write_fits) in
      let fits : leb sent m.conn.write_buffer_size ≡ true = ground arith in
      elim (dec_lt sent m.conn.write_buffer_size) [
        | yes less ↦
            let test : (sent == m.conn.write_buffer_size) ≡ false = ground arith in
            (
              (record m { conn = record m.conn { write_buffer_sent = sent } }, true),
              rw (sum, fits, test) refl,
              record {
                patient = omega arith;
                kept = refl;
                buffered =
                    rewritten-IsBuffered m.conn m.conn.state sent m.conn.write_buffer_size g
                      g.write_fits
                      (subst (λ (st : ConnectionState). Writing st sent m.conn.write_buffer_size)
                        (sym s) less);
                more = λ e. (s, k.1);
              },
            )
        | no not_less ↦
            let test : (sent == m.conn.write_buffer_size) ≡ true = ground arith in
            (
              (
                record m {
                  conn = record m.conn {
                    state = req;
                    write_buffer_sent = 0;
                    write_buffer_size = 0;
                  };
                },
                false,
              ),
              rw (sum, fits, test) refl,
              record {
                patient = omega arith;
                kept = refl;
                buffered = rewritten-IsBuffered m.conn req 0 0 g (omega arith) (refl, refl);
                more = λ e. absurd cc;
              },
            )
      ]

  -- `tryFlushBuffer` ends with buffers in order.
  try_flush_buffer-Flushed :
      (fuel : ℕ) (m : Machine World Store)
      → IsBuffered m.conn
      → m.conn.state ≡ res
      → m.conn.write_buffer_sent < m.conn.write_buffer_size
      → patience m.world < fuel
      → Returns (try_flush_buffer os run fuel m) (Flushed m (patience m.world))
  unfolding try_flush_buffer
  try_flush_buffer-Flushed fuel m g s h enough =
      let n = sub64 m.conn.write_buffer_size m.conn.write_buffer_sent in
      let left : n ≡ m.conn.write_buffer_size - m.conn.write_buffer_sent =
        omega (arith, g.write_fits) in
      let room : m.conn.write_buffer_sent + n ≤ length m.conn.write_buffer =
        omega (arith, g.write_fits, g.write_capacity) in
      let bytes = take n (drop m.conn.write_buffer_sent m.conn.write_buffer) in
      let e = slice_lem m.conn.write_buffer m.conn.write_buffer_sent n room in
      let l : length bytes ≡ n =
        length-take n (drop m.conn.write_buffer_sent m.conn.write_buffer)
          (omega (arith, length-drop m.conn.write_buffer_sent m.conn.write_buffer)) in
      let (r, e', post) = write_retry-WriteOk os run patience law fuel m.world bytes enough in
      let (r', e'', f) =
        written-Flushed (record m { world = r.0 }) (patience m.world) r.1 g s h
          (subst (λ (k : ℕ). WriteOk (patience m.world) (patience r.0) k r.1) (l ∙ left) post) in
      (
        r',
        rw (e, e') e'',
        record { patient = f.patient; kept = f.kept; buffered = f.buffered; more = f.more },
      )

  -- A connection with its buffers in order and the same bytes to read, in a world with no more patience.
  pub record Responded (size before : ℕ) (m : Machine World Store) : Type 0 where
    pub buffered : IsBuffered m.conn
    pub kept : m.conn.read_buffer_size ≡ size
    pub patient : patience m.world ≤ before

  -- `stateResponse` ends in buffers in order, with more fuel by two than the world has patience.
  pub state_response-Responded :
      (fuel : ℕ) (m : Machine World Store)
      → IsBuffered m.conn
      → m.conn.state ≡ res
      → suc (patience m.world) < fuel
      → Returns
          (state_response os run fuel m)
          (Responded m.conn.read_buffer_size (patience m.world))
  unfolding state_response
  state_response-Responded zero m g s enough = absurd (omega arith)
  state_response-Responded (suc fuel) m g s enough =
      let to_write =
        subst
          (λ (st : ConnectionState). Writing st m.conn.write_buffer_sent m.conn.write_buffer_size) s
          g.writing in
      let (r, e, f) = try_flush_buffer-Flushed fuel m g s to_write (omega arith) in
      let (m', e', post) =
        by_more (λ m' g' s' q. state_response-Responded fuel m' g' s' q) r.0 r.1 f.kept f.patient
          f.buffered f.more in
      (
        m',
        ap
              (λ (x : Run (Machine World Store × Bool)).
                x >>= λ r. elim r.1 [ true ↦ state_response os run fuel r.0 | false ↦ ok r.0 ])
              e
            ∙ e',
        post,
      )
    where
      by_more :
          (rest : (m' : Machine World Store)
            → IsBuffered m'.conn
            → m'.conn.state ≡ res
            → suc (patience m'.world) < fuel
            → Returns
                (state_response os run fuel m')
                (Responded m'.conn.read_buffer_size (patience m'.world)))
          (m' : Machine World Store) (more : Bool)
          → m'.conn.read_buffer_size ≡ m.conn.read_buffer_size
          → patience m'.world ≤ patience m.world
          → IsBuffered m'.conn
          → (more ≡ true → (m'.conn.state ≡ res) × (patience m'.world < patience m.world))
          → Returns
              (elim more [ true ↦ state_response os run fuel m' | false ↦ ok m' ])
              (Responded m.conn.read_buffer_size (patience m.world))
      by_more rest m' false k p b next = (m', refl, record { buffered = b; kept = k; patient = p })
      by_more rest m' true k p b next =
          let (m'', e, post) = rest m' b (next refl).0 (omega (arith, (next refl).1)) in
          (
            m'',
            e,
            record {
              buffered = post.buffered;
              kept = post.kept ∙ k;
              patient = omega (arith, post.patient);
            },
          )
