-- ===== src/Conn/Receive.antt =====
-- When a connection is in order, and one `read` with the requests that it completes.
use coxx.Base.{
  ℕ, ◌+◌, ◌-◌, ◌≤◌, ◌<◌, ◌≡◌, refl, subst, ◌∙◌, Bool, true, false, some, List, [], ◌∷◌, arith, ltb,
  leb, length, All,
}
use coxx.Base.Bytes.{Bytes, IsByte, add64, length-blit, blit}
use coxx.Base.Run.{ok, Returns}
use coxx.Parse.{max_message_size}
use coxx.Conn.{
  Os, Call, interrupted, again, failed, done, ConnectionState, req, end, Connection, new_connection,
  Machine, sub64, is_req, ended, read_retry, try_requests, received, try_fill_buffer,
}
use coxx.Conn.Buffers.{IsBuffered, rewritten-IsBuffered}
use coxx.Conn.Calls.{IsOs, ReadOk, ReadOk-patient, read_retry-ReadOk}
use coxx.Conn.Answer.{Roomy, IsService, is_req-req, Settled, try_requests-Settled}

-- Buffers in order, and room in the read buffer as long as the connection lives.
pub record IsConnection (c : Connection) : Type 0 where
  pub buffered : IsBuffered c
  pub room : Roomy c.state c.read_buffer_size

-- A new connection is in order.
pub new_connection-IsConnection :
    (read_memory write_memory : Bytes)
    → length read_memory ≡ 4 + max_message_size
    → All IsByte read_memory
    → length write_memory ≡ 4 + max_message_size
    → IsConnection (new_connection read_memory write_memory)
new_connection-IsConnection read_memory write_memory e g e' = record {
  buffered = record {
    read_capacity = e;
    read_bytes = g;
    write_capacity = e';
    read_fits = omega arith;
    write_fits = omega arith;
    writing = (refl, refl);
  };
  room = omega arith;
}

module _ {World Store : Type 0} (os : Os World) (run : Store → List Bytes → Store × Bytes)
    (patience : World → ℕ) (law : IsOs os patience) (service : IsService run) where
  -- After one read: a connection in order, and another read follows only after some bytes came.
  pub record Filled (before : ℕ) (r : Machine World Store × Bool) : Type 0 where
    pub connected : IsConnection r.0.conn
    pub patient : patience r.0.world ≤ before
    pub more : r.1 ≡ true → (r.0.conn.state ≡ req) × (patience r.0.world < before)

  Filled-ended :
      (before : ℕ) (m : Machine World Store)
      → IsBuffered m.conn
      → patience m.world ≤ before
      → Filled before (ended os run m, false)
  Filled-ended before m g p = record {
    connected = record {
      buffered =
          rewritten-IsBuffered m.conn end m.conn.write_buffer_sent m.conn.write_buffer_size g
            g.write_fits tt;
      room = tt;
    };
    patient = p;
    more = λ e. absurd cc;
  }

  received-Filled :
      (fuel before : ℕ) (m : Machine World Store) (c : Call Bytes)
      → IsConnection m.conn
      → m.conn.state ≡ req
      → ReadOk before (patience m.world) (4 + max_message_size - m.conn.read_buffer_size) c
      → 2 + patience m.world + (4 + max_message_size) < fuel
      → Returns (received os run fuel m c) (Filled before)
  unfolding received
  received-Filled fuel before m interrupted g s k enough =
      ((ended os run m, false), refl, Filled-ended before m g.buffered (omega arith))
  received-Filled fuel before m again g s k enough =
      ((m, false), refl, record { connected = g; patient = k; more = λ e. absurd cc })
  received-Filled fuel before m failed g s k enough =
      ((ended os run m, false), refl, Filled-ended before m g.buffered k)
  received-Filled fuel before m (done []) g s k enough =
      ((ended os run m, false), refl, Filled-ended before m g.buffered k.2)
  received-Filled fuel before m (done (b ∷ bytes)) g s k enough =
      let buffered = g.buffered in
      let room = subst (λ (st : ConnectionState). Roomy st m.conn.read_buffer_size) s g.room in
      let (filled, e, l, bs) =
        length-blit m.conn.read_buffer m.conn.read_buffer_size (b ∷ bytes)
          (omega (arith, k.0, buffered.read_capacity)) in
      by_buffer room filled e l bs
    where
      by_loop :
          (filled : Bytes)
          → blit m.conn.read_buffer m.conn.read_buffer_size (b ∷ bytes) ≡ some filled
          → (m' : Machine World Store)
          → try_requests os run fuel (record m {
            conn = record m.conn {
              read_buffer = filled;
              read_buffer_size = m.conn.read_buffer_size + length (b ∷ bytes);
            };
          })
            ≡ ok m'
          → Settled os run patience law service (patience m.world) m'
          → Returns (received os run fuel m (done (b ∷ bytes))) (Filled before)
      by_loop filled e m' e' settled =
          let buffered = g.buffered in
          let size = m.conn.read_buffer_size + length (b ∷ bytes) in
          let sum : add64 m.conn.read_buffer_size (length (b ∷ bytes)) ≡ size =
            omega (arith, k.0, buffered.read_fits) in
          let fits : leb size (length m.conn.read_buffer) ≡ true =
            ground (arith, k.0, buffered.read_capacity) in
          (
            (m', is_req m'.conn.state),
            rw (e, sum, fits, e') refl,
            record {
              connected = record { buffered = settled.buffered; room = settled.room };
              patient = omega (arith, settled.patient, k.2);
              more = λ q.
                  (is_req-req m'.conn.state q, omega (arith, settled.patient, k.3 (omega arith)));
            },
          )

      by_buffer :
          m.conn.read_buffer_size < 4 + max_message_size
          → (filled : Bytes)
          → blit m.conn.read_buffer m.conn.read_buffer_size (b ∷ bytes) ≡ some filled
          → length filled ≡ length m.conn.read_buffer
          → (All IsByte m.conn.read_buffer → All IsByte (b ∷ bytes) → All IsByte filled)
          → Returns (received os run fuel m (done (b ∷ bytes))) (Filled before)
      by_buffer room filled e l bs =
          let buffered = g.buffered in
          let size = m.conn.read_buffer_size + length (b ∷ bytes) in
          let longer : IsBuffered
              (record m.conn { read_buffer = filled; read_buffer_size = size }) =
            record {
              read_capacity = l ∙ buffered.read_capacity;
              read_bytes = bs buffered.read_bytes k.1;
              write_capacity = buffered.write_capacity;
              read_fits = omega (arith, k.0);
              write_fits = buffered.write_fits;
              writing = buffered.writing;
            } in
          let (m', e', settled) =
            try_requests-Settled os run patience law service fuel
              (record m { conn = record m.conn { read_buffer = filled; read_buffer_size = size } })
              longer s (omega (arith, longer.read_fits)) in
          by_loop filled e m' e' settled

  pub try_fill_buffer-Filled :
      (fuel : ℕ) (m : Machine World Store)
      → IsConnection m.conn
      → m.conn.state ≡ req
      → 2 + patience m.world + (4 + max_message_size) < fuel
      → Returns (try_fill_buffer os run fuel m) (Filled (patience m.world))
  unfolding try_fill_buffer
  try_fill_buffer-Filled fuel m g s enough =
      let buffered = g.buffered in
      let room = subst (λ (st : ConnectionState). Roomy st m.conn.read_buffer_size) s g.room in
      let (r, e, post) =
        read_retry-ReadOk os run patience law fuel m.world
          (sub64 (length m.conn.read_buffer) m.conn.read_buffer_size) (omega arith) in
      by_read (ground (arith, buffered.read_capacity, room)) r.0 r.1 e (
        subst (λ (n : ℕ). ReadOk (patience m.world) (patience r.0) n r.1)
          (omega (arith, buffered.read_capacity, room)) post)
    where
      by_read :
          ltb m.conn.read_buffer_size (length m.conn.read_buffer) ≡ true
          → (w : World) (c : Call Bytes)
          → read_retry os run fuel m.world
              (sub64 (length m.conn.read_buffer) m.conn.read_buffer_size)
            ≡ ok (w, c)
          → ReadOk
              (patience m.world)
              (patience w)
              (4 + max_message_size - m.conn.read_buffer_size)
              c
          → Returns (try_fill_buffer os run fuel m) (Filled (patience m.world))
      by_read test w c e k =
          rw (test, e)
            (received-Filled fuel (patience m.world) (record m { world = w }) c g s k
              (omega (
                arith,
                ReadOk-patient (patience m.world) (patience w)
                    (4 + max_message_size - m.conn.read_buffer_size) c k,
              )))
