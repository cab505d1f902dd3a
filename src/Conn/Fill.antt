-- ===== src/Conn/Fill.antt =====
-- `stateRequest` and `io`: a connection's whole turn.
use coxx.Base.{
  ℕ, zero, suc, ◌+◌, ◌≤◌, ◌<◌, ◌≡◌, ◌≢◌, refl, ap, subst, ◌∙◌, Bool, true, false, List, arith,
}
use coxx.Base.Bytes.{Bytes}
use coxx.Base.Run.{Run, ok, fault, ◌>>=◌, Returns}
use coxx.Parse.{max_message_size}
use coxx.Conn.{Os, ConnectionState, req, res, end, Machine, state_request, state_response, io}
use coxx.Conn.Flush.{state_response-Responded}
use coxx.Conn.Calls.{IsOs}
use coxx.Conn.Answer.{Roomy, Roomy-lt, IsService}
use coxx.Conn.Receive.{IsConnection, try_fill_buffer-Filled}

module _ {World Store : Type 0} (os : Os World) (run : Store → List Bytes → Store × Bytes)
    (patience : World → ℕ) (law : IsOs os patience) (service : IsService run) where
  -- A connection in order, in a world with no more patience.
  pub record Turned (before : ℕ) (m : Machine World Store) : Type 0 where
    pub connected : IsConnection m.conn
    pub patient : patience m.world ≤ before

  state_request-Turned :
      (fuel : ℕ) (m : Machine World Store)
      → IsConnection m.conn
      → m.conn.state ≡ req
      → 3 + patience m.world + (4 + max_message_size) < fuel
      → Returns (state_request os run fuel m) (Turned (patience m.world))
  unfolding state_request
  state_request-Turned zero m g s enough = absurd (omega arith)
  state_request-Turned (suc fuel) m g s enough =
      let (r, e, f) = try_fill_buffer-Filled os run patience law service fuel m g s (omega arith) in
      let (m', e', post) =
        by_more (λ m' g' s' q. state_request-Turned fuel m' g' s' q) r.0 r.1 f.connected f.patient
          f.more in
      (
        m',
        ap
              (λ (x : Run (Machine World Store × Bool)).
                x >>= λ r. elim r.1 [ true ↦ state_request os run fuel r.0 | false ↦ ok r.0 ])
              e
            ∙ e',
        post,
      )
    where
      by_more :
          (rest : (m' : Machine World Store)
            → IsConnection m'.conn
            → m'.conn.state ≡ req
            → 3 + patience m'.world + (4 + max_message_size) < fuel
            → Returns (state_request os run fuel m') (Turned (patience m'.world)))
          (m' : Machine World Store) (more : Bool)
          → IsConnection m'.conn
          → patience m'.world ≤ patience m.world
          → (more ≡ true → (m'.conn.state ≡ req) × (patience m'.world < patience m.world))
          → Returns
              (elim more [ true ↦ state_request os run fuel m' | false ↦ ok m' ])
              (Turned (patience m.world))
      by_more rest m' false c p next = (m', refl, record { connected = c; patient = p })
      by_more rest m' true c p next =
          let (m'', e, post) = rest m' c (next refl).0 (omega (arith, (next refl).1)) in
          (m'', e, record { connected = post.connected; patient = omega (arith, post.patient) })

  -- `io` on a connection that is in order and has not ended: it ends, no assertion of it fails, it
  -- stays within its buffers, and it leaves the connection in order. The world's patience bounds the
  -- calls that do not fail with EAGAIN, and a command's output is shorter than 2^64 - 4 bytes.
  pub io-Turned :
      (fuel : ℕ) (m : Machine World Store)
      → IsConnection m.conn
      → m.conn.state ≢ end
      → 3 + patience m.world + (4 + max_message_size) < fuel
      → Returns (io os run fuel m) (Turned (patience m.world))
  unfolding io
  io-Turned fuel m g alive enough = by_state m.conn.state refl
    where
      by_state :
          (state : ConnectionState)
          → m.conn.state ≡ state
          → Returns
              (elim state [
                | req ↦ state_request os run fuel m
                | res ↦ state_response os run fuel m
                | end ↦ fault
              ])
              (Turned (patience m.world))
      by_state req s = state_request-Turned fuel m g s enough
      by_state res s =
          let room = subst (λ (st : ConnectionState). Roomy st m.conn.read_buffer_size) s g.room in
          let (m', e, post) =
            state_response-Responded os run patience law fuel m g.buffered s (omega arith) in
          (
            m',
            e,
            record {
              connected = record {
                buffered = post.buffered;
                room = Roomy-lt m'.conn.state m'.conn.read_buffer_size (omega (arith, post.kept));
              };
              patient = post.patient;
            },
          )
      by_state end s = absurd (alive s)
