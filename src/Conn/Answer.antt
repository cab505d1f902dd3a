-- ===== src/Conn/Answer.antt =====
-- `tryOneRequest` and its loop: the requests that are whole in the read buffer.
use coxx.Base.{
  ℕ, zero, suc, ◌+◌, ◌≤◌, ◌<◌, ◌≡◌, refl, ap, subst, ◌∙◌, Bool, true, false, not, some, List, arith,
  ltb, ◌==◌, if◌then◌else◌, length, length-drop, drop, All-drop,
}
use native.Mathlib.Decide.{dec_lt}
use coxx.Base.Bytes.{Bytes, IsByte, u64_mod, add32, load32_total}
use coxx.Base.Run.{Run, ok, ◌>>=◌, Returns}
use coxx.Parse.{max_message_size, parse}
use coxx.Parse.RoundTrip.{parse_total}
use coxx.Conn.{
  Os, ConnectionState, req, res, end, Machine, is_req, fit, ended, respond, one_message,
  try_one_request, try_requests,
}
use coxx.Conn.Buffers.{IsBuffered, Writing, rewritten-IsBuffered, length-fit, pack-Packed}
use coxx.Conn.Flush.{state_response-Responded}
use coxx.Conn.Calls.{IsOs}

-- While the connection lives, the read buffer is never full between two reads.
abbrev pub Roomy : ConnectionState → ℕ → Type 0
Roomy req size = size < 4 + max_message_size
Roomy res size = size < 4 + max_message_size
Roomy end size = Unit

pub Roomy-lt : (state : ConnectionState) (size : ℕ) → size < 4 + max_message_size → Roomy state size
Roomy-lt req size h = h
Roomy-lt res size h = h
Roomy-lt end size h = tt

pub is_req-req : (state : ConnectionState) → is_req state ≡ true → state ≡ req
is_req-req req e = refl
is_req-req res e = absurd cc
is_req-req end e = absurd cc

-- The output of a command has a length that the code's sum of it does not wrap.
abbrev pub IsService : {Store : Type 0} → (Store → List Bytes → Store × Bytes) → Type 0
IsService {Store} run = (s : Store) (command : List Bytes) → 4 + length (run s command).1 < u64_mod

module _ {World Store : Type 0} (os : Os World) (run : Store → List Bytes → Store × Bytes)
    (patience : World → ℕ) (law : IsOs os patience) (service : IsService run) where
  -- One attempt: the next one has four bytes less to read at least, and none is left to make when
  -- the buffer has room again.
  pub record Answered (m : Machine World Store) (r : Machine World Store × Bool) : Type 0 where
    pub buffered : IsBuffered r.0.conn
    pub patient : patience r.0.world ≤ patience m.world
    pub more :
        r.1 ≡ true
        → (r.0.conn.state ≡ req) × (r.0.conn.read_buffer_size + 4 ≤ m.conn.read_buffer_size)
    pub room : r.1 ≡ false → Roomy r.0.conn.state r.0.conn.read_buffer_size

  Answered-ended :
      (m : Machine World Store) → IsBuffered m.conn → Answered m (ended os run m, false)
  Answered-ended m g = record {
    buffered =
        rewritten-IsBuffered m.conn end m.conn.write_buffer_sent m.conn.write_buffer_size g
          g.write_fits tt;
    patient = omega arith;
    more = λ e. absurd cc;
    room = λ e. tt;
  }

  Answered-unchanged :
      (m : Machine World Store)
      → IsBuffered m.conn
      → m.conn.read_buffer_size < 4 + max_message_size
      → Answered m (m, false)
  Answered-unchanged m g h = record {
    buffered = g;
    patient = omega arith;
    more = λ e. absurd cc;
    room = λ e. Roomy-lt m.conn.state m.conn.read_buffer_size h;
  }

  respond-Answered :
      (fuel : ℕ) (m : Machine World Store) (message_length : ℕ) (command : List Bytes)
      → IsBuffered m.conn
      → Writing req m.conn.write_buffer_sent m.conn.write_buffer_size
      → 4 + message_length ≤ m.conn.read_buffer_size
      → suc (patience m.world) < fuel
      → Returns (respond os run fuel m message_length command) (Answered m)
  unfolding respond
  respond-Answered fuel m message_length command g idle whole enough =
      let (store, output) = run m.store command in
      let (c, e, packed) =
        pack-Packed m.conn message_length (fit output) g idle whole
          (length-fit output (service m.store command)) in
      let (m', e', responded) =
        state_response-Responded os run patience law fuel (record m { conn = c; store = store })
          packed.buffered packed.response enough in
      (
        (m', is_req m'.conn.state),
        rw (e, e') refl,
        record {
          buffered = responded.buffered;
          patient = responded.patient;
          more = λ e. (is_req-req m'.conn.state e, omega (arith, responded.kept, packed.left));
          room = λ e.
              Roomy-lt m'.conn.state m'.conn.read_buffer_size
                (omega (arith, responded.kept, packed.left, g.read_fits));
        },
      )

  -- The request is whole, and was parsed.
  parsed-Answered :
      (fuel : ℕ) (m : Machine World Store) (message_length code : ℕ) (command : List Bytes)
      → IsBuffered m.conn
      → Writing req m.conn.write_buffer_sent m.conn.write_buffer_size
      → 4 + message_length ≤ m.conn.read_buffer_size
      → message_length ≤ max_message_size
      → suc (patience m.world) < fuel
      → parse (drop 4 m.conn.read_buffer) message_length ≡ some (code, command)
      → Returns (one_message os run fuel m message_length) (Answered m)
  unfolding one_message
  parsed-Answered fuel m message_length code command g idle whole small enough e =
      let test : ltb max_message_size message_length ≡ false = ground arith in
      let sum : add32 4 message_length ≡ 4 + message_length = omega arith in
      let test' : ltb m.conn.read_buffer_size (4 + message_length) ≡ false = ground arith in
      rw (test, sum, test', e) (by_code code)
    where
      by_code :
          (code : ℕ)
          → Returns
              (if not (code == 0)
                then ok (ended os run m, false)
                else respond os run fuel m message_length command)
              (Answered m)
      by_code zero = respond-Answered fuel m message_length command g idle whole enough
      by_code (suc code) =
          let test : (suc code == 0) ≡ false = ground arith in
          ((ended os run m, false), rw test refl, Answered-ended m g)

  one_message-Answered :
      (fuel : ℕ) (m : Machine World Store) (message_length : ℕ)
      → IsBuffered m.conn
      → Writing req m.conn.write_buffer_sent m.conn.write_buffer_size
      → 4 ≤ m.conn.read_buffer_size
      → suc (patience m.world) < fuel
      → Returns (one_message os run fuel m message_length) (Answered m)
  unfolding one_message
  one_message-Answered fuel m message_length g idle head enough =
      elim (dec_lt max_message_size message_length) [
        | yes long ↦
            let test : ltb max_message_size message_length ≡ true = ground arith in
            ((ended os run m, false), rw test refl, Answered-ended m g)
        | no not_long ↦
            let test : ltb max_message_size message_length ≡ false = ground arith in
            let sum : add32 4 message_length ≡ 4 + message_length = omega arith in
            elim (dec_lt m.conn.read_buffer_size (4 + message_length)) [
              | yes part ↦
                  let test' : ltb m.conn.read_buffer_size (4 + message_length) ≡ true =
                    ground arith in
                  ((m, false), rw (test, sum, test') refl, Answered-unchanged m g (omega arith))
              | no whole ↦
                  let (p, e, _) =
                    parse_total (drop 4 m.conn.read_buffer) message_length
                      (All-drop IsByte 4 m.conn.read_buffer g.read_bytes)
                      (
                        omega
                            (arith, g.read_fits, g.read_capacity, length-drop 4 m.conn.read_buffer),
                        omega arith,
                      ) in
                  parsed-Answered fuel m message_length p.0 p.1 g idle (omega arith) (omega arith)
                    enough e
            ]
      ]

  -- `tryOneRequest` ends with buffers in order.
  try_one_request-Answered :
      (fuel : ℕ) (m : Machine World Store)
      → IsBuffered m.conn
      → m.conn.state ≡ req
      → suc (patience m.world) < fuel
      → Returns (try_one_request os run fuel m) (Answered m)
  unfolding try_one_request
  try_one_request-Answered fuel m g s enough =
      let idle =
        subst
          (λ (st : ConnectionState). Writing st m.conn.write_buffer_sent m.conn.write_buffer_size) s
          g.writing in
      elim (dec_lt m.conn.read_buffer_size 4) [
        | yes short ↦
            let test : ltb m.conn.read_buffer_size 4 ≡ true = ground arith in
            ((m, false), rw test refl, Answered-unchanged m g (omega arith))
        | no long ↦
            let test : ltb m.conn.read_buffer_size 4 ≡ false = ground arith in
            let (n, e) = load32_total m.conn.read_buffer 0 (omega (arith, g.read_capacity)) in
            let (r, e', post) = one_message-Answered fuel m n g idle (omega arith) enough in
            (r, rw (test, e) e', post)
      ]

  -- The loop has answered every request that is whole in the read buffer.
  pub record Settled (before : ℕ) (m : Machine World Store) : Type 0 where
    pub buffered : IsBuffered m.conn
    pub patient : patience m.world ≤ before
    pub room : Roomy m.conn.state m.conn.read_buffer_size

  pub try_requests-Settled :
      (fuel : ℕ) (m : Machine World Store)
      → IsBuffered m.conn
      → m.conn.state ≡ req
      → 2 + patience m.world + m.conn.read_buffer_size < fuel
      → Returns (try_requests os run fuel m) (Settled (patience m.world))
  unfolding try_requests
  try_requests-Settled zero m g s enough = absurd (omega arith)
  try_requests-Settled (suc fuel) m g s enough =
      let (r, e, a) = try_one_request-Answered fuel m g s (omega arith) in
      let (m', e', post) =
        by_more (λ m' g' s' q. try_requests-Settled fuel m' g' s' q) r.0 r.1 a.buffered a.patient
          a.more a.room in
      (
        m',
        ap
              (λ (x : Run (Machine World Store × Bool)).
                x >>= λ r. elim r.1 [ true ↦ try_requests os run fuel r.0 | false ↦ ok r.0 ])
              e
            ∙ e',
        post,
      )
    where
      by_more :
          (rest : (m' : Machine World Store)
            → IsBuffered m'.conn
            → m'.conn.state ≡ req
            → 2 + patience m'.world + m'.conn.read_buffer_size < fuel
            → Returns (try_requests os run fuel m') (Settled (patience m'.world)))
          (m' : Machine World Store) (more : Bool)
          → IsBuffered m'.conn
          → patience m'.world ≤ patience m.world
          → (more ≡ true
              → (m'.conn.state ≡ req) × (m'.conn.read_buffer_size + 4 ≤ m.conn.read_buffer_size))
          → (more ≡ false → Roomy m'.conn.state m'.conn.read_buffer_size)
          → Returns
              (elim more [ true ↦ try_requests os run fuel m' | false ↦ ok m' ])
              (Settled (patience m.world))
      by_more rest m' false b p next room =
          (m', refl, record { buffered = b; patient = p; room = room refl })
      by_more rest m' true b p next room =
          let (m'', e, post) = rest m' b (next refl).0 (omega (arith, (next refl).1)) in
          (
            m'',
            e,
            record {
              buffered = post.buffered;
              patient = omega (arith, post.patient);
              room = post.room;
            },
          )
