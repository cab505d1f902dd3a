-- ===== src/Conn.antt =====
-- common/conn.hxx and common/conn.cxx: one connection of the server, a state machine over a buffer
-- for the bytes that arrive and one for the reply. `read` and `write` and the run of a command are
-- parameters. The lines that the code prints are left out.
pub mod Buffers
pub mod Calls
pub mod Flush
pub mod Answer
pub mod Receive
pub mod Fill
pub mod Reply
pub mod Drain
pub mod Pipeline
use coxx.Base.{
  ℕ, zero, suc, ◌+◌, ◌-◌, ◌*◌, ◌%◌, ◌≤◌, ◌<◌, ◌≡◌, Bool, true, false, not, ◌&&◌, Option, none, some,
  List, [], ◌∷◌, ◌++◌, ltb, leb, ◌==◌, if◌then◌else◌, length, take, drop,
}
use coxx.Base.Bytes.{Bytes, le32, u32_mod, u64_mod, add32, add64, load32, slice, blit}
use coxx.Base.Run.{Run, ok, fault, out_of_fuel, need, check, ◌>>=◌}
use coxx.Parse.{max_message_size, parse}
use coxx.Serialize.{err}

-- What a system call comes to: -1 with EINTR, -1 with EAGAIN, -1 with another error, or a result.
pub data Call (A : Type 0) : Type 0 where
  interrupted : Call A
  again : Call A
  failed : Call A
  done : A → Call A

-- `read` of at most so many bytes, none of them at the end of the stream, and `write`.
pub record Os (World : Type 0) : Type 0 where
  pub read : World → ℕ → World × Call Bytes
  pub write : World → Bytes → World × Call ℕ

-- `ConnectionState`
pub data ConnectionState : Type 0 where
  req : ConnectionState
  res : ConnectionState
  end : ConnectionState

-- The buffers are the memory that they reserve, the sizes are how much of it is in use.
pub record Connection : Type 0 where
  pub state : ConnectionState
  pub read_buffer : Bytes
  pub write_buffer : Bytes
  pub write_buffer_sent : ℕ
  pub write_buffer_size : ℕ
  pub read_buffer_size : ℕ

-- The constructor that the server calls, with REQ and 0, on the memory that it reserves.
abbrev pub new_connection : Bytes → Bytes → Connection
new_connection read_memory write_memory = record {
  state = req;
  read_buffer = read_memory;
  write_buffer = write_memory;
  write_buffer_sent = 0;
  write_buffer_size = 0;
  read_buffer_size = 0;
}

-- A connection with the server's data and the rest of the world.
pub record Machine (World Store : Type 0) : Type 0 where
  pub conn : Connection
  pub store : Store
  pub world : World

-- `a - b` in 64 bits
abbrev pub sub64 : ℕ → ℕ → ℕ
sub64 a b = (a + (u64_mod - b)) % u64_mod

-- `Error::TOO_BIG`, and the bytes of "response is too big"
abbrev pub too_big : ℕ
too_big = 2

abbrev pub too_big_text : Bytes
too_big_text =
    114 ∷ 101 ∷ 115 ∷ 112 ∷ 111 ∷ 110 ∷ 115 ∷ 101 ∷ 32 ∷ 105 ∷ 115 ∷ 32 ∷ 116 ∷ 111 ∷ 111 ∷ 32 ∷ 98
    ∷ 105 ∷ 103 ∷ []

abbrev pub is_req : ConnectionState → Bool
is_req req = true
is_req res = false
is_req end = false

-- `output`, or the error in place of one that does not fit.
unfoldable pub fit : Bytes → Bytes
fit output =
    if ltb max_message_size (add64 4 (length output)) then err [] too_big too_big_text else output

-- The reply in the write buffer, and the bytes behind the request at the start of the read buffer.
unfoldable pub pack : Connection → ℕ → Bytes → Run Connection
pack c message_length output = do
  let write_length = length output % u32_mod
  headed ← need (blit c.write_buffer 0 (le32 write_length))
  filled ← need (blit headed 4 output)
  let remaining = sub64 (sub64 c.read_buffer_size 4) message_length
  rest ← need (slice c.read_buffer (4 + message_length) remaining)
  moved ← need (blit c.read_buffer 0 rest)
  ok (record c {
    state = res;
    write_buffer = filled;
    write_buffer_size = add32 4 write_length;
    read_buffer = moved;
    read_buffer_size = remaining;
  })

module _ {World Store : Type 0} (os : Os World) (run : Store → List Bytes → Store × Bytes) where
  abbrev pub M : Type 0
  M = Machine World Store

  -- `state = ConnectionState::END`, and the other stores to a member.
  abbrev pub ended : M → M
  ended m = record m { conn = record m.conn { state = end } }

  -- `do ... while (writtenBytes < 0 && errno == EINTR)`, and the loop around `read`.
  unfoldable pub write_retry : ℕ → World → Bytes → Run (World × Call ℕ)
  write_retry zero w bytes = out_of_fuel
  write_retry (suc fuel) w bytes =
      let (w', call) = os.write w bytes in
      elim call [
        | interrupted ↦ write_retry fuel w' bytes
        | again ↦ ok (w', again)
        | failed ↦ ok (w', failed)
        | done n ↦ ok (w', done n)
      ]

  unfoldable pub read_retry : ℕ → World → ℕ → Run (World × Call Bytes)
  read_retry zero w n = out_of_fuel
  read_retry (suc fuel) w n =
      let (w', call) = os.read w n in
      elim call [
        | interrupted ↦ read_retry fuel w' n
        | again ↦ ok (w', again)
        | failed ↦ ok (w', failed)
        | done bytes ↦ ok (w', done bytes)
      ]

  -- `tryFlushBuffer`, from the store to `writeBufferSent` on.
  unfoldable pub flushed : M → ℕ → Run (M × Bool)
  flushed m n =
      let sent = add64 m.conn.write_buffer_sent n in
      check (leb sent m.conn.write_buffer_size) (
        ok (
          if sent == m.conn.write_buffer_size
          then (
            record m {
              conn = record m.conn { state = req; write_buffer_sent = 0; write_buffer_size = 0 };
            },
            false,
          )
          else (record m { conn = record m.conn { write_buffer_sent = sent } }, true)))

  -- What `tryFlushBuffer` does with the result of `write`.
  unfoldable pub written : M → Call ℕ → Run (M × Bool)
  written m again = ok (m, false)
  written m (done n) = flushed m n
  written m interrupted = ok (ended m, false)
  written m failed = ok (ended m, false)

  unfoldable pub try_flush_buffer : ℕ → M → Run (M × Bool)
  try_flush_buffer fuel m = do
    let remaining = sub64 m.conn.write_buffer_size m.conn.write_buffer_sent
    bytes ← need (slice m.conn.write_buffer m.conn.write_buffer_sent remaining)
    (w, call) ← write_retry fuel m.world bytes
    written (record m { world = w }) call

  unfoldable pub state_response : ℕ → M → Run M
  state_response zero m = out_of_fuel
  state_response (suc fuel) m =
      try_flush_buffer fuel m >>= λ r. elim r.1 [ true ↦ state_response fuel r.0 | false ↦ ok r.0 ]

  -- `tryOneRequest` from the run of the command on: the reply, and the way on to `stateResponse`.
  unfoldable pub respond : ℕ → M → ℕ → List Bytes → Run (M × Bool)
  respond fuel m message_length command = do
    let (store, output) = run m.store command
    packed ← pack m.conn message_length (fit output)
    after ← state_response fuel (record m { conn = packed; store = store })
    ok (after, is_req after.conn.state)

  -- `tryOneRequest` from the message's length on.
  unfoldable pub one_message : ℕ → M → ℕ → Run (M × Bool)
  one_message fuel m message_length =
      let parsed = do
        (code, command) ← need (parse (drop 4 m.conn.read_buffer) message_length)
        if not (code == 0) then ok (ended m, false) else respond fuel m message_length command
      in if ltb max_message_size message_length
        then ok (ended m, false)
        else if ltb m.conn.read_buffer_size (add32 4 message_length)
        then ok (m, false)
        else parsed

  unfoldable pub try_one_request : ℕ → M → Run (M × Bool)
  try_one_request fuel m =
      if ltb m.conn.read_buffer_size 4
      then ok (m, false)
      else need (load32 m.conn.read_buffer 0) >>= one_message fuel m

  -- `while (tryOneRequest())`
  unfoldable pub try_requests : ℕ → M → Run M
  try_requests zero m = out_of_fuel
  try_requests (suc fuel) m =
      try_one_request fuel m >>= λ r. elim r.1 [ true ↦ try_requests fuel r.0 | false ↦ ok r.0 ]

  -- What `tryFillBuffer` does with the result of `read`; no bytes are the end of the stream.
  unfoldable pub received : ℕ → M → Call Bytes → Run (M × Bool)
  received fuel m again = ok (m, false)
  received fuel m interrupted = ok (ended m, false)
  received fuel m failed = ok (ended m, false)
  received fuel m (done []) = ok (ended m, false)
  received fuel m (done (b ∷ bytes)) = do
    filled ← need (blit m.conn.read_buffer m.conn.read_buffer_size (b ∷ bytes))
    let size = add64 m.conn.read_buffer_size (length (b ∷ bytes))
    after ← check (leb size (length m.conn.read_buffer)) (
        try_requests fuel
          (record m { conn = record m.conn { read_buffer = filled; read_buffer_size = size } }))
    ok (after, is_req after.conn.state)

  unfoldable pub try_fill_buffer : ℕ → M → Run (M × Bool)
  try_fill_buffer fuel m = check (ltb m.conn.read_buffer_size (length m.conn.read_buffer)) (
      read_retry fuel m.world (sub64 (length m.conn.read_buffer) m.conn.read_buffer_size) >>= λ r.
      received fuel (record m { world = r.0 }) r.1)

  unfoldable pub state_request : ℕ → M → Run M
  state_request zero m = out_of_fuel
  state_request (suc fuel) m =
      try_fill_buffer fuel m >>= λ r. elim r.1 [ true ↦ state_request fuel r.0 | false ↦ ok r.0 ]

  unfoldable pub io : ℕ → M → Run M
  io fuel m = elim m.conn.state [
    | req ↦ state_request fuel m
    | res ↦ state_response fuel m
    | end ↦ fault
  ]
