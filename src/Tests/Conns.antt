-- ===== src/Tests/Conns.antt =====
-- common/conn.cxx
use coxx.Base.{
  ℕ, zero, suc, ◌+◌, ◌-◌, ◌≤◌, ◌≡◌, refl, Bool, true, false, Option, some, none, List, [], ◌∷◌,
  ◌++◌, arith, leb, length, replicate, All, All-append, length-append, length-replicate,
}
use coxx.Base.Bytes.{Bytes, IsByte, le32, load32, slice, blit}
use coxx.Base.Run.{Run, ok, ◌>>=◌, Returns}
use coxx.Parse.{parse, parse_words}
use coxx.Parse.Frame.{frame}
use coxx.Conn.{
  Call, again, done, Os, req, Connection, new_connection, Machine, is_req, fit, pack, write_retry,
  read_retry, flushed, written, try_flush_buffer, state_response, respond, one_message,
  try_one_request, try_requests, received, try_fill_buffer, state_request, io,
}
use coxx.Conn.Buffers.{IsBuffered}
use coxx.Conn.Calls.{IsOs, ReadOk, WriteOk}
use coxx.Conn.Answer.{IsService}
use coxx.Conn.Fill.{Turned, io-Turned}
use coxx.Conn.Receive.{new_connection-IsConnection}
use coxx.Conn.Reply.{Replied, try_one_request-Replied}

-- get k
abbrev pub words_of_get : List Bytes
words_of_get = (103 ∷ 101 ∷ 116 ∷ []) ∷ (107 ∷ []) ∷ []

abbrev pub message : Bytes
message = le32 (length (frame words_of_get)) ++ frame words_of_get

-- So many messages are still to come, and so many writes can be made.
abbrev arrived : Bool → ℕ → ℕ → (ℕ × ℕ) × Call Bytes
arrived true k j = ((k, j), done message)
arrived false k j = ((k, j), again)

abbrev read_messages : ℕ × ℕ → ℕ → (ℕ × ℕ) × Call Bytes
read_messages (zero, j) n = ((zero, j), again)
read_messages (suc k, j) n = arrived (leb (length message) n) k j

abbrev write_some : ℕ × ℕ → Bytes → (ℕ × ℕ) × Call ℕ
write_some (k, zero) bytes = ((k, zero), again)
write_some (k, suc j) bytes = ((k, j), done (length bytes))

abbrev pub line : Os (ℕ × ℕ)
line = record { read = read_messages; write = write_some }

abbrev to_come : ℕ × ℕ → ℕ
to_come (k, j) = k + j

-- A command that counts the commands and replies nil.
abbrev pub count_commands : ℕ → List Bytes → ℕ × Bytes
count_commands n ws = (suc n, 0 ∷ [])

pub message-IsByte : All IsByte message
message-IsByte = (
  omega arith,
  (
    omega arith,
    (
      omega arith,
      (
        omega arith,
        (
          omega arith,
          (
            omega arith,
            (
              omega arith,
              (
                omega arith,
                (
                  omega arith,
                  (
                    omega arith,
                    (
                      omega arith,
                      (
                        omega arith,
                        (
                          omega arith,
                          (
                            omega arith,
                            (
                              omega arith,
                              (
                                omega arith,
                                (omega arith, (omega arith, (omega arith, (omega arith, tt)))),
                              ),
                            ),
                          ),
                        ),
                      ),
                    ),
                  ),
                ),
              ),
            ),
          ),
        ),
      ),
    ),
  ),
)

read_messages_ok :
    (w : ℕ × ℕ) (n : ℕ) → ReadOk (to_come w) (to_come (read_messages w n).0) n (read_messages w n).1
read_messages_ok (zero, j) n = omega arith
read_messages_ok (suc k, j) n = by_room (leb (length message) n) refl
  where
    by_room :
        (b : Bool)
        → leb (length message) n ≡ b
        → ReadOk (suc k + j) (to_come (arrived b k j).0) n (arrived b k j).1
    by_room true e = (ground (arith, e), message-IsByte, omega arith, λ e'. omega arith)
    by_room false e = omega arith

write_some_ok :
    (w : ℕ × ℕ) (bytes : Bytes)
    → WriteOk (to_come w) (to_come (write_some w bytes).0) (length bytes) (write_some w bytes).1
write_some_ok (k, zero) bytes = omega arith
write_some_ok (k, suc j) bytes = (omega arith, omega arith)

line-IsOs : IsOs line to_come
line-IsOs = record { read_ok = read_messages_ok; write_ok = write_some_ok }

pub count_commands-IsService : IsService count_commands
count_commands-IsService = λ s command. omega arith

pub zeros-IsByte : (n : ℕ) → All IsByte (replicate n 0)
zeros-IsByte zero = tt
zeros-IsByte (suc n) = (omega arith, zeros-IsByte n)

-- A connection to which so many bytes have come.
abbrev pub connection : Bytes → Connection
connection bytes = record {
  state = req;
  read_buffer = bytes ++ replicate (4100 - length bytes) 0;
  write_buffer = replicate 4100 0;
  write_buffer_sent = 0;
  write_buffer_size = 0;
  read_buffer_size = length bytes;
}

pub connection-IsBuffered :
    (bytes : Bytes) → length bytes ≤ 4100 → All IsByte bytes → IsBuffered (connection bytes)
connection-IsBuffered bytes h g = record {
  read_capacity = omega (
    arith,
    length-append bytes (replicate (4100 - length bytes) 0),
    length-replicate {A = ℕ} (4100 - length bytes) 0,
  );
  read_bytes =
      All-append IsByte bytes (replicate (4100 - length bytes) 0) g
        (zeros-IsByte (4100 - length bytes));
  write_capacity = length-replicate {A = ℕ} 4100 0;
  read_fits = h;
  write_fits = omega arith;
  writing = (refl, refl);
}

abbrev fresh : Machine (ℕ × ℕ) ℕ
fresh = record {
  conn = new_connection (replicate 4100 0) (replicate 4100 0);
  store = 0;
  world = (2, 1);
}

-- Two messages come, and one reply can be written: the second one waits.
abbrev summary : Run (Machine (ℕ × ℕ) ℕ) → Option (ℕ × ℕ × Bool)
summary (ok m) =
    some (m.store, m.conn.write_buffer_size - m.conn.write_buffer_sent, is_req m.conn.state)
summary _ = none

two_messages : summary (io line count_commands 4110 fresh) ≡ some (2, 5, false)
unfolding io state_request try_fill_buffer received try_requests try_one_request one_message respond
    state_response try_flush_buffer written flushed read_retry write_retry pack fit parse
    parse_words load32 slice blit
two_messages = refl

io-Turned_example :
    Returns
      (io line count_commands 4110 fresh)
      (Turned line count_commands to_come line-IsOs count_commands-IsService 3)
io-Turned_example =
    io-Turned line count_commands to_come line-IsOs count_commands-IsService 4110 fresh
      (new_connection-IsConnection (replicate 4100 0) (replicate 4100 0)
        (length-replicate {A = ℕ} 4100 0) (zeros-IsByte 4100) (length-replicate {A = ℕ} 4100 0))
      (λ e. cc) (omega arith)

-- One message, and the first byte of another.
abbrev one_and_more : Machine (ℕ × ℕ) ℕ
one_and_more = record { conn = connection (message ++ 16 ∷ []); store = 0; world = (0, 0) }

try_one_request-Replied_example :
    (c : Connection) × Replied (fit (0 ∷ [])) (16 ∷ []) c
    × (try_one_request line count_commands 4110 one_and_more ≡ (
        state_response line count_commands 4110 (record one_and_more { conn = c; store = 1 })
        >>= λ after. ok (after, is_req after.conn.state)))
try_one_request-Replied_example =
    try_one_request-Replied line count_commands count_commands-IsService 4110 one_and_more
      words_of_get (16 ∷ [])
      (connection-IsBuffered (message ++ 16 ∷ []) (omega arith)
        (All-append IsByte message (16 ∷ []) message-IsByte (omega arith, tt)))
      refl refl (omega arith) (omega arith)
