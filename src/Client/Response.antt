-- ===== src/Client/Response.antt =====
-- `readResponse` of client/client.cxx.
pub mod Printed
use coxx.Base.{ℕ, suc, Option, none, some, List, [], ◌∷◌, ltb, if◌then◌else◌, length}
use coxx.Base.Bytes.{Bytes, load32}
use coxx.Base.Run.{Run, ok, need, ◌>>=◌}
use coxx.Conn.{Os}
use coxx.Parse.{max_message_size}
use coxx.Socket.{read_full}
use coxx.Client.{Line, eof, too_long, Outcome, done, minus_one, deserialize, check_reply}

-- The reply's body, or the return value of `readFull`. The fuel is one more than the body's length.
unfoldable pub body_reply : ℕ → Option Bytes → Outcome
body_reply message_length none = done [] minus_one
body_reply message_length (some body) =
    check_reply (deserialize (suc (length body)) body) message_length

module _ {World : Type 0} (os : Os World) where
  -- `readResponse`, from the header on. `errno` is 0 wherever it is tested.
  unfoldable pub header_reply : World → Option Bytes → Run (World × Outcome)
  header_reply w none = ok (w, done (eof ∷ []) minus_one)
  header_reply w (some header) = need (load32 header 0) >>= λ message_length.
      if ltb max_message_size message_length
      then ok (w, done (too_long ∷ []) minus_one)
      else (read_full os w message_length >>= λ r. ok (r.0, body_reply message_length r.1))

  unfoldable pub read_response : World → Run (World × Outcome)
  read_response w = read_full os w 4 >>= λ r. header_reply r.0 r.1
