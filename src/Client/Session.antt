-- ===== src/Client/Session.antt =====
-- `Client::run` of client/client.cxx: a request is sent and the reply is read and printed.
use mathlib.Core.Path.{ap₂}
use coxx.Base.{
  ℕ, ◌+◌, ◌≤◌, ◌≡◌, refl, sym, ap, ◌∙◌, Bool, true, false, Option, none, some, List, [], ◌++◌,
  arith, ltb, length, append-nil,
}
use coxx.Base.Bytes.{Bytes, le32}
use coxx.Base.Run.{Run, ok, fault, ◌>>=◌, Returns}
use coxx.Parse.{max_message_size}
use coxx.Parse.Frame.{frame}
use coxx.Serialize.Value.{Value, encode, IsSized}
use coxx.Conn.{Os}
use coxx.Socket.{write_all}
use coxx.Socket.Setup.{Thrown, Network, set_options, configure_connection, and_then, client_type}
use coxx.Socket.Stream.{IsStream}
use coxx.Socket.Sink.{IsSink, write_all-Sent}
use coxx.Client.{Outcome, done}
use coxx.Client.Reads.{lines}
use coxx.Client.Request.{Packed, refused, overrun, sent, send_request}
use coxx.Client.Request.Sent.{send_request-frame}
use coxx.Client.Response.{read_response}
use coxx.Client.Response.Printed.{read_response-encode}

-- `INADDR_LOOPBACK`
abbrev pub client_netaddr : ℕ
client_netaddr = 0x7f00_0001

-- What `run` comes to: was the request sent, and what did `readResponse` print and return.
pub data Session : Type 0 where
  thrown : Thrown → Session
  replied : Bool → Outcome → Session

module _ {World : Type 0} (os : Os World) where
  -- The last line of `sendRequest`.
  unfoldable pub transmit : World → Packed → Run (World × Bool)
  transmit w refused = ok (w, false)
  transmit w overrun = fault
  transmit w (sent bytes) = write_all os w bytes (length bytes)

  module _ (network : Network World) (fd : ℕ) (stack : Bytes) where
    unfoldable pub connected : ℕ → World → World × Option Thrown
    connected port w =
        and_then (set_options network fd w)
          (configure_connection network fd port client_netaddr client_type)

    -- From the connection on. A request that is not sent is followed by the wait for a reply too.
    unfoldable pub converse : List Bytes → World × Option Thrown → Run (World × Session)
    converse commands (w, some t) = ok (w, thrown t)
    converse commands (w, none) = do
      sending ← transmit w (send_request stack commands)
      reading ← read_response os sending.0
      ok (reading.0, replied sending.1 reading.1)

    unfoldable pub run : List Bytes → ℕ → World → Run (World × Session)
    run commands port w = converse commands (connected port w)

-- A server that the client has connected to, in a world from which `write` and `read` act on the two
-- streams.
module _ {World : Type 0} (os : Os World) (network : Network World) (fd : ℕ) (stack : Bytes)
    (written pending : World → Bytes) (sink : IsSink os written)
    (stream : IsStream os pending) where
  transmit-frame :
      (w : World) (ws : List Bytes)
      → length (frame ws) ≤ max_message_size
      → max_message_size ≤ 4 + length stack
      → Returns
          (transmit os w (send_request stack ws))
          λ r. (r.1 ≡ true) × (written r.0 ≡ written w ++ (le32 (length (frame ws)) ++ frame ws))
  unfolding transmit
  transmit-frame w ws short deep =
      let message = le32 (length (frame ws)) ++ frame ws in
      let fits : ltb max_message_size (length (frame ws)) ≡ false = ground (arith, short) in
      let packed : send_request stack ws ≡ sent message =
        send_request-frame stack ws (omega (arith, short)) deep ∙ rw fits in
      let (r, run_eq, (good, all_sent)) = write_all-Sent os written sink w message [] in
      (
        r,
        rw packed (
            ap (λ (bytes : Bytes). write_all os w bytes (length message)) (sym (append-nil message))
            ∙ run_eq),
        (good, all_sent),
      )

  -- When the connection is made, the command's frame has at most 4096 bytes, and the server answers the
  -- frame and its length with a framed encoding of a value, of at most 4096 bytes whose numbers and
  -- texts fit their words, `Client::run` sends the request, prints the value's lines, and leaves
  -- nothing of the answer. The 4092 bytes that the code may copy from the stack can be read.
  pub run-lines :
      (ws : List Bytes) (port : ℕ) (w start : World) (v : Value)
      → connected os network fd stack port w ≡ (start, none)
      → length (frame ws) ≤ max_message_size
      → max_message_size ≤ 4 + length stack
      → IsSized v
      → length (encode v) ≤ max_message_size
      → ((w' : World)
          → transmit os start (send_request stack ws) ≡ ok (w', true)
          → written w' ≡ written start ++ (le32 (length (frame ws)) ++ frame ws)
          → pending w' ≡ le32 (length (encode v)) ++ encode v)
      → Returns
          (run os network fd stack ws port w)
          λ r. (r.1 ≡ replied true (done (lines v) (length (encode v)))) × (pending r.0 ≡ [])
  unfolding run converse
  run-lines ws port w start v e short deep sized small answers =
      let (r, run_eq, (good, all_sent)) = transmit-frame start ws short deep in
      let (r', run_eq', (printed, nothing)) =
        read_response-encode os pending stream r.0 v [] sized small (
          answers r.0 (run_eq ∙ ap (λ (b : Bool). ok (r.0, b)) good) all_sent
          ∙ ap (λ (bytes : Bytes). le32 (length (encode v)) ++ bytes)
              (sym (append-nil (encode v)))) in
      (
        (r'.0, replied r.1 r'.1),
        rw (e, run_eq, ◌>>=◌, run_eq') refl,
        (ap₂ replied good printed, nothing),
      )
