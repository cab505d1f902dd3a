-- ===== src/Exchange.antt =====
-- A request on its way from `sendRequest` of client/client.cxx through a connection of the server
-- (common/conn.cxx), which runs the command (common/req.cxx), back to `readResponse`.
use coxx.Base.{
  ℕ, ◌+◌, ◌≤◌, ◌<◌, ◌≡◌, refl, sym, ap, ◌∙◌, Bool, true, false, Option, none, some, List, [], ◌∷◌,
  ◌++◌, append-nil, arith, ltb, if◌then◌else◌, length,
}
use coxx.Base.Bytes.{Bytes, le32, u64_mod, add64}
use coxx.Base.Int.{ℤ}
use coxx.Base.Run.{Run, ok, fault, out_of_fuel, ◌>>=◌, Returns}
use coxx.Parse.{max_message_size, max_num_args}
use coxx.Parse.Frame.{frame}
use coxx.Serialize
use coxx.Serialize.Value
use coxx.Serialize.Value.{Value, nil, str, encode, IsSized}
use coxx.Command.{Database}
use coxx.Command.State.{View, view, IsDatabase}
use coxx.Command.Find.{text_reply, get-reply}
use coxx.Command.Keyed.{find_first, items}
use coxx.Entry.{same_text}
use coxx.Command.Dispatch
use coxx.Command.Dispatch.{is_call, get_name}
use coxx.Conn.{Os, req, Connection, Machine, is_req, fit, state_response, try_one_request}
use coxx.Conn.Buffers.{IsBuffered}
use coxx.Conn.Answer.{IsService}
use coxx.Conn.Reply.{unread, unsent, try_one_request-Replied}
use coxx.Socket.Stream.{IsStream}
use coxx.Client.{done}
use coxx.Client.Reads.{lines}
use coxx.Client.Request.{sent, send_request}
use coxx.Client.Request.Sent.{send_request-frame}
use coxx.Client.Response.{read_response}
use coxx.Client.Response.Printed.{read_response-encode}

fit_short : (output : Bytes) → 4 + length output ≤ max_message_size → fit output ≡ output
unfolding fit
fit_short output h =
    let test : ltb max_message_size (add64 4 (length output)) ≡ false = ground (arith, h) in
    rw test refl

-- The two ends; `arrive` is a world of the client in which these bytes are on their way to it.
module _ {World World' Store : Type 0} (os : Os World) (run : Store → List Bytes → Store × Bytes)
    (service : IsService run) (os' : Os World') (pending : World' → Bytes)
    (stream : IsStream os' pending) (arrive : Bytes → World')
    (arrives : (bytes : Bytes) → pending (arrive bytes) ≡ bytes) where
  pub Exchanged : ℕ → Machine World Store → List Bytes → Value → Connection → Type 0
  Exchanged fuel m ws v c =
      (try_one_request os run fuel m ≡ (
        state_response os run fuel (record m { conn = c; store = (run m.store ws).0 }) >>= λ after.
        ok (after, is_req after.conn.state)))
      × Returns (read_response os' (arrive (unsent c)))
          λ r. (r.1 ≡ done (lines v) (length (encode v))) × (pending r.0 ≡ [])

  exchange :
      (fuel : ℕ) (m : Machine World Store) (stack : Bytes) (ws : List Bytes) (v : Value)
      → IsBuffered m.conn
      → m.conn.state ≡ req
      → length ws ≤ max_num_args
      → length (frame ws) ≤ max_message_size
      → max_message_size ≤ 4 + length stack
      → send_request stack ws ≡ sent (unread m.conn)
      → (run m.store ws).1 ≡ encode v
      → IsSized v
      → 4 + length (encode v) ≤ max_message_size
      → (c : Connection) × Exchanged fuel m ws v c
  unfolding Exchanged
  exchange fuel m stack ws v g s few short deep request reply sized small =
      let message = le32 (length (frame ws)) ++ frame ws in
      let fits : ltb max_message_size (length (frame ws)) ≡ false = ground (arith, short) in
      let whole : send_request stack ws ≡ sent message =
        send_request-frame stack ws (omega (arith, short)) deep ∙ rw fits in
      let there : unread m.conn ≡ message = cc (request, whole) in
      let (c, replied, run_eq) =
        try_one_request-Replied os run service fuel m ws [] g s (there ∙ sym (append-nil message))
          few short in
      let out : fit (run m.store ws).1 ≡ encode v = ap fit reply ∙ fit_short (encode v) small in
      let sending : unsent c ≡ le32 (length (encode v)) ++ (encode v ++ []) =
        replied.to_write
        ∙ (ap (λ (b : Bytes). le32 (length b) ++ b) out
            ∙ ap (λ (b : Bytes). le32 (length (encode v)) ++ b) (sym (append-nil (encode v)))) in
      let (r, read_eq, post) =
        read_response-encode os' pending stream (arrive (unsent c)) v [] sized
          (omega (arith, small)) (arrives (unsent c) ∙ sending) in
      (c, (run_eq, (r, read_eq, post)))

-- The run of a command as the connection has it: the commands of the server on its data. A string has
-- fewer than 2^64 - 4 bytes.
unfoldable pub settled : Database → Run (Database × Bytes) → Database × Bytes
settled state fault = (state, [])
settled state out_of_fuel = (state, [])
settled state (ok (after, output)) =
    if ltb (4 + length output) u64_mod then (after, output) else (state, [])

settled-short :
    (state : Database) (r : Run (Database × Bytes)) → 4 + length (settled state r).1 < u64_mod
unfolding settled
settled-short state fault = omega arith
settled-short state out_of_fuel = omega arith
settled-short state (ok (after, output)) = by_test (ltb (4 + length output) u64_mod) refl
  where
    by_test :
        (b : Bool)
        → ltb (4 + length output) u64_mod ≡ b
        → 4 + length (if◌then◌else◌ {A = Database × Bytes} b (after, output) (state, [])).1
          < u64_mod
    by_test true e = ground (arith, e)
    by_test false e = omega arith

-- What a client is told of a key.
abbrev pub text_value : Option View → Value
text_value none = nil
text_value (some v) = str v.val

text_reply-encode :
    (o : Option View) → IsSized (text_value o) → text_reply [] o ≡ encode (text_value o)
unfolding Serialize.nil Serialize.str Value.emit
text_reply-encode none h = Value.emit-encode [] nil h
text_reply-encode (some v) h = Value.emit-encode [] (str v.val) h

module _ (strtod : Bytes → ℕ × ℕ) (strtol : Bytes → ℤ × ℕ) (number : ℕ → Bool)
    (equals is_below : ℕ → ℕ → Bool) where
  unfoldable pub request : Database → List Bytes → Database × Bytes
  request state ws = settled state (Dispatch.run strtod strtol number equals is_below state ws [])

  pub request-IsService : IsService request
  unfolding request
  request-IsService state ws =
      settled-short state (Dispatch.run strtod strtol number equals is_below state ws [])

  request_get :
      (state : Database) (key : Bytes)
      → IsDatabase number equals is_below state
      → IsSized (text_value (view state key))
      → 4 + length (encode (text_value (view state key))) ≤ max_message_size
      → (request state (get_name ∷ key ∷ [])).1 ≡ encode (text_value (view state key))
  unfolding request settled Dispatch.run is_call same_text encode Dispatch.lower find_first
      Dispatch.c_str items
  request_get state key g sized small =
      let (r, run_eq, (kept, reply)) =
        get-reply number equals is_below state g key (get_name ∷ key ∷ []) [] refl in
      let output : r.1 ≡ encode (text_value (view state key)) =
        reply ∙ text_reply-encode (view state key) sized in
      let short : ltb (4 + length r.1) u64_mod ≡ true = ground (arith, small, ap length output) in
      rw (run_eq, short) output

  module _ {World World' : Type 0} (os : Os World) (os' : Os World') (pending : World' → Bytes)
      (stream : IsStream os' pending) (arrive : Bytes → World')
      (arrives : (bytes : Bytes) → pending (arrive bytes) ≡ bytes) where
    -- When the bytes that wait at a connection are what `sendRequest` sends of a `get` of a key, and
    -- the server's data is in order, `tryOneRequest` runs the command and has a reply wait that the
    -- client's `readResponse`, once it has arrived, prints as the text of the key, or as nil when the
    -- key is not there; no byte of it is left. The request has at most 4096 bytes, and the reply with
    -- its length too.
    pub exchange_get :
        (fuel : ℕ) (m : Machine World Database) (stack key : Bytes)
        → IsBuffered m.conn
        → m.conn.state ≡ req
        → IsDatabase number equals is_below m.store
        → length (frame (get_name ∷ key ∷ [])) ≤ max_message_size
        → max_message_size ≤ 4 + length stack
        → send_request stack (get_name ∷ key ∷ []) ≡ sent (unread m.conn)
        → IsSized (text_value (view m.store key))
        → 4 + length (encode (text_value (view m.store key))) ≤ max_message_size
        → (c : Connection) × Exchanged os request request-IsService os' pending stream arrive
            arrives fuel m
            (get_name ∷ key ∷ [])
            (text_value (view m.store key))
            c
    exchange_get fuel m stack key g s order short deep sending sized small =
        exchange os request request-IsService os' pending stream arrive arrives fuel m stack
          (get_name ∷ key ∷ []) (text_value (view m.store key)) g s (omega arith) short deep sending
          (request_get m.store key order sized small) sized small
