-- ===== src/Tests/Exchanges.antt =====
-- A request and its reply, through client/client.cxx, common/conn.cxx and common/req.cxx
use coxx.Base.{
  ℕ, ◌+◌, ◌≤◌, ◌≡◌, refl, sym, ap, subst, arith, length, replicate, length-replicate, ltb, ◌==◌,
}
use coxx.Base.Bytes.{Bytes}
use coxx.Parse.{max_message_size}
use coxx.Serialize.Value.{Value, encode, IsSized}
use coxx.Command.{Database}
use coxx.Command.State.{view}
use coxx.Command.Keyed.{find_first, items}
use coxx.Entry.Keys.{nodes}
use coxx.Conn.{Connection, Machine}
use coxx.Client.Request.Sent.{send_request-frame}
use coxx.Exchange.{text_value, request, request-IsService, Exchanged, exchange_get}
use coxx.Tests.Commands.{any_score, seven, five, k, v, one, one-IsDatabase, first_set}
use coxx.Tests.Conns.{
  line, connection, connection-IsBuffered, words_of_get, message, message-IsByte,
}
use coxx.Tests.Sockets.{one_by_one, same, one_by_one-IsStream}

-- The client's stack, and a connection to which its request has come.
abbrev stack : Bytes
stack = replicate 4092 255

abbrev machine : Machine (ℕ × ℕ) Database
machine = record { conn = connection message; store = one; world = (0, 0) }

-- The key has a text.
shown : text_value (view one k) ≡ Value.str v
unfolding find_first items nodes
shown = ap text_value first_set.2.0.value_now

seven_bytes : length (encode (Value.str v)) ≡ 7
unfolding encode
seven_bytes = refl

short_reply : 4 + length (encode (text_value (view one k))) ≤ max_message_size
short_reply = omega (arith, ap (λ (x : Value). length (encode x)) shown, seven_bytes)

exchange_get_example :
    (c : Connection) × Exchanged line
      (request seven five any_score ◌==◌ ltb)
      (request-IsService seven five any_score ◌==◌ ltb)
      one_by_one
      same
      one_by_one-IsStream
      (λ bytes. bytes)
      (λ bytes. refl)
      4110
      machine
      words_of_get
      (text_value (view one k))
      c
exchange_get_example =
    exchange_get seven five any_score ◌==◌ ltb line one_by_one same one_by_one-IsStream
      (λ bytes. bytes) (λ bytes. refl) 4110 machine stack k
      (connection-IsBuffered message (omega arith) message-IsByte) refl one-IsDatabase (omega arith)
      (omega (arith, length-replicate {A = ℕ} 4092 255))
      (send_request-frame stack words_of_get (omega arith)
        (omega (arith, length-replicate {A = ℕ} 4092 255)))
      (subst IsSized (sym shown) (omega arith)) short_reply
