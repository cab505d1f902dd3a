-- ===== src/Tests/Sessions.antt =====
-- `Client::run` of client/client.cxx, and the set-up of common/socket.cxx
use coxx.Base.{
  ℕ, zero, suc, ◌<◌, ◌≤◌, ◌≡◌, refl, sym, ap, ◌∙◌, Bool, true, false, some, none, List, [], ◌∷◌,
  ◌++◌, ◌==◌, if◌then◌else◌, arith, length, take, replicate, length-replicate,
}
use coxx.Base.Bytes.{Bytes, le32, slice, blit}
use coxx.Base.Run.{Run, ok, Returns}
use coxx.Conn.{Call, done, Os}
use coxx.Socket.{write_all, write_loop, put}
use coxx.Entry.{same_text}
use coxx.Socket.Setup.{
  Network, ntohs, ntohl, thrown_unless, and_then, set_options, configure_connection,
}
use coxx.Socket.Stream.{IsStream}
use coxx.Socket.Sink.{IsSink}
use coxx.Serialize.Value
use coxx.Serialize.Value.{encode}
use coxx.Client
use coxx.Client.Reads.{lines}
use coxx.Client.Request.{send_request, pack_buffer, blank, add_lengths, copy_words}
use coxx.Client.Session.{replied, transmit, connected, run, run-lines}

-- What the client has written, and what is on its way to it: a server that answers the twentieth byte.
abbrev World : Type 0
World = Bytes × Bytes

abbrev answer : Value.Value
answer = Value.str (104 ∷ 105 ∷ [])

abbrev reply : Bytes
reply = 7 ∷ 0 ∷ 0 ∷ 0 ∷ 2 ∷ 2 ∷ 0 ∷ 0 ∷ 0 ∷ 104 ∷ 105 ∷ []

abbrev read_one : World → ℕ → World × Call Bytes
read_one (o, []) n = ((o, []), done [])
read_one (o, b ∷ bs) zero = ((o, b ∷ bs), done [])
read_one (o, b ∷ bs) (suc n) = ((o, bs), done (b ∷ []))

abbrev write_one : World → Bytes → World × Call ℕ
write_one (o, p) [] = ((o, p), done 0)
write_one (o, p) (b ∷ bs) = ((o ++ b ∷ [], if length o == 19 then reply else p), done 1)

abbrev peer : Os World
peer = record { read = read_one; write = write_one }

abbrev network : Network World
network = record {
  socket = λ w. (w, some 3);
  set_reuse_address = λ w fd. (w, true);
  bind = λ w fd a. (w, false);
  connect = λ w fd a. (w, a.port == 53764);
  listen = λ w fd. (w, false);
  close = λ w fd. w;
}

peer-IsSink : IsSink peer (λ w. w.0)
peer-IsSink = record { writes = λ w bytes h. writes w bytes h }
  where
    writes :
        (w : World) (bytes : Bytes)
        → 0 < length bytes
        → (w' : World) × (k : ℕ) × (write_one w bytes ≡ (w', done (suc k)))
          × (suc k ≤ length bytes)
          × (w'.0 ≡ w.0 ++ take (suc k) bytes)
    writes (o, p) [] h = absurd (omega (arith, h))
    writes (o, p) (b ∷ bs) h =
        ((o ++ b ∷ [], if length o == 19 then reply else p), 0, refl, omega arith, refl)

peer-IsStream : IsStream peer (λ w. w.1)
peer-IsStream = record {
  reads = λ w n some_room some_there. reads w n some_room some_there;
  ends = λ w n e. ends w n e;
}
  where
    reads :
        (w : World) (n : ℕ)
        → 0 < n
        → 0 < length w.1
        → (w' : World) × (b : ℕ) × (bs : Bytes) × (read_one w n ≡ (w', done (b ∷ bs)))
          × (suc (length bs) ≤ n)
          × (w.1 ≡ (b ∷ bs) ++ w'.1)
    reads (o, []) n h k = absurd (omega (arith, k))
    reads (o, b ∷ bs) zero h k = absurd (omega (arith, h))
    reads (o, b ∷ bs) (suc n) h k = ((o, bs), b, [], refl, omega arith, refl)

    ends : (w : World) (n : ℕ) → length w.1 ≡ 0 → (w' : World) × (read_one w n ≡ (w', done []))
    ends (o, []) n e = ((o, []), refl)
    ends (o, b ∷ bs) n e = absurd (omega (arith, e))

-- get k
abbrev words : List Bytes
words = (103 ∷ 101 ∷ 116 ∷ []) ∷ (107 ∷ []) ∷ []

abbrev message : Bytes
message =
    16 ∷ 0 ∷ 0 ∷ 0 ∷ 2 ∷ 0 ∷ 0 ∷ 0 ∷ 3 ∷ 0 ∷ 0 ∷ 0 ∷ 103 ∷ 101 ∷ 116 ∷ 1 ∷ 0 ∷ 0 ∷ 0 ∷ 107 ∷ []

abbrev stack : Bytes
stack = replicate 4092 255

seven_bytes : length (encode answer) ≡ 7
unfolding encode
seven_bytes = refl

framed_answer : reply ≡ le32 (length (encode answer)) ++ encode answer
unfolding encode
framed_answer = refl

connects : connected peer network 3 stack 1234 ([], []) ≡ (([], []), none)
unfolding connected set_options configure_connection and_then thrown_unless same_text ntohs ntohl
connects = refl

sends : transmit peer ([], []) (send_request stack words) ≡ ok ((message, reply), true)
unfolding transmit send_request pack_buffer blank add_lengths copy_words slice blit write_all
    write_loop put
sends = refl

pending_of : Run (World × Bool) → Bytes
pending_of (ok (w, b)) = w.1
pending_of _ = []

run-lines_example :
    Returns
      (run peer network 3 stack words 1234 ([], []))
      λ r. (r.1 ≡ replied true (Client.done (lines answer) (length (encode answer)))) × (r.0.1 ≡ [])
unfolding pending_of
run-lines_example =
    run-lines peer network 3 stack (λ w. w.0) (λ w. w.1) peer-IsSink peer-IsStream words 1234
      ([], []) ([], []) answer connects (omega arith)
      (omega (arith, length-replicate {A = ℕ} 4092 255)) (omega arith) (omega (arith, seven_bytes))
      (λ w' e all_sent. ap pending_of (sym e ∙ sends) ∙ framed_answer)
