-- ===== src/Tests/Sockets.antt =====
-- common/socket.cxx, and `readResponse` of client/client.cxx
use coxx.Base.{ℕ, zero, suc, ◌<◌, ◌≤◌, ◌≡◌, refl, true, [], ◌∷◌, ◌++◌, arith, length, take}
use coxx.Base.Bytes.{Bytes, le32}
use coxx.Base.Run.{Returns}
use coxx.Conn.{Call, done, Os}
use coxx.Socket.{read_full, write_all}
use coxx.Socket.Stream.{IsStream, Read, read_full-Read}
use coxx.Socket.Sink.{IsSink, write_all-Sent}
use coxx.Serialize.Value
use coxx.Serialize.Value.{encode}
use coxx.Client.{Outcome, done}
use coxx.Conn
use coxx.Client

-- A stream that gives and takes one byte at a time; the world is what is on its way.
abbrev read_one : Bytes → ℕ → Bytes × Call Bytes
read_one [] n = ([], Conn.done [])
read_one (b ∷ bs) zero = (b ∷ bs, Conn.done [])
read_one (b ∷ bs) (suc n) = (bs, Conn.done (b ∷ []))

abbrev write_one : Bytes → Bytes → Bytes × Call ℕ
write_one w [] = (w, Conn.done 0)
write_one w (b ∷ bs) = (w ++ b ∷ [], Conn.done 1)

abbrev pub one_by_one : Os Bytes
one_by_one = record { read = read_one; write = write_one }

abbrev pub same : Bytes → Bytes
same w = w

pub one_by_one-IsStream : IsStream one_by_one same
one_by_one-IsStream = record {
  reads = λ w n some_room some_there. reads w n some_room some_there;
  ends = λ w n e. ends w n e;
}
  where
    reads :
        (w : Bytes) (n : ℕ)
        → 0 < n
        → 0 < length w
        → (w' : Bytes) × (b : ℕ) × (bs : Bytes) × (read_one w n ≡ (w', Conn.done (b ∷ bs)))
          × (suc (length bs) ≤ n)
          × (w ≡ (b ∷ bs) ++ w')
    reads [] n h k = absurd (omega (arith, k))
    reads (b ∷ bs) zero h k = absurd (omega (arith, h))
    reads (b ∷ bs) (suc n) h k = (bs, b, [], refl, omega arith, refl)

    ends : (w : Bytes) (n : ℕ) → length w ≡ 0 → (w' : Bytes) × (read_one w n ≡ (w', Conn.done []))
    ends [] n e = ([], refl)
    ends (b ∷ bs) n e = absurd (omega (arith, e))

pub one_by_one-IsSink : IsSink one_by_one same
one_by_one-IsSink = record { writes = λ w bytes h. writes w bytes h }
  where
    writes :
        (w bytes : Bytes)
        → 0 < length bytes
        → (w' : Bytes) × (k : ℕ) × (write_one w bytes ≡ (w', Conn.done (suc k)))
          × (suc k ≤ length bytes)
          × (w' ≡ w ++ take (suc k) bytes)
    writes w [] h = absurd (omega (arith, h))
    writes w (b ∷ bs) h = (w ++ b ∷ [], 0, refl, omega arith, refl)

read_full-Read_example :
    Returns
      (read_full one_by_one (1 ∷ 2 ∷ 3 ∷ []) 2)
      (Read one_by_one same one_by_one-IsStream (1 ∷ 2 ∷ 3 ∷ []) 2 [])
read_full-Read_example = read_full-Read one_by_one same one_by_one-IsStream (1 ∷ 2 ∷ 3 ∷ []) 2

write_all-Sent_example :
    Returns
      (write_all one_by_one [] ((1 ∷ 2 ∷ []) ++ (3 ∷ [])) 2)
      λ r. (r.1 ≡ true) × (r.0 ≡ [] ++ (1 ∷ 2 ∷ []))
write_all-Sent_example = write_all-Sent one_by_one same one_by_one-IsSink [] (1 ∷ 2 ∷ []) (3 ∷ [])

abbrev text : Value.Value
text = Value.str (104 ∷ 105 ∷ [])

abbrev framed : Bytes
framed = le32 (length (encode text)) ++ (encode text ++ [])
