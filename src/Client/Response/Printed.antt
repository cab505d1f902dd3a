-- ===== src/Client/Response/Printed.antt =====
-- The client prints the reply that the server framed.
use coxx.Base.{
  ℕ, suc, ◌+◌, ◌≤◌, ◌≡◌, refl, sym, ap, ◌∙◌, inl, inr, false, some, List, [], ◌++◌, arith, length,
  take, drop, ltb, append-nil, length-append, take-append, drop-append,
}
use coxx.Base.Bytes.{Bytes, le32, load32, load32-le32}
use coxx.Base.Run.{ok, ◌>>=◌, Returns}
use coxx.Conn.{Os}
use coxx.Parse.{max_message_size}
use coxx.Socket.{read_full}
use coxx.Socket.Stream.{IsStream, read_full-Read}
use coxx.Serialize.Value.{Value, encode, IsSized}
use coxx.Client.{Line, Outcome, done, check_reply, deserialize}
use coxx.Client.Reads.{lines, deserialize-encode}
use coxx.Client.Response.{body_reply, header_reply, read_response}

module _ {World : Type 0} (os : Os World) (pending : World → Bytes)
    (stream : IsStream os pending) where
  -- Bytes that come first in the stream are what `readFull` reads.
  read_first :
      (w : World) (front rest : Bytes)
      → pending w ≡ front ++ rest
      → Returns (read_full os w (length front)) λ r. (r.1 ≡ some front) × (pending r.0 ≡ rest)
  read_first w front rest e =
      let (r, run, read) = read_full-Read os pending stream w (length front) in
      let total : length (pending w) ≡ length front + length rest =
        ap (λ (xs : Bytes). length xs) e ∙ length-append front rest in
      (
        r,
        run,
        elim read [
          | inl (there, bytes, left) ↦ (
            bytes
                ∙ ap (λ (xs : Bytes). some (take (length front) xs)) e
                ∙ ap some (take-append (length front) front rest refl),
            left ∙ (ap (drop (length front)) e ∙ drop-append (length front) front rest refl),
          )
          | inr (short, nothing) ↦ absurd (omega (arith, short, total))
        ],
      )

  check_whole :
      (ls : List Line) (len : ℕ)
      → len ≤ max_message_size
      → check_reply (done ls len) len ≡ done ls len
  unfolding check_reply
  check_whole ls len h = ground arith

  pub read_response-encode :
      (w : World) (v : Value) (rest : Bytes)
      → IsSized v
      → length (encode v) ≤ max_message_size
      → pending w ≡ le32 (length (encode v)) ++ (encode v ++ rest)
      → Returns
          (read_response os w)
          λ r. (r.1 ≡ done (lines v) (length (encode v))) × (pending r.0 ≡ rest)
  unfolding read_response header_reply body_reply
  read_response-encode w v rest sized small e =
      let len = length (encode v) in
      let (r, run, (header, left)) = read_first w (le32 len) (encode v ++ rest) e in
      let (r', run', (body, after)) = read_first r.0 (encode v) rest left in
      let word : load32 (le32 len) 0 ≡ some len =
        load32-le32 (le32 len) 0 len [] (omega (arith, small)) (sym (append-nil (le32 len))) in
      let fits : ltb max_message_size len ≡ false = ground (arith, small) in
      let reply : deserialize (suc len) (encode v) ≡ done (lines v) len =
        ap (deserialize (suc len)) (sym (append-nil (encode v)))
        ∙ deserialize-encode v (suc len) [] sized (omega (arith, small)) (omega arith) in
      (
        (r'.0, done (lines v) len),
        rw (run, ◌>>=◌, header, word, ◌>>=◌, fits, run', ◌>>=◌, body, reply)
            (ap (λ (o : Outcome). ok (r'.0, o)) (check_whole (lines v) len small)),
        (refl, after),
      )
