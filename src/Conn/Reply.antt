-- ===== src/Conn/Reply.antt =====
-- What `tryOneRequest` does with a request that is whole.
use coxx.Base.{
  ℕ, ◌+◌, ◌-◌, ◌%◌, ◌≤◌, ◌≡◌, refl, sym, ap, subst, ◌∙◌, false, some, List, [], ◌++◌, arith,
  append_assoc, ltb, length, length-append, length-take, length-drop, take, drop, take_add,
  take-append, drop-append, take-append-drop,
}
use coxx.Base.Bytes.{Bytes, le32, u32_mod, add32, load32-le32, slice_lem, blit-over}
use coxx.Base.Run.{ok, ◌>>=◌, Returns}
use coxx.Parse.{max_message_size, max_num_args, parse}
use coxx.Parse.Frame.{frame}
use coxx.Parse.RoundTrip.{parse-frame}
use coxx.Conn.{
  Os, ConnectionState, req, res, Connection, Machine, sub64, is_req, fit, pack, state_response,
  respond, one_message, try_one_request,
}
use coxx.Conn.Buffers.{pack-Packed, IsBuffered, Writing, length-fit}
use coxx.Conn.Answer.{IsService}

-- The bytes that wait to be read from, and to be written by, a connection.
abbrev pub unread : Connection → Bytes
unread c = take c.read_buffer_size c.read_buffer

abbrev pub unsent : Connection → Bytes
unsent c =
    take (c.write_buffer_size - c.write_buffer_sent) (drop c.write_buffer_sent c.write_buffer)

-- The reply waits to be written behind its length, and the rest to be read, in buffers in order.
pub record Replied (reply rest : Bytes) (c : Connection) : Type 0 where
  pub response : c.state ≡ res
  pub to_write : unsent c ≡ le32 (length reply) ++ reply
  pub to_read : unread c ≡ rest
  pub in_order : IsBuffered c

-- What stands behind a prefix of the first `n` bytes.
behind :
    (mem head rest : Bytes) (n : ℕ)
    → take n mem ≡ head ++ rest
    → n ≤ length mem
    → take (n - length head) (drop (length head) mem) ≡ rest
behind mem head rest n e h =
    let size = ap (λ (b : Bytes). length b) e in
    let sum : length head + (n - length head) ≡ n =
      omega (arith, size, length-append head rest, length-take n mem h) in
    let split : take n mem
        ≡ take (length head) mem ++ take (n - length head) (drop (length head) mem) =
      ap (λ (k : ℕ). take k mem) (sym sum) ∙ take_add (length head) (n - length head) mem in
    let fits : length head ≤ length mem = omega (arith, sum) in
    sym (
      drop-append (length head) (take (length head) mem)
        (take (n - length head) (drop (length head) mem))
        (sym (length-take (length head) mem fits)))
    ∙ (ap (λ (b : Bytes). drop (length head) b) (sym split ∙ e)
        ∙ drop-append (length head) head rest refl)

ok_inj : {a b : Connection} → ok a ≡ ok b → a ≡ b
ok_inj e = cc

pub pack-Replied :
    (c : Connection) (message_length : ℕ) (output head rest : Bytes)
    → IsBuffered c
    → Writing req c.write_buffer_sent c.write_buffer_size
    → length head ≡ 4 + message_length
    → unread c ≡ head ++ rest
    → 4 + length output ≤ max_message_size
    → Returns (pack c message_length output) (Replied output rest)
unfolding pack
pack-Replied c message_length output head rest g idle h e small =
    let n : length output % u32_mod ≡ length output = omega arith in
    let size = ap (λ (b : Bytes). length b) e in
    let whole : 4 + message_length ≤ c.read_buffer_size = omega (
      arith,
      h,
      size,
      length-append head rest,
      g.read_fits,
      g.read_capacity,
      length-take c.read_buffer_size c.read_buffer (omega (arith, g.read_fits, g.read_capacity)),
    ) in
    let remaining : sub64 (sub64 c.read_buffer_size 4) message_length
        ≡ c.read_buffer_size - (4 + message_length) =
      omega (arith, g.read_fits) in
    let left = c.read_buffer_size - (4 + message_length) in
    let headed =
      blit-over [] c.write_buffer (le32 (length output)) (omega (arith, g.write_capacity)) in
    let filled =
      blit-over (le32 (length output)) (drop 4 c.write_buffer) output
        (omega (arith, g.write_capacity, length-drop 4 c.write_buffer)) in
    let cut =
      slice_lem c.read_buffer (4 + message_length) left
        (omega (arith, g.read_fits, g.read_capacity)) in
    let the_rest : take left (drop (4 + message_length) c.read_buffer) ≡ rest =
      subst (λ (k : ℕ). take (c.read_buffer_size - k) (drop k c.read_buffer) ≡ rest) h
        (behind c.read_buffer head rest c.read_buffer_size e
          (omega (arith, g.read_fits, g.read_capacity))) in
    let count : length rest ≡ left = omega (
      arith,
      h,
      size,
      length-append head rest,
      g.read_fits,
      g.read_capacity,
      length-take c.read_buffer_size c.read_buffer (omega (arith, g.read_fits, g.read_capacity)),
    ) in
    let moved =
      blit-over [] c.read_buffer rest (omega (arith, count, g.read_fits, g.read_capacity)) in
    let sum : add32 4 (length output) ≡ 4 + length output = omega arith in
    let behind_it = drop (length output) (drop 4 c.write_buffer) in
    let packed : Connection = record c {
      state = res;
      write_buffer = le32 (length output) ++ (output ++ behind_it);
      write_buffer_size = 4 + length output;
      read_buffer = rest ++ drop (length rest) c.read_buffer;
      read_buffer_size = left;
    } in
    let run_eq : pack c message_length output ≡ ok packed =
      rw (n, headed, filled, remaining, cut, the_rest, moved, sum) refl in
    let (c', run_eq', p) = pack-Packed c message_length output g idle whole small in
    (
      packed,
      run_eq,
      record {
        response = refl;
        to_write =
            subst
              (λ (k : ℕ).
                take (4 + length output - k)
                  (drop k (le32 (length output) ++ (output ++ behind_it)))
                ≡ le32 (length output) ++ output)
              (sym idle.0)
              (take-append (4 + length output - 0) (le32 (length output) ++ output) behind_it
                (omega arith));
        to_read = take-append left rest (drop (length rest) c.read_buffer) (sym count);
        in_order = subst IsBuffered (ok_inj (sym run_eq' ∙ run_eq)) p.buffered;
      },
    )

module _ {World Store : Type 0} (os : Os World) (run : Store → List Bytes → Store × Bytes)
    (service : IsService run) where
  -- When the first bytes that wait are a request of at most 1024 words, framed in at most 4096 bytes,
  -- `tryOneRequest` runs the command of these words once, has the reply wait to be written behind
  -- its length and the bytes behind the request wait to be read, and goes on to write. The reply is
  -- what the command put out, or the error in place of one too long for a message.
  pub try_one_request-Replied :
      (fuel : ℕ) (m : Machine World Store) (ws : List Bytes) (rest : Bytes)
      → IsBuffered m.conn
      → m.conn.state ≡ req
      → unread m.conn ≡ (le32 (length (frame ws)) ++ frame ws) ++ rest
      → length ws ≤ max_num_args
      → length (frame ws) ≤ max_message_size
      → (c : Connection) × Replied (fit (run m.store ws).1) rest c
        × (try_one_request os run fuel m ≡ (
            state_response os run fuel (record m { conn = c; store = (run m.store ws).0 })
            >>= λ after. ok (after, is_req after.conn.state)))
  unfolding try_one_request one_message respond
  try_one_request-Replied fuel m ws rest g s e few short =
      let body = frame ws in
      let idle =
        subst
          (λ (st : ConnectionState). Writing st m.conn.write_buffer_sent m.conn.write_buffer_size) s
          g.writing in
      let size = ap (λ (b : Bytes). length b) e in
      let long : 4 + length body ≤ m.conn.read_buffer_size = omega (
        arith,
        size,
        length-append (le32 (length body) ++ body) rest,
        length-take m.conn.read_buffer_size m.conn.read_buffer
            (omega (arith, g.read_fits, g.read_capacity)),
      ) in
      let (c, run_pack, replied) =
        pack-Replied m.conn (length body) (fit (run m.store ws).1) (le32 (length body) ++ body) rest
          g idle (omega arith) e (length-fit (run m.store ws).1 (service m.store ws)) in
      let mem : m.conn.read_buffer
          ≡ le32 (length body)
            ++ (body ++ (rest ++ drop m.conn.read_buffer_size m.conn.read_buffer)) =
        sym (take-append-drop m.conn.read_buffer_size m.conn.read_buffer)
        ∙ (ap (λ (b : Bytes). b ++ drop m.conn.read_buffer_size m.conn.read_buffer) e
            ∙ (append_assoc (le32 (length body) ++ body) rest
                  (drop m.conn.read_buffer_size m.conn.read_buffer)
                ∙ append_assoc (le32 (length body)) body
                    (rest ++ drop m.conn.read_buffer_size m.conn.read_buffer))) in
      let load = load32-le32 m.conn.read_buffer 0 (length body) _ (omega arith) mem in
      let parsed : parse (drop 4 m.conn.read_buffer) (length body) ≡ some (0, ws) =
        ap (λ (b : Bytes). parse (drop 4 b) (length body)) mem
        ∙ parse-frame ws (rest ++ drop m.conn.read_buffer_size m.conn.read_buffer) few
            (omega arith) in
      let test₁ : ltb m.conn.read_buffer_size 4 ≡ false = ground arith in
      let test₂ : ltb max_message_size (length body) ≡ false = ground arith in
      let sum : add32 4 (length body) ≡ 4 + length body = omega arith in
      let test₃ : ltb m.conn.read_buffer_size (4 + length body) ≡ false = ground arith in
      (c, replied, rw (test₁, load, test₂, sum, test₃, parsed, run_pack) refl)
