-- ===== src/Conn/Pipeline.antt =====
-- Requests that wait one behind another are answered in order, on a socket that takes what is written.
use coxx.Base.{
  ℕ, zero, suc, ◌+◌, ◌≤◌, ◌<◌, ◌≡◌, refl, sym, ap, ◌∙◌, subst, Bool, true, false, List, [], ◌∷◌,
  ◌++◌, append_assoc, append-nil, arith, ltb, length, length-take, length-drop, length-append, take,
  drop, take-append, take-append-drop, some, leb, All,
}
use coxx.Base.Bytes.{Bytes, IsByte, le32, add64, blit, blit-over, length-blit}
use coxx.Base.Run.{Run, ok, ◌>>=◌, Returns}
use coxx.Parse.{max_message_size, max_num_args}
use coxx.Parse.Frame.{frame}
use coxx.Conn.{
  Os, ConnectionState, req, Connection, Machine, is_req, fit, try_one_request, try_requests,
  received, done,
}
use coxx.Conn.Buffers.{IsBuffered, Writing, rewritten-IsBuffered}
use coxx.Conn.Answer.{IsService}
use coxx.Conn.Reply.{unread, try_one_request-Replied}
use coxx.Conn.Drain.{state_response-Drained}
use coxx.Socket.Sink.{IsSink}

-- A body behind its length.
abbrev framed : Bytes → Bytes
framed body = le32 (length body) ++ body

-- The messages of some requests.
unfoldable pub messages : List (List Bytes) → Bytes
messages [] = []
messages (ws ∷ rest) = framed (frame ws) ++ messages rest

-- The requests, one after another: the data that they leave, and their replies.
unfoldable pub replies :
    {Store : Type 0}
    → (Store → List Bytes → Store × Bytes)
    → Store
    → List (List Bytes)
    → Store × Bytes
replies run s [] = (s, [])
replies run s (ws ∷ rest) =
    let after = replies run (run s ws).0 rest in (after.0, framed (fit (run s ws).1) ++ after.1)

abbrev pub IsRequest : List Bytes → Type 0
IsRequest ws = (length ws ≤ max_num_args) × (length (frame ws) ≤ max_message_size)

module _ {World Store : Type 0} (os : Os World) (run : Store → List Bytes → Store × Bytes)
    (service : IsService run) (sent : World → Bytes) (sink : IsSink os sent) where
  -- The connection waits for requests with these bytes left, the server's data is this, and so much
  -- was sent.
  pub record Served (store : Store) (out rest : Bytes) (m : Machine World Store) : Type 0 where
    pub buffered : IsBuffered m.conn
    pub waiting : m.conn.state ≡ req
    pub data_now : m.store ≡ store
    pub sent_now : sent m.world ≡ out
    pub left : unread m.conn ≡ rest

  try_one_request-Served :
      (fuel : ℕ) (m : Machine World Store) (ws : List Bytes) (rest : Bytes)
      → IsBuffered m.conn
      → m.conn.state ≡ req
      → unread m.conn ≡ framed (frame ws) ++ rest
      → IsRequest ws
      → 2 + (4 + max_message_size) < fuel
      → (m' : Machine World Store) × (try_one_request os run fuel m ≡ ok (m', true))
        × Served (run m.store ws).0 (sent m.world ++ framed (fit (run m.store ws).1)) rest m'
  try_one_request-Served fuel m ws rest g s e (few, short) enough =
      let (c, replied, run_eq) =
        try_one_request-Replied os run service fuel m ws rest g s e few short in
      let m1 : Machine World Store = record m { conn = c; store = (run m.store ws).0 } in
      let busy : c.write_buffer_sent < c.write_buffer_size =
        subst (λ (st : ConnectionState). Writing st c.write_buffer_sent c.write_buffer_size)
          replied.response replied.in_order.writing in
      let (m', run_eq', d) =
        state_response-Drained os run sent sink fuel m1 replied.in_order replied.response busy
          (omega (arith, replied.in_order.write_fits)) in
      let test : is_req m'.conn.state ≡ true = ap (λ (c' : Connection). is_req c'.state) d.conn in
      (
        m',
        run_eq
            ∙ (ap
                  (λ (r : Run (Machine World Store)).
                    r >>= λ after. ok (after, is_req after.conn.state))
                  run_eq'
                ∙ ap (λ (b : Bool). ok (m', b)) test),
        record {
          buffered =
              subst IsBuffered (sym d.conn)
                (rewritten-IsBuffered c req 0 0 replied.in_order (omega arith) (refl, refl));
          waiting = ap (λ (c' : Connection). c'.state) d.conn;
          data_now = d.store;
          sent_now = d.out ∙ ap (λ (xs : Bytes). sent m.world ++ xs) replied.to_write;
          left = ap unread d.conn ∙ replied.to_read;
        },
      )

  try_requests-Served :
      (fuel : ℕ) (m : Machine World Store) (requests : List (List Bytes)) (rest : Bytes)
      → IsBuffered m.conn
      → m.conn.state ≡ req
      → unread m.conn ≡ messages requests ++ rest
      → All IsRequest requests
      → length rest < 4
      → length requests + (3 + (4 + max_message_size)) < fuel
      → Returns (try_requests os run fuel m) (
          Served
            (replies run m.store requests).0
            (sent m.world ++ (replies run m.store requests).1)
            rest)
  unfolding try_requests try_one_request messages replies
  try_requests-Served zero m requests rest g s e all few enough = absurd (omega arith)
  try_requests-Served (suc fuel) m [] rest g s e all few enough =
      let size : m.conn.read_buffer_size ≡ length rest =
        sym (
          length-take m.conn.read_buffer_size m.conn.read_buffer
            (omega (arith, g.read_fits, g.read_capacity)))
        ∙ ap (λ (b : Bytes). length b) e in
      let test : ltb m.conn.read_buffer_size 4 ≡ true = ground (arith, size, few) in
      (
        m,
        rw test refl,
        record {
          buffered = g;
          waiting = s;
          data_now = refl;
          sent_now = sym (append-nil (sent m.world));
          left = e;
        },
      )
  try_requests-Served (suc fuel) m (ws ∷ requests) rest g s e (one, all) few enough =
      let (m1, run_eq, d) =
        try_one_request-Served fuel m ws (messages requests ++ rest) g s
          (e ∙ append_assoc (framed (frame ws)) (messages requests) rest) one (omega arith) in
      let (m2, run_eq', d') =
        try_requests-Served fuel m1 requests rest d.buffered d.waiting d.left all few
          (omega arith) in
      let after = replies run (run m.store ws).0 requests in
      let same : replies run m1.store requests ≡ after =
        ap (λ (st : Store). replies run st requests) d.data_now in
      (
        m2,
        ap
              (λ (x : Run (Machine World Store × Bool)).
                x >>= λ r. elim r.1 [ true ↦ try_requests os run fuel r.0 | false ↦ ok r.0 ])
              run_eq
            ∙ run_eq',
        record {
          buffered = d'.buffered;
          waiting = d'.waiting;
          data_now = d'.data_now ∙ ap (λ (r : Store × Bytes). r.0) same;
          sent_now =
              d'.sent_now
              ∙ (ap (λ (r : Store × Bytes). sent m1.world ++ r.1) same
                  ∙ (ap (λ (b : Bytes). b ++ after.1) d.sent_now
                      ∙ append_assoc (sent m.world) (framed (fit (run m.store ws).1)) after.1));
          left = d'.left;
        },
      )

  -- The bytes of one `read` behind those that wait.
  appended :
      (c : Connection) (new : Bytes)
      → IsBuffered c
      → c.read_buffer_size + length new ≤ 4 + max_message_size
      → All IsByte new
      → (filled : Bytes) × (blit c.read_buffer c.read_buffer_size new ≡ some filled)
        × IsBuffered
            (record c { read_buffer = filled; read_buffer_size = c.read_buffer_size + length new })
        × (take (c.read_buffer_size + length new) filled ≡ unread c ++ new)
  appended c new g fits bytes =
      let (filled, e, l, bs) =
        length-blit c.read_buffer c.read_buffer_size new (omega (arith, fits, g.read_capacity)) in
      let back = drop c.read_buffer_size c.read_buffer in
      let size : length (unread c) ≡ c.read_buffer_size =
        length-take c.read_buffer_size c.read_buffer
          (omega (arith, g.read_fits, g.read_capacity)) in
      let over =
        blit-over (unread c) back new
          (omega (arith, length-drop c.read_buffer_size c.read_buffer, fits, g.read_capacity)) in
      let there : blit c.read_buffer c.read_buffer_size new
          ≡ some (unread c ++ (new ++ drop (length new) back)) =
        subst
          (λ (k : ℕ). blit c.read_buffer k new ≡ some (unread c ++ (new ++ drop (length new) back)))
          size
          (ap (λ (mem : Bytes). blit mem (length (unread c)) new)
              (sym (take-append-drop c.read_buffer_size c.read_buffer))
            ∙ over) in
      let same : filled ≡ unread c ++ (new ++ drop (length new) back) = cc (e, there) in
      (
        filled,
        e,
        record {
          read_capacity = l ∙ g.read_capacity;
          read_bytes = bs g.read_bytes bytes;
          write_capacity = g.write_capacity;
          read_fits = fits;
          write_fits = g.write_fits;
          writing = g.writing;
        },
        ap (take (c.read_buffer_size + length new))
              (same ∙ sym (append_assoc (unread c) new (drop (length new) back)))
            ∙ take-append (c.read_buffer_size + length new) (unread c ++ new)
                (drop (length new) back) (omega (arith, size, length-append (unread c) new)),
      )

  received_eq :
      (fuel : ℕ) (m m' : Machine World Store) (b : ℕ) (bytes filled : Bytes)
      → blit m.conn.read_buffer m.conn.read_buffer_size (b ∷ bytes) ≡ some filled
      → add64 m.conn.read_buffer_size (length (b ∷ bytes))
        ≡ m.conn.read_buffer_size + length (b ∷ bytes)
      → m.conn.read_buffer_size + length (b ∷ bytes) ≤ length m.conn.read_buffer
      → try_requests os run fuel (record m {
        conn = record m.conn {
          read_buffer = filled;
          read_buffer_size = m.conn.read_buffer_size + length (b ∷ bytes);
        };
      })
        ≡ ok m'
      → received os run fuel m (done (b ∷ bytes)) ≡ ok (m', is_req m'.conn.state)
  unfolding received
  received_eq fuel m m' b bytes filled e sum h run_eq =
      let fits : leb (m.conn.read_buffer_size + length (b ∷ bytes)) (length m.conn.read_buffer)
          ≡ true =
        ground (arith, h) in
      rw (e, sum, fits, run_eq) refl

  -- When a read gives some bytes, and these with the bytes that wait at a connection in order are whole
  -- requests, each of at most 1024 words framed in at most 4096 bytes, and less than four bytes more,
  -- the connection runs the requests once each, in their order, each on the data that the ones before
  -- left, sends their replies in the same order, each behind its length, and waits with the bytes
  -- that are left over. The bytes fit the buffer, `write` takes a byte or more at each call, the fuel
  -- is more than the number of requests and 4103 together, and a command's output is shorter than
  -- 2^64 - 4 bytes.
  pub received-Served :
      (fuel : ℕ) (m : Machine World Store) (b : ℕ) (bytes : Bytes) (requests : List (List Bytes))
      (rest : Bytes)
      → IsBuffered m.conn
      → m.conn.state ≡ req
      → m.conn.read_buffer_size + length (b ∷ bytes) ≤ 4 + max_message_size
      → All IsByte (b ∷ bytes)
      → unread m.conn ++ (b ∷ bytes) ≡ messages requests ++ rest
      → All IsRequest requests
      → length rest < 4
      → length requests + (3 + (4 + max_message_size)) < fuel
      → (m' : Machine World Store) × (received os run fuel m (done (b ∷ bytes)) ≡ ok (m', true))
        × Served
            (replies run m.store requests).0
            (sent m.world ++ (replies run m.store requests).1)
            rest
            m'
  received-Served fuel m b bytes requests rest g s fits all_bytes e all few enough =
      let (filled, blit_eq, longer, now) = appended m.conn (b ∷ bytes) g fits all_bytes in
      let size = m.conn.read_buffer_size + length (b ∷ bytes) in
      let c : Connection = record m.conn { read_buffer = filled; read_buffer_size = size } in
      let (m', run_eq, served) =
        try_requests-Served fuel (record m { conn = c }) requests rest longer s (now ∙ e) all few
          enough in
      let test : is_req m'.conn.state ≡ true = ap is_req served.waiting in
      (
        m',
        received_eq fuel m m' b bytes filled blit_eq (omega (arith, fits))
              (omega (arith, fits, g.read_capacity)) run_eq
            ∙ ap (λ (b : Bool). ok (m', b)) test,
        served,
      )
