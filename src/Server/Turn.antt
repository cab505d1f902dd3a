-- ===== src/Server/Turn.antt =====
-- One event: a new connection, the turn of one that is there, and the peer that hung up.
use coxx.Base.{
  ℕ, ◌+◌, ◌<◌, ◌≡◌, ◌≢◌, refl, sym, ap, ◌∙◌, subst, Bool, true, false, none, some, List, length,
  length-set, set,
}
use coxx.Base.Bytes.{Bytes}
use coxx.Base.Run.{Returns}
use coxx.Parse.{max_message_size}
use coxx.Conn.{Os, ConnectionState, req, res, end, Machine}
use coxx.Conn.Calls.{IsOs}
use coxx.Conn.Answer.{IsService}
use coxx.Conn.Fill.{io-Turned}
use coxx.Conn.Receive.{IsConnection}
use coxx.Server.{
  Event, Held, Kernel, Server, is_end, is_ready, is_gone, closed, removed, hang_up, retire, talk,
  serve,
}
use coxx.Server.Slots.{slot, slot-set, slot-set_other, get_elem?-slot, slot-lt}
use coxx.Server.Files.{IsKernel}
use coxx.Server.Served.{
  IsHeld, IsServed, IsServedBut, IsServed-but, IsServedBut-whole, refiled, reslotted, removed_but,
  closed_but, assign-Cleared,
}

is_end-end : (state : ConnectionState) → is_end state ≡ false → state ≢ end
is_end-end req e = λ q. cc
is_end-end res e = λ q. cc
is_end-end end e = absurd cc

module _ {World Files Store : Type 0} (kernel : Kernel World Files)
    (is_open watched : Files → ℕ → Bool) (listener : ℕ)
    (law : IsKernel kernel is_open watched listener) where
  -- A step that changes no slot but one.
  pub record Changed (i : ℕ) (s s' : Server World Files Store) : Type 0 where
    pub served : IsServed is_open watched listener s'
    pub same : (k : ℕ) → k ≢ i → slot s'.table k ≡ slot s.table k
    pub width : length s'.table ≡ length s.table

  abbrev HungUp : Event → Server World Files Store → Server World Files Store → Type 0
  HungUp e s s' = Changed e.fd s s' × (is_gone e ≡ true → slot s'.table e.fd ≡ none)

  pub hang_up-HungUp :
      (s : Server World Files Store) (e : Event)
      → IsServed is_open watched listener s
      → e.fd ≢ listener
      → e.fd < length s.table
      → Returns (hang_up kernel s e) (HungUp e s)
  unfolding hang_up
  hang_up-HungUp s e g d l = by_flag (is_gone e) refl
    where
      by_flag : (b : Bool) → is_gone e ≡ b → Returns (hang_up kernel s e) (HungUp e s)
      by_flag false q =
          rw q (s, refl, (record { served = g; same = λ k n. refl; width = refl }, λ p. absurd cc))
      by_flag true q =
          let but = IsServed-but is_open watched listener e.fd s g d l in
          let s1 = removed kernel s e.fd in
          let but1 = removed_but is_open watched listener kernel law e.fd s but in
          let but2 = closed_but is_open watched listener kernel law e.fd s1 but1 in
          let (s', run_eq, c) =
            assign-Cleared is_open watched listener kernel law e.fd (closed kernel s1 e.fd) but2
              (λ w. (law.close_watched s1.world s1.files e.fd e.fd w).1 refl) in
          (
            s',
            rw q run_eq,
            (record { served = c.served; same = c.same; width = c.width }, λ p. c.empty),
          )

  -- The end of a connection's turn, with the connection as it left it in the slot.
  retire-Changed :
      (s : Server World Files Store) (h : Held)
      → IsServedBut is_open watched listener h.fd s
      → slot s.table h.fd ≡ some h
      → IsConnection h.conn
      → is_open s.files h.fd ≡ true
      → Returns (retire kernel s h) (Changed h.fd s)
  unfolding retire
  retire-Changed s h g e c o = by_state (is_end h.conn.state) refl
    where
      by_state : (b : Bool) → is_end h.conn.state ≡ b → Returns (retire kernel s h) (Changed h.fd s)
      by_state true q =
          let (s', run_eq, post) =
            assign-Cleared is_open watched listener kernel law h.fd (removed kernel s h.fd)
              (removed_but is_open watched listener kernel law h.fd s g)
              (λ w. (law.del_watched s.files h.fd h.fd w).1 refl) in
          (s', rw q run_eq, record { served = post.served; same = post.same; width = post.width })
      by_state false q = (
        s,
        rw q refl,
        record {
          served =
              IsServedBut-whole is_open watched listener h.fd s g
                (λ h' e'.
                  let p : h ≡ h' = cc in
                  subst (λ x. IsHeld is_open listener s.files h.fd x) p
                    (record {
                      own = refl;
                      connected = c;
                      alive = is_end-end h.conn.state q;
                      is_opened = o;
                      apart = g.distinct;
                    }))
                (λ w. (h, e));
          same = λ k n. refl;
          width = refl;
        },
      )

module _ {World Files Store : Type 0} (kernel : Kernel World Files) (os : ℕ → Os World)
    (run : Store → List Bytes → Store × Bytes) (is_open watched : Files → ℕ → Bool) (listener : ℕ)
    (law : IsKernel kernel is_open watched listener) (patience : World → ℕ)
    (os_law : (fd : ℕ) → IsOs (os fd) patience) (service : IsService run) (fuel : ℕ)
    (enough : (w : World) → 3 + patience w + (4 + max_message_size) < fuel) where
  -- The turn of a connection in its slot.
  talk-Changed :
      (s : Server World Files Store) (h : Held)
      → IsServed is_open watched listener s
      → slot s.table h.fd ≡ some h
      → Returns
          (talk kernel os run fuel s h.fd (some h))
          (Changed kernel is_open watched listener law h.fd s)
  unfolding talk
  talk-Changed s h g e =
      let here = g.held h.fd h e in
      let inside = slot-lt s.table h.fd h e in
      let m : Machine World Store = record { conn = h.conn; store = s.store; world = s.world } in
      let (m', io_eq, turned) =
        io-Turned (os h.fd) run patience (os_law h.fd) service fuel m here.connected here.alive
          (enough s.world) in
      let held : Held = record { fd = h.fd; conn = m'.conn } in
      let s1 : Server World Files Store = record s {
        table = set s.table h.fd (some held);
        store = m'.store;
        world = m'.world;
      } in
      let but =
        refiled is_open watched listener h.fd (record s { table = set s.table h.fd (some held) })
          m'.store m'.world s.files
          (reslotted is_open watched listener h.fd s (some held)
            (IsServed-but is_open watched listener h.fd s g here.apart inside)
            (λ h' q. let p : held ≡ h' = cc in ap (λ (x : Held). x.fd) (sym p)))
          (λ k n o. o) (λ k w. w) in
      let (s', run_eq, c) =
        retire-Changed kernel is_open watched listener law s1 held but
          (slot-set s.table h.fd (some held) inside) turned.connected here.is_opened in
      (
        s',
        rw io_eq run_eq,
        record {
          served = c.served;
          same = λ k n. c.same k n ∙ slot-set_other s.table h.fd k (some held) n;
          width = c.width ∙ length-set s.table h.fd (some held);
        },
      )

  pub serve-Changed :
      (s : Server World Files Store) (e : Event) (h : Held)
      → IsServed is_open watched listener s
      → slot s.table e.fd ≡ some h
      → Returns (serve kernel os run fuel s e) (Changed kernel is_open watched listener law e.fd s)
  unfolding serve
  serve-Changed s e h g q = by_flag (is_ready e) refl
    where
      own : h.fd ≡ e.fd
      own = (g.held e.fd h q).own

      by_flag :
          (b : Bool)
          → is_ready e ≡ b
          → Returns
              (serve kernel os run fuel s e)
              (Changed kernel is_open watched listener law e.fd s)
      by_flag true r =
          rw (get_elem?-slot s.table e.fd (slot-lt s.table e.fd h q), r, q)
            (subst
              (λ i.
                Returns (talk kernel os run fuel s i (some h))
                  (Changed kernel is_open watched listener law i s))
              own (talk-Changed s h g (subst (λ i. slot s.table i ≡ some h) (sym own) q)))
      by_flag false r =
          rw (get_elem?-slot s.table e.fd (slot-lt s.table e.fd h q), r)
            (s, refl, record { served = g; same = λ k n. refl; width = refl })
