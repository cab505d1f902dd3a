-- ===== src/Server/Admit.antt =====
-- A new connection is put into the table.
use Prim.Native.Nat.{bit_or}
use coxx.Base.{ℕ, ◌+◌, ◌≡◌, ◌≢◌, refl, sym, ap, ◌∙◌, subst, Bool, true, none, some, inl, inr, set}
use coxx.Base.Run.{Returns}
use coxx.Parse.{max_message_size}
use coxx.Conn.{new_connection}
use coxx.Conn.Receive.{new_connection-IsConnection}
use coxx.Server.{
  Held, Kernel, Server, grown, make_non_blocking, register_epoll_event, epoll_in, epoll_et,
  epoll_rdhup, epoll_hup, o_nonblock, assign, admit,
}
use coxx.Server.Slots.{slot, slot-set, slot-set_other, get_elem?-slot, slot-grown, length-grown}
use coxx.Server.Files.{IsKernel}
use coxx.Server.Served.{IsHeld, IsServed, IsServedBut, IsServedBut-whole, reslotted}

module _ {World Files Store : Type 0} (kernel : Kernel World Files)
    (is_open watched : Files → ℕ → Bool) (listener : ℕ)
    (law : IsKernel kernel is_open watched listener) where
  -- A step that puts a connection into an empty slot.
  pub record Admitted (fd : ℕ) (s s' : Server World Files Store) : Type 0 where
    pub served : IsServed is_open watched listener s'
    pub same : (k : ℕ) → k ≢ fd → slot s'.table k ≡ slot s.table k

  pub admit-Admitted :
      (s : Server World Files Store) (fd : ℕ)
      → IsServed is_open watched listener s
      → is_open s.files fd ≡ true
      → fd ≢ listener
      → slot s.table fd ≡ none
      → Returns (admit kernel s fd) (Admitted fd s)
  unfolding admit assign make_non_blocking register_epoll_event
  admit-Admitted s fd g o d e =
      let size = 4 + max_message_size in
      let (w, read_memory) = kernel.reserve s.world size in
      let (w', write_memory) = kernel.reserve w size in
      let connected =
        new_connection-IsConnection read_memory write_memory (law.reserve_length s.world size)
          (law.reserve_bytes s.world size) (law.reserve_length w size) in
      let h : Held = record { fd = fd; conn = new_connection read_memory write_memory } in
      let n = bit_or (kernel.get_flags s.files fd) o_nonblock in
      let mask = bit_or (bit_or (bit_or epoll_in epoll_et) epoll_rdhup) epoll_hup in
      let flagged = kernel.set_flags s.files fd n in
      let files = kernel.epoll_add flagged fd mask in
      let opened : (k : ℕ) → is_open s.files k ≡ true → is_open files k ≡ true =
        λ k q. law.add_open flagged fd mask k ∙ (law.flags_open s.files fd n k ∙ q) in
      let s1 : Server World Files Store = record s {
        table = grown s.table fd;
        world = w';
        files = files;
      } in
      let empty : slot s1.table fd ≡ none = slot-grown s.table fd fd ∙ e in
      let inside = length-grown s.table fd in
      let but : IsServedBut is_open watched listener fd s1 = record {
        others_held = λ k h' q e'.
            let before = g.held k h' (sym (slot-grown s.table fd k) ∙ e') in
            record {
              own = before.own;
              connected = before.connected;
              alive = before.alive;
              is_opened = opened k before.is_opened;
              apart = before.apart;
            };
        others_covered = λ k q e'. elim (law.add_watched flagged fd mask k e') [
          | inl p ↦ elim (g.covered k (sym (law.flags_watched s.files fd n k) ∙ p)) [
            | inl r ↦ inl r
            | inr (h', r) ↦ inr (h', slot-grown s.table fd k ∙ r)
          ]
          | inr p ↦ absurd (q p)
        ];
        still_listening = opened listener g.listening;
        distinct = d;
        inside = inside;
        owner = λ h' q. absurd (cc (q, empty));
      } in
      let s2 : Server World Files Store = record s1 { table = set s1.table fd (some h) } in
      let there : slot s2.table fd ≡ some h = slot-set s1.table fd (some h) inside in
      (
        s2,
        rw (get_elem?-slot s1.table fd inside, empty) refl,
        record {
          served =
              IsServedBut-whole is_open watched listener fd s2
                (reslotted is_open watched listener fd s1 (some h) but
                  (λ h' q. let p : h ≡ h' = cc in ap (λ (x : Held). x.fd) (sym p)))
                (λ h' q.
                  let p : h ≡ h' = cc in
                  subst (λ x. IsHeld is_open listener files fd x) p
                    (record {
                      own = refl;
                      connected = connected;
                      alive = λ r. cc;
                      is_opened = opened fd o;
                      apart = d;
                    }))
                (λ r. (h, there));
          same = λ k q. slot-set_other s1.table fd k (some h) q ∙ slot-grown s.table fd k;
        },
      )
