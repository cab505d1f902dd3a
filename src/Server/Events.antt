-- ===== src/Server/Events.antt =====
-- An event of the listening socket or of a connection, whichever it is.

use coxx.Base.{
  ℕ, ◌+◌, ◌<◌, ◌≡◌, ◌≢◌, refl, sym, ◌∙◌, subst, Bool, true, false, Option, none, some, List, ◌⊎◌,
  inl, inr, length, arith, ◌==◌,
}
use coxx.Base.Bytes.{Bytes}
use coxx.Base.Run.{Returns}
use coxx.Parse.{max_message_size}
use coxx.Conn.{Os}
use coxx.Conn.Calls.{IsOs}
use coxx.Conn.Answer.{IsService}
use coxx.Server.{Event, Held, Kernel, Server, is_gone, greet, hang_up, handle_event}
use coxx.Server.Slots.{slot, slot-lt}
use coxx.Server.Files.{IsKernel}
use coxx.Server.Served.{IsServed}
use coxx.Server.Turn.{hang_up-HungUp, serve-Changed}
use coxx.Server.Admit.{Admitted, admit-Admitted}

module _ {World Files Store : Type 0} (kernel : Kernel World Files)
    (is_open watched : Files → ℕ → Bool) (listener : ℕ)
    (law : IsKernel kernel is_open watched listener) where
  -- What an event leaves: the invariant, every other connection as it was, and no connection in the
  -- slot of a peer that hung up.
  pub record Handled (e : Event) (s s' : Server World Files Store) : Type 0 where
    pub served : IsServed is_open watched listener s'
    pub kept : (k : ℕ) (h : Held) → k ≢ e.fd → slot s.table k ≡ some h → slot s'.table k ≡ some h
    pub hung : e.fd ≢ listener → is_gone e ≡ true → slot s'.table e.fd ≡ none

  -- The files after `accept`.
  accepted-IsServed :
      (s : Server World Files Store) (w : World)
      → IsServed is_open watched listener s
      → IsServed is_open watched listener
          (record s { world = w; files = (kernel.accept s.world s.files).1 })
  accepted-IsServed s w g = record {
    held = λ k h e.
        let before = g.held k h e in
        record {
          own = before.own;
          connected = before.connected;
          alive = before.alive;
          is_opened = law.accept_open s.world s.files k before.is_opened;
          apart = before.apart;
        };
    covered = λ k e. g.covered k (law.accept_watched s.world s.files k e);
    listening = law.accept_open s.world s.files listener g.listening;
  }

  greet-Handled :
      (s : Server World Files Store) (e : Event)
      → IsServed is_open watched listener s
      → e.fd ≡ listener
      → is_gone e ≡ false
      → Returns (greet kernel s e (kernel.accept s.world s.files)) (Handled e s)
  unfolding greet hang_up
  greet-Handled s e g at calm = by_result (kernel.accept s.world s.files).2 refl
    where
      by_result :
          (r : Option ℕ)
          → (kernel.accept s.world s.files).2 ≡ r
          → Returns
              (greet kernel s e
                ((kernel.accept s.world s.files).0, (kernel.accept s.world s.files).1, r))
              (Handled e s)
      by_result none q = (
        record s {
          world = (kernel.accept s.world s.files).0;
          files = (kernel.accept s.world s.files).1;
        },
        refl,
        record {
          served = accepted-IsServed s (kernel.accept s.world s.files).0 g;
          kept = λ k h n e'. e';
          hung = λ n p. absurd cc;
        },
      )
      by_result (some fd) q =
          let (shut, opened) = law.accept_fresh s.world s.files fd q in
          let unused : (h : Held) → slot s.table fd ≢ some h =
            λ h e'. let o = (g.held fd h e').is_opened in absurd cc in
          let apart : fd ≢ listener = λ p.
            let o = g.listening in
            let o' : is_open s.files listener ≡ false =
              subst (λ k. is_open s.files k ≡ false) p shut in
            absurd cc in
          let s1 : Server World Files Store = record s {
            world = (kernel.accept s.world s.files).0;
            files = (kernel.accept s.world s.files).1;
          } in
          let (s', run_eq, post) =
            admit-Admitted kernel is_open watched listener law s1 fd
              (accepted-IsServed s (kernel.accept s.world s.files).0 g) opened apart
              (nothing (slot s.table fd) unused) in
          (
            s',
            rw (run_eq, calm) refl,
            record {
              served = post.served;
              kept = λ k h n e'. elsewhere s' post k h unused e';
              hung = λ n p. absurd cc;
            },
          )
        where
          nothing : (o : Option Held) → ((h : Held) → o ≢ some h) → o ≡ none
          nothing none f = refl
          nothing (some h) f = absurd (f h refl)

          elsewhere :
              (s' : Server World Files Store)
              → Admitted kernel is_open watched listener law fd
                  (record s {
                    world = (kernel.accept s.world s.files).0;
                    files = (kernel.accept s.world s.files).1;
                  })
                  s'
              → (k : ℕ) (h : Held) → ((h : Held) → slot s.table fd ≢ some h)
              → slot s.table k ≡ some h
              → slot s'.table k ≡ some h
          elsewhere s' post k h f e' =
              post.same k (λ p. f h (subst (λ j. slot s.table j ≡ some h) p e')) ∙ e'

module _ {World Files Store : Type 0} (kernel : Kernel World Files) (os : ℕ → Os World)
    (run : Store → List Bytes → Store × Bytes) (is_open watched : Files → ℕ → Bool) (listener : ℕ)
    (law : IsKernel kernel is_open watched listener) (patience : World → ℕ)
    (os_law : (fd : ℕ) → IsOs (os fd) patience) (service : IsService run) (fuel : ℕ)
    (enough : (w : World) → 3 + patience w + (4 + max_message_size) < fuel) where
  -- An event of the listening socket that is not hung up, or of a descriptor with a connection, in a
  -- state in order: its handling ends without a fault and leaves a state in order, every other
  -- connection is the one that it was, and a peer that hung up has no connection any more. The fuel
  -- is more than every world's patience and a buffer's size, and a command's output is shorter than
  -- 2^64 - 4 bytes.
  pub handle_event-Handled :
      (s : Server World Files Store) (e : Event)
      → IsServed is_open watched listener s
      → (e.fd ≡ listener) ⊎ ((h : Held) × (slot s.table e.fd ≡ some h))
      → (e.fd ≡ listener → is_gone e ≡ false)
      → Returns
          (handle_event kernel os run listener fuel s e)
          (Handled kernel is_open watched listener law e s)
  unfolding handle_event
  handle_event-Handled s e g known calm = by_test (e.fd == listener) refl known
    where
      Post : Server World Files Store → Type 0
      Post = Handled kernel is_open watched listener law e s

      by_test :
          (b : Bool)
          → (e.fd == listener) ≡ b
          → (e.fd ≡ listener) ⊎ ((h : Held) × (slot s.table e.fd ≡ some h))
          → Returns (handle_event kernel os run listener fuel s e) Post
      by_test true q k =
          let at : e.fd ≡ listener = ground (arith, q) in
          rw q (greet-Handled kernel is_open watched listener law s e g at (calm at))
      by_test false q (inl p) = absurd (ground (arith, q, p))
      by_test false q (inr (h, e')) =
          let (s1, run_eq, c) =
            serve-Changed kernel os run is_open watched listener law patience os_law service fuel
              enough s e h g e' in
          let inside : e.fd < length s1.table =
            subst (λ n. e.fd < n) (sym c.width) (slot-lt s.table e.fd h e') in
          let (s2, run_eq', (c', empty)) =
            hang_up-HungUp kernel is_open watched listener law s1 e c.served
              (g.held e.fd h e').apart inside in
          (
            s2,
            rw (q, run_eq) run_eq',
            record {
              served = c'.served;
              kept = λ k h' n r. c'.same k n ∙ (c.same k n ∙ r);
              hung = λ n r. empty r;
            },
          )
