-- ===== src/Server/Loop.antt =====
-- The events of a round in order, and round after round.
use coxx.Base.{
  ℕ, zero, suc, ◌+◌, ◌<◌, ◌≡◌, ◌≢◌, refl, ◌∙◌, Bool, true, false, some, List, [], ◌∷◌, ◌⊎◌, inl,
  inr, All,
}
use coxx.Base.Bytes.{Bytes}
use coxx.Base.Run.{Returns}
use coxx.Parse.{max_message_size}
use coxx.Conn.{Os}
use coxx.Conn.Calls.{IsOs}
use coxx.Conn.Answer.{IsService}
use coxx.Server.{
  Event, Held, Kernel, Server, is_gone, register_epoll_event, max_events, handle_events, round,
  rounds, opened,
}
use coxx.Server.Slots.{slot, slot-replicate}
use coxx.Server.Files.{Reported, IsKernel}
use coxx.Server.Served.{IsServed}
use coxx.Server.Events.{Handled, handle_event-Handled}

module _ {World Files Store : Type 0} (kernel : Kernel World Files) (os : ℕ → Os World)
    (run : Store → List Bytes → Store × Bytes) (is_open watched : Files → ℕ → Bool) (listener : ℕ)
    (law : IsKernel kernel is_open watched listener) (patience : World → ℕ)
    (os_law : (fd : ℕ) → IsOs (os fd) patience) (service : IsService run) (fuel : ℕ)
    (enough : (w : World) → 3 + patience w + (4 + max_message_size) < fuel) where
  -- Events that the loop can handle in this order.
  Pending : Server World Files Store → List Event → Type 0
  Pending s [] = Unit
  Pending s (e ∷ es) =
      ((e.fd ≡ listener) ⊎ ((h : Held) × (slot s.table e.fd ≡ some h)))
      × (e.fd ≡ listener → is_gone e ≡ false)
      × All (λ e'. e'.fd ≢ e.fd) es
      × Pending s es

  Reported-Pending :
      (s : Server World Files Store) (es : List Event)
      → IsServed is_open watched listener s
      → Reported (watched s.files) listener es
      → Pending s es
  unfolding Pending
  Reported-Pending s [] g r = tt
  Reported-Pending s (e ∷ es) g (w, calm, apart, rest) =
      (g.covered e.fd w, calm, apart, Reported-Pending s es g rest)

  -- The events of other descriptors wait while one is handled.
  Handled-Pending :
      (s s' : Server World Files Store) (e : Event) (es : List Event)
      → Handled kernel is_open watched listener law e s s'
      → All (λ e'. e'.fd ≢ e.fd) es
      → Pending s es
      → Pending s' es
  unfolding Pending
  Handled-Pending s s' e [] c a p = tt
  Handled-Pending s s' e (e' ∷ es) c (n, a) (known, calm, apart, rest) = (
    elim known [ inl q ↦ inl q | inr (h, q) ↦ inr (h, c.kept e'.fd h n q) ],
    calm,
    apart,
    Handled-Pending s s' e es c a rest,
  )

  handle_events-IsServed :
      (s : Server World Files Store) (es : List Event)
      → IsServed is_open watched listener s
      → Pending s es
      → Returns (handle_events kernel os run listener fuel s es) (IsServed is_open watched listener)
  unfolding handle_events Pending
  handle_events-IsServed s [] g p = (s, refl, g)
  handle_events-IsServed s (e ∷ es) g (known, calm, apart, rest) =
      let (s', run_eq, c) =
        handle_event-Handled kernel os run is_open watched listener law patience os_law service fuel
          enough s e g known calm in
      rw run_eq (handle_events-IsServed s' es c.served (Handled-Pending s s' e es c apart rest))

  round-IsServed :
      (s : Server World Files Store)
      → IsServed is_open watched listener s
      → Returns (round kernel os run listener fuel s) (IsServed is_open watched listener)
  unfolding round
  round-IsServed s g =
      let (w, es) = kernel.epoll_wait s.world s.files max_events in
      let s1 : Server World Files Store = record s { world = w } in
      let g1 : IsServed is_open watched listener s1 = record {
        held = g.held;
        covered = g.covered;
        listening = g.listening;
      } in
      handle_events-IsServed s1 es g1
        (Reported-Pending s1 es g1 (law.wait_reported s.world s.files))

  rounds-IsServed :
      (n : ℕ) (s : Server World Files Store)
      → IsServed is_open watched listener s
      → Returns (rounds kernel os run listener fuel n s) (IsServed is_open watched listener)
  unfolding rounds
  rounds-IsServed zero s g = (s, refl, g)
  rounds-IsServed (suc n) s g =
      let (s', run_eq, g') = round-IsServed s g in rw run_eq (rounds-IsServed n s' g')

  -- The loop starts in order.
  pub opened-IsServed :
      (w : World) (files : Files) (store : Store)
      → is_open files listener ≡ true
      → IsServed is_open watched listener (opened kernel os run listener w files store)
  unfolding opened register_epoll_event
  opened-IsServed w files store o = record {
    held = λ k h e. absurd (cc (e, slot-replicate max_events k));
    covered = λ k e. elim (law.add_watched created listener mask k e) [
      | inl p ↦ absurd (cc (p, law.create_watched files k))
      | inr p ↦ inl p
    ];
    listening = law.add_open created listener mask listener ∙ law.create_open files listener o;
  }
    where
      created : Files
      created = kernel.epoll_create files

      mask : ℕ
      mask = 2147483653

  pub rounds-opened :
      (n : ℕ) (w : World) (files : Files) (store : Store)
      → is_open files listener ≡ true
      → Returns
          (rounds kernel os run listener fuel n (opened kernel os run listener w files store))
          (IsServed is_open watched listener)
  rounds-opened n w files store o =
      rounds-IsServed n (opened kernel os run listener w files store)
        (opened-IsServed w files store o)
