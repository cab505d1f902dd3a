-- ===== src/Server/Served.antt =====
-- The invariant of the event loop, and how it is kept while one slot of the table changes.
use coxx.Base.{
  ℕ, ◌<◌, ◌≡◌, ◌≢◌, refl, sym, ap, ◌∙◌, subst, Bool, true, Option, none, some, ◌⊎◌, inl, inr,
  length, length-set, set,
}
use native.Mathlib.Decide.{ℕ_discrete}
use coxx.Base.Run.{Returns}
use coxx.Conn.{end}
use coxx.Conn.Receive.{IsConnection}
use coxx.Server.{Held, Kernel, Server, closed, destroyed, removed, assign}
use coxx.Server.Slots.{slot, slot-set, slot-set_other, get_elem?-slot}
use coxx.Server.Files.{IsKernel}

module _ {Files : Type 0} (is_open : Files → ℕ → Bool) (listener : ℕ) where
  -- A connection in its slot: in order, not ended, and its descriptor is the slot's and is open.
  pub record IsHeld (files : Files) (k : ℕ) (h : Held) : Type 0 where
    pub own : h.fd ≡ k
    pub connected : IsConnection h.conn
    pub alive : h.conn.state ≢ end
    pub is_opened : is_open files k ≡ true
    pub apart : k ≢ listener

module _ {World Files Store : Type 0} (is_open watched : Files → ℕ → Bool) (listener : ℕ) where
  -- Every slot of the table holds such a connection or none, and what is watched has a connection
  -- unless it is the listening socket, which is open.
  pub record IsServed (s : Server World Files Store) : Type 0 where
    pub held : (k : ℕ) (h : Held) → slot s.table k ≡ some h → IsHeld is_open listener s.files k h
    pub covered :
        (k : ℕ)
        → watched s.files k ≡ true
        → (k ≡ listener) ⊎ ((h : Held) × (slot s.table k ≡ some h))
    pub listening : is_open s.files listener ≡ true

  -- The same of every slot but one.
  pub record IsServedBut (i : ℕ) (s : Server World Files Store) : Type 0 where
    pub others_held :
        (k : ℕ) (h : Held) → k ≢ i → slot s.table k ≡ some h → IsHeld is_open listener s.files k h
    pub others_covered :
        (k : ℕ)
        → k ≢ i
        → watched s.files k ≡ true
        → (k ≡ listener) ⊎ ((h : Held) × (slot s.table k ≡ some h))
    pub still_listening : is_open s.files listener ≡ true
    pub distinct : i ≢ listener
    pub inside : i < length s.table
    pub owner : (h : Held) → slot s.table i ≡ some h → h.fd ≡ i

  pub IsServed-but :
      (i : ℕ) (s : Server World Files Store)
      → IsServed s
      → i ≢ listener
      → i < length s.table
      → IsServedBut i s
  IsServed-but i s g d l = record {
    others_held = λ k h n e. g.held k h e;
    others_covered = λ k n e. g.covered k e;
    still_listening = g.listening;
    distinct = d;
    inside = l;
    owner = λ h e. (g.held i h e).own;
  }

  -- Other files, in which the other descriptors are still open and no more is watched.
  pub refiled :
      (i : ℕ) (s : Server World Files Store) (store : Store) (w : World) (files : Files)
      → IsServedBut i s
      → ((k : ℕ) → k ≢ i → is_open s.files k ≡ true → is_open files k ≡ true)
      → ((k : ℕ) → watched files k ≡ true → watched s.files k ≡ true)
      → IsServedBut i (record s { store = store; world = w; files = files })
  refiled i s store w files g o c = record {
    others_held = λ k h n e.
        let before = g.others_held k h n e in
        record {
          own = before.own;
          connected = before.connected;
          alive = before.alive;
          is_opened = o k n before.is_opened;
          apart = before.apart;
        };
    others_covered = λ k n e. g.others_covered k n (c k e);
    still_listening = o listener (λ e. g.distinct (sym e)) g.still_listening;
    distinct = g.distinct;
    inside = g.inside;
    owner = g.owner;
  }

  -- Another pointer in the slot.
  pub reslotted :
      (i : ℕ) (s : Server World Files Store) (v : Option Held)
      → IsServedBut i s
      → ((h : Held) → v ≡ some h → h.fd ≡ i)
      → IsServedBut i (record s { table = set s.table i v })
  reslotted i s v g o = record {
    others_held = λ k h n e. g.others_held k h n (sym (slot-set_other s.table i k v n) ∙ e);
    others_covered = λ k n e. elim (g.others_covered k n e) [
      | inl q ↦ inl q
      | inr (h, q) ↦ inr (h, slot-set_other s.table i k v n ∙ q)
    ];
    still_listening = g.still_listening;
    distinct = g.distinct;
    inside = subst (λ n. i < n) (sym (length-set s.table i v)) g.inside;
    owner = λ h e. o h (sym (slot-set s.table i v g.inside) ∙ e);
  }

  -- All slots are in order when that one is.
  pub IsServedBut-whole :
      (i : ℕ) (s : Server World Files Store)
      → IsServedBut i s
      → ((h : Held) → slot s.table i ≡ some h → IsHeld is_open listener s.files i h)
      → (watched s.files i ≡ true → (h : Held) × (slot s.table i ≡ some h))
      → IsServed s
  IsServedBut-whole i s g held covered = record {
    held = λ k h e. elim (ℕ_discrete k i) [
      | yes p ↦
          subst (λ j. IsHeld is_open listener s.files j h) (sym p)
            (held h (subst (λ j. slot s.table j ≡ some h) p e))
      | no n ↦ g.others_held k h n e
    ];
    covered = λ k e. elim (ℕ_discrete k i) [
      | yes p ↦
          let (h, q) = covered (subst (λ j. watched s.files j ≡ true) p e) in
          inr (h, subst (λ j. slot s.table j ≡ some h) (sym p) q)
      | no n ↦ g.others_covered k n e
    ];
    listening = g.still_listening;
  }

  -- The slot is emptied, and no other one changes.
  pub record Cleared (i : ℕ) (s s' : Server World Files Store) : Type 0 where
    pub served : IsServed s'
    pub empty : slot s'.table i ≡ none
    pub same : (k : ℕ) → k ≢ i → slot s'.table k ≡ slot s.table k
    pub width : length s'.table ≡ length s.table

  module _ (kernel : Kernel World Files) (law : IsKernel kernel is_open watched listener) where
    pub removed_but :
        (i : ℕ) (s : Server World Files Store)
        → IsServedBut i s
        → IsServedBut i (removed kernel s i)
    removed_but i s g =
        refiled i s s.store s.world (kernel.epoll_del s.files i) g
          (λ k n e. law.del_open s.files i k ∙ e) (λ k e. (law.del_watched s.files i k e).0)

    pub closed_but :
        (i : ℕ) (s : Server World Files Store) → IsServedBut i s → IsServedBut i (closed kernel s i)
    closed_but i s g =
        refiled i s s.store (kernel.close s.world s.files i).0 (kernel.close s.world s.files i).1 g
          (λ k n e. law.close_open s.world s.files i k n e)
          (λ k e. (law.close_watched s.world s.files i k e).0)

    destroyed_but :
        (i : ℕ) (s : Server World Files Store) (old : Option Held)
        → IsServedBut i s
        → ((h : Held) → old ≡ some h → h.fd ≡ i)
        → IsServedBut i (destroyed kernel s old)
          × ((destroyed kernel s old).table ≡ s.table)
          × (watched (destroyed kernel s old).files i ≡ true → watched s.files i ≡ true)
    destroyed_but i s none g o = (g, refl, λ e. e)
    destroyed_but i s (some h) g o =
        let e = o h refl in
        (
          subst (λ j. IsServedBut i (closed kernel s j)) (sym e) (closed_but i s g),
          refl,
          λ q. (law.close_watched s.world s.files h.fd i q).0,
        )

    -- `reset` of a slot whose descriptor is not watched any more.
    pub assign-Cleared :
        (i : ℕ) (s : Server World Files Store)
        → IsServedBut i s
        → watched s.files i ≢ true
        → Returns (assign kernel s i none) (Cleared i s)
    unfolding assign
    assign-Cleared i s g n =
        let emptied = record s { table = set s.table i none } in
        let (g', t, w) =
          destroyed_but i emptied (slot s.table i) (reslotted i s none g (λ h e. cc)) g.owner in
        let s' = destroyed kernel emptied (slot s.table i) in
        let empty : slot s'.table i ≡ none = rw t (slot-set s.table i none g.inside) in
        (
          s',
          rw (get_elem?-slot s.table i g.inside) refl,
          record {
            served =
                IsServedBut-whole i s' g' (λ h e. absurd (cc (e, empty))) (λ e. absurd (n (w e)));
            empty = empty;
            same = λ k q. rw t (slot-set_other s.table i k none q);
            width = ap length t ∙ length-set s.table i none;
          },
        )
