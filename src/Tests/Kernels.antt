-- ===== src/Tests/Kernels.antt =====
-- A kernel with one connection at a time, for the runs of server/server.cxx
use coxx.Base.{
  ℕ, ◌+◌, ◌<◌, ◌≡◌, ◌≢◌, refl, sym, ap, ◌∙◌, Bool, true, false, Option, some, none, List, [], ◌∷◌,
  ◌==◌, ◌⊎◌, inl, inr, arith, leb, length, if◌then◌else◌, replicate, length-replicate,
}
use coxx.Base.Bytes.{Bytes}
use coxx.Conn.{Call, again, done, Os}
use coxx.Conn.Calls.{IsOs, ReadOk, WriteOk}
use coxx.Tests.Conns.{message, message-IsByte, zeros-IsByte}
use coxx.Server.{Event, Kernel, is_gone}
use coxx.Server.Files.{Reported, IsKernel}

-- The open descriptors and the interest list, as tests.
abbrev pub Files : Type 0
Files = (ℕ → Bool) × (ℕ → Bool)

abbrev updated : (ℕ → Bool) → ℕ → Bool → ℕ → Bool
updated f k b j = if j == k then b else f j

-- Is there still a message to come, and can a reply be written?
abbrev pub World : Type 0
World = Bool × Bool

abbrev to_nat : Bool → ℕ
to_nat true = 1
to_nat false = 0

abbrev pub to_come : World → ℕ
to_come (a, b) = to_nat a + to_nat b

abbrev arrived : Bool → Bool → World × Call Bytes
arrived true b = ((false, b), done message)
arrived false b = ((true, b), again)

abbrev read_message : World → ℕ → World × Call Bytes
read_message (false, b) n = ((false, b), again)
read_message (true, b) n = arrived (leb (length message) n) b

abbrev write_once : World → Bytes → World × Call ℕ
write_once (a, false) bytes = ((a, false), again)
write_once (a, true) bytes = ((a, false), done (length bytes))

abbrev pub line : ℕ → Os World
line fd = record { read = read_message; write = write_once }

abbrev accept_one : Bool → World → Files → World × Files × Option ℕ
accept_one true w f = (w, f, none)
accept_one false w (o, l) = (w, (updated o 7 true, l), some 7)

-- One connection at a time; its peer hangs up once it has sent its message.
abbrev events_of : Bool → Bool → Bool → List Event
events_of true a true = record { fd = 7; events = if a then 1 else 8193 } ∷ []
events_of true a false = record { fd = 3; events = 1 } ∷ []
events_of false a b = []

abbrev pub kernel : Kernel World Files
kernel = record {
  accept = λ w f. accept_one (f.0 7) w f;
  close = λ w f fd. (w, (updated f.0 fd false, updated f.1 fd false));
  get_flags = λ f fd. 2;
  set_flags = λ f fd n. f;
  epoll_create = λ f. (f.0, λ j. false);
  epoll_add = λ f fd n. (f.0, updated f.1 fd true);
  epoll_del = λ f fd. (f.0, updated f.1 fd false);
  epoll_wait = λ w f n. (w, events_of (f.1 3) w.0 (f.1 7));
  reserve = λ w n. (w, replicate n 0);
}

updated_same : (f : ℕ → Bool) (fd : ℕ) (b : Bool) → updated f fd b fd ≡ b
updated_same f fd b = ground arith

updated_other : (f : ℕ → Bool) (fd k : ℕ) (b : Bool) → k ≢ fd → updated f fd b k ≡ f k
updated_other f fd k b n = ground (arith, n)

updated_kept : (f : ℕ → Bool) (fd k : ℕ) → f k ≡ true → updated f fd true k ≡ true
updated_kept f fd k e = ground (arith, e)

updated_cleared : (f : ℕ → Bool) (fd k : ℕ) → updated f fd false k ≡ true → (f k ≡ true) × (k ≢ fd)
updated_cleared f fd k e = by_test (k == fd) refl e
  where
    by_test :
        (b : Bool) → (k == fd) ≡ b → (if b then false else f k) ≡ true → (f k ≡ true) × (k ≢ fd)
    by_test true q p = absurd cc
    by_test false q p = (p, λ r. ground (arith, q, r))

updated_added : (f : ℕ → Bool) (fd k : ℕ) → updated f fd true k ≡ true → (f k ≡ true) ⊎ (k ≡ fd)
updated_added f fd k e = by_test (k == fd) refl e
  where
    by_test :
        (b : Bool) → (k == fd) ≡ b → (if b then true else f k) ≡ true → (f k ≡ true) ⊎ (k ≡ fd)
    by_test true q p = inr (ground (arith, q))
    by_test false q p = inl p

events_of_lem : (l : ℕ → Bool) (a c b : Bool) → l 3 ≡ c → l 7 ≡ b → Reported l 3 (events_of c a b)
unfolding is_gone
events_of_lem l a false b e q = tt
events_of_lem l a true false e q = (e, λ p. refl, tt, tt)
events_of_lem l a true true e q = (q, λ p. absurd (omega (arith, p)), tt, tt)

accept_fresh :
    (b : Bool) (w : World) (f : Files) (fd : ℕ)
    → f.0 7 ≡ b
    → (accept_one b w f).2 ≡ some fd
    → (f.0 fd ≡ false) × ((accept_one b w f).1.0 fd ≡ true)
accept_fresh true w f fd q e = absurd cc
accept_fresh false w f fd q e =
    let p : fd ≡ 7 = ap (λ (o : Option ℕ). elim o [ none ↦ 7 | some n ↦ n ]) (sym e) in
    (rw p q, rw p (updated_same f.0 7 true))

accept_open :
    (b : Bool) (w : World) (f : Files) (k : ℕ) → f.0 k ≡ true → (accept_one b w f).1.0 k ≡ true
accept_open true w f k e = e
accept_open false w f k e = updated_kept f.0 7 k e

accept_watched :
    (b : Bool) (w : World) (f : Files) (k : ℕ) → (accept_one b w f).1.1 k ≡ true → f.1 k ≡ true
accept_watched true w f k e = e
accept_watched false w f k e = e

pub kernel-IsKernel : IsKernel kernel (λ f. f.0) (λ f. f.1) 3
kernel-IsKernel = record {
  accept_fresh = λ w f fd e. accept_fresh (f.0 7) w f fd refl e;
  accept_open = λ w f k e. accept_open (f.0 7) w f k e;
  accept_watched = λ w f k e. accept_watched (f.0 7) w f k e;
  close_open = λ w f fd k n e. updated_other f.0 fd k false n ∙ e;
  close_watched = λ w f fd k e. updated_cleared f.1 fd k e;
  flags_open = λ f fd n k. refl;
  flags_watched = λ f fd n k. refl;
  create_open = λ f k e. e;
  create_watched = λ f k. refl;
  add_open = λ f fd n k. refl;
  add_watched = λ f fd n k e. updated_added f.1 fd k e;
  del_open = λ f fd k. refl;
  del_watched = λ f fd k e. updated_cleared f.1 fd k e;
  wait_reported = λ w f. events_of_lem f.1 w.0 (f.1 3) (f.1 7) refl refl;
  reserve_length = λ w n. length-replicate {A = ℕ} n 0;
  reserve_bytes = λ w n. zeros-IsByte n;
}

read_message_ok :
    (w : World) (n : ℕ) → ReadOk (to_come w) (to_come (read_message w n).0) n (read_message w n).1
read_message_ok (false, b) n = omega arith
read_message_ok (true, b) n = by_room (leb (length message) n) refl
  where
    by_room :
        (r : Bool)
        → leb (length message) n ≡ r
        → ReadOk (to_come (true, b)) (to_come (arrived r b).0) n (arrived r b).1
    by_room true e = (ground (arith, e), message-IsByte, omega arith, λ e'. omega arith)
    by_room false e = omega arith

write_once_ok :
    (w : World) (bytes : Bytes)
    → WriteOk (to_come w) (to_come (write_once w bytes).0) (length bytes) (write_once w bytes).1
write_once_ok (a, false) bytes = omega arith
write_once_ok (a, true) bytes = (omega arith, omega arith)

pub line-IsOs : (fd : ℕ) → IsOs (line fd) to_come
line-IsOs fd = record { read_ok = read_message_ok; write_ok = write_once_ok }

pub enough : (w : World) → 3 + to_come w + 4100 < 4110
enough (true, true) = omega arith
enough (true, false) = omega arith
enough (false, true) = omega arith
enough (false, false) = omega arith
