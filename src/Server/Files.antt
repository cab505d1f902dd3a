-- ===== src/Server/Files.antt =====
-- What the event loop relies on of the kernel: the descriptors that are open, and those that are
-- watched, which stand in the interest list of the epoll instance.
use coxx.Base.{ℕ, ◌≡◌, ◌≢◌, Bool, true, false, some, List, [], ◌∷◌, ◌⊎◌, length, All}
use coxx.Base.Bytes.{IsByte}
use coxx.Server.{Event, Kernel, is_gone, max_events}

-- The events of one `epoll_wait`: of watched descriptors, one for each, and the listening socket is
-- not hung up.
abbrev pub Reported : (ℕ → Bool) → ℕ → List Event → Type 0
Reported watched listener [] = Unit
Reported watched listener (e ∷ es) =
    (watched e.fd ≡ true)
    × (e.fd ≡ listener → is_gone e ≡ false)
    × All (λ e'. e'.fd ≢ e.fd) es
    × Reported watched listener es

pub record IsKernel {World Files : Type 0} (kernel : Kernel World Files)
    (is_open watched : Files → ℕ → Bool) (listener : ℕ) : Type 0 where
  -- `accept` returns a descriptor that was not in use.
  pub accept_fresh :
      (w : World) (f : Files) (fd : ℕ)
      → (kernel.accept w f).2 ≡ some fd
      → (is_open f fd ≡ false) × (is_open (kernel.accept w f).1 fd ≡ true)
  pub accept_open :
      (w : World) (f : Files) (k : ℕ) → is_open f k ≡ true → is_open (kernel.accept w f).1 k ≡ true
  pub accept_watched :
      (w : World) (f : Files) (k : ℕ) → watched (kernel.accept w f).1 k ≡ true → watched f k ≡ true
  -- `close` leaves the other descriptors open, and takes the one that it closes from the list.
  pub close_open :
      (w : World) (f : Files) (fd k : ℕ)
      → k ≢ fd
      → is_open f k ≡ true
      → is_open (kernel.close w f fd).1 k ≡ true
  pub close_watched :
      (w : World) (f : Files) (fd k : ℕ)
      → watched (kernel.close w f fd).1 k ≡ true
      → (watched f k ≡ true) × (k ≢ fd)
  pub flags_open : (f : Files) (fd n k : ℕ) → is_open (kernel.set_flags f fd n) k ≡ is_open f k
  pub flags_watched : (f : Files) (fd n k : ℕ) → watched (kernel.set_flags f fd n) k ≡ watched f k
  pub create_open :
      (f : Files) (k : ℕ) → is_open f k ≡ true → is_open (kernel.epoll_create f) k ≡ true
  pub create_watched : (f : Files) (k : ℕ) → watched (kernel.epoll_create f) k ≡ false
  -- The calls of `epoll_ctl` change the list by the descriptor that they name.
  pub add_open : (f : Files) (fd n k : ℕ) → is_open (kernel.epoll_add f fd n) k ≡ is_open f k
  pub add_watched :
      (f : Files) (fd n k : ℕ)
      → watched (kernel.epoll_add f fd n) k ≡ true
      → (watched f k ≡ true) ⊎ (k ≡ fd)
  pub del_open : (f : Files) (fd k : ℕ) → is_open (kernel.epoll_del f fd) k ≡ is_open f k
  pub del_watched :
      (f : Files) (fd k : ℕ)
      → watched (kernel.epoll_del f fd) k ≡ true
      → (watched f k ≡ true) × (k ≢ fd)
  pub wait_reported :
      (w : World) (f : Files) → Reported (watched f) listener (kernel.epoll_wait w f max_events).1
  pub reserve_length : (w : World) (n : ℕ) → length (kernel.reserve w n).1 ≡ n
  pub reserve_bytes : (w : World) (n : ℕ) → All IsByte (kernel.reserve w n).1
