-- ===== src/Server/Start.antt =====
-- `Server::run`: the listening socket is prepared, and the loop runs.
use Prim.Native.Nat.{bit_or}
use coxx.Base.{ℕ, ◌+◌, ◌<◌, ◌≡◌, refl, ◌∙◌, Bool, true, Option, none, some, List, ◌⊎◌, inl, inr}
use coxx.Base.Bytes.{Bytes}
use coxx.Base.Run.{Run, ok, ◌>>=◌, Returns}
use coxx.Parse.{max_message_size}
use coxx.Conn.{Os}
use coxx.Conn.Calls.{IsOs}
use coxx.Conn.Answer.{IsService}
use coxx.Socket.Setup.{
  Thrown, no_listen, Network, set_options, configure_connection, thrown_unless, and_then,
  server_type,
}
use coxx.Server.{Kernel, Server, make_non_blocking, o_nonblock, rounds, opened}
use coxx.Server.Files.{IsKernel}
use coxx.Server.Served.{IsServed}
use coxx.Server.Loop.{rounds-opened}

module _ {World Files Store : Type 0} (network : Network World) (kernel : Kernel World Files)
    (os : ℕ → Os World) (run : Store → List Bytes → Store × Bytes) (listener : ℕ) where
  -- The statements of `run` that can throw; `SERVER_NETADDR` is 0.
  unfoldable pub listening : ℕ → World → World × Option Thrown
  listening port w =
      and_then
        (and_then (set_options network listener w)
          (configure_connection network listener port 0 server_type))
        (λ w'. thrown_unless no_listen (network.listen w' listener))

  -- So many rounds of the loop, on a socket that listens.
  unfoldable pub looped :
      ℕ → ℕ → Files → Store → World × Option Thrown → Run (Thrown ⊎ Server World Files Store)
  looped fuel n files store (w, some t) = ok (inl t)
  looped fuel n files store (w, none) =
      rounds kernel os run listener fuel n
        (opened kernel os run listener w (make_non_blocking kernel files listener) store)
      >>= λ s. ok (inr s)

  unfoldable pub run_server :
      ℕ → ℕ → Files → Store → ℕ → World → Run (Thrown ⊎ Server World Files Store)
  run_server fuel n files store port w = looped fuel n files store (listening port w)

module _ {World Files Store : Type 0} (network : Network World) (kernel : Kernel World Files)
    (os : ℕ → Os World) (run : Store → List Bytes → Store × Bytes)
    (is_open watched : Files → ℕ → Bool) (listener : ℕ)
    (law : IsKernel kernel is_open watched listener) (patience : World → ℕ)
    (os_law : (fd : ℕ) → IsOs (os fd) patience) (service : IsService run) (fuel : ℕ)
    (enough : (w : World) → 3 + patience w + (4 + max_message_size) < fuel) where
  -- An exception from before the loop, or the loop's state in order.
  pub Serving : Thrown ⊎ Server World Files Store → Type 0
  Serving (inl t) = Unit
  Serving (inr s) = IsServed is_open watched listener s

  -- `Server::run` on an open socket throws before its loop, or it serves, however many rounds of the
  -- loop are looked at: no null pointer or index outside the table is used and no assertion fails,
  -- every connection of the table is in order, alive, and at the index of its own descriptor, which
  -- is open, and every watched descriptor but the listening socket has a connection. The kernel keeps
  -- its laws, the fuel is more than every world's patience and a buffer's size, and a command's output
  -- is shorter than 2^64 - 4 bytes.
  pub run_server-Serving :
      (n : ℕ) (files : Files) (store : Store) (port : ℕ) (w : World)
      → is_open files listener ≡ true
      → Returns (run_server network kernel os run listener fuel n files store port w) Serving
  unfolding run_server looped make_non_blocking Serving
  run_server-Serving n files store port w o =
      by_outcome (listening network kernel os run listener port w)
    where
      by_outcome :
          (r : World × Option Thrown)
          → Returns (looped network kernel os run listener fuel n files store r) Serving
      by_outcome (w', some t) = (inl t, refl, tt)
      by_outcome (w', none) =
          let flags = bit_or (kernel.get_flags files listener) o_nonblock in
          let (s, run_eq, g) =
            rounds-opened kernel os run is_open watched listener law patience os_law service fuel
              enough n w' (kernel.set_flags files listener flags) store
              (law.flags_open files listener flags listener ∙ o) in
          (inr s, rw run_eq refl, g)
