-- ===== src/Server.antt =====
-- server/server.hxx and server/server.cxx: the event loop on a table of connections, with the
-- destructor of common/conn.cxx. The kernel is a parameter: what `read` and `write` act on is its
-- `World`, and the open descriptors with the interest list of the one epoll instance are its `Files`.
-- The lines that the code prints are left out.
pub mod Slots
pub mod Files
pub mod Served
pub mod Turn
pub mod Admit
pub mod Events
pub mod Loop
pub mod Start
use Prim.Native.Nat.{bit_or}
use coxx.Base.{
  ℕ, zero, suc, ◌+◌, ◌-◌, Bool, true, false, not, Option, none, some, List, [], ◌∷◌, ◌++◌, leb,
  ◌==◌, if◌then◌else◌, length, get_elem?, set, replicate, bit_and, ◌⊎◌, inl, inr,
}
use coxx.Base.Bytes.{Bytes}
use coxx.Base.Run.{Run, ok, fault, need, ◌>>=◌}
use coxx.Parse.{max_message_size}
use coxx.Conn.{Os, ConnectionState, req, res, end, Connection, new_connection, Machine, io}

-- `epoll_event`: the descriptor that it was registered for, and the flags.
pub record Event : Type 0 where
  pub fd : ℕ
  pub events : ℕ

-- The system calls of the loop; `accept` is none where it is negative, and no event comes from an
-- `epoll_wait` that fails. `reserve` is the memory of a new buffer.
pub record Kernel (World Files : Type 0) : Type 0 where
  pub accept : World → Files → World × Files × Option ℕ
  pub close : World → Files → ℕ → World × Files
  pub get_flags : Files → ℕ → ℕ
  pub set_flags : Files → ℕ → ℕ → Files
  pub epoll_create : Files → Files
  pub epoll_add : Files → ℕ → ℕ → Files
  pub epoll_del : Files → ℕ → Files
  pub epoll_wait : World → Files → ℕ → World × List Event
  pub reserve : World → ℕ → World × Bytes

-- The flags of sys/epoll.h and of fcntl.h.
abbrev pub epoll_in : ℕ
epoll_in = 1

abbrev pub epoll_out : ℕ
epoll_out = 4

abbrev pub epoll_hup : ℕ
epoll_hup = 16

abbrev pub epoll_rdhup : ℕ
epoll_rdhup = 8192

abbrev pub epoll_et : ℕ
epoll_et = 2147483648

abbrev pub o_nonblock : ℕ
o_nonblock = 2048

abbrev pub max_events : ℕ
max_events = 32

-- What a `unique_ptr<Connection>` that is not null points to: the connection with its `_fd`.
pub record Held : Type 0 where
  pub fd : ℕ
  pub conn : Connection

-- `connectionByFileDescriptor`, with the data of the commands and the rest of the world.
pub record Server (World Files Store : Type 0) : Type 0 where
  pub table : List (Option Held)
  pub store : Store
  pub world : World
  pub files : Files

-- `events[i].events & (EPOLLIN | EPOLLOUT)`
unfoldable pub is_ready : Event → Bool
is_ready e = not (bit_and e.events (bit_or epoll_in epoll_out) == 0)

-- `events[i].events & (EPOLLRDHUP | EPOLLHUP)`
unfoldable pub is_gone : Event → Bool
is_gone e = not (bit_and e.events (bit_or epoll_rdhup epoll_hup) == 0)

abbrev pub is_end : ConnectionState → Bool
is_end req = false
is_end res = false
is_end end = true

-- `resize(connectionFd + 1)` of a table that is too short.
unfoldable pub grown : List (Option Held) → ℕ → List (Option Held)
grown table fd =
    if leb (length table) fd then table ++ replicate (fd + 1 - length table) none else table

module _ {World Files : Type 0} (kernel : Kernel World Files) where
  unfoldable pub make_non_blocking : Files → ℕ → Files
  make_non_blocking files fd =
      kernel.set_flags files fd (bit_or (kernel.get_flags files fd) o_nonblock)

  unfoldable pub register_epoll_event : Files → ℕ → ℕ → Files
  register_epoll_event files fd events = kernel.epoll_add files fd events

  module _ {Store : Type 0} where
    -- `close`
    abbrev pub closed : Server World Files Store → ℕ → Server World Files Store
    closed s fd = record s {
      world = (kernel.close s.world s.files fd).0;
      files = (kernel.close s.world s.files fd).1;
    }

    -- `~Connection` of the connection that a pointer owned.
    abbrev pub destroyed : Server World Files Store → Option Held → Server World Files Store
    destroyed s none = s
    destroyed s (some h) = closed s h.fd

    -- `connectionByFileDescriptor[fd] = ...`, and `reset` where the pointer is null.
    unfoldable pub assign :
        Server World Files Store → ℕ → Option Held → Run (Server World Files Store)
    assign s fd held = do
      old ← need (get_elem? s.table fd)
      ok (destroyed (record s { table = set s.table fd held }) old)

    -- `EPOLL_CTL_DEL`
    abbrev pub removed : Server World Files Store → ℕ → Server World Files Store
    removed s fd = record s { files = kernel.epoll_del s.files fd }

    -- What follows `accept`: the descriptor is made ready, and the table gets a connection for it.
    unfoldable pub admit : Server World Files Store → ℕ → Run (Server World Files Store)
    admit s fd =
        let nonblocking = make_non_blocking s.files fd in
        let files =
          register_epoll_event nonblocking fd
            (bit_or (bit_or (bit_or epoll_in epoll_et) epoll_rdhup) epoll_hup) in
        let (w, read_memory) = kernel.reserve s.world (4 + max_message_size) in
        let (w', write_memory) = kernel.reserve w (4 + max_message_size) in
        assign (record s { table = grown s.table fd; world = w'; files = files }) fd
          (some (record { fd = fd; conn = new_connection read_memory write_memory }))

    -- The end of an event's turn: the peer that hung up.
    unfoldable pub hang_up : Server World Files Store → Event → Run (Server World Files Store)
    hang_up s e = if is_gone e then assign (closed (removed s e.fd) e.fd) e.fd none else ok s

    -- An event of the listening socket, with what `accept` returned.
    unfoldable pub greet :
        Server World Files Store → Event → World × Files × Option ℕ → Run (Server World Files Store)
    greet s e (w, files, none) = ok (record s { world = w; files = files })
    greet s e (w, files, some fd) =
        admit (record s { world = w; files = files }) fd >>= λ s'. hang_up s' e

    -- A connection that has ended leaves the table.
    unfoldable pub retire : Server World Files Store → Held → Run (Server World Files Store)
    retire s h = if is_end h.conn.state then assign (removed s h.fd) h.fd none else ok s

module _ {World Files Store : Type 0} (kernel : Kernel World Files) (os : ℕ → Os World)
    (run : Store → List Bytes → Store × Bytes) where
  -- `conn->io()` through the pointer at an index, and what follows it.
  unfoldable pub talk :
      ℕ → Server World Files Store → ℕ → Option Held → Run (Server World Files Store)
  talk fuel s i none = fault
  talk fuel s i (some h) = do
    m ← io (os h.fd) run fuel (record { conn = h.conn; store = s.store; world = s.world })
    let held : Held = record { fd = h.fd; conn = m.conn }
    retire kernel (record s { table = set s.table i (some held); store = m.store; world = m.world })
        held

  -- An event of a connection.
  unfoldable pub serve : ℕ → Server World Files Store → Event → Run (Server World Files Store)
  serve fuel s e = do
    slot ← need (get_elem? s.table e.fd)
    if is_ready e then talk fuel s e.fd slot else ok s

  module _ (listener : ℕ) where
    unfoldable pub handle_event :
        ℕ → Server World Files Store → Event → Run (Server World Files Store)
    handle_event fuel s e =
        if e.fd == listener
        then greet kernel s e (kernel.accept s.world s.files)
        else serve fuel s e >>= λ s'. hang_up kernel s' e

    -- `for (auto i = 0; i < numFileDescriptors; ++i)`
    unfoldable pub handle_events :
        ℕ → Server World Files Store → List Event → Run (Server World Files Store)
    handle_events fuel s [] = ok s
    handle_events fuel s (e ∷ es) = handle_event fuel s e >>= λ s'. handle_events fuel s' es

    -- One round of `while (true)`, and so many of them.
    unfoldable pub round : ℕ → Server World Files Store → Run (Server World Files Store)
    round fuel s =
        let (w, es) = kernel.epoll_wait s.world s.files max_events in
        handle_events fuel (record s { world = w }) es

    unfoldable pub rounds : ℕ → ℕ → Server World Files Store → Run (Server World Files Store)
    rounds fuel zero s = ok s
    rounds fuel (suc n) s = round fuel s >>= λ s'. rounds fuel n s'

    -- The state that the loop starts in, on a listening socket.
    unfoldable pub opened : World → Files → Store → Server World Files Store
    opened w files store = record {
      table = replicate max_events none;
      store = store;
      world = w;
      files =
          register_epoll_event kernel (kernel.epoll_create files) listener
            (bit_or (bit_or epoll_in epoll_out) epoll_et);
    }
