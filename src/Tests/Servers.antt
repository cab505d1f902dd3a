-- ===== src/Tests/Servers.antt =====
-- server/server.cxx
use coxx.Base.{ℕ, ◌≡◌, refl, Bool, true, false, Option, some, none, List, ◌==◌, inl, ltb, leb}
use coxx.Base.Bytes.{Bytes}
use coxx.Base.Run.{Run, ok, Returns}
use coxx.Base.Bytes.{load32, slice, blit}
use coxx.Parse.{parse, parse_words}
use coxx.Conn.{
  fit, pack, write_retry, read_retry, flushed, written, try_flush_buffer, state_response, respond,
  one_message, try_one_request, try_requests, received, try_fill_buffer, state_request, io,
}
use coxx.Tests.Conns.{count_commands, count_commands-IsService}
use coxx.Server.{
  Event, Held, Server, is_ready, is_gone, grown, make_non_blocking, register_epoll_event, assign,
  admit, hang_up, greet, retire, talk, serve, handle_event, handle_events, round, rounds, opened,
}
use coxx.Conn.Answer.{IsService}
use coxx.Command.{Database}
use coxx.Exchange.{request, request-IsService}
use coxx.Tests.Commands.{any_score, seven, five, empty}
use coxx.Server.Slots.{slot}
use coxx.Server.Events.{Handled, handle_event-Handled}
use coxx.Server.Loop.{opened-IsServed}
use coxx.Server.Start.{run_server, Serving, run_server-Serving}
use coxx.Socket.Setup.{Network}
use coxx.Tests.Kernels.{Files, World, to_come, line, kernel, kernel-IsKernel, line-IsOs, enough}

-- The standard streams and the listening socket are open.
abbrev files : Files
files = (λ j. leb j 3, λ j. false)

abbrev network : Network World
network = record {
  socket = λ w. (w, some 3);
  set_reuse_address = λ w fd. (w, true);
  bind = λ w fd a. (w, true);
  connect = λ w fd a. (w, false);
  listen = λ w fd. (w, true);
  close = λ w fd. w;
}

-- The commands of the server, on its data.
abbrev commands : Database → List Bytes → Database × Bytes
commands = request seven five any_score ◌==◌ ltb

commands-IsService : IsService commands
commands-IsService = request-IsService seven five any_score ◌==◌ ltb

run_server-Serving_example :
    Returns (run_server network kernel line commands 3 4110 3 files empty 1234 (true, true)) (
      Serving network kernel line commands
        (λ f. f.0)
        (λ f. f.1)
        3
        kernel-IsKernel
        to_come
        line-IsOs
        commands-IsService
        4110
        enough)
run_server-Serving_example =
    run_server-Serving network kernel line commands (λ f. f.0) (λ f. f.1) 3 kernel-IsKernel to_come
      line-IsOs commands-IsService 4110 enough 3 files empty 1234 (true, true) refl

-- Before the first client.
abbrev first : Server World Files ℕ
first = opened kernel line count_commands 3 (true, true) files 0

abbrev knock : Event
knock = record { fd = 3; events = 1 }

knock_calm : is_gone knock ≡ false
unfolding is_gone
knock_calm = refl

handle_event-Handled_example :
    Returns
      (handle_event kernel line count_commands 3 4110 first knock)
      (Handled kernel (λ f. f.0) (λ f. f.1) 3 kernel-IsKernel knock first)
handle_event-Handled_example =
    handle_event-Handled kernel line count_commands (λ f. f.0) (λ f. f.1) 3 kernel-IsKernel to_come
      line-IsOs count_commands-IsService 4110 enough first knock
      (opened-IsServed kernel line count_commands (λ f. f.0) (λ f. f.1) 3 kernel-IsKernel to_come
        line-IsOs count_commands-IsService 4110 enough (true, true) files 0 refl)
      (inl refl) (λ e. knock_calm)

-- The commands that have run, and whether descriptor 7 has a connection and is open and watched.
abbrev is_some : Option Held → Bool
is_some none = false
is_some (some h) = true

abbrev summary : Run (Server World Files ℕ) → Option (ℕ × Bool × Bool × Bool)
summary (ok s) = some (s.store, is_some (slot s.table 7), s.files.0 7, s.files.1 7)
summary _ = none

abbrev after : ℕ → Option (ℕ × Bool × Bool × Bool)
after n = summary (
    rounds kernel line count_commands 3 4110 n
      (opened kernel line count_commands 3 (true, true) files 0))

-- A client connects, is served, and hangs up.
connected : after 1 ≡ some (0, true, true, true)
unfolding rounds round handle_events handle_event greet admit assign hang_up serve talk retire
    is_ready is_gone grown make_non_blocking register_epoll_event opened
connected = refl

answered : after 2 ≡ some (1, true, true, true)
unfolding rounds round handle_events handle_event greet admit assign hang_up serve talk retire
    is_ready is_gone grown make_non_blocking register_epoll_event opened io state_request
    try_fill_buffer received try_requests try_one_request one_message respond state_response
    try_flush_buffer written flushed read_retry write_retry pack fit parse parse_words load32 slice
    blit
answered = refl

gone : after 3 ≡ some (1, false, false, false)
unfolding rounds round handle_events handle_event greet admit assign hang_up serve talk retire
    is_ready is_gone grown make_non_blocking register_epoll_event opened io state_request
    try_fill_buffer received try_requests try_one_request one_message respond state_response
    try_flush_buffer written flushed read_retry write_retry pack fit parse parse_words load32 slice
    blit
gone = refl
