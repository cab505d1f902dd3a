-- ===== src/Tests/Pipelines.antt =====
-- `tryFillBuffer` of common/conn.cxx, on requests that come cut into two reads.
use coxx.Base.{
  ℕ, ◌≡◌, refl, true, List, [], ◌∷◌, ◌++◌, arith, take, drop, All-append, All-take, All-drop,
}
use coxx.Base.Bytes.{Bytes, IsByte}
use coxx.Base.Run.{ok}
use coxx.Conn.{done, Machine, fit, received}
use coxx.Conn.Pipeline.{messages, replies, Served, received-Served}
use coxx.Tests.Conns.{
  connection, connection-IsBuffered, words_of_get, message, message-IsByte, count_commands,
  count_commands-IsService,
}
use coxx.Tests.Sockets.{one_by_one, same, one_by_one-IsSink}

-- Two bytes of the first request wait; the rest of it comes with a second one and the first byte of a
-- third.
abbrev half : Machine Bytes ℕ
half = record { conn = connection (take 2 message); store = 5; world = [] }

abbrev come : Bytes
come = drop 3 message ++ (message ++ 16 ∷ [])

abbrev both : List (List Bytes)
both = words_of_get ∷ words_of_get ∷ []

two_replies : replies count_commands 5 both ≡ (7, 1 ∷ 0 ∷ 0 ∷ 0 ∷ 0 ∷ 1 ∷ 0 ∷ 0 ∷ 0 ∷ 0 ∷ [])
unfolding replies fit
two_replies = refl

received-Served_example :
    (m' : Machine Bytes ℕ) × (received one_by_one count_commands 4110 half (done (0 ∷ come))
      ≡ ok (m', true))
    × Served one_by_one count_commands count_commands-IsService same one_by_one-IsSink
        (replies count_commands 5 both).0
        ([] ++ (replies count_commands 5 both).1)
        (16 ∷ [])
        m'
unfolding messages
received-Served_example =
    received-Served one_by_one count_commands count_commands-IsService same one_by_one-IsSink 4110
      half 0 come both (16 ∷ [])
      (connection-IsBuffered (take 2 message) (omega arith)
        (All-take IsByte 2 message message-IsByte))
      refl (omega arith)
      (All-append IsByte (drop 2 message) (message ++ 16 ∷ [])
        (All-drop IsByte 2 message message-IsByte)
        (All-append IsByte message (16 ∷ []) message-IsByte (omega arith, tt)))
      refl ((omega arith, omega arith), ((omega arith, omega arith), tt)) (omega arith)
      (omega arith)
