-- ===== src/Socket.antt =====
-- common/socket.hxx and common/socket.cxx: `readFull` and `writeAll`, over the same system calls as
-- the connection.
pub mod Stream
pub mod Sink
pub mod Setup
use coxx.Base.{
  ℕ, zero, suc, ◌+◌, ◌-◌, Bool, true, false, Option, none, some, List, [], ◌∷◌, ◌++◌, ltb, leb,
  if◌then◌else◌, length, take, drop, replicate,
}
use coxx.Base.Bytes.{Bytes}
use coxx.Base.Run.{Run, ok, out_of_fuel, check}
use coxx.Conn.{Call, interrupted, again, failed, done, Os}

module _ {World : Type 0} where
  -- What `readFull` does with the result of `read` into so much room: -1 without bytes, or the way on.
  unfoldable pub taken :
      (World → Bytes → Run (World × Option Bytes))
      → World × Call Bytes
      → ℕ
      → Run (World × Option Bytes)
  taken next (w, interrupted) room = ok (w, none)
  taken next (w, again) room = ok (w, none)
  taken next (w, failed) room = ok (w, none)
  taken next (w, done []) room = ok (w, none)
  taken next (w, done (b ∷ bs)) room = check (leb (suc (length bs)) room) (next w (b ∷ bs))

  -- What `writeAll` does with the result of `write`.
  unfoldable pub put : (World → ℕ → Run (World × Bool)) → World × Call ℕ → Run (World × Bool)
  put next (w, interrupted) = ok (w, false)
  put next (w, again) = ok (w, false)
  put next (w, failed) = ok (w, false)
  put next (w, done zero) = ok (w, false)
  put next (w, done (suc n)) = next w (suc n)

module _ {World : Type 0} (os : Os World) where
  -- The loop of `readFull`, with the bytes read so far; no bytes for the return value -1.
  unfoldable pub read_loop : ℕ → World → ℕ → Bytes → Run (World × Option Bytes)
  read_loop zero w n got = out_of_fuel
  read_loop (suc fuel) w n got =
      let rest =
        taken (λ w' bytes. read_loop fuel w' n (got ++ bytes)) (os.read w (n - length got))
          (n - length got) in
      if ltb (length got) n then rest else ok (w, some got)

  unfoldable pub read_full : World → ℕ → Run (World × Option Bytes)
  read_full w n = read_loop (suc n) w n []

  -- The loop of `writeAll`; false is the return value -1.
  unfoldable pub write_loop : ℕ → World → Bytes → ℕ → Run (World × Bool)
  write_loop zero w buffer wrote = out_of_fuel
  write_loop (suc fuel) w buffer wrote =
      let rest =
        put (λ w' n. write_loop fuel w' buffer (wrote + n)) (os.write w (drop wrote buffer)) in
      if ltb wrote (length buffer) then rest else ok (w, true)

  -- `buffer.resize(numberOfBytes)` comes first.
  unfoldable pub write_all : World → Bytes → ℕ → Run (World × Bool)
  write_all w buffer n = write_loop (suc n) w (take n (buffer ++ replicate n 0)) 0
