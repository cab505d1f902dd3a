-- ===== src/Client/Request.antt =====
-- client/client.cxx, `Client::sendRequest`: a command packed into the buffer that is sent.
pub mod Sent
use coxx.Base.{
  ℕ, zero, suc, ◌+◌, ◌%◌, Option, none, some, List, [], ◌∷◌, ◌++◌, ltb, if◌then◌else◌, length, take,
  replicate,
}
use coxx.Base.Bytes.{Bytes, le32, u32_mod, add32, add64, slice, blit}
use coxx.Parse.{◌>>=◌, max_message_size}

-- `messageLength += 4 + s.size()`, over the words that are left.
unfoldable pub add_lengths : ℕ → List Bytes → ℕ
add_lengths len [] = len
add_lengths len (s ∷ rest) = add_lengths (add32 len (4 + length s)) rest

-- The loop that copies the words; `none` is a write outside the buffer.
unfoldable pub copy_words : Bytes → ℕ → List Bytes → Option Bytes
copy_words buffer current [] = some buffer
copy_words buffer current (s ∷ rest) = do
  sized ← blit buffer current (le32 (length s % u32_mod))
  filled ← blit sized (add64 current 4) s
  copy_words filled (add64 current (4 + length s)) rest

-- `refused`: -1, nothing is sent. `sent bytes`: what `writeAll` is handed, cut to the size that it
-- is told. `overrun`: a write outside the buffer.
pub data Packed : Type 0 where
  refused overrun : Packed
  sent : Bytes → Packed

abbrev pub packed : Option Bytes → ℕ → Packed
packed none n = overrun
packed (some buffer) n = sent (take n buffer)

-- `std::vector<char>(n)`
unfoldable pub blank : ℕ → Bytes
blank n = replicate n 0

-- `stack` is what lies in memory behind the local variable `n`: the code copies `messageLength`
-- bytes from the address of `n`, which has four.
unfoldable pub pack_buffer : Bytes → List Bytes → ℕ → Option Bytes
pack_buffer stack commands len = do
  headed ← blit (blank (4 + max_message_size)) 0 (le32 len)
  source ← slice (le32 (length commands % u32_mod) ++ stack) 0 len
  counted ← blit headed 4 source
  copy_words counted 8 commands

unfoldable pub send_request : Bytes → List Bytes → Packed
send_request stack commands =
    let len = add_lengths 4 commands in
    if ltb max_message_size len
    then refused
    else packed (pack_buffer stack commands len) (add32 4 len)
