-- ===== src/Conn/Buffers.antt =====
-- The buffers of a connection: when they are in order, and how a reply is packed.
use coxx.Base.{ℕ, ◌+◌, ◌-◌, ◌%◌, ◌≤◌, ◌<◌, ◌≡◌, refl, ◌∙◌, arith, length, All}
use coxx.Base.Bytes.{Bytes, IsByte, le32, u32_mod, u64_mod, add32, slice-IsByte, length-blit}
use coxx.Base.Run.{Returns}
use coxx.Parse.{max_message_size}
use coxx.Serialize.{err}
use coxx.Conn.{ConnectionState, req, res, end, Connection, sub64, fit, pack}

-- What is left to write, by state: nothing for a request, something for a response.
abbrev pub Writing : ConnectionState → ℕ → ℕ → Type 0
Writing req sent size = (sent ≡ 0) × (size ≡ 0)
Writing res sent size = sent < size
Writing end sent size = Unit

-- Both buffers have their 4 + MAX_MESSAGE_SIZE bytes, and the sizes are within them.
pub record IsBuffered (c : Connection) : Type 0 where
  pub read_capacity : length c.read_buffer ≡ 4 + max_message_size
  pub read_bytes : All IsByte c.read_buffer
  pub write_capacity : length c.write_buffer ≡ 4 + max_message_size
  pub read_fits : c.read_buffer_size ≤ 4 + max_message_size
  pub write_fits : c.write_buffer_size ≤ 4 + max_message_size
  pub writing : Writing c.state c.write_buffer_sent c.write_buffer_size

-- No reply is longer than a message may be with its length.
pub length-fit :
    (output : Bytes) → 4 + length output < u64_mod → 4 + length (fit output) ≤ max_message_size
unfolding fit err
length-fit output h = ground arith

-- A packed reply takes the request out of the read buffer, and there is something to write.
pub record Packed (c : Connection) (message_length : ℕ) (output : Bytes) (c' : Connection)
    : Type 0 where
  pub buffered : IsBuffered c'
  pub response : c'.state ≡ res
  pub left : c'.read_buffer_size + (4 + message_length) ≡ c.read_buffer_size

pub pack-Packed :
    (c : Connection) (message_length : ℕ) (output : Bytes)
    → IsBuffered c
    → Writing req c.write_buffer_sent c.write_buffer_size
    → 4 + message_length ≤ c.read_buffer_size
    → 4 + length output ≤ max_message_size
    → Returns (pack c message_length output) (Packed c message_length output)
unfolding pack
pack-Packed c message_length output g idle whole small =
    let write_length = length output % u32_mod in
    let n : write_length ≡ length output = omega arith in
    let (headed, e₁, l₁, b₁) =
      length-blit c.write_buffer 0 (le32 write_length) (omega (arith, g.write_capacity)) in
    let (filled, e₂, l₂, b₂) = length-blit headed 4 output (omega (arith, g.write_capacity)) in
    let remaining = sub64 (sub64 c.read_buffer_size 4) message_length in
    let r : remaining ≡ c.read_buffer_size - 4 - message_length = omega (arith, g.read_fits) in
    let (rest, e₃, l₃, b₃) =
      slice-IsByte c.read_buffer (4 + message_length) remaining
        (omega (arith, g.read_fits, g.read_capacity)) g.read_bytes in
    let (moved, e₄, l₄, b₄) =
      length-blit c.read_buffer 0 rest (omega (arith, g.read_fits, g.read_capacity)) in
    (
      record c {
        state = res;
        write_buffer = filled;
        write_buffer_size = add32 4 write_length;
        read_buffer = moved;
        read_buffer_size = remaining;
      },
      rw (e₁, e₂, e₃, e₄) refl,
      record {
        buffered = record {
          read_capacity = l₄ ∙ g.read_capacity;
          read_bytes = b₄ g.read_bytes b₃;
          write_capacity = l₂ ∙ (l₁ ∙ g.write_capacity);
          read_fits = omega (arith, g.read_fits);
          write_fits = omega arith;
          writing = omega (arith, idle);
        };
        response = refl;
        left = omega (arith, g.read_fits);
      },
    )

-- Only what there is to write changes.
pub rewritten-IsBuffered :
    (c : Connection) (state : ConnectionState) (sent size : ℕ)
    → IsBuffered c
    → size ≤ 4 + max_message_size
    → Writing state sent size
    → IsBuffered (record c { state = state; write_buffer_sent = sent; write_buffer_size = size })
rewritten-IsBuffered c state sent size g fits writing = record {
  read_capacity = g.read_capacity;
  read_bytes = g.read_bytes;
  write_capacity = g.write_capacity;
  read_fits = g.read_fits;
  write_fits = fits;
  writing = writing;
}
