-- ===== src/Base/Bytes.antt =====
-- Memory as a list of bytes, read and written by `memcpy` of little-endian words.
-- `none` is a read or a write outside the memory, which C++ leaves undefined.
use coxx.Base.{
  ℕ, ◌+◌, ◌*◌, ◌/◌, ◌%◌, ◌^◌, ◌≤◌, ◌<◌, ◌≡◌, refl, ap, Option, none, some, List, [], ◌∷◌, ◌++◌,
  arith, leb, if◌then◌else◌, All-take, All-drop, All-append, length, take, drop, All, length-append,
  length-drop, take-append, drop-append, ◌∙◌, sym, drop-drop, take-append-drop, length-take,
}

abbrev pub Bytes : Type 0
Bytes = List ℕ

abbrev pub IsByte : ℕ → Type 0
IsByte b = b < 256

abbrev pub u32_mod : ℕ
u32_mod = 2 ^ 32

abbrev pub u64_mod : ℕ
u64_mod = 2 ^ 64

-- Sums of the machine's `uint32_t` and of its 64-bit `size_t`.
abbrev pub add32 : ℕ → ℕ → ℕ
add32 a b = (a + b) % u32_mod

abbrev pub add64 : ℕ → ℕ → ℕ
add64 a b = (a + b) % u64_mod

-- The four bytes of a `uint32_t` in memory.
abbrev pub le32 : ℕ → Bytes
le32 n = n % 256 ∷ n / 256 % 256 ∷ n / 65536 % 256 ∷ n / 16777216 % 256 ∷ []

abbrev pub le64 : ℕ → Bytes
le64 n = le32 (n % u32_mod) ++ le32 (n / u32_mod)

abbrev pub front32 : Bytes → Option ℕ
front32 (a ∷ b ∷ c ∷ d ∷ rest) = some (a + b * 256 + c * 65536 + d * 16777216)
front32 _ = none

-- `memcpy(&x, data + pos, 4)` and `memcpy(&x, data + pos, 8)`
unfoldable pub load32 : Bytes → ℕ → Option ℕ
load32 mem pos = front32 (drop pos mem)

-- The bytes from `pos` on, `n` of them.
unfoldable pub slice : Bytes → ℕ → ℕ → Option Bytes
slice mem pos n = if leb (pos + n) (length mem) then some (take n (drop pos mem)) else none

-- `memcpy(mem + pos, bytes, bytes.size())`
unfoldable pub blit : Bytes → ℕ → Bytes → Option Bytes
blit mem pos bytes =
    if leb (pos + length bytes) (length mem)
    then some (take pos mem ++ (bytes ++ drop (pos + length bytes) mem))
    else none

pub front32-le32 : (n : ℕ) (rest : Bytes) → n < u32_mod → front32 (le32 n ++ rest) ≡ some n
front32-le32 n rest h = ap some (omega arith)

front32-some : (d : Bytes) → 4 ≤ length d → (n : ℕ) × (front32 d ≡ some n)
front32-some [] h = absurd (omega arith)
front32-some (a ∷ []) h = absurd (omega arith)
front32-some (a ∷ b ∷ []) h = absurd (omega arith)
front32-some (a ∷ b ∷ c ∷ []) h = absurd (omega arith)
front32-some (a ∷ b ∷ c ∷ e ∷ d) h = (_, refl)

-- What `front32` returns stands at the front, as the same four bytes.
front32-inverse :
    (d : Bytes) (n : ℕ)
    → All IsByte d
    → front32 d ≡ some n
    → (n < u32_mod) × (d ≡ le32 n ++ drop 4 d)
front32-inverse [] n a e = ground arith
front32-inverse (x ∷ []) n a e = ground arith
front32-inverse (x ∷ y ∷ []) n a e = ground arith
front32-inverse (x ∷ y ∷ z ∷ []) n a e = ground arith
front32-inverse (x ∷ y ∷ z ∷ w ∷ d) n a e = ground arith

-- A word stands where the memory, from `pos` on, begins with its bytes.
pub load32-le32 :
    (mem : Bytes) (pos n : ℕ) (rest : Bytes)
    → n < u32_mod
    → drop pos mem ≡ le32 n ++ rest
    → load32 mem pos ≡ some n
unfolding load32
load32-le32 mem pos n rest h e = rw e (front32-le32 n rest h)

pub load32_total :
    (mem : Bytes) (pos : ℕ) → pos + 4 ≤ length mem → (n : ℕ) × (load32 mem pos ≡ some n)
unfolding load32
load32_total mem pos h = front32-some (drop pos mem) (omega (arith, length-drop pos mem))

pub load32_inverse :
    (mem : Bytes) (pos n : ℕ)
    → All IsByte (drop pos mem)
    → load32 mem pos ≡ some n
    → (n < u32_mod) × (drop pos mem ≡ le32 n ++ drop 4 (drop pos mem))
unfolding load32
load32_inverse mem pos n a e = front32-inverse (drop pos mem) n a e

pub slice_lem :
    (mem : Bytes) (pos n : ℕ)
    → pos + n ≤ length mem
    → slice mem pos n ≡ some (take n (drop pos mem))
unfolding slice
slice_lem mem pos n h = ground arith

pub slice-some :
    (mem : Bytes) (pos : ℕ) (word rest : Bytes)
    → pos ≤ length mem
    → drop pos mem ≡ word ++ rest
    → slice mem pos (length word) ≡ some word
unfolding slice
slice-some mem pos word rest h e =
    let fits : pos + length word ≤ length mem =
      omega (arith, ap length e, length-drop pos mem, length-append word rest) in
    slice_lem mem pos (length word) fits ∙ ap some (rw e (take-append _ word rest refl))

unfoldable pub load64 : Bytes → ℕ → Option ℕ
unfolding load32
load64 mem pos = elim (load32 mem pos) [
  | none ↦ none
  | some low ↦ elim (load32 mem (pos + 4)) [ none ↦ none | some high ↦ some (low + high * u32_mod) ]
]

pub load64-le64 :
    (mem : Bytes) (pos n : ℕ) (rest : Bytes)
    → n < u64_mod
    → drop pos mem ≡ le64 n ++ rest
    → load64 mem pos ≡ some n
unfolding load64
load64-le64 mem pos n rest h e =
    let low = load32-le32 mem pos (n % u32_mod) (le32 (n / u32_mod) ++ rest) (omega arith) e in
    let high =
      load32-le32 mem (pos + 4) (n / u32_mod) rest (omega arith)
        (sym (drop-drop 4 pos mem) ∙ ap (drop 4) e) in
    ground (arith, low, high)

-- Overwriting keeps what stands before and behind.
pub blit-append :
    (front old new rest : Bytes)
    → length old ≡ length new
    → blit (front ++ (old ++ rest)) (length front) new ≡ some (front ++ (new ++ rest))
unfolding blit
blit-append front old new rest h =
    let whole = front ++ (old ++ rest) in
    let fits : length front + length new ≤ length whole =
      omega (arith, length-append front (old ++ rest), length-append old rest) in
    let head : take (length front) whole ≡ front =
      take-append (length front) front (old ++ rest) refl in
    let back : drop (length front + length new) whole ≡ rest =
      sym (drop-drop (length new) (length front) whole)
      ∙ ap (drop (length new)) (drop-append (length front) front (old ++ rest) refl)
      ∙ drop-append (length new) old rest (sym h) in
    ground (arith, head, back)

pub slice-bounds :
    (mem : Bytes) (pos n : ℕ) {word : Bytes} → slice mem pos n ≡ some word → pos + n ≤ length mem
unfolding slice
slice-bounds mem pos n e = ground arith

-- Writing behind `front`, into memory that is long enough.
pub blit-over :
    (front rest new : Bytes)
    → length new ≤ length rest
    → blit (front ++ rest) (length front) new ≡ some (front ++ (new ++ drop (length new) rest))
blit-over front rest new h =
    ap (λ (x : Bytes). blit (front ++ x) (length front) new)
      (sym (take-append-drop (length new) rest))
    ∙ blit-append front (take (length new) rest) new (drop (length new) rest)
        (length-take (length new) rest h)

pub slice-IsByte :
    (mem : Bytes) (pos n : ℕ)
    → pos + n ≤ length mem
    → All IsByte mem
    → (bytes : Bytes) × (slice mem pos n ≡ some bytes) × (length bytes ≡ n) × All IsByte bytes
slice-IsByte mem pos n h g = (
  take n (drop pos mem),
  slice_lem mem pos n h,
  length-take n (drop pos mem) (omega (arith, length-drop pos mem)),
  All-take IsByte n (drop pos mem) (All-drop IsByte pos mem g),
)

-- A write inside the memory changes neither its length nor that it consists of bytes.
pub length-blit :
    (mem : Bytes) (pos : ℕ) (bytes : Bytes)
    → pos + length bytes ≤ length mem
    → (new : Bytes) × (blit mem pos bytes ≡ some new)
      × (length new ≡ length mem)
      × (All IsByte mem → All IsByte bytes → All IsByte new)
unfolding blit
length-blit mem pos bytes h =
    let back = drop (pos + length bytes) mem in
    (
      take pos mem ++ (bytes ++ back),
      ground arith,
      omega (
        arith,
        length-append (take pos mem) (bytes ++ back),
        length-append bytes back,
        length-take pos mem (omega arith),
        length-drop (pos + length bytes) mem,
      ),
      λ g g'.
          All-append IsByte (take pos mem) (bytes ++ back) (All-take IsByte pos mem g)
            (All-append IsByte bytes back g' (All-drop IsByte (pos + length bytes) mem g)),
    )
