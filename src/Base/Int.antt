-- ===== src/Base/Int.antt =====
-- The signed integers over the native numbers. `diff a b` is `a - b`, and every operation and test
-- on such a difference is one on natural numbers.
use coxx.Base.{ℕ, zero, suc, ◌+◌, ◌-◌, ◌≡◌, refl, sym, ap, ◌∙◌, Bool, true, false, arith, ltb, ◌==◌}
use native.Mathlib.Decide.{dec_lt}

-- `pos n` is n and `negsuc n` is -(n + 1).
pub data ℤ : Type 0 where
  pos : ℕ → ℤ
  negsuc : ℕ → ℤ

unfoldable pub diff : ℕ → ℕ → ℤ
diff a zero = pos a
diff zero (suc b) = negsuc b
diff (suc a) (suc b) = diff a b

infixl 6 ◌+ℤ◌
unfoldable pub ◌+ℤ◌ : ℤ → ℤ → ℤ
pos a +ℤ pos b = pos (a + b)
pos a +ℤ negsuc b = diff a (suc b)
negsuc a +ℤ pos b = diff b (suc a)
negsuc a +ℤ negsuc b = negsuc (suc (a + b))

unfoldable pub neg : ℤ → ℤ
neg (pos a) = diff zero a
neg (negsuc a) = pos (suc a)

infixl 6 ◌-ℤ◌
abbrev pub ◌-ℤ◌ : ℤ → ℤ → ℤ
a -ℤ b = a +ℤ neg b

unfoldable pub ltz : ℤ → ℤ → Bool
ltz (pos a) (pos b) = ltb a b
ltz (pos a) (negsuc b) = false
ltz (negsuc a) (pos b) = true
ltz (negsuc a) (negsuc b) = ltb b a

unfoldable pub eqz : ℤ → ℤ → Bool
eqz (pos a) (pos b) = a == b
eqz (negsuc a) (negsuc b) = a == b
eqz a b = false

-- Every integer is a difference.
abbrev pub plus : ℤ → ℕ
plus (pos a) = a
plus (negsuc a) = 0

abbrev pub minus : ℤ → ℕ
minus (pos a) = 0
minus (negsuc a) = suc a

pub plus-minus : (z : ℤ) → z ≡ diff (plus z) (minus z)
unfolding diff
plus-minus (pos a) = refl
plus-minus (negsuc a) = refl

pub diff-pos : (a b k : ℕ) → a ≡ b + k → diff a b ≡ pos k
unfolding diff
diff-pos a zero k e = ap pos (omega arith)
diff-pos zero (suc b) k e = absurd (omega arith)
diff-pos (suc a) (suc b) k e = diff-pos a b k (omega arith)

pub diff-negsuc : (a b k : ℕ) → b ≡ suc (a + k) → diff a b ≡ negsuc k
unfolding diff
diff-negsuc a zero k e = absurd (omega arith)
diff-negsuc zero (suc b) k e = ap negsuc (omega arith)
diff-negsuc (suc a) (suc b) k e = diff-negsuc a b k (omega arith)

-- The sign of a difference.
data Sign (a b : ℕ) : Type 0 where
  above : (k : ℕ) → a ≡ b + k → diff a b ≡ pos k → Sign a b
  below : (k : ℕ) → b ≡ suc (a + k) → diff a b ≡ negsuc k → Sign a b

sign : (a b : ℕ) → Sign a b
sign a b = elim (dec_lt a b) [
  | yes h ↦ below (b - suc a) (omega arith) (diff-negsuc a b (b - suc a) (omega arith))
  | no h ↦ above (a - b) (omega arith) (diff-pos a b (a - b) (omega arith))
]

pub diff-add : (a b n : ℕ) → diff a b +ℤ pos n ≡ diff (a + n) b
unfolding ◌+ℤ◌
diff-add a b n = elim (sign a b) [
  | above k h e ↦ rw e (sym (diff-pos (a + n) b (k + n) (omega arith)))
  | below k h e ↦ rw e (elim (sign n (suc k)) [
    | above j h' e' ↦ e' ∙ sym (diff-pos (a + n) b j (omega arith))
    | below j h' e' ↦ e' ∙ sym (diff-negsuc (a + n) b j (omega arith))
  ])
]

pub diff-sub : (a b n : ℕ) → diff a b -ℤ pos n ≡ diff a (b + n)
unfolding ◌+ℤ◌ neg diff
diff-sub a b zero = elim (sign a b) [
  | above k h e ↦ rw e (sym (diff-pos a (b + 0) (k + 0) (omega arith)))
  | below k h e ↦ rw e (sym (diff-negsuc a (b + 0) k (omega arith)))
]
diff-sub a b (suc n) = elim (sign a b) [
  | above k h e ↦ rw e (elim (sign k (suc n)) [
    | above j h' e' ↦ e' ∙ sym (diff-pos a (b + suc n) j (omega arith))
    | below j h' e' ↦ e' ∙ sym (diff-negsuc a (b + suc n) j (omega arith))
  ])
  | below k h e ↦ rw e (sym (diff-negsuc a (b + suc n) (suc (k + n)) (omega arith)))
]

pub ltz-diff : (a b c d : ℕ) → ltz (diff a b) (diff c d) ≡ ltb (a + d) (c + b)
unfolding ltz
ltz-diff a b c d = elim (sign a b) [
  | above k h e ↦ elim (sign c d) [
    | above j h' e' ↦ rw (e, e') (ground arith)
    | below j h' e' ↦ rw (e, e') (ground arith)
  ]
  | below k h e ↦ elim (sign c d) [
    | above j h' e' ↦ rw (e, e') (ground arith)
    | below j h' e' ↦ rw (e, e') (ground arith)
  ]
]

pub eqz-diff : (a b c d : ℕ) → eqz (diff a b) (diff c d) ≡ (a + d == c + b)
unfolding eqz
eqz-diff a b c d = elim (sign a b) [
  | above k h e ↦ elim (sign c d) [
    | above j h' e' ↦ rw (e, e') (ground arith)
    | below j h' e' ↦ rw (e, e') (ground arith)
  ]
  | below k h e ↦ elim (sign c d) [
    | above j h' e' ↦ rw (e, e') (ground arith)
    | below j h' e' ↦ rw (e, e') (ground arith)
  ]
]

pub diff-shift : (a b n : ℕ) → diff (a + n) (b + n) ≡ diff a b
diff-shift a b n = elim (sign a b) [
  | above k h e ↦ diff-pos (a + n) (b + n) k (omega arith) ∙ sym e
  | below k h e ↦ diff-negsuc (a + n) (b + n) k (omega arith) ∙ sym e
]

pub diff_injective : (a b c d : ℕ) → diff a b ≡ diff c d → a + d ≡ c + b
diff_injective a b c d e =
    let same : eqz (diff a b) (diff c d) ≡ true = rw (e, eqz-diff c d c d) (ground arith) in
    let test : (a + d == c + b) ≡ true = sym (eqz-diff a b c d) ∙ same in ground (arith, test)

pub diff_equal : (a b c d : ℕ) → a + d ≡ c + b → diff a b ≡ diff c d
diff_equal a b c d h = elim (sign a b) [
  | above k h' e ↦ e ∙ sym (diff-pos c d k (omega arith))
  | below k h' e ↦ e ∙ sym (diff-negsuc c d k (omega arith))
]
