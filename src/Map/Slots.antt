-- ===== src/Map/Slots.antt =====
-- Chains and arrays of chains: how many nodes they hold, and where these stand.
use coxx.Base.{
  ℕ, zero, suc, ◌+◌, ◌<◌, ◌≤◌, ◌≡◌, ◌≢◌, refl, sym, Bool, true, false, Bool-cases, none, some, inl,
  inr, List, [], ◌∷◌, length, get_elem?, set, replicate, All, arith, subst, ◌&&◌, bit_and,
}
use mathlib.Core.Path.{subst₂}
use coxx.Map.{Node, Chain, find, remove_at}

abbrev pub to_nat : Bool → ℕ
to_nat true = 1
to_nat false = 0

module _ {ℓ} {A : Type ℓ} where
  -- How many nodes of a chain, and of an array, satisfy a test.
  unfoldable pub count : (Node A → Bool) → Chain A → ℕ
  count p [] = 0
  count p (n ∷ chain) = to_nat (p n) + count p chain

  unfoldable pub count_all : (Node A → Bool) → List (Chain A) → ℕ
  count_all p [] = 0
  count_all p (c ∷ slots) = count p c + count_all p slots

  -- Every node stands in the slot that its code and the mask give, the first slot being `i`.
  abbrev pub Home : ℕ → ℕ → Node A → Type 0
  Home mask i n = bit_and n.code mask ≡ i

  abbrev pub Placed : ℕ → ℕ → List (Chain A) → Type 0
  Placed mask i [] = Unit
  Placed mask i (c ∷ slots) = All (Home mask i) c × Placed mask (suc i) slots

  -- The first `n` slots are empty.
  abbrev pub Emptied : ℕ → List (Chain A) → Type ℓ
  Emptied zero slots = Unit
  Emptied (suc n) [] = Unit
  Emptied (suc n) (c ∷ slots) = (c ≡ []) × Emptied n slots

module _ {ℓ} {A : Type ℓ} (p : Node A → Bool) where
  pub count-remove_at :
      (i : ℕ) (c : Chain A) {n : Node A}
      → get_elem? c i ≡ some n
      → count p (remove_at i c) + to_nat (p n) ≡ count p c
  unfolding count remove_at
  count-remove_at i [] e = cc
  count-remove_at zero (x ∷ c) e = ground (arith, e)
  count-remove_at (suc i) (x ∷ c) e = omega (arith, count-remove_at i c e)

  pub count_all-set :
      (slots : List (Chain A)) (i : ℕ) (c' : Chain A) {c : Chain A}
      → get_elem? slots i ≡ some c
      → count_all p (set slots i c') + count p c ≡ count_all p slots + count p c'
  unfolding count_all
  count_all-set [] i c' e = cc
  count_all-set (x ∷ slots) zero c' e = ground (arith, e)
  count_all-set (x ∷ slots) (suc i) c' e = omega (arith, count_all-set slots i c' e)

  pub count_all-replicate : (n : ℕ) → count_all p (replicate n []) ≡ 0
  unfolding count_all count
  count_all-replicate zero = refl
  count_all-replicate (suc n) = omega (arith, count_all-replicate n)

  pub find-eq-none : (i : ℕ) (c : Chain A) → find p i c ≡ none → count p c ≡ 0
  unfolding count find
  find-eq-none i [] e = refl
  find-eq-none i (x ∷ c) e = ground (arith, find-eq-none (i + 1) c)

  pub find-eq-some :
      (i : ℕ) (c : Chain A) {k : ℕ}
      → find p i c ≡ some k
      → (n : Node A) × (j : ℕ) × (k ≡ i + j) × (get_elem? c j ≡ some n) × (p n ≡ true)
  unfolding find
  find-eq-some i [] e = absurd (cc)
  find-eq-some i (x ∷ c) {k} e = elim (Bool-cases (p x)) [
    | inl hit ↦ (x, 0, ground (arith, hit), refl, hit)
    | inr miss ↦
        let (n, j, at, here, hit) = find-eq-some (i + 1) c {k = k} (ground (arith, miss)) in
        (n, suc j, omega arith, here, hit)
  ]

  -- A node that is there is counted.
  pub count_pos :
      (c : Chain A) (i : ℕ) {n : Node A} → get_elem? c i ≡ some n → p n ≡ true → 0 < count p c
  unfolding count
  count_pos [] i e h = absurd (cc)
  count_pos (x ∷ c) zero e h = ground (arith, e, h)
  count_pos (x ∷ c) (suc i) e h = omega (arith, count_pos c i e h)

  pub count-le-count_all :
      (slots : List (Chain A)) (i : ℕ) {c : Chain A}
      → get_elem? slots i ≡ some c
      → count p c ≤ count_all p slots
  unfolding count_all
  count-le-count_all [] i e = absurd (cc)
  count-le-count_all (x ∷ slots) zero e = ground (arith, e)
  count-le-count_all (x ∷ slots) (suc i) e = omega (arith, count-le-count_all slots i e)

  count-le-any : (c : Chain A) → count p c ≤ count (λ n. true) c
  unfolding count
  count-le-any [] = omega arith
  count-le-any (x ∷ c) = ground (arith, count-le-any c)

  pub count_all-le-any : (slots : List (Chain A)) → count_all p slots ≤ count_all (λ n. true) slots
  unfolding count_all
  count_all-le-any [] = omega arith
  count_all-le-any (c ∷ slots) = omega (arith, count-le-any c, count_all-le-any slots)

  -- A test that only nodes of slot `home` pass.
  module _ (mask home : ℕ) (only : (n : Node A) → p n ≡ true → bit_and n.code mask ≡ home) where
    count_away : (i : ℕ) (c : Chain A) → i ≢ home → All (Home mask i) c → count p c ≡ 0
    unfolding count
    count_away i [] h a = refl
    count_away i (x ∷ c) h a = ground (arith, only x, count_away i c h a.1)

    count_all_above :
        (i : ℕ) (slots : List (Chain A)) → home < i → Placed mask i slots → count_all p slots ≡ 0
    unfolding count_all
    count_all_above i [] h a = refl
    count_all_above i (c ∷ slots) h a = omega (
      arith,
      count_away i c (λ e. absurd (omega arith)) a.0,
      count_all_above (suc i) slots (omega arith) a.1,
    )

    pub count_all_home :
        (i j : ℕ) (slots : List (Chain A)) {c : Chain A}
        → home ≡ i + j
        → Placed mask i slots
        → get_elem? slots j ≡ some c
        → count_all p slots ≡ count p c
    unfolding count_all
    count_all_home i j [] h a e = absurd (cc)
    count_all_home i zero (x ∷ slots) h a e =
        ground (arith, e, count_all_above (suc i) slots (omega arith) a.1)
    count_all_home i (suc j) (x ∷ slots) h a e = omega (
      arith,
      count_away i x (λ e'. absurd (omega arith)) a.0,
      count_all_home (suc i) j slots (omega arith) a.1 e,
    )

module _ {ℓ} {A : Type ℓ} (mask : ℕ) where
  pub Placed-get :
      (i j h : ℕ) (slots : List (Chain A)) {c : Chain A}
      → h ≡ i + j
      → Placed mask i slots
      → get_elem? slots j ≡ some c
      → All (Home mask h) c
  Placed-get i j h [] q a e = absurd (cc)
  Placed-get i zero h (x ∷ slots) {c} q a e =
      let same : x ≡ c = cc in
      let here : i ≡ h = omega arith in
      subst₂ (λ (k : ℕ) (d : Chain A). All (Home mask k) d) here same a.0
  Placed-get i (suc j) h (x ∷ slots) q a e = Placed-get (suc i) j h slots (omega arith) a.1 e

  pub Placed-set :
      (i j h : ℕ) (slots : List (Chain A)) (c : Chain A)
      → h ≡ i + j
      → Placed mask i slots
      → All (Home mask h) c
      → Placed mask i (set slots j c)
  Placed-set i j h [] c q a n = tt
  Placed-set i zero h (x ∷ slots) c q a n =
      let here : h ≡ i = omega arith in (subst (λ (k : ℕ). All (Home mask k) c) here n, a.1)
  Placed-set i (suc j) h (x ∷ slots) c q a n =
      (a.0, Placed-set (suc i) j h slots c (omega arith) a.1 n)

module _ {ℓ} {A : Type ℓ} where
  pub All-remove_at {κ} :
      (P : Node A → Type κ) (i : ℕ) (c : Chain A) → All P c → All P (remove_at i c)
  unfolding remove_at
  All-remove_at P i [] a = a
  All-remove_at P zero (x ∷ c) a = a.1
  All-remove_at P (suc i) (x ∷ c) a = (a.0, All-remove_at P i c a.1)

  pub Emptied-step :
      (n : ℕ) (slots : List (Chain A))
      → Emptied n slots
      → get_elem? slots n ≡ some []
      → Emptied (suc n) slots
  Emptied-step n [] a e = tt
  Emptied-step zero (x ∷ slots) a e = (cc, tt)
  Emptied-step (suc n) (x ∷ slots) a e = (a.0, Emptied-step n slots a.1 e)

  -- Taking a node away leaves empty slots empty.
  pub Emptied-remove_at :
      (n i k : ℕ) (slots : List (Chain A)) {c : Chain A}
      → Emptied n slots
      → get_elem? slots i ≡ some c
      → Emptied n (set slots i (remove_at k c))
  unfolding remove_at
  Emptied-remove_at zero i k slots a e = tt
  Emptied-remove_at (suc n) i k [] a e = tt
  Emptied-remove_at (suc n) zero k (x ∷ slots) {c} a e =
      let none_left : c ≡ [] = cc (sym a.0) in (rw none_left, a.1)
  Emptied-remove_at (suc n) (suc i) k (x ∷ slots) a e = (a.0, Emptied-remove_at n i k slots a.1 e)

  -- While nodes are left there is a slot that is not known to be empty.
  pub Emptied-lt :
      (p : Node A → Bool) (n : ℕ) (slots : List (Chain A))
      → Emptied n slots
      → 0 < count_all p slots
      → n < length slots
  unfolding count_all count
  Emptied-lt p n [] a h = absurd (omega arith)
  Emptied-lt p zero (x ∷ slots) a h = omega arith
  Emptied-lt p (suc n) (x ∷ slots) a h = omega (arith, Emptied-lt p n slots a.1 (rest a.0 h))
    where
      rest : x ≡ [] → 0 < count p x + count_all p slots → 0 < count_all p slots
      rest e q = ground (arith, e)

pub Placed-replicate {ℓ} : (A : Type ℓ) (mask i n : ℕ) → Placed {A = A} mask i (replicate n [])
Placed-replicate A mask i zero = tt
Placed-replicate A mask i (suc n) = (tt, Placed-replicate A mask (suc i) n)

-- A test that a node of the array passes is passed by some.
pub count_all_pos {ℓ} :
    {A : Type ℓ} (p : Node A → Bool) (slots : List (Chain A)) (i k : ℕ) {c : Chain A} {n : Node A}
    → get_elem? slots i ≡ some c
    → get_elem? c k ≡ some n
    → p n ≡ true
    → 0 < count_all p slots
count_all_pos p slots i k {c} e e' h =
    omega (arith, count_pos p c k e' h, count-le-count_all p slots i e)

pub count_all-null {ℓ} :
    {A : Type ℓ} (p : Node A → Bool) (slots : List (Chain A)) → slots ≡ [] → count_all p slots ≡ 0
unfolding count_all
count_all-null p slots e = rw e

count-and_le {ℓ} :
    {A : Type ℓ} (p q : Node A → Bool) (c : Chain A) → count (λ n. p n && q n) c ≤ count p c
unfolding count
count-and_le p q [] = omega arith
count-and_le p q (x ∷ c) = ground (arith, count-and_le p q c)

-- A stronger test is passed by fewer nodes.
pub count_all-and_le {ℓ} :
    {A : Type ℓ} (p q : Node A → Bool) (slots : List (Chain A))
    → count_all (λ n. p n && q n) slots ≤ count_all p slots
unfolding count_all
count_all-and_le p q [] = omega arith
count_all-and_le p q (c ∷ slots) = omega (arith, count-and_le p q c, count_all-and_le p q slots)
