-- ===== src/Map/Tables.antt =====
-- The operations on one table: `initialize`, `insert`, `lookUp` and `detach`.
use coxx.Base.{
  ℕ, ◌+◌, ◌-◌, ◌%◌, ◌<◌, ◌≡◌, refl, sym, ap, ◌∙◌, Bool, true, false, Bool-cases, Option,
  Option-cases, none, some, inl, inr, List, [], ◌∷◌, length, get_elem?, set, replicate, All, arith,
  bit_and, subst, length-set, length-replicate, get_elem?-some, get_elem?-lt,
}
use coxx.Base.Bits.{bit_and-le, IsMask, IsMask-bit_and, zero-IsMask}
use coxx.Base.Bytes.{add64, u64_mod}
use coxx.Base.Run.{ok, ◌>>=◌, need, Returns}
use coxx.Map.{
  Node, Chain, Table, Cursor, is_null, init_table, initialize, insert, matches, find, look_up,
  remove_at, node_at, detach,
}
use coxx.Map.Slots.{
  to_nat, count, count_all, Home, Placed, Emptied, count-remove_at, count_all-set,
  count_all-replicate, find-eq-none, find-eq-some, count_all_home, Placed-get, Placed-set,
  Placed-replicate, All-remove_at, Emptied-remove_at, count-le-count_all, count_pos,
}

abbrev pub any {ℓ} : {A : Type ℓ} → A → Bool
any x = true

module _ {ℓ} {A : Type ℓ} where
  -- The array has a power of two of slots, the size counts the nodes, and each node is in its slot.
  pub record IsTable (t : Table A) : Type ℓ where
    pub width : 0 < length t.slots → length t.slots ≡ t.mask + 1
    pub power : IsMask t.mask
    pub counted : t.size ≡ count_all any t.slots
    pub placed : Placed t.mask 0 t.slots

  pub init_table-IsTable : IsTable init_table
  unfolding count_all
  init_table-IsTable = record {
    width = λ h. absurd (omega arith);
    power = zero-IsMask;
    counted = refl;
    placed = tt;
  }

  -- A node of the array at a cursor.
  pub record At (t : Table A) (from : Cursor) (n : Node A) : Type ℓ where
    pub chain : Chain A
    pub slot : get_elem? t.slots from.0 ≡ some chain
    pub node : get_elem? chain from.1 ≡ some n

  -- What a search for the nodes that pass `p` found.
  abbrev pub LookedUp : Table A → (Node A → Bool) → Option Cursor → Type ℓ
  LookedUp t p none = Unit × (count_all p t.slots ≡ 0)
  LookedUp t p (some from) = (n : Node A) × At t from n × (p n ≡ true)

  -- `t'` is `t` with one node more.
  pub record Added (t : Table A) (n : Node A) (t' : Table A) : Type ℓ where
    pub table : IsTable t'
    pub counts : (p : Node A → Bool) → count_all p t'.slots ≡ count_all p t.slots + to_nat (p n)
    pub wide : length t'.slots ≡ length t.slots
    pub mask : t'.mask ≡ t.mask

  pub record Removed (t : Table A) (n : Node A) (t' : Table A) : Type ℓ where
    pub table : IsTable t'
    pub counts : (p : Node A → Bool) → count_all p t'.slots + to_nat (p n) ≡ count_all p t.slots
    pub wide : length t'.slots ≡ length t.slots
    pub emptied : (k : ℕ) → Emptied k t.slots → Emptied k t'.slots

pub null→eq {ℓ} : {A : Type ℓ} (xs : List A) → is_null xs ≡ true → xs ≡ []
null→eq [] h = refl
null→eq (x ∷ xs) h = cc

pub not_null→pos {ℓ} : {A : Type ℓ} (xs : List A) → is_null xs ≡ false → 0 < length xs
not_null→pos [] h = absurd (cc)
not_null→pos (x ∷ xs) h = omega arith

module _ {ℓ} {A : Type ℓ} (n : ℕ) (pos : 0 < n) (power : IsMask (n - 1)) where
  pub initialize-IsTable : Returns (initialize {A = A} n) λ t.
      IsTable t
      × ((p : Node A → Bool) → count_all p t.slots ≡ 0)
      × (length t.slots ≡ n)
      × (t.mask ≡ n - 1)
  unfolding initialize
  initialize-IsTable =
      let e : n - 1 + 1 ≡ n = omega arith in
      (
        record { slots = replicate n []; mask = n - 1; size = 0 },
        let test = IsMask-bit_and power in ground (arith, test),
        (
          record {
            width = λ _. length-replicate n [] ∙ sym e;
            power = power;
            counted = sym (count_all-replicate any n);
            placed = Placed-replicate A (n - 1) 0 n;
          },
          (λ p. count_all-replicate p n),
          length-replicate n [],
          refl,
        ),
      )

module _ {ℓ} {A : Type ℓ} (t : Table A) (valid : IsTable t) where
  position-lt : (code : ℕ) → 0 < length t.slots → bit_and code t.mask < length t.slots
  position-lt code h = omega (arith, bit_and-le code t.mask, valid.width h)

  -- One chain is replaced, and the size follows.
  replaced-IsTable :
      (i size : ℕ) (c c' : Chain A)
      → get_elem? t.slots i ≡ some c
      → All (Home t.mask i) c'
      → size + count any c ≡ t.size + count any c'
      → IsTable (record t { slots = set t.slots i c'; size = size })
  replaced-IsTable i size c c' e home sum = record {
    width = λ h. rw length-set (valid.width (omega (arith, get_elem?-lt t.slots i e)));
    power = valid.power;
    counted = omega (arith, count_all-set any t.slots i c' e, valid.counted);
    placed = Placed-set t.mask 0 i i t.slots c' (omega arith) valid.placed home;
  }

  chain-Home : (i : ℕ) (c : Chain A) → get_elem? t.slots i ≡ some c → All (Home t.mask i) c
  chain-Home i c e = Placed-get t.mask 0 i i t.slots (omega arith) valid.placed e

  pub insert-Added :
      (node : Node A)
      → 0 < length t.slots
      → t.size + 1 < u64_mod
      → Returns (insert t node) (Added t node)
  unfolding insert count
  insert-Added node wide small =
      let position = bit_and node.code t.mask in
      let (chain, e) = get_elem?-some t.slots position (position-lt node.code wide) in
      (
        record t { slots = set t.slots position (node ∷ chain); size = add64 t.size 1 },
        rw (e, need, ◌>>=◌),
        record {
          table =
              replaced-IsTable position (add64 t.size 1) chain (node ∷ chain) e
                (refl, chain-Home position chain e) (omega arith);
          counts = λ p. omega (arith, count_all-set p t.slots position (node ∷ chain) e);
          wide = length-set t.slots position (node ∷ chain);
          mask = refl;
        },
      )

  matches_code :
      (code : ℕ) (eq : A → Bool) (n : Node A)
      → matches code eq n ≡ true
      → bit_and n.code t.mask ≡ bit_and code t.mask
  matches_code code eq n h = let e : n.code ≡ code = ground arith in rw e

  -- A search finds a node that matches, or there is none in the whole table.
  pub look_up-LookedUp :
      (code : ℕ) (eq : A → Bool) → Returns (look_up t code eq) (LookedUp t (matches code eq))
  unfolding look_up
  look_up-LookedUp code eq = elim (Bool-cases (is_null t.slots)) [
    | inl null ↦ (
      none,
      rw null,
      (tt, ap (count_all (matches code eq)) (null→eq t.slots null) ∙ count_all_empty),
    )
    | inr wide ↦
        let p = matches code eq in
        let position = bit_and code t.mask in
        let (chain, e) =
          get_elem?-some t.slots position (position-lt code (not_null→pos t.slots wide)) in
        elim (Option-cases (find p 0 chain)) [
          | inl gone ↦ (
            none,
            rw (wide, e, need, ◌>>=◌, gone),
            (
              tt,
              count_all_home p t.mask position (matches_code code eq) 0 position t.slots
                    (omega arith) valid.placed e
                  ∙ find-eq-none p 0 chain gone,
            ),
          )
          | inr (k, found) ↦
              let (n, j, here, at, hit) = find-eq-some p 0 chain found in
              let same : j ≡ k = omega arith in
              (
                some (position, k),
                rw (wide, e, need, ◌>>=◌, found),
                (
                  n,
                  record {
                    chain = chain;
                    slot = e;
                    node = subst (λ (i : ℕ). get_elem? chain i ≡ some n) same at;
                  },
                  hit,
                ),
              )
        ]
  ]
    where
      count_all_empty : count_all (matches code eq) [] ≡ 0
      count_all_empty = unfold count_all in refl

  -- The node at a cursor is read, and taken away.
  pub node_at-At : (from : Cursor) (n : Node A) → At t from n → node_at t from ≡ ok n
  unfolding node_at
  node_at-At (i, k) n at = rw (at.slot, need, ◌>>=◌, at.node)

  pub detach-Removed :
      (from : Cursor) (n : Node A)
      → At t from n
      → t.size < u64_mod
      → Returns (detach t from) (λ (r, t'). (r ≡ n) × Removed t n t')
  unfolding detach
  detach-Removed (i, k) n at small =
      let c = at.chain in
      let size = (t.size + u64_mod - 1) % u64_mod in
      let filled : 0 < count any c = count_pos any c k at.node refl in
      let less = count-remove_at any k c at.node in
      (
        (n, record t { slots = set t.slots i (remove_at k c); size = size }),
        rw (at.slot, need, ◌>>=◌, at.node, need, ◌>>=◌),
        (
          refl,
          record {
            table =
                replaced-IsTable i size c (remove_at k c) at.slot
                  (All-remove_at (Home t.mask i) k c (chain-Home i c at.slot))
                  (omega (arith, count-le-count_all any t.slots i at.slot, valid.counted));
            counts = λ p. omega (
              arith,
              count_all-set p t.slots i (remove_at k c) at.slot,
              count-remove_at p k c at.node,
            );
            wide = length-set t.slots i (remove_at k c);
            emptied = λ j a. Emptied-remove_at j i k t.slots a at.slot;
          },
        ),
      )
