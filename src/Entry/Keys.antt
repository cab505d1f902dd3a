-- ===== src/Entry/Keys.antt =====
-- `scan` visits every node once, and `keys` writes one array of all keys.
use coxx.Base.{
  ℕ, zero, suc, ◌%◌, ◌<◌, ◌≡◌, refl, sym, ap, ◌∙◌, true, false, some, List, [], ◌∷◌, ◌++◌, ◌==◌,
  get_elem?, length, length-append, drop, arith, All,
}
use native.Mathlib.Decide.{dec_lt}
use coxx.Base.Bytes.{Bytes, u32_mod}
use coxx.Base.Run.{Run, ok, ◌>>=◌}
use coxx.Map.{Node, Chain, Table, Map, c_map_size}
use coxx.Map.Slots.{count, count_all}
use coxx.Map.Tables.{any, IsTable}
use coxx.Map.Moved.{bag, IsMap}
use coxx.Map.Methods.{c_map_size_lem}
use coxx.Serialize
use coxx.Serialize.Value
use coxx.Serialize.Value.{
  Value, Values, empty, item, emit, emit_all, encode, IsSized, AreSized, emit-encode,
}
use coxx.Entry.{scan_chain, scan_slots, scan, key_scan, keys}

module _ {A : Type 0} where
  -- The nodes of an array of chains, in the order in which `scan` comes to them.
  unfoldable pub nodes : List (Chain A) → Chain A
  nodes [] = []
  nodes (c ∷ slots) = c ++ nodes slots

  length-count : (c : Chain A) → length c ≡ count any c
  unfolding count
  length-count [] = refl
  length-count (n ∷ c) = omega (arith, length-count c)

  pub length-nodes : (slots : List (Chain A)) → length (nodes slots) ≡ count_all any slots
  unfolding nodes count_all
  length-nodes [] = refl
  length-nodes (c ∷ slots) =
      omega (arith, length-append c (nodes slots), length-count c, length-nodes slots)

  get_elem?-drop :
      (slots : List (Chain A)) (i : ℕ) (c : Chain A) (rest : List (Chain A))
      → drop i slots ≡ c ∷ rest
      → (get_elem? slots i ≡ some c) × (drop (suc i) slots ≡ rest)
  get_elem?-drop [] zero c rest e = absurd cc
  get_elem?-drop [] (suc i) c rest e = absurd cc
  get_elem?-drop (x ∷ slots) zero c rest e = (cc, cc)
  get_elem?-drop (x ∷ slots) (suc i) c rest e = get_elem?-drop slots i c rest e

  nodes_empty : (slots : List (Chain A)) → count_all any slots ≡ 0 → nodes slots ≡ []
  nodes_empty slots e = none_there (nodes slots) (length-nodes slots ∙ e)
    where
      none_there : (c : Chain A) → length c ≡ 0 → c ≡ []
      none_there [] e = refl
      none_there (n ∷ c) e = absurd (omega arith)

  slots_there : (slots : List (Chain A)) → 0 < count_all any slots → 0 < length slots
  unfolding count_all
  slots_there [] h = absurd (omega arith)
  slots_there (c ∷ slots) h = omega arith

module _ {A S : Type 0} where
  pub scan_chain-append :
      (fn : Node A → S → S) (c c' : Chain A) (s : S)
      → scan_chain fn (c ++ c') s ≡ scan_chain fn c' (scan_chain fn c s)
  unfolding scan_chain
  scan_chain-append fn [] c' s = refl
  scan_chain-append fn (n ∷ c) c' s = scan_chain-append fn c c' (fn n s)

  scan_slots-nodes :
      (fn : Node A → S → S) (slots rest : List (Chain A)) (i : ℕ) (s : S)
      → drop i slots ≡ rest
      → scan_slots fn slots (length rest) i s ≡ ok (scan_chain fn (nodes rest) s)
  unfolding scan_slots nodes scan_chain
  scan_slots-nodes fn slots [] i s e = refl
  scan_slots-nodes fn slots (c ∷ rest) i s e =
      let (here, next) = get_elem?-drop slots i c rest e in
      rw (here) (
        scan_slots-nodes fn slots rest (suc i) (scan_chain fn c s) next
        ∙ ap ok (sym (scan_chain-append fn c (nodes rest) s)))

  -- On a well-formed table `scan` stays inside the array and calls `fn` on each node, in order.
  pub scan-nodes :
      (t : Table A) (fn : Node A → S → S) (s : S)
      → IsTable t
      → scan t fn s ≡ ok (scan_chain fn (nodes t.slots) s)
  unfolding scan scan_chain
  scan-nodes t fn s g = elim (dec_lt 0 t.size) [
    | yes some_there ↦
        let test : (t.size == 0) ≡ false = ground arith in
        let all = g.width (slots_there t.slots (omega (arith, g.counted))) in
        rw test (
          ap (λ (n : ℕ). scan_slots fn t.slots n 0 s) (sym all)
          ∙ scan_slots-nodes fn t.slots t.slots 0 s refl)
    | no none_there ↦
        let test : (t.size == 0) ≡ true = ground arith in
        let nothing = nodes_empty t.slots (omega (arith, g.counted)) in
        rw (test, nothing) (by_nothing fn s)
  ]
    where
      by_nothing : (fn : Node A → S → S) (s : S) → Path (Run S) (ok s) (ok (scan_chain fn [] s))
      by_nothing fn s = refl

module _ {A : Type 0} (key : A → Bytes) where
  -- The keys of a chain as the elements of an array.
  abbrev pub texts : Chain A → Values
  texts [] = empty
  texts (n ∷ c) = item (Value.str (key n.item)) (texts c)

  count-texts : (c : Chain A) → Value.count (texts c) ≡ length c
  count-texts [] = refl
  count-texts (n ∷ c) = omega (arith, count-texts c)

  texts-AreSized :
      (c : Chain A) → All (λ (n : Node A). length (key n.item) < u32_mod) c → AreSized (texts c)
  texts-AreSized [] h = tt
  texts-AreSized (n ∷ c) (h, hs) = (h, texts-AreSized c hs)

  scan_chain-emit_all :
      (c : Chain A) (out : Bytes) → scan_chain (key_scan key) c out ≡ emit_all out (texts c)
  unfolding scan_chain key_scan emit emit_all
  scan_chain-emit_all [] out = refl
  scan_chain-emit_all (n ∷ c) out = scan_chain-emit_all c (Serialize.str out (key n.item))

  -- All the nodes of a map.
  abbrev pub all_nodes : Map A → Chain A
  all_nodes m = nodes m.table1.slots ++ nodes m.table2.slots

  -- `keys` on a well-formed map of fewer than 2^32 entries, whose keys are shorter than 2^32 bytes,
  -- appends the encoding of the array of all their keys to the output, the first table before the
  -- second, and stays inside both tables.
  pub keys-encode :
      (m : Map A) (out : Bytes)
      → IsMap m
      → bag m any < u32_mod
      → All (λ (n : Node A). length (key n.item) < u32_mod) (all_nodes m)
      → keys key m out ≡ ok (out ++ encode (Value.arr (texts (all_nodes m))))
  unfolding keys emit
  keys-encode m out g few short =
      let n : c_map_size m % u32_mod ≡ Value.count (texts (all_nodes m)) = omega (
        arith,
        c_map_size_lem m g,
        count-texts (all_nodes m),
        length-append (nodes m.table1.slots) (nodes m.table2.slots),
        length-nodes m.table1.slots,
        length-nodes m.table2.slots,
      ) in
      let head = Serialize.arr out (Value.count (texts (all_nodes m))) in
      let first = scan-nodes m.table1 (key_scan key) head g.first in
      let between = scan_chain (key_scan key) (nodes m.table1.slots) head in
      let second = scan-nodes m.table2 (key_scan key) between g.second in
      let sized : IsSized (Value.arr (texts (all_nodes m))) =
        (omega (arith, n), texts-AreSized (all_nodes m) short) in
      rw (n, first, ◌>>=◌, second)
        (ap ok (
          sym (scan_chain-append (key_scan key) (nodes m.table1.slots) (nodes m.table2.slots) head)
          ∙ (scan_chain-emit_all (all_nodes m) head
              ∙ emit-encode out (Value.arr (texts (all_nodes m))) sized)))
