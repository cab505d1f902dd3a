-- ===== src/Tests/CxxMaps.antt =====
-- map/cxx/map.cxx
use coxx.Base.{ℕ, ◌≡◌, refl, true, [], ◌∷◌}
use coxx.Base.Run.{Run, ok, ◌>>=◌}
use coxx.Map.{Node, Chain, Table, Map, init_map}
use coxx.CxxMap.{
  initialize, insert, move_out, look_up, detach, move_node, move_nodes, help_resizing,
  start_resizing, map_look_up, map_insert, map_pop, map_size,
}

abbrev entry : ℕ → ℕ → Node ℕ
entry code item = record { code = code; item = item }

all_of_map : Unit {0}
unfolding initialize insert move_out look_up detach move_node move_nodes help_resizing
    start_resizing map_look_up map_insert map_pop map_size
all_of_map = tt

-- Two nodes of one slot.
abbrev two : Run (Map ℕ)
two = map_insert init_map (entry 1 10) >>= λ m. map_insert m (entry 5 50)

abbrev found : Map ℕ × Chain ℕ → Run (ℕ × Chain ℕ)
found r = ok (map_size r.0, r.1)

-- A lookup takes both nodes with it, a second lookup finds nothing, and the size stays 2.
look_up_twice :
    (two >>= λ m. map_look_up m 5 (λ x. true) >>= found) ≡ ok (2, entry 5 50 ∷ entry 1 10 ∷ [])
unfolding all_of_map
look_up_twice = refl

lost_again :
    (two >>= λ m. map_look_up m 5 (λ x. true) >>= λ r. map_look_up r.0 1 (λ x. true) >>= found)
    ≡ ok (2, [])
unfolding all_of_map
lost_again = refl

abbrev slots : Table ℕ
slots = record { slots = [] ∷ (entry 5 50 ∷ entry 1 10 ∷ []) ∷ [] ∷ [] ∷ []; mask = 3; size = 2 }
