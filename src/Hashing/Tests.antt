-- ===== src/Hashing/Tests.antt =====
-- Runs of the directory: cache2/src/hashing.rs.
use cache.Base.{◌<◌, ◌≡◌, ◌%◌, refl, none, some, List, [], ◌∷◌, arith}
use cache.Hashing.Map.{
  PrehashedMap, try_new, fixed_map_fingerprint, rotate_left_13, home, probe_index, next_probe_index,
  probe_distance, search_from, search, get, upsert_from, find_upsert_slot, insert, compact_from,
  compact_deleted, remove, empty_slot,
}
use cache.Hashing.Trace.{
  Operation, getting, inserting, removing, perform, perform_all, Answers, try_new-Answers, Taken,
  insert_refused,
}
use cache.Hashing.Route.{route_hash, route_hash-remainder, probe_distance-probe_index}

abbrev blank : PrehashedMap
blank = record { slots = empty_slot ∷ empty_slot ∷ empty_slot ∷ empty_slot ∷ [] }

new_blank : try_new 2 ≡ some blank
unfolding try_new
new_blank = refl

abbrev script : List Operation
script =
    inserting 5 10
    ∷ inserting 77 20
    ∷ getting 5
    ∷ removing 5
    ∷ getting 5
    ∷ getting 77
    ∷ inserting 77 30
    ∷ getting 77
    ∷ []

script_answers :
    perform_all blank script
    ≡ some none
      ∷ some none
      ∷ some (some 10)
      ∷ some (some 10)
      ∷ some none
      ∷ some (some 20)
      ∷ some (some 20)
      ∷ some (some 30)
      ∷ []
unfolding perform_all perform get search search_from insert find_upsert_slot upsert_from remove
    compact_deleted compact_from fixed_map_fingerprint rotate_left_13 home probe_index
    next_probe_index probe_distance
script_answers = refl

try_new-Answers_example : Answers (λ f. none) script (perform_all blank script)
try_new-Answers_example =
    try_new-Answers 2 blank script new_blank (omega arith, (omega arith, (omega arith, tt)))

abbrev full_map : PrehashedMap
full_map = record {
  slots = record { fingerprint = 3; value = 1 } ∷ record { fingerprint = 4; value = 2 } ∷ [];
}

refused : insert full_map 5 10 ≡ none
unfolding insert find_upsert_slot upsert_from fixed_map_fingerprint rotate_left_13 home probe_index
refused = refl

insert_refused_example :
    Taken full_map.slots
      (fixed_map_fingerprint 5)
      (probe_index (home (fixed_map_fingerprint 5) 2) 1 2)
insert_refused_example = insert_refused full_map 5 10 1 refused (omega arith)

route_hash-remainder_example : route_hash 1001 64 ≡ 1001 % 64
route_hash-remainder_example = route_hash-remainder 1001 64

probe_distance-probe_index_example :
    (probe_index (home 9 5) 3 5 < 5)
    × (probe_distance (home 9 5) (probe_index (home 9 5) 3 5) 5 ≡ 3)
probe_distance-probe_index_example = probe_distance-probe_index 9 5 3 (omega arith)
