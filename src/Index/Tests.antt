-- ===== src/Index/Tests.antt =====
-- Partitions of small images and a slot: cache2/src/region/index/storage/mod.rs.
use cache.Base.{
  ℕ, ◌+◌, ◌/◌, ◌*◌, ◌^◌, ◌≤◌, ◌<◌, ◌≡◌, refl, List, [], ◌∷◌, inr, some, arith, ◌⊎◌, ◌==◌,
  if◌then◌else◌,
}
use cache.Packed.Location.{
  PackedLocation, new_location, pack, location_region, location_offset, location_len,
}
use cache.Packed.SizeClass.{record_size_class_upper_bound, class_units}
use cache.Index.Slot.{SlotState, empty, value, from_state, runtime_state}
use cache.Record.Header.{is_power_of_two}
use cache.Hashing.Route.{route_hash}
use cache.Index.Lookup.{
  lookup_raw, lookup_from, index_fingerprint, rotate_left, rotate_right, index_home, slot_from_home,
  home_from_slot, candidate_offset, home_from_slot-slot_from_home,
}
use cache.Index.Stats.{
  PhysicalStats, empty_kind, value_kind, is_valid_for, decrement, increment, transitioned,
  Transition, transitioned-Transition,
}
use cache.Record.Codec.{◌>>=◌}
use cache.Index.Found.{Looked, lookup_raw-Looked}
use cache.Index.SlotRoundtrip.{runtime_state-from_state}
use cache.Checked.{checking}
use cache.Index.Layout.{
  PartitionRange, canonical_ranges, validated_pages, image_pages, shrink, final_partition_slots,
  ranges_from,
}
use cache.Packed.SizeClass.{digit_count}
use cache.Index.Tiling.{Tiled, slots, pages, canonical_ranges-Tiled}

abbrev three_pages : List PartitionRange
three_pages =
    record { partition_id = 0; first_page = 0; page_count = 1; first_slot = 0; slot_count = 504 }
    ∷ record {
      partition_id = 1;
      first_page = 1;
      page_count = 2;
      first_slot = 504;
      slot_count = 506;
    }
    ∷ []

three_pages_returned : canonical_ranges 1010 ≡ inr three_pages
unfolding checking canonical_ranges validated_pages image_pages shrink final_partition_slots
    ranges_from digit_count
three_pages_returned = refl

canonical_ranges-Tiled_example :
    Tiled 0 0 0 three_pages × (slots three_pages ≡ 1010) × (pages three_pages ≡ (1010 + 503) / 504)
canonical_ranges-Tiled_example = canonical_ranges-Tiled 1010 three_pages three_pages_returned

abbrev packed_example : PackedLocation
packed_example = record { raw = 3 + 3 * 2 ^ 20 + 32 * 2 ^ 40 }

example_packed : new_location 3 96 1056 ≡ inr packed_example
unfolding new_location pack
example_packed = refl

-- A length of 33 units of 32 bytes reads back as 35 units.
example_slot :
    runtime_state (3 + 3 * 2 ^ 20 + 33 * 2 ^ 40 + 9 * 2 ^ 48 + 2 * 2 ^ 62)
    ≡ inr (value 9 2 (record { raw = 3 + 3 * 2 ^ 20 + 34 * 2 ^ 40 }))
unfolding runtime_state new_location pack record_size_class_upper_bound class_units
example_slot = refl

runtime_state-from_state_example :
    (encoded u : ℕ) × (l' : PackedLocation) × (from_state (value 9 2 packed_example) ≡ some encoded)
    × (runtime_state encoded ≡ inr (value 9 2 l'))
    × (location_region l' ≡ 3)
    × (location_offset l' ≡ 96)
    × (location_len l' ≡ u)
    × (1056 ≤ u)
    × (u * 100 < 1056 * 107)
runtime_state-from_state_example =
    runtime_state-from_state 3 96 1056 9 2 packed_example example_packed (omega arith) (omega arith)

home_from_slot-slot_from_home_example :
    (slot_from_home 5 3 40 < 40) × (home_from_slot (slot_from_home 5 3 40) 3 40 ≡ 5)
home_from_slot-slot_from_home_example = home_from_slot-slot_from_home 5 3 40 (omega arith)

-- A partition of 40 slots whose slot 15, the candidate of the displacement 1, holds the hash 77.
abbrev shelf : ℕ → ℕ ⊎ SlotState
shelf slot = inr (if slot == 15 then value 308 1 packed_example else empty)

shelf_found : lookup_raw shelf 77 40 ≡ inr (some packed_example)
unfolding checking lookup_raw lookup_from index_fingerprint rotate_left rotate_right index_home
    route_hash is_power_of_two slot_from_home candidate_offset
shelf_found = refl

lookup_raw-Looked_example : Looked shelf 77 40 0 4 (some packed_example)
lookup_raw-Looked_example = lookup_raw-Looked shelf 77 40 (some packed_example) shelf_found

abbrev three_values : PhysicalStats
three_values = record { value_slots = 3; deleted_slots = 0 }

abbrev four_values : PhysicalStats
four_values = record { value_slots = 4; deleted_slots = 0 }

one_more : transitioned three_values empty_kind value_kind 8 ≡ some four_values
unfolding transitioned decrement increment is_valid_for ◌>>=◌
one_more = refl

transitioned-Transition_example : Transition three_values empty_kind value_kind 8 four_values
transitioned-Transition_example =
    transitioned-Transition three_values four_values empty_kind value_kind 8 one_more
