-- ===== src/Packed/Tests.antt =====
-- Locations and size classes at some lengths: cache2/src/region/index/packed.rs.
use cache.Base.{ℕ, ◌+◌, ◌*◌, ◌^◌, ◌≤◌, ◌<◌, ◌≡◌, refl, inl, inr, some, arith}
use cache.Packed.Location.{
  offset_unaligned, PackedLocation, pack, new_location, location_region, location_offset,
  location_len, Packable, new_location-accessors, Packable-new_location,
}
use cache.Packed.SizeClass.{
  digit_count, class_of_units, record_size_class, class_units, record_size_class_upper_bound,
  index_size_class,
}
use cache.Packed.Rounding.{record_size_class-upper_bound, index_size_class_total}

abbrev third : PackedLocation
third = record { raw = 3 + 2 * 2 ^ 20 + 4 * 2 ^ 40 }

third_test : new_location 3 64 160 ≡ inr third
unfolding new_location pack
third_test = refl

unaligned_test : new_location 3 65 160 ≡ inl offset_unaligned
unfolding new_location
unaligned_test = refl

new_location-accessors_example :
    Packable 3 64 160
    × (location_region third ≡ 3)
    × (location_offset third ≡ 64)
    × (location_len third ≡ 160)
    × (third.raw < 2 ^ 60)
new_location-accessors_example = new_location-accessors 3 64 160 third third_test

third_fits : Packable 3 64 160
third_fits = record {
  region_fits = omega arith;
  offset_aligned = refl;
  offset_fits = omega arith;
  nonempty = omega arith;
  len_aligned = refl;
  len_fits = omega arith;
}

Packable-new_location_example : (l : PackedLocation) × (new_location 3 64 160 ≡ inr l)
Packable-new_location_example = Packable-new_location 3 64 160 third_fits

class_test : record_size_class 4096 ≡ some 60
unfolding record_size_class class_of_units digit_count
class_test = refl

bound_test : record_size_class_upper_bound 60 ≡ some 4096
unfolding record_size_class_upper_bound class_units
bound_test = refl

record_size_class-upper_bound_example :
    (c u : ℕ) × (record_size_class 4096 ≡ some c)
    × (record_size_class_upper_bound c ≡ some u)
    × (4096 ≤ u)
    × (u * 100 < 4096 * 107)
record_size_class-upper_bound_example =
    record_size_class-upper_bound 4096 (omega arith) refl (omega arith)

index_size_class_total_example : (c : ℕ) × (index_size_class third ≡ some c)
index_size_class_total_example = index_size_class_total third
