-- ===== src/Eviction/Tests.antt =====
-- A CLOCK of three residents, a hit on a slot of S3-FIFO, and its scan: cache2/src/memory/eviction.rs.
use cache.Base.{
  ℕ, ◌≢◌, sym, ap, length, get_elem?, zero, suc, ◌+◌, ◌<◌, min, ◌≡◌, refl, true, false, Option,
  none, some, List, [], ◌∷◌, arith, ◌==◌,
}
use mathlib.Core.Option.{some-injective}
use cache.Eviction.Positions.{Positioned, insert-Positioned, remove-Positioned}
use cache.Eviction.Slot.{
  default_slot, new_clock, is_main, to_bit, is_resident, s3fifo_queue, s3fifo_frequency,
  raised_flags, new_s3fifo, small_queue,
}
use cache.Eviction.Flags.{increment_lem}
use cache.Eviction.Clock.{insert, remove, Clock, Scan, scan, select_victim}
use cache.Record.Codec.{◌>>=◌}
use cache.Eviction.Queue.{default_link, empty_queue, front, push_back, unlink}
use cache.Eviction.Fifo.{S3Fifo, push_on}
use cache.Eviction.Fifo
use cache.Eviction.Scan.{Occupied, Scanned, select_victim-Scanned}

-- The first resident, 2, has been hit; the others, 0 and 1, have not.
abbrev three : Clock
three = record {
  state = record { hand = 0; residents = 2 ∷ 0 ∷ 1 ∷ []; capacity = 3 };
  slots = new_clock 70 false 1 ∷ new_clock 71 false 2 ∷ new_clock 72 true 0 ∷ [];
}

three_fits : Occupied three
three_fits zero r h =
    (new_clock 72 true 0, ap (get_elem? three.slots) (sym (some-injective _ _ h)), refl)
three_fits (suc zero) r h =
    (new_clock 70 false 1, ap (get_elem? three.slots) (sym (some-injective _ _ h)), refl)
three_fits (suc (suc zero)) r h =
    (new_clock 71 false 2, ap (get_elem? three.slots) (sym (some-injective _ _ h)), refl)
three_fits (suc (suc (suc p))) r h = cc

abbrev victim_of : Option Scan → Option ℕ
victim_of none = none
victim_of (some s) = s.victim

-- The visited resident is passed over, and the next one is taken.
victim_test : victim_of (select_victim (λ i. true) three 10) ≡ some 0
unfolding select_victim scan
victim_test = refl

select_victim-Scanned_example :
    (s : Scan) × (select_victim (λ i. i == 1) three 10 ≡ some s)
    × Scanned (λ i. i == 1) three 7 10 s
select_victim-Scanned_example = select_victim-Scanned (λ i. i == 1) three 10 three_fits

increment_lem_example :
    (s3fifo_frequency (raised_flags 13) ≡ min 3 (s3fifo_frequency 13 + 1))
    × (to_bit (is_resident (raised_flags 13)) ≡ to_bit (is_resident 13))
    × (to_bit (is_main (s3fifo_queue (raised_flags 13))) ≡ to_bit (is_main (s3fifo_queue 13)))
    × (raised_flags 13 < 256)
increment_lem_example = increment_lem 13 (omega arith)

-- The residents 2 and 0; the slot 1 is free.
abbrev two : Clock
two = record {
  state = record { hand = 1; residents = 2 ∷ 0 ∷ []; capacity = 3 };
  slots = new_clock 70 false 1 ∷ default_slot ∷ new_clock 72 true 0 ∷ [];
}

two_positions : Positioned two.state.residents two.slots
two_positions zero r h =
    (new_clock 72 true 0, ap (get_elem? two.slots) (sym (some-injective _ _ h)), refl)
two_positions (suc zero) r h =
    (new_clock 70 false 1, ap (get_elem? two.slots) (sym (some-injective _ _ h)), refl)
two_positions (suc (suc p)) r h = cc

one_is_free : (p : ℕ) → get_elem? two.state.residents p ≢ some 1
one_is_free zero h = ground (arith, some-injective _ _ h)
one_is_free (suc zero) h = ground (arith, some-injective _ _ h)
one_is_free (suc (suc p)) h = cc

insert-Positioned_example :
    (c : Clock) × (insert two 1 71 false ≡ some c)
    × (c.state.residents ≡ 2 ∷ 0 ∷ 1 ∷ [])
    × (get_elem? c.slots 1 ≡ some (new_clock 71 false 2))
    × Positioned c.state.residents c.slots
insert-Positioned_example =
    insert-Positioned two 1 71 false two_positions one_is_free (omega arith) (omega arith)
      (omega arith) (omega arith)

remove-Positioned_example :
    (c : Clock) × (remove two 2 ≡ some c)
    × (length c.state.residents + 1 ≡ 2)
    × ((q : ℕ) → get_elem? c.state.residents q ≢ some 2)
    × Positioned c.state.residents c.slots
remove-Positioned_example = remove-Positioned two 2 0 two_positions refl

-- Three residents of the small queue; the first has been hit twice.
abbrev probation : Option S3Fifo
probation =
    push_on
      (record {
        links = default_link ∷ default_link ∷ default_link ∷ [];
        small = empty_queue;
        main = empty_queue;
        main_capacity_bytes = 90;
        slots =
            new_s3fifo 70 small_queue 2
            ∷ new_s3fifo 71 small_queue 0
            ∷ new_s3fifo 72 small_queue 0
            ∷ [];
      })
      small_queue 0 10
    >>= λ a. push_on a small_queue 1 20 >>= λ b. push_on b small_queue 2 30

abbrev outcome : Option Fifo.Scan → List (Option ℕ)
outcome none = []
outcome (some s) =
    s.victim
    ∷ front s.policy.main
    ∷ front s.policy.small
    ∷ some s.policy.small.bytes
    ∷ some s.remaining
    ∷ []

-- The first moves to the main queue, and the second is the victim, which stays in its queue.
probation_test :
    outcome (probation >>= λ s. Fifo.select_victim (λ i. true) s 10)
    ≡ some 1 ∷ some 0 ∷ some 1 ∷ some 50 ∷ some 8 ∷ []
unfolding Fifo.select_victim Fifo.scan push_back unlink
probation_test = refl

-- A detachment with another weight than the link's fails the debug assertion.
detach_test : (probation >>= λ s. Fifo.detach s 1 21) ≡ none
unfolding Fifo.detach push_back unlink
detach_test = refl
