-- ===== src/Fill/Credit.antt =====
-- The credit word of the flush budget: cache2/src/io/fill_control.rs. Times are nanoseconds since the
-- controller's origin, below 2 ^ 64.
use Prim.Native.Nat.{bit_and, bit_or}
use mathlib.Core.Option.{some-injective, none-ne-some}
use mathlib.Core.Path.{subst}
use cache.Base.{
  ℕ, ◌+◌, ◌-◌, ◌*◌, ◌/◌, ◌%◌, ◌^◌, ◌≤◌, ◌<◌, min, max, ◌≡◌, ap, ◌∙◌, Bool, true, false, not, ◌&&◌,
  ◌||◌, Bool-cases, inl, inr, Option, none, some, arith, ltb, leb, ◌==◌, if◌then◌else◌,
}
use cache.Bits.{◌>>>◌, ◌<<<◌, bit_and-mask, bit_or-shifted}
use cache.Packed.SizeClass.{div_ceil}

abbrev pub credit_unit : ℕ
credit_unit = 64

-- `FlushCharge`, which is also what a refill adds.
pub record Charge : Type 0 where
  pub records : ℕ
  pub byte_units : ℕ

unfoldable pub packed_records : ℕ → ℕ
packed_records value = value >>> 32

unfoldable pub packed_byte_units : ℕ → ℕ
packed_byte_units value = bit_and value (2 ^ 32 - 1)

-- The records have 32 bits, so that none is lost. The source writes the operands of `|` in the other order.
unfoldable pub pack_credit : ℕ → ℕ → ℕ
pack_credit records byte_units = bit_or byte_units (records <<< 32)

-- `FillLimits`
pub record Limits : Type 0 where
  pub max_bytes_per_second : ℕ
  pub max_records_per_second : ℕ

abbrev pub saturating_mul : ℕ → ℕ → ℕ
saturating_mul a b = min (a * b) (2 ^ 64 - 1)

-- What `FillController::new` computes from the limits: the burst, or none where it refuses them.
unfoldable pub burst : Limits → ℕ → Option Charge
burst limits max_flush_bytes =
    let byte_units : ℕ =
      div_ceil (max (limits.max_bytes_per_second / 10) max_flush_bytes) credit_unit in
    if leb 640 limits.max_bytes_per_second
      && leb limits.max_bytes_per_second (2 ^ 40)
      && leb 10 limits.max_records_per_second
      && leb limits.max_records_per_second (2 ^ 32 - 1)
      && leb byte_units (2 ^ 32 - 1)
    then some
        (record { records = max (limits.max_records_per_second / 10) 1; byte_units = byte_units })
    else none

-- What a flush asks for.
pub record Demand : Type 0 where
  pub byte_units : ℕ
  pub records : ℕ
  pub byte_oversized : Bool
  pub record_oversized : Bool

unfoldable pub demand_of : Charge → ℕ → ℕ → Demand
demand_of limit bytes records = record {
  byte_units = min (max (div_ceil bytes credit_unit) 1) limit.byte_units;
  records = min (max records 1) limit.records;
  byte_oversized = leb limit.byte_units (max (div_ceil bytes credit_unit) 1);
  record_oversized = leb limit.records (max records 1);
}

abbrev pub take : Bool → ℕ → ℕ → ℕ
take oversized have wanted = if oversized then have else wanted

-- A round of the loop of `try_acquire_flush_budget` up to its exchange, with the credit that it has
-- read: the charge and the next credit, or none where it gives up.
unfoldable pub attempt : Demand → ℕ → Option (Charge × ℕ)
attempt d value =
    let have_byte_units : ℕ = packed_byte_units value in
    let have_records : ℕ = packed_records value in
    if have_byte_units == 0 || have_records == 0
    then none
    else if not d.byte_oversized && ltb have_byte_units d.byte_units
    then none
    else if not d.record_oversized && ltb have_records d.records
    then none
    else some (
      record {
        records = take d.record_oversized have_records d.records;
        byte_units = take d.byte_oversized have_byte_units d.byte_units;
      },
      pack_credit (have_records - take d.record_oversized have_records d.records)
          (have_byte_units - take d.byte_oversized have_byte_units d.byte_units),
    )

-- The next credit in a round of `add_credit`.
unfoldable pub add_credit : Charge → Charge → ℕ → ℕ
add_credit limit c value =
    pack_credit (min (packed_records value + c.records) limit.records)
      (min (packed_byte_units value + c.byte_units) limit.byte_units)

-- What `refill` adds at the time `now`, where the last refill was at `last`.
unfoldable pub refill_amount : Limits → ℕ → ℕ → Option Charge
refill_amount limits now last =
    let byte_units : ℕ =
      saturating_mul limits.max_bytes_per_second (now - last) / 1000000000 / credit_unit in
    let records : ℕ = saturating_mul limits.max_records_per_second (now - last) / 1000000000 in
    if leb now last || (byte_units == 0 && records == 0)
    then none
    else some (record { records = records; byte_units = byte_units })

-- Packing and unpacking.
pub packed_byte_units-pack : (r u : ℕ) → u < 2 ^ 32 → packed_byte_units (pack_credit r u) ≡ u
unfolding packed_byte_units pack_credit
packed_byte_units-pack r u h =
    bit_and-mask 32 (bit_or u (r <<< 32))
    ∙ ap (λ v. v % 2 ^ 32) (bit_or-shifted 32 u r h)
    ∙ omega (arith, h)

pub packed_records-pack : (r u : ℕ) → u < 2 ^ 32 → packed_records (pack_credit r u) ≡ r
unfolding packed_records pack_credit
packed_records-pack r u h = ap (λ v. v / 2 ^ 32) (bit_or-shifted 32 u r h) ∙ omega (arith, h)

-- What is taken is there.
take_fits :
    (oversized : Bool) (have wanted : ℕ)
    → (not oversized && ltb have wanted) ≡ false
    → take oversized have wanted ≤ have
take_fits true have wanted h = omega arith
take_fits false have wanted h = ground (arith, h)

taken_rest :
    (r u tr tu value next : ℕ) (c : Charge)
    → tr ≤ r
    → tu ≤ u
    → u < 2 ^ 32
    → ◌≡◌ {A = Charge × ℕ}
        (record { records = tr; byte_units = tu }, pack_credit (r - tr) (u - tu))
        (c, next)
    → (packed_records next + c.records ≡ r) × (packed_byte_units next + c.byte_units ≡ u)
taken_rest r u tr tu value next c hr hu small h =
    subst
      (λ (k : Charge × ℕ).
        (packed_records k.1 + k.0.records ≡ r) × (packed_byte_units k.1 + k.0.byte_units ≡ u))
      h
      (
        omega (arith, hr, packed_records-pack (r - tr) (u - tu) (omega (arith, small))),
        omega (arith, hu, packed_byte_units-pack (r - tr) (u - tu) (omega (arith, small))),
      )

-- An attempt that charges leaves the rest of the credit.
pub attempt-rest :
    (d : Demand) (value next : ℕ) (c : Charge)
    → packed_byte_units value < 2 ^ 32
    → attempt d value ≡ some (c, next)
    → (packed_records next + c.records ≡ packed_records value)
      × (packed_byte_units next + c.byte_units ≡ packed_byte_units value)
unfolding attempt
attempt-rest d value next c small h =
    elim (Bool-cases (packed_byte_units value == 0 || packed_records value == 0)) [
      | inl empty ↦ absurd (none-ne-some _ (rw empty at h))
      | inr more ↦
          elim (Bool-cases (not d.byte_oversized && ltb (packed_byte_units value) d.byte_units)) [
            | inl few ↦ absurd (none-ne-some _ (rw (more, few) at h))
            | inr bytes ↦
                elim (Bool-cases (not d.record_oversized && ltb (packed_records value) d.records)) [
                  | inl few ↦ absurd (none-ne-some _ (rw (more, bytes, few) at h))
                  | inr records ↦
                      taken_rest (packed_records value) (packed_byte_units value) _ _ value next c
                        (take_fits d.record_oversized _ _ records)
                        (take_fits d.byte_oversized _ _ bytes) small
                        (some-injective _ _ (rw (more, bytes, records) at h))
                ]
          ]
    ]

-- The credit that is added, up to the limit.
pub add_credit-limit :
    (limit c : Charge) (value : ℕ)
    → limit.byte_units < 2 ^ 32
    → (packed_records (add_credit limit c value)
        ≡ min (packed_records value + c.records) limit.records)
      × (packed_byte_units (add_credit limit c value)
          ≡ min (packed_byte_units value + c.byte_units) limit.byte_units)
unfolding add_credit
add_credit-limit limit c value small = (
  packed_records-pack _ _ (omega (arith, small)),
  packed_byte_units-pack _ _ (omega (arith, small)),
)

or_later : (now last : ℕ) (b : Bool) → (leb now last || b) ≡ false → last < now
or_later now last b h = ground (arith, h)

records_paced : (a b : ℕ) → saturating_mul a b / 1000000000 * 1000000000 ≤ a * b
records_paced a b = omega arith

units_paced : (a b : ℕ) → saturating_mul a b / 1000000000 / credit_unit * 64 * 1000000000 ≤ a * b
units_paced a b = omega arith

-- A refill adds no more than the limits give for the time since the last one, and time has passed.
pub refill_amount-paced :
    (limits : Limits) (now last : ℕ) (c : Charge)
    → refill_amount limits now last ≡ some c
    → (last < now)
      × (c.records * 1000000000 ≤ limits.max_records_per_second * (now - last))
      × (c.byte_units * 64 * 1000000000 ≤ limits.max_bytes_per_second * (now - last))
unfolding refill_amount
refill_amount-paced limits now last c h =
    let byte_units : ℕ =
      saturating_mul limits.max_bytes_per_second (now - last) / 1000000000 / credit_unit in
    let records : ℕ = saturating_mul limits.max_records_per_second (now - last) / 1000000000 in
    elim (Bool-cases (leb now last || (byte_units == 0 && records == 0))) [
      | inl nothing ↦ absurd (none-ne-some _ (rw nothing at h))
      | inr some_time ↦
          let is : ◌≡◌ {A = Charge} (record { records = records; byte_units = byte_units }) c =
            some-injective _ _ (rw some_time at h) in
          let later : last < now = or_later now last _ some_time in
          subst
            (λ (k : Charge).
              (last < now)
              × (k.records * 1000000000 ≤ limits.max_records_per_second * (now - last))
              × (k.byte_units * 64 * 1000000000 ≤ limits.max_bytes_per_second * (now - last)))
            is
            (
              later,
              records_paced limits.max_records_per_second (now - last),
              units_paced limits.max_bytes_per_second (now - last),
            )
    ]
