-- ===== src/Metadata/Accepted.antt =====
-- What metadata that `validate` accepts promises: cache2/src/region/recovery/metadata.rs.
use cache.Base.{
  ℕ, zero, suc, ◌+◌, ◌*◌, ◌%◌, ◌≤◌, ◌<◌, ◌≡◌, sym, ◌∙◌, true, false, ◌&&◌, some, inl, inr,
  Bool-cases, leb→le, List, [], ◌∷◌, arith, leb, ◌==◌, ◌!=◌, get_elem?, length,
}
use mathlib.Core.Option.{some-injective}
use mathlib.Core.Path.{subst}
use mathlib.Core.Bool.{false≢true}
use cache.Index.Layout.{checked_mul}
use cache.Checked.{bind-inr, ensure-inr, ensured, needed-inr, then-inr}
use cache.Manager.State.{is_free}
use cache.Packed.Location.{max_region_id, max_region_offset}
use cache.Metadata.Data.{MetadataRoot, RegionRecord, Metadata}
use cache.Metadata.Validate.{
  both, sums_to, root_is_valid, validate_root_directory, Seen, validate_allocated, validate_region,
  validate_each, validate_regions, validate,
}

-- A Region's record keeps to its geometry, and to the sequence numbers that were given out.
pub record RegionAccepted (root : MetadataRoot) (r : RegionRecord) : Type 0 where
  pub fits : r.durable_used_offset ≤ root.region_size
  pub aligned : r.durable_used_offset % 32 ≡ 0
  pub created : r.created_seqno ≤ root.max_seqno
  pub unused :
      is_free r.state ≡ true
      → (r.created_seqno ≡ 0) × (r.durable_used_offset ≡ 0) × (r.physical_record_count ≡ 0)
  pub used :
      is_free r.state ≡ false
      → (0 < r.created_seqno) × (r.physical_record_count * 64 ≤ r.durable_used_offset)

pub record Accepted (m : Metadata) : Type 0 where
  pub whole_pages : m.root.region_size % 4096 ≡ 0
  pub size_fits : m.root.region_size ≤ max_region_offset + 32
  pub few_regions : m.root.region_count ≤ max_region_id + 1
  pub some_shards : 0 < m.root.shard_count
  pub spare_region : m.root.shard_count < m.root.region_count
  pub shards : m.root.active_region_count ≡ m.root.shard_count
  pub all_regions :
      m.root.free_region_count + m.root.active_region_count + m.root.sealed_region_count
      ≡ m.root.region_count
  pub counted : length m.regions ≡ m.root.region_count
  pub each_region :
      (i : ℕ) (r : RegionRecord) → get_elem? m.regions i ≡ some r → RegionAccepted m.root r

root_facts :
    (r : MetadataRoot)
    → root_is_valid r ≡ true
    → (r.region_size % 4096 ≡ 0)
      × (r.region_size ≤ max_region_offset + 32)
      × (r.region_count ≤ max_region_id + 1)
      × (0 < r.shard_count)
      × (r.shard_count < r.region_count)
      × (r.active_region_count ≡ r.shard_count)
      × (sums_to r.free_region_count r.active_region_count r.sealed_region_count r.region_count
          ≡ true)
unfolding root_is_valid
root_facts r h = (
  ground arith,
  ground arith,
  ground arith,
  ground arith,
  ground arith,
  ground arith,
  ground arith,
)

sums_to_value : (a b c n : ℕ) → sums_to a b c n ≡ true → a + b + c ≡ n
sums_to_value a b c n h = ground arith

unused_facts : (a b c : ℕ) → (a == 0 && b == 0 && c == 0) ≡ true → (a ≡ 0) × (b ≡ 0) × (c ≡ 0)
unused_facts a b c h = ground arith

geometry_facts :
    (used size : ℕ) → (leb used size && used % 32 == 0) ≡ true → (used ≤ size) × (used % 32 ≡ 0)
geometry_facts used size h = ground arith

used_facts :
    (seqno top used count : ℕ)
    → (seqno != 0 && leb seqno top && both (used == 0) (count == 0)) ≡ true
    → (0 < seqno) × (seqno ≤ top)
used_facts seqno top used count h = ground arith

mul_value : (a b c : ℕ) → checked_mul a b ≡ some c → c ≡ a * b
mul_value a b c h = ground arith

validate_region-Accepted :
    (root : MetadataRoot) (r : RegionRecord) (s s' : Seen)
    → validate_region root r s ≡ inr s'
    → RegionAccepted root r
unfolding validate_region validate_allocated
validate_region-Accepted root r s s' h =
    let (geometry, h1) = ensure-inr _ _ _ h in
    let (_, _, h2) = bind-inr _ _ h1 in
    let (content, _) = then-inr _ _ h2 in
    let (inside, whole) = geometry_facts _ _ geometry in
    elim (Bool-cases (is_free r.state)) [
      | inl unallocated ↦
          let (seqno, used, count) = unused_facts _ _ _ (ensured _ _ (rw unallocated at content)) in
          record {
            fits = inside;
            aligned = whole;
            created = omega (arith, seqno);
            unused = λ _. (seqno, used, count);
            used = λ allocated. absurd (false≢true (sym allocated ∙ unallocated));
          }
      | inr allocated ↦
          let (numbered, c1) = ensure-inr _ _ _ (rw allocated at content) in
          let (bytes, product, c2) = needed-inr _ _ _ c1 in
          let (positive, top) =
            used_facts r.created_seqno root.max_seqno r.durable_used_offset r.physical_record_count
              numbered in
          let room : bytes ≤ r.durable_used_offset = leb→le _ _ (ensured _ _ c2) in
          record {
            fits = inside;
            aligned = whole;
            created = top;
            unused = λ unallocated. absurd (false≢true (sym allocated ∙ unallocated));
            used = λ _.
                (positive, omega (arith, room, mul_value r.physical_record_count 64 bytes product));
          }
    ]

validate_each-Accepted :
    (root : MetadataRoot) (rs : List RegionRecord) (s s' : Seen)
    → validate_each root rs s ≡ inr s'
    → (i : ℕ) (r : RegionRecord) → get_elem? rs i ≡ some r
    → RegionAccepted root r
unfolding validate_each
validate_each-Accepted root [] s s' h i r at = cc
validate_each-Accepted root (x ∷ rs) s s' h zero r at =
    let (t, first, _) = bind-inr _ _ h in
    subst (RegionAccepted root) (some-injective _ _ at) (validate_region-Accepted root x s t first)
validate_each-Accepted root (x ∷ rs) s s' h (suc i) r at =
    let (t, _, rest) = bind-inr _ _ h in validate_each-Accepted root rs t s' rest i r at

-- Metadata that `validate` accepts: its Regions have whole pages and offsets that a record's place can
-- hold; it has at least one shard, more Regions than shards and as many Active Regions as shards; it has
-- as many Region records as the root counts, which is the sum of the Free, Active and Sealed ones. Each
-- Region's bytes lie in the Region, at a record's alignment, and its sequence number was given out; a
-- Free one has none of both and no records; any other has a positive sequence number, and at least 64
-- bytes for each record.
pub validate-Accepted : (m : Metadata) → validate m ≡ inr tt → Accepted m
unfolding validate validate_root_directory validate_regions
validate-Accepted m h =
    let (layout, _, h1) = bind-inr _ _ h in
    let (root, h2) = then-inr _ _ h1 in
    let (counted, h3) = ensure-inr _ _ _ h2 in
    let (_, h4) = ensure-inr _ _ _ h3 in
    let (regions, _) = then-inr _ _ h4 in
    let (_, r1) = ensure-inr _ _ _ root in
    let (_, _, r2) = bind-inr _ _ r1 in
    let (valid, _) = ensure-inr _ _ _ r2 in
    let (pages, size, few, some_shards, spare, shards, sum) = root_facts m.root valid in
    let (seen, each, _) = bind-inr _ _ regions in
    record {
      whole_pages = pages;
      size_fits = size;
      few_regions = few;
      some_shards = some_shards;
      spare_region = spare;
      shards = shards;
      all_regions = sums_to_value _ _ _ _ sum;
      counted = ground (arith, counted);
      each_region = validate_each-Accepted m.root m.regions _ seen each;
    }
