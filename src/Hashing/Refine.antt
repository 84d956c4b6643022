-- ===== src/Hashing/Refine.antt =====
-- The directory as a finite map from fingerprints to values: cache2/src/hashing.rs.
use mathlib.Core.Path.{subst}
use mathlib.Core.Option.{some-injective, none-ne-some}
use mathlib.Core.Bool.{false≢true}
use cache.Base.{
  ℕ, zero, suc, ◌*◌, ◌<◌, ◌^◌, ◌≡◌, ◌≢◌, ◌↔◌, inl, inr, refl, sym, ap, ◌∙◌, false, Bool-cases,
  Option-cases, Option, none, some, List, arith, ltb, ◌==◌, ==_iff, if◌then◌else◌, length,
  length-set, replicate,
}
use cache.Hashing.Map.{
  deleted_value, Slot, empty_slot, PrehashedMap, try_new, slot_at, fixed_map_fingerprint, search,
  get, find_upsert_slot, upsert_from, insert, with_entry, remove,
}
use cache.Hashing.Probe.{is_live, IsValidFor, IsValid, Holds, search-finds, search-entry}
use cache.Hashing.Insert.{
  Found, upsert_from-Found, with_entry-IsValid, holds_written, holds_other, holds_before,
}
use cache.Hashing.Remove.{compacted, deleted_holds}

-- An abstract directory.
abbrev pub Directory : Type 0
Directory = ℕ → Option ℕ

abbrev pub written : Directory → ℕ → ℕ → Directory
written d f v g = if g == f then some v else d g

abbrev pub erased : Directory → ℕ → Directory
erased d f g = if g == f then none else d g

-- The map's slots are valid, and `get` reads the directory at the hash's fingerprint.
abbrev pub Represents : PrehashedMap → Directory → Type 0
Represents m d = IsValid m.slots × ((f v : ℕ) → (d f ≡ some v) ↔ Holds m.slots f v)

same_reads : (a b : Option ℕ) → ((v : ℕ) → (a ≡ some v) ↔ (b ≡ some v)) → a ≡ b
same_reads none none h = refl
same_reads none (some b) h = (h b).1 refl
same_reads (some a) b h = sym ((h a).0 refl)

get_found :
    (m : PrehashedMap) (hash i : ℕ)
    → search m.slots (fixed_map_fingerprint hash) ≡ some i
    → get m hash ≡ some (slot_at m.slots i).value
unfolding get
get_found m hash i e = rw (e, get) refl

get_missed :
    (m : PrehashedMap) (hash : ℕ)
    → search m.slots (fixed_map_fingerprint hash) ≡ none
    → get m hash ≡ none
unfolding get
get_missed m hash e = rw (e, get) refl

get_iff :
    (m : PrehashedMap) (hash v : ℕ)
    → IsValid m.slots
    → (get m hash ≡ some v) ↔ Holds m.slots (fixed_map_fingerprint hash) v
get_iff m hash v valid = (
  λ h. elim (Option-cases (search m.slots (fixed_map_fingerprint hash))) [
    | inl e ↦ absurd (none-ne-some _ (sym (get_missed m hash e) ∙ h))
    | inr (i, e) ↦ (
      i,
      search-entry m.slots (fixed_map_fingerprint hash) i e,
      some-injective _ _ (sym (get_found m hash i e) ∙ h),
    )
  ],
  λ (i, entry, val).
      get_found m hash i (search-finds m.slots valid (fixed_map_fingerprint hash) i entry)
      ∙ ap some val,
)

-- `get` reads the represented directory at the fingerprint of the hash.
pub get-Represents :
    (m : PrehashedMap) (d : Directory) (hash : ℕ)
    → Represents m d
    → get m hash ≡ d (fixed_map_fingerprint hash)
get-Represents m d hash (valid, reads) = same_reads _ _ (λ v. (
  λ h. (reads (fixed_map_fingerprint hash) v).1 ((get_iff m hash v valid).0 h),
  λ h. (get_iff m hash v valid).1 ((reads (fixed_map_fingerprint hash) v).0 h),
))

blank_dead : (n i : ℕ) → is_live (slot_at (replicate n empty_slot) i) ≡ false
blank_dead zero i = refl
blank_dead (suc n) zero = refl
blank_dead (suc n) (suc i) = blank_dead n i

made_facts :
    (n : ℕ) (m : PrehashedMap)
    → (if ltb n (2 ^ 64) then some (record { slots = replicate n empty_slot }) else none) ≡ some m
    → record { slots = replicate n empty_slot } ≡ m
made_facts n m h = elim (Bool-cases (ltb n (2 ^ 64))) [
  | inl small ↦ some-injective _ _ (rw small at h)
  | inr large ↦ absurd (none-ne-some _ (rw large at h))
]

-- A new map represents the directory without entries.
pub try_new-Represents :
    (maximum_entries : ℕ) (m : PrehashedMap)
    → try_new maximum_entries ≡ some m
    → Represents m (λ f. none)
unfolding try_new
try_new-Represents maximum_entries m h =
    let made : ◌≡◌ {A = PrehashedMap} _ m = made_facts (maximum_entries * 2) m h in
    subst (λ k. Represents k (λ f. none)) made
      (
        record {
          near = λ i lt live. absurd (false≢true (sym (blank_dead (maximum_entries * 2) i) ∙ live));
          way = λ i p lt lp live before.
              absurd (false≢true (sym (blank_dead (maximum_entries * 2) i) ∙ live));
          single = λ i j li lj live_i live_j same.
              absurd (false≢true (sym (blank_dead (maximum_entries * 2) i) ∙ live_i));
        },
        λ f v. (
          λ h. cc,
          λ (i, (lt, live, is), val).
              absurd (false≢true (sym (blank_dead (maximum_entries * 2) i) ∙ live)),
        ),
      )

insert_found :
    (m m' : PrehashedMap) (hash value : ℕ) (previous : Option ℕ)
    → insert m hash value ≡ some (previous, m')
    → (i : ℕ) × (find_upsert_slot m hash ≡ some (i, previous))
      × (m'.slots ≡ with_entry m.slots i (fixed_map_fingerprint hash) value)
unfolding insert
insert_found m m' hash value previous h = elim (Option-cases (find_upsert_slot m hash)) [
  | inl missed ↦ absurd (none-ne-some _ (rw (missed, insert) at h))
  | inr ((i, old), found) ↦
      let is : ◌≡◌ {A = Option ℕ × PrehashedMap}
          (old, record { slots = with_entry m.slots i (fixed_map_fingerprint hash) value })
          (previous, m') =
        some-injective _ _ (rw (found, insert) at h) in
      (
        i,
        found ∙ ap (λ (k : Option ℕ). some (i, k)) (ap (λ (r : Option ℕ × PrehashedMap). r.0) is),
        sym (ap (λ (r : Option ℕ × PrehashedMap). r.1.slots) is),
      )
]

-- An empty list of slots takes no entry.
upsert_room :
    (slots : List Slot) (f start left i : ℕ) (deleted previous : Option ℕ)
    → deleted ≡ none
    → left ≡ 0
    → upsert_from slots f start deleted left 0 ≡ some (i, previous)
    → ⊥
unfolding upsert_from
upsert_room slots f start zero i deleted previous e z h = absurd (none-ne-some _ (rw (e) at h))
upsert_room slots f start (suc left) i deleted previous e z h = omega (arith, z)

upsert_result :
    (m : PrehashedMap) (hash i : ℕ) (previous : Option ℕ)
    → IsValid m.slots
    → find_upsert_slot m hash ≡ some (i, previous)
    → Found m.slots (fixed_map_fingerprint hash) i previous
unfolding find_upsert_slot
upsert_result m hash i previous valid h = elim (Bool-cases (ltb 0 (length m.slots))) [
  | inl more ↦
      let inside : 0 < length m.slots = ground (arith, more) in
      upsert_from-Found m.slots valid (fixed_map_fingerprint hash) inside _ 0 i none previous
        (record { full = λ p lp before. absurd (omega arith); hole = λ d e. cc }) (omega arith) h
  | inr few ↦ absurd (
      upsert_room m.slots (fixed_map_fingerprint hash) _ _ i none previous refl
        (ground (arith, few)) h)
]

-- `insert`, where it inserts, gives what the directory had for the fingerprint, and writes the value.
pub insert-Represents :
    (m m' : PrehashedMap) (d : Directory) (hash value : ℕ) (previous : Option ℕ)
    → Represents m d
    → value < deleted_value
    → insert m hash value ≡ some (previous, m')
    → (previous ≡ d (fixed_map_fingerprint hash))
      × Represents m' (written d (fixed_map_fingerprint hash) value)
insert-Represents m m' d hash value previous (valid, reads) small h =
    let f : ℕ = fixed_map_fingerprint hash in
    let (i, found, slots) = insert_found m m' hash value previous h in
    let r : Found m.slots f i previous = upsert_result m hash i previous valid found in
    let new : List Slot = with_entry m.slots i f value in
    let good : IsValid new =
      subst (λ k. IsValidFor k new) (sym (length-set m.slots i _))
        (with_entry-IsValid m.slots valid f i value r.fitting small) in
    (
      elim (Option-cases previous) [
        | inl nothing ↦ elim (Option-cases (d f)) [
          | inl none_there ↦ nothing ∙ sym none_there
          | inr (v, there) ↦
              (let (j, entry, val) = (reads f v).0 there in absurd (r.had_not nothing j entry))
        ]
        | inr (v, old) ↦ old ∙ sym ((reads f v).1 (r.had v old))
      ],
      (
        subst IsValid (sym slots) good,
        λ g v. elim (Bool-cases (g == f)) [
          | inl same ↦
              let is : g ≡ f = (==_iff _ _).0 same in
              let (at, (li, live_i, is_i), val_i) =
                holds_written m.slots valid f i value r.fitting small in
              rw (same, slots)
                (
                  λ e. (at, (li, live_i, is_i ∙ sym is), val_i ∙ some-injective _ _ e),
                  λ (j, (lj, live, has), val).
                      let here : at ≡ j =
                        good.single at j li lj live_i live (is_i ∙ sym is ∙ sym has) in
                      ap some (sym val_i ∙ ap (λ k. (slot_at new k).value) here ∙ val),
                )
          | inr other ↦
              let ne : g ≢ f = ground (arith, other) in
              rw (other, slots)
                (
                  λ e. holds_other m.slots valid f i value r.fitting small g v ne ((reads g v).0 e),
                  λ e.
                      (reads g v).1 (holds_before m.slots valid f i value r.fitting small g v ne e),
                )
        ],
      ),
    )

-- `remove` gives what the directory has for the fingerprint, and erases it.
pub remove-Represents :
    (m : PrehashedMap) (d : Directory) (hash : ℕ)
    → Represents m d
    → ((remove m hash).0 ≡ d (fixed_map_fingerprint hash))
      × Represents (remove m hash).1 (erased d (fixed_map_fingerprint hash))
unfolding remove
remove-Represents m d hash (valid, reads) =
    let f : ℕ = fixed_map_fingerprint hash in
    elim (Option-cases (search m.slots f)) [
      | inl missed ↦
          let nothing : (v : ℕ) → Holds m.slots f v → ⊥ = λ v (i, entry, val).
            none-ne-some _ (sym missed ∙ search-finds m.slots valid f i entry) in
          let none_there : d f ≡ none =
            same_reads _ _ (λ v. (λ e. absurd (nothing v ((reads f v).0 e)), λ e. cc)) in
          rw (missed, remove)
            (
              sym none_there,
              (
                valid,
                λ g v. elim (Bool-cases (g == f)) [
                  | inl same ↦
                      rw same (λ e. cc, λ e. absurd (nothing v (rw ((==_iff _ _).0 same) at e)))
                  | inr other ↦ rw other (reads g v)
                ],
              ),
            )
      | inr (i, found) ↦
          let (lt, live, is) = search-entry m.slots f i found in
          let (good, kept) = compacted m.slots valid i lt in
          rw (found, remove)
            (
              sym ((reads f (slot_at m.slots i).value).1 (i, (lt, live, is), refl)),
              (
                good,
                λ g v. elim (Bool-cases (g == f)) [
                  | inl same ↦ rw same (
                    λ e. cc,
                    λ e. absurd (
                        ((deleted_holds m.slots valid i lt live g v).0 ((kept.kept g v).1 e)).1
                          ((==_iff _ _).0 same ∙ sym is)),
                  )
                  | inr other ↦ rw other (
                    λ e. (kept.kept g v).0 (
                        (deleted_holds m.slots valid i lt live g v).1
                          ((reads g v).0 e, λ k. ground (arith, other, k, is))),
                    λ e.
                        (reads g v).1
                          ((deleted_holds m.slots valid i lt live g v).0 ((kept.kept g v).1 e)).0,
                  )
                ],
              ),
            )
    ]
