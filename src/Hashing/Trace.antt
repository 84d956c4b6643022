-- ===== src/Hashing/Trace.antt =====
-- Runs of operations on the directory, and what a refusal means: cache2/src/hashing.rs.
use mathlib.Core.Option.{none-ne-some}
use mathlib.Core.Path.{subst}
use cache.Base.{
  ℕ, zero, suc, ◌+◌, ◌≤◌, ◌<◌, min, ◌≡◌, ◌≢◌, inl, inr, refl, sym, true, false, Bool-cases,
  Option-cases, Option, none, some, List, [], ◌∷◌, arith, ◌==◌, length,
}
use cache.Hashing.Map.{
  deleted_value, max_probes, PrehashedMap, Slot, try_new, slot_at, home, probe_index,
  fixed_map_fingerprint, get, insert, remove, find_upsert_slot, upsert_from, is_empty, is_deleted,
  is_match,
}
use cache.Hashing.Probe.{is_live}
use cache.Hashing.Refine.{
  Directory, written, erased, Represents, get-Represents, try_new-Represents, insert-Represents,
  remove-Represents,
}

pub data Operation : Type 0 where
  getting : ℕ → Operation
  inserting : ℕ → ℕ → Operation
  removing : ℕ → Operation

-- What an operation gives: none where an insertion was refused.
abbrev pub inserted :
    PrehashedMap → Option (Option ℕ × PrehashedMap) → Option (Option ℕ) × PrehashedMap
inserted m none = (none, m)
inserted m (some (previous, m')) = (some previous, m')

unfoldable pub perform : PrehashedMap → Operation → Option (Option ℕ) × PrehashedMap
perform m (getting hash) = (some (get m hash), m)
perform m (inserting hash value) = inserted m (insert m hash value)
perform m (removing hash) = (some (remove m hash).0, (remove m hash).1)

unfoldable pub perform_all : PrehashedMap → List Operation → List (Option (Option ℕ))
perform_all m [] = []
perform_all m (o ∷ rest) = (perform m o).0 ∷ perform_all (perform m o).1 rest

-- What a directory may answer: it reads, erases and writes at the fingerprint of the hash, and an
-- insertion may be refused.
pub data Answers : Directory → List Operation → List (Option (Option ℕ)) → Type 0 where
  done : {d : Directory} → Answers d [] []
  reads :
      {d : Directory} {hash : ℕ} {rest : List Operation} {answers : List (Option (Option ℕ))}
      → Answers d rest answers
      → Answers d (getting hash ∷ rest) (some (d (fixed_map_fingerprint hash)) ∷ answers)
  writes :
      {d : Directory} {hash value : ℕ} {rest : List Operation} {answers : List (Option (Option ℕ))}
      → Answers (written d (fixed_map_fingerprint hash) value) rest answers
      → Answers d (inserting hash value ∷ rest) (some (d (fixed_map_fingerprint hash)) ∷ answers)
  refuses :
      {d : Directory} {hash value : ℕ} {rest : List Operation} {answers : List (Option (Option ℕ))}
      → Answers d rest answers
      → Answers d (inserting hash value ∷ rest) (none ∷ answers)
  erases :
      {d : Directory} {hash : ℕ} {rest : List Operation} {answers : List (Option (Option ℕ))}
      → Answers (erased d (fixed_map_fingerprint hash)) rest answers
      → Answers d (removing hash ∷ rest) (some (d (fixed_map_fingerprint hash)) ∷ answers)

-- The values that are inserted are no marks of unused slots.
abbrev pub Proper : List Operation → Type 0
Proper [] = Unit {0}
Proper (getting hash ∷ rest) = Proper rest
Proper (inserting hash value ∷ rest) = (value < deleted_value) × Proper rest
Proper (removing hash ∷ rest) = Proper rest

perform_all-Answers :
    (ops : List Operation) (m : PrehashedMap) (d : Directory)
    → Represents m d
    → Proper ops
    → Answers d ops (perform_all m ops)
unfolding perform_all perform
perform_all-Answers [] m d r p = done
perform_all-Answers (getting hash ∷ rest) m d r p =
    subst (λ k. Answers d (getting hash ∷ rest) (some k ∷ perform_all m rest))
      (sym (get-Represents m d hash r)) (reads (perform_all-Answers rest m d r p))
perform_all-Answers (inserting hash value ∷ rest) m d r (small, p) =
    elim (Option-cases (insert m hash value)) [
      | inl missed ↦ rw missed (refuses (perform_all-Answers rest m d r p))
      | inr ((previous, m'), found) ↦
          let (old, r') = insert-Represents m m' d hash value previous r small found in
          rw found (
            subst (λ k. Answers d (inserting hash value ∷ rest) (some k ∷ perform_all m' rest))
              (sym old) (writes (perform_all-Answers rest m' _ r' p)))
    ]
perform_all-Answers (removing hash ∷ rest) m d r p =
    let (old, r') = remove-Represents m d hash r in
    subst (λ k. Answers d (removing hash ∷ rest) (some k ∷ perform_all (remove m hash).1 rest))
      (sym old) (erases (perform_all-Answers rest (remove m hash).1 _ r' p))

-- A new map answers every sequence of `get`, `insert` and `remove`, where the inserted values are below
-- `DELETED_VALUE`, as a directory from fingerprints to values does, which may refuse an insertion.
pub try_new-Answers :
    (maximum_entries : ℕ) (m : PrehashedMap) (ops : List Operation)
    → try_new maximum_entries ≡ some m
    → Proper ops
    → Answers (λ f. none) ops (perform_all m ops)
try_new-Answers maximum_entries m ops made proper =
    perform_all-Answers ops m _ (try_new-Represents maximum_entries m made) proper

-- Another entry's slot.
abbrev pub Taken : List Slot → ℕ → ℕ → Type 0
Taken slots f i = (is_live (slot_at slots i) ≡ true) × ((slot_at slots i).fingerprint ≢ f)

live-Taken :
    (slots : List Slot) (f i : ℕ)
    → is_empty (slot_at slots i) ≡ false
    → is_match f (slot_at slots i) ≡ false
    → is_deleted (slot_at slots i) ≡ false
    → Taken slots f i
live-Taken slots f i full other used =
    (ground (arith, full, used), λ e. ground (arith, other, used, e))

upsert_refused :
    (slots : List Slot) (f start left step : ℕ) (deleted : Option ℕ)
    → upsert_from slots f start deleted left step ≡ none
    → (deleted ≡ none)
      × ((k : ℕ) → step ≤ k → k < step + left → Taken slots f (probe_index start k (length slots)))
unfolding upsert_from
upsert_refused slots f start zero step none h = (refl, λ k low high. absurd (omega arith))
upsert_refused slots f start zero step (some d) h = absurd (none-ne-some _ (sym h))
upsert_refused slots f start (suc left) step deleted h =
    let index : ℕ = probe_index start step (length slots) in
    elim (Bool-cases (is_empty (slot_at slots index))) [
      | inl empty ↦ absurd (none-ne-some _ (sym (rw empty at h)))
      | inr full ↦ elim (Bool-cases (is_match f (slot_at slots index))) [
        | inl here ↦ absurd (none-ne-some _ (sym (rw (full, here) at h)))
        | inr other ↦
            let (seen, later) =
              upsert_refused slots f start left (step + 1) _ (rw (full, other) at h) in
            elim (Bool-cases (is_deleted (slot_at slots index))) [
              | inl gone ↦ absurd (none-ne-some _ (sym (rw gone at seen)))
              | inr used ↦ (
                rw used at seen,
                λ k low high. elim (Bool-cases (k == step)) [
                  | inl now ↦
                      subst (λ j. Taken slots f (probe_index start j (length slots)))
                        (ground (arith, now)) (live-Taken slots f index full other used)
                  | inr after ↦ later k (ground (arith, after, low)) (omega (arith, high))
                ],
              )
            ]
      ]
    ]

-- An insertion is refused only where each of the probed slots, the first 64 at most, has an entry for
-- another fingerprint.
pub insert_refused :
    (m : PrehashedMap) (hash value k : ℕ)
    → insert m hash value ≡ none
    → k < min (length m.slots) max_probes
    → Taken m.slots
        (fixed_map_fingerprint hash)
        (probe_index (home (fixed_map_fingerprint hash) (length m.slots)) k (length m.slots))
unfolding insert find_upsert_slot
insert_refused m hash value k h low = elim (Option-cases (find_upsert_slot m hash)) [
  | inl missed ↦
      (upsert_refused m.slots (fixed_map_fingerprint hash) _ _ 0 none missed).1 k (omega arith)
        (omega (arith, low))
  | inr (found, e) ↦ absurd (none-ne-some _ (sym (rw (e, insert) at h)))
]
