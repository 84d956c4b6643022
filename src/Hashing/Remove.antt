-- ===== src/Hashing/Remove.antt =====
-- The loop of `compact_deleted`, and the entry that `remove` deletes: cache2/src/hashing.rs.
use mathlib.Core.Bool.{false≢true}
use mathlib.Core.Path.{subst}
use cache.Base.{
  ℕ, zero, suc, ◌≤◌, ◌<◌, ◌≡◌, ◌≢◌, ◌↔◌, inl, inr, refl, sym, ap, ◌∙◌, true, false, Bool-cases,
  List, arith, ◌==◌, ==_iff, set, length, length-set,
}
use cache.Hashing.Map.{
  deleted_value, Slot, empty_slot, slot_at, next_probe_index, probe_distance, is_empty, is_deleted,
  with_deleted, fills, moved, compact_from, compact_deleted,
}
use cache.Hashing.Circle.{distance_self, distance_injective, next_lt, distance_next}
use cache.Hashing.Probe.{
  is_live, home_of, IsValidFor, IsValid, Holds, slot_at-set, slot_at-set_cases,
}
use cache.Hashing.Compact.{
  Same, refl-Same, trans-Same, Clear, nothing_crosses, emptied-IsValid, emptied-Same,
  shifted-IsValid, shifted-Same, shifted_dead, live_facts,
}

-- Between a slot and the next one nothing stands but what is in the slot.
next-Clear :
    (n : ℕ) (slots : List Slot) (size : length slots ≡ n) (v : IsValidFor n slots) (c : ℕ)
    → c < n
    → is_deleted (slot_at slots c) ≡ true
    → Clear n slots size v c (next_probe_index c n)
next-Clear n slots size v c lc dead i lt live before crosses =
    let here : probe_distance c i n ≡ probe_distance c c n =
      omega (arith, before, distance_next c c lc lc, distance_self n c) in
    let same : i ≡ c = distance_injective c i c lc lt lc here in
    false≢true (
      sym (live_facts (slot_at slots i) live).1
      ∙ ap (λ k. is_deleted (slot_at slots k)) same
      ∙ dead)

-- The candidate stays where it is.
later-Clear :
    (n : ℕ) (slots : List Slot) (size : length slots ≡ n) (v : IsValidFor n slots) (hole c : ℕ)
    → hole < n
    → c < n
    → Clear n slots size v hole c
    → (is_live (slot_at slots c) ≡ true
        → probe_distance (home_of n slots c) c n ≤ probe_distance (home_of n slots c) hole n)
    → Clear n slots size v hole (next_probe_index c n)
later-Clear n slots size v hole c lh lc clear stays i lt live before crosses =
    elim (Bool-cases (probe_distance hole i n == probe_distance hole c n)) [
      | inl at ↦
          let same : i ≡ c = distance_injective hole i c lh lt lc ((==_iff _ _).0 at) in
          let low : probe_distance (home_of n slots i) i n
              ≤ probe_distance (home_of n slots i) hole n =
            rw same (stays (rw same at live)) in
          omega (arith, low, crosses)
      | inr other ↦
          clear i lt live (ground (arith, other, before, distance_next hole c lh lc)) crosses
    ]

fills_facts :
    (slots : List Slot) (hole cursor : ℕ)
    → fills slots hole cursor ≡ true
    → (is_deleted (slot_at slots cursor) ≡ false)
      × (probe_distance (home_of (length slots) slots cursor) hole (length slots)
          < probe_distance (home_of (length slots) slots cursor) cursor (length slots))
fills_facts slots hole cursor h = (ground arith, ground arith)

stays_facts :
    (slots : List Slot) (hole cursor : ℕ)
    → fills slots hole cursor ≡ false
    → is_live (slot_at slots cursor) ≡ true
    → probe_distance (home_of (length slots) slots cursor) cursor (length slots)
      ≤ probe_distance (home_of (length slots) slots cursor) hole (length slots)
stays_facts slots hole cursor h live =
    let used : is_deleted (slot_at slots cursor) ≡ false =
      (live_facts (slot_at slots cursor) live).1 in
    ground (arith, h, used)

compact_from-Same :
    (left : ℕ) (slots : List Slot) (hole cursor : ℕ) (v : IsValid slots)
    → hole < length slots
    → is_deleted (slot_at slots hole) ≡ true
    → cursor < length slots
    → Clear (length slots) slots refl v hole cursor
    → IsValid (compact_from slots hole cursor left)
      × Same slots (compact_from slots hole cursor left)
unfolding compact_from
compact_from-Same zero slots hole cursor v lh dead lc clear = (v, refl-Same slots)
compact_from-Same (suc left) slots hole cursor v lh dead lc clear =
    elim (Bool-cases (is_empty (slot_at slots cursor))) [
      | inl empty ↦
          let valid : IsValidFor (length slots) (set slots hole empty_slot) =
            emptied-IsValid (length slots) slots refl v hole lh dead
              (nothing_crosses (length slots) slots refl v hole lh dead cursor lc empty clear) in
          rw empty (
            subst (λ k. IsValidFor k (set slots hole empty_slot))
                (sym (length-set slots hole empty_slot)) valid,
            emptied-Same (length slots) slots refl v hole lh dead,
          )
      | inr full ↦ elim (Bool-cases (fills slots hole cursor)) [
        | inl nearer ↦
            let (used, near) = fills_facts slots hole cursor nearer in
            let kept : Same slots (moved slots hole cursor) =
              shifted-Same (length slots) slots refl v hole lh dead cursor lc full used near in
            let valid : IsValid (moved slots hole cursor) =
              subst (λ k. IsValidFor k (moved slots hole cursor)) (sym kept.sizes)
                (shifted-IsValid (length slots) slots refl v hole lh dead cursor lc full used
                  near) in
            let gone : is_deleted (slot_at (moved slots hole cursor) cursor) ≡ true =
              shifted_dead (length slots) slots refl v hole lh dead cursor lc full used near in
            let inside : cursor < length (moved slots hole cursor) =
              omega (arith, lc, kept.sizes) in
            let (valid', kept') =
              compact_from-Same left (moved slots hole cursor) cursor
                (next_probe_index cursor (length (moved slots hole cursor))) valid inside gone
                (next_lt cursor inside) (next-Clear _ _ refl valid cursor inside gone) in
            let same_next : compact_from (moved slots hole cursor) cursor
                  (next_probe_index cursor (length (moved slots hole cursor))) left
                ≡ compact_from (moved slots hole cursor) cursor
                    (next_probe_index cursor (length slots)) left =
              ap
                (λ k.
                  compact_from (moved slots hole cursor) cursor (next_probe_index cursor k) left)
                kept.sizes in
            rw (full, nearer)
              (subst (λ xs. IsValid xs × Same slots xs) same_next
                (valid', trans-Same _ _ _ kept kept'))
        | inr stays ↦
            rw (full, stays)
              (compact_from-Same left slots hole (next_probe_index cursor (length slots)) v lh dead
                (next_lt cursor lc)
                (later-Clear _ _ refl v hole cursor lh lc clear
                  (stays_facts slots hole cursor stays)))
      ]
    ]

module _ (slots : List Slot) (v : IsValid slots) (i : ℕ) (lt : i < length slots) where
  abbrev gone : Slot
  gone = record (slot_at slots i) { value = deleted_value }

  deleted_origin :
      (j : ℕ)
      → is_live (slot_at (with_deleted slots i) j) ≡ true
      → (i ≢ j) × (slot_at (with_deleted slots i) j ≡ slot_at slots j)
  deleted_origin j live = elim (slot_at-set_cases slots i j gone lt) [
    | inl (same, now) ↦ absurd (false≢true (sym (ap is_live now) ∙ live))
    | inr (other, old) ↦ (other, old)
  ]

  full_after :
      (p : ℕ)
      → is_empty (slot_at slots p) ≡ false
      → is_empty (slot_at (with_deleted slots i) p) ≡ false
  full_after p full = elim (slot_at-set_cases slots i p gone lt) [
    | inl (same, now) ↦ ap is_empty now
    | inr (other, old) ↦ ap is_empty old ∙ full
  ]

  deleted_size : length (with_deleted slots i) ≡ length slots
  deleted_size = length-set slots i gone

  with_deleted-IsValidFor : IsValidFor (length slots) (with_deleted slots i)
  with_deleted-IsValidFor = record {
    near = λ j lj live.
        (let (_, old) = deleted_origin j live in rw old (v.near j lj (rw old at live)));
    way = λ j p lj lp live before. full_after p (
        let (_, old) = deleted_origin j live in
        v.way j p lj lp (rw old at live) (rw old at before));
    single = λ j k lj lk live_j live_k same.
        let (_, old_j) = deleted_origin j live_j in
        let (_, old_k) = deleted_origin k live_k in
        v.single j k lj lk (rw old_j at live_j) (rw old_k at live_k) (
          sym (ap (λ (s : Slot). s.fingerprint) old_j)
          ∙ same
          ∙ ap (λ (s : Slot). s.fingerprint) old_k);
  }

  with_deleted-IsValid : IsValid (with_deleted slots i)
  with_deleted-IsValid =
      subst (λ k. IsValidFor k (with_deleted slots i)) (sym deleted_size) with_deleted-IsValidFor

  -- The slots after the deletion and the compaction.
  pub compacted :
      IsValid (compact_deleted (with_deleted slots i) i)
      × Same (with_deleted slots i) (compact_deleted (with_deleted slots i) i)
  unfolding compact_deleted
  compacted =
      let inside : i < length (with_deleted slots i) = omega (arith, lt, deleted_size) in
      let dead : is_deleted (slot_at (with_deleted slots i) i) ≡ true =
        ap is_deleted (slot_at-set slots i gone lt) in
      compact_from-Same _ (with_deleted slots i) i _ with_deleted-IsValid inside dead
        (next_lt i inside) (next-Clear _ _ refl with_deleted-IsValid i inside dead)

  pub deleted_holds :
      is_live (slot_at slots i) ≡ true
      → (g w : ℕ)
      → Holds (with_deleted slots i) g w ↔ (Holds slots g w × (g ≢ (slot_at slots i).fingerprint))
  deleted_holds live_i g w = (
    λ (j, (lj, live, is), val).
        let (apart, old) = deleted_origin j live in
        let lj' : j < length slots = omega (arith, lj, deleted_size) in
        (
          (j, (lj', rw old at live, rw old at is), rw old at val),
          λ e. apart (v.single i j lt lj' live_i (rw old at live) (sym e ∙ sym (rw old at is))),
        ),
    λ ((j, (lj, live, is), val), ne).
        let apart : i ≢ j = λ e. ne (sym is ∙ ap (λ k. (slot_at slots k).fingerprint) (sym e)) in
        elim (slot_at-set_cases slots i j gone lt) [
          | inl (same, _) ↦ absurd (apart same)
          | inr (_, old) ↦
              (j, (omega (arith, lj, deleted_size), rw old live, rw old is), rw old val)
        ],
  )
