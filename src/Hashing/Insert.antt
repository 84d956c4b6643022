-- ===== src/Hashing/Insert.antt =====
-- The slot for an entry, and the slots with it: cache2/src/hashing.rs, `find_upsert_slot` and `insert`.
use mathlib.Core.Bool.{false≢true}
use mathlib.Core.Option.{some-injective}
use mathlib.Core.Path.{subst}
use cache.Base.{
  ℕ, zero, suc, ◌+◌, ◌≤◌, ◌<◌, min, ◌≡◌, ◌≢◌, ◌⊎◌, inl, inr, refl, sym, ap, ◌∙◌, true, false,
  Bool-cases, Option-cases, Option, none, some, List, arith, ltb, ◌==◌, ==_iff, if◌then◌else◌,
  length, length-set,
}
use cache.Hashing.Map.{
  deleted_value, max_probes, Slot, slot_at, home, probe_index, probe_distance, is_empty, is_deleted,
  is_match, upsert_from, or_index, with_entry,
}
use cache.Hashing.Circle.{distance_lt, distance_injective, probe_lt, distance-probe, home_lt}
use cache.Hashing.Probe.{
  is_live, home_of, IsValidFor, IsValid, HasEntry, Holds, slot_at-set, slot_at-set_cases,
  match_live, live_match,
}

-- A slot that an entry for the fingerprint may take.
pub record Fits (slots : List Slot) (f i : ℕ) : Type 0 where
  pub inside : i < length slots
  pub close : probe_distance (home f (length slots)) i (length slots) < max_probes
  pub full_way :
      (p : ℕ)
      → p < length slots
      → probe_distance (home f (length slots)) p (length slots)
        < probe_distance (home f (length slots)) i (length slots)
      → is_empty (slot_at slots p) ≡ false
  pub alone : (j : ℕ) → HasEntry slots f j → i ≡ j
  pub replaces : is_live (slot_at slots i) ≡ true → (slot_at slots i).fingerprint ≡ f

live_full : (s : Slot) → is_live s ≡ true → is_empty s ≡ false
live_full s h = ground arith

module _ (slots : List Slot) (v : IsValid slots) (f i value : ℕ) (fits : Fits slots f i)
    (small : value < deleted_value) where
  abbrev n : ℕ
  n = length slots

  abbrev new : List Slot
  new = with_entry slots i f value

  written : slot_at new i ≡ record { fingerprint = f; value = value }
  written = slot_at-set slots i _ fits.inside

  live_written : is_live (slot_at new i) ≡ true
  live_written = ap is_live written ∙ ground (arith, small)

  full_kept : (p : ℕ) → is_empty (slot_at slots p) ≡ false → is_empty (slot_at new p) ≡ false
  full_kept p full =
      elim (slot_at-set_cases slots i p (record { fingerprint = f; value = value }) fits.inside) [
        | inl (is, new_slot) ↦ ap is_empty new_slot ∙ ground (arith, small)
        | inr (ne, old) ↦ ap is_empty old ∙ full
      ]

  -- What stands in a slot now: the new entry, or what stood there.
  origin :
      (j : ℕ)
      → ((i ≡ j) × (slot_at new j ≡ record { fingerprint = f; value = value }))
        ⊎ ((i ≢ j) × (slot_at new j ≡ slot_at slots j))
  origin j = slot_at-set_cases slots i j (record { fingerprint = f; value = value }) fits.inside

  not_fingerprint :
      (j : ℕ) → j < n → i ≢ j → is_live (slot_at slots j) ≡ true → (slot_at slots j).fingerprint ≢ f
  not_fingerprint j lt ne live is = ne (fits.alone j (lt, live, is))

  pub with_entry-IsValid : IsValidFor n new
  with_entry-IsValid = record {
    near = λ j lt live. elim (origin j) [
      | inl (is, now) ↦
          let same : home_of n new j ≡ home f n = ap (λ (k : Slot). home k.fingerprint n) now in
          rw (same, sym is) fits.close
      | inr (ne, old) ↦ rw old (v.near j lt (rw old at live))
    ];
    way = λ j p lt lp live before. full_kept p (elim (origin j) [
      | inl (is, now) ↦
          let same : home_of n new j ≡ home f n = ap (λ (k : Slot). home k.fingerprint n) now in
          fits.full_way p lp (rw (same, sym is) at before)
      | inr (ne, old) ↦ v.way j p lt lp (rw old at live) (rw old at before)
    ]);
    single = λ j k lj lk live_j live_k same. elim (origin j) [
      | inl (is_j, now_j) ↦ elim (origin k) [
        | inl (is_k, now_k) ↦ sym is_j ∙ is_k
        | inr (ne_k, old_k) ↦ absurd (
            not_fingerprint k lk ne_k (rw old_k at live_k) (
              sym (ap (λ (x : Slot). x.fingerprint) old_k)
              ∙ sym same
              ∙ ap (λ (x : Slot). x.fingerprint) now_j))
      ]
      | inr (ne_j, old_j) ↦ elim (origin k) [
        | inl (is_k, now_k) ↦ absurd (
            not_fingerprint j lj ne_j (rw old_j at live_j) (
              sym (ap (λ (x : Slot). x.fingerprint) old_j)
              ∙ same
              ∙ ap (λ (x : Slot). x.fingerprint) now_k))
        | inr (ne_k, old_k) ↦
            v.single j k lj lk (rw old_j at live_j) (rw old_k at live_k) (rw (old_j, old_k) at same)
      ]
    ];
  }

  pub holds_written : Holds new f value
  holds_written = (
    i,
    (
      omega (arith, fits.inside, length-set slots i (record { fingerprint = f; value = value })),
      live_written,
      ap (λ (x : Slot). x.fingerprint) written,
    ),
    ap (λ (x : Slot). x.value) written,
  )

  pub holds_other : (g w : ℕ) → g ≢ f → Holds slots g w → Holds new g w
  holds_other g w ne (j, (lt, live, is), val) = elim (origin j) [
    | inl (same, now) ↦
        let here : (slot_at slots j).fingerprint ≡ f =
          rw (sym same) (fits.replaces (rw (sym same) at live)) in
        absurd (ne (sym is ∙ here))
    | inr (other, old) ↦ (
      j,
      (
        omega (arith, lt, length-set slots i (record { fingerprint = f; value = value })),
        rw old live,
        rw old is,
      ),
      rw old val,
    )
  ]

  pub holds_before : (g w : ℕ) → g ≢ f → Holds new g w → Holds slots g w
  holds_before g w ne (j, (lt, live, is), val) = elim (origin j) [
    | inl (same, now) ↦ absurd (ne (sym is ∙ ap (λ (x : Slot). x.fingerprint) now))
    | inr (other, old) ↦ (
      j,
      (
        omega (arith, lt, length-set slots i (record { fingerprint = f; value = value })),
        rw old at live,
        rw old at is,
      ),
      rw old at val,
    )
  ]

-- The slots that the loop has seen.
pub record Passed (slots : List Slot) (f step : ℕ) (deleted : Option ℕ) : Type 0 where
  pub full :
      (p : ℕ)
      → p < length slots
      → probe_distance (home f (length slots)) p (length slots) < step
      → (is_empty (slot_at slots p) ≡ false) × (is_match f (slot_at slots p) ≡ false)
  pub hole :
      (d : ℕ)
      → deleted ≡ some d
      → (d < length slots)
        × (is_deleted (slot_at slots d) ≡ true)
        × (probe_distance (home f (length slots)) d (length slots) < step)

-- What `find_upsert_slot` promises of its result.
pub record Found (slots : List Slot) (f i : ℕ) (previous : Option ℕ) : Type 0 where
  pub fitting : Fits slots f i
  pub had : (w : ℕ) → previous ≡ some w → Holds slots f w
  pub had_not : previous ≡ none → (j : ℕ) → HasEntry slots f j → ⊥

dead_deleted : (s : Slot) → is_deleted s ≡ true → is_live s ≡ false
dead_deleted s h = ground (arith, h)

dead_empty : (s : Slot) → is_empty s ≡ true → is_live s ≡ false
dead_empty s h = ground (arith, h)

module _ (slots : List Slot) (v : IsValid slots) (f : ℕ) (some_slots : 0 < length slots) where
  abbrev begin : ℕ
  begin = home f (length slots)

  begin_lt : begin < length slots
  begin_lt = home_lt f (length slots) some_slots

  -- Beyond an empty slot, or beyond the last probe, there is no entry.
  no_entry :
      (step : ℕ) (deleted : Option ℕ)
      → Passed slots f step deleted
      → step ≤ length slots
      → ((step ≡ min (length slots) max_probes)
          ⊎ ((step < length slots)
              × (is_empty (slot_at slots (probe_index begin step (length slots))) ≡ true)))
      → (j : ℕ) → HasEntry slots f j
      → ⊥
  no_entry step deleted passed bound stop j (lt, live, is) =
      let homes : home_of (length slots) slots j ≡ begin = ap (λ k. home k (length slots)) is in
      let close : probe_distance begin j (length slots) < max_probes =
        rw homes at (v.near j lt live) in
      let inside : probe_distance begin j (length slots) < length slots =
        distance_lt begin j begin_lt lt in
      let (full, matches) = live_match f (slot_at slots j) live is in
      let ahead : (k : ℕ) → k ≡ step → probe_distance begin j (length slots) < k → ⊥ =
        λ k e before. false≢true (sym (passed.full j lt (omega (arith, e, before))).1 ∙ matches) in
      elim stop [
        | inl last ↦ ahead _ (sym last) (omega (arith, close, inside))
        | inr (low, empty) ↦
            let index : ℕ = probe_index begin step (length slots) in
            let far : probe_distance begin index (length slots) ≡ step =
              distance-probe begin step begin_lt low in
            let index_lt : index < length slots = probe_lt begin step begin_lt low in
            elim (Bool-cases (ltb (probe_distance begin j (length slots)) step)) [
              | inl before ↦ ahead _ refl (ground (arith, before))
              | inr later ↦ elim (Bool-cases (step == probe_distance begin j (length slots))) [
                | inl now ↦
                    let same : index ≡ j =
                      distance_injective begin index j begin_lt index_lt lt
                        (far ∙ (==_iff _ _).0 now) in
                    false≢true (sym full ∙ ap (λ k. is_empty (slot_at slots k)) (sym same) ∙ empty)
                | inr beyond ↦ false≢true (
                    sym (
                      v.way j index lt index_lt live
                        (rw homes (ground (arith, far, later, beyond))))
                    ∙ empty)
              ]
            ]
      ]

  -- An unused slot that was passed fits, where there is no entry.
  unused-Found :
      (i step : ℕ) (deleted : Option ℕ)
      → Passed slots f step deleted
      → i < length slots
      → probe_distance begin i (length slots) ≤ step
      → probe_distance begin i (length slots) < max_probes
      → is_live (slot_at slots i) ≡ false
      → ((j : ℕ) → HasEntry slots f j → ⊥)
      → Found slots f i none
  unused-Found i step deleted passed lt low close dead nothing = record {
    fitting = record {
      inside = lt;
      close = close;
      full_way = λ p lp before. (passed.full p lp (omega (arith, low, before))).0;
      alone = λ j e. absurd (nothing j e);
      replaces = λ live. absurd (false≢true (sym dead ∙ live));
    };
    had = λ w e. cc;
    had_not = λ e. nothing;
  }

  -- The loop goes on past a slot.
  next-Passed :
      (step : ℕ) (deleted : Option ℕ)
      → Passed slots f step deleted
      → step < length slots
      → is_empty (slot_at slots (probe_index begin step (length slots))) ≡ false
      → is_match f (slot_at slots (probe_index begin step (length slots))) ≡ false
      → Passed slots f (step + 1) (
          if is_deleted (slot_at slots (probe_index begin step (length slots)))
          then some (or_index deleted (probe_index begin step (length slots)))
          else deleted)
  next-Passed step deleted passed low full other =
      let index : ℕ = probe_index begin step (length slots) in
      let far : probe_distance begin index (length slots) ≡ step =
        distance-probe begin step begin_lt low in
      let index_lt : index < length slots = probe_lt begin step begin_lt low in
      record {
        full = λ p lp before. elim (Bool-cases (step == probe_distance begin p (length slots))) [
          | inl now ↦
              let same : index ≡ p =
                distance_injective begin index p begin_lt index_lt lp (far ∙ (==_iff _ _).0 now) in
              rw (sym same) (full, other)
          | inr not_now ↦ passed.full p lp (ground (arith, before, not_now))
        ];
        hole = λ d. elim (Bool-cases (is_deleted (slot_at slots index))) [
          | inl gone ↦ rw gone (λ e. elim (Option-cases deleted) [
            | inl none_yet ↦
                let is : index ≡ d = some-injective _ _ (rw none_yet at e) in
                rw (sym is) (index_lt, gone, omega (arith, far))
            | inr (old, known) ↦
                let is : old ≡ d = some-injective _ _ (rw known at e) in
                let (lt, dead, before) = passed.hole old known in
                rw (sym is) (lt, dead, omega (arith, before))
          ])
          | inr used ↦
              rw used (λ e.
                (let (lt, dead, before) = passed.hole d e in (lt, dead, omega (arith, before))))
        ];
      }

  pub upsert_from-Found :
      (left step i : ℕ) (deleted previous : Option ℕ)
      → Passed slots f step deleted
      → step + left ≡ min (length slots) max_probes
      → upsert_from slots f begin deleted left step ≡ some (i, previous)
      → Found slots f i previous
  unfolding upsert_from
  upsert_from-Found zero step i none previous passed bound h = cc
  upsert_from-Found zero step i (some d) previous passed bound h =
      let (lt, dead, before) = passed.hole d refl in
      subst (λ (r : ℕ × Option ℕ). Found slots f r.0 r.1) (some-injective _ _ h)
        (unused-Found d step (some d) passed lt (omega (arith, before))
          (omega (arith, before, bound)) (dead_deleted (slot_at slots d) dead)
          (no_entry step (some d) passed (omega (arith, bound)) (inl (omega (arith, bound)))))
  upsert_from-Found (suc left) step i deleted previous passed bound h =
      let index : ℕ = probe_index begin step (length slots) in
      let low : step < length slots = omega (arith, bound) in
      let far : probe_distance begin index (length slots) ≡ step =
        distance-probe begin step begin_lt low in
      let index_lt : index < length slots = probe_lt begin step begin_lt low in
      elim (Bool-cases (is_empty (slot_at slots index))) [
        | inl empty ↦
            let is : ◌≡◌ {A = ℕ × Option ℕ} (or_index deleted index, none) (i, previous) =
              some-injective _ _ (rw empty at h) in
            let nothing : (j : ℕ) → HasEntry slots f j → ⊥ =
              no_entry step deleted passed (omega (arith, low)) (inr (low, empty)) in
            subst (λ (r : ℕ × Option ℕ). Found slots f r.0 r.1) is
              (elim (Option-cases deleted) [
                | inl none_yet ↦
                    subst (λ k. Found slots f (or_index k index) none) (sym none_yet)
                      (unused-Found index step deleted passed index_lt (omega (arith, far))
                        (omega (arith, far, bound)) (dead_empty (slot_at slots index) empty)
                        nothing)
                | inr (d, known) ↦
                    let (lt, dead, before) = passed.hole d known in
                    subst (λ k. Found slots f (or_index k index) none) (sym known)
                      (unused-Found d step deleted passed lt (omega (arith, before))
                        (omega (arith, before, bound)) (dead_deleted (slot_at slots d) dead)
                        nothing)
              ])
        | inr full ↦ elim (Bool-cases (is_match f (slot_at slots index))) [
          | inl here ↦
              let is : ◌≡◌ {A = ℕ × Option ℕ} (index, some (slot_at slots index).value)
                  (i, previous) =
                some-injective _ _ (rw (full, here) at h) in
              let (live, same) = match_live f (slot_at slots index) full here in
              subst (λ (r : ℕ × Option ℕ). Found slots f r.0 r.1) is
                (record {
                  fitting = record {
                    inside = index_lt;
                    close = omega (arith, far, bound);
                    full_way = λ p lp before. (passed.full p lp (omega (arith, before, far))).0;
                    alone = λ j e. v.single index j index_lt e.0 live e.1 (same ∙ sym e.2);
                    replaces = λ _. same;
                  };
                  had = λ w e. (index, (index_lt, live, same), some-injective _ _ e);
                  had_not = λ e. cc;
                })
          | inr other ↦
              upsert_from-Found left (step + 1) i _ previous
                (next-Passed step deleted passed low full other) (omega (arith, bound))
                (rw (full, other) at h)
        ]
      ]
