-- ===== src/Hashing/Compact.antt =====
-- A deleted entry, and the hole that moves on: cache2/src/hashing.rs, `remove` and `compact_deleted`.
use mathlib.Core.Bool.{false≢true}
use cache.Base.{
  ℕ, ◌+◌, ◌<◌, ◌≡◌, ◌≢◌, ◌↔◌, ◌⊎◌, inl, inr, refl, sym, ap, ◌∙◌, true, false, Bool-cases, List,
  arith, ltb, ltb→lt, ◌==◌, ==_iff, set, length, length-set,
}
use cache.Hashing.Map.{
  deleted_value, Slot, empty_slot, slot_at, probe_distance, is_empty, is_deleted, moved,
}
use cache.Hashing.Circle.{distance_lt, distance_injective, distance_split, distance_join, home_lt}
use cache.Hashing.Probe.{
  is_live, home_of, IsValidFor, Holds, slot_at-set, slot_at-set_other, slot_at-set_cases,
}

pub live_facts : (s : Slot) → is_live s ≡ true → (is_empty s ≡ false) × (is_deleted s ≡ false)
live_facts s h = (ground arith, ground arith)

full_live : (s : Slot) → is_empty s ≡ false → is_deleted s ≡ false → is_live s ≡ true
full_live s h k = ground arith

-- The same count of slots holds the same.
pub record Same (slots new : List Slot) : Type 0 where
  pub sizes : length new ≡ length slots
  pub kept : (f w : ℕ) → Holds slots f w ↔ Holds new f w

pub refl-Same : (slots : List Slot) → Same slots slots
refl-Same slots = record { sizes = refl; kept = λ f w. (λ h. h, λ h. h) }

pub trans-Same : (a b c : List Slot) → Same a b → Same b c → Same a c
trans-Same a b c p q = record {
  sizes = q.sizes ∙ p.sizes;
  kept = λ f w. (λ h. (q.kept f w).0 ((p.kept f w).0 h), λ h. (p.kept f w).1 ((q.kept f w).1 h));
}

module _ (n : ℕ) (slots : List Slot) (size : length slots ≡ n) (v : IsValidFor n slots) where
  -- No entry between the hole and the cursor has the hole on its way.
  abbrev pub Clear : ℕ → ℕ → Type 0
  Clear hole cursor =
      (i : ℕ)
      → i < n
      → is_live (slot_at slots i) ≡ true
      → probe_distance hole i n < probe_distance hole cursor n
      → probe_distance (home_of n slots i) hole n < probe_distance (home_of n slots i) i n
      → ⊥

  home_inside : (i : ℕ) → i < n → home_of n slots i < n
  home_inside i lt = home_lt (slot_at slots i).fingerprint n (omega (arith, lt))

  module _ (hole : ℕ) (lh : hole < n) (dead : is_deleted (slot_at slots hole) ≡ true) where
    hole_inside : hole < length slots
    hole_inside = omega (arith, lh, size)

    -- Where the cursor is at an empty slot no entry has the hole on its way.
    pub nothing_crosses :
        (cursor : ℕ)
        → cursor < n
        → is_empty (slot_at slots cursor) ≡ true
        → Clear hole cursor
        → (i : ℕ) → i < n
        → is_live (slot_at slots i) ≡ true
        → probe_distance (home_of n slots i) hole n < probe_distance (home_of n slots i) i n
        → ⊥
    nothing_crosses cursor lc empty clear i lt live crosses =
        let start : ℕ = home_of n slots i in
        let ls : start < n = home_inside i lt in
        let whole : probe_distance start i n
            ≡ probe_distance start hole n + probe_distance hole i n =
          distance_split start hole i ls lh lt crosses in
        let bound : probe_distance start i n < n = distance_lt start i ls lt in
        elim (Bool-cases (ltb (probe_distance hole i n) (probe_distance hole cursor n))) [
          | inl before ↦ clear i lt live (ltb→lt _ _ before) crosses
          | inr not_before ↦
              elim (Bool-cases (probe_distance hole i n == probe_distance hole cursor n)) [
                | inl at ↦
                    let same : i ≡ cursor =
                      distance_injective hole i cursor lh lt lc ((==_iff _ _).0 at) in
                    false≢true (
                      sym (live_facts (slot_at slots i) live).0
                      ∙ ap (λ k. is_empty (slot_at slots k)) same
                      ∙ empty)
                | inr beyond ↦
                    let farther : probe_distance hole cursor n < probe_distance hole i n =
                      ground (arith, not_before, beyond) in
                    let there : probe_distance start cursor n
                        ≡ probe_distance start hole n + probe_distance hole cursor n =
                      distance_join start hole cursor ls lh lc
                        (omega (arith, whole, bound, farther)) in
                    false≢true (
                      sym (v.way i cursor lt lc live (omega (arith, there, whole, farther)))
                      ∙ empty)
              ]
        ]

    abbrev pub emptied : List Slot
    emptied = set slots hole empty_slot

    emptied_origin :
        (i : ℕ)
        → is_live (slot_at emptied i) ≡ true
        → (hole ≢ i) × (slot_at emptied i ≡ slot_at slots i)
    emptied_origin i live = elim (slot_at-set_cases slots hole i empty_slot hole_inside) [
      | inl (same, now) ↦ absurd (false≢true (sym (ap is_live now) ∙ live))
      | inr (other, old) ↦ (other, old)
    ]

    pub emptied-IsValid :
        ((i : ℕ)
          → i < n
          → is_live (slot_at slots i) ≡ true
          → probe_distance (home_of n slots i) hole n < probe_distance (home_of n slots i) i n
          → ⊥)
        → IsValidFor n emptied
    emptied-IsValid free_way = record {
      near = λ i lt live.
          (let (_, old) = emptied_origin i live in rw old (v.near i lt (rw old at live)));
      way = λ i p lt lp live before.
          let (_, old) = emptied_origin i live in
          let live' : is_live (slot_at slots i) ≡ true = rw old at live in
          let before' : probe_distance (home_of n slots i) p n
              < probe_distance (home_of n slots i) i n =
            rw old at before in
          elim (slot_at-set_cases slots hole p empty_slot hole_inside) [
            | inl (same, now) ↦ absurd (free_way i lt live' (rw (sym same) at before'))
            | inr (_, same) ↦ ap is_empty same ∙ v.way i p lt lp live' before'
          ];
      single = λ i j li lj live_i live_j same.
          let (_, old_i) = emptied_origin i live_i in
          let (_, old_j) = emptied_origin j live_j in
          v.single i j li lj (rw old_i at live_i) (rw old_j at live_j) (rw (old_i, old_j) at same);
    }

    pub emptied-Same : Same slots emptied
    emptied-Same = record {
      sizes = length-set slots hole empty_slot;
      kept = λ f w. (
        λ (i, (lt, live, is), val).
            let apart : hole ≢ i = λ e. false≢true (
              sym (live_facts (slot_at slots i) live).1
              ∙ ap (λ k. is_deleted (slot_at slots k)) (sym e)
              ∙ dead) in
            let old : slot_at emptied i ≡ slot_at slots i =
              slot_at-set_other slots hole i empty_slot hole_inside apart in
            (
              i,
              (omega (arith, lt, length-set slots hole empty_slot), rw old live, rw old is),
              rw old val,
            ),
        λ (i, (lt, live, is), val).
            let (_, old) = emptied_origin i live in
            (
              i,
              (omega (arith, lt, length-set slots hole empty_slot), rw old at live, rw old at is),
              rw old at val,
            ),
      );
    }

    -- The candidate at the cursor moves into the hole.
    module _ (cursor : ℕ) (lc : cursor < n) (full : is_empty (slot_at slots cursor) ≡ false)
        (used : is_deleted (slot_at slots cursor) ≡ false)
        (nearer : probe_distance (home_of n slots cursor) hole n
          < probe_distance (home_of n slots cursor) cursor n) where
      abbrev pub shifted : List Slot
      shifted = moved slots hole cursor

      abbrev first : List Slot
      first = set slots hole (slot_at slots cursor)

      cursor_inside : cursor < length first
      cursor_inside = omega (arith, lc, size, length-set slots hole (slot_at slots cursor))

      hole_differs : cursor ≢ hole
      hole_differs e = false≢true (sym used ∙ ap (λ k. is_deleted (slot_at slots k)) e ∙ dead)

      live_cursor : is_live (slot_at slots cursor) ≡ true
      live_cursor = full_live (slot_at slots cursor) full used

      at_cursor : slot_at shifted cursor ≡ record (slot_at slots cursor) { value = deleted_value }
      at_cursor = slot_at-set first cursor _ cursor_inside

      at_hole : slot_at shifted hole ≡ slot_at slots cursor
      at_hole =
          slot_at-set_other first cursor hole _ cursor_inside hole_differs
          ∙ slot_at-set slots hole (slot_at slots cursor) hole_inside

      elsewhere : (p : ℕ) → p ≢ hole → p ≢ cursor → slot_at shifted p ≡ slot_at slots p
      elsewhere p nh nc =
          slot_at-set_other first cursor p _ cursor_inside (λ e. nc (sym e))
          ∙ slot_at-set_other slots hole p (slot_at slots cursor) hole_inside (λ e. nh (sym e))

      -- What is live now stood at the cursor, or where it stands.
      came_from :
          (p : ℕ)
          → is_live (slot_at shifted p) ≡ true
          → ((p ≡ hole) × (slot_at shifted p ≡ slot_at slots cursor))
            ⊎ ((p ≢ hole) × (p ≢ cursor) × (slot_at shifted p ≡ slot_at slots p))
      came_from p live = elim (Bool-cases (p == hole)) [
        | inl now ↦
            (let is : p ≡ hole = (==_iff _ _).0 now in inl (is, ap (slot_at shifted) is ∙ at_hole))
        | inr not_hole ↦ elim (Bool-cases (p == cursor)) [
          | inl now ↦
              let is : p ≡ cursor = (==_iff _ _).0 now in
              absurd (false≢true (sym (ap is_live (ap (slot_at shifted) is ∙ at_cursor)) ∙ live))
          | inr not_cursor ↦
              let nh : p ≢ hole = ground (arith, not_hole) in
              let nc : p ≢ cursor = ground (arith, not_cursor) in inr (nh, nc, elsewhere p nh nc)
        ]
      ]

      still_full :
          (p : ℕ) → is_empty (slot_at slots p) ≡ false → is_empty (slot_at shifted p) ≡ false
      still_full p fp = elim (Bool-cases (p == hole)) [
        | inl now ↦ ap is_empty (ap (slot_at shifted) ((==_iff _ _).0 now) ∙ at_hole) ∙ full
        | inr not_hole ↦ elim (Bool-cases (p == cursor)) [
          | inl now ↦ ap is_empty (ap (slot_at shifted) ((==_iff _ _).0 now) ∙ at_cursor)
          | inr not_cursor ↦
              ap is_empty (elsewhere p (ground (arith, not_hole)) (ground (arith, not_cursor))) ∙ fp
        ]
      ]

      abbrev fingerprint_at : List Slot → ℕ → ℕ
      fingerprint_at xs p = (slot_at xs p).fingerprint

      pub shifted-IsValid : IsValidFor n shifted
      shifted-IsValid = record {
        near = λ i lt live. elim (came_from i live) [
          | inl (is, now) ↦ rw (now, is) (omega (arith, nearer, v.near cursor lc live_cursor))
          | inr (_, _, old) ↦ rw old (v.near i lt (rw old at live))
        ];
        way = λ i p lt lp live before. still_full p (elim (came_from i live) [
          | inl (is, now) ↦
              v.way cursor p lc lp live_cursor (omega (arith, nearer, rw (now, is) at before))
          | inr (_, _, old) ↦ v.way i p lt lp (rw old at live) (rw old at before)
        ]);
        single = λ i j li lj live_i live_j same. elim (came_from i live_i) [
          | inl (is_i, now_i) ↦ elim (came_from j live_j) [
            | inl (is_j, now_j) ↦ is_i ∙ sym is_j
            | inr (_, other_j, old_j) ↦ absurd (
                other_j (
                  sym (
                    v.single cursor j lc lj live_cursor (rw old_j at live_j) (
                      sym (ap (λ (s : Slot). s.fingerprint) now_i)
                      ∙ same
                      ∙ ap (λ (s : Slot). s.fingerprint) old_j))))
          ]
          | inr (_, other_i, old_i) ↦ elim (came_from j live_j) [
            | inl (is_j, now_j) ↦ absurd (
                other_i (
                  v.single i cursor li lc (rw old_i at live_i) live_cursor (
                    sym (ap (λ (s : Slot). s.fingerprint) old_i)
                    ∙ same
                    ∙ ap (λ (s : Slot). s.fingerprint) now_j)))
            | inr (_, _, old_j) ↦ v.single i j li lj (rw old_i at live_i) (rw old_j at live_j) (
                sym (ap (λ (s : Slot). s.fingerprint) old_i)
                ∙ same
                ∙ ap (λ (s : Slot). s.fingerprint) old_j)
          ]
        ];
      }

      same_size : length shifted ≡ length slots
      same_size = length-set first cursor _ ∙ length-set slots hole (slot_at slots cursor)

      pub shifted-Same : Same slots shifted
      shifted-Same = record {
        sizes = same_size;
        kept = λ f w. (
          λ (i, (lt, live, is), val). elim (Bool-cases (i == cursor)) [
            | inl now ↦
                let here : i ≡ cursor = (==_iff _ _).0 now in
                (
                  hole,
                  (
                    omega (arith, hole_inside, same_size),
                    rw at_hole live_cursor,
                    rw at_hole (rw here at is),
                  ),
                  rw at_hole (rw here at val),
                )
            | inr other ↦
                let apart : i ≢ hole = λ e. false≢true (
                  sym (live_facts (slot_at slots i) live).1
                  ∙ ap (λ k. is_deleted (slot_at slots k)) e
                  ∙ dead) in
                let old : slot_at shifted i ≡ slot_at slots i =
                  elsewhere i apart (ground (arith, other)) in
                (i, (omega (arith, lt, same_size), rw old live, rw old is), rw old val)
          ],
          λ (i, (lt, live, is), val). elim (came_from i live) [
            | inl (here, now) ↦
                (cursor, (omega (arith, lc, size), live_cursor, rw now at is), rw now at val)
            | inr (_, _, old) ↦
                (i, (omega (arith, lt, same_size), rw old at live, rw old at is), rw old at val)
          ],
        );
      }

      pub shifted_dead : is_deleted (slot_at shifted cursor) ≡ true
      shifted_dead = ap is_deleted at_cursor
