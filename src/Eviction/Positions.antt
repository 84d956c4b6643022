-- ===== src/Eviction/Positions.antt =====
-- CLOCK's slots know the positions of their residents: cache2/src/memory/eviction.rs.
use cache.Base.{
  ℕ, zero, suc, ◌+◌, ◌≤◌, ◌<◌, ◌≡◌, ◌≢◌, refl, sym, ap, ◌∙◌, Bool, true, false, ◌⊎◌, inl, inr, some,
  Bool-cases, List, [], ◌∷◌, ◌++◌, arith, ltb, ◌^◌, get_elem?, set, length, length-set,
  lt-length_of_get, get_of_lt-length, get-set, get-set_cases, ==_iff, get_last?, drop_last,
  swap_remove, length-swap_remove,
}
use mathlib.Core.Option.{some-injective}
use cache.Manager.State.{to_u32}
use cache.Eviction.Slot.{PolicySlot, default_slot, new_clock}
use cache.Eviction.Clock.{Clock, insert, note_moved, kept_hand, remove}

-- The resident at each position has a slot, and the slot holds the position.
abbrev pub Positioned : List ℕ → List PolicySlot → Type 0
Positioned residents slots =
    (p r : ℕ)
    → get_elem? residents p ≡ some r
    → (slot : PolicySlot) × (get_elem? slots r ≡ some slot) × (slot.clock_position ≡ p)

get-drop_last :
    (xs : List ℕ) (q r : ℕ)
    → get_elem? (drop_last xs) q ≡ some r
    → (get_elem? xs q ≡ some r) × (suc q < length xs)
get-drop_last [] q r h = cc
get-drop_last (x ∷ []) q r h = cc
get-drop_last (x ∷ y ∷ xs) zero r h = (h, omega arith)
get-drop_last (x ∷ y ∷ xs) (suc q) r h =
    let (found, lt) = get-drop_last (y ∷ xs) q r h in (found, omega (arith, lt))

get-last :
    (xs : List ℕ) (l : ℕ)
    → get_last? xs ≡ some l
    → (n : ℕ) × (suc n ≡ length xs) × (get_elem? xs n ≡ some l)
get-last [] l h = cc
get-last (x ∷ []) l h = (0, omega arith, h)
get-last (x ∷ y ∷ xs) l h =
    let (n, same, found) = get-last (y ∷ xs) l h in (suc n, omega (arith, same), found)

last_of_get : (xs : List ℕ) (p r : ℕ) → get_elem? xs p ≡ some r → (l : ℕ) × (get_last? xs ≡ some l)
last_of_get [] p r h = cc
last_of_get (x ∷ []) p r h = (x, refl)
last_of_get (x ∷ y ∷ xs) zero r h = last_of_get (y ∷ xs) zero y refl
last_of_get (x ∷ y ∷ xs) (suc p) r h = last_of_get (y ∷ xs) p r h

swap_remove-last :
    (xs : List ℕ) (p l : ℕ) → get_last? xs ≡ some l → swap_remove xs p ≡ drop_last (set xs p l)
unfolding swap_remove
swap_remove-last xs p l last = rw (last, swap_remove) refl

-- What stands in a list after a removal: the last item at the place of the removed one, and the
-- items before it at their old places.
get-swap_remove :
    (xs : List ℕ) (p i q r l : ℕ)
    → get_elem? xs p ≡ some i
    → get_last? xs ≡ some l
    → get_elem? (swap_remove xs p) q ≡ some r
    → (suc q < length xs) × ((p ≡ q) × (r ≡ l) ⊎ (p ≢ q) × (get_elem? xs q ≡ some r))
get-swap_remove xs p i q r l h last found =
    let removed : get_elem? (drop_last (set xs p l)) q ≡ some r =
      sym (ap (λ k. get_elem? k q) (swap_remove-last xs p l last)) ∙ found in
    let (kept, lt) = get-drop_last (set xs p l) q r removed in
    (omega (arith, lt, length-set xs p l), get-set_cases xs p q l h kept)

get-snoc :
    (xs : List ℕ) (v q r : ℕ)
    → get_elem? (xs ++ v ∷ []) q ≡ some r
    → (get_elem? xs q ≡ some r) ⊎ (q ≡ length xs) × (r ≡ v)
get-snoc [] v zero r h = inr (refl, sym (some-injective _ _ h))
get-snoc [] v (suc q) r h = cc
get-snoc (x ∷ xs) v zero r h = inl h
get-snoc (x ∷ xs) v (suc q) r h = elim (get-snoc xs v q r h) [
  | inl old ↦ inl old
  | inr (at, new) ↦ inr (ap suc at, new)
]

below : (a b : ℕ) → a < b → ltb a b ≡ true
below a b h = ground arith

to_u32_small : (a : ℕ) → a < 2 ^ 32 → to_u32 a ≡ some a
to_u32_small a h = ground (arith, h)

-- A write at another index leaves a slot.
get-set_other :
    (slots : List PolicySlot) (i j : ℕ) (v old w : PolicySlot)
    → get_elem? slots i ≡ some old
    → get_elem? slots j ≡ some w
    → i ≢ j
    → get_elem? (set slots i v) j ≡ some w
get-set_other slots i j v old w hi hj ne = ground (arith, get-set slots i j v hi, hj, ne)

get-set_same :
    (slots : List PolicySlot) (i : ℕ) (v old : PolicySlot)
    → get_elem? slots i ≡ some old
    → get_elem? (set slots i v) i ≡ some v
get-set_same slots i v old h = ground (arith, get-set slots i i v h)

-- `insert` succeeds where there is room and the index is not yet a resident: the index becomes the
-- last resident, its slot holds the hash and the visited bit, and every slot holds its position. The
-- slots are at most 2^32, so that the index and the position are numbers of 32 bits.
pub insert-Positioned :
    (c : Clock) (index hash : ℕ) (visited : Bool)
    → Positioned c.state.residents c.slots
    → ((p : ℕ) → get_elem? c.state.residents p ≢ some index)
    → length c.slots ≤ 2 ^ 32
    → index < length c.slots
    → length c.state.residents < length c.slots
    → length c.state.residents < c.state.capacity
    → (c' : Clock) × (insert c index hash visited ≡ some c')
      × (c'.state.residents ≡ c.state.residents ++ index ∷ [])
      × (get_elem? c'.slots index ≡ some (new_clock hash visited (length c.state.residents)))
      × Positioned c'.state.residents c'.slots
unfolding insert
insert-Positioned c index hash visited fits fresh few in_range room reserved =
    let n : ℕ = length c.state.residents in
    let new : PolicySlot = new_clock hash visited n in
    let (old, has) = get_of_lt-length c.slots index in_range in
    let here : get_elem? (set c.slots index new) index ≡ some new =
      get-set_same c.slots index new old has in
    (
      record {
        state = record c.state { residents = c.state.residents ++ index ∷ [] };
        slots = set c.slots index new;
      },
      rw
          (
            below n (length c.slots) room,
            below n c.state.capacity reserved,
            to_u32_small n (omega (arith, few, room)),
            to_u32_small index (omega (arith, few, in_range)),
            below index (length c.slots) in_range,
          )
          refl,
      refl,
      here,
      λ p r h. elim (get-snoc c.state.residents index p r h) [
        | inl before ↦
            let (slot, at, position) = fits p r before in
            let other : index ≢ r = λ e. fresh p (before ∙ ap some (sym e)) in
            (slot, get-set_other c.slots index r new old slot has at other, position)
        | inr (last, is) ↦ (new, ap (λ k. get_elem? (set c.slots index new) k) is ∙ here, sym last)
      ],
    )

-- No resident stands at two positions.
same_position :
    (xs : List ℕ) (slots : List PolicySlot) (a b r r' : ℕ)
    → Positioned xs slots
    → get_elem? xs a ≡ some r
    → get_elem? xs b ≡ some r'
    → r ≡ r'
    → a ≡ b
same_position xs slots a b r r' fits ha hb same =
    let (s, at, left) = fits a r ha in
    let (s', at', right) = fits b r' hb in
    let slot : s ≡ s' = some-injective _ _ (sym at ∙ ap (get_elem? slots) same ∙ at') in
    sym left ∙ ap (λ t. t.clock_position) slot ∙ right

-- The removal of the resident `index` at position `p`; `l` is the last resident, at position `n`.
module _ (xs : List ℕ) (slots : List PolicySlot) (index p l n : ℕ) (fits : Positioned xs slots)
    (h : get_elem? xs p ≡ some index) (last : get_last? xs ≡ some l) (size : suc n ≡ length xs)
    (end : get_elem? xs n ≡ some l) where
  abbrev left : List ℕ
  left = swap_remove xs p

  length-left : length left ≡ n
  length-left = omega (arith, length-swap_remove xs p h, size)

  still_there :
      (q r : ℕ)
      → get_elem? left q ≡ some r
      → (q < n) × (r ≢ index) × ((p ≡ q) × (r ≡ l) ⊎ (p ≢ q) × (get_elem? xs q ≡ some r))
  still_there q r found =
      let (lt, place) = get-swap_remove xs p index q r l h last found in
      let q_lt : q < n = omega (arith, lt, size) in
      (
        q_lt,
        λ e. elim place [
          | inl (at, is) ↦
              omega (arith, same_position xs slots n p l index fits end h (sym is ∙ e), at, q_lt)
          | inr (ne, kept) ↦ ne (same_position xs slots p q index r fits h kept (sym e))
        ],
        place,
      )

  moved_to : p < n → get_elem? left p ≡ some l
  moved_to lt =
      let (r, found) = get_of_lt-length left p (omega (arith, length-left, lt)) in
      let (_, _, place) = still_there p r found in
      elim place [ inl (_, is) ↦ found ∙ ap some is | inr (ne, _) ↦ absurd (ne refl) ]

  -- What `note_moved` leaves: the slot of each resident that stays holds its position.
  abbrev Noted : List PolicySlot → Type 0
  Noted noted =
      (note_moved slots left p ≡ some noted) × (length noted ≡ length slots) × Positioned left noted

  moved-Noted : p < n → (noted : List PolicySlot) × Noted noted
  moved-Noted lt =
      let (moved, at_l, _) = fits n l end in
      let changed : PolicySlot = record moved { clock_position = p } in
      let noted : List PolicySlot = set slots l changed in
      let inside : ltb p (length left) ≡ true =
        below p (length left) (omega (arith, length-left, lt)) in
      let same : length noted ≡ length slots = length-set slots l changed in
      let here : get_elem? noted l ≡ some changed = get-set_same slots l changed moved at_l in
      let placed : Positioned left noted = λ q r found.
        let (q_lt, _, place) = still_there q r found in
        elim place [
          | inl (at, is) ↦ (changed, ap (get_elem? noted) is ∙ here, at)
          | inr (_, kept) ↦
              let (s, at_r, position) = fits q r kept in
              let other : l ≢ r =
                λ e. omega (arith, same_position xs slots n q l r fits end kept e, q_lt) in
              (s, get-set_other slots l r changed moved s at_l at_r other, position)
        ] in
      (noted, (rw (inside, moved_to lt, at_l) refl, same, placed))

  last-Noted : ltb p (length left) ≡ false → (noted : List PolicySlot) × Noted noted
  last-Noted outside =
      let high : n ≤ p = ground (arith, outside, length-left) in
      (
        slots,
        (
          rw outside refl,
          refl,
          λ q r found.
              let (q_lt, _, place) = still_there q r found in
              elim place [
                | inl (at, _) ↦ absurd (omega (arith, at, q_lt, high))
                | inr (_, kept) ↦ fits q r kept
              ],
        ),
      )

  note_moved-Noted : (noted : List PolicySlot) × Noted noted
  note_moved-Noted = elim (Bool-cases (ltb p (length left))) [
    | inl inside ↦ moved-Noted (ground (arith, inside, length-left))
    | inr outside ↦ last-Noted outside
  ]

-- `remove` of a resident succeeds: one resident less, the index is none of them any more, and every
-- slot holds its position, also the one of the resident that took the place.
pub remove-Positioned :
    (c : Clock) (index p : ℕ)
    → Positioned c.state.residents c.slots
    → get_elem? c.state.residents p ≡ some index
    → (c' : Clock) × (remove c index ≡ some c')
      × (length c'.state.residents + 1 ≡ length c.state.residents)
      × ((q : ℕ) → get_elem? c'.state.residents q ≢ some index)
      × Positioned c'.state.residents c'.slots
unfolding remove
remove-Positioned c index p fits h =
    let xs : List ℕ = c.state.residents in
    let (slot, at, position) = fits p index h in
    let (l, last) = last_of_get xs p index h in
    let (n, size, end) = get-last xs l last in
    let (moved, at_l, position_l) = fits n l end in
    let (noted, (is, same, placed)) =
      note_moved-Noted xs c.slots index p l n fits h last size end in
    let inside : index < length noted = omega (arith, same, lt-length_of_get c.slots index at) in
    let (old, has) = get_of_lt-length noted index inside in
    let after : List ℕ = swap_remove xs p in
    let there : (q r : ℕ) → get_elem? after q ≡ some r → r ≢ index =
      λ q r found. (still_there xs c.slots index p l n fits h last size end q r found).1 in
    (
      record {
        state = record c.state { residents = after; hand = kept_hand c.state.hand after };
        slots = set noted index default_slot;
      },
      rw (at, position, h, (==_iff index index).1 refl, is, below index (length noted) inside) refl,
      length-swap_remove xs p h,
      λ q found. there q index found refl,
      λ q r found.
          let (s, at_r, place) = placed q r found in
          let other : index ≢ r = λ e. there q r found (sym e) in
          (s, get-set_other noted index r default_slot old s has at_r other, place),
    )
