-- ===== src/Eviction/Scan.antt =====
-- What CLOCK's scan promises: cache2/src/memory/eviction.rs.
use mathlib.Core.Path.{subst}
use cache.Base.{
  ℕ, zero, suc, ◌+◌, ◌-◌, ◌*◌, min, sym, ap, ◌≤◌, ◌<◌, ◌≡◌, refl, ◌∙◌, Bool, true, false, not, ◌&&◌,
  ◌||◌, ◌⊎◌, inl, inr, none, some, Bool-cases, List, arith, ◌==◌, get_elem?, length, length-set,
  get-set, get_of_lt-length,
}
use cache.Eviction.Flags.{is_resident-visited_flags}
use cache.Eviction.Slot.{
  PolicySlot, is_resident, clock_visited, set_clock_visited, maximum_scan_steps,
}
use cache.Eviction.Clock.{
  ClockState, Clock, Scan, position_of, advanced, passed_over, scan, select_victim,
}

-- Each resident has a slot that is marked as resident.
abbrev pub Occupied : Clock → Type 0
Occupied c =
    (p r : ℕ)
    → get_elem? c.state.residents p ≡ some r
    → (slot : PolicySlot) × (get_elem? c.slots r ≡ some slot) × (is_resident slot.flags ≡ true)

-- The hand goes on by `k` positions.
abbrev pub advanced_by : ℕ → ClockState → ClockState
advanced_by zero s = s
advanced_by (suc k) s = advanced_by k (advanced s)

-- How a scan of `steps` steps, at most `n`, ends: without a victim, because there are no residents,
-- no steps are left or all `n` are taken; or at a resident under the hand that may be reclaimed.
abbrev pub Ended : (ℕ → Bool) → Clock → ℕ → ℕ → Scan → Type 0
Ended can_reclaim c n steps s =
    (s.victim ≡ none) × ((length c.state.residents ≡ 0) ⊎ ((s.remaining ≡ 0) ⊎ (steps ≡ n)))
    ⊎ (j : ℕ) × (r : ℕ) × (steps ≡ suc j)
      × (s.victim ≡ some r)
      × (get_elem? c.state.residents (position_of (advanced_by j c.state)) ≡ some r)
      × (can_reclaim r ≡ true)

-- A scan of at most `n` steps: the slots and residents are as many as before, and each step moves
-- the hand by one position and takes one of the remaining steps.
pub record Scanned (can_reclaim : ℕ → Bool) (c : Clock) (n remaining : ℕ) (s : Scan) : Type 0 where
  pub residents : s.clock.state.residents ≡ c.state.residents
  pub slots : length s.clock.slots ≡ length c.slots
  pub steps : ℕ
  pub bounded : steps ≤ n
  pub counted : s.remaining + steps ≡ remaining
  pub hand : s.clock.state ≡ advanced_by steps c.state
  pub ended : Ended can_reclaim c n steps s

length-passed_over :
    (slots : List PolicySlot) (i : ℕ) (slot : PolicySlot)
    → length (passed_over slots i slot) ≡ length slots
length-passed_over slots i slot = elim (Bool-cases (clock_visited slot.flags)) [
  | inl seen ↦ rw seen (length-set slots i (set_clock_visited slot false))
  | inr unseen ↦ rw unseen refl
]

position-in_range :
    (s : ClockState) → (length s.residents == 0) ≡ false → position_of s < length s.residents
position-in_range s some_left = ground arith

passed_over-Occupied :
    (slots : List PolicySlot) (i : ℕ) (slot : PolicySlot) (r : ℕ) (w : PolicySlot)
    → get_elem? slots i ≡ some slot
    → is_resident slot.flags ≡ true
    → get_elem? slots r ≡ some w
    → is_resident w.flags ≡ true
    → (w' : PolicySlot) × (get_elem? (passed_over slots i slot) r ≡ some w')
      × (is_resident w'.flags ≡ true)
passed_over-Occupied slots i slot r w has marked at resident =
    let passed : PolicySlot = set_clock_visited slot false in
    elim (Bool-cases (clock_visited slot.flags)) [
      | inr unseen ↦ (w, rw unseen at, resident)
      | inl seen ↦ elim (Bool-cases (i == r)) [
        | inl same ↦ (
          passed,
          rw (seen, get-set slots i r passed has, same) refl,
          is_resident-visited_flags slot.flags ∙ marked,
        )
        | inr other ↦ (w, rw (seen, get-set slots i r passed has, other) at, resident)
      ]
    ]

stop_reason : (a b : ℕ) → (a == 0 || b == 0) ≡ true → (a ≡ 0) ⊎ (b ≡ 0)
stop_reason a b h = ground arith

stopped :
    (can_reclaim : ℕ → Bool) (c : Clock) (n remaining : ℕ)
    → (length c.state.residents ≡ 0) ⊎ ((remaining ≡ 0) ⊎ (0 ≡ n))
    → Scanned can_reclaim c n remaining (record { victim = none; clock = c; remaining = remaining })
stopped can_reclaim c n remaining reason = record {
  residents = refl;
  slots = refl;
  steps = 0;
  bounded = omega arith;
  counted = omega arith;
  hand = refl;
  ended = inl (refl, reason);
}

-- One step more before a scan.
step-Ended :
    (can_reclaim : ℕ → Bool) (c next : Clock) (n steps : ℕ) (s : Scan)
    → next.state ≡ advanced c.state
    → Ended can_reclaim next n steps s
    → Ended can_reclaim c (suc n) (suc steps) s
step-Ended can_reclaim c next n steps s moved e = elim e [
  | inl (nothing, reason) ↦ inl (
    nothing,
    elim reason [
      | inl empty ↦ inl (ap (λ t. length t.residents) (sym moved) ∙ empty)
      | inr (inl over) ↦ inr (inl over)
      | inr (inr all) ↦ inr (inr (ap suc all))
    ],
  )
  | inr (j, r, is, victim, under, may) ↦ inr (
    suc j,
    r,
    ap suc is,
    victim,
    sym (ap (λ t. get_elem? t.residents (position_of (advanced_by j t))) moved) ∙ under,
    may,
  )
]

scan_lem :
    (n : ℕ) (can_reclaim : ℕ → Bool) (c : Clock) (remaining : ℕ)
    → Occupied c
    → (s : Scan) × (scan n can_reclaim c remaining ≡ some s) × Scanned can_reclaim c n remaining s
unfolding scan
scan_lem zero can_reclaim c remaining fits =
    (_, refl, stopped can_reclaim c 0 remaining (inr (inr refl)))
scan_lem (suc n) can_reclaim c remaining fits =
    elim (Bool-cases (length c.state.residents == 0 || remaining == 0)) [
      | inl stop ↦ (
        _,
        rw stop refl,
        stopped can_reclaim c (suc n) remaining
            (elim (stop_reason _ _ stop) [ inl empty ↦ inl empty | inr over ↦ inr (inl over) ]),
      )
      | inr on ↦
          let some_left : 0 < remaining = ground arith in
          let (r, found) =
            get_of_lt-length c.state.residents (position_of c.state)
              (position-in_range c.state (ground arith)) in
          let (slot, has, marked) = fits (position_of c.state) r found in
          let next : Clock = record {
            state = advanced c.state;
            slots = passed_over c.slots r slot;
          } in
          let same : length next.slots ≡ length c.slots = length-passed_over c.slots r slot in
          let (s, is, q) = scan_lem n can_reclaim next (remaining - 1) (λ p x h.
            let (w, at, resident) = fits p x h in
            passed_over-Occupied c.slots r slot x w has marked at resident) in
          elim (Bool-cases (not (clock_visited slot.flags) && can_reclaim r)) [
            | inl take_it ↦ (
              record { victim = some r; clock = next; remaining = remaining - 1 },
              rw (on, found, has, marked, take_it) refl,
              record {
                residents = refl;
                slots = same;
                steps = 1;
                bounded = omega arith;
                counted = omega arith;
                hand = refl;
                ended = inr (0, r, refl, refl, found, ground (arith, take_it));
              },
            )
            | inr pass ↦ (
              s,
              rw (on, found, has, marked, pass) is,
              record {
                residents = q.residents;
                slots = q.slots ∙ same;
                steps = suc q.steps;
                bounded = omega (arith, q.bounded);
                counted = omega (arith, q.counted);
                hand = q.hand;
                ended = step-Ended can_reclaim c next n q.steps s refl q.ended;
              },
            )
          ]
    ]

-- Where each resident has a slot that is marked as resident, `select_victim` does not panic. The
-- residents stay the same. With `n` residents it takes at most 2 * n + 1 steps, at most 64, and no
-- more than are left; each step moves the hand by one position and is taken from those that are
-- left. Its victim is the resident under the hand at the last step, and the caller may reclaim it.
-- There is no victim only where there are no residents, no steps are left or all are taken.
pub select_victim-Scanned :
    (can_reclaim : ℕ → Bool) (c : Clock) (remaining : ℕ)
    → Occupied c
    → (s : Scan) × (select_victim can_reclaim c remaining ≡ some s)
      × Scanned can_reclaim c (min (2 * length c.state.residents + 1) 64) remaining s
unfolding select_victim
select_victim-Scanned can_reclaim c remaining fits =
    let bound : maximum_scan_steps (length c.state.residents)
        ≡ min (2 * length c.state.residents + 1) 64 =
      omega arith in
    let (s, is, q) =
      scan_lem (maximum_scan_steps (length c.state.residents)) can_reclaim c remaining fits in
    (s, is, subst (λ n. Scanned can_reclaim c n remaining s) bound q)
