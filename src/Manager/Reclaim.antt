-- ===== src/Manager/Reclaim.antt =====
-- Methods of `RegionManager` that clean sealed Regions: cache2/src/region/manager.rs,
-- `configure_reclaim_workers`, `reclaim_needed`, `begin_reclaim` and `finish_reclaim`.
-- The reservation of vector capacity, which may fail, is left out.
use cache.Base.{
  ℕ, suc, max, Bool, not, ◌&&◌, ◌||◌, Option, none, some, List, [], ◌∷◌, ◌++◌, ltb, ◌==◌, ◌!=◌,
  if◌then◌else◌, get_elem?, length, swap_remove,
}
use mathlib.Core.Bool.{decide}
use cache.Outcome.{ok, ◌>>=◌, ◌>>◌, guard, need, succeed, modify, branch}
use cache.Manager.State.{
  saturating_add, free, stale_receipt, invariant, ReclaimReceipt, RegionDesc, Manager, Method,
  ReclaimReceipt-discrete, is_sealed,
}
use cache.Manager.Append.{set_region}
use cache.Manager.Rotation.{head?, tail_of, queues_full}

unfoldable pub reclaim_needed : Manager → Bool
reclaim_needed m =
    ltb (length m.reclaiming) m.reclaim_limit
    && not (length m.sealed_regions == 0)
    && ltb (saturating_add (length m.free_regions) (length m.reclaiming))
        (max (length m.active_regions) 1)

-- `none` is the refusal of an invalid number of workers.
unfoldable pub configure_reclaim_workers : ℕ → Manager → Option Manager
configure_reclaim_workers workers m =
    if workers == 0 || ltb (length m.active_regions) workers || length m.reclaiming != 0
    then none
    else some (record m { reclaim_limit = workers })

-- `self.sealed_regions.pop_front()`
unfoldable pub pop_sealed : Method (Option ℕ)
pop_sealed m = ok (head? m.sealed_regions) (record m { sealed_regions = tail_of m.sealed_regions })

abbrev pub reclaim_receipt : ℕ → RegionDesc → ReclaimReceipt
reclaim_receipt region_id region = record {
  region_id = region_id;
  created_seqno = region.created_seqno;
  used_offset = region.completed_used;
  physical_record_count = region.physical_record_count;
}

abbrev pub push_reclaiming : ReclaimReceipt → Manager → Manager
push_reclaiming receipt m = record m { reclaiming = m.reclaiming ++ receipt ∷ [] }

abbrev pub take_sealed : Manager → Method (Option ReclaimReceipt)
take_sealed m = do
  popped ← pop_sealed
  region_id ← need popped (invariant "reclaim selection lost its sealed Region")
  region ← need (get_elem? m.regions region_id) (invariant "reclaim Region id is out of bounds")
  guard (is_sealed region.state && region.completed_used == region.reserved_used)
      (invariant "reclaim victim is not a completed sealed Region")
  modify (push_reclaiming (reclaim_receipt region_id region))
  succeed (some (reclaim_receipt region_id region))

unfoldable pub begin_reclaim : Method (Option ReclaimReceipt)
begin_reclaim m = branch (reclaim_needed m) (take_sealed m) (succeed none) m

-- `iter().position(|current| *current == receipt)`
unfoldable pub position : List ReclaimReceipt → ReclaimReceipt → Option ℕ
position [] r = none
position (x ∷ xs) r =
    if decide (ReclaimReceipt-discrete x r)
    then some 0
    else elim (position xs r) [ none ↦ none | some i ↦ some (suc i) ]

abbrev pub free_region : RegionDesc
free_region = record {
  state = free;
  created_seqno = 0;
  completed_used = 0;
  reserved_used = 0;
  physical_record_count = 0;
}

-- The Region becomes Free, joins the free queue, and leaves the list of those being cleaned.
abbrev pub release_region : ℕ → ℕ → Manager → Manager
release_region region_id at m = set_region region_id free_region (record m {
  free_regions = m.free_regions ++ region_id ∷ [];
  reclaiming = swap_remove m.reclaiming at;
})

unfoldable pub finish_reclaim : ReclaimReceipt → Method (Unit {0})
finish_reclaim receipt m =
    (do
      at ← need (position m.reclaiming receipt) stale_receipt
      region ← need (get_elem? m.regions receipt.region_id) stale_receipt
      guard
          (is_sealed region.state
            && region.created_seqno == receipt.created_seqno
            && region.completed_used == receipt.used_offset
            && region.physical_record_count == receipt.physical_record_count)
          stale_receipt
      guard (not (queues_full m)) (invariant "free Region queue exceeded its reserved capacity")
      modify (release_region receipt.region_id at))
      m
