-- ===== src/Manager/Rotation.antt =====
-- Methods of `RegionManager` that replace a shard's Region: cache2/src/region/manager.rs,
-- `select_rotation`, `rotation_candidate`, `begin_rotation` and `finish_rotation`. Queues are lists,
-- oldest first.
use cache.Base.{
  ℕ, Bool, false, not, ◌&&◌, ◌||◌, Option, none, some, List, [], ◌∷◌, ◌++◌, leb, ◌==◌, ◌!=◌,
  is_some, get_elem?, set, length,
}
use mathlib.Core.Bool.{decide}
use native.Mathlib.Decide.{ℕ_discrete}
use cache.Outcome.{ok, ◌>>=◌, ◌>>◌, guard, need, succeed, modify}
use cache.Manager.State.{
  to_u32, saturating_add, active, sealed, invalid_shard, would_block, stale_receipt,
  arithmetic_overflow, invariant, RotationReceipt, RotationCandidate, RotationSelection, ShardState,
  RegionDesc, Manager, Method, RotationReceipt-discrete, RotationCandidate-discrete, is_active,
  is_sealed, is_free, holds,
}
use cache.Manager.Append.{set_shard, set_region, allocate_seqno}
use cache.Manager.Flush.{owns}

abbrev pub head? : List ℕ → Option ℕ
head? [] = none
head? (x ∷ xs) = some x

abbrev pub tail_of : List ℕ → List ℕ
tail_of [] = []
tail_of (x ∷ xs) = xs

abbrev pub is_quiet : ShardState → Bool
is_quiet shard = not (
    is_some shard.tail
    || is_some shard.open_span
    || is_some shard.pending_padding
    || is_some shard.submitted_span
    || is_some shard.rotation)

unfoldable pub select_rotation : ℕ → Method RotationSelection
select_rotation shard_id m =
    (do
      shard ← need (get_elem? m.append_states shard_id) invalid_shard
      guard (shard.rotation_requested && is_quiet shard) would_block
      old_id ← need (get_elem? m.active_regions shard_id) invalid_shard
      old ← need (get_elem? m.regions old_id) (invariant "active Region id is out of bounds")
      guard (is_active old.state && old.reserved_used == old.completed_used) would_block
      victim_id ← need (head? m.free_regions) would_block
      victim ←
          need (get_elem? m.regions victim_id) (invariant "rotation victim id is out of bounds")
      guard (is_free victim.state && victim_id != old_id)
          (invariant "rotation victim queue is inconsistent")
      succeed (record {
        candidate = record {
          shard_id = shard_id;
          victim_region_id = victim_id;
          victim_created_seqno = victim.created_seqno;
        };
        old_index = old_id;
        victim_index = victim_id;
      }))
      m

unfoldable pub rotation_candidate : ℕ → Method RotationCandidate
rotation_candidate shard_id = do s ← select_rotation shard_id; succeed s.candidate

-- `self.free_regions.pop_front()`
unfoldable pub pop_free : Method (Option ℕ)
pop_free m = ok (head? m.free_regions) (record m { free_regions = tail_of m.free_regions })

-- `self.regions[index].state = RegionState::Sealed`
unfoldable pub seal_region : ℕ → Manager → Manager
seal_region index m = elim (get_elem? m.regions index) [
  | none ↦ m
  | some d ↦ set_region index (record d { state = sealed }) m
]

-- `self.active_regions[shard_id] = region_id`
abbrev pub set_active : ℕ → ℕ → Manager → Manager
set_active shard_id region_id m = record m {
  active_regions = set m.active_regions shard_id region_id;
}

-- `self.append_states[shard_id].rotation_requested = false` and `.rotation = Some(receipt)`
unfoldable pub note_rotation : ℕ → RotationReceipt → Manager → Manager
note_rotation shard_id receipt m = elim (get_elem? m.append_states shard_id) [
  | none ↦ m
  | some shard ↦
      set_shard shard_id (record shard { rotation_requested = false; rotation = some receipt }) m
]

abbrev pub fresh_region : ℕ → RegionDesc
fresh_region created_seqno = record {
  state = active;
  created_seqno = created_seqno;
  completed_used = 0;
  reserved_used = 0;
  physical_record_count = 0;
}

unfoldable pub begin_rotation : RotationCandidate → Method RotationReceipt
begin_rotation candidate = do
  selection ← select_rotation candidate.shard_id
  guard (decide (RotationCandidate-discrete selection.candidate candidate)) stale_receipt
  created_seqno ← allocate_seqno
  removed ← pop_free
  guard (holds ℕ_discrete removed candidate.victim_region_id)
      (invariant "rotation victim changed during selection")
  modify (seal_region selection.old_index)
  modify (set_region selection.victim_index (fresh_region created_seqno))
  modify (set_active candidate.shard_id candidate.victim_region_id)
  sealed_id ← need (to_u32 selection.old_index) arithmetic_overflow
  let receipt : RotationReceipt = record {
    shard_id = candidate.shard_id;
    sealed_region_id = sealed_id;
    activated_region_id = candidate.victim_region_id;
    activated_created_seqno = created_seqno;
  }
  modify (note_rotation candidate.shard_id receipt)
  succeed receipt

abbrev pub queues_full : Manager → Bool
queues_full m =
    leb m.queue_capacity (saturating_add (length m.free_regions) (length m.sealed_regions))

-- `sealed_regions.push_back`, the counter of rotations, and `rotation = None`
abbrev pub publish_sealed : ShardState → RotationReceipt → Manager → Manager
publish_sealed shard receipt m =
    set_shard receipt.shard_id (record shard { rotation = none })
      (record m {
        sealed_regions = m.sealed_regions ++ receipt.sealed_region_id ∷ [];
        rotations = saturating_add m.rotations 1;
      })

unfoldable pub finish_rotation : RotationReceipt → Method (Unit {0})
finish_rotation receipt m =
    (do
      shard ← need (get_elem? m.append_states receipt.shard_id) invalid_shard
      guard (holds RotationReceipt-discrete shard.rotation receipt) stale_receipt
      old ← need (get_elem? m.regions receipt.sealed_region_id) stale_receipt
      fresh ← need (get_elem? m.regions receipt.activated_region_id) stale_receipt
      guard
          (owns m receipt.shard_id receipt.activated_region_id
            && is_sealed old.state
            && is_active fresh.state
            && fresh.created_seqno == receipt.activated_created_seqno)
          stale_receipt
      guard (not (queues_full m)) (invariant "sealed Region queue exceeded its reserved capacity")
      modify (publish_sealed shard receipt))
      m
