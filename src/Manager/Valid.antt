-- ===== src/Manager/Valid.antt =====
-- The invariant of `RegionManager`: cache2/src/region/manager.rs.
use cache.Base.{
  ℕ, ◌+◌, ◌%◌, ◌≤◌, ◌<◌, ◌≡◌, Bool, false, Option, none, some, ltb, if◌then◌else◌, get_elem?,
  length, hit, total,
}
use cache.Manager.State.{
  direct_io_alignment, record_alignment, u64_max, u32_max, AppendReservation, PaddingReceipt,
  WriteSpan, RotationReceipt, OpenSpan, ShardState, RegionDesc, Manager, is_active, is_free,
}

-- Where the bytes of a submitted, and then of an open span end, if there is one.
abbrev pub after_submitted : ℕ → Option WriteSpan → ℕ
after_submitted used none = used
after_submitted used (some span) = span.end_offset

abbrev pub after_open : ℕ → Option OpenSpan → ℕ
after_open used none = used
after_open used (some span) = span.end_offset

abbrev pub unstaged : ShardState → RegionDesc → ℕ
unstaged shard d =
    after_open (after_submitted d.completed_used shard.submitted_span) shard.open_span

abbrev pub SubmittedFits : ℕ → ℕ → RegionDesc → Option WriteSpan → Type 0
SubmittedFits s r d none = Unit
SubmittedFits s r d (some w) =
    (w.shard_id ≡ s)
    × (w.region_id ≡ r)
    × (w.start_offset ≡ d.completed_used)
    × (w.start_offset < w.end_offset)
    × (w.end_offset % direct_io_alignment ≡ 0)
    × (0 < w.record_count)
    × (d.created_seqno ≤ w.max_seqno)

abbrev pub OpenFits : ℕ → ℕ → RegionDesc → ℕ → Option OpenSpan → Type 0
OpenFits next r d start none = Unit
OpenFits next r d start (some o) =
    (o.region_id ≡ r)
    × (o.start_offset ≡ start)
    × (o.start_offset < o.end_offset)
    × (0 < o.record_count)
    × (0 < o.max_seqno)
    × (d.created_seqno ≤ o.max_seqno)
    × (o.max_seqno < next)

-- Sequence numbers of one shard's records grow.
abbrev pub Younger : Option OpenSpan → ℕ → Type 0
Younger none seqno = Unit
Younger (some o) seqno = o.max_seqno < seqno

-- What stands between the staged bytes and the reservation cursor: a tail, a padding or nothing.
-- The staged bytes end at `start`; `o` and `w` are the open and the submitted span.
abbrev pub TailFits :
    ℕ
    → ℕ
    → ℕ
    → RegionDesc
    → ℕ
    → Option OpenSpan
    → Option WriteSpan
    → Option AppendReservation
    → Option PaddingReceipt
    → Type 0
TailFits next s r d start o w none none = start ≡ d.reserved_used
TailFits next s r d start o w (some t) none =
    (t.shard_id ≡ s)
    × (t.region_id ≡ r)
    × (t.offset ≡ start)
    × (t.offset + t.record_bytes ≡ d.reserved_used)
    × (0 < t.record_bytes)
    × (0 < t.seqno)
    × (d.created_seqno ≤ t.seqno)
    × (t.seqno < next)
    × Younger o t.seqno
TailFits next s r d start o w none (some p) =
    (p.shard_id ≡ s)
    × (p.region_id ≡ r)
    × (p.unpadded_end_offset ≡ start)
    × (p.unpadded_end_offset < p.padded_end_offset)
    × (p.padded_end_offset < p.unpadded_end_offset + direct_io_alignment)
    × (p.padded_end_offset % direct_io_alignment ≡ 0)
    × (p.padded_end_offset ≡ d.reserved_used)
    × (w ≡ none)
TailFits next s r d start o w (some t) (some p) = ⊥

-- A shard in rotation owns its new Region, and has no span and no receipt.
abbrev pub RotationFits :
    ℕ
    → ℕ
    → RegionDesc
    → Option AppendReservation
    → Option OpenSpan
    → Option PaddingReceipt
    → Option WriteSpan
    → Option RotationReceipt
    → Type 0
RotationFits s r d t o p w none = Unit
RotationFits s r d t o p w (some q) =
    (q.shard_id ≡ s)
    × (q.activated_region_id ≡ r)
    × (q.activated_created_seqno ≡ d.created_seqno)
    × (t ≡ none)
    × (o ≡ none)
    × (p ≡ none)
    × (w ≡ none)

-- The bytes of an Active Region are, in this order, completed, submitted, staged and reserved.
pub record ChainFits (next s r : ℕ) (shard : ShardState) (d : RegionDesc) : Type 0 where
  pub submitted : SubmittedFits s r d shard.submitted_span
  pub opened :
      OpenFits next r d (after_submitted d.completed_used shard.submitted_span) shard.open_span
  pub tail :
      TailFits next s r d
        (unstaged shard d)
        shard.open_span
        shard.submitted_span
        shard.tail
        shard.pending_padding
  pub rotation :
      RotationFits s r d shard.tail shard.open_span shard.pending_padding shard.submitted_span
        shard.rotation

pub record RegionFits (size next : ℕ) (d : RegionDesc) : Type 0 where
  pub reserved : d.reserved_used ≤ size
  pub completed : d.completed_used ≤ d.reserved_used
  pub completed_aligned : d.completed_used % direct_io_alignment ≡ 0
  pub reserved_aligned : d.reserved_used % record_alignment ≡ 0
  pub created : d.created_seqno < next
  pub quiet : is_active d.state ≡ false → d.completed_used ≡ d.reserved_used

-- 1 where the shard withholds the sealed Region `r` in a rotation.
abbrev pub rotating : ℕ → ShardState → ℕ
rotating r shard = elim shard.rotation [ none ↦ 0 | some q ↦ hit r q.sealed_region_id ]

abbrev pub in_rotation : ShardState → ℕ
in_rotation shard = elim shard.rotation [ none ↦ 0 | some q ↦ 1 ]

-- How often the Region `r` stands in the manager's queues and receipts.
abbrev pub places : Manager → ℕ → ℕ
places m r =
    total (hit r) m.active_regions
    + total (hit r) m.free_regions
    + total (hit r) m.sealed_regions
    + total (λ c. hit r c.region_id) m.reclaiming
    + total (rotating r) m.append_states

abbrev pub one_if : Bool → ℕ
one_if b = if b then 1 else 0

pub record IsValid (m : Manager) : Type 0 where
  pub aligned_size : m.region_size % direct_io_alignment ≡ 0
  pub size_fits : m.region_size ≤ u32_max
  pub few_regions : length m.regions ≤ u32_max
  pub seqno_starts : 0 < m.next_seqno
  pub seqno_fits : m.next_seqno ≤ u64_max
  pub shards : length m.append_states ≡ length m.active_regions
  pub capacity : m.queue_capacity + length m.active_regions ≡ length m.regions
  pub sizes :
      length m.active_regions
        + length m.free_regions
        + length m.sealed_regions
        + length m.reclaiming
        + total in_rotation m.append_states
      ≡ length m.regions
  pub placed : (r : ℕ) → places m r ≡ one_if (ltb r (length m.regions))
  pub active_iff :
      (r : ℕ) (d : RegionDesc)
      → get_elem? m.regions r ≡ some d
      → total (hit r) m.active_regions ≡ one_if (is_active d.state)
  pub free_iff :
      (r : ℕ) (d : RegionDesc)
      → get_elem? m.regions r ≡ some d
      → total (hit r) m.free_regions ≡ one_if (is_free d.state)
  pub region_fits :
      (r : ℕ) (d : RegionDesc)
      → get_elem? m.regions r ≡ some d
      → RegionFits m.region_size m.next_seqno d
  pub chain_fits :
      (s r : ℕ) (shard : ShardState) (d : RegionDesc)
      → get_elem? m.append_states s ≡ some shard
      → get_elem? m.active_regions s ≡ some r
      → get_elem? m.regions r ≡ some d
      → ChainFits m.next_seqno s r shard d
