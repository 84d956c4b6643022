-- ===== src/Manager/FlushKeeps.antt =====
-- The methods that pad, submit and complete write spans keep the invariant, with any arguments and
-- on every path: cache2/src/region/manager.rs.
use cache.Base.{
  ℕ, ◌+◌, ◌%◌, ◌^◌, ◌≤◌, ◌<◌, ◌≡◌, refl, sym, ◌∙◌, true, false, not, ◌||◌, none, some, arith, ◌==◌,
  is_some, get_elem?,
}
use mathlib.Core.Option.{some-injective}
use native.Mathlib.Decide.{ℕ_discrete}
use cache.Outcome.{guard-rule, need-rule, modify-rule, modify-last, succeed-rule, branch-rule}
use cache.Manager.State.{
  direct_io_alignment, checked_add, padding_of, PaddingReceipt, WriteSpan, OpenSpan, ShardState,
  RegionDesc, Manager, PaddingReceipt-discrete, WriteSpan-discrete, holds, holds_sound, is_active,
}
use cache.Manager.Flush.{
  owns, reserve_write_padding, submit_open_span, seal_write_span, seal_write_span_with_padding,
  complete_write_span,
}
use cache.Manager.Valid.{ChainFits, RegionFits, IsValid}
use cache.Manager.Views.{ShardView, shard_view}
use cache.Manager.Update.{replace-IsValid, replace_shard-IsValid}
use cache.Manager.AppendKeeps.{Keeps}

abbrev padding_at : ℕ → OpenSpan → ℕ → PaddingReceipt
padding_at s o padded = record {
  shard_id = s;
  region_id = o.region_id;
  span_start_offset = o.start_offset;
  unpadded_end_offset = o.end_offset;
  padded_end_offset = padded;
  record_count = o.record_count;
  max_seqno = o.max_seqno;
}

-- A padding takes the bytes from the end of the open span to the next alignment boundary.
module _ {next size s r : ℕ} (shard : ShardState) (d : RegionDesc) (o : OpenSpan) (padded : ℕ)
    (idle : not (
        is_some shard.tail
        || is_some shard.pending_padding
        || is_some shard.submitted_span
        || is_some shard.rotation)
      ≡ true)
    (has : shard.open_span ≡ some o) (c : ChainFits next s r shard d) (f : RegionFits size next d)
    (misaligned : padding_of o.end_offset == 0 ≡ false) (small : o.end_offset ≤ 2 ^ 32)
    (e : checked_add o.end_offset (padding_of o.end_offset) ≡ some padded) where
  padded_aligned :
      (o.end_offset < padded)
      × (padded < o.end_offset + direct_io_alignment)
      × (padded % direct_io_alignment ≡ 0)
      × (o.end_offset ≡ d.reserved_used)
  padded_aligned = ground (arith, c.tail)

  pad-RegionFits :
      is_active d.state ≡ true
      → padded ≤ size
      → RegionFits size next (record d { reserved_used = padded })
  pad-RegionFits act le = record {
    reserved = le;
    completed = omega (arith, f.completed, padded_aligned);
    completed_aligned = f.completed_aligned;
    reserved_aligned = omega (arith, padded_aligned);
    created = f.created;
    quiet = ground arith;
  }

  pad-ChainFits :
      ChainFits next s r
        (record shard { pending_padding = some (padding_at s o padded) })
        (record d { reserved_used = padded })
  pad-ChainFits = record {
    submitted = c.submitted;
    opened = c.opened;
    tail = ground (arith, c.opened, padded_aligned);
    rotation = ground (arith, c.rotation);
  }

abbrev span_at : ℕ → OpenSpan → ℕ → WriteSpan
span_at s o end = record {
  shard_id = s;
  region_id = o.region_id;
  start_offset = o.start_offset;
  end_offset = end;
  record_count = o.record_count;
  max_seqno = o.max_seqno;
}

-- A submitted span takes all the reserved bytes that are not completed.
submit-ChainFits :
    {next s r : ℕ} (shard : ShardState) (d : RegionDesc) (o : OpenSpan) (end : ℕ)
    → ChainFits next s r shard d
    → shard.open_span ≡ some o
    → shard.submitted_span ≡ none
    → shard.tail ≡ none
    → end ≡ d.reserved_used
    → end % direct_io_alignment ≡ 0
    → o.start_offset < end
    → ChainFits next s r
        (record shard {
          open_span = none;
          pending_padding = none;
          submitted_span = some (span_at s o end);
        })
        d
submit-ChainFits shard d o end c has free no_tail all aligned grows = record {
  submitted = ground (arith, c.opened);
  opened = tt;
  tail = ground (arith, c.opened);
  rotation = ground (arith, c.rotation);
}

complete-ChainFits :
    {next s r : ℕ} (shard : ShardState) (d : RegionDesc) (w : WriteSpan) (count : ℕ)
    → ChainFits next s r shard d
    → shard.submitted_span ≡ some w
    → ChainFits next s r
        (record shard { submitted_span = none })
        (record d { completed_used = w.end_offset; physical_record_count = count })
complete-ChainFits shard d w count c has = record {
  submitted = tt;
  opened = ground (arith, c.opened);
  tail = ground (arith, c.tail);
  rotation = ground (arith, c.rotation);
}

complete-RegionFits :
    {next size : ℕ} (d : RegionDesc) (w : WriteSpan) (count : ℕ)
    → RegionFits size next d
    → is_active d.state ≡ true
    → w.end_offset % direct_io_alignment ≡ 0
    → w.end_offset ≤ d.reserved_used
    → RegionFits size next
        (record d { completed_used = w.end_offset; physical_record_count = count })
complete-RegionFits d w count f act aligned le = record {
  reserved = f.reserved;
  completed = le;
  completed_aligned = aligned;
  reserved_aligned = f.reserved_aligned;
  created = f.created;
  quiet = ground arith;
}

module _ {m : Manager} (v : IsValid m) where
  pub reserve_write_padding-IsValid : (s : ℕ) → Keeps (reserve_write_padding s m)
  unfolding reserve_write_padding
  reserve_write_padding-IsValid s =
      need-rule Keeps _ _ _ m (λ _. v)
        λ shard h.
          guard-rule Keeps _ _ _ m (λ _. v)
            λ idle.
              need-rule Keeps _ _ _ m (λ _. v)
                λ o has.
                  guard-rule Keeps _ _ _ m (λ _. v)
                    λ identity.
                      need-rule Keeps _ _ _ m (λ _. v)
                        λ region found.
                          guard-rule Keeps _ _ _ m (λ _. v)
                            λ authority.
                              branch-rule Keeps _ _ _ m (λ _. succeed-rule Keeps _ _ v)
                                λ misaligned.
                                  need-rule Keeps _ _ _ m (λ _. v)
                                    λ padded e.
                                      guard-rule Keeps _ _ _ m (λ _. v)
                                        λ fits. modify-rule Keeps _ _ _ (
                                          modify-rule Keeps _ _ _ (
                                            succeed-rule Keeps _ _ (
                                              let f : RegionFits m.region_size m.next_seqno region =
                                                v.region_fits o.region_id region found in
                                              let own : owns m s o.region_id ≡ true =
                                                ground arith in
                                              let owned : get_elem? m.active_regions s
                                                  ≡ some o.region_id =
                                                holds_sound ℕ_discrete _ _ own in
                                              let c : ChainFits m.next_seqno s o.region_id shard
                                                  region =
                                                v.chain_fits s o.region_id shard region h owned
                                                  found in
                                              let small : o.end_offset ≤ 2 ^ 32 =
                                                ground (arith, f.reserved, v.size_fits) in
                                              replace-IsValid v s o.region_id _ _ m.next_seqno h
                                                owned found refl refl (omega arith) v.seqno_fits
                                                (pad-RegionFits shard region o padded idle has c f
                                                  misaligned small e (ground arith) (ground arith))
                                                (pad-ChainFits shard region o padded idle has c f
                                                  misaligned small e))))

  submit_open_span-IsValid :
      (s end : ℕ) (shard : ShardState) (o : OpenSpan)
      → get_elem? m.append_states s ≡ some shard
      → shard.open_span ≡ some o
      → shard.submitted_span ≡ none
      → shard.tail ≡ none
      → ((r : ℕ) (d : RegionDesc) → ChainFits m.next_seqno s r shard d → end ≡ d.reserved_used)
      → Keeps (submit_open_span s end m)
  unfolding submit_open_span
  submit_open_span-IsValid s end shard o h has free no_tail all =
      need-rule Keeps _ _ _ m (λ _. v)
        λ shard' h'.
          need-rule Keeps _ _ _ m (λ _. v)
            λ o' has'.
              guard-rule Keeps _ _ _ m (λ _. v)
                λ aligned. modify-rule Keeps _ _ _ (
                  succeed-rule Keeps _ _ (
                    let same : shard' ≡ shard = some-injective shard' shard (sym h' ∙ h) in
                    let w : ShardView m s = shard_view v s shard' h' in
                    let c : ChainFits m.next_seqno s w.region_id shard' w.region =
                      v.chain_fits s w.region_id shard' w.region h' w.owned w.found in
                    replace_shard-IsValid v s w.region_id _ h' w.owned w.found refl (
                      submit-ChainFits shard' w.region o' end c has' (rw same free)
                        (rw same no_tail) (all w.region_id w.region (rw same at c)) (ground arith)
                        (ground arith))))

  pub complete_write_span-IsValid : (w : WriteSpan) → Keeps (complete_write_span w m)
  unfolding complete_write_span
  complete_write_span-IsValid w =
      need-rule Keeps _ _ _ m (λ _. v)
        λ shard h.
          guard-rule Keeps _ _ _ m (λ _. v)
            λ is_submitted.
              need-rule Keeps _ _ _ m (λ _. v)
                λ region found.
                  guard-rule Keeps _ _ _ m (λ _. v)
                    λ fits.
                      need-rule Keeps _ _ _ m (λ _. v)
                        λ count e. modify-rule Keeps _ _ _ (
                          modify-last Keeps _ _ (
                            let own : owns m w.shard_id w.region_id ≡ true = ground arith in
                            let owned : get_elem? m.active_regions w.shard_id ≡ some w.region_id =
                              holds_sound ℕ_discrete _ _ own in
                            let has : shard.submitted_span ≡ some w =
                              holds_sound WriteSpan-discrete _ w is_submitted in
                            let c : ChainFits m.next_seqno w.shard_id w.region_id shard region =
                              v.chain_fits w.shard_id w.region_id shard region h owned found in
                            replace-IsValid v w.shard_id w.region_id _ _ m.next_seqno h owned found
                              refl refl (omega arith) v.seqno_fits
                              (complete-RegionFits region w count
                                (v.region_fits w.region_id region found) (ground arith)
                                (ground (arith, c.submitted)) (ground arith))
                              (complete-ChainFits shard region w count c has)))

  pub seal_write_span-IsValid : (s : ℕ) → Keeps (seal_write_span s m)
  unfolding seal_write_span
  seal_write_span-IsValid s =
      need-rule Keeps _ _ _ m (λ _. v)
        λ shard h.
          guard-rule Keeps _ _ _ m (λ _. v)
            λ idle.
              need-rule Keeps _ _ _ m (λ _. v)
                λ o has.
                  submit_open_span-IsValid s o.end_offset shard o h has (ground arith)
                    (ground arith) (λ r d c. ground (arith, c.tail))

  pub seal_write_span_with_padding-IsValid :
      (p : PaddingReceipt) → Keeps (seal_write_span_with_padding p m)
  unfolding seal_write_span_with_padding
  seal_write_span_with_padding-IsValid p =
      need-rule Keeps _ _ _ m (λ _. v)
        λ shard h.
          guard-rule Keeps _ _ _ m (λ _. v)
            λ idle.
              need-rule Keeps _ _ _ m (λ _. v)
                λ o has.
                  guard-rule Keeps _ _ _ m (λ _. v)
                    λ matches.
                      need-rule Keeps _ _ _ m (λ _. v)
                        λ region found.
                          guard-rule Keeps _ _ _ m (λ _. v)
                            λ authority.
                              let held : holds PaddingReceipt-discrete shard.pending_padding p
                                  ≡ true =
                                ground arith in
                              let pending : shard.pending_padding ≡ some p =
                                holds_sound PaddingReceipt-discrete _ p held in
                              submit_open_span-IsValid p.shard_id p.padded_end_offset shard o h has
                                (ground arith) (ground arith) (λ r d c. ground (arith, c.tail))
