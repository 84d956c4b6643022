-- ===== src/Index/Tiling.antt =====
-- The partitions of the index image tile it: cache2/src/region/index/storage/mod.rs.
use native.Mathlib.Nat.{mod-add-div, mod-lt}
use cache.Base.{
  ℕ, zero, suc, ◌+◌, ◌-◌, ◌*◌, ◌/◌, ◌%◌, ◌≤◌, ◌<◌, min, ◌≡◌, refl, sym, ap, ◌∙◌, true, not, ◌||◌,
  some, inl, inr, Bool-cases, List, [], ◌∷◌, arith, ltb, leb, ◌==◌, total, total-cons,
}
use mathlib.Core.Path.{subst}
use mathlib.Core.Sum.{inr-injective}
use cache.Bits.{power_positive}
use cache.Checked.{bind-inr, ensure-inr, needed-inr}
use cache.Manager.State.{checked_add}
use cache.Index.Layout.{
  slots_per_page, index_candidates, PartitionRange, checked_mul, checked_sub, image_pages,
  validated_pages, shrink, pages_of, ranges_from, canonical_ranges,
}

-- The ranges are numbered from `id` on. The first starts at the page `first` and the slot `slot`,
-- and each other one at the page and the slot where the one before it ends. The slots of a range
-- are on its pages, and they are enough for the candidates of a key.
abbrev pub Tiled : ℕ → ℕ → ℕ → List PartitionRange → Type 0
Tiled id first slot [] = Unit
Tiled id first slot (r ∷ rest) =
    (r.partition_id ≡ id)
    × (r.first_page ≡ first)
    × (r.first_slot ≡ slot)
    × (r.first_slot ≡ first * slots_per_page)
    × (0 < r.page_count)
    × (index_candidates ≤ r.slot_count)
    × (r.slot_count ≤ r.page_count * slots_per_page)
    × Tiled (id + 1) (first + r.page_count) (slot + r.slot_count) rest

abbrev pub pages : List PartitionRange → ℕ
pages = total (λ r. r.page_count)

abbrev pub slots : List PartitionRange → ℕ
slots = total (λ r. r.slot_count)

mul_value : (a b c : ℕ) → checked_mul a b ≡ some c → c ≡ a * b
mul_value a b c h = ground arith

sub_value : (a b c : ℕ) → checked_sub a b ≡ some c → (c ≡ a - b) × (b ≤ a)
sub_value a b c h = ground arith

add_value : (a b c : ℕ) → checked_add a b ≡ some c → c ≡ a + b
add_value a b c h = ground arith

-- The slots that lie before the page `first`.
abbrev before : ℕ → ℕ → ℕ
before slot_count first = min slot_count (first * slots_per_page)

-- The pages of `left` partitions from `id` on; the partitions from `extra` on have one more.
abbrev pages_left : ℕ → ℕ → ℕ → ℕ → ℕ
pages_left base extra zero id = 0
pages_left base extra (suc left) id = pages_of base extra id + pages_left base extra left (id + 1)

pages_left-late :
    (base extra left id : ℕ) → extra ≤ id → pages_left base extra left id ≡ left * base + left
pages_left-late base extra zero id h = omega arith
pages_left-late base extra (suc left) id h =
    ground (arith, pages_left-late base extra left (id + 1) (omega arith), h)

pages_left-early :
    (base extra left id : ℕ)
    → id ≤ extra
    → extra ≤ id + left
    → pages_left base extra left id ≡ left * base + (id + left - extra)
pages_left-early base extra zero id h k = omega arith
pages_left-early base extra (suc left) id h k = elim (Bool-cases (leb extra id)) [
  | inl late ↦
      ground (arith, late, h, pages_left-late base extra left (id + 1) (ground (arith, late)))
  | inr early ↦ ground (
    arith,
    early,
    k,
    pages_left-early base extra left (id + 1) (ground (arith, early)) (omega arith),
  )
]

total-nil : (weight : PartitionRange → ℕ) → total weight [] ≡ 0
unfolding total
total-nil weight = refl

nothing_more :
    (slot_count first : ℕ) → before slot_count first ≡ before slot_count (first + pages [])
nothing_more slot_count first =
    ap (before slot_count) (omega (arith, total-nil (λ r. r.page_count)))

large_enough :
    (n k : ℕ) → not (n == 0 || ltb k index_candidates) ≡ true → (0 < n) × (index_candidates ≤ k)
large_enough n k h = ground arith

-- The ranges after a range of `page_count` pages start at the slot where it ends.
next-Tiled :
    {slot_count first_slot capacity remaining next_page : ℕ} (id first page_count : ℕ)
    (rest : List PartitionRange)
    → Tiled (id + 1) next_page (next_page * slots_per_page) rest
    → slots rest + before slot_count next_page ≡ before slot_count (next_page + pages rest)
    → next_page ≡ first + page_count
    → first_slot ≡ first * 504
    → capacity ≡ page_count * 504
    → remaining ≡ slot_count - first_slot
    → first_slot ≤ slot_count
    → Tiled (id + 1) (first + page_count) (first * slots_per_page + min remaining capacity) rest
next-Tiled id first page_count [] tiled slot_sum at_next start size left_over inside = tt
next-Tiled {slot_count} {first_slot} {capacity} {remaining} {next_page} id first page_count
      (r ∷ rest) tiled slot_sum at_next start size left_over inside =
    let more : slots (r ∷ rest) ≡ r.slot_count + slots rest =
      total-cons (λ r. r.slot_count) r rest in
    let enough : index_candidates ≤ r.slot_count = tiled.5 in
    let full : next_page * 504 < slot_count = omega (arith, slot_sum, more, enough) in
    let end : next_page * 504 ≡ first * 504 + min remaining capacity =
      omega (arith, full, at_next, start, size, left_over) in
    subst (λ n. Tiled (id + 1) n (first * 504 + min remaining capacity) (r ∷ rest)) at_next
      (subst (λ k. Tiled (id + 1) next_page k (r ∷ rest)) end tiled)

ranges-Tiled :
    (slot_count base extra left id first : ℕ) (rs : List PartitionRange)
    → ranges_from slot_count base extra left id first ≡ inr rs
    → Tiled id first (first * slots_per_page) rs
      × (pages rs ≡ pages_left base extra left id)
      × (slots rs + before slot_count first ≡ before slot_count (first + pages rs))
unfolding ranges_from
ranges-Tiled slot_count base extra zero id first rs h =
    let empty : [] ≡ rs = inr-injective _ _ h in
    subst
      (λ l.
        Tiled id first (first * slots_per_page) l
        × (pages l ≡ 0)
        × (slots l + before slot_count first ≡ before slot_count (first + pages l)))
      empty
      (
        tt,
        total-nil (λ r. r.page_count),
        omega (arith, total-nil (λ r. r.slot_count), nothing_more slot_count first),
      )
ranges-Tiled slot_count base extra (suc left) id first rs h =
    let page_count : ℕ = pages_of base extra id in
    let (first_slot, at_slot, h1) = needed-inr _ _ _ h in
    let (capacity, room, h2) = needed-inr _ _ _ h1 in
    let (remaining, rest_slots, h3) = needed-inr _ _ _ h2 in
    let (large, h4) = ensure-inr _ _ _ h3 in
    let (next_page, next, h5) = needed-inr _ _ _ h4 in
    let (rest, found, h6) = bind-inr _ _ h5 in
    let r : PartitionRange = record {
      partition_id = id;
      first_page = first;
      page_count = page_count;
      first_slot = first_slot;
      slot_count = min remaining capacity;
    } in
    let whole : r ∷ rest ≡ rs = inr-injective _ _ h6 in
    let (tiled, page_sum, slot_sum) =
      ranges-Tiled slot_count base extra left (id + 1) next_page rest found in
    let start : first_slot ≡ first * 504 = mul_value first 504 first_slot at_slot in
    let size : capacity ≡ page_count * 504 = mul_value page_count 504 capacity room in
    let (left_over, inside) = sub_value slot_count first_slot remaining rest_slots in
    let at_next : next_page ≡ first + page_count = add_value first page_count next_page next in
    let (some_pages, enough) = large_enough page_count (min remaining capacity) large in
    let more_pages : pages (r ∷ rest) ≡ page_count + pages rest =
      total-cons (λ r. r.page_count) r rest in
    let more_slots : slots (r ∷ rest) ≡ min remaining capacity + slots rest =
      total-cons (λ r. r.slot_count) r rest in
    let end : next_page + pages rest ≡ first + pages (r ∷ rest) =
      omega (arith, at_next, more_pages) in
    subst
      (λ l.
        Tiled id first (first * slots_per_page) l
        × (pages l ≡ pages_left base extra (suc left) id)
        × (slots l + before slot_count first ≡ before slot_count (first + pages l)))
      whole
      (
        (
          refl,
          refl,
          start,
          start,
          some_pages,
          enough,
          omega (arith, size),
          next-Tiled id first page_count rest tiled slot_sum at_next start size left_over inside,
        ),
        omega (arith, more_pages, page_sum),
        omega (
          arith,
          more_slots,
          slot_sum,
          ap (before slot_count) end,
          start,
          size,
          left_over,
          inside,
          at_next,
        ),
      )

shrink-positive :
    (fuel slot_count page_count n c : ℕ)
    → 0 < n
    → shrink fuel slot_count page_count n ≡ inr c
    → 0 < c
unfolding shrink
shrink-positive zero slot_count page_count n c pos h = omega (arith, pos, inr-injective _ _ h)
shrink-positive (suc fuel) slot_count page_count n c pos h = elim (Bool-cases (ltb 1 n)) [
  | inr one ↦ omega (arith, pos, inr-injective _ _ (rw one at h))
  | inl several ↦
      let (k, _, halved) = bind-inr _ _ (rw several at h) in
      elim (Bool-cases (ltb k index_candidates)) [
        | inl few ↦
            shrink-positive fuel slot_count page_count (n / 2) c (ground (arith, several))
              (rw few at halved)
        | inr enough ↦ omega (arith, pos, inr-injective _ _ (rw enough at halved))
      ]
]

page_total :
    (page_count n : ℕ) → 0 < n → n * (page_count / n) + (0 + n - (n - page_count % n)) ≡ page_count
page_total page_count n pos = omega (arith, mod-add-div page_count n, mod-lt page_count pos)

validated_pages_value :
    (slot_count p : ℕ) → validated_pages slot_count ≡ inr p → p ≡ (slot_count + 503) / 504
unfolding validated_pages image_pages
validated_pages_value slot_count p h =
    let (_, h1) = ensure-inr _ _ _ h in
    let (_, h2) = ensure-inr _ _ _ h1 in
    let (rounded, sum, h3) = needed-inr _ _ _ h2 in
    let (_, _, h4) = needed-inr _ _ _ h3 in
    let (_, h5) = ensure-inr _ _ _ h4 in
    let same : rounded ≡ slot_count + 503 = add_value slot_count 503 rounded sum in
    sym (inr-injective _ _ h5) ∙ ap (λ k. k / 504) same

-- Whatever number of slots `canonical_index_partition_ranges` accepts, the partitions it returns
-- are numbered from 0 on. The first starts at page 0 and slot 0, and each other one at the page and
-- the slot at which the one before it ends, the slot being the first of the page. Each has at least
-- one page and at least four slots, which its pages hold. Together they have as many slots as the
-- image, and as many pages as these slots need.
pub canonical_ranges-Tiled :
    (slot_count : ℕ) (rs : List PartitionRange)
    → canonical_ranges slot_count ≡ inr rs
    → Tiled 0 0 0 rs × (slots rs ≡ slot_count) × (pages rs ≡ (slot_count + 503) / 504)
unfolding canonical_ranges validated_pages image_pages
canonical_ranges-Tiled slot_count rs h =
    let (page_count, counted, h1) = bind-inr _ _ h in
    let (n, shrunk, h2) = bind-inr _ _ h1 in
    let (tiled, page_sum, slot_sum) = ranges-Tiled slot_count _ _ n 0 0 rs h2 in
    let is : page_count ≡ (slot_count + 503) / 504 =
      validated_pages_value slot_count page_count counted in
    let pos : 0 < n = shrink-positive 12 slot_count page_count _ n (power_positive _) shrunk in
    let sum : pages_left (page_count / n) (n - page_count % n) n 0 ≡ page_count =
      pages_left-early (page_count / n) (n - page_count % n) n 0 (omega arith) (omega arith)
      ∙ page_total page_count n pos in
    let all : pages rs ≡ page_count = page_sum ∙ sum in
    (tiled, omega (arith, slot_sum, all, is), all ∙ is)
