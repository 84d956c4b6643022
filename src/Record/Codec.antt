-- ===== src/Record/Codec.antt =====
-- Little-endian fields in byte buffers: cache2/src/codec.rs. A byte is a number below 256, and `none`
-- of `put` stands for the panic of a range outside the buffer.
use cache.Base.{
  ℕ, zero, suc, ◌+◌, ◌-◌, ◌*◌, ◌/◌, ◌%◌, Option, none, some, List, [], ◌∷◌, ◌++◌, leb, ◌&&◌,
  if◌then◌else◌, length, take, drop,
}
use cache.Manager.State.{checked_add}

infixl 5 ◌>>=◌
abbrev pub ◌>>=◌ : {A B : Type 0} → Option A → (A → Option B) → Option B
none >>= f = none
(some a) >>= f = f a

-- `to_le_bytes` and `from_le_bytes` of an integer of `width` bytes
abbrev pub to_le_bytes : ℕ → ℕ → List ℕ
to_le_bytes zero value = []
to_le_bytes (suc width) value = value % 256 ∷ to_le_bytes width (value / 256)

abbrev pub from_le_bytes : List ℕ → ℕ
from_le_bytes [] = 0
from_le_bytes (b ∷ bytes) = b + 256 * from_le_bytes bytes

-- `input.get(start..end)`
abbrev pub get_range : List ℕ → ℕ → ℕ → Option (List ℕ)
get_range input start end =
    if leb start end && leb end (length input)
    then some (take (end - start) (drop start input))
    else none

abbrev pub get : ℕ → List ℕ → ℕ → Option ℕ
get width input offset = do
  end ← checked_add offset width
  bytes ← get_range input offset end
  some (from_le_bytes bytes)

abbrev pub get_u16 : List ℕ → ℕ → Option ℕ
get_u16 = get 2

abbrev pub get_u32 : List ℕ → ℕ → Option ℕ
get_u32 = get 4

abbrev pub get_u64 : List ℕ → ℕ → Option ℕ
get_u64 = get 8

-- `output[offset..offset + bytes.len()].copy_from_slice(bytes)`
abbrev pub copy_at : List ℕ → ℕ → List ℕ → Option (List ℕ)
copy_at output offset bytes =
    if leb (offset + length bytes) (length output)
    then some (take offset output ++ bytes ++ drop (offset + length bytes) output)
    else none

abbrev pub put_u16 : List ℕ → ℕ → ℕ → Option (List ℕ)
put_u16 output offset value = copy_at output offset (to_le_bytes 2 value)

abbrev pub put_u32 : List ℕ → ℕ → ℕ → Option (List ℕ)
put_u32 output offset value = copy_at output offset (to_le_bytes 4 value)

abbrev pub put_u64 : List ℕ → ℕ → ℕ → Option (List ℕ)
put_u64 output offset value = copy_at output offset (to_le_bytes 8 value)
