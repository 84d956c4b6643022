-- ===== src/Record/Splice.antt =====
-- Copies into the middle of a buffer: cache2/src/region/record/codec.rs writes a record so.
use cache.Base.{
  ℕ, zero, suc, ◌+◌, ◌≤◌, ◌≡◌, refl, sym, ap, ◌∙◌, true, some, List, [], ◌∷◌, ◌++◌, arith, leb,
  length, take, drop, length-append,
}
use cache.Record.Codec.{◌>>=◌, copy_at}

take-append : (xs ys : List ℕ) → take (length xs) (xs ++ ys) ≡ xs
take-append [] ys = refl
take-append (x ∷ xs) ys = ap (λ l. x ∷ l) (take-append xs ys)

suc_add : (m n : ℕ) → suc m + n ≡ suc (m + n)
suc_add m n = omega arith

drop-append : (xs ys : List ℕ) (n : ℕ) → drop (length xs + n) (xs ++ ys) ≡ drop n ys
drop-append [] ys n = ap (λ k. drop k ys) (omega arith)
drop-append (x ∷ xs) ys n =
    ap (λ k. drop k (x ∷ xs ++ ys)) (suc_add (length xs) n) ∙ drop-append xs ys n

pub take-drop : (n : ℕ) (xs : List ℕ) → take n xs ++ drop n xs ≡ xs
take-drop zero xs = refl
take-drop (suc n) [] = refl
take-drop (suc n) (x ∷ xs) = ap (λ l. x ∷ l) (take-drop n xs)

pub append_assoc : (xs ys zs : List ℕ) → xs ++ ys ++ zs ≡ xs ++ (ys ++ zs)
append_assoc [] ys zs = refl
append_assoc (x ∷ xs) ys zs = ap (λ l. x ∷ l) (append_assoc xs ys zs)

within : (a b : ℕ) → a ≤ b → leb a b ≡ true
within a b h = ground arith

-- A copy replaces the part in the middle.
copy_at_middle :
    (a b c bytes : List ℕ) (n : ℕ)
    → length a ≡ n
    → length b ≡ length bytes
    → copy_at (a ++ b ++ c) n bytes ≡ some (a ++ bytes ++ c)
copy_at_middle a b c bytes n at same =
    let room : n + length bytes ≤ length (a ++ b ++ c) =
      omega (arith, at, same, length-append (a ++ b) c, length-append a b) in
    let front : take n (a ++ b ++ c) ≡ a =
      ap (λ k. take k (a ++ b ++ c)) (sym at)
      ∙ ap (take (length a)) (append_assoc a b c)
      ∙ take-append a (b ++ c) in
    let reaches : length (a ++ b) ≡ length a + length b → n + length bytes ≡ length (a ++ b) + 0 =
      λ l. omega (arith, l, at, same) in
    let back : drop (n + length bytes) (a ++ b ++ c) ≡ c =
      ap (λ k. drop k (a ++ b ++ c)) (reaches (length-append a b)) ∙ drop-append (a ++ b) c 0 in
    rw (within (n + length bytes) (length (a ++ b ++ c)) room, front, back) refl

module _ (a b c rest key value header : List ℕ) (header_fits : length a ≡ 48)
    (key_fits : length b ≡ length key) (value_fits : length c ≡ length value)
    (header_sized : length header ≡ 48) where
  key_copied : copy_at (a ++ b ++ c ++ rest) 48 key ≡ some (a ++ key ++ (c ++ rest))
  key_copied =
      ap (λ l. copy_at l 48 key) (append_assoc (a ++ b) c rest)
      ∙ copy_at_middle a b (c ++ rest) key 48 header_fits key_fits

  value_copied :
      copy_at (a ++ key ++ (c ++ rest)) (48 + length key) value ≡ some (a ++ key ++ value ++ rest)
  value_copied =
      ap (λ l. copy_at l (48 + length key) value) (sym (append_assoc (a ++ key) c rest))
      ∙ copy_at_middle (a ++ key) c rest value (48 + length key)
          (omega (arith, length-append a key, header_fits)) value_fits

  regroup : (l : List ℕ) → l ++ key ++ value ++ rest ≡ l ++ (key ++ (value ++ rest))
  regroup l = append_assoc (l ++ key) value rest ∙ append_assoc l key (value ++ rest)

  header_copied :
      copy_at (a ++ key ++ value ++ rest) 0 header ≡ some (header ++ key ++ value ++ rest)
  header_copied =
      ap (λ l. copy_at l 0 header) (regroup a)
      ∙ copy_at_middle [] a (key ++ (value ++ rest)) header 0 refl (header_fits ∙ sym header_sized)
      ∙ ap some (sym (regroup header))

  pub parts_copied :
      (copy_at (a ++ b ++ c ++ rest) 48 key >>= λ x.
      copy_at x (48 + length key) value >>= λ y. copy_at y 0 header)
      ≡ some (header ++ key ++ value ++ rest)
  parts_copied = rw (key_copied, value_copied) header_copied
