-- ===== src/Bytes/Slices/Copies.antt =====
-- bytesutil/bytes.go: what the copying and padding functions return.
use eth_research.Base.{
  ℕ, zero, suc, ◌-◌, ◌≡◌, refl, sym, ap, ◌∙◌, List, [], ◌∷◌, ◌++◌, length, take, length-take,
  replicate, none, some, Option, arith,
}
use eth_research.Bytes.Slices.{
  copy, to_bytes4, to_bytes32, to_bytes48, to_bytes64, safe_copy_bytes, copy_each, copy_2d_bytes,
  pad_to,
}
use mathlib.Core.Path.{ap₂}

-- `copy` into `n` zeros: the first `n` elements, and zeros for what is missing.
copy-zeros : (n : ℕ) (x : List ℕ) → copy (replicate n 0) x ≡ take n x ++ replicate (n - length x) 0
unfolding copy
copy-zeros zero x = ap (λ (k : ℕ). replicate k 0) {x = 0} {y = 0 - length x} (omega arith)
copy-zeros (suc n) [] = ap (λ (k : ℕ). replicate k 0) {x = suc n} {y = suc n - 0} (omega arith)
copy-zeros (suc n) (s ∷ x) =
    ap (λ r. s ∷ r)
      (copy-zeros n x
        ∙ ap (λ (k : ℕ). take n x ++ replicate k 0) {x = n - length x} {y = suc n - suc (length x)}
            (omega arith))

copy_fit : (n : ℕ) (x : List ℕ) → copy (replicate n 0) x ≡ pad_to (take n x) n
unfolding pad_to
copy_fit n x =
    let e : n - length x ≡ n - length (take n x) = omega (arith, length-take n x) in
    ground (arith, copy-zeros n x, ap (λ (k : ℕ). take n x ++ replicate k 0) e, length-take n x)

-- `ToBytes4`, `ToBytes32`, `ToBytes48` and `ToBytes64` cut at their size, and pad with zeros up
-- to it; they are `PadTo` after the cut.
pub fixed_size_lem :
    (x : List ℕ)
    → (to_bytes4 x ≡ pad_to (take 4 x) 4)
      × (to_bytes32 x ≡ pad_to (take 32 x) 32)
      × (to_bytes48 x ≡ pad_to (take 48 x) 48)
      × (to_bytes64 x ≡ pad_to (take 64 x) 64)
unfolding to_bytes4 to_bytes32 to_bytes48 to_bytes64
fixed_size_lem x = (copy_fit 4 x, copy_fit 32 x, copy_fit 48 x, copy_fit 64 x)

copy_self : (x : List ℕ) → copy (replicate (length x) 0) x ≡ x
unfolding copy
copy_self [] = refl
copy_self (s ∷ x) = ap (λ r. s ∷ r) (copy_self x)

safe_copy_self : (a : Option (List ℕ)) → safe_copy_bytes a ≡ a
unfolding safe_copy_bytes
safe_copy_self none = refl
safe_copy_self (some a) = ap some (copy_self a)

copy_each_self : (ary : List (Option (List ℕ))) → copy_each ary ≡ ary
unfolding copy_each
copy_each_self [] = refl
copy_each_self (a ∷ ary) = ap₂ (λ x xs. x ∷ xs) (safe_copy_self a) (copy_each_self ary)

-- `Copy2dBytes` returns a slice of the same rows, and a nil slice or a nil row stays nil.
pub copy_2d_bytes_lem : (ary : Option (List (Option (List ℕ)))) → copy_2d_bytes ary ≡ ary
unfolding copy_2d_bytes
copy_2d_bytes_lem none = refl
copy_2d_bytes_lem (some ary) = ap some (copy_each_self ary)

pub to_bytes48_self : (x : List ℕ) → length x ≡ 48 → to_bytes48 x ≡ x
unfolding to_bytes48
to_bytes48_self x e =
    ap (λ (k : ℕ). copy (replicate k 0) x) {x = 48} {y = length x} (sym e) ∙ copy_self x
