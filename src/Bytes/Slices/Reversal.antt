-- ===== src/Bytes/Slices/Reversal.antt =====
-- bytesutil/bytes.go: the swap loop of `ReverseBytes32Slice`.
use eth_research.Base.{
  ℕ, zero, suc, ◌+◌, ◌-◌, ◌≤◌, ◌<◌, ◌≡◌, refl, sym, ap, ◌∙◌, inl, inr, List, [], ◌∷◌, ◌++◌, ltb,
  ◌==◌, if◌then◌else◌, Bool-cases, length, length-append, length-set, get_or, get_or-set, set,
  reverse, arith,
}
use eth_research.Bytes.Slices.{swap, reverse_loop, reverse_bytes32_slice}
use mathlib.Core.List.{reverse-append}

abbrev Rows : Type 0
Rows = List (List ℕ)

-- Two lists of one length with the same elements are one.
list_ext :
    (xs ys : Rows)
    → length xs ≡ length ys
    → ((k : ℕ) → k < length xs → get_or xs k [] ≡ get_or ys k [])
    → xs ≡ ys
list_ext [] [] e h = refl
list_ext [] (y ∷ ys) e h = absurd (omega arith)
list_ext (x ∷ xs) [] e h = absurd (omega arith)
list_ext (x ∷ xs) (y ∷ ys) e h =
    cc (h 0 (omega arith), list_ext xs ys (omega arith) (λ k low. h (suc k) (omega arith)))

length-swap : (arr : Rows) (i j : ℕ) → length (swap arr i j) ≡ length arr
unfolding swap
length-swap arr i j = rw (length-set, length-set)

length-reverse_loop : (fuel i j : ℕ) (arr : Rows) → length (reverse_loop fuel i j arr) ≡ length arr
unfolding reverse_loop
length-reverse_loop zero i j arr = refl
length-reverse_loop (suc fuel) i j arr =
    ground (arith, length-reverse_loop fuel (i + 1) (j - 1) (swap arr i j), length-swap arr i j)

-- Where the element at `k` comes from: after one exchange, and after the loop from `i` to `j`.
abbrev exchanged : ℕ → ℕ → ℕ → ℕ
exchanged i j k = if k == j then i else if k == i then j else k

abbrev mirrored : ℕ → ℕ → ℕ → ℕ
mirrored i j k = if ltb k i then k else if ltb j k then k else i + j - k

mirrored_outer : (i j k : ℕ) → i < j → exchanged i j (mirrored (i + 1) (j - 1) k) ≡ mirrored i j k
mirrored_outer i j k h = ground arith

mirrored_done : (i j k : ℕ) → j ≤ i → mirrored i j k ≡ k
mirrored_done i j k h = ground arith

get_or-swap :
    (arr : Rows) (i j k : ℕ)
    → i < j
    → j < length arr
    → get_or (swap arr i j) k [] ≡ get_or arr (exchanged i j k) []
unfolding swap
get_or-swap arr i j k lt inside =
    let first = set arr i (get_or arr j []) in
    let long : j < length first = rw length-set inside in
    let (hit, miss) = get_or-set first j k (get_or arr i []) [] long in
    let (hit', miss') = get_or-set arr i k (get_or arr j []) [] (omega arith) in
    elim (Bool-cases (k == j)) [
      | inl at_j ↦ rw at_j (hit (ground arith))
      | inr off_j ↦ elim (Bool-cases (k == i)) [
        | inl at_i ↦ rw (off_j, at_i) (miss (ground arith) ∙ hit' (ground arith))
        | inr off_i ↦ rw (off_j, off_i) (miss (ground arith) ∙ miss' (ground arith))
      ]
    ]

-- The loop mirrors what lies between `i` and `j`, and leaves the rest alone.
get_or-reverse_loop :
    (fuel i j k : ℕ) (arr : Rows)
    → j < length arr
    → j < i + fuel + fuel
    → get_or (reverse_loop fuel i j arr) k [] ≡ get_or arr (mirrored i j k) []
unfolding reverse_loop
get_or-reverse_loop zero i j k arr inside fits =
    ap (λ m. get_or arr m []) (sym (mirrored_done i j k (omega arith)))
get_or-reverse_loop (suc fuel) i j k arr inside fits = elim (Bool-cases (ltb i j)) [
  | inl more ↦
      let lt : i < j = ground arith in
      rw more (
        get_or-reverse_loop fuel (i + 1) (j - 1) k (swap arr i j)
          (omega (arith, length-swap arr i j)) (omega arith)
        ∙ get_or-swap arr i j (mirrored (i + 1) (j - 1) k) lt inside
        ∙ ap (λ m. get_or arr m []) (mirrored_outer i j k lt))
  | inr over ↦ rw over (ap (λ m. get_or arr m []) (sym (mirrored_done i j k (ground arith))))
]

get_or-append_left :
    (xs ys : Rows) (k : ℕ) → k < length xs → get_or (xs ++ ys) k [] ≡ get_or xs k []
get_or-append_left [] ys k h = elim h [ ]
get_or-append_left (x ∷ xs) ys zero h = refl
get_or-append_left (x ∷ xs) ys (suc k) h = get_or-append_left xs ys k (omega arith)

get_or-append_last : (xs : Rows) (y : List ℕ) → get_or (xs ++ (y ∷ [])) (length xs) [] ≡ y
get_or-append_last [] y = refl
get_or-append_last (x ∷ xs) y = get_or-append_last xs y

length-reverse : (xs : Rows) → length (reverse xs) ≡ length xs
length-reverse [] = refl
length-reverse (x ∷ xs) =
    rw (reverse-append (x ∷ []) xs, length-append) (omega (arith, length-reverse xs))

get_or-reverse :
    (xs : Rows) (k : ℕ)
    → k < length xs
    → get_or (reverse xs) k [] ≡ get_or xs (length xs - 1 - k) []
get_or-reverse [] k h = elim h [ ]
get_or-reverse (x ∷ xs) k h = rw (reverse-append (x ∷ []) xs) (elim (Bool-cases (k == length xs)) [
  | inl last ↦
      let e : k ≡ length (reverse xs) = ground (arith, length-reverse xs) in
      let z : suc (length xs) - 1 - k ≡ 0 = omega (arith, e, length-reverse xs) in
      rw z (rw e (get_or-append_last (reverse xs) x))
  | inr inner ↦
      let low : k < length xs = ground arith in
      let s : suc (length xs) - 1 - k ≡ suc (length xs - 1 - k) = omega arith in
      rw s (
        get_or-append_left (reverse xs) (x ∷ []) k (omega (arith, length-reverse xs))
        ∙ get_or-reverse xs k low)
])

-- `ReverseBytes32Slice` reverses the slice, of every length.
pub reverse_bytes32_slice-reverse : (arr : Rows) → reverse_bytes32_slice arr ≡ reverse arr
unfolding reverse_bytes32_slice
reverse_bytes32_slice-reverse [] = unfold reverse_loop in refl
reverse_bytes32_slice-reverse (x ∷ xs) =
    let n = length (x ∷ xs) in
    list_ext (reverse_loop n 0 (n - 1) (x ∷ xs)) (reverse (x ∷ xs))
      (length-reverse_loop n 0 (n - 1) (x ∷ xs) ∙ sym (length-reverse (x ∷ xs)))
      (λ k low.
        let inside : k < n = omega (arith, low, length-reverse_loop n 0 (n - 1) (x ∷ xs)) in
        let m : mirrored 0 (n - 1) k ≡ n - 1 - k = ground arith in
        get_or-reverse_loop n 0 (n - 1) k (x ∷ xs) (omega arith) (omega arith)
        ∙ ap (λ q. get_or (x ∷ xs) q []) m
        ∙ sym (get_or-reverse (x ∷ xs) k inside))
