-- ===== src/Flags/Category.antt =====
-- simple_rpc/utils/helpers.go: the category of a flag.
use eth_research.Base.{
  ℕ, suc, ◌≡◌, refl, inl, inr, ◌⊎◌, List, [], ◌∷◌, Bool, true, false, ◌||◌, some, get_elem?,
  Bool-cases,
}
use eth_research.Base.Text.{String}
use eth_research.Flags.{FlagGroup, has_flag, flag_category}

unfoldable pub in_any : String → List FlagGroup → Bool
in_any name [] = false
in_any name (g ∷ gs) = has_flag name g.flags || in_any name gs

-- `FlagCategory` answers with the name of a group that has the flag, or with "MISC" where none has.
pub flag_category_lem :
    (name : String) (groups : List FlagGroup)
    → ((i : ℕ) × ((g : FlagGroup) × (get_elem? groups i ≡ some g)
          × (has_flag name g.flags ≡ true)
          × (flag_category name groups ≡ g.name)))
      ⊎ ((in_any name groups ≡ false) × (flag_category name groups ≡ "MISC"))
unfolding flag_category in_any
flag_category_lem name [] = inr (refl, refl)
flag_category_lem name (g ∷ gs) = elim (Bool-cases (has_flag name g.flags)) [
  | inl here ↦ inl (0, (g, refl, here, rw here refl))
  | inr other ↦ elim (flag_category_lem name gs) [
    | inl (i, (k, at, has, is)) ↦ inl (suc i, (k, at, has, rw other is))
    | inr (nowhere, misc) ↦ inr (rw other nowhere, rw other misc)
  ]
]
