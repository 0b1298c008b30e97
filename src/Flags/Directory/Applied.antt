-- ===== src/Flags/Directory/Applied.antt =====
-- simple_rpc/utils/customflags.go: what `Apply` does to a set of flags.
use eth_research.Base.{
  ◌≡◌, refl, ◌∙◌, inl, inr, List, [], ◌∷◌, Bool, true, false, ◌||◌, none, some, if◌then◌else◌,
  arith, Bool-cases, Option-cases, done, panic,
}
use eth_research.Base.Dict.{lookup, insert, lookup-insert}
use eth_research.Base.Text.{String, str_eq_iff, string_eq}
use eth_research.Flags.Directory.{
  DirectoryFlag, is_comma, split, each_part, each_name, FlagSet, set_var, apply,
}

unfoldable pub has_comma : String → Bool
has_comma String.[] = false
has_comma (String.◌∷◌ c s) = is_comma c || has_comma s

split-one : (s : String) → has_comma s ≡ false → split s ≡ s ∷ []
unfolding split has_comma
split-one String.[] e = refl
split-one (String.◌∷◌ c s) e = elim (Bool-cases (is_comma c)) [
  | inl here ↦ ground (arith, e, here)
  | inr other ↦ rw (other, split-one s (ground (arith, e, other))) refl
]

-- Two parts or more.
abbrev Several : List String → Type 0
Several parts = (a : String) × ((b : String) × ((rest : List String) × (parts ≡ a ∷ b ∷ rest)))

split-nonempty : (s : String) → (a : String) × ((rest : List String) × (split s ≡ a ∷ rest))
unfolding split
split-nonempty String.[] = (_, (_, refl))
split-nonempty (String.◌∷◌ c s) =
    let (a, (rest, e)) = split-nonempty s in
    elim (Bool-cases (is_comma c)) [
      | inl here ↦ (String.[], (split s, rw here refl))
      | inr other ↦ (String.◌∷◌ c a, (rest, rw (other, e) refl))
    ]

split-Several : (s : String) → has_comma s ≡ true → Several (split s)
unfolding split has_comma
split-Several String.[] e = cc
split-Several (String.◌∷◌ c s) e = elim (Bool-cases (is_comma c)) [
  | inl here ↦
      let (a, (rest, is)) = split-nonempty s in (String.[], (a, (rest, rw (here, is) refl)))
  | inr other ↦
      let (a, (b, (rest, is))) = split-Several s (ground (arith, e, other)) in
      (String.◌∷◌ c a, (b, (rest, rw (other, is) refl)))
]

module _ (name value : String) (set : FlagSet) where
  set_var-free : lookup name set ≡ none → set_var name value set ≡ done (insert name value set)
  unfolding set_var
  set_var-free free = rw (set_var, free) refl

  set_var-taken : (v : String) → lookup name set ≡ some v → set_var name value set ≡ panic
  unfolding set_var
  set_var-taken v taken = rw (set_var, taken) refl

-- The same name set once, and twice, where the second time panics.
module _ (name value : String) (set : FlagSet) where
  once :
      (a : String)
      → each_part (λ part. set_var name value) (a ∷ []) set
        ≡ elim (lookup name set) [ none ↦ done (insert name value set) | some v ↦ panic ]
  unfolding each_part
  once a = elim (Option-cases (lookup name set)) [
    | inl free ↦ rw (each_part, set_var-free name value set free, free) refl
    | inr (v, taken) ↦ rw (each_part, set_var-taken name value set v taken, taken) refl
  ]

  twice :
      (a b : String) (rest : List String)
      → each_part (λ part. set_var name value) (a ∷ b ∷ rest) set ≡ panic
  unfolding each_part
  twice a b rest = elim (Option-cases (lookup name set)) [
    | inl free ↦
        let there : lookup name (insert name value set) ≡ some value =
          lookup-insert name name value set ∙ rw ((str_eq_iff name name).1 refl) refl in
        rw
          (
            each_part,
            set_var-free name value set free,
            set_var-taken name value (insert name value set) value there,
          )
          refl
    | inr (v, taken) ↦ rw (each_part, set_var-taken name value set v taken) refl
  ]

-- Whatever the environment variable of the flag is, `Apply` sets a flag whose name has no comma and is
-- not set yet to the value of the flag itself. It panics on every name with a comma, and on a name that
-- is set.
pub apply_lem :
    (f : DirectoryFlag) (set : FlagSet)
    → apply f set ≡ (
        if has_comma f.name
        then panic
        else elim (lookup f.name set) [ none ↦ done (insert f.name f.value set) | some v ↦ panic ])
unfolding apply each_name
apply_lem f set = elim (Bool-cases (has_comma f.name)) [
  | inl commas ↦
      let (a, (b, (rest, is))) = split-Several f.name commas in
      rw (commas, is) (twice f.name f.value set a b rest)
  | inr plain ↦ rw (plain, split-one f.name plain) (once f.name f.value set f.name)
]
