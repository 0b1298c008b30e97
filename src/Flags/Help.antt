-- ===== src/Flags/Help.antt =====
-- simple_rpc/main.go: the flags of a command by category, in the help printer. The text of a flag,
-- `flag.String()`, is what urfave/cli prints of it.
use mathlib.Core.Path.{subst}
use eth_research.Base.{
  ◌≡◌, refl, sym, ap, ◌∙◌, inl, inr, ◌⊎◌, List, [], ◌∷◌, ◌++◌, append-nil, append_assoc, map, Bool,
  true, false, not, ◌&&◌, Option, none, some, if◌then◌else◌, arith, Bool-cases, All,
}
use eth_research.Base.Dict.{Dict, lookup, lookup_or, insert, lookup-insert}
use eth_research.Base.Text.{String, str_eq, str_eq_iff, string_eq}
use eth_research.Flags.{FlagGroup, flag_category}

-- `AppHelpFlagGroups`
abbrev pub app_help_flag_groups : List FlagGroup
app_help_flag_groups =
    record { name = "IPC-FLAGS"; flags = "ipcpath" ∷ "cfgdir" ∷ [] }
    ∷ record { name = "COMMON-FLAGS"; flags = "loglevel" ∷ "cfgdir" ∷ [] }
    ∷ []

module _ (groups : List FlagGroup) (text : String → String) where
  -- `categorized[category] = append(categorized[category], flag)`
  abbrev with_flag : String → Dict String (List String) → Dict String (List String)
  with_flag flag categorized =
      let category = flag_category flag groups in
      insert category (lookup_or [] category categorized ++ (flag ∷ [])) categorized

  -- The loop that fills `categorized`.
  unfoldable pub categorize : List String → Dict String (List String) → Dict String (List String)
  categorize [] categorized = categorized
  categorize (flag ∷ rest) categorized = categorize rest (elim (lookup (text flag) categorized) [
    | none ↦ with_flag flag categorized
    | some found ↦ categorized
  ])

  -- The groups that are handed to the sort, in the order of the map.
  unfoldable pub help_groups : List String → List FlagGroup
  help_groups flags =
      map (λ entry. record { name = entry.0; flags = entry.1 }) (categorize flags [])

  -- The flags of a category, in their order.
  unfoldable pub flags_in : String → List String → List String
  flags_in category [] = []
  flags_in category (flag ∷ rest) =
      let others = flags_in category rest in
      if str_eq category (flag_category flag groups) then flag ∷ others else others

  -- No flag of a list has a category, or prints as one.
  unfoldable pub no_category : String → List String → Bool
  no_category name [] = true
  no_category name (flag ∷ rest) =
      not (str_eq name (flag_category flag groups)) && no_category name rest

  flags_in-append :
      (category : String) (xs ys : List String)
      → flags_in category (xs ++ ys) ≡ flags_in category xs ++ flags_in category ys
  unfolding flags_in
  flags_in-append category [] ys = refl
  flags_in-append category (f ∷ xs) ys =
      elim (Bool-cases (str_eq category (flag_category f groups))) [
        | inl own ↦ rw (own, flags_in-append category xs ys) refl
        | inr other ↦ rw (other, flags_in-append category xs ys) refl
      ]

  no_category-append :
      (name : String) (xs : List String) (f : String)
      → no_category name (xs ++ (f ∷ []))
        ≡ (no_category name xs && not (str_eq name (flag_category f groups)))
  unfolding no_category
  no_category-append name [] f = ground arith
  no_category-append name (x ∷ xs) f = ground (arith, no_category-append name xs f)

  abbrev or_nil : Option (List String) → List String
  or_nil none = []
  or_nil (some l) = l

  -- A map that has the flags of `seen` by category, and no other categories.
  abbrev IsFilled : List String → Dict String (List String) → Type 0
  IsFilled seen d =
      (name : String)
      → (lookup_or [] name d ≡ flags_in name seen)
        × (no_category name seen ≡ true → lookup name d ≡ none)

  no_category-prefix :
      (name : String) (xs ys : List String)
      → no_category name (xs ++ ys) ≡ true
      → no_category name xs ≡ true
  unfolding no_category
  no_category-prefix name [] ys e = refl
  no_category-prefix name (x ∷ xs) ys e =
      let rest : no_category name (xs ++ ys) ≡ true = ground (arith, e) in
      ground (arith, e, no_category-prefix name xs ys rest)

  flags_in-one :
      (name f : String) (v : Bool)
      → str_eq name (flag_category f groups) ≡ v
      → flags_in name (f ∷ []) ≡ (if v then f ∷ [] else [])
  unfolding flags_in
  flags_in-one name f v e = rw (flags_in, e) refl

  insert-IsFilled :
      (seen : List String) (f : String) (d : Dict String (List String))
      → IsFilled seen d
      → IsFilled (seen ++ (f ∷ [])) (with_flag f d)
  insert-IsFilled seen f d filled name =
      let category = flag_category f groups in
      let flags = lookup_or [] category d ++ (f ∷ []) in
      let more = flags_in-append name seen (f ∷ []) in
      let none_more = no_category-append name seen f in
      elim (Bool-cases (str_eq name category)) [
        | inl own ↦
            let eq : name ≡ category = (str_eq_iff name category).0 own in
            let found : lookup name (insert category flags d) ≡ some flags =
              lookup-insert name category flags d
              ∙ ap (λ (b : Bool). if b then some flags else lookup name d) own in
            let old : lookup_or [] category d ≡ flags_in name seen =
              (filled category).0 ∙ ap (λ c. flags_in c seen) (sym eq) in
            (
              ap or_nil found
                  ∙ ap (λ l. l ++ (f ∷ [])) old
                  ∙ sym (more ∙ ap (λ l. flags_in name seen ++ l) (flags_in-one name f true own)),
              λ e. absurd (ground (arith, e, none_more, own)),
            )
        | inr other ↦
            let found : lookup name (insert category flags d) ≡ lookup name d =
              lookup-insert name category flags d
              ∙ ap (λ (b : Bool). if b then some flags else lookup name d) other in
            (
              ap or_nil found
                  ∙ (filled name).0
                  ∙ sym (append-nil (flags_in name seen))
                  ∙ sym
                      (more ∙ ap (λ l. flags_in name seen ++ l) (flags_in-one name f false other)),
              λ e. found ∙ (filled name).1 (no_category-prefix name seen (f ∷ []) e),
            )
      ]

  categorize-IsFilled :
      (seen rest : List String) (d : Dict String (List String))
      → IsFilled seen d
      → All (λ f. no_category (text f) (seen ++ rest) ≡ true) rest
      → IsFilled (seen ++ rest) (categorize rest d)
  unfolding categorize
  categorize-IsFilled seen [] d filled apart = rw (append-nil seen) filled
  categorize-IsFilled seen (f ∷ rest) d filled (here, apart) =
      let unseen = (filled (text f)).1 (no_category-prefix (text f) seen (f ∷ rest) here) in
      let moved = append_assoc seen (f ∷ []) rest in
      rw (categorize, unseen)
        (subst (λ l. IsFilled l (categorize rest (with_flag f d))) moved
          (categorize-IsFilled (seen ++ (f ∷ [])) rest (with_flag f d)
            (insert-IsFilled seen f d filled)
            (subst (λ l. All (λ g. no_category (text g) l ≡ true) rest) (sym moved) apart)))

  -- Where no flag of a command prints as the category of one of them, the help printer puts each
  -- flag into its category, in the order of the command and with repetitions, and has no other
  -- category.
  pub categorize_lem :
      (flags : List String)
      → All (λ f. no_category (text f) flags ≡ true) flags
      → (name : String)
      → (lookup_or [] name (categorize flags []) ≡ flags_in name flags)
        × ((no_category name flags ≡ false) ⊎ (lookup name (categorize flags []) ≡ none))
  unfolding lookup flags_in
  categorize_lem flags apart name =
      let filled = categorize-IsFilled [] flags [] (λ n. (refl, λ e. refl)) apart name in
      (
        filled.0,
        elim (Bool-cases (no_category name flags)) [
          | inl absent ↦ inr (filled.1 absent)
          | inr there ↦ inl there
        ],
      )
