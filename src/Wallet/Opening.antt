-- ===== src/Wallet/Opening.antt =====
-- wallet/wallet.go: which directories `OpenWallet` opens, and as which kind of wallet.
use eth_research.Base.{
  ◌≡◌, refl, sym, ap, ◌∙◌, inl, inr, ◌⊎◌, List, [], ◌∷◌, Bool, true, false, Option, none, some,
  ◌==◌, length, arith, Result, Result-cases, ok, err,
}
use eth_research.Base.Text.{String}
use eth_research.Files.System.{Host, no_such_dir, names}
use eth_research.Files.{expand_path, has_dir}
use eth_research.Wallet.Kinds.{
  Kind, WalletError, parse_kind, no_wallet_found, cannot_open_dir, no_keymanager_folder,
}
use eth_research.Wallet.{
  Config, count_wallet_types, first_kind, wallet_of, is_valid, exists,
  read_keymanager_kind_from_wallet_path, open_wallet,
}

-- The kinds that the names of a directory stand for, and the kind where there is one alone.
unfoldable pub kinds_in : List String → List Kind
kinds_in [] = []
kinds_in (name ∷ rest) = elim (parse_kind name) [ err e ↦ kinds_in rest | ok k ↦ k ∷ kinds_in rest ]

unfoldable pub only : List Kind → Option Kind
only [] = none
only (k ∷ []) = some k
only (k ∷ j ∷ rest) = none

count_wallet_types-length : (xs : List String) → count_wallet_types xs ≡ length (kinds_in xs)
unfolding count_wallet_types kinds_in
count_wallet_types-length [] = refl
count_wallet_types-length (x ∷ xs) = ground (arith, count_wallet_types-length xs)

first_kind_lem :
    (xs : List String)
    → first_kind xs ≡ elim (kinds_in xs) [ [] ↦ err no_keymanager_folder | k ∷ ks ↦ ok k ]
unfolding first_kind kinds_in
first_kind_lem [] = refl
first_kind_lem (x ∷ xs) = elim (Result-cases (parse_kind x)) [
  | inl (e, bad) ↦ ground (arith, bad, first_kind_lem xs)
  | inr (k, good) ↦ ground (arith, good)
]

shape :
    (ks : List Kind)
    → ((only ks ≡ none) × ((length ks == 1) ≡ false))
      ⊎ ((k : Kind) × (only ks ≡ some k)
          × ((length ks == 1) ≡ true)
          × ((elim ks as (λ _. Result WalletError Kind) [
            | [] ↦ err no_keymanager_folder
            | j ∷ js ↦ ok j
          ])
              ≡ ok k))
unfolding only
shape [] = inl (refl, refl)
shape (k ∷ []) = inr (k, refl, refl, refl)
shape (k ∷ j ∷ ks) = inl (refl, ground arith)

-- One kind alone, as the counts and the loop see it.
only_lem :
    (xs : List String)
    → ((only (kinds_in xs) ≡ none) × ((count_wallet_types xs == 1) ≡ false))
      ⊎ ((k : Kind) × (only (kinds_in xs) ≡ some k)
          × ((count_wallet_types xs == 1) ≡ true)
          × (first_kind xs ≡ ok k))
only_lem xs = rw (count_wallet_types-length xs, first_kind_lem xs) (shape (kinds_in xs))

module _ (os : Host) (d : os.Disk) (cfg : Config) where
  valid_dir :
      (full : String) (xs : List String) (v : Bool)
      → expand_path os cfg.wallet_dir ≡ ok full
      → os.readdirnames d full ≡ names xs
      → (count_wallet_types xs == 1) ≡ v
      → (is_valid os d cfg.wallet_dir ≡ ok v)
        ⊎ ((v ≡ false) × (is_valid os d cfg.wallet_dir ≡ err no_wallet_found))
  unfolding is_valid count_wallet_types
  valid_dir full [] v e listed c = inr (sym c, rw (is_valid, e, listed) refl)
  valid_dir full (x ∷ xs) v e listed c = inl (rw (is_valid, e, listed) (ap ok c))

  refuse :
      has_dir os d cfg.wallet_dir ≡ ok true
      → (is_valid os d cfg.wallet_dir ≡ ok false)
        ⊎ (is_valid os d cfg.wallet_dir ≡ err no_wallet_found)
      → open_wallet os d cfg ≡ err no_wallet_found
  unfolding open_wallet exists
  refuse there (inl no_kind) = ground (arith, there, no_kind)
  refuse there (inr no_entry) = ground (arith, there, no_entry)

  accept :
      (r : Result WalletError Kind)
      → has_dir os d cfg.wallet_dir ≡ ok true
      → is_valid os d cfg.wallet_dir ≡ ok true
      → read_keymanager_kind_from_wallet_path os d cfg.wallet_dir ≡ r
      → open_wallet os d cfg
        ≡ elim r [ err e ↦ err e | ok k ↦ ok (wallet_of os cfg.wallet_dir cfg.wallet_password k) ]
  unfolding open_wallet exists
  accept (err e) there valid read = ground (arith, there, valid, read)
  accept (ok k) there valid read = ground (arith, there, valid, read)

  listed_kind :
      (xs : List String)
      → os.readdirnames d cfg.wallet_dir ≡ names xs
      → read_keymanager_kind_from_wallet_path os d cfg.wallet_dir ≡ first_kind xs
  unfolding read_keymanager_kind_from_wallet_path
  listed_kind xs listed = ground (arith, listed)

  -- Where the directory of a configuration lists the same names under its own path and under its
  -- expanded path, `OpenWallet` opens it as the one kind that its names stand for, with the directory
  -- and the password of the configuration, and finds no wallet where they stand for none or for several.
  pub open_wallet_lem :
      (full : String) (xs : List String)
      → expand_path os cfg.wallet_dir ≡ ok full
      → has_dir os d cfg.wallet_dir ≡ ok true
      → os.readdirnames d full ≡ names xs
      → os.readdirnames d cfg.wallet_dir ≡ names xs
      → open_wallet os d cfg ≡ elim (only (kinds_in xs)) [
        | none ↦ err no_wallet_found
        | some k ↦ ok (wallet_of os cfg.wallet_dir cfg.wallet_password k)
      ]
  open_wallet_lem full xs e there listed own = elim (only_lem xs) [
    | inl (many, c) ↦ elim (valid_dir full xs false e listed c) [
      | inl v ↦ rw many (refuse there (inl v))
      | inr (same, v) ↦ rw many (refuse there (inr v))
    ]
    | inr (k, one, c, head) ↦ elim (valid_dir full xs true e listed c) [
      | inl v ↦ rw one (accept (ok k) there v (listed_kind xs own ∙ head))
      | inr (same, v) ↦ cc
    ]
  ]

  -- `OpenWallet` reads the kind under the path as it is written. Where only the expanded path
  -- names a directory, and one that holds one kind, it returns an error of opening the directory.
  pub open_wallet_unexpanded :
      (full : String) (xs : List String) (k : Kind)
      → expand_path os cfg.wallet_dir ≡ ok full
      → has_dir os d cfg.wallet_dir ≡ ok true
      → os.readdirnames d full ≡ names xs
      → only (kinds_in xs) ≡ some k
      → os.readdirnames d cfg.wallet_dir ≡ no_such_dir
      → open_wallet os d cfg ≡ err cannot_open_dir
  unfolding read_keymanager_kind_from_wallet_path
  open_wallet_unexpanded full xs k e there listed one own = elim (only_lem xs) [
    | inl (many, c) ↦ cc
    | inr (j, same, c, head) ↦ elim (valid_dir full xs true e listed c) [
      | inl v ↦ accept (err cannot_open_dir) there v (ground (arith, own))
      | inr (wrong, v) ↦ cc
    ]
  ]
