-- ===== src/Wallet.antt =====
-- wallet/wallet.go: opening a wallet, and reading a file of it, over the host of Files/System.antt.
pub mod Kinds
pub mod Opening
pub mod Stored
pub mod Keymanager
pub mod Slots
pub mod Examples
use eth_research.Base.{
  ℕ, zero, suc, ◌+◌, List, [], ◌∷◌, Bool, true, false, ◌&&◌, Option, none, some, ◌==◌,
  if◌then◌else◌, Result, ok, err,
}
use eth_research.Base.Text.{String}
use eth_research.Files.System.{Host, no_such_dir, open_failed, readdir_failed, names}
use eth_research.Files.{FileError, expand_path, has_dir, mkdir_all}
use eth_research.Wallet.Kinds.{
  Kind, WalletError, parse_kind, kind_string, no_wallet_found, cannot_open_dir, cannot_list_dir,
  invalid_wallet, no_keymanager_folder, cannot_find_file, no_files_found, cannot_read_file, in_path,
}

-- `Config`
pub record Config : Type 0 where
  pub wallet_dir : String
  pub keymanager_kind : Kind
  pub wallet_password : String

-- `Wallet`, of which `configFilePath` is never set or read.
pub record Wallet : Type 0 where
  pub dir : String
  pub accounts_path : String
  pub password : String
  pub kind : Kind

-- `numWalletTypes` of `IsValid`.
unfoldable pub count_wallet_types : List String → ℕ
count_wallet_types [] = 0
count_wallet_types (name ∷ rest) = elim (parse_kind name) [
  | err e ↦ count_wallet_types rest
  | ok k ↦ suc (count_wallet_types rest)
]

-- The loop of `readKeymanagerKindFromWalletPath`.
unfoldable pub first_kind : List String → Result WalletError Kind
first_kind [] = err no_keymanager_folder
first_kind (n ∷ rest) = elim (parse_kind n) [ ok k ↦ ok k | err e ↦ first_kind rest ]

module _ (os : Host) where
  open os use {Disk}

  unfoldable pub wallet_of : String → String → Kind → Wallet
  wallet_of dir password kind = record {
    dir = dir;
    accounts_path = os.join dir (kind_string kind);
    password = password;
    kind = kind;
  }

  unfoldable pub new_wallet : Config → Wallet
  new_wallet cfg = wallet_of cfg.wallet_dir cfg.wallet_password cfg.keymanager_kind

  -- `IsValid`
  unfoldable pub is_valid : Disk → String → Result WalletError Bool
  is_valid d wallet_dir = elim (expand_path os wallet_dir) [
    | err e ↦ err (in_path e)
    | ok expanded ↦ elim (os.readdirnames d expanded) [
      | no_such_dir ↦ ok false
      | open_failed ↦ err cannot_open_dir
      | readdir_failed ↦ err cannot_list_dir
      | names [] ↦ err no_wallet_found
      | names (n ∷ rest) ↦ ok (count_wallet_types (n ∷ rest) == 1)
    ]
  ]

  -- `Exists`
  unfoldable pub exists : Disk → String → Result WalletError Bool
  exists d wallet_dir = elim (has_dir os d wallet_dir) [
    | err e ↦ err (in_path e)
    | ok dir_exists ↦ elim (is_valid d wallet_dir) [
      | err no_wallet_found ↦ ok false
      | err e ↦ err e
      | ok valid ↦ ok (dir_exists && valid)
    ]
  ]

  unfoldable pub read_keymanager_kind_from_wallet_path : Disk → String → Result WalletError Kind
  read_keymanager_kind_from_wallet_path d wallet_path = elim (os.readdirnames d wallet_path) [
    | no_such_dir ↦ err cannot_open_dir
    | open_failed ↦ err cannot_open_dir
    | readdir_failed ↦ err cannot_list_dir
    | names list ↦ first_kind list
  ]

  unfoldable pub open_wallet : Disk → Config → Result WalletError Wallet
  open_wallet d cfg = elim (exists d cfg.wallet_dir) [
    | err e ↦ err e
    | ok false ↦ err no_wallet_found
    | ok true ↦ elim (is_valid d cfg.wallet_dir) [
      | err e ↦ err e
      | ok false ↦ err invalid_wallet
      | ok true ↦ elim (read_keymanager_kind_from_wallet_path d cfg.wallet_dir) [
        | err e ↦ err e
        | ok kind ↦ ok (wallet_of cfg.wallet_dir cfg.wallet_password kind)
      ]
    ]
  ]

  -- `ReadFileAtPath` after the directory is there.
  unfoldable pub read_match : String → Disk → Result WalletError (List ℕ)
  read_match full_path d = elim (os.glob d full_path) [
    | none ↦ err cannot_find_file
    | some [] ↦ err no_files_found
    | some (m ∷ matches) ↦ elim (os.read_file d m) [
      | none ↦ err cannot_read_file
      | some raw ↦ ok raw
    ]
  ]

  -- The same, with what `MkdirAll` answered.
  unfoldable pub after_making :
      String → Result FileError Bool × Disk → Result WalletError (List ℕ) × Disk
  after_making full_path (err e, d) = (err (in_path e), d)
  after_making full_path (ok made, d) = (read_match full_path d, d)

  unfoldable pub read_file_at_path :
      Wallet → String → String → Disk → Result WalletError (List ℕ) × Disk
  read_file_at_path w file_path file_name d =
      let account_path = os.join w.accounts_path file_path in
      let full_path = os.join account_path file_name in
      elim (has_dir os d account_path) [
        | err e ↦ (err (in_path e), d)
        | ok true ↦ (read_match full_path d, d)
        | ok false ↦ after_making full_path (mkdir_all os account_path d)
      ]
