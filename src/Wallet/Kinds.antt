-- ===== src/Wallet/Kinds.antt =====
-- wallet/wallet.go: the kinds of keymanagers, and the names of their directories. A `Kind` outside
-- of the three constants, which only a caller of `NewWallet` could make up, is not modelled.
use eth_research.Base.{◌≡◌, refl, if◌then◌else◌, arith, Result, ok, err}
use eth_research.Base.Text.{String, str_eq, str_eq_iff}
use eth_research.Files.{FileError}

pub data Kind : Type 0 where
  imported derived remote : Kind

pub data WalletError : Type 0 where
  not_an_allowed_keymanager no_wallet_found cannot_open_dir cannot_list_dir invalid_wallet :
      WalletError
  no_keymanager_folder cannot_find_file no_files_found cannot_read_file : WalletError
  in_path : FileError → WalletError

unfoldable pub parse_kind : String → Result WalletError Kind
parse_kind k =
    if str_eq k "derived"
    then ok derived
    else if str_eq k "direct"
    then ok imported
    else if str_eq k "remote"
    then ok remote
    else err not_an_allowed_keymanager

-- `Kind.String`
unfoldable pub kind_string : Kind → String
kind_string derived = "derived"
kind_string imported = "direct"
kind_string remote = "remote"

-- Parsing gives back the kind of a name that a kind writes, and a name that parses is the one that
-- its kind writes.
pub parse_kind-kind_string : (k : Kind) → parse_kind (kind_string k) ≡ ok k
unfolding parse_kind kind_string
parse_kind-kind_string imported = refl
parse_kind-kind_string derived = refl
parse_kind-kind_string remote = refl

pub kind_string-parse_kind : (s : String) (k : Kind) → parse_kind s ≡ ok k → kind_string k ≡ s
unfolding parse_kind kind_string
kind_string-parse_kind s imported e =
    ground (arith, e, str_eq_iff s "derived", str_eq_iff s "direct", str_eq_iff s "remote")
kind_string-parse_kind s derived e =
    ground (arith, e, str_eq_iff s "derived", str_eq_iff s "direct", str_eq_iff s "remote")
kind_string-parse_kind s remote e =
    ground (arith, e, str_eq_iff s "derived", str_eq_iff s "direct", str_eq_iff s "remote")
