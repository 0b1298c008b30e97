-- ===== src/Program.antt =====
-- main.go: the program that opens a wallet, signs a slot and verifies the signature. It is composed
-- of what Wallet.antt and Wallet/Keymanager.antt have.
pub mod Checking
pub mod Whole
pub mod Few
mod Examples
use eth_research.Base.{ℕ, List, Bool, Outcome, done, ◌>>=◌, Result, ok, err}
use eth_research.Base.Text.{String}
use eth_research.Files.System.{Host}
use eth_research.Bls.Herumi.{Herumi}
use eth_research.Bls.Keys.{KeyStore}
use eth_research.Wallet.Kinds.{imported, WalletError, no_files_found}
use eth_research.Wallet.{Config, Wallet, open_wallet, read_file_at_path}
use eth_research.Wallet.Keymanager.{
  SlotInfo, KeymanagerError, Encoded, no_files, read_failed, encoded, Codec, Keymanager, Caches,
  new_slot_info, new_keymanager, sign, verify_signature,
}

-- How the program ends: which call it reports an error of, or that the signature is verified.
pub data Ended : Type 0 where
  no_wallet : WalletError → Ended
  no_keymanager : KeymanagerError → Ended
  not_signed : KeymanagerError → Ended
  not_verified : KeymanagerError → Ended
  verified : Ended

abbrev pub main_config : Config
main_config = record {
  wallet_dir = "./wallet/prysm-wallet-v2";
  keymanager_kind = imported;
  wallet_password = "Konasl@123";
}

-- The slot that is signed.
abbrev pub dummy_slot : SlotInfo
dummy_slot = new_slot_info 2 64 5454

-- What `initializeAccountKeystore` sees of the answer of `ReadFileAtPath`.
abbrev pub encoded_of : Result WalletError (List ℕ) → Encoded
encoded_of (err no_files_found) = no_files
encoded_of (err e) = read_failed
encoded_of (ok bytes) = encoded bytes

module _ (os : Host) where
  open os use {Disk}

  unfoldable pub read_keystore : Wallet → Disk → Encoded × Disk
  read_keystore w d =
      let (res, d1) = read_file_at_path os w "accounts" "all-accounts.keystore.json" d in
      (encoded_of res, d1)

module _ (h : Herumi) (codec : Codec) where
  -- The part of `main` from `Sign` on; the first arguments are what the cache of public keys does.
  unfoldable pub check_signature :
      Bool → Bool → Keymanager → Caches h → KeyStore h → Outcome (Ended × KeyStore h)
  check_signature hit kept km c s = do
    signed ← sign h codec km c dummy_slot 1
    (elim signed [
      | err e ↦ done (not_signed e, s)
      | ok signature ↦ do
        (res, s1) ← verify_signature h codec hit kept km dummy_slot 0 signature s
        done (elim res [ err e ↦ not_verified e | ok b ↦ verified ], s1)
    ])

  unfoldable pub run_main :
      (os : Host)
      → Bool
      → Bool
      → os.Disk
      → Caches h
      → KeyStore h
      → Outcome (Ended × (KeyStore h × os.Disk))
  run_main os hit kept d c s = elim (open_wallet os d main_config) [
    | err e ↦ done (no_wallet e, (s, d))
    | ok wallet ↦
        let (file, d1) = read_keystore os wallet d in
        do
          (res, c1) ← new_keymanager h codec file wallet.password c
          (elim res [
            | err e ↦ done (no_keymanager e, (s, d1))
            | ok km ↦ do (ended, s1) ← check_signature hit kept km c1 s; done (ended, (s1, d1))
          ])
  ]
