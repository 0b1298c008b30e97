-- ===== src/Program/Examples.antt =====
-- A run of main.go on a wallet with two small keys.
use eth_research.Files.{has_dir, expand_path}
use eth_research.Bytes.Slices.{to_bytes48, copy}
use eth_research.Base.{
  ℕ, zero, suc, ◌≡◌, ◌≢◌, refl, sym, inl, inr, ◌⊎◌, List, [], ◌∷◌, true, false, none, some,
  replicate, get_elem?, ◌==◌, ==_iff, Bool-cases, done, panic, ok, arith,
}
use eth_research.Base.Text.{concat}
use eth_research.Files.System.{Host, info, names}
use eth_research.Bls.Keys.{KeyError, KeyStore, secret_key_from_bytes}
use eth_research.Bls.Examples.{toy, key_bytes, cached, cached-IsValid}
use eth_research.Wallet.Kinds.{imported, parse_kind}
use eth_research.Wallet.{
  Wallet, wallet_of, open_wallet, exists, is_valid, count_wallet_types,
  read_keymanager_kind_from_wallet_path, first_kind, read_file_at_path, read_match,
}
use eth_research.Wallet.Keymanager.{
  Codec, AccountStore, Caches, plain, failed_to_verify, in_key, disable, no_files, encoded,
}
use eth_research.Wallet.Keymanager.Filled.{name_of, public_of, IsPaired}
use eth_research.Wallet.Examples.{toy_correct}
use eth_research.Wallet.Examples as Accounts
use eth_research.Program.{no_keymanager, not_verified, verified, run_main, read_keystore}
use eth_research.Program.Whole.{run_main_lem}
use eth_research.Program.Few.{run_main-panics}

-- A host on which every directory is the wallet's and every file its keystore.
abbrev wallet_host : Host
wallet_host = record {
  Disk = ℕ;
  getenv_home = "/home";
  current_user_home = none;
  expand_env = λ p. p;
  clean = λ p. p;
  abs = some;
  join = λ p q. concat p (concat "/" q);
  stat = λ d p. info true 448;
  mkdir_all = λ p mode d. (true, d);
  write_file = λ p b mode d. (true, d);
  read_file = λ d p. some (1 ∷ []);
  glob = λ d p. some (p ∷ []);
  readdirnames = λ d p. names ("direct" ∷ []);
  read_dir = λ d p. none;
  walk = λ d p. [];
}

abbrev wallet : Wallet
wallet = wallet_of wallet_host "./wallet/prysm-wallet-v2" "Konasl@123" imported

abbrev store : AccountStore
store = record {
  private_keys = (7 ∷ replicate 31 0) ∷ (9 ∷ replicate 31 0) ∷ [];
  public_keys = some (key_bytes 7) ∷ some (key_bytes 9) ∷ [];
}

abbrev two_codec : Codec
two_codec = record {
  Crypto = ℕ;
  unmarshal_keystore = λ b. some (0, []);
  decrypt = λ c p. plain (2 ∷ []);
  unmarshal_store = λ b. some store;
  hex_decode = λ s. none;
  slot_hash = λ i. i.epoch ∷ i.slot ∷ i.proposer_index ∷ [];
}

abbrev no_caches : Caches toy
no_caches = record { ordered_public_keys = []; secret_keys = [] }

read_keys :
    (secret_key_from_bytes toy (7 ∷ replicate 31 0) ≡ ok 7)
    × (secret_key_from_bytes toy (9 ∷ replicate 31 0) ≡ ok 9)
unfolding secret_key_from_bytes
read_keys = (refl, refl)

names_of_keys :
    (name_of toy (some (key_bytes 7)) ≡ public_of toy 7)
    × (name_of toy (some (key_bytes 9)) ≡ public_of toy 9)
unfolding to_bytes48 copy
names_of_keys = (refl, refl)

store-IsPaired : IsPaired toy store
store-IsPaired zero p private_key k e1 e2 good =
    let is_private : private_key ≡ 7 ∷ replicate 31 0 = cc in
    let seven = read_keys.0 in
    let is_key : k ≡ 7 = cc in
    let is_public : p ≡ some (key_bytes 7) = cc in rw (is_key, is_public) names_of_keys.0
store-IsPaired (suc zero) p private_key k e1 e2 good =
    let is_private : private_key ≡ 9 ∷ replicate 31 0 = cc in
    let nine = read_keys.1 in
    let is_key : k ≡ 9 = cc in
    let is_public : p ≡ some (key_bytes 9) = cc in rw (is_key, is_public) names_of_keys.1
store-IsPaired (suc (suc i)) p private_key k e1 e2 good = cc

toy_foreign :
    (j k : ℕ) (m : List ℕ)
    → toy.get_public_key j ≢ toy.get_public_key k
    → toy.verify_byte (toy.sign_byte k m) (toy.get_public_key j) m ≡ false
toy_foreign j k m apart = elim (Bool-cases (k == j)) [
  | inl same ↦ absurd (apart (sym ((==_iff k j).0 same)))
  | inr other ↦ rw other refl
]

run_main_lem_example :
    ((e : KeyError) × (run_main toy two_codec wallet_host true true 0 no_caches cached
        ≡ done (no_keymanager (in_key e), (cached, 0))))
    ⊎ ((s' : KeyStore toy) × (((key_bytes 7 ≡ key_bytes 9)
            × (run_main toy two_codec wallet_host true true 0 no_caches cached
                ≡ done (verified, (s', 0))))
          ⊎ ((key_bytes 7 ≢ key_bytes 9)
              × (run_main toy two_codec wallet_host true true 0 no_caches cached
                  ≡ done (not_verified failed_to_verify, (s', 0))))))
unfolding open_wallet exists has_dir expand_path is_valid count_wallet_types parse_kind
    read_keymanager_kind_from_wallet_path first_kind read_keystore read_file_at_path read_match
    disable
run_main_lem_example =
    run_main_lem toy two_codec wallet_host true true 0 0 wallet (1 ∷ []) refl refl (λ p. refl)
      (λ k e. e) toy_correct toy_foreign (2 ∷ []) 0 [] [] store no_caches (key_bytes 7)
      (key_bytes 9) cached refl refl refl refl store-IsPaired refl refl refl refl refl
      cached-IsValid

-- The same wallet with one account.
abbrev one_codec : Codec
one_codec = record two_codec { unmarshal_store = λ b. some Accounts.store }

one_accepted :
    (i : ℕ) (private_key : List ℕ)
    → get_elem? Accounts.store.private_keys i ≡ some private_key
    → (k : ℕ) × (secret_key_from_bytes toy private_key ≡ ok k)
one_accepted zero private_key e =
    let is : 7 ∷ replicate 31 0 ≡ private_key = cc in (7, rw (sym is) Accounts.read_seven)
one_accepted (suc i) private_key e = cc

run_main-panics_example : run_main toy one_codec wallet_host true true 0 no_caches cached ≡ panic
unfolding open_wallet exists has_dir expand_path is_valid count_wallet_types parse_kind
    read_keymanager_kind_from_wallet_path first_kind read_keystore read_file_at_path read_match
    disable
run_main-panics_example =
    run_main-panics toy one_codec wallet_host true true 0 0 wallet (encoded (1 ∷ [])) no_caches
      cached refl refl
      (
        0,
        [],
        [],
        2 ∷ [],
        Accounts.store,
        refl,
        refl,
        refl,
        refl,
        Accounts.store-IsPaired,
        refl,
        omega arith,
        one_accepted,
      )

-- Without a keystore.
abbrev empty_host : Host
empty_host = record wallet_host { glob = λ d p. some [] }

no_keystore : run_main toy two_codec empty_host true true 0 no_caches cached ≡ panic
unfolding open_wallet exists has_dir expand_path is_valid count_wallet_types parse_kind
    read_keymanager_kind_from_wallet_path first_kind read_keystore read_file_at_path read_match
no_keystore =
    run_main-panics toy two_codec empty_host true true 0 0
      (wallet_of empty_host "./wallet/prysm-wallet-v2" "Konasl@123" imported) no_files no_caches
      cached refl refl tt
