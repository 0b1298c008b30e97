-- ===== src/Wallet/Keymanager/Filled.antt =====
-- wallet/keymanager.go: what a loop over the keys of an account store has put into the caches.
use eth_research.Base.{
  ℕ, suc, ◌<◌, ◌≡◌, ◌≢◌, refl, sym, ap, ◌∙◌, inl, inr, List, false, Option, some, ◌==◌, length,
  length-set, get_elem?, get_elem?-some_lt, get_elem?-set_self, get_elem?-set_ne, set, arith,
  Bool-cases, ok,
}
use eth_research.Base.Dict.{bytes_eq, bytes_beq, bytes_beq_iff, lookup, insert, lookup-insert}
use eth_research.Bytes.Slices.{to_bytes48}
use eth_research.Bls.Herumi.{Herumi}
use eth_research.Bls.Keys.{secret_key_from_bytes}
use eth_research.Bls.Keys.Secrets.{secret_key_from_bytes_accepts}
use eth_research.Wallet.Keymanager.{AccountStore, bytes_of, Caches}

module _ (h : Herumi) where
  open h use {SecretKey, get_public_key, serialize_public_key, secret_key_is_zero}

  -- The 48 bytes that key i of the store is looked up by, and the public key of a secret key.
  abbrev pub name_of : Option (List ℕ) → List ℕ
  name_of public_key = to_bytes48 (bytes_of public_key)

  abbrev pub public_of : SecretKey → List ℕ
  public_of k = serialize_public_key (get_public_key k)

  -- Each public key of the store belongs to the secret key at its index.
  abbrev pub IsPaired : AccountStore → Type 0
  IsPaired store =
      (i : ℕ) (public_key : Option (List ℕ)) (private_key : List ℕ) (k : SecretKey)
      → get_elem? store.public_keys i ≡ some public_key
      → get_elem? store.private_keys i ≡ some private_key
      → secret_key_from_bytes h private_key ≡ ok k
      → name_of public_key ≡ public_of k

  -- The caches after the keys below `n`.
  pub record Filled (store : AccountStore) (n : ℕ) (c : Caches h) : Type 0 where
    pub size : length c.ordered_public_keys ≡ length store.private_keys
    pub order :
        (i : ℕ) (p : Option (List ℕ))
        → i < n
        → get_elem? store.public_keys i ≡ some p
        → get_elem? c.ordered_public_keys i ≡ some (name_of p)
    pub present :
        (i : ℕ) (p : Option (List ℕ))
        → i < n
        → get_elem? store.public_keys i ≡ some p
        → (k : SecretKey) × (lookup (name_of p) c.secret_keys ≡ some k)
    pub owner :
        (b : List ℕ) (k : SecretKey)
        → lookup b c.secret_keys ≡ some k
        → (public_of k ≡ b) × (secret_key_is_zero k ≡ false)

  abbrev pub added : ℕ → Option (List ℕ) → SecretKey → Caches h → Caches h
  added i p k c = record {
    ordered_public_keys = set c.ordered_public_keys i (name_of p);
    secret_keys = insert (name_of p) k c.secret_keys;
  }

  module _ (store : AccountStore) (i : ℕ) (p : Option (List ℕ)) (k : SecretKey) (c : Caches h) where
    added_order :
        (f : Filled store i c)
        → i < length c.ordered_public_keys
        → get_elem? store.public_keys i ≡ some p
        → (j : ℕ) (q : Option (List ℕ)) → j < suc i
        → get_elem? store.public_keys j ≡ some q
        → get_elem? (set c.ordered_public_keys i (name_of p)) j ≡ some (name_of q)
    added_order f lt here j q low e = elim (Bool-cases (j == i)) [
      | inl same ↦
          let eq : j ≡ i = ground (arith, same) in
          let is : q ≡ p = ground (arith, e, here) in
          rw (eq, is) (get_elem?-set_self c.ordered_public_keys i (name_of p) lt)
      | inr other ↦
          let ne : i ≢ j = λ x. ground (arith, other) in
          get_elem?-set_ne c.ordered_public_keys i j (name_of p) ne
          ∙ f.order j q (ground (arith, other, low)) e
    ]

    added_present :
        (f : Filled store i c)
        → get_elem? store.public_keys i ≡ some p
        → (j : ℕ) (q : Option (List ℕ)) → j < suc i
        → get_elem? store.public_keys j ≡ some q
        → (m : SecretKey) × (lookup (name_of q) (insert (name_of p) k c.secret_keys) ≡ some m)
    added_present f here j q low e = elim (Bool-cases (bytes_beq (name_of q) (name_of p))) [
      | inl same ↦ (k, rw (lookup-insert (name_of q) (name_of p) k c.secret_keys, same) refl)
      | inr other ↦
          let below : j < i = elim (Bool-cases (j == i)) [
            | inl same ↦
                let eq : j ≡ i = ground (arith, same) in
                let is : q ≡ p = ground (arith, e, here) in
                let alike = (bytes_beq_iff (name_of q) (name_of p)).1 (ap name_of is) in cc
            | inr apart ↦ ground (arith, apart, low)
          ] in
          let (m, found) = f.present j q below e in
          (m, rw (lookup-insert (name_of q) (name_of p) k c.secret_keys, other) found)
    ]

    added_owner :
        (f : Filled store i c)
        → name_of p ≡ public_of k
        → secret_key_is_zero k ≡ false
        → (b : List ℕ) (m : SecretKey) → lookup b (insert (name_of p) k c.secret_keys) ≡ some m
        → (public_of m ≡ b) × (secret_key_is_zero m ≡ false)
    added_owner f pair nonzero b m e = elim (Bool-cases (bytes_beq b (name_of p))) [
      | inl same ↦
          let is : m ≡ k = ground (arith, e, same, lookup-insert b (name_of p) k c.secret_keys) in
          let at = (bytes_beq_iff b (name_of p)).0 same in rw is (sym pair ∙ sym at, nonzero)
      | inr other ↦
          f.owner b m (sym (rw other at (lookup-insert b (name_of p) k c.secret_keys)) ∙ e)
    ]

  -- One more key.
  pub fill_step :
      (store : AccountStore) (i : ℕ) (p : Option (List ℕ)) (private_key : List ℕ) (k : SecretKey)
      (c : Caches h)
      → IsPaired store
      → Filled store i c
      → get_elem? store.public_keys i ≡ some p
      → get_elem? store.private_keys i ≡ some private_key
      → secret_key_from_bytes h private_key ≡ ok k
      → Filled store (suc i) (added i p k c)
  fill_step store i p private_key k c pairs f here secret good =
      let low : i < length c.ordered_public_keys =
        omega (arith, f.size, get_elem?-some_lt store.private_keys i private_key secret) in
      let (len, reads, nonzero) = secret_key_from_bytes_accepts h private_key k good in
      let pair = pairs i p private_key k here secret good in
      record {
        size = length-set c.ordered_public_keys i (name_of p) ∙ f.size;
        order = added_order store i p k c f low here;
        present = added_present store i p k c f here;
        owner = added_owner store i p k c f pair nonzero;
      }
