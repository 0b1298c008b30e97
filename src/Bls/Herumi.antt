-- ===== src/Bls/Herumi.antt =====
-- bls/herumi: the functions of github.com/herumi/bls-eth-go-binary/bls that the package calls.
use eth_research.Base.{ℕ, List, Bool, Option}

-- A point or a scalar is a value here. Where the Go type of the library is one of its own and is
-- only cast (`CastFromSign` and its like), the two types are one.
pub record Herumi : Type 1 where
  pub Sign : Type 0
  pub PublicKey : Type 0
  pub SecretKey : Type 0
  pub Fr : Type 0
  pub deserialize_sign : List ℕ → Option Sign
  pub serialize_sign : Sign → List ℕ
  pub deserialize_public_key : List ℕ → Option PublicKey
  pub serialize_public_key : PublicKey → List ℕ
  pub public_key_is_zero : PublicKey → Bool
  pub add_public_key : PublicKey → PublicKey → PublicKey
  pub deserialize_secret_key : List ℕ → Option SecretKey
  pub serialize_secret_key : SecretKey → List ℕ
  pub secret_key_is_zero : SecretKey → Bool
  pub get_public_key : SecretKey → PublicKey
  pub sign_byte : SecretKey → List ℕ → Sign
  pub verify_byte : Sign → PublicKey → List ℕ → Bool
  pub aggregate_verify_no_check : Sign → List PublicKey → List ℕ → Bool
  pub fast_aggregate_verify : Sign → List PublicKey → List ℕ → Bool
  pub add_sign : Sign → Sign → Sign
  pub set_little_endian : List ℕ → Option Fr
  pub g2_mul_vec : List Sign → List Fr → Sign
  pub g1_mul : PublicKey → Fr → PublicKey
  pub hash_and_map_to_signature : List ℕ → Sign
  pub sign_to_hex_str : Sign → List ℕ
