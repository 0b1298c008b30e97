-- ===== src/Flags.antt =====
-- simple_rpc/utils: the groups of command line flags (helpers.go), and paths (customflags.go).
pub mod Order
pub mod Category
pub mod Help
pub mod Directory
mod Examples
use eth_research.Base.{
  ℕ, suc, ◌+◌, List, [], ◌∷◌, Bool, true, false, Option, none, some, ltb, if◌then◌else◌, length,
  get_elem?, Outcome, done, panic,
}
use eth_research.Base.Text.{String, str_eq}
use eth_research.Files.System.{Host}
use eth_research.Files.{expand_tilde}

-- `FlagGroup`, with the names of its flags.
pub record FlagGroup : Type 0 where
  pub name : String
  pub flags : List String

-- The loop of `Less` for one of the two names: the index of the last group of that name, or what
-- the index was before.
unfoldable pub last_index : String → ℕ → List FlagGroup → ℕ → ℕ
last_index name i [] found = found
last_index name i (group ∷ rest) found =
    last_index name (suc i) rest (if str_eq name group.name then i else found)

-- `ByCategory.Less`
unfoldable pub less : List FlagGroup → ℕ → ℕ → Outcome Bool
less a i j = elim (get_elem? a i) [
  | none ↦ panic
  | some g ↦ elim (get_elem? a j) [
    | none ↦ panic
    | some k ↦ done (ltb (last_index g.name 0 a (length a)) (last_index k.name 0 a (length a)))
  ]
]

-- The inner loop of `FlagCategory`.
unfoldable pub has_flag : String → List String → Bool
has_flag name [] = false
has_flag name (flag ∷ rest) = if str_eq flag name then true else has_flag name rest

unfoldable pub flag_category : String → List FlagGroup → String
flag_category name [] = "MISC"
flag_category name (category ∷ rest) =
    let later = flag_category name rest in
    if has_flag name category.flags then category.name else later

-- `expandPath`, which does not make the path absolute, and whose `HomeDir` is that of fileutil.
unfoldable pub expand_dir : Host → String → String
expand_dir os p = os.clean (os.expand_env (expand_tilde os p))
