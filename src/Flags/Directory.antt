-- ===== src/Flags/Directory.antt =====
-- simple_rpc/utils: the flag of a directory (customflags.go), and the default directory of the
-- configuration (defaults.go).
pub mod Applied
use Prim.Native.Char.{Char, code}
use eth_research.Base.{
  ℕ, List, [], ◌∷◌, Bool, true, false, ◌&&◌, ◌||◌, Option, none, some, ◌==◌, if◌then◌else◌, Outcome,
  done, panic, ◌>>=◌,
}
use eth_research.Base.Dict.{Dict, lookup, insert}
use eth_research.Base.Text.{String, str_eq, string_eq}
use eth_research.Files.System.{Host}
use eth_research.Flags.{expand_dir}

pub record DirectoryFlag : Type 0 where
  pub name : String
  pub value : String
  pub usage : String
  pub env_var : String

-- `DirectoryFlag.Set`, with `DirectoryString.Set`
unfoldable pub set_value : Host → String → DirectoryFlag → DirectoryFlag
set_value os value f = record f { value = expand_dir os value }

abbrev pub is_comma : Char → Bool
is_comma c = code c == 44

abbrev pub is_space : Char → Bool
is_space c = code c == 32

-- A character in front of the first part.
abbrev pub in_front : Char → List String → List String
in_front c [] = String.◌∷◌ c String.[] ∷ []
in_front c (part ∷ parts) = String.◌∷◌ c part ∷ parts

-- `strings.Split(s, ",")`
unfoldable pub split : String → List String
split String.[] = String.[] ∷ []
split (String.◌∷◌ c s) =
    let rest = split s in if is_comma c then String.[] ∷ rest else in_front c rest

-- `strings.Trim(s, " ")`
unfoldable pub trim_end : String → String
trim_end String.[] = String.[]
trim_end (String.◌∷◌ c s) =
    let rest = trim_end s in if is_space c && str_eq rest "" then String.[] else String.◌∷◌ c rest

unfoldable pub trim : String → String
trim String.[] = String.[]
trim (String.◌∷◌ c s) = let rest = trim s in if is_space c then rest else trim_end (String.◌∷◌ c s)

-- The loop of `eachName`, where a call of the function changes a state.
module _ {S : Type 0} (fn : String → S → Outcome S) where
  unfoldable pub each_part : List String → S → Outcome S
  each_part [] s = done s
  each_part (part ∷ rest) s = do s1 ← fn (trim part) s; each_part rest s1

  unfoldable pub each_name : String → S → Outcome S
  each_name long_name s = each_part (split long_name) s

-- The flags of a command, by name, with their values.
abbrev pub FlagSet : Type 0
FlagSet = Dict String String

-- `FlagSet.Var` of package flag, which panics on a name that is there.
unfoldable pub set_var : String → String → FlagSet → Outcome FlagSet
set_var name value set = elim (lookup name set) [
  | none ↦ done (insert name value set)
  | some v ↦ panic
]

-- `DirectoryFlag.Apply`, whose function takes the whole name in place of its argument.
unfoldable pub apply : DirectoryFlag → FlagSet → Outcome FlagSet
apply f set = each_name (λ name. set_var f.name f.value) f.name set

-- The operating systems that `DefaultConfigDir` tells apart.
pub data Goos : Type 0 where
  darwin windows other_os : Goos

-- `DefaultConfigDir`, with what go-ethereum's `HomeDir`, `APPDATA` and `filepath.Join` give.
module _ (home app_data : String) (join : List String → String) where
  unfoldable pub default_config_dir : Goos → String
  default_config_dir goos = if str_eq home "" then "" else elim goos [
    | darwin ↦ join (home ∷ "Library" ∷ "Orchestrator" ∷ [])
    | windows ↦
        if str_eq app_data ""
        then join (home ∷ "AppData" ∷ "Roaming" ∷ "Orchestrator" ∷ [])
        else join (app_data ∷ "Orchestrator" ∷ [])
    | other_os ↦ join (home ∷ ".Orchestrator" ∷ [])
  ]
