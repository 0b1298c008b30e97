-- ===== src/Flags/Examples.antt =====
-- Runs of simple_rpc/utils on small groups of flags.
use eth_research.Base.{
  ℕ, zero, suc, ◌≡◌, ◌≢◌, refl, List, [], ◌∷◌, true, false, some, none, ◌⊎◌, get_elem?, done, panic,
  if◌then◌else◌,
}
use eth_research.Base.Text.{String, str_eq_iff, string_eq, concat}
use eth_research.Flags.{FlagGroup, flag_category, has_flag}
use eth_research.Base.Dict.{lookup, lookup_or, insert}
use eth_research.Flags.Directory.{
  DirectoryFlag, apply, Goos, default_config_dir, split, trim, trim_end,
}
use eth_research.Flags.Directory.Applied.{has_comma, apply_lem}
use eth_research.Flags.Help.{
  app_help_flag_groups, categorize, flags_in, no_category, categorize_lem,
}

abbrev api : FlagGroup
api = record { name = "API"; flags = "ipc" ∷ "http" ∷ [] }

abbrev logging : FlagGroup
logging = record { name = "LOG"; flags = "verbosity" ∷ [] }

abbrev groups : List FlagGroup
groups = api ∷ logging ∷ []

apart : ◌≢◌ {A = String} "API" "LOG"
apart e = let wrong : false ≡ true = (str_eq_iff "API" "LOG").1 e in cc

distinct :
    (i j : ℕ) (x y : FlagGroup)
    → get_elem? groups i ≡ some x
    → get_elem? groups j ≡ some y
    → x.name ≡ y.name
    → j ≡ i
distinct zero zero x y ex ey same = refl
distinct (suc zero) (suc zero) x y ex ey same = refl
distinct zero (suc zero) x y ex ey same = absurd (apart cc)
distinct (suc zero) zero x y ex ey same = absurd (apart cc)
distinct (suc (suc i)) j x y ex ey same = cc
distinct zero (suc (suc j)) x y ex ey same = cc
distinct (suc zero) (suc (suc j)) x y ex ey same = cc

-- The flags of a command of simple_rpc, with texts that begin with dashes.
abbrev command_flags : List String
command_flags = "ipcpath" ∷ "loglevel" ∷ "cfgdir" ∷ []

abbrev with_dashes : String → String
with_dashes f = concat "--" f

categorize_lem_example :
    (lookup_or [] "IPC-FLAGS" (categorize app_help_flag_groups with_dashes command_flags [])
      ≡ flags_in app_help_flag_groups with_dashes "IPC-FLAGS" command_flags)
    × ((no_category app_help_flag_groups with_dashes "IPC-FLAGS" command_flags ≡ false)
        ⊎ (lookup "IPC-FLAGS" (categorize app_help_flag_groups with_dashes command_flags [])
            ≡ none))
unfolding no_category concat flag_category has_flag
categorize_lem_example =
    categorize_lem app_help_flag_groups with_dashes command_flags (refl, (refl, (refl, tt)))
      "IPC-FLAGS"

ipc_flags :
    flags_in app_help_flag_groups with_dashes "IPC-FLAGS" command_flags
    ≡ ("ipcpath" ∷ "cfgdir" ∷ [])
unfolding flags_in flag_category has_flag
ipc_flags = refl

-- A flag with a short name beside its name.
abbrev two_names : DirectoryFlag
two_names = record { name = "ipcpath,i"; value = "/tmp"; usage = ""; env_var = "" }

apply_lem_example : apply two_names [] ≡ (
    if has_comma two_names.name then panic else elim (lookup {V = String} two_names.name []) [
      | none ↦ done (insert two_names.name two_names.value [])
      | some v ↦ panic
    ])
apply_lem_example = apply_lem two_names []

two_names_comma : has_comma two_names.name ≡ true
unfolding has_comma
two_names_comma = refl

two_parts : split "ipcpath, i" ≡ "ipcpath" ∷ " i" ∷ []
unfolding split
two_parts = refl

trimmed : trim "  a b " ≡ "a b"
unfolding trim trim_end
trimmed = refl

-- A join that puts slashes between.
abbrev slashes : List String → String
slashes [] = ""
slashes (s ∷ rest) = concat s (concat "/" (slashes rest))

on_linux : default_config_dir "/home/w" "" slashes Goos.other_os ≡ "/home/w/.Orchestrator/"
unfolding default_config_dir concat
on_linux = refl
