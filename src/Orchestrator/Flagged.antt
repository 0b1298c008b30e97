-- ===== src/Orchestrator/Flagged.antt =====
-- simple_rpc/utils/flags.go: the global flags after `MigrateFlags`.
use eth_research.Base.{
  ◌≡◌, refl, ap, sym, inl, inr, List, [], ◌∷◌, Bool, false, ◌&&◌, ◌||◌, some, if◌then◌else◌, arith,
  Bool-cases,
}
use eth_research.Base.Dict.{Dict, lookup, insert, lookup-insert}
use eth_research.Base.Text.{String, str_eq, str_eq_iff, string_eq}
use eth_research.Orchestrator.{Context, migrate_each, migrate_flags, global_string}

unfoldable pub is_given : Context → String → List String → Bool
is_given c name [] = false
is_given c name (n ∷ rest) = (str_eq name n && c.is_set n) || is_given c name rest

module _ (c : Context) where
  migrate_one :
      (name n : String) (globals : Dict String String)
      → lookup name (if c.is_set n then insert n (c.value n) globals else globals)
        ≡ (if str_eq name n && c.is_set n then some (c.value name) else lookup name globals)
  migrate_one name n globals = elim (Bool-cases (c.is_set n)) [
    | inr off ↦ rw off (ground (arith, off))
    | inl on ↦ elim (Bool-cases (str_eq name n)) [
      | inl same ↦
          let eq : name ≡ n = (str_eq_iff name n).0 same in
          rw (on, lookup-insert name n (c.value n) globals, same)
            (ap (λ m. some (c.value m)) (sym eq))
      | inr other ↦ rw (on, lookup-insert name n (c.value n) globals, other) refl
    ]
  ]

  migrate_each_lem :
      (name : String) (names : List String) (globals : Dict String String)
      → lookup name (migrate_each c names globals)
        ≡ (if is_given c name names then some (c.value name) else lookup name globals)
  unfolding migrate_each is_given
  migrate_each_lem name [] globals = refl
  migrate_each_lem name (n ∷ rest) globals =
      let later =
        migrate_each_lem name rest (if c.is_set n then insert n (c.value n) globals else globals) in
      ground (arith, later, migrate_one name n globals)

  -- After `MigrateFlags`, a global flag has the value that the command is given, or else the one
  -- that it had.
  pub migrate_flags_lem :
      (name : String)
      → global_string name (migrate_flags c)
        ≡ (if is_given c name c.flag_names then c.value name else global_string name c)
  unfolding migrate_flags
  migrate_flags_lem name = ground (arith, migrate_each_lem name c.flag_names c.globals)
