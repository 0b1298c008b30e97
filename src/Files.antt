-- ===== src/Files.antt =====
-- fileutil/fileutil.go: paths, directories and files, over a host that is a parameter.
pub mod System
pub mod Permissions
pub mod Trees
pub mod Examples
use eth_research.Base.{
  ℕ, ◌%◌, List, Bool, true, false, not, ◌&&◌, ◌||◌, Option, none, some, ◌==◌, if◌then◌else◌, Result,
  ok, err,
}
use eth_research.Base.Text.{String, str_eq, starts_with, concat, drop1}
use eth_research.Files.System.{Host, missing, stat_failed, info}

pub data FileError : Type 0 where
  no_absolute_path cannot_stat dir_permissions file_permissions cannot_make_dir cannot_write
        cannot_read destination_exists cannot_list cannot_walk too_deep :
      FileError

module _ (os : Host) where
  open os use {Disk}

  -- `HomeDir`
  unfoldable pub home_dir : String
  home_dir =
      if not (str_eq os.getenv_home "")
      then os.getenv_home
      else elim os.current_user_home [ some home ↦ home | none ↦ "" ]

  -- The tilde of `ExpandPath`.
  unfoldable pub expand_tilde : String → String
  expand_tilde p =
      if (starts_with p "~/" || starts_with p "~\\") && not (str_eq home_dir "")
      then concat home_dir (drop1 p)
      else p

  unfoldable pub expand_path : String → Result FileError String
  expand_path p = elim (os.abs (os.clean (os.expand_env (expand_tilde p)))) [
    | none ↦ err no_absolute_path
    | some full ↦ ok full
  ]

  unfoldable pub has_dir : Disk → String → Result FileError Bool
  has_dir d dir_path = elim (expand_path dir_path) [
    | err e ↦ err e
    | ok full_path ↦ elim (os.stat d full_path) [
      | missing ↦ ok false
      | stat_failed ↦ err cannot_stat
      | info is_dir mode ↦ ok is_dir
    ]
  ]

  unfoldable pub file_exists : Disk → String → Bool
  file_exists d filename = elim (expand_path filename) [
    | err e ↦ false
    | ok file_path ↦ elim (os.stat d file_path) [
      | missing ↦ false
      | stat_failed ↦ false
      | info is_dir mode ↦ not is_dir
    ]
  ]

  -- `info.Mode().Perm() != 0700`, with the error of `os.Stat` before it; `none` lets through.
  unfoldable pub dir_refused : Disk → String → Option FileError
  dir_refused d expanded = elim (os.stat d expanded) [
    | missing ↦ some cannot_stat
    | stat_failed ↦ some cannot_stat
    | info is_dir mode ↦ if mode % 512 == 448 then none else some dir_permissions
  ]

  -- `os.MkdirAll(expanded, 0700)`
  unfoldable pub make_dirs : String → Disk → Result FileError Bool × Disk
  make_dirs expanded d =
      let (worked, d1) = os.mkdir_all expanded 448 d in
      ((if worked then ok true else err cannot_make_dir), d1)

  -- `MkdirAll`
  unfoldable pub mkdir_all : String → Disk → Result FileError Bool × Disk
  mkdir_all dir_path d = elim (expand_path dir_path) [
    | err e ↦ (err e, d)
    | ok expanded ↦ elim (has_dir d expanded) [
      | err e ↦ (err e, d)
      | ok false ↦ make_dirs expanded d
      | ok true ↦ elim (dir_refused d expanded) [
        | some e ↦ (err e, d)
        | none ↦ make_dirs expanded d
      ]
    ]
  ]

  -- `info.Mode() != 0600`, the same way.
  unfoldable pub file_refused : Disk → String → Option FileError
  file_refused d expanded = elim (os.stat d expanded) [
    | missing ↦ some cannot_stat
    | stat_failed ↦ some cannot_stat
    | info is_dir mode ↦ if mode == 384 then none else some file_permissions
  ]

  -- `ioutil.WriteFile(expanded, data, 0600)`
  unfoldable pub put_file : String → List ℕ → Disk → Result FileError Bool × Disk
  put_file expanded bytes d =
      let (worked, d1) = os.write_file expanded bytes 384 d in
      ((if worked then ok true else err cannot_write), d1)

  -- `WriteFile`
  unfoldable pub write_file : String → List ℕ → Disk → Result FileError Bool × Disk
  write_file file bytes d = elim (expand_path file) [
    | err e ↦ (err e, d)
    | ok expanded ↦
        if file_exists d expanded
        then elim (file_refused d expanded) [
          | some e ↦ (err e, d)
          | none ↦ put_file expanded bytes d
        ]
        else put_file expanded bytes d
  ]

  unfoldable pub read_file_as_bytes : Disk → String → Result FileError (List ℕ)
  read_file_as_bytes d filename = elim (expand_path filename) [
    | err e ↦ err e
    | ok file_path ↦ elim (os.read_file d file_path) [ none ↦ err cannot_read | some b ↦ ok b ]
  ]

  unfoldable pub copy_file : String → String → Disk → Result FileError Bool × Disk
  copy_file src dst d = elim (os.read_file d src) [
    | none ↦ (err cannot_read, d)
    | some input ↦ put_file dst input d
  ]
