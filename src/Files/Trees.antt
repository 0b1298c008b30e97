-- ===== src/Files/Trees.antt =====
-- fileutil/fileutil.go: whole directories. `CopyDir` takes fuel for the depth of its source.
pub mod Final
pub mod Copying
pub mod Listing
mod Examples
use eth_research.Base.{
  ℕ, zero, suc, ◌-◌, List, [], ◌∷◌, ◌++◌, Bool, true, false, Option, none, some, ◌==◌, leb,
  if◌then◌else◌, Outcome, done, panic, ◌>>=◌, Result, ok, err, ltb, ◌+◌,
}
use eth_research.Base.Text.{String, str_eq, str_leb, concat, drop_bytes, length_of}
use eth_research.Files.System.{Host, Visit, walk_failed, visited}
use eth_research.Files.{
  FileError, destination_exists, cannot_list, cannot_walk, cannot_read, too_deep, has_dir,
  mkdir_all, copy_file,
}

-- `sort.Strings`
unfoldable pub insert_string : String → List String → List String
insert_string s [] = s ∷ []
insert_string s (x ∷ xs) = if str_leb s x then s ∷ (x ∷ xs) else x ∷ insert_string s xs

unfoldable pub sort_strings : List String → List String
sort_strings [] = []
sort_strings (x ∷ xs) = insert_string x (sort_strings xs)

module _ (os : Host) where
  open os use {Disk, join, read_dir}

  -- The outcome of a call that writes.
  abbrev pub Written : Type 0
  Written = Result FileError Bool × Disk

  -- The loop of `CopyDir`, where the first argument is `CopyDir` on the directories found.
  unfoldable pub copy_entry :
      (String → String → Disk → Written) → Bool → String → String → Disk → Written
  copy_entry copy_sub true src_path dst_path d = copy_sub src_path dst_path d
  copy_entry copy_sub false src_path dst_path d = copy_file os src_path dst_path d

  unfoldable pub copy_entries :
      (String → String → Disk → Written) → String → String → List (String × Bool) → Disk → Written
  copy_entries copy_sub src dst [] d = (ok true, d)
  copy_entries copy_sub src dst ((name, is_dir) ∷ fds) d =
      let (res, d1) = copy_entry copy_sub is_dir (join src name) (join dst name) d in
      elim res [ err e ↦ (err e, d1) | ok b ↦ copy_entries copy_sub src dst fds d1 ]

  -- The part of `CopyDir` after the source is listed.
  unfoldable pub copy_listed :
      (String → String → Disk → Written) → String → String → List (String × Bool) → Disk → Written
  copy_listed copy_sub src dst fds d =
      let (res, d1) = mkdir_all os dst d in
      elim res [ err e ↦ (err e, d1) | ok b ↦ copy_entries copy_sub src dst fds d1 ]

  unfoldable pub copy_dir : ℕ → String → String → Disk → Written
  copy_dir zero src dst d = (err too_deep, d)
  copy_dir (suc fuel) src dst d = elim (has_dir os d dst) [
    | err e ↦ (err e, d)
    | ok true ↦ (err destination_exists, d)
    | ok false ↦ elim (read_dir d src) [
      | none ↦ (err cannot_list, d)
      | some fds ↦ copy_listed (copy_dir fuel) src dst fds d
    ]
  ]

  -- `file[len(dir)+1:]` of a file that is visited.
  unfoldable pub relative_file : String → String → Outcome String
  relative_file dir file =
      if str_eq dir "."
      then done file
      else if ltb (length_of file) (length_of dir + 1)
      then panic
      else done (drop_bytes (length_of dir + 1) file)

  -- The function that `DirFiles` hands to `Walk`, over all that it visits. Paths on this host have
  -- slashes, so that `ToSlash` changes nothing.
  unfoldable pub collect_files :
      String → List (String × Visit) → Outcome (Result FileError (List String))
  collect_files dir [] = done (ok [])
  collect_files dir ((file, walk_failed) ∷ rest) = done (err cannot_walk)
  collect_files dir ((file, visited true) ∷ rest) = collect_files dir rest
  collect_files dir ((file, visited false) ∷ rest) = do
    rel_file ← relative_file dir file
    more ← collect_files dir rest
    done (elim more [ err e ↦ err e | ok files ↦ ok (rel_file ∷ files) ])

  unfoldable pub dir_files : Disk → String → Outcome (Result FileError (List String))
  dir_files d dir = let clean_dir = os.clean dir in collect_files clean_dir (os.walk d clean_dir)

  -- The packages that hash and print, and the bytes of a text.
  module _ (sha256 hex : List ℕ → List ℕ) (base64 : List ℕ → String) (utf8 : String → List ℕ) where
    -- What the loop of `HashDir` writes to its hash.
    unfoldable pub hash_lines : Disk → String → List String → Result FileError (List ℕ)
    hash_lines d dir [] = ok []
    hash_lines d dir (file ∷ files) = elim (os.read_file d (join dir file)) [
      | none ↦ err cannot_read
      | some bytes ↦ elim (hash_lines d dir files) [
        | err e ↦ err e
        | ok more ↦ ok (hex (sha256 bytes) ++ (utf8 "  " ++ (utf8 file ++ (utf8 "\n" ++ more))))
      ]
    ]

    unfoldable pub hash_dir : Disk → String → Outcome (Result FileError String)
    hash_dir d dir = do
      found ← dir_files d dir
      done (elim found [
        | err e ↦ err e
        | ok files ↦ elim (hash_lines d dir (sort_strings files)) [
          | err e ↦ err e
          | ok lines ↦ ok (concat "hashdir:" (base64 (sha256 lines)))
        ]
      ])

    unfoldable pub dirs_equal : Disk → String → String → Outcome Bool
    dirs_equal d src dst = do
      first ← hash_dir d src
      (elim first [
        | err e ↦ done false
        | ok hash1 ↦ do
          second ← hash_dir d dst
          done (elim second [ err e ↦ false | ok hash2 ↦ str_eq hash1 hash2 ])
      ])
