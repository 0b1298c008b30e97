-- ===== src/Files/Trees/Listing.antt =====
-- fileutil/fileutil.go: what `DirsEqual` says of directories with the same files.
use eth_research.Base.{
  ℕ, ◌≡◌, refl, ap, inl, inr, List, [], ◌∷◌, ◌++◌, Bool, true, some, All, Bool-cases, ok, done,
}
use eth_research.Base.Text.{String, str_leb, str_eq_iff, concat}
use eth_research.Files.System.{Host}
use eth_research.Files.Trees.{
  insert_string, sort_strings, dir_files, hash_lines, hash_dir, dirs_equal,
}

module _ (P : String → Type 0) where
  insert_string-All : (s : String) (xs : List String) → P s → All P xs → All P (insert_string s xs)
  unfolding insert_string
  insert_string-All s [] p all = (p, all)
  insert_string-All s (x ∷ xs) p all = elim (Bool-cases (str_leb s x)) [
    | inl before ↦ rw (insert_string, before) (p, all)
    | inr after ↦ rw (insert_string, after) (all.0, insert_string-All s xs p all.1)
  ]

  sort_strings-All : (xs : List String) → All P xs → All P (sort_strings xs)
  unfolding sort_strings
  sort_strings-All [] all = all
  sort_strings-All (x ∷ xs) all =
      insert_string-All x (sort_strings xs) all.0 (sort_strings-All xs all.1)

module _ (os : Host) (d : os.Disk) (src dst : String) where
  -- A file that both directories have, with the same bytes.
  abbrev pub IsShared : String → Type 0
  IsShared f =
      (b : List ℕ) × (os.read_file d (os.join src f) ≡ some b)
      × (os.read_file d (os.join dst f) ≡ some b)

  module _ (sha256 hex : List ℕ → List ℕ) (base64 : List ℕ → String) (utf8 : String → List ℕ) where
    hash_lines-IsShared :
        (files : List String)
        → All IsShared files
        → (b : List ℕ) × (hash_lines os sha256 hex base64 utf8 d src files ≡ ok b)
          × (hash_lines os sha256 hex base64 utf8 d dst files ≡ ok b)
    unfolding hash_lines
    hash_lines-IsShared [] shared = ([], refl, refl)
    hash_lines-IsShared (f ∷ files) ((b, left, right), shared) =
        let (more, left1, right1) = hash_lines-IsShared files shared in
        (
          hex (sha256 b) ++ (utf8 "  " ++ (utf8 f ++ (utf8 "\n" ++ more))),
          rw (hash_lines, left, left1) refl,
          rw (hash_lines, right, right1) refl,
        )

    -- `DirsEqual` answers true on two directories with the same list of files, where each file has
    -- the same bytes in both, whatever the hash.
    pub dirs_equal_lem :
        (files : List String)
        → dir_files os d src ≡ done (ok files)
        → dir_files os d dst ≡ done (ok files)
        → All IsShared files
        → dirs_equal os sha256 hex base64 utf8 d src dst ≡ done true
    unfolding dirs_equal hash_dir
    dirs_equal_lem files left right shared =
        let (b, left1, right1) =
          hash_lines-IsShared (sort_strings files) (sort_strings-All IsShared files shared) in
        let h = concat "hashdir:" (base64 (sha256 b)) in
        let first : hash_dir os sha256 hex base64 utf8 d src ≡ done (ok h) =
          rw (hash_dir, left, left1) refl in
        let second : hash_dir os sha256 hex base64 utf8 d dst ≡ done (ok h) =
          rw (hash_dir, right, right1) refl in
        rw (dirs_equal, first, second) (ap (λ (x : Bool). done x) ((str_eq_iff h h).1 refl))
