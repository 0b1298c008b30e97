-- ===== src/Files/Permissions.antt =====
-- fileutil/fileutil.go: what is written, and with what permissions.
use eth_research.Base.{
  ℕ, ◌%◌, ◌≡◌, refl, ap, ◌∙◌, inl, inr, ◌⊎◌, List, Bool, true, false, none, arith, Bool-cases,
  Option-cases, Result-cases, sym, if◌then◌else◌, ok, err,
}
use eth_research.Base.Text.{String}
use eth_research.Files.System.{Host, Stat, missing, stat_failed, info}
use eth_research.Files.{
  FileError, cannot_write, expand_path, file_exists, file_refused, put_file, write_file, has_dir,
  dir_refused, make_dirs, mkdir_all,
}

pub Stat-cases :
    (st : Stat)
    → (st ≡ missing)
      ⊎ ((st ≡ stat_failed) ⊎ ((is_dir : Bool) × ((mode : ℕ) × (st ≡ info is_dir mode))))
Stat-cases missing = inl refl
Stat-cases stat_failed = inr (inl refl)
Stat-cases (info is_dir mode) = inr (inr (is_dir, (mode, refl)))

abbrev mode_of : Stat → ℕ
mode_of missing = 0
mode_of stat_failed = 0
mode_of (info is_dir mode) = mode

module _ (os : Host) where
  open os use {Disk}

  file_refused-none :
      (d : Disk) (p : String)
      → file_refused os d p ≡ none
      → (is_dir : Bool) × (os.stat d p ≡ info is_dir 384)
  unfolding file_refused
  file_refused-none d p e = elim (Stat-cases (os.stat d p)) [
    | inl gone ↦ ground (arith, e)
    | inr (inl gone) ↦ ground (arith, e)
    | inr (inr (is_dir, (mode, is))) ↦
        let right : mode ≡ 384 = ground (arith, e) in (is_dir, is ∙ ap (info is_dir) right)
  ]

  dir_refused-none :
      (d : Disk) (p : String)
      → dir_refused os d p ≡ none
      → (is_dir : Bool) × ((mode : ℕ) × (os.stat d p ≡ info is_dir mode) × (mode % 512 ≡ 448))
  unfolding dir_refused
  dir_refused-none d p e = elim (Stat-cases (os.stat d p)) [
    | inl gone ↦ ground (arith, e)
    | inr (inl gone) ↦ ground (arith, e)
    | inr (inr (is_dir, (mode, is))) ↦
        let right : mode % 512 ≡ 448 = ground (arith, e) in (is_dir, (mode, is, right))
  ]

  -- A file that `Stat` finds exists.
  file_exists-info :
      (p : String) (d : Disk) (mode : ℕ)
      → expand_path os p ≡ ok p
      → os.stat d p ≡ info false mode
      → file_exists os d p ≡ true
  unfolding file_exists
  file_exists-info p d mode full is = rw (file_exists, full, is) refl

  -- Where an expanded path expands to itself: `WriteFile` leaves the disk alone and returns an error,
  -- or its one write is of these bytes to the expanded path with mode 0600, and is not over a file
  -- that `Stat` finds there with another mode.
  pub write_file_lem :
      (file : String) (bytes : List ℕ) (d : Disk)
      (stable : (p : String) → expand_path os file ≡ ok p → expand_path os p ≡ ok p)
      → ((e : FileError) × (write_file os file bytes d ≡ (err e, d)))
        ⊎ ((p : String) × (expand_path os file ≡ ok p)
            × (write_file os file bytes d ≡ (
              (if (os.write_file p bytes 384 d).0 then ok true else err cannot_write),
              (os.write_file p bytes 384 d).1,
            ))
            × ((mode : ℕ) → os.stat d p ≡ info false mode → mode ≡ 384))
  unfolding write_file put_file
  write_file_lem file bytes d stable = elim (Result-cases (expand_path os file)) [
    | inl (e, bad) ↦ inl (e, rw (write_file, bad) refl)
    | inr (p, full) ↦ elim (Bool-cases (file_exists os d p)) [
      | inr new ↦ inr (
        p,
        full,
        rw (write_file, full, new) refl,
        λ mode is. let there = file_exists-info p d mode (stable p full) is in cc,
      )
      | inl old ↦ elim (Option-cases (file_refused os d p)) [
        | inl fine ↦ inr (
          p,
          full,
          rw (write_file, full, old, fine) refl,
          λ mode is.
              let (is_dir, private) = file_refused-none d p fine in
              let same : info is_dir 384 ≡ info false mode = sym private ∙ is in
              ap mode_of (sym same),
        )
        | inr (e, refused) ↦ inl (e, rw (write_file, full, old, refused) refl)
      ]
    ]
  ]

  -- `MkdirAll` leaves the disk alone and returns an error, or makes the directories of the expanded
  -- path with mode 0700. It does so only where `HasDir` finds no directory, or one with these
  -- permissions.
  pub mkdir_all_lem :
      (dir_path : String) (d : Disk)
      → ((e : FileError) × (mkdir_all os dir_path d ≡ (err e, d)))
        ⊎ ((p : String) × (expand_path os dir_path ≡ ok p)
            × (mkdir_all os dir_path d ≡ make_dirs os p d)
            × ((has_dir os d p ≡ ok false)
                ⊎ ((is_dir : Bool) × ((mode : ℕ) × (os.stat d p ≡ info is_dir mode)
                      × (mode % 512 ≡ 448)))))
  unfolding mkdir_all
  mkdir_all_lem dir_path d = elim (Result-cases (expand_path os dir_path)) [
    | inl (e, bad) ↦ inl (e, rw (mkdir_all, bad) refl)
    | inr (p, full) ↦ elim (Result-cases (has_dir os d p)) [
      | inl (e, bad) ↦ inl (e, rw (mkdir_all, full, bad) refl)
      | inr (false, new) ↦ inr (p, full, rw (mkdir_all, full, new) refl, inl new)
      | inr (true, old) ↦ elim (Option-cases (dir_refused os d p)) [
        | inl fine ↦
            inr (p, full, rw (mkdir_all, full, old, fine) refl, inr (dir_refused-none d p fine))
        | inr (e, refused) ↦ inl (e, rw (mkdir_all, full, old, refused) refl)
      ]
    ]
  ]
