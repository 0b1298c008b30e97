-- ===== src/Files/Trees/Final.antt =====
-- fileutil/fileutil.go: no call that `CopyDir` makes ends for want of fuel.
use eth_research.Base.{
  ℕ, ◌≡◌, refl, inl, inr, List, Bool, true, false, some, arith, Bool-cases, Result, Result-cases,
  ok, err,
}
use eth_research.Base.Text.{String}
use eth_research.Files.System.{Host}
use eth_research.Files.{
  FileError, no_absolute_path, too_deep, expand_path, has_dir, dir_refused, make_dirs, put_file,
}
use eth_research.Files.Permissions.{Stat-cases}

-- A result that is not for want of fuel.
abbrev pub is_final : Result FileError Bool → Bool
is_final (ok b) = true
is_final (err too_deep) = false
is_final (err e) = true

module _ (os : Host) where
  open os use {Disk, join, read_dir}

  pub expand_final : (p : String) (e : FileError) → expand_path os p ≡ err e → e ≡ no_absolute_path
  unfolding expand_path
  expand_final p e h = ground (arith, h)

  pub has_dir_final :
      (d : Disk) (p : String) (e : FileError) → has_dir os d p ≡ err e → is_final (err e) ≡ true
  unfolding has_dir
  has_dir_final d p e h = elim (Result-cases (expand_path os p)) [
    | inl (f, bad) ↦ ground (arith, h, bad, expand_final p f bad)
    | inr (full, good) ↦ elim (Stat-cases (os.stat d full)) [
      | inl a ↦ ground (arith, h, good, a)
      | inr (inl a) ↦ ground (arith, h, good, a)
      | inr (inr (b, (c, a))) ↦ ground (arith, h, good, a)
    ]
  ]

  pub put_file_final : (p : String) (b : List ℕ) (d : Disk) → is_final (put_file os p b d).0 ≡ true
  unfolding put_file
  put_file_final p b d = elim (Bool-cases (os.write_file p b 384 d).0) [
    | inl fine ↦ rw fine refl
    | inr bad ↦ rw bad refl
  ]

  pub make_dirs_final : (p : String) (d : Disk) → is_final (make_dirs os p d).0 ≡ true
  unfolding make_dirs
  make_dirs_final p d = elim (Bool-cases (os.mkdir_all p 448 d).0) [
    | inl fine ↦ rw fine refl
    | inr bad ↦ rw bad refl
  ]

  pub dir_refused_final :
      (d : Disk) (p : String) (e : FileError)
      → dir_refused os d p ≡ some e
      → is_final (err e) ≡ true
  unfolding dir_refused
  dir_refused_final d p e h = elim (Stat-cases (os.stat d p)) [
    | inl a ↦ ground (arith, h, a)
    | inr (inl a) ↦ ground (arith, h, a)
    | inr (inr (b, (c, a))) ↦ ground (arith, h, a)
  ]
