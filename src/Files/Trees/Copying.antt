-- ===== src/Files/Trees/Copying.antt =====
-- fileutil/fileutil.go: `CopyDir` on a source of bounded depth that the target is not part of.
use eth_research.Base.{
  ℕ, zero, suc, ◌≡◌, refl, ap, ◌∙◌, inl, inr, List, [], ◌∷◌, Bool, true, false, none, some, arith,
  ◌&&◌, Option-cases, Result-cases, ok, err,
}
use eth_research.Base.Text.{String}
use eth_research.Files.System.{Host}
use eth_research.Files.{
  FileError, expand_path, has_dir, dir_refused, make_dirs, mkdir_all, put_file, copy_file,
}
use eth_research.Files.Trees.{Written, copy_entry, copy_entries, copy_listed, copy_dir}
use eth_research.Files.Trees.Final.{
  is_final, expand_final, has_dir_final, put_file_final, make_dirs_final, dir_refused_final,
}

module _ (os : Host) where
  open os use {Disk, join, read_dir}

  -- How deep the directories go: whether less than so many levels are below `s`.
  unfoldable pub all_within : (String → Bool) → String → List (String × Bool) → Bool
  all_within f s [] = true
  all_within f s ((name, true) ∷ fds) = f (join s name) && all_within f s fds
  all_within f s ((name, false) ∷ fds) = all_within f s fds

  unfoldable pub depth_within : ℕ → Disk → String → Bool
  depth_within zero d s = false
  depth_within (suc n) d s = elim (read_dir d s) [
    | none ↦ true
    | some fds ↦ all_within (depth_within n d) s fds
  ]

  -- Directories to read and paths to write, such that no write changes what a source lists.
  module _ (IsSource IsTarget : String → Type 0)
      (join_source : (p name : String) → IsSource p → IsSource (join p name))
      (join_target : (p name : String) → IsTarget p → IsTarget (join p name))
      (expand_target : (p q : String) → IsTarget p → expand_path os p ≡ ok q → IsTarget q)
      (mkdir_keeps : (p s : String) (d : Disk)
        → IsTarget p
        → IsSource s
        → read_dir (os.mkdir_all p 448 d).1 s ≡ read_dir d s)
      (write_keeps : (p s : String) (b : List ℕ) (d : Disk)
        → IsTarget p
        → IsSource s
        → read_dir (os.write_file p b 384 d).1 s ≡ read_dir d s) where
    abbrev Keeps : Disk → Disk → Type 0
    Keeps d d' = (s : String) → IsSource s → read_dir d' s ≡ read_dir d s

    -- A call that ends, and leaves what the sources list.
    abbrev Fine : Disk → Written os → Type 0
    Fine d w = (is_final w.0 ≡ true) × Keeps d w.1

    mkdir_all-Fine : (p : String) (d : Disk) → IsTarget p → Fine d (mkdir_all os p d)
    unfolding mkdir_all make_dirs
    mkdir_all-Fine p d target = elim (Result-cases (expand_path os p)) [
      | inl (e, bad) ↦
          rw (mkdir_all, bad)
            (ap (λ (f : FileError). is_final (err f)) (expand_final os p e bad), λ s source. refl)
      | inr (full, good) ↦
          let made : Fine d (make_dirs os full d) = (
            make_dirs_final os full d,
            λ s source. mkdir_keeps full s d (expand_target p full target good) source,
          ) in
          elim (Result-cases (has_dir os d full)) [
            | inl (e, bad) ↦
                rw (mkdir_all, good, bad) ((has_dir_final os d full e bad), λ s source. refl)
            | inr (false, new) ↦ rw (mkdir_all, good, new) made
            | inr (true, old) ↦ elim (Option-cases (dir_refused os d full)) [
              | inl fine ↦ rw (mkdir_all, good, old, fine) made
              | inr (e, refused) ↦
                  rw (mkdir_all, good, old, refused)
                    (dir_refused_final os d full e refused, λ s source. refl)
            ]
          ]
    ]

    copy_file-Fine : (src dst : String) (d : Disk) → IsTarget dst → Fine d (copy_file os src dst d)
    unfolding copy_file put_file
    copy_file-Fine src dst d target = elim (Option-cases (os.read_file d src)) [
      | inl gone ↦ rw (copy_file, gone) (refl, λ s source. refl)
      | inr (b, found) ↦
          rw (copy_file, found)
            (put_file_final os dst b d, λ s source. write_keeps dst s b d target source)
    ]

    all_within-Keeps :
        (n : ℕ) (d d' : Disk) (s : String) (fds : List (String × Bool))
        → ((p : String) → IsSource p → depth_within n d' p ≡ depth_within n d p)
        → IsSource s
        → all_within (depth_within n d') s fds ≡ all_within (depth_within n d) s fds
    unfolding all_within
    all_within-Keeps n d d' s [] ih source = refl
    all_within-Keeps n d d' s ((name, true) ∷ fds) ih source =
        rw (ih (join s name) (join_source s name source), all_within-Keeps n d d' s fds ih source)
          refl
    all_within-Keeps n d d' s ((name, false) ∷ fds) ih source =
        all_within-Keeps n d d' s fds ih source

    depth_within-Keeps :
        (n : ℕ) (d d' : Disk)
        → Keeps d d'
        → (s : String) → IsSource s
        → depth_within n d' s ≡ depth_within n d s
    unfolding depth_within
    depth_within-Keeps zero d d' keeps s source = refl
    depth_within-Keeps (suc n) d d' keeps s source = elim (Option-cases (read_dir d s)) [
      | inl gone ↦ rw (depth_within, keeps s source, gone) refl
      | inr (fds, found) ↦
          rw (depth_within, keeps s source, found)
            (all_within-Keeps n d d' s fds (depth_within-Keeps n d d' keeps) source)
    ]

    Fine-after : (d d1 : Disk) (w : Written os) → Keeps d d1 → Fine d1 w → Fine d w
    Fine-after d d1 w keeps fine = (fine.0, λ s source. fine.1 s source ∙ keeps s source)

    then_Fine :
        (d : Disk) (w : Written os) (next : Disk → Written os)
        → Fine d w
        → ((d1 : Disk) → Keeps d d1 → Fine d1 (next d1))
        → Fine d (elim w.0 [ err e ↦ (err e, w.1) | ok b ↦ next w.1 ])
    then_Fine d (err e, d1) next fine later = fine
    then_Fine d (ok b, d1) next fine later = Fine-after d d1 (next d1) fine.1 (later d1 fine.1)

    rest_within :
        (n : ℕ) (d : Disk) (src name : String) (is_dir : Bool) (fds : List (String × Bool))
        → all_within (depth_within n d) src ((name, is_dir) ∷ fds) ≡ true
        → all_within (depth_within n d) src fds ≡ true
    unfolding all_within
    rest_within n d src name true fds deep = ground (arith, deep)
    rest_within n d src name false fds deep = deep

    module _ (n : ℕ) (copy_sub : String → String → Disk → Written os)
        (sub-Fine : (s t : String) (d : Disk)
          → IsSource s
          → IsTarget t
          → depth_within n d s ≡ true
          → Fine d (copy_sub s t d)) where
      copy_entry-Fine :
          (src dst name : String) (is_dir : Bool) (fds : List (String × Bool)) (d : Disk)
          → IsSource src
          → IsTarget dst
          → all_within (depth_within n d) src ((name, is_dir) ∷ fds) ≡ true
          → Fine d (copy_entry os copy_sub is_dir (join src name) (join dst name) d)
      unfolding copy_entry all_within
      copy_entry-Fine src dst name true fds d source target deep =
          let below : depth_within n d (join src name) ≡ true = ground (arith, deep) in
          sub-Fine (join src name) (join dst name) d (join_source src name source)
            (join_target dst name target) below
      copy_entry-Fine src dst name false fds d source target deep =
          copy_file-Fine (join src name) (join dst name) d (join_target dst name target)

      copy_entries-Fine :
          (src dst : String) (fds : List (String × Bool)) (d : Disk)
          → IsSource src
          → IsTarget dst
          → all_within (depth_within n d) src fds ≡ true
          → Fine d (copy_entries os copy_sub src dst fds d)
      unfolding copy_entries copy_entry all_within
      copy_entries-Fine src dst [] d source target deep = (refl, λ s from. refl)
      copy_entries-Fine src dst ((name, is_dir) ∷ fds) d source target deep =
          then_Fine d (copy_entry os copy_sub is_dir (join src name) (join dst name) d)
            (copy_entries os copy_sub src dst fds)
            (copy_entry-Fine src dst name is_dir fds d source target deep)
            (λ d1 keeps. copy_entries-Fine src dst fds d1 source target (
              all_within-Keeps n d d1 src fds (depth_within-Keeps n d d1 keeps) source
              ∙ rest_within n d src name is_dir fds deep))

    copy_dir-Fine :
        (n : ℕ) (src dst : String) (d : Disk)
        → IsSource src
        → IsTarget dst
        → depth_within n d src ≡ true
        → Fine d (copy_dir os n src dst d)
    unfolding copy_dir copy_listed depth_within
    copy_dir-Fine zero src dst d source target deep = cc
    copy_dir-Fine (suc n) src dst d source target deep = elim (Result-cases (has_dir os d dst)) [
      | inl (e, bad) ↦ rw (copy_dir, bad) (has_dir_final os d dst e bad, λ s from. refl)
      | inr (true, old) ↦ rw (copy_dir, old) (refl, λ s from. refl)
      | inr (false, new) ↦ elim (Option-cases (read_dir d src)) [
        | inl gone ↦ rw (copy_dir, new, gone) (refl, λ s from. refl)
        | inr (fds, found) ↦
            let within : all_within (depth_within n d) src fds ≡ true =
              ground (arith, deep, found) in
            rw (copy_dir, new, found)
              (then_Fine d (mkdir_all os dst d) (copy_entries os (copy_dir os n) src dst fds)
                (mkdir_all-Fine dst d target)
                (λ d1 keeps.
                  copy_entries-Fine n (copy_dir os n) (copy_dir-Fine n) src dst fds d1 source target
                    (all_within-Keeps n d d1 src fds (depth_within-Keeps n d d1 keeps) source
                      ∙ within)))
      ]
    ]

    -- Where no write to the target changes what a directory of the source lists: on a source of
    -- less than `n` levels, `CopyDir` ends after at most `n` nested calls, with a result or an error
    -- of its own, and leaves the directories of the source as they were.
    pub copy_dir_lem :
        (n : ℕ) (src dst : String) (d : Disk)
        → IsSource src
        → IsTarget dst
        → depth_within n d src ≡ true
        → (is_final (copy_dir os n src dst d).0 ≡ true)
          × ((s : String) → IsSource s → read_dir (copy_dir os n src dst d).1 s ≡ read_dir d s)
    copy_dir_lem n src dst d source target deep = copy_dir-Fine n src dst d source target deep
