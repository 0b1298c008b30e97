-- ===== src/Files/Examples.antt =====
-- A small host, and runs of fileutil on it.
use eth_research.Base.{
  ℕ, ◌≡◌, refl, sym, ◌⊎◌, List, [], ◌∷◌, Bool, true, false, ◌||◌, Option, none, some, if◌then◌else◌,
  ok, err,
}
use eth_research.Base.Text.{String, str_eq, concat, drop1}
use eth_research.Files.System.{
  Host, Stat, Listing, missing, info, no_such_dir, names, Visit, walk_failed, visited,
}
use eth_research.Files.{
  FileError, cannot_write, file_permissions, expand_path, file_exists, write_file, put_file,
  expand_tilde, file_refused, home_dir,
}
use eth_research.Files.Permissions.{write_file_lem}

-- One file, "/f" with its mode and bytes, and a wallet with one key folder at "/home/w".
abbrev pub SmallDisk : Type 0
SmallDisk = ℕ × List ℕ

abbrev small_write : String → List ℕ → ℕ → SmallDisk → Bool × SmallDisk
small_write p bytes mode d = if str_eq p "/f" then (true, (mode, bytes)) else (false, d)

abbrev small_stat : SmallDisk → String → Stat
small_stat (mode, bytes) p =
    if str_eq p "/f" then info false mode else if str_eq p "/home/w" then info true 448 else missing

abbrev small_names : SmallDisk → String → Listing
small_names d p = if str_eq p "/home/w" then names ("direct" ∷ "x.txt" ∷ []) else no_such_dir

-- The directory "/home" holds the directory "w", which holds "direct" and "x.txt".
abbrev small_dirs : SmallDisk → String → Option (List (String × Bool))
small_dirs d p =
    if str_eq p "/home"
    then some (("w", true) ∷ [])
    else if str_eq p "/home/w"
    then some (("x.txt", false) ∷ [])
    else none

abbrev small_walk : SmallDisk → String → List (String × Visit)
small_walk d p =
    if str_eq p "/home"
    then ("/home", visited true) ∷ ("/home/w", visited true) ∷ ("/home/w/x.txt", visited false) ∷ []
    else if str_eq p "/copy"
    then ("/copy", visited true) ∷ ("/copy/w/x.txt", visited false) ∷ []
    else (p, walk_failed) ∷ []

-- "/home/w/x.txt" is in "/copy/w/x.txt" too.
abbrev small_read : SmallDisk → String → Option (List ℕ)
small_read (mode, bytes) p =
    if str_eq p "/f"
    then some bytes
    else if str_eq p "/home/w/x.txt" || str_eq p "/copy/w/x.txt"
    then some (7 ∷ [])
    else none

abbrev pub small_host : Host
small_host = record {
  Disk = SmallDisk;
  getenv_home = "/home";
  current_user_home = none;
  expand_env = λ p. p;
  clean = λ p. p;
  abs = some;
  join = λ p q. concat p (concat "/" q);
  stat = small_stat;
  mkdir_all = λ p mode d. (true, d);
  write_file = small_write;
  read_file = small_read;
  glob = λ d p. some (p ∷ []);
  readdirnames = small_names;
  read_dir = small_dirs;
  walk = small_walk;
}

written : write_file small_host "/f" (1 ∷ []) (384, []) ≡ (ok true, (384, 1 ∷ []))
unfolding write_file expand_path file_exists expand_tilde file_refused put_file
written = refl

refused : write_file small_host "/f" (1 ∷ []) (420, []) ≡ (err file_permissions, (420, []))
unfolding write_file expand_path file_exists expand_tilde file_refused
refused = refl

expanded : expand_path small_host "~/w" ≡ ok "/home/w"
unfolding expand_path expand_tilde home_dir concat drop1
expanded = refl

small_stable : (p : String) → expand_path small_host "/f" ≡ ok p → expand_path small_host p ≡ ok p
unfolding expand_path expand_tilde
small_stable p e = let is : "/f" ≡ p = cc in rw (sym is) refl

write_file_lem_example :
    ((e : FileError) × (write_file small_host "/f" (1 ∷ []) (384, []) ≡ (err e, (384, []))))
    ⊎ ((p : String) × (expand_path small_host "/f" ≡ ok p)
        × (write_file small_host "/f" (1 ∷ []) (384, []) ≡ (
          (if (small_host.write_file p (1 ∷ []) 384 (384, [])).0
              then ok true
              else err cannot_write),
          (small_host.write_file p (1 ∷ []) 384 (384, [])).1,
        ))
        × ((mode : ℕ) → small_host.stat (384, []) p ≡ info false mode → mode ≡ 384))
write_file_lem_example = write_file_lem small_host "/f" (1 ∷ []) (384, []) small_stable
