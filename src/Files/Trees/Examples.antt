-- ===== src/Files/Trees/Examples.antt =====
-- Runs of fileutil's calls on whole directories, on the small host.
use eth_research.Base.{◌≡◌, refl, [], ◌∷◌, true, done, ok}
use eth_research.Base.Text.{String, concat, length_of, drop_bytes}
use eth_research.Files.Examples.{small_host, SmallDisk}
use eth_research.Files.Trees.{
  copy_dir, dir_files, sort_strings, collect_files, relative_file, insert_string,
}
use eth_research.Files.Trees.Final.{is_final}
use eth_research.Files.Trees.Copying.{copy_dir_lem, depth_within, all_within}

abbrev disk : SmallDisk
disk = (384, [])

-- Every path is a source and a target here, since no write changes what a directory lists.
abbrev Any : String → Type 0
Any s = s ≡ s

copy_dir_lem_example :
    (is_final (copy_dir small_host 2 "/home" "/copy" disk).0 ≡ true)
    × ((s : String)
        → Any s
        → small_host.read_dir (copy_dir small_host 2 "/home" "/copy" disk).1 s
          ≡ small_host.read_dir disk s)
unfolding depth_within all_within concat
copy_dir_lem_example =
    copy_dir_lem small_host Any Any (λ p name s. refl) (λ p name s. refl) (λ p q t e. refl)
      (λ p s d target source. refl) (λ p s b d target source. refl) 2 "/home" "/copy" disk refl refl
      refl

listed : dir_files small_host disk "/home" ≡ done (ok ("w/x.txt" ∷ []))
unfolding dir_files collect_files relative_file length_of drop_bytes
listed = refl

in_order : sort_strings ("b" ∷ "ab" ∷ "a" ∷ []) ≡ ("a" ∷ "ab" ∷ "b" ∷ [])
unfolding sort_strings insert_string
in_order = refl
