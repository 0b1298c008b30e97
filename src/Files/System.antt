-- ===== src/Files/System.antt =====
-- fileutil: what it calls of the packages os, path/filepath and io/ioutil.
use eth_research.Base.{ℕ, Bool, Option, List}
use eth_research.Base.Text.{String}

-- What `os.Stat` answers: `IsNotExist`, another error, or whether it is a directory, and `Mode()`.
pub data Stat : Type 0 where
  missing stat_failed : Stat
  info : Bool → ℕ → Stat

-- The answers of `Open` and `Readdirnames`: a missing directory, another error of either, names.
pub data Listing : Type 0 where
  no_such_dir open_failed readdir_failed : Listing
  names : List String → Listing

-- What `filepath.Walk` hands to its function for a path: an error, or whether it is a directory.
pub data Visit : Type 0 where
  walk_failed : Visit
  visited : Bool → Visit

-- The operating system with its disk. A call that writes answers whether it worked.
pub record Host : Type 1 where
  pub Disk : Type 0
  pub getenv_home : String
  pub current_user_home : Option String
  pub expand_env : String → String
  pub clean : String → String
  pub abs : String → Option String
  pub join : String → String → String
  pub stat : Disk → String → Stat
  pub mkdir_all : String → ℕ → Disk → Bool × Disk
  pub write_file : String → List ℕ → ℕ → Disk → Bool × Disk
  pub read_file : Disk → String → Option (List ℕ)
  pub glob : Disk → String → Option (List String)
  pub readdirnames : Disk → String → Listing
  pub read_dir : Disk → String → Option (List (String × Bool))
  pub walk : Disk → String → List (String × Visit)
