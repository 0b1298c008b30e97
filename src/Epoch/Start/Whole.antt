-- ===== src/Epoch/Start/Whole.antt =====
-- epoch-extractor/main.go: `main` at a node that answers truthfully.
use eth_research.Base.{
  ℕ, ◌+◌, ◌*◌, ◌^◌, ◌≤◌, ◌<◌, ◌≡◌, refl, List, [], ◌∷◌, some, length, map, All, Outcome, done,
}
use eth_research.Base.Text.{String}
use eth_research.Epoch.Assignments.{Assignment}
use eth_research.Epoch.Runner.{Client, new_client, Report, runner}
use eth_research.Epoch.Runner.Runs
use eth_research.Epoch.Start.{
  DialOption, with_insecure, with_default_call_options, Grpc, ran, notices, construct_dial_options,
  main,
}

-- The options that `main` dials with.
abbrev pub main_options : {C : Type 0} → List (DialOption C)
main_options = with_insecure ∷ with_default_call_options 4194304 5 5000000000 ∷ []

module _ (grpc : Grpc) (bytes2hex : List ℕ → List ℕ) (div_slot : ℕ → ℕ → Outcome ℕ) where
  pub main_step :
      (spe : ℕ) (endpoint : String) (conn : grpc.Connection) (end : Client × List Report)
      → grpc.dial_context endpoint main_options ≡ some conn
      → runner bytes2hex div_slot (grpc.answers conn) (new_client spe) ≡ done end
      → main grpc bytes2hex div_slot spe endpoint ≡ done (notices spe endpoint, ran end)
  unfolding main construct_dial_options
  main_step spe endpoint conn end dialed run = rw (main, construct_dial_options, dialed, run) refl

module _ (grpc : Grpc) (bytes2hex : List ℕ → List ℕ) (div_slot : ℕ → ℕ → Outcome ℕ)
    (hex_digits : (b : List ℕ) → length (bytes2hex b) ≡ 2 * length b)
    -- the proposers of each epoch, with keys of 6 bytes or more
    (proposers : ℕ → List Assignment)
    (long_keys : (e : ℕ) → All (λ a. 6 ≤ length a.public_key) (proposers e))
    -- the epoch of each slot, by a number of slots in an epoch that can be divided by
    (spe : ℕ) (epoch_of : ℕ → ℕ)
    (divides : (slot : ℕ) → div_slot slot spe ≡ done (epoch_of slot)) where
  abbrev Tracks : Client → Type 0
  Tracks = Runs.Tracks bytes2hex div_slot hex_digits proposers long_keys spe epoch_of divides

  -- Where `DivSlot` gives each slot an epoch, `Bytes2Hex` has two digits for each byte, the proposers
  -- have keys of 6 bytes or more, the endpoint is dialed without certificates, with messages of 4 MB
  -- and 5 retries, and the node behind it is truthful and its head never runs ahead by more than one
  -- epoch between two ticks: `main` logs its notices of the flags and runs `runner`, which neither
  -- panics nor returns early, and whose maps are in the end those of the last epoch reached and of the
  -- one after it.
  pub main_lem :
      (endpoint : String) (conn : grpc.Connection) (head : ℕ) (heads : List ℕ)
      → grpc.dial_context endpoint main_options ≡ some conn
      → grpc.answers conn
        ≡ map
            (Runs.truthful bytes2hex div_slot hex_digits proposers long_keys spe epoch_of divides)
            (head ∷ heads)
      → epoch_of head + 1 < 2 ^ 64
      → Runs.NoSkip bytes2hex div_slot hex_digits proposers long_keys spe epoch_of divides
          (epoch_of head)
          heads
      → (end : Client × List Report) × (main grpc bytes2hex div_slot spe endpoint
          ≡ done (notices spe endpoint, ran end))
        × Tracks end.0
        × (end.0.prev_epoch
            ≡ Runs.last_epoch bytes2hex div_slot hex_digits proposers long_keys spe epoch_of divides
                (epoch_of head)
                heads)
  main_lem endpoint conn head heads dialed truth fits near =
      let (end, run, tracks, at) =
        Runs.runner-Tracks bytes2hex div_slot hex_digits proposers long_keys spe epoch_of divides
          head heads fits near in
      (
        end,
        main_step grpc bytes2hex div_slot spe endpoint conn end dialed (rw truth run),
        tracks,
        at,
      )
