-- ===== src/Epoch/Start/Panics.antt =====
-- epoch-extractor/main.go: when `main` panics, at any node.
use eth_research.Base.{
  ℕ, zero, suc, ◌*◌, ◌≡◌, refl, inl, inr, List, some, true, length, All, Outcome, done, panic, ◌↔◌,
  Bool-cases, arith,
}
use eth_research.Base.Text.{String}
use eth_research.Epoch.Runner.{new_client, runner}
use eth_research.Epoch.Runner.Panics.{
  AnswersLong, any_head, runner_total, runner_idle, runner_panics,
}
use eth_research.Epoch.Start.{Grpc, construct_dial_options, main}
use eth_research.Epoch.Start.Whole.{main_options, main_step}

module _ (grpc : Grpc) (bytes2hex : List ℕ → List ℕ) (div_slot : ℕ → ℕ → Outcome ℕ) where
  main_step-panics :
      (spe : ℕ) (endpoint : String) (conn : grpc.Connection)
      → grpc.dial_context endpoint main_options ≡ some conn
      → runner bytes2hex div_slot (grpc.answers conn) (new_client spe) ≡ panic
      → main grpc bytes2hex div_slot spe endpoint ≡ panic
  unfolding main construct_dial_options
  main_step-panics spe endpoint conn dialed run =
      rw (main, construct_dial_options, dialed, run) refl

  -- Where `Bytes2Hex` has two digits for each byte, `DivSlot` panics on no slots in an epoch and on no
  -- other number, the endpoint is dialed, and the keys that the node behind it answers with have 6
  -- bytes or more, whatever else it answers and whichever requests fail: `main` panics where it is
  -- given no slots in an epoch and the node ever answers with a head, and in no other run.
  pub main_panics_iff :
      ((b : List ℕ) → length (bytes2hex b) ≡ 2 * length b)
      → ((slot : ℕ) → div_slot slot 0 ≡ panic)
      → ((slot spe : ℕ) → (e : ℕ) × (div_slot slot (suc spe) ≡ done e))
      → (spe : ℕ) (endpoint : String) (conn : grpc.Connection)
      → grpc.dial_context endpoint main_options ≡ some conn
      → All AnswersLong (grpc.answers conn)
      → (main grpc bytes2hex div_slot spe endpoint ≡ panic)
        ↔ ((spe ≡ 0) × (any_head (grpc.answers conn) ≡ true))
  main_panics_iff hex_digits undivided divides zero endpoint conn dialed long =
      elim (Bool-cases (any_head (grpc.answers conn))) [
        | inl some_head ↦
            let run =
              runner_panics bytes2hex hex_digits div_slot (grpc.answers conn) (new_client 0)
                undivided some_head in
            (λ p. (refl, some_head), λ both. main_step-panics 0 endpoint conn dialed run)
        | inr quiet ↦
            let run =
              runner_idle bytes2hex hex_digits div_slot (grpc.answers conn) (new_client 0) quiet in
            let ends = main_step grpc bytes2hex div_slot 0 endpoint conn _ dialed run in
            (λ p. absurd (cc), λ both. absurd (cc))
      ]
  main_panics_iff hex_digits undivided divides (suc spe) endpoint conn dialed long =
      let (end, run) =
        runner_total bytes2hex hex_digits div_slot (grpc.answers conn) (new_client (suc spe))
          (suc spe) (λ slot. divides slot spe) refl long in
      let ends = main_step grpc bytes2hex div_slot (suc spe) endpoint conn end dialed run in
      (λ p. absurd (cc), λ both. absurd (omega (arith, both.0)))
