-- ===== src/Route/Server/Examples.antt =====
-- Requests to the route guide's server with the example features.
use eth_research.Base.{◌≡◌, refl, ◌⊎◌, [], ◌∷◌, true, false, none, some, done, panic}
use eth_research.Route.Examples.{point_at, saved, saved-IsLocated, steps, print_point}
use eth_research.Route.Server.{Server, Request, Reply, features_in, handle}
use eth_research.Route.Server.Requests.{complete, handle_lem}

abbrev server : Server
server = record { saved_features = saved; route_notes = [] }

-- A rectangle with one corner only.
abbrev half : Request
half = features_in (record { lo = some (point_at 0 0); hi = none }) (λ n. true)

handle_lem_example :
    ((complete half ≡ false) × (handle steps print_point server half ≡ panic))
    ⊎ ((complete half ≡ true)
        × ((reply : Reply) × ((s1 : Server) × (handle steps print_point server half
                ≡ done (reply, s1))
              × (s1.saved_features ≡ saved))))
handle_lem_example =
    handle_lem steps print_point server (record { name = "mill"; location = some (point_at 3 4) })
      (record { name = "inn"; location = some (point_at 9 9) } ∷ []) half refl saved-IsLocated
