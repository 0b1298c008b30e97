-- ===== src/Route/Server.antt =====
-- route_guide/server/server.go: the server with its state, from `newServer` on, and its four calls.
pub mod Requests
mod Examples
use eth_research.Base.{
  ℕ, List, [], ◌∷◌, Bool, true, false, Option, none, some, if◌then◌else◌, Outcome, done, ◌>>=◌,
}
use eth_research.Base.Dict.{Dict}
use eth_research.Base.Text.{String, str_eq}
use eth_research.Route.{
  Point, Rectangle, Feature, RouteNote, RouteSummary, Ending, get_feature, list_features,
  record_route, chat_note,
}
use eth_research.Route.Data.{example_data}

-- `routeGuideServer`, without its lock, which makes one step of each change.
pub record Server : Type 0 where
  pub saved_features : List Feature
  pub route_notes : Dict String (List RouteNote)

-- The reading of files, and what `json.Unmarshal` makes of bytes. `log.Fatalf` ends the program:
-- there is no server then.
module _ (read_file : String → Option (List ℕ)) (unmarshal : List ℕ → Option (List Feature)) where
  unfoldable pub load_features : String → Option (List Feature)
  load_features file_path =
      if str_eq file_path ""
      then some example_data
      else elim (read_file file_path) [ none ↦ none | some bytes ↦ unmarshal bytes ]

  unfoldable pub new_server : String → Option Server
  new_server json_db_file = elim (load_features json_db_file) [
    | none ↦ none
    | some features ↦ some (record { saved_features = features; route_notes = [] })
  ]

-- What a client asks for, with what the transport does: which sends work, how a stream ends, and
-- how long it took. A chat is a request for each note.
pub data Request : Type 0 where
  feature_at : Point → Request
  features_in : Rectangle → (ℕ → Bool) → Request
  route_of : List Point → Ending → ℕ → Request
  note : RouteNote → Request

pub data Reply : Type 0 where
  found : Feature → Reply
  listed : List Feature → Bool → Reply
  summary : Option RouteSummary → Reply
  notes : List RouteNote → Reply

module _ (calc_distance : Point → Point → ℕ) (sprintf : Point → String) where
  unfoldable pub handle : Server → Request → Outcome (Reply × Server)
  handle s (feature_at point) = done (found (get_feature s.saved_features point), s)
  handle s (features_in rect works) = do
    (sent, fine) ← list_features rect works 0 s.saved_features
    done (listed sent fine, s)
  handle s (route_of points ending elapsed) =
      done (summary (record_route s.saved_features calc_distance points ending elapsed), s)
  handle s (note n) = do
    (sent, route_notes1) ← chat_note sprintf s.route_notes n
    done (notes sent, record { saved_features = s.saved_features; route_notes = route_notes1 })

  unfoldable pub handle_all : Server → List Request → Outcome (List Reply × Server)
  handle_all s [] = done ([], s)
  handle_all s (r ∷ rs) = do
    (reply, s1) ← handle s r
    (replies, s2) ← handle_all s1 rs
    done (reply ∷ replies, s2)
