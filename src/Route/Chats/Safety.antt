-- ===== src/Route/Chats/Safety.antt =====
-- route_guide/server/server.go: what all chats at once send.
use eth_research.Base.{ℕ, ◌≡◌, List, [], ◌++◌, some, get_elem?}
use eth_research.Base.Dict.{lookup_or}
use eth_research.Base.Text.{String, string_eq}
use eth_research.Route.{Point, RouteNote, Ending}
use eth_research.Route.Chat.{notes_at}
use eth_research.Route.Chats.{Chat, State, Entry, Run}
use eth_research.Route.Chats.Log.{notes_in, own_in, owed_in}
use eth_research.Route.Chats.Kept.{unread, Sends-rest}
use eth_research.Route.Chats.Invariant.{Run-Inv}

module _ (sprintf : Point → String) (exact : (p q : Point) → sprintf p ≡ sprintf q → p ≡ q)
    (streams : List (List (Point × String) × Ending)) (log : List Entry) (s : State) where
  -- Where the printed points differ for different points: in every state that chats at once reach,
  -- in every order of their actions, the stored notes at a point are those appended there, in order.
  -- Each chat has appended the first notes of its stream in order, and what it has sent is a start of
  -- what it owes: to each of its notes all notes at its point that any chat appended until then.
  pub chats_lem :
      Run sprintf streams log s
      → ((p : Point) → lookup_or [] (sprintf p) s.notes ≡ notes_at p (notes_in log))
        × ((i : ℕ) (c : Chat)
            → get_elem? s.chats i ≡ some c
            → (stream : List (Point × String) × Ending) × (get_elem? streams i ≡ some stream)
              × (own_in i log ++ unread c.phase c.left ≡ stream.0)
              × ((rest : List RouteNote) × (c.sent ++ rest ≡ owed_in i [] log)))
  chats_lem r =
      let inv = Run-Inv sprintf exact streams r in
      (
        inv.stored,
        λ i c at.
            let (stream, has, f) = inv.fits i c at in
            (
              stream,
              has,
              f.reads,
              Sends-rest (notes_in log) (owed_in i [] log) c.ending c.left c.phase c.sent f.sends,
            ),
      )
