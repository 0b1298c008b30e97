-- ===== src/Route/Chats/Log.antt =====
-- route_guide/server/server.go: what the notes that all chats append mean for one of them.
use eth_research.Base.{
  ℕ, ◌≡◌, refl, ap, sym, inl, inr, List, [], ◌∷◌, ◌++◌, append-nil, append_assoc, ◌==◌,
  if◌then◌else◌, Bool-cases,
}
use eth_research.Base.Text.{String}
use eth_research.Route.{Point, RouteNote}
use eth_research.Route.Chat.{note_of, notes_at}
use eth_research.Route.Chats.{Entry}

-- All appended notes.
unfoldable pub notes_in : List Entry → List RouteNote
notes_in [] = []
notes_in ((i, p, m) ∷ log) = note_of p m ∷ notes_in log

-- The notes that chat `i` has appended.
unfoldable pub own_in : ℕ → List Entry → List (Point × String)
own_in i [] = []
own_in i ((j, p, m) ∷ log) = let rest = own_in i log in if i == j then (p, m) ∷ rest else rest

-- What chat `i` has to send: to each of its own notes all notes at its point that were appended
-- until then by any chat, in order, itself the last.
unfoldable pub owed_in : ℕ → List RouteNote → List Entry → List RouteNote
owed_in i seen [] = []
owed_in i seen ((j, p, m) ∷ log) =
    let later = owed_in i (seen ++ (note_of p m ∷ [])) log in
    if i == j then notes_at p (seen ++ (note_of p m ∷ [])) ++ later else later

pub notes_in-append :
    (j : ℕ) (p : Point) (m : String) (log : List Entry)
    → notes_in (log ++ ((j, p, m) ∷ [])) ≡ notes_in log ++ (note_of p m ∷ [])
unfolding notes_in
notes_in-append j p m [] = refl
notes_in-append j p m ((k, q, n) ∷ log) = ap (λ ns. note_of q n ∷ ns) (notes_in-append j p m log)

module _ (i j : ℕ) (p : Point) (m : String) where
  pub own_in-append :
      (log : List Entry)
      → own_in i (log ++ ((j, p, m) ∷ [])) ≡ own_in i log ++ (if i == j then (p, m) ∷ [] else [])
  unfolding own_in
  own_in-append [] = refl
  own_in-append ((k, q, n) ∷ log) = elim (Bool-cases (i == k)) [
    | inl own ↦ rw (own, own_in-append log) refl
    | inr other ↦ rw (other, own_in-append log) refl
  ]

  pub owed_in-append :
      (seen : List RouteNote) (log : List Entry)
      → owed_in i seen (log ++ ((j, p, m) ∷ []))
        ≡ owed_in i seen log
          ++ (if i == j then notes_at p (seen ++ (notes_in log ++ (note_of p m ∷ []))) else [])
  unfolding owed_in notes_in
  owed_in-append seen [] = elim (Bool-cases (i == j)) [
    | inl own ↦ rw own (append-nil _)
    | inr other ↦ rw other refl
  ]
  owed_in-append seen ((k, q, n) ∷ log) =
      let ih = owed_in-append (seen ++ (note_of q n ∷ [])) log in
      let regroup = append_assoc seen (note_of q n ∷ []) (notes_in log ++ (note_of p m ∷ [])) in
      elim (Bool-cases (i == k)) [
        | inl own ↦
            rw (own, ih, regroup) (sym (append_assoc (notes_at q (seen ++ (note_of q n ∷ []))) _ _))
        | inr other ↦ rw (other, ih, regroup) refl
      ]
