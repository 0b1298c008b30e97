-- ===== src/Route/Chat.antt =====
-- route_guide/server/server.go: what the chats send, whatever the order of their notes.
use mathlib.Core.Path.{ap₂, subst}
use eth_research.Base.{
  ℕ, ◌≡◌, refl, sym, ap, ◌∙◌, inl, inr, List, [], ◌∷◌, ◌++◌, append-nil, append_assoc, true, false,
  some, if◌then◌else◌, arith, Bool-cases, done,
}
use eth_research.Base.Dict.{Dict, lookup, lookup_or, insert, lookup-insert}
use eth_research.Base.Text.{String, str_eq, str_eq_iff, string_eq}
use eth_research.Route.{Point, RouteNote, point_eq, is_at, serialize, chat_note, chat_notes}

-- The notes of a list at a point, in their order.
unfoldable pub notes_at : Point → List RouteNote → List RouteNote
notes_at p [] = []
notes_at p (n ∷ ns) = let rest = notes_at p ns in if is_at n.location p then n ∷ rest else rest

abbrev pub note_of : Point → String → RouteNote
note_of p m = record { location = some p; message = m }

unfoldable pub notes_of : List (Point × String) → List RouteNote
notes_of [] = []
notes_of ((p, m) ∷ rest) = note_of p m ∷ notes_of rest

-- The answers to notes that come after those of `seen`: to each, all notes at its point that have
-- come, itself the last.
unfoldable pub answers : List RouteNote → List (Point × String) → List (List RouteNote)
answers seen [] = []
answers seen ((p, m) ∷ rest) =
    notes_at p (seen ++ (note_of p m ∷ [])) ∷ answers (seen ++ (note_of p m ∷ [])) rest

point_eq_path : (p q : Point) → point_eq p q ≡ true → p ≡ q
point_eq_path p q e =
    let lat : p.latitude ≡ q.latitude = ground (arith, e) in
    let long : p.longitude ≡ q.longitude = ground (arith, e) in
    ap₂ (λ (x y : ℕ). record { latitude = x; longitude = y }) lat long

point_eq_refl : (p : Point) → point_eq p p ≡ true
point_eq_refl p = ground arith

notes_at-append :
    (p : Point) (xs ys : List RouteNote) → notes_at p (xs ++ ys) ≡ notes_at p xs ++ notes_at p ys
unfolding notes_at
notes_at-append p [] ys = refl
notes_at-append p (n ∷ xs) ys = elim (Bool-cases (is_at n.location p)) [
  | inl here ↦ rw (here, notes_at-append p xs ys) refl
  | inr other ↦ rw (other, notes_at-append p xs ys) refl
]

notes_at-own :
    (p : Point) (m : String) (seen : List RouteNote)
    → notes_at p (seen ++ (note_of p m ∷ [])) ≡ notes_at p seen ++ (note_of p m ∷ [])
unfolding notes_at
notes_at-own p m seen = rw (notes_at-append p seen (note_of p m ∷ []), point_eq_refl p) refl

notes_at-other :
    (p q : Point) (m : String) (seen : List RouteNote)
    → point_eq p q ≡ false
    → notes_at q (seen ++ (note_of p m ∷ [])) ≡ notes_at q seen
unfolding notes_at
notes_at-other p q m seen e =
    rw (notes_at-append q seen (note_of p m ∷ []), e) (append-nil (notes_at q seen))

module _ (sprintf : Point → String) (exact : (p q : Point) → sprintf p ≡ sprintf q → p ≡ q) where
  -- The stored notes are those seen, by point.
  abbrev pub IsLog : Dict String (List RouteNote) → List RouteNote → Type 0
  IsLog notes seen = (p : Point) → lookup_or [] (sprintf p) notes ≡ notes_at p seen

  pub chat_note_lem :
      (notes : Dict String (List RouteNote)) (seen : List RouteNote) (p : Point) (m : String)
      → IsLog notes seen
      → (notes' : Dict String (List RouteNote)) × (chat_note sprintf notes (note_of p m)
          ≡ done (notes_at p (seen ++ (note_of p m ∷ [])), notes'))
        × IsLog notes' (seen ++ (note_of p m ∷ []))
  unfolding chat_note serialize
  chat_note_lem notes seen p m logged =
      let rn = notes_at p (seen ++ (note_of p m ∷ [])) in
      let own : lookup_or [] (sprintf p) notes ++ (note_of p m ∷ []) ≡ rn =
        rw (logged p) (sym (notes_at-own p m seen)) in
      (
        insert (sprintf p) rn notes,
        ap (λ (r : List RouteNote). done (r, insert (sprintf p) r notes)) own,
        λ q. elim (Bool-cases (str_eq (sprintf q) (sprintf p))) [
          | inl same ↦
              let eq : q ≡ p = exact q p ((str_eq_iff (sprintf q) (sprintf p)).0 same) in
              rw (lookup_or, lookup-insert (sprintf q) (sprintf p) rn notes, same, eq) refl
          | inr other ↦
              let apart : point_eq p q ≡ false = elim (Bool-cases (point_eq p q)) [
                | inr no_match ↦ no_match
                | inl match_ ↦
                    let eq = ap sprintf (sym (point_eq_path p q match_)) in
                    let alike = (str_eq_iff (sprintf q) (sprintf p)).1 eq in cc
              ] in
              rw (lookup_or, lookup-insert (sprintf q) (sprintf p) rn notes, other)
                (logged q ∙ sym (notes_at-other p q m seen apart))
        ],
      )

  chat_notes_from :
      (notes : Dict String (List RouteNote)) (seen : List RouteNote) (ns : List (Point × String))
      → IsLog notes seen
      → (notes' : Dict String (List RouteNote)) × (chat_notes sprintf notes (notes_of ns)
          ≡ done (answers seen ns, notes'))
        × IsLog notes' (seen ++ notes_of ns)
  unfolding chat_notes notes_of answers
  chat_notes_from notes seen [] logged = (notes, refl, rw (append-nil seen) logged)
  chat_notes_from notes seen ((p, m) ∷ ns) logged =
      let (notes1, step, logged1) = chat_note_lem notes seen p m logged in
      let (notes2, rest, logged2) =
        chat_notes_from notes1 (seen ++ (note_of p m ∷ [])) ns logged1 in
      (
        notes2,
        rw (step, rest) refl,
        subst (IsLog notes2) (append_assoc seen (note_of p m ∷ []) (notes_of ns)) logged2,
      )

  -- Where the printed points differ for different points, and all notes have a point: whatever
  -- chats the notes come from, in the order in which these take the lock, each is answered with all
  -- notes at its point that have come until then, itself the last, and the stored notes at a point
  -- are those that have come, in order.
  pub chat_notes_lem :
      (ns : List (Point × String))
      → (notes : Dict String (List RouteNote)) × (chat_notes sprintf [] (notes_of ns)
          ≡ done (answers [] ns, notes))
        × ((p : Point) → lookup_or [] (sprintf p) notes ≡ notes_at p (notes_of ns))
  unfolding lookup notes_at
  chat_notes_lem ns = chat_notes_from [] [] ns (λ p. refl)
