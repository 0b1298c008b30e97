-- ===== src/Route/Stream.antt =====
-- route_guide/server/server.go: a whole chat of `RouteChat`, with its sends.
use mathlib.Core.Path.{subst}
use eth_research.Base.{
  ℕ, suc, ◌+◌, ◌≡◌, refl, ap, ◌∙◌, sym, inl, inr, List, [], ◌∷◌, ◌++◌, append_assoc, Bool, true,
  false, ◌&&◌, length, take, append-nil, Bool-cases, Outcome, done, ◌>>=◌,
}
use eth_research.Base.Dict.{Dict}
use eth_research.Base.Text.{String, string_eq}
use eth_research.Route.{Point, RouteNote, Ending, end_of_file, broken, chat_note}
use eth_research.Route.Chat.{notes_of, note_of, notes_at, answers, IsLog, chat_note_lem}
use eth_research.Route.Sends.{send_notes, send_notes-all, send_notes-part}

abbrev pub Chatted : Type 0
Chatted = Outcome ((List RouteNote × Bool) × Dict String (List RouteNote))

-- An iteration after its sends, with what the later iterations do.
abbrev pub after_sends : List RouteNote × Bool → Dict String (List RouteNote) → Chatted → Chatted
after_sends (sent, false) notes later = done ((sent, false), notes)
after_sends (sent, true) notes later = do
  (more, notes1) ← later
  done ((sent ++ more.0, more.1), notes1)

module _ (sprintf : Point → String) (works : ℕ → Bool) where
  -- `RouteChat` with the notes before the stream ends: what is sent, whether it returns nil, and
  -- the notes that are stored then.
  unfoldable pub route_chat : ℕ → Dict String (List RouteNote) → List RouteNote → Ending → Chatted
  route_chat n notes [] end_of_file = done (([], true), notes)
  route_chat n notes [] broken = done (([], false), notes)
  route_chat n notes (note ∷ rest) ending = do
    (rn, notes1) ← chat_note sprintf notes note
    after_sends (send_notes works n rn) notes1 (route_chat (n + length rn) notes1 rest ending)

  chat_step :
      (n : ℕ) (notes notes1 : Dict String (List RouteNote)) (note : RouteNote)
      (rest rn : List RouteNote) (ending : Ending)
      → chat_note sprintf notes note ≡ done (rn, notes1)
      → route_chat n notes (note ∷ rest) ending
        ≡ after_sends (send_notes works n rn) notes1 (route_chat (n + length rn) notes1 rest ending)
  unfolding route_chat
  chat_step n notes notes1 note rest rn ending e = rw (route_chat, e) refl

after_sends-false :
    (r : List RouteNote × Bool) (notes : Dict String (List RouteNote)) (later : Chatted)
    → r.1 ≡ false
    → after_sends r notes later ≡ done (r, notes)
after_sends-false (sent, false) notes later e = refl
after_sends-false (sent, true) notes later e = cc

after_sends-true :
    (r more : List RouteNote × Bool) (notes notes1 : Dict String (List RouteNote)) (later : Chatted)
    → r.1 ≡ true
    → later ≡ done (more, notes1)
    → after_sends r notes later ≡ done ((r.0 ++ more.0, more.1), notes1)
after_sends-true (sent, false) more notes notes1 later e f = cc
after_sends-true (sent, true) more notes notes1 later e f = rw f refl

abbrev pub flatten : List (List RouteNote) → List RouteNote
flatten [] = []
flatten (ns ∷ rest) = ns ++ flatten rest

abbrev pub is_end : Ending → Bool
is_end end_of_file = true
is_end broken = false

-- What the client of a chat gets: as much of the answers as is sent, and whether all is well.
abbrev pub received : List RouteNote × Bool → Ending → List RouteNote × Bool
received (sent, fine) ending = (sent, fine && is_end ending)

received-false : (r : List RouteNote × Bool) (ending : Ending) → r.1 ≡ false → r ≡ received r ending
received-false (sent, false) ending e = refl
received-false (sent, true) ending e = cc

module _ (sprintf : Point → String) (exact : (p q : Point) → sprintf p ≡ sprintf q → p ≡ q)
    (works : ℕ → Bool) where
  -- Where the printed points differ for different points, all notes of the chat have a point, and the
  -- stored notes are those of `seen` by point: `RouteChat` does not panic. It sends, to each note in
  -- turn, all notes at its point that have come until then, up to a send that fails, and returns nil
  -- where no send fails and the stream ends without an error. The notes that it has read are stored.
  pub route_chat_lem :
      (n : ℕ) (notes : Dict String (List RouteNote)) (seen : List RouteNote)
      (ns : List (Point × String)) (ending : Ending)
      → IsLog sprintf exact notes seen
      → (notes' : Dict String (List RouteNote)) × ((m : ℕ) × (route_chat sprintf works n notes
              (notes_of ns)
              ending
            ≡ done (received (send_notes works n (flatten (answers seen ns))) ending, notes'))
          × IsLog sprintf exact notes' (seen ++ notes_of (take m ns)))
  unfolding route_chat notes_of answers send_notes
  route_chat_lem n notes seen [] end_of_file logged =
      (notes, (0, refl, rw (append-nil seen) logged))
  route_chat_lem n notes seen [] broken logged = (notes, (0, refl, rw (append-nil seen) logged))
  route_chat_lem n notes seen ((p, m) ∷ ns) ending logged =
      let (notes1, note_step, logged1) = chat_note_lem sprintf exact notes seen p m logged in
      let rn = notes_at p (seen ++ (note_of p m ∷ [])) in
      let more = flatten (answers (seen ++ (note_of p m ∷ [])) ns) in
      let later = route_chat sprintf works (n + length rn) notes1 (notes_of ns) ending in
      let step =
        chat_step sprintf works n notes notes1 (note_of p m) (notes_of ns) rn ending note_step in
      elim (Bool-cases (send_notes works n rn).1) [
        | inr fails ↦
            let part = send_notes-part works n rn more fails in
            (
              notes1,
              (
                1,
                step
                    ∙ after_sends-false (send_notes works n rn) notes1 later fails
                    ∙ ap (λ r. done (r, notes1))
                        (received-false (send_notes works n rn) ending fails)
                    ∙ ap (λ r. done (received r ending, notes1)) (sym part),
                logged1,
              ),
            )
        | inl sends ↦
            let all = send_notes-all works n rn more sends in
            let (notes2, (k, rest, logged2)) =
              route_chat_lem (n + length rn) notes1 (seen ++ (note_of p m ∷ [])) ns ending
                logged1 in
            (
              notes2,
              (
                suc k,
                step
                    ∙ after_sends-true (send_notes works n rn) _ notes1 notes2 later sends rest
                    ∙ ap (λ r. done (received r ending, notes2)) (sym all),
                subst (λ l. IsLog sprintf exact notes2 l)
                    (append_assoc seen (note_of p m ∷ []) (notes_of (take k ns))) logged2,
              ),
            )
      ]
