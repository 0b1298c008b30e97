-- ===== src/Route/Chats/Examples.antt =====
-- A run of two chats at once: the first one has returned while the second one holds the lock.
use eth_research.Base.{
  ℕ, ◌+◌, ◌*◌, ◌≤◌, ◌≡◌, refl, ◌⊎◌, List, [], ◌∷◌, ◌++◌, true, false, some, get_elem?,
}
use eth_research.Base.Dict.{lookup, lookup_or, insert}
use eth_research.Base.Text.{String, string_eq}
use eth_research.Route.{Point, RouteNote, Ending, end_of_file}
use eth_research.Route.Chat.{note_of, notes_at}
use eth_research.Route.Examples.{point_at, print_point, print_point_exact}
use eth_research.Route.Chats.{
  Chat, waiting, appended, returned, Stored, receive, finish, lock, append_note, copy_notes, unlock,
  send, again, State, Entry, Run, here, next,
}
use eth_research.Route.Chats.Log.{notes_in, own_in, owed_in}
use eth_research.Route.Chats.Kept.{unread}
use eth_research.Route.Chats.Safety.{chats_lem}
use eth_research.Route.Chats.Progress.{ended, Goes}
use eth_research.Route.Chats.Ends.{steps, chats_end}

abbrev inn : Point
inn = point_at 1 2

abbrev streams : List (List (Point × String) × Ending)
streams = ((inn, "a") ∷ [], end_of_file) ∷ ((inn, "b") ∷ [], end_of_file) ∷ []

abbrev log : List Entry
log = (0, inn, "a") ∷ (1, inn, "b") ∷ []

abbrev one_note : Stored
one_note = insert (print_point inn) (note_of inn "a" ∷ []) []

abbrev two_notes : Stored
two_notes = insert (print_point inn) (note_of inn "a" ∷ note_of inn "b" ∷ []) one_note

abbrev first : Chat
first = record {
  left = [];
  ending = end_of_file;
  phase = returned true;
  sent = note_of inn "a" ∷ [];
}

abbrev second : Chat
second = record { left = []; ending = end_of_file; phase = appended inn "b"; sent = [] }

abbrev now : State
now = record { locked = true; notes = two_notes; chats = first ∷ second ∷ [] }

-- The first chat at the head of its loop again, and the second one waiting.
first_done : Run print_point streams ((0, inn, "a") ∷ []) (record {
  locked = false;
  notes = one_note;
  chats =
      record first { phase = returned true }
      ∷ record { left = []; ending = end_of_file; phase = waiting inn "b"; sent = [] }
      ∷ [];
})
unfolding lookup insert print_point
first_done =
    next 0
      (next 0
        (next 0
          (next 0
            (next 0
              (next 0 (next 0 (next 1 (next 0 here refl receive) refl receive) refl lock) refl
                append_note)
              refl copy_notes)
            refl unlock)
          refl send)
        refl again)
      refl finish

both : Run print_point streams log now
unfolding lookup insert print_point
both = next 1 (next 1 first_done refl lock) refl append_note

chats_lem_example :
    ((p : Point) → lookup_or [] (print_point p) now.notes ≡ notes_at p (notes_in log))
    × ((i : ℕ) (c : Chat)
        → get_elem? now.chats i ≡ some c
        → (stream : List (Point × String) × Ending) × (get_elem? streams i ≡ some stream)
          × (own_in i log ++ unread c.phase c.left ≡ stream.0)
          × ((rest : List RouteNote) × (c.sent ++ rest ≡ owed_in i [] log)))
chats_lem_example = chats_lem print_point print_point_exact streams log now both

chats_end_example :
    (steps print_point print_point_exact streams both ≤ (2 + 6) * 2 + 2)
    × (((i : ℕ) (c : Chat) → get_elem? now.chats i ≡ some c → ended c.phase ≡ true)
        ⊎ Goes print_point now)
chats_end_example = chats_end print_point print_point_exact streams both
