-- ===== src/Route/Chats.antt =====
-- route_guide/server/server.go: `RouteChat` of many chats at once, one action of one chat at a time,
-- with the lock `mu` around the append and the copy. Every note here has a point: `serialize` panics
-- on a note without one, which Route models.
pub mod Log
pub mod Lock
pub mod Kept
pub mod Invariant
pub mod Safety
pub mod Progress
pub mod Ends
mod Examples
use eth_research.Base.{
  ℕ, ◌≡◌, ◌++◌, List, [], ◌∷◌, Bool, true, false, Option, none, some, get_elem?, set, map,
}
use eth_research.Base.Dict.{Dict, lookup_or, insert}
use eth_research.Base.Text.{String, string_eq}
use eth_research.Route.{Point, RouteNote, Ending, end_of_file, broken}
use eth_research.Route.Chat.{note_of}

-- Where a chat stands, with the local variables that are live there.
pub data Phase : Type 0 where
  reading : Phase  -- head of the loop
  waiting : Point → String → Phase  -- before `s.mu.Lock()`
  holding : Point → String → Phase  -- before the append
  appended : Point → String → Phase  -- before the copy
  copied : List RouteNote → Phase  -- before `s.mu.Unlock()`
  sending : List RouteNote → Phase
  returned : Bool → Phase  -- at the end of the stream, with nil or an error
  cut_off : Phase  -- with the error of a send

-- A chat, with the notes of its stream that are left and how it ends, and what it has sent.
pub record Chat : Type 0 where
  pub left : List (Point × String)
  pub ending : Ending
  pub phase : Phase
  pub sent : List RouteNote

abbrev pub Stored : Type 0
Stored = Dict String (List RouteNote)

abbrev pub is_nil : Ending → Bool
is_nil end_of_file = true
is_nil broken = false

module _ (sprintf : Point → String) where
  -- An action of one chat: whether the lock is taken, the stored notes and the chat, before and
  -- after it, and the note that it appends. Where the lock is taken, `lock` waits. The copy that a
  -- chat makes is its own; notes are never modified.
  pub data Act
      : Bool → Stored → Chat → Option (Point × String) → Bool → Stored → Chat → Type 0 where
    receive :
        {b : Bool} {notes : Stored} {p : Point} {m : String} {l : List (Point × String)}
        {e : Ending} {o : List RouteNote}
        → Act b notes
            (record { left = (p, m) ∷ l; ending = e; phase = reading; sent = o })
            none
            b
            notes
            (record { left = l; ending = e; phase = waiting p m; sent = o })
    finish :
        {b : Bool} {notes : Stored} {e : Ending} {o : List RouteNote}
        → Act b notes
            (record { left = []; ending = e; phase = reading; sent = o })
            none
            b
            notes
            (record { left = []; ending = e; phase = returned (is_nil e); sent = o })
    lock :
        {notes : Stored} {p : Point} {m : String} {l : List (Point × String)} {e : Ending}
        {o : List RouteNote}
        → Act false notes
            (record { left = l; ending = e; phase = waiting p m; sent = o })
            none
            true
            notes
            (record { left = l; ending = e; phase = holding p m; sent = o })
    append_note :
        {b : Bool} {notes : Stored} {p : Point} {m : String} {l : List (Point × String)}
        {e : Ending} {o : List RouteNote}
        → Act b notes
            (record { left = l; ending = e; phase = holding p m; sent = o })
            (some (p, m))
            b
            (insert (sprintf p) (lookup_or [] (sprintf p) notes ++ (note_of p m ∷ [])) notes)
            (record { left = l; ending = e; phase = appended p m; sent = o })
    copy_notes :
        {b : Bool} {notes : Stored} {p : Point} {m : String} {l : List (Point × String)}
        {e : Ending} {o : List RouteNote}
        → Act b notes
            (record { left = l; ending = e; phase = appended p m; sent = o })
            none
            b
            notes
            (record {
              left = l;
              ending = e;
              phase = copied (lookup_or [] (sprintf p) notes);
              sent = o;
            })
    unlock :
        {b : Bool} {notes : Stored} {rn : List RouteNote} {l : List (Point × String)} {e : Ending}
        {o : List RouteNote}
        → Act b notes
            (record { left = l; ending = e; phase = copied rn; sent = o })
            none
            false
            notes
            (record { left = l; ending = e; phase = sending rn; sent = o })
    send :
        {b : Bool} {notes : Stored} {n : RouteNote} {rn : List RouteNote}
        {l : List (Point × String)} {e : Ending} {o : List RouteNote}
        → Act b notes
            (record { left = l; ending = e; phase = sending (n ∷ rn); sent = o })
            none
            b
            notes
            (record { left = l; ending = e; phase = sending rn; sent = o ++ (n ∷ []) })
    send_fails :
        {b : Bool} {notes : Stored} {n : RouteNote} {rn : List RouteNote}
        {l : List (Point × String)} {e : Ending} {o : List RouteNote}
        → Act b notes
            (record { left = l; ending = e; phase = sending (n ∷ rn); sent = o })
            none
            b
            notes
            (record { left = l; ending = e; phase = cut_off; sent = o })
    again :
        {b : Bool} {notes : Stored} {l : List (Point × String)} {e : Ending} {o : List RouteNote}
        → Act b notes
            (record { left = l; ending = e; phase = sending []; sent = o })
            none
            b
            notes
            (record { left = l; ending = e; phase = reading; sent = o })

-- The server with its chats.
pub record State : Type 0 where
  pub locked : Bool
  pub notes : Stored
  pub chats : List Chat

-- What has been appended, in order: a note, and the number of its chat.
abbrev pub Entry : Type 0
Entry = ℕ × Point × String

abbrev pub entries : ℕ → Option (Point × String) → List Entry
entries i none = []
entries i (some (p, m)) = (i, p, m) ∷ []

abbrev pub opened : List (Point × String) × Ending → Chat
opened (ns, e) = record { left = ns; ending = e; phase = reading; sent = [] }

abbrev pub start : List (List (Point × String) × Ending) → State
start streams = record { locked = false; notes = []; chats = map opened streams }

-- The states that chats with these streams reach, with what has been appended.
module _ (sprintf : Point → String) (streams : List (List (Point × String) × Ending)) where
  pub data Run : List Entry → State → Type 0 where
    here : Run [] (start streams)
    next :
        {log : List Entry} {s : State} (i : ℕ) {c c' : Chat} {e : Option (Point × String)}
        {b : Bool} {notes : Stored}
        → Run log s
        → get_elem? s.chats i ≡ some c
        → Act sprintf s.locked s.notes c e b notes c'
        → Run (log ++ entries i e) (record { locked = b; notes = notes; chats = set s.chats i c' })
