-- ===== src/Route/Chats/Kept.antt =====
-- route_guide/server/server.go: what every action of a chat keeps, for itself and the other chats.
use eth_research.Base.{
  ℕ, ◌≡◌, ◌≢◌, refl, ap, sym, ◌∙◌, inl, inr, ◌⊎◌, List, [], ◌∷◌, ◌++◌, append-nil, append_assoc,
  Bool, false, Option, none, some, ◌==◌, ==_iff, arith, Bool-cases,
}
use eth_research.Base.Dict.{lookup_or, insert}
use eth_research.Base.Text.{String, string_eq}
use eth_research.Route.{Point, RouteNote, Ending, chat_note, serialize}
use eth_research.Route.Chat.{note_of, notes_at, IsLog, chat_note_lem}
use eth_research.Route.Chats.{
  Phase, reading, waiting, holding, appended, copied, sending, returned, cut_off, Chat, Stored, Act,
  receive, finish, lock, append_note, copy_notes, unlock, send, send_fails, again, Entry, entries,
  is_nil,
}
use eth_research.Route.Chats.Log.{
  notes_in, own_in, owed_in, notes_in-append, own_in-append, owed_in-append,
}
use eth_research.Route.Chats.Lock.{holds}

-- The notes of its stream that a chat has not appended.
abbrev pub unread : Phase → List (Point × String) → List (Point × String)
unread (waiting p m) left = (p, m) ∷ left
unread (holding p m) left = (p, m) ∷ left
unread reading left = left
unread (appended p m) left = left
unread (copied rn) left = left
unread (sending rn) left = left
unread (returned b) left = left
unread cut_off left = left

-- What has been sent, beside what is owed for the notes in `seen`.
abbrev pub Sends :
    List RouteNote
    → List RouteNote
    → Ending
    → List (Point × String)
    → Phase
    → List RouteNote
    → Type 0
Sends seen owed ending left reading sent = sent ≡ owed
Sends seen owed ending left (waiting p m) sent = sent ≡ owed
Sends seen owed ending left (holding p m) sent = sent ≡ owed
Sends seen owed ending left (appended p m) sent = sent ++ notes_at p seen ≡ owed
Sends seen owed ending left (copied rn) sent = sent ++ rn ≡ owed
Sends seen owed ending left (sending rn) sent = sent ++ rn ≡ owed
Sends seen owed ending left (returned b) sent = (sent ≡ owed) × (left ≡ []) × (b ≡ is_nil ending)
Sends seen owed ending left cut_off sent = (rest : List RouteNote) × (sent ++ rest ≡ owed)

-- It does not depend on these notes, unless the lock is held.
Sends-free :
    (seen seen' owed : List RouteNote) (e : Ending) (l : List (Point × String)) (phase : Phase)
    (o : List RouteNote)
    → holds phase ≡ 0
    → Sends seen owed e l phase o
    → Sends seen' owed e l phase o
Sends-free seen seen' owed e l reading o free f = f
Sends-free seen seen' owed e l (waiting p m) o free f = f
Sends-free seen seen' owed e l (holding p m) o free f = f
Sends-free seen seen' owed e l (appended p m) o free f = absurd (omega (arith, free))
Sends-free seen seen' owed e l (copied rn) o free f = f
Sends-free seen seen' owed e l (sending rn) o free f = f
Sends-free seen seen' owed e l (returned b) o free f = f
Sends-free seen seen' owed e l cut_off o free f = f

-- What is sent is a start of what is owed.
pub Sends-rest :
    (seen owed : List RouteNote) (e : Ending) (l : List (Point × String)) (phase : Phase)
    (o : List RouteNote)
    → Sends seen owed e l phase o
    → (rest : List RouteNote) × (o ++ rest ≡ owed)
Sends-rest seen owed e l reading o f = ([], append-nil o ∙ f)
Sends-rest seen owed e l (waiting p m) o f = ([], append-nil o ∙ f)
Sends-rest seen owed e l (holding p m) o f = ([], append-nil o ∙ f)
Sends-rest seen owed e l (appended p m) o f = (notes_at p seen, f)
Sends-rest seen owed e l (copied rn) o f = (rn, f)
Sends-rest seen owed e l (sending rn) o f = (rn, f)
Sends-rest seen owed e l (returned b) o (f, g, h) = ([], append-nil o ∙ f)
Sends-rest seen owed e l cut_off o f = f

-- What holds of chat `i` with this stream.
pub record Fits (log : List Entry) (i : ℕ) (stream : List (Point × String) × Ending) (c : Chat)
    : Type 0 where
  pub ends : c.ending ≡ stream.1
  pub reads : own_in i log ++ unread c.phase c.left ≡ stream.0
  pub sends : Sends (notes_in log) (owed_in i [] log) c.ending c.left c.phase c.sent

module _ (log : List Entry) (i : ℕ) (p : Point) (m : String) where
  abbrev own_log : List Entry
  own_log = log ++ ((i, p, m) ∷ [])

  own_read : own_in i own_log ≡ own_in i log ++ ((p, m) ∷ [])
  own_read = let same = (==_iff i i).1 refl in own_in-append i i p m log ∙ rw same refl

  own_owed : owed_in i [] own_log ≡ owed_in i [] log ++ notes_at p (notes_in own_log)
  own_owed =
      let same = (==_iff i i).1 refl in
      owed_in-append i i p m [] log ∙ rw (same, notes_in-append i p m log) refl

module _ {sprintf : Point → String} (exact : (p q : Point) → sprintf p ≡ sprintf q → p ≡ q) where
  append-IsLog :
      (log : List Entry) (i : ℕ) (p : Point) (m : String) (notes : Stored)
      → IsLog sprintf exact notes (notes_in log)
      → IsLog sprintf exact
          (insert (sprintf p) (lookup_or [] (sprintf p) notes ++ (note_of p m ∷ [])) notes)
          (notes_in (log ++ ((i, p, m) ∷ [])))
  unfolding chat_note serialize
  append-IsLog log i p m notes kept =
      let (notes', step, kept') = chat_note_lem sprintf exact notes (notes_in log) p m kept in
      let is : insert (sprintf p) (lookup_or [] (sprintf p) notes ++ (note_of p m ∷ [])) notes
          ≡ notes' =
        cc in
      rw (is, notes_in-append i p m log) kept'

  -- The stored notes are those that were appended, by point.
  pub Act-IsLog :
      {b b' : Bool} {notes notes' : Stored} {c c' : Chat} {e : Option (Point × String)}
      (log : List Entry) (i : ℕ)
      → Act sprintf b notes c e b' notes' c'
      → IsLog sprintf exact notes (notes_in log)
      → IsLog sprintf exact notes' (notes_in (log ++ entries i e))
  Act-IsLog log i receive kept = rw (append-nil log) kept
  Act-IsLog log i finish kept = rw (append-nil log) kept
  Act-IsLog log i lock kept = rw (append-nil log) kept
  Act-IsLog {notes} log i (append_note {p} {m}) kept = append-IsLog log i p m notes kept
  Act-IsLog log i copy_notes kept = rw (append-nil log) kept
  Act-IsLog log i unlock kept = rw (append-nil log) kept
  Act-IsLog log i send kept = rw (append-nil log) kept
  Act-IsLog log i send_fails kept = rw (append-nil log) kept
  Act-IsLog log i again kept = rw (append-nil log) kept

-- Its own action keeps what holds of a chat.
module _ {sprintf : Point → String} (exact : (p q : Point) → sprintf p ≡ sprintf q → p ≡ q)
    (log : List Entry) (i : ℕ) (stream : List (Point × String) × Ending) where
  silent : {c : Chat} → Fits log i stream c → Fits (log ++ []) i stream c
  silent f = rw (append-nil log) f

  pub Act-Fits :
      {b b' : Bool} {notes notes' : Stored} {c c' : Chat} {e : Option (Point × String)}
      → Act sprintf b notes c e b' notes' c'
      → IsLog sprintf exact notes (notes_in log)
      → Fits log i stream c
      → Fits (log ++ entries i e) i stream c'
  Act-Fits receive kept f = silent (record { ends = f.ends; reads = f.reads; sends = f.sends })
  Act-Fits finish kept f =
      silent (record { ends = f.ends; reads = f.reads; sends = (f.sends, refl, refl) })
  Act-Fits lock kept f = silent (record { ends = f.ends; reads = f.reads; sends = f.sends })
  Act-Fits (append_note {p} {m} {l} {o}) kept f = record {
    ends = f.ends;
    reads =
        ap (λ (ns : List (Point × String)). ns ++ l) (own_read log i p m)
        ∙ append_assoc (own_in i log) ((p, m) ∷ []) l
        ∙ f.reads;
    sends =
        ap (λ (ns : List RouteNote). ns ++ notes_at p (notes_in (log ++ ((i, p, m) ∷ [])))) f.sends
        ∙ sym (own_owed log i p m);
  }
  Act-Fits (copy_notes {p} {o}) kept f = silent (record {
    ends = f.ends;
    reads = f.reads;
    sends = ap (λ (ns : List RouteNote). o ++ ns) (kept p) ∙ f.sends;
  })
  Act-Fits unlock kept f = silent (record { ends = f.ends; reads = f.reads; sends = f.sends })
  Act-Fits (send {n} {rn} {o}) kept f =
      silent
        (record { ends = f.ends; reads = f.reads; sends = append_assoc o (n ∷ []) rn ∙ f.sends })
  Act-Fits (send_fails {n} {rn}) kept f =
      silent (record { ends = f.ends; reads = f.reads; sends = (n ∷ rn, f.sends) })
  Act-Fits (again {o}) kept f =
      silent (record { ends = f.ends; reads = f.reads; sends = sym (append-nil o) ∙ f.sends })

-- An action of chat `i` keeps what holds of chat `j`, if `j` does not hold the lock or nothing is
-- appended.
module _ (log : List Entry) (i j : ℕ) (apart : j ≢ i) where
  other : (j == i) ≡ false
  other = elim (Bool-cases (j == i)) [
    | inl same ↦ absurd (apart ((==_iff j i).0 same))
    | inr no_match ↦ no_match
  ]

  other_read : (p : Point) (m : String) → own_in j (log ++ ((i, p, m) ∷ [])) ≡ own_in j log
  other_read p m = own_in-append j i p m log ∙ rw other (append-nil (own_in j log))

  other_owed : (p : Point) (m : String) → owed_in j [] (log ++ ((i, p, m) ∷ [])) ≡ owed_in j [] log
  other_owed p m = owed_in-append j i p m [] log ∙ rw other (append-nil (owed_in j [] log))

  pub Fits-other :
      (stream : List (Point × String) × Ending) (d : Chat) (e : Option (Point × String))
      → (e ≡ none) ⊎ (holds d.phase ≡ 0)
      → Fits log j stream d
      → Fits (log ++ entries i e) j stream d
  Fits-other stream d none quiet f = rw (append-nil log) f
  Fits-other stream d (some (p, m)) (inl silent_too) f = cc
  Fits-other stream d (some (p, m)) (inr free) f = record {
    ends = f.ends;
    reads = rw (other_read p m) f.reads;
    sends = rw (other_owed p m) (
        Sends-free (notes_in log) (notes_in (log ++ ((i, p, m) ∷ []))) (owed_in j [] log) d.ending
          d.left d.phase d.sent free f.sends);
  }
