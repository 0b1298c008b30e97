-- ===== src/Route/Chats/Invariant.antt =====
-- route_guide/server/server.go: what holds in every state that the chats reach.
use eth_research.Base.{
  ℕ, zero, suc, ◌≡◌, ◌≢◌, refl, sym, ◌∙◌, inl, inr, ◌⊎◌, List, [], ◌∷◌, ◌++◌, map, Bool, Option,
  none, some, get_elem?, set, get_elem?-set_self, get_elem?-set_ne, get_elem?-some_lt, ◌==◌, ==_iff,
  arith, Bool-cases,
}
use eth_research.Base.Dict.{lookup}
use eth_research.Base.Text.{String, string_eq}
use eth_research.Route.{Point, Ending}
use eth_research.Route.Chat.{notes_at, IsLog}
use eth_research.Route.Chats.{
  Chat, Stored, Act, receive, finish, lock, append_note, copy_notes, unlock, send, send_fails,
  again, State, Entry, entries, opened, start, Run, here, next,
}
use eth_research.Route.Chats.Log.{notes_in, own_in, owed_in}
use eth_research.Route.Chats.Lock.{
  holds, holders, as_number, as_number-le, holders-opened, holders-set, holds-le-holders,
  two_holders, Act-holds,
}
use eth_research.Route.Chats.Kept.{Fits, Act-IsLog, Act-Fits, Fits-other}

-- Only a chat that holds the lock appends.
Act-appends :
    {sprintf : Point → String} {b b' : Bool} {notes notes' : Stored} {c c' : Chat}
    {e : Option (Point × String)}
    → Act sprintf b notes c e b' notes' c'
    → (e ≡ none) ⊎ (holds c.phase ≡ 1)
Act-appends receive = inl refl
Act-appends finish = inl refl
Act-appends lock = inl refl
Act-appends append_note = inr refl
Act-appends copy_notes = inl refl
Act-appends unlock = inl refl
Act-appends send = inl refl
Act-appends send_fails = inl refl
Act-appends again = inl refl

get_elem?-opened :
    (streams : List (List (Point × String) × Ending)) (i : ℕ) (c : Chat)
    → get_elem? (map opened streams) i ≡ some c
    → (stream : List (Point × String) × Ending) × (get_elem? streams i ≡ some stream)
      × (c ≡ opened stream)
get_elem?-opened [] i c e = cc
get_elem?-opened (stream ∷ rest) zero c e = (stream, refl, ground (arith, e))
get_elem?-opened (stream ∷ rest) (suc i) c e = get_elem?-opened rest i c e

module _ (sprintf : Point → String) (exact : (p q : Point) → sprintf p ≡ sprintf q → p ≡ q)
    (streams : List (List (Point × String) × Ending)) where
  -- The stored notes are the appended ones, at most one chat holds the lock, and each chat fits.
  pub record Inv (log : List Entry) (s : State) : Type 0 where
    pub stored : IsLog sprintf exact s.notes (notes_in log)
    pub mutex : holders s.chats ≡ as_number s.locked
    pub fits :
        (i : ℕ) (c : Chat)
        → get_elem? s.chats i ≡ some c
        → (stream : List (Point × String) × Ending) × (get_elem? streams i ≡ some stream)
          × Fits log i stream c

  start-Inv : Inv [] (start streams)
  unfolding notes_in notes_at lookup own_in owed_in
  start-Inv = record {
    stored = λ p. refl;
    mutex = holders-opened streams;
    fits = λ i c e.
        let (stream, at, is) = get_elem?-opened streams i c e in
        (stream, at, rw is (record { ends = refl; reads = refl; sends = refl }));
  }

  -- While a chat appends, no other one holds the lock.
  quiet :
      {log : List Entry} {s : State} (i j : ℕ) (c d : Chat) (e : Option (Point × String))
      {c' : Chat} {b : Bool} {notes : Stored}
      → j ≢ i
      → Inv log s
      → get_elem? s.chats i ≡ some c
      → get_elem? s.chats j ≡ some d
      → Act sprintf s.locked s.notes c e b notes c'
      → (e ≡ none) ⊎ (holds d.phase ≡ 0)
  quiet {s} i j c d e apart inv at was act = elim (Act-appends act) [
    | inl silent ↦ inl silent
    | inr holder ↦ inr (
        omega (
          arith,
          holder,
          inv.mutex,
          as_number-le s.locked,
          two_holders s.chats i j c d at was (λ eq. apart (sym eq)),
        ))
  ]

  next-Fits :
      {log : List Entry} {s : State} {c c' : Chat} {e : Option (Point × String)} {b : Bool}
      {notes : Stored} (i : ℕ)
      → Inv log s
      → get_elem? s.chats i ≡ some c
      → Act sprintf s.locked s.notes c e b notes c'
      → (j : ℕ) (d : Chat) → get_elem? (set s.chats i c') j ≡ some d
      → (stream : List (Point × String) × Ending) × (get_elem? streams j ≡ some stream)
        × Fits (log ++ entries i e) j stream d
  next-Fits {log} {s} {c} {c'} {e} i inv at act j d there = elim (Bool-cases (j == i)) [
    | inl same ↦
        let eq : j ≡ i = (==_iff j i).0 same in
        let (stream, has, f) = inv.fits i c at in
        let new : d ≡ c' =
          ground (
            arith,
            there,
            eq,
            get_elem?-set_self s.chats i c' (get_elem?-some_lt s.chats i c at),
          ) in
        (stream, rw eq has, rw (eq, new) (Act-Fits exact log i stream act inv.stored f))
    | inr other ↦
        let apart : j ≢ i = λ eq. ground (arith, other, eq) in
        let was : get_elem? s.chats j ≡ some d =
          sym (get_elem?-set_ne s.chats i j c' (λ eq. apart (sym eq))) ∙ there in
        let (stream, has, f) = inv.fits j d was in
        (stream, has, Fits-other log i j apart stream d e (quiet i j c d e apart inv at was act) f)
  ]

  pub Run-Inv : {log : List Entry} {s : State} → Run sprintf streams log s → Inv log s
  Run-Inv here = start-Inv
  Run-Inv (next {log} {s} i {c} {c'} {e} {b} {notes} r at act) =
      let inv = Run-Inv r in
      let held = Act-holds act (omega (arith, holds-le-holders s.chats i c at, inv.mutex)) in
      record {
        stored = Act-IsLog exact log i act inv.stored;
        mutex = omega (arith, held, holders-set s.chats i c c' at, inv.mutex);
        fits = next-Fits i inv at act;
      }
