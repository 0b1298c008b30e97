-- ===== src/Route/Chats/Ends.antt =====
-- route_guide/server/server.go: how many actions the chats at once take.
use eth_research.Base.{
  ℕ, zero, suc, ◌+◌, ◌*◌, ◌≤◌, ◌≡◌, refl, ap, List, [], ◌∷◌, map, Bool, true, Option, some,
  get_elem?, set, length, length-append, arith, ◌⊎◌,
}
use eth_research.Base.Dict.{lookup_or}
use eth_research.Base.Text.{String, string_eq}
use eth_research.Route.{Point, RouteNote, Ending}
use eth_research.Route.Chat.{notes_at}
use eth_research.Route.Chats.{
  Phase, reading, waiting, holding, appended, copied, sending, returned, cut_off, Chat, Stored, Act,
  receive, finish, lock, append_note, copy_notes, unlock, send, send_fails, again, State, Entry,
  entries, opened, Run, here, next,
}
use eth_research.Route.Chats.Log.{notes_in}
use eth_research.Route.Chats.Kept.{unread}
use eth_research.Route.Chats.Invariant.{Run-Inv}
use eth_research.Route.Chats.Progress.{ended, Goes, chats_go_on}

-- The sum of a weight over all chats.
module _ (w : Chat → ℕ) where
  unfoldable total : List Chat → ℕ
  total [] = 0
  total (c ∷ cs) = w c + total cs

  total-set :
      (cs : List Chat) (i : ℕ) (c c' : Chat)
      → get_elem? cs i ≡ some c
      → total (set cs i c') + w c ≡ total cs + w c'
  unfolding total
  total-set [] i c c' e = cc
  total-set (d ∷ cs) zero c c' e = let is : w d ≡ w c = ground (arith, e) in omega (arith, is)
  total-set (d ∷ cs) (suc i) c c' e = omega (arith, total-set cs i c c' e)

-- The notes that a chat has not appended.
abbrev waits : Chat → ℕ
waits c = length (unread c.phase c.left)

Act-waits :
    {sprintf : Point → String} {b b' : Bool} {notes notes' : Stored} {c c' : Chat}
    {e : Option (Point × String)} (i : ℕ)
    → Act sprintf b notes c e b' notes' c'
    → length (entries i e) + waits c' ≡ waits c
Act-waits i receive = omega arith
Act-waits i finish = omega arith
Act-waits i lock = omega arith
Act-waits i append_note = omega arith
Act-waits i copy_notes = omega arith
Act-waits i unlock = omega arith
Act-waits i send = omega arith
Act-waits i send_fails = omega arith
Act-waits i again = omega arith

-- The actions that a chat has left at most, where `t` notes come in all.
module _ (t : ℕ) where
  left_cost : List (Point × String) → ℕ
  left_cost [] = 0
  left_cost (n ∷ l) = t + 6 + left_cost l

  abbrev phase_cost : Phase → ℕ
  phase_cost reading = 1
  phase_cost (waiting p m) = 6 + t
  phase_cost (holding p m) = 5 + t
  phase_cost (appended p m) = 4 + t
  phase_cost (copied rn) = 3 + length rn
  phase_cost (sending rn) = 2 + length rn
  phase_cost (returned b) = 0
  phase_cost cut_off = 0

  abbrev cost : Chat → ℕ
  cost c = left_cost c.left + phase_cost c.phase

  Act-cost :
      {sprintf : Point → String} {b b' : Bool} {notes notes' : Stored} {c c' : Chat}
      {e : Option (Point × String)}
      → ((p : Point) → length (lookup_or [] (sprintf p) notes) ≤ t)
      → Act sprintf b notes c e b' notes' c'
      → suc (cost c') ≤ cost c
  unfolding left_cost
  Act-cost few receive = omega arith
  Act-cost few finish = omega arith
  Act-cost few lock = omega arith
  Act-cost few append_note = omega arith
  Act-cost few (copy_notes {p}) = omega (arith, few p)
  Act-cost few unlock = omega arith
  Act-cost few send = omega arith
  Act-cost few send_fails = omega arith
  Act-cost few again = omega arith

  left_cost-length : (l : List (Point × String)) → left_cost l ≡ (t + 6) * length l
  unfolding left_cost
  left_cost-length [] = omega arith
  left_cost-length (n ∷ l) = simp (left_cost-length l) (omega arith)

length-notes_at : (p : Point) (ns : List RouteNote) → length (notes_at p ns) ≤ length ns
unfolding notes_at
length-notes_at p [] = omega arith
length-notes_at p (n ∷ ns) = ground (arith, length-notes_at p ns)

length-notes_in : (log : List Entry) → length (notes_in log) ≡ length log
unfolding notes_in
length-notes_in [] = refl
length-notes_in ((i, p, m) ∷ log) = ap suc (length-notes_in log)

-- The number of notes of all streams.
abbrev pub notes_of_all : List (List (Point × String) × Ending) → ℕ
notes_of_all [] = 0
notes_of_all ((ns, e) ∷ rest) = length ns + notes_of_all rest

total-waits :
    (streams : List (List (Point × String) × Ending))
    → total waits (map opened streams) ≡ notes_of_all streams
unfolding total
total-waits [] = refl
total-waits ((ns, e) ∷ rest) = omega (arith, total-waits rest)

total-cost :
    (t : ℕ) (streams : List (List (Point × String) × Ending))
    → total (cost t) (map opened streams) ≡ (t + 6) * notes_of_all streams + length streams
unfolding total
total-cost t [] = omega arith
total-cost t ((ns, e) ∷ rest) =
    let spread : (t + 6) * (length ns + notes_of_all rest)
        ≡ (t + 6) * length ns + (t + 6) * notes_of_all rest =
      grind arith in
    omega (arith, spread, left_cost-length t ns, total-cost t rest)

module _ (sprintf : Point → String) (exact : (p q : Point) → sprintf p ≡ sprintf q → p ≡ q)
    (streams : List (List (Point × String) × Ending)) where
  -- The actions of a run.
  pub steps : {log : List Entry} {s : State} → Run sprintf streams log s → ℕ
  steps here = 0
  steps (next i r at act) = suc (steps r)

  Run-waits :
      {log : List Entry} {s : State}
      → Run sprintf streams log s
      → length log + total waits s.chats ≡ notes_of_all streams
  Run-waits here = omega (arith, total-waits streams)
  Run-waits (next {log} {s} i {c} {c'} {e} r at act) = omega (
    arith,
    Run-waits r,
    Act-waits i act,
    total-set waits s.chats i c c' at,
    length-append log (entries i e),
  )

  few_stored :
      {log : List Entry} {s : State}
      → Run sprintf streams log s
      → (p : Point) → length (lookup_or [] (sprintf p) s.notes) ≤ notes_of_all streams
  few_stored {log} r p =
      let is =
        ap (λ (ns : List RouteNote). length ns) ((Run-Inv sprintf exact streams r).stored p) in
      omega (arith, is, length-notes_at p (notes_in log), length-notes_in log, Run-waits r)

  Run-cost :
      {log : List Entry} {s : State} (r : Run sprintf streams log s)
      → steps r + total (cost (notes_of_all streams)) s.chats
        ≤ total (cost (notes_of_all streams)) (map opened streams)
  unfolding steps
  Run-cost here = omega arith
  Run-cost (next {s} i {c} {c'} r at act) = omega (
    arith,
    Run-cost r,
    Act-cost (notes_of_all streams) (few_stored r) act,
    total-set (cost (notes_of_all streams)) s.chats i c c' at,
  )

  -- Where the printed points differ for different points: chats at once, with `t` notes in all, act
  -- at most (t + 6) t times and once more for each chat, in whatever order they act. In every state
  -- that they reach, all have ended or one of them can act, so that none waits for ever.
  pub chats_end :
      {log : List Entry} {s : State} (r : Run sprintf streams log s)
      → (steps r ≤ (notes_of_all streams + 6) * notes_of_all streams + length streams)
        × (((i : ℕ) (c : Chat) → get_elem? s.chats i ≡ some c → ended c.phase ≡ true)
            ⊎ Goes sprintf s)
  chats_end {log} {s} r = (
    omega (arith, Run-cost r, total-cost (notes_of_all streams) streams),
    chats_go_on sprintf exact streams log s r,
  )
