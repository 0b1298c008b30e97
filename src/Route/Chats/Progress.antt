-- ===== src/Route/Chats/Progress.antt =====
-- route_guide/server/server.go: which of the chats at once can act.
use eth_research.Base.{
  ℕ, zero, suc, ◌<◌, ◌≡◌, refl, ap, ◌∙◌, inl, inr, ◌⊎◌, List, [], ◌∷◌, Bool, true, false, Option,
  none, some, get_elem?, arith, Bool-cases,
}
use eth_research.Base.Text.{String, string_eq}
use eth_research.Route.{Point, RouteNote, Ending}
use eth_research.Route.Chats.{
  Phase, reading, waiting, holding, appended, copied, sending, returned, cut_off, Chat, Stored, Act,
  receive, finish, lock, append_note, copy_notes, unlock, send, again, State, Entry, Run,
}
use eth_research.Route.Chats.Lock.{holds, holders, as_number}
use eth_research.Route.Chats.Invariant.{Run-Inv}

-- `RouteChat` has ended.
abbrev pub ended : Phase → Bool
ended (returned b) = true
ended cut_off = true
ended reading = false
ended (waiting p m) = false
ended (holding p m) = false
ended (appended p m) = false
ended (copied rn) = false
ended (sending rn) = false

-- A chat that can act.
pub data Goes (sprintf : Point → String) (s : State) : Type 0 where
  goes :
      (i : ℕ) {c c' : Chat} {e : Option (Point × String)} {b : Bool} {notes : Stored}
      → get_elem? s.chats i ≡ some c
      → Act sprintf s.locked s.notes c e b notes c'
      → Goes sprintf s

module _ (sprintf : Point → String) (b : Bool) (notes : Stored) where
  Acts : Chat → Type 0
  Acts c =
      (e : Option (Point × String)) × ((b' : Bool) × ((notes' : Stored) × ((c' : Chat) × Act sprintf
              b notes c e b' notes' c')))

  acts :
      (l : List (Point × String)) (e : Ending) (phase : Phase) (o : List RouteNote)
      → ended phase ≡ false
      → (b ≡ false) ⊎ (holds phase ≡ 1)
      → Acts (record { left = l; ending = e; phase = phase; sent = o })
  unfolding Acts
  acts [] e reading o on free = (_, (_, (_, (_, finish))))
  acts ((p, m) ∷ l) e reading o on free = (_, (_, (_, (_, receive))))
  acts l e (waiting p m) o on (inl free) = (
    none,
    (true, (notes, (record { left = l; ending = e; phase = holding p m; sent = o }, rw free lock))),
  )
  acts l e (waiting p m) o on (inr holder) = absurd (omega (arith, holder))
  acts l e (holding p m) o on free = (_, (_, (_, (_, append_note))))
  acts l e (appended p m) o on free = (_, (_, (_, (_, copy_notes))))
  acts l e (copied rn) o on free = (_, (_, (_, (_, unlock))))
  acts l e (sending []) o on free = (_, (_, (_, (_, again))))
  acts l e (sending (n ∷ rn)) o on free = (_, (_, (_, (_, send))))
  acts l e (returned b) o on free = cc
  acts l e cut_off o on free = cc

holds_cases : (phase : Phase) → (holds phase ≡ 0) ⊎ (holds phase ≡ 1)
holds_cases reading = inl refl
holds_cases (waiting p m) = inl refl
holds_cases (holding p m) = inr refl
holds_cases (appended p m) = inr refl
holds_cases (copied rn) = inr refl
holds_cases (sending rn) = inl refl
holds_cases (returned b) = inl refl
holds_cases cut_off = inl refl

held-ended : (phase : Phase) → holds phase ≡ 1 → ended phase ≡ false
held-ended reading h = absurd (omega (arith, h))
held-ended (waiting p m) h = refl
held-ended (holding p m) h = refl
held-ended (appended p m) h = refl
held-ended (copied rn) h = refl
held-ended (sending rn) h = refl
held-ended (returned b) h = absurd (omega (arith, h))
held-ended cut_off h = absurd (omega (arith, h))

holder_of :
    (cs : List Chat)
    → 0 < holders cs
    → (i : ℕ) × (c : Chat) × (get_elem? cs i ≡ some c) × (holds c.phase ≡ 1)
unfolding holders
holder_of [] h = absurd (omega (arith, h))
holder_of (c ∷ cs) h = elim (holds_cases c.phase) [
  | inr holder ↦ (0, c, refl, holder)
  | inl free ↦
      let (i, d, at, holder) = holder_of cs (omega (arith, h, free)) in (suc i, d, at, holder)
]

AllEnded : List Chat → Type 0
AllEnded cs = (i : ℕ) (c : Chat) → get_elem? cs i ≡ some c → ended c.phase ≡ true

all_ended : (c : Chat) (cs : List Chat) → ended c.phase ≡ true → AllEnded cs → AllEnded (c ∷ cs)
unfolding AllEnded
all_ended c cs over all zero d e =
    let is : ended d.phase ≡ ended c.phase = ground (arith, e) in is ∙ over
all_ended c cs over all (suc i) d e = all i d e

running_of :
    (cs : List Chat)
    → AllEnded cs ⊎ ((i : ℕ) × (c : Chat) × (get_elem? cs i ≡ some c) × (ended c.phase ≡ false))
unfolding AllEnded
running_of [] = inl (λ i c e. cc)
running_of (c ∷ cs) = elim (Bool-cases (ended c.phase)) [
  | inr on ↦ inr (0, c, refl, on)
  | inl over ↦ elim (running_of cs) [
    | inl all ↦ inl (all_ended c cs over all)
    | inr (i, d, at, on) ↦ inr (suc i, d, at, on)
  ]
]

module _ (sprintf : Point → String) (exact : (p q : Point) → sprintf p ≡ sprintf q → p ≡ q)
    (streams : List (List (Point × String) × Ending)) (log : List Entry) (s : State) where
  -- Where all have not ended, one can act: it holds the lock, or the lock is free.
  pub chats_go_on :
      Run sprintf streams log s
      → ((i : ℕ) (c : Chat) → get_elem? s.chats i ≡ some c → ended c.phase ≡ true) ⊎ Goes sprintf s
  unfolding AllEnded Acts
  chats_go_on r =
      let inv = Run-Inv sprintf exact streams r in
      elim (running_of s.chats) [
        | inl all ↦ inl all
        | inr (i, c, at, on) ↦ elim (Bool-cases s.locked) [
          | inr free ↦
              let (e, (b, (notes, (c', act)))) =
                acts sprintf s.locked s.notes c.left c.ending c.phase c.sent on (inl free) in
              inr (goes i at act)
          | inl taken ↦
              let one : as_number s.locked ≡ 1 = ap as_number taken in
              let (j, d, there, holder) = holder_of s.chats (omega (arith, one, inv.mutex)) in
              let (e, (b, (notes, (c', act)))) =
                acts sprintf s.locked s.notes d.left d.ending d.phase d.sent
                  (held-ended d.phase holder) (inr holder) in
              inr (goes j there act)
        ]
      ]
