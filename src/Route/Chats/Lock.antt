-- ===== src/Route/Chats/Lock.antt =====
-- route_guide/server/server.go: the chats that are between `Lock` and `Unlock`.
use eth_research.Base.{
  ℕ, zero, suc, ◌+◌, ◌≤◌, ◌≡◌, ◌≢◌, refl, ap, List, [], ◌∷◌, Bool, true, false, Option, some,
  get_elem?, set, map, arith,
}
use eth_research.Base.Text.{String}
use eth_research.Route.{Point, Ending}
use eth_research.Route.Chats.{
  Phase, reading, waiting, holding, appended, copied, sending, returned, cut_off, Chat, opened,
  Stored, Act, receive, finish, lock, append_note, copy_notes, unlock, send, send_fails, again,
}

-- 1 where a chat holds the lock.
abbrev pub holds : Phase → ℕ
holds (holding p m) = 1
holds (appended p m) = 1
holds (copied rn) = 1
holds reading = 0
holds (waiting p m) = 0
holds (sending rn) = 0
holds (returned b) = 0
holds cut_off = 0

unfoldable pub holders : List Chat → ℕ
holders [] = 0
holders (c ∷ cs) = holds c.phase + holders cs

abbrev pub as_number : Bool → ℕ
as_number true = 1
as_number false = 0

pub as_number-le : (b : Bool) → as_number b ≤ 1
as_number-le true = omega arith
as_number-le false = omega arith

pub holders-opened :
    (streams : List (List (Point × String) × Ending)) → holders (map opened streams) ≡ 0
unfolding holders
holders-opened [] = refl
holders-opened ((ns, e) ∷ rest) = omega (arith, holders-opened rest)

pub holders-set :
    (cs : List Chat) (i : ℕ) (c c' : Chat)
    → get_elem? cs i ≡ some c
    → holders (set cs i c') + holds c.phase ≡ holders cs + holds c'.phase
unfolding holders
holders-set [] i c c' e = cc
holders-set (d ∷ cs) zero c c' e =
    let is : holds d.phase ≡ holds c.phase = ground (arith, e) in omega (arith, is)
holders-set (d ∷ cs) (suc i) c c' e = omega (arith, holders-set cs i c c' e)

pub holds-le-holders :
    (cs : List Chat) (i : ℕ) (c : Chat) → get_elem? cs i ≡ some c → holds c.phase ≤ holders cs
unfolding holders
holds-le-holders [] i c e = cc
holds-le-holders (d ∷ cs) zero c e =
    let is : holds d.phase ≡ holds c.phase = ground (arith, e) in omega (arith, is)
holds-le-holders (d ∷ cs) (suc i) c e = omega (arith, holds-le-holders cs i c e)

pub two_holders :
    (cs : List Chat) (i j : ℕ) (c d : Chat)
    → get_elem? cs i ≡ some c
    → get_elem? cs j ≡ some d
    → i ≢ j
    → holds c.phase + holds d.phase ≤ holders cs
unfolding holders
two_holders [] i j c d e f ne = cc
two_holders (x ∷ cs) zero zero c d e f ne = absurd (ne refl)
two_holders (x ∷ cs) zero (suc j) c d e f ne =
    let is : holds x.phase ≡ holds c.phase = ground (arith, e) in
    omega (arith, is, holds-le-holders cs j d f)
two_holders (x ∷ cs) (suc i) zero c d e f ne =
    let is : holds x.phase ≡ holds d.phase = ground (arith, f) in
    omega (arith, is, holds-le-holders cs i c e)
two_holders (x ∷ cs) (suc i) (suc j) c d e f ne =
    omega (arith, two_holders cs i j c d e f (λ same. ne (ap suc same)))

-- An action changes the lock as it changes whether its chat holds it.
pub Act-holds :
    {sprintf : Point → String} {b b' : Bool} {notes notes' : Stored} {c c' : Chat}
    {e : Option (Point × String)}
    → Act sprintf b notes c e b' notes' c'
    → holds c.phase ≤ as_number b
    → as_number b' + holds c.phase ≡ as_number b + holds c'.phase
Act-holds receive h = omega arith
Act-holds finish h = omega arith
Act-holds lock h = omega arith
Act-holds append_note h = omega arith
Act-holds copy_notes h = omega arith
Act-holds {b = true} unlock h = omega arith
Act-holds {b = false} unlock h = absurd (omega (arith, h))
Act-holds send h = omega arith
Act-holds send_fails h = omega arith
Act-holds again h = omega arith
