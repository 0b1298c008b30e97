-- ===== src/Route/Examples.antt =====
-- Runs of the route guide's server on small inputs.
use mathlib.Core.Path.{ap₂}
use Prim.Native.Char.{Char, code}
use text.Mathlib.TextLemmas.{head-eq_of_cons-eq, tail-eq_of_cons-eq}
use eth_research.Base.{
  ◌++◌, take, ℕ, zero, suc, ◌+◌, ◌≡◌, refl, sym, ap, List, [], ◌∷◌, Option, none, some, ltb, arith,
  done,
}
use eth_research.Base.Dict.{Dict, lookup}
use eth_research.Base.Text.{String, string_eq}
use eth_research.Route.{Point, Feature, RouteNote, end_of_file, in_corners}
use eth_research.Route.Listing.{within, IsLocated}
use eth_research.Route.Sends.{send_notes}
use eth_research.Route.Stream.{route_chat, flatten, received, route_chat_lem}
use eth_research.Route.Chat.{IsLog, notes_at, notes_of, answers}

abbrev pub point_at : ℕ → ℕ → Point
point_at x y = record { latitude = x; longitude = y }

abbrev pub saved : List Feature
saved =
    record { name = "mill"; location = some (point_at 3 4) }
    ∷ record { name = "inn"; location = some (point_at 9 9) }
    ∷ []

abbrev place : Option Feature → Option Point
place none = none
place (some f) = f.location

pub saved-IsLocated : IsLocated saved
saved-IsLocated zero f e = (point_at 3 4, ap (λ (o : Option Feature). place o) (sym e))
saved-IsLocated (suc zero) f e = (point_at 9 9, ap (λ (o : Option Feature). place o) (sym e))
saved-IsLocated (suc (suc i)) f e = cc

-- The number of steps between two points, east or north only.
abbrev pub steps : Point → Point → ℕ
steps p q = p.latitude + q.longitude

mill_only :
    within (point_at 0 5) (point_at 5 0) saved
    ≡ (record { name = "mill"; location = some (point_at 3 4) } ∷ [])
unfolding within in_corners
mill_only = refl

abbrev route : List Point
route = point_at 3 4 ∷ point_at 9 9 ∷ point_at 9 9 ∷ []

abbrev letter_a : Char
letter_a = "a"

abbrev letter_b : Char
letter_b = "b"

-- A text for each point: its numbers in strokes.
unfoldable strokes : ℕ → String → String
strokes zero s = String.◌∷◌ letter_b s
strokes (suc n) s = String.◌∷◌ letter_a (strokes n s)

strokes_exact : (n m : ℕ) (s t : String) → strokes n s ≡ strokes m t → (n ≡ m) × (s ≡ t)
unfolding strokes
strokes_exact zero zero s t e = (refl, tail-eq_of_cons-eq e)
strokes_exact zero (suc m) s t e =
    let differ : code letter_b ≡ code letter_a = ap code (head-eq_of_cons-eq e) in
    absurd (omega (arith, differ))
strokes_exact (suc n) zero s t e =
    let differ : code letter_a ≡ code letter_b = ap code (head-eq_of_cons-eq e) in
    absurd (omega (arith, differ))
strokes_exact (suc n) (suc m) s t e =
    let (same, rest) = strokes_exact n m s t (tail-eq_of_cons-eq e) in (ap suc same, rest)

unfoldable pub print_point : Point → String
unfolding strokes
print_point p = strokes p.latitude (strokes p.longitude "")

pub print_point_exact : (p q : Point) → print_point p ≡ print_point q → p ≡ q
unfolding print_point
print_point_exact p q e =
    let (lat, rest) =
      strokes_exact p.latitude q.latitude (strokes p.longitude "") (strokes q.longitude "") e in
    let (long, same) = strokes_exact p.longitude q.longitude "" "" rest in
    ap₂ (λ (x y : ℕ). record { latitude = x; longitude = y }) lat long

abbrev chat : List (Point × String)
chat = (point_at 1 2, "first") ∷ (point_at 2 2, "second") ∷ (point_at 1 2, "third") ∷ []

-- A chat of two notes at one point, whose third send fails.
abbrev two_notes : List (Point × String)
two_notes = (point_at 1 1, "a") ∷ (point_at 1 1, "b") ∷ []

route_chat_lem_example :
    (notes' : Dict String (List RouteNote)) × ((m : ℕ) × (route_chat print_point
          (λ n. ltb n 2)
          0
          []
          (notes_of two_notes)
          end_of_file
        ≡ done (
          received (send_notes (λ n. ltb n 2) 0 (flatten (answers [] two_notes))) end_of_file,
          notes',
        ))
      × IsLog print_point print_point_exact notes' ([] ++ notes_of (take m two_notes)))
unfolding lookup notes_at
route_chat_lem_example =
    route_chat_lem print_point print_point_exact (λ n. ltb n 2) 0 [] [] two_notes end_of_file
      (λ p. refl)
