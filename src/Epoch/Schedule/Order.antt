-- ===== src/Epoch/Schedule/Order.antt =====
-- epoch-extractor/main.go: the order and the slots of the logged schedule.
use eth_research.Base.{
  ℕ, ◌≤◌, ◌≡◌, refl, ap, inl, inr, List, [], ◌∷◌, leb, All, arith, Bool-cases, map,
}
use eth_research.Base.Dict.{nat_eq, keys}
use eth_research.Epoch.Assignments.{Proposers}
use eth_research.Epoch.Schedule.{
  int_rank, insert_sorted, sort_ints, Entry, schedule_entries, log_proposer_schedule,
}
use mathlib.Core.List.{Perm}
use mathlib.Core.List.Perm

-- In the order of `int(k)`, each at most the next.
abbrev pub IsSorted : List ℕ → Type 0
IsSorted [] = Unit
IsSorted (x ∷ xs) = All (λ y. int_rank x ≤ int_rank y) xs × IsSorted xs

All-weaken :
    (a b : ℕ) (xs : List ℕ) → a ≤ b → All (λ y. b ≤ int_rank y) xs → All (λ y. a ≤ int_rank y) xs
All-weaken a b [] h p = tt
All-weaken a b (x ∷ xs) h p = (omega (arith, p.0), All-weaken a b xs h p.1)

All-insert_sorted :
    (a k : ℕ) (xs : List ℕ)
    → a ≤ int_rank k
    → All (λ y. a ≤ int_rank y) xs
    → All (λ y. a ≤ int_rank y) (insert_sorted k xs)
unfolding insert_sorted
All-insert_sorted a k [] h p = (h, tt)
All-insert_sorted a k (x ∷ xs) h p = elim (Bool-cases (leb (int_rank k) (int_rank x))) [
  | inl first ↦ rw first (h, p)
  | inr later ↦ rw later (p.0, All-insert_sorted a k xs h p.1)
]

insert_sorted-IsSorted : (k : ℕ) (xs : List ℕ) → IsSorted xs → IsSorted (insert_sorted k xs)
unfolding insert_sorted
insert_sorted-IsSorted k [] s = (tt, tt)
insert_sorted-IsSorted k (x ∷ xs) s = elim (Bool-cases (leb (int_rank k) (int_rank x))) [
  | inl first ↦
      let le : int_rank k ≤ int_rank x = ground arith in
      rw first ((le, All-weaken (int_rank k) (int_rank x) xs le s.0), s)
  | inr later ↦
      let le : int_rank x ≤ int_rank k = ground arith in
      rw later (All-insert_sorted (int_rank x) k xs le s.0, insert_sorted-IsSorted k xs s.1)
]

sort_ints-IsSorted : (xs : List ℕ) → IsSorted (sort_ints xs)
unfolding sort_ints
sort_ints-IsSorted [] = tt
sort_ints-IsSorted (x ∷ xs) = insert_sorted-IsSorted x (sort_ints xs) (sort_ints-IsSorted xs)

insert_sorted-perm : (k : ℕ) (xs : List ℕ) → Perm (insert_sorted k xs) (k ∷ xs)
unfolding insert_sorted
insert_sorted-perm k [] = Perm.refl (k ∷ [])
insert_sorted-perm k (x ∷ xs) = elim (Bool-cases (leb (int_rank k) (int_rank x))) [
  | inl first ↦ rw first (Perm.refl (k ∷ x ∷ xs))
  | inr later ↦ rw later (Perm.trans (Perm.cons x (insert_sorted-perm k xs)) (Perm.swap k x xs))
]

sort_ints-perm : (xs : List ℕ) → Perm (sort_ints xs) xs
unfolding sort_ints
sort_ints-perm [] = Perm.refl []
sort_ints-perm (x ∷ xs) =
    Perm.trans (insert_sorted-perm x (sort_ints xs)) (Perm.cons x (sort_ints-perm xs))

slots-schedule_entries :
    (epoch : ℕ) (p : Proposers) (slots : List ℕ)
    → map (λ (e : Entry). e.slot) (schedule_entries epoch p slots) ≡ slots
unfolding schedule_entries
slots-schedule_entries epoch p [] = refl
slots-schedule_entries epoch p (s ∷ slots) = ap (λ r. s ∷ r) (slots-schedule_entries epoch p slots)

-- The logged schedule has one line for each slot of the map, as often as the map has it, in the
-- order of the slots as Go's `int`.
pub log_proposer_schedule_slots :
    (epoch : ℕ) (p : Proposers)
    → IsSorted (map (λ (e : Entry). e.slot) (log_proposer_schedule epoch p))
      × Perm (map (λ (e : Entry). e.slot) (log_proposer_schedule epoch p)) (keys p.slot_to_index)
unfolding log_proposer_schedule
log_proposer_schedule_slots epoch p =
    rw slots-schedule_entries
      (sort_ints-IsSorted (keys p.slot_to_index), sort_ints-perm (keys p.slot_to_index))
