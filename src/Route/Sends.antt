-- ===== src/Route/Sends.antt =====
-- route_guide/server/server.go: the sends of one iteration of `RouteChat`.
use eth_research.Base.{
  ℕ, suc, ◌+◌, ◌≡◌, refl, ap, ◌∙◌, sym, inl, inr, List, [], ◌∷◌, ◌++◌, Bool, true, false, length,
  arith, Bool-cases,
}
use eth_research.Base.Text.{string_eq}
use eth_research.Route.{RouteNote}

-- The loop of `Send`, where each send works or not, from number `n` on.
unfoldable pub send_notes : (ℕ → Bool) → ℕ → List RouteNote → List RouteNote × Bool
send_notes works n [] = ([], true)
send_notes works n (note ∷ rest) = elim (works n) [
  | false ↦ ([], false)
  | true ↦ (note ∷ (send_notes works (suc n) rest).0, (send_notes works (suc n) rest).1)
]

module _ (works : ℕ → Bool) where
  send_step :
      (n : ℕ) (x : RouteNote) (xs : List RouteNote)
      → works n ≡ true
      → send_notes works n (x ∷ xs)
        ≡ (x ∷ (send_notes works (suc n) xs).0, (send_notes works (suc n) xs).1)
  unfolding send_notes
  send_step n x xs e = rw (send_notes, e) refl

  send_stop :
      (n : ℕ) (x : RouteNote) (xs : List RouteNote)
      → works n ≡ false
      → send_notes works n (x ∷ xs) ≡ ([], false)
  unfolding send_notes
  send_stop n x xs e = rw (send_notes, e) refl

  -- Where all of `xs` is sent, `ys` is sent after it.
  pub send_notes-all :
      (n : ℕ) (xs ys : List RouteNote)
      → (send_notes works n xs).1 ≡ true
      → send_notes works n (xs ++ ys) ≡ (
        (send_notes works n xs).0 ++ (send_notes works (n + length xs) ys).0,
        (send_notes works (n + length xs) ys).1,
      )
  unfolding send_notes
  send_notes-all n [] ys e = ap (λ m. send_notes works m ys) {x = n} {y = n + 0} (omega arith)
  send_notes-all n (x ∷ xs) ys e = elim (Bool-cases (works n)) [
    | inr fails ↦
        let no_end : (send_notes works n (x ∷ xs)).1 ≡ false =
          ap (λ (r : List RouteNote × Bool). r.1) (send_stop n x xs fails) in
        cc
    | inl sends ↦
        let first = send_step n x xs sends in
        let rest : (send_notes works (suc n) xs).1 ≡ true =
          ap (λ (r : List RouteNote × Bool). r.1) (sym first) ∙ e in
        let later = send_notes-all (suc n) xs ys rest in
        let there : suc n + length xs ≡ n + suc (length xs) = omega arith in
        send_step n x (xs ++ ys) sends
        ∙ ap (λ (r : List RouteNote × Bool). (x ∷ r.0, r.1)) later
        ∙ ap
            (λ (m : ℕ). (
              x ∷ ((send_notes works (suc n) xs).0 ++ (send_notes works m ys).0),
              (send_notes works m ys).1,
            ))
            there
        ∙ ap
            (λ (r : List RouteNote × Bool). (
              r.0 ++ (send_notes works (n + suc (length xs)) ys).0,
              (send_notes works (n + suc (length xs)) ys).1,
            ))
            (sym first)
  ]

  -- Where a send of `xs` fails, nothing of `ys` is sent.
  pub send_notes-part :
      (n : ℕ) (xs ys : List RouteNote)
      → (send_notes works n xs).1 ≡ false
      → send_notes works n (xs ++ ys) ≡ send_notes works n xs
  unfolding send_notes
  send_notes-part n [] ys e = cc
  send_notes-part n (x ∷ xs) ys e = elim (Bool-cases (works n)) [
    | inr fails ↦ send_stop n x (xs ++ ys) fails ∙ sym (send_stop n x xs fails)
    | inl sends ↦
        let first = send_step n x xs sends in
        let rest : (send_notes works (suc n) xs).1 ≡ false =
          ap (λ (r : List RouteNote × Bool). r.1) (sym first) ∙ e in
        send_step n x (xs ++ ys) sends
        ∙ ap (λ (r : List RouteNote × Bool). (x ∷ r.0, r.1)) (send_notes-part (suc n) xs ys rest)
        ∙ sym first
  ]
