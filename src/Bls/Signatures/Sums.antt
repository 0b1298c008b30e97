-- ===== src/Bls/Signatures/Sums.antt =====
-- bls/herumi/signature.go: aggregation of signatures, over the addition of points.
use eth_research.Base.{◌≡◌, refl, ap, ◌∙◌, List, [], ◌∷◌, ◌++◌, Option, none, some}
use eth_research.Bls.Herumi.{Herumi}
use eth_research.Bls.Signatures.{add_signs, aggregate_signatures}

module _ (h : Herumi)
    (assoc : (a b c : h.Sign) → h.add_sign (h.add_sign a b) c ≡ h.add_sign a (h.add_sign b c)) where
  open h use {Sign, add_sign}

  add_signs-add :
      (sigs : List Sign) (a b : Sign)
      → add_signs h (add_sign a b) sigs ≡ add_sign a (add_signs h b sigs)
  unfolding add_signs
  add_signs-add [] a b = refl
  add_signs-add (s ∷ sigs) a b = rw (assoc a b s) (add_signs-add sigs a (add_sign b s))

  add_signs-append :
      (sigs rest : List Sign) (a : Sign)
      → add_signs h a (sigs ++ rest) ≡ add_signs h (add_signs h a sigs) rest
  unfolding add_signs
  add_signs-append [] rest a = refl
  add_signs-append (s ∷ sigs) rest a = add_signs-append sigs rest (add_sign a s)

  -- The sum of two optional signatures: nil adds nothing.
  unfoldable pub add_option : Option Sign → Option Sign → Option Sign
  add_option none t = t
  add_option (some s) none = some s
  add_option (some s) (some t) = some (add_sign s t)

  -- Where the addition of points is associative, the aggregate of a list of signatures is that of
  -- the aggregates of any two parts of it, nil standing for the aggregate of none.
  pub aggregate_signatures-append :
      (sigs rest : List Sign)
      → aggregate_signatures h (sigs ++ rest)
        ≡ add_option (aggregate_signatures h sigs) (aggregate_signatures h rest)
  unfolding aggregate_signatures add_option add_signs
  aggregate_signatures-append [] rest = refl
  aggregate_signatures-append (s ∷ sigs) [] = ap some (add_signs-append sigs [] s)
  aggregate_signatures-append (s ∷ sigs) (t ∷ rest) =
      ap some (add_signs-append sigs (t ∷ rest) s ∙ add_signs-add rest (add_signs h s sigs) t)
