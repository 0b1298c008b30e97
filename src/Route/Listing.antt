-- ===== src/Route/Listing.antt =====
-- route_guide/server/server.go: which features `GetFeature` and `ListFeatures` answer with.
use eth_research.Base.{
  ℕ, suc, ◌≡◌, refl, sym, ap, inl, inr, ◌⊎◌, List, [], ◌∷◌, Bool, true, false, ◌||◌, none, some,
  get_elem?, arith, Bool-cases, done,
}
use eth_research.Route.{
  Point, Rectangle, Feature, is_at, get_feature, in_corners, in_range, list_features,
}

-- The feature that stands for a point that no feature is at.
abbrev pub unnamed : Point → Feature
unnamed point = record { name = ""; location = some point }

-- Whether a feature of a list is at a point.
unfoldable pub any_at : List Feature → Point → Bool
any_at [] point = false
any_at (f ∷ fs) point = is_at f.location point || any_at fs point

-- `GetFeature` answers with a feature at the point: one that is saved, or the unnamed one, and
-- this only where no saved feature is there.
pub get_feature_lem :
    (features : List Feature) (point : Point)
    → (is_at (get_feature features point).location point ≡ true)
      × (((i : ℕ) × (get_elem? features i ≡ some (get_feature features point)))
          ⊎ ((get_feature features point ≡ unnamed point) × (any_at features point ≡ false)))
unfolding get_feature any_at
get_feature_lem [] point = (ground arith, inr (refl, refl))
get_feature_lem (f ∷ fs) point = elim (Bool-cases (is_at f.location point)) [
  | inl here ↦ (rw here here, inl (0, rw here refl))
  | inr other ↦
      let (at, found) = get_feature_lem fs point in
      (
        rw other at,
        elim found [
          | inl (i, saved) ↦ inl (suc i, rw other saved)
          | inr (new, nowhere) ↦ inr (rw other new, rw other nowhere)
        ],
      )
]

-- The features inside of two corners, where every feature has a location.
unfoldable pub within : Point → Point → List Feature → List Feature
within lo hi [] = []
within lo hi (f ∷ fs) = elim f.location [
  | none ↦ within lo hi fs
  | some p ↦ elim (in_corners p lo hi) [ true ↦ f ∷ within lo hi fs | false ↦ within lo hi fs ]
]

-- What is sent of a list when each send works or not, and whether all of it is.
unfoldable pub send_all : (ℕ → Bool) → ℕ → List Feature → List Feature × Bool
send_all works n [] = ([], true)
send_all works n (f ∷ fs) = elim (works n) [
  | false ↦ ([], false)
  | true ↦ (f ∷ (send_all works (suc n) fs).0, (send_all works (suc n) fs).1)
]

send_more :
    (f : Feature) (fs : List Feature) (works : ℕ → Bool) (n : ℕ)
    → works n ≡ true
    → send_all works n (f ∷ fs) ≡ (f ∷ (send_all works (suc n) fs).0, (send_all works (suc n) fs).1)
unfolding send_all
send_more f fs works n e = rw (send_all, e) refl

send_none :
    (f : Feature) (fs : List Feature) (works : ℕ → Bool) (n : ℕ)
    → works n ≡ false
    → send_all works n (f ∷ fs) ≡ ([], false)
unfolding send_all
send_none f fs works n e = rw (send_all, e) refl

abbrev pub IsLocated : List Feature → Type 0
IsLocated features =
    (i : ℕ) (f : Feature) → get_elem? features i ≡ some f → (p : Point) × (f.location ≡ some p)

abbrev corners : Point → Point → Rectangle
corners lo hi = record { lo = some lo; hi = some hi }

-- Where all saved features have locations and the rectangle has both corners, `ListFeatures` does not
-- panic, and sends the features inside of the corners in their order, up to a send that fails.
pub list_features_lem :
    (features : List Feature) (lo hi : Point) (works : ℕ → Bool) (n : ℕ)
    → IsLocated features
    → list_features (record { lo = some lo; hi = some hi }) works n features
      ≡ done (send_all works n (within lo hi features))
unfolding list_features within send_all in_range
list_features_lem [] lo hi works n located = refl
list_features_lem (f ∷ fs) lo hi works n located =
    let (p, is) = located 0 f refl in
    let rest = λ (m : ℕ). list_features_lem fs lo hi works m (λ i g e. located (suc i) g e) in
    elim (Bool-cases (in_corners p lo hi)) [
      | inr out ↦ rw (is, out) (rest n)
      | inl inside ↦ elim (Bool-cases (works n)) [
        | inr fails ↦
            rw (is, inside, fails) (ap done (sym (send_none f (within lo hi fs) works n fails)))
        | inl sends ↦
            rw (is, inside, sends, rest (suc n))
              (ap done (sym (send_more f (within lo hi fs) works n sends)))
      ]
    ]

-- Exchanging the two corners, or only their longitudes, changes no answer of `inRange`.
pub in_range_swap :
    (point lo hi : Point)
    → (in_range (some point) (record { lo = some hi; hi = some lo })
        ≡ in_range (some point) (record { lo = some lo; hi = some hi }))
      × (in_range (some point) (record {
        lo = some (record { latitude = lo.latitude; longitude = hi.longitude });
        hi = some (record { latitude = hi.latitude; longitude = lo.longitude });
      })
          ≡ in_range (some point) (record { lo = some lo; hi = some hi }))
unfolding in_range in_corners
in_range_swap point lo hi = (ground arith, ground arith)
