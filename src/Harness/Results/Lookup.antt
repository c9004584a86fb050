-- ===== src/Harness/Results/Lookup.antt =====
-- The dictionary `tests`: what an assignment changes, and what it leaves.
use text.Mathlib.Text.{◌==◌}
use text.Mathlib.TextEquality.{eq_iff}
use text.Mathlib.TextPositions.{eq_refl}
use server_client_app.Base.{
  String, ◌≡◌, ◌≢◌, refl, ap, some, none, List, [], ◌∷◌, map, arith, Bool-cases, inl, inr,
}
use server_client_app.Harness.Suite.{Dict}
use server_client_app.Harness.Results.{lookup, assign}

pub lookup-assign_self : (k v : String) (d : Dict) → lookup k (assign k v d) ≡ some v
unfolding lookup assign
lookup-assign_self k v [] = rw eq_refl
lookup-assign_self k v ((j, w) ∷ d) = ground (arith, lookup-assign_self k v d, eq_iff j k)

pub lookup-assign_ne : (k j v : String) (d : Dict) → k ≢ j → lookup k (assign j v d) ≡ lookup k d
unfolding lookup assign
lookup-assign_ne k j v [] h = ground (arith, eq_iff j k)
lookup-assign_ne k j v ((i, w) ∷ d) h =
    ground (arith, lookup-assign_ne k j v d h, eq_iff i j, eq_iff i k, eq_iff j k)

abbrev pub keys : Dict → List String
keys = map (λ (k, v). k)

abbrev pub HasKey : String → Dict → Type 0
HasKey k d = lookup k d ≢ none

-- Assigning to a key that is there keeps the keys and their order.
pub keys-assign : (k v : String) (d : Dict) → HasKey k d → keys (assign k v d) ≡ keys d
unfolding lookup assign
keys-assign k v [] h = absurd (h refl)
keys-assign k v ((j, w) ∷ d) h = elim (Bool-cases (j == k)) [
  | inl e ↦ rw e refl
  | inr e ↦ rw e (ap (λ (t : List String). j ∷ t) (keys-assign k v d (λ p. h (rw e p))))
]

-- The later of two assignments to a key stays.
pub assign-assign : (k v w : String) (d : Dict) → assign k w (assign k v d) ≡ assign k w d
unfolding assign
assign-assign k v w [] = rw eq_refl
assign-assign k v w ((j, u) ∷ d) = ground (arith, assign-assign k v w d)
