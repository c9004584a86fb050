-- ===== src/Harness/Effects/Tidy.antt =====
-- The shape of `tests` that every run of the script keeps: the script's own tests, in their order,
-- each with one of the four statuses.
use text.Mathlib.Text.{◌==◌}
use server_client_app.Base.{
  String, ◌≡◌, refl, ◌∙◌, ap, inl, inr, Bool, true, false, List, [], ◌∷◌, All, if◌then◌else◌,
  Bool-cases, Result, ok, raised,
}
use server_client_app.Harness.Suite.{Dict, Suite, Run, onward, ◌>>=◌}
use server_client_app.Harness.Results.{assign, initial_tests}
use server_client_app.Harness.Results.Lookup.{keys}
use server_client_app.Harness.Effects.{Quiet}
use server_client_app.Harness.Effects.Judges.{Verdict}

pub data Status : String → Type 0 where
  not_executed : {v : String} → v ≡ "not executed" → Status v
  skipped : {v : String} → v ≡ "skipped" → Status v
  failed : {v : String} → v ≡ "failed" → Status v
  passed : {v : String} → v ≡ "passed" → Status v

pub record Tidy (d : Dict) : Type 0 where
  pub names : keys d ≡ keys initial_tests
  pub statuses : All (λ (k, v). Status v) d

-- What an assignment does to the keys.
unfoldable pub insert_key : String → List String → List String
insert_key k [] = k ∷ []
insert_key k (j ∷ js) = if j == k then j ∷ js else j ∷ insert_key k js

keys-assign : (k v : String) (d : Dict) → keys (assign k v d) ≡ insert_key k (keys d)
unfolding assign insert_key
keys-assign k v [] = refl
keys-assign k v ((j, w) ∷ d) = elim (Bool-cases (j == k)) [
  | inl e ↦ rw e refl
  | inr e ↦ rw e (ap (λ (t : List String). j ∷ t) (keys-assign k v d))
]

abbrev pub IsTest : String → Type 0
IsTest x = insert_key x (keys initial_tests) ≡ keys initial_tests

statuses-assign :
    (k v : String) (d : Dict)
    → Status v
    → All (λ (k, v). Status v) d
    → All (λ (k, v). Status v) (assign k v d)
unfolding assign
statuses-assign k v [] h a = (h, tt)
statuses-assign k v ((j, w) ∷ d) h a = elim (Bool-cases (j == k)) [
  | inl e ↦ rw e (h, a.1)
  | inr e ↦ rw e (a.0, statuses-assign k v d h a.1)
]

pub Tidy-assign : (k v : String) (d : Dict) → IsTest k → Status v → Tidy d → Tidy (assign k v d)
Tidy-assign k v d t h a = record {
  names = keys-assign k v d ∙ ap (insert_key k) a.names ∙ t;
  statuses = statuses-assign k v d h a.statuses;
}

pub record KeepsTidy {A : Type 0} (m : Run A) : Type 0 where
  pub at : (s : Suite) → Tidy s.tests → Tidy (m s).1.tests

module _ {A : Type 0} where
  pub KeepsTidy-Quiet : (m : Run A) → Quiet m → KeepsTidy m
  KeepsTidy-Quiet m q = record { at = λ s h. rw (q.at s) h }

  pub KeepsTidy-if :
      (b : Bool) (m n : Run A) → KeepsTidy m → KeepsTidy n → KeepsTidy (if b then m else n)
  KeepsTidy-if true m n p q = p
  KeepsTidy-if false m n p q = q

  pub KeepsTidy-Verdict : {x : String} (m : Run A) → IsTest x → Verdict x m → KeepsTidy m
  KeepsTidy-Verdict {x} m t v = record {
    at = λ s h. elim (v.at s) [
      | inl e ↦ rw e (Tidy-assign x "failed" s.tests t (failed refl) h)
      | inr (e, _) ↦ rw e (Tidy-assign x "passed" s.tests t (passed refl) h)
    ];
  }

KeepsTidy-onward :
    {A B : Type 0} (r : Result A) (f : A → Run B)
    → ((a : A) → KeepsTidy (f a))
    → KeepsTidy (onward r f)
KeepsTidy-onward (ok a) f q = q a
KeepsTidy-onward (raised e) f q = record { at = λ s h. h }

pub KeepsTidy-bind :
    {A B : Type 0} (m : Run A) (f : A → Run B)
    → KeepsTidy m
    → ((a : A) → KeepsTidy (f a))
    → KeepsTidy (m >>= f)
unfolding ◌>>=◌
KeepsTidy-bind m f p q = record { at = λ s h. (KeepsTidy-onward (m s).0 f q).at (m s).1 (p.at s h) }

pub ruleset tidy_rules = (KeepsTidy-bind, KeepsTidy-if, KeepsTidy-Quiet)

idle : Status "not executed"
idle = not_executed refl

-- The dictionary that the script starts from.
pub initial-Tidy : Tidy initial_tests
initial-Tidy = record {
  names = refl;
  statuses = (
    idle,
    (
      idle,
      (
        idle,
        (
          idle,
          (
            idle,
            (
              idle,
              (
                idle,
                (
                  idle,
                  (
                    idle,
                    (
                      idle,
                      (
                        idle,
                        (idle, (skipped refl, (idle, (idle, (idle, (idle, (idle, (idle, tt)))))))),
                      ),
                    ),
                  ),
                ),
              ),
            ),
          ),
        ),
      ),
    ),
  );
}
