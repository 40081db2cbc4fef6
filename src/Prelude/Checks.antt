-- ===== src/Prelude/Checks.antt =====
-- Tests in the order in which the code makes them, each with the error that it returns.
use mathlib.Core.Path.{◌≡◌, refl}
use mathlib.Core.Bool.{Bool, true, false}
use mathlib.Core.List.{List, [], ◌∷◌}
use mathlib.Core.Option.{Option, none, some}
use formation_flight.Prelude.Tests.{if◌then◌else◌}

module _ {ℓ} {E : Type ℓ} where
  abbrev pub first_error : List (Bool × E) → Option E
  first_error [] = none
  first_error ((wrong, e) ∷ checks) = if wrong then some e else first_error checks

  -- No test applies.
  abbrev pub AllPass : List (Bool × E) → Type 0
  AllPass [] = Unit
  AllPass ((wrong, e) ∷ checks) = (wrong ≡ false) × AllPass checks

  pub AllPass-first_error : (checks : List (Bool × E)) → first_error checks ≡ none → AllPass checks
  AllPass-first_error [] h = tt
  AllPass-first_error ((true, e) ∷ checks) h = cc
  AllPass-first_error ((false, e) ∷ checks) h = (refl, AllPass-first_error checks h)

  pub first_error-AllPass : (checks : List (Bool × E)) → AllPass checks → first_error checks ≡ none
  first_error-AllPass [] h = refl
  first_error-AllPass ((true, e) ∷ checks) h = cc (h.0)
  first_error-AllPass ((false, e) ∷ checks) h = first_error-AllPass checks h.1
