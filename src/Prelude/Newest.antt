-- ===== src/Prelude/Newest.antt =====
-- A ring of entries, read from the newest on.
use native.Mathlib.Decide.{dec_lt}
use formation_flight.Prelude.{
  ℕ, zero, suc, ◌+◌, ◌<◌, ◌≤◌, ◌≡◌, ◌≢◌, refl, sym, ap, ap₂, ◌∙◌, List, [], ◌∷◌, set, get_or,
  length, take, ltb, if◌then◌else◌, arith,
}

module _ {ℓ} {A : Type ℓ} where
  pub get_or-set :
      (xs : List A) (i : ℕ) (e blank : A) → i < length xs → get_or (set xs i e) i blank ≡ e
  get_or-set [] i e blank h = absurd (omega arith)
  get_or-set (x ∷ xs) zero e blank h = refl
  get_or-set (x ∷ xs) (suc i) e blank h = get_or-set xs i e blank (omega arith)

  pub get_or-set_ne :
      (xs : List A) (i j : ℕ) (e blank : A)
      → i ≢ j
      → get_or (set xs i e) j blank ≡ get_or xs j blank
  get_or-set_ne [] i j e blank h = refl
  get_or-set_ne (x ∷ xs) zero zero e blank h = absurd (h refl)
  get_or-set_ne (x ∷ xs) zero (suc j) e blank h = refl
  get_or-set_ne (x ∷ xs) (suc i) zero e blank h = refl
  get_or-set_ne (x ∷ xs) (suc i) (suc j) e blank h = get_or-set_ne xs i j e blank (omega arith)

  -- What a reader sees from index `i` on, `n` entries.
  abbrev pub entries_from : (ℕ → A) → ℕ → ℕ → List A
  entries_from at i zero = []
  entries_from at i (suc n) = at i ∷ entries_from at (i + 1) n

  entries_from-shift :
      (before after : ℕ → A) (limit i n : ℕ)
      → ((k : ℕ) → k < limit → after (k + 1) ≡ before k)
      → i + n ≤ limit
      → entries_from after (i + 1) n ≡ entries_from before i n
  entries_from-shift before after limit i zero older h = refl
  entries_from-shift before after limit i (suc n) older h =
      ap₂ ◌∷◌ (older i (omega arith))
        (entries_from-shift before after limit (i + 1) n older (omega arith))

  take-entries_from :
      (at : ℕ → A) (k i n : ℕ) → k ≤ n → take k (entries_from at i n) ≡ entries_from at i k
  take-entries_from at zero i n h = refl
  take-entries_from at (suc k) i zero h = absurd (omega arith)
  take-entries_from at (suc k) i (suc n) h =
      ap (λ t. at i ∷ t) (take-entries_from at k (i + 1) n (omega arith))

  take-entries_from_all :
      (at : ℕ → A) (k i n : ℕ) → n ≤ k → take k (entries_from at i n) ≡ entries_from at i n
  take-entries_from_all at zero i zero h = refl
  take-entries_from_all at zero i (suc n) h = absurd (omega arith)
  take-entries_from_all at (suc k) i zero h = refl
  take-entries_from_all at (suc k) i (suc n) h =
      ap (λ t. at i ∷ t) (take-entries_from_all at k (i + 1) n (omega arith))

  -- A ring of `suc limit` entries in which `e` is the newest and every other entry has moved on.
  pub entries_from-newest :
      (before after : ℕ → A) (limit count : ℕ) (e : A)
      → after 0 ≡ e
      → ((k : ℕ) → k < limit → after (k + 1) ≡ before k)
      → count ≤ suc limit
      → entries_from after 0 (if ltb count (suc limit) then count + 1 else count)
        ≡ take (suc limit) (e ∷ entries_from before 0 count)
  entries_from-newest before after limit count e newest older h = elim (dec_lt count (suc limit)) [
    | yes less ↦
        ap (λ n. entries_from after 0 n) (grows less)
        ∙ ap₂ ◌∷◌ newest (
            entries_from-shift before after limit 0 count older (omega arith)
            ∙ sym (take-entries_from_all before limit 0 count (omega arith)))
    | no full ↦
        ap (λ n. entries_from after 0 n) (stays full)
        ∙ ap₂ ◌∷◌ newest (
            entries_from-shift before after limit 0 limit older (omega arith)
            ∙ sym (take-entries_from before limit 0 count (omega arith)))
  ]
    where
      grows : count < suc limit → (if ltb count (suc limit) then count + 1 else count) ≡ suc count
      grows less = ground arith

      stays :
          ¬ (count < suc limit) → (if ltb count (suc limit) then count + 1 else count) ≡ suc limit
      stays full = ground arith
