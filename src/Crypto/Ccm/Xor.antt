-- ===== src/Crypto/Ccm/Xor.antt =====
-- lib/ff_core/ccm.cpp: bytes that are XORed with a keystream.
use formation_flight.Prelude.{
  ℕ, zero, suc, ◌-◌, ◌<◌, ◌≤◌, ◌≡◌, refl, sym, ap, ap₂, ◌∙◌, List, [], ◌∷◌, ◌++◌, bit_xor, min,
  arith, get_or, ◌⊎◌, inl, inr, Bool-cases, ltb, length, take, drop,
}
use formation_flight.Prelude.Bits.{
  bit_xor_cancel, bit_ext_all, bit-bit_xor, bit-zero_number, bit-lt,
}
use formation_flight.Crypto.Ccm.{xor_bytes}

pub length-xor_bytes : (xs ks : List ℕ) → length (xor_bytes xs ks) ≡ length xs
unfolding xor_bytes
length-xor_bytes [] ks = refl
length-xor_bytes (x ∷ xs) [] = refl
length-xor_bytes (x ∷ xs) (k ∷ ks) = ap suc (length-xor_bytes xs ks)

pub xor_bytes-xor_bytes : (xs ks : List ℕ) → xor_bytes (xor_bytes xs ks) ks ≡ xs
unfolding xor_bytes
xor_bytes-xor_bytes [] ks = refl
xor_bytes-xor_bytes (x ∷ xs) [] = refl
xor_bytes-xor_bytes (x ∷ xs) (k ∷ ks) =
    ap₂ (λ a b. a ∷ b) (bit_xor_cancel x k) (xor_bytes-xor_bytes xs ks)

bit_xor-zero : (a : ℕ) → bit_xor a 0 ≡ a
bit_xor-zero a =
    bit_ext_all _ _ λ j. omega (arith, bit-bit_xor j a 0, bit-zero_number j, bit-lt j a)

pub get_or-xor_bytes :
    (xs ks : List ℕ) (j : ℕ)
    → j < length xs
    → get_or (xor_bytes xs ks) j 0 ≡ bit_xor (get_or xs j 0) (get_or ks j 0)
unfolding xor_bytes
get_or-xor_bytes [] ks j h = absurd (omega arith)
get_or-xor_bytes (x ∷ xs) [] j h = sym (bit_xor-zero _)
get_or-xor_bytes (x ∷ xs) (k ∷ ks) zero h = refl
get_or-xor_bytes (x ∷ xs) (k ∷ ks) (suc j) h = get_or-xor_bytes xs ks j (omega arith)

-- Pieces of the lengths that `take` and `drop` have are taken apart again.
pub take-append :
    (k n : ℕ) (xs ys : List ℕ) → length xs ≡ min k n → length ys ≡ n - k → take k (xs ++ ys) ≡ xs
take-append zero n [] ys h g = refl
take-append zero n (x ∷ xs) ys h g = absurd (omega arith)
take-append (suc k) n [] [] h g = refl
take-append (suc k) n [] (y ∷ ys) h g = absurd (omega arith)
take-append (suc k) n (x ∷ xs) ys h g =
    ap (λ t. x ∷ t) (take-append k (n - 1) xs ys (omega arith) (omega arith))

pub drop-append :
    (k n : ℕ) (xs ys : List ℕ) → length xs ≡ min k n → length ys ≡ n - k → drop k (xs ++ ys) ≡ ys
drop-append zero n [] ys h g = refl
drop-append zero n (x ∷ xs) ys h g = absurd (omega arith)
drop-append (suc k) n [] [] h g = refl
drop-append (suc k) n [] (y ∷ ys) h g = absurd (omega arith)
drop-append (suc k) n (x ∷ xs) ys h g = drop-append k (n - 1) xs ys (omega arith) (omega arith)

pub get_or-append_left :
    (xs ys : List ℕ) (j : ℕ) → j < length xs → get_or (xs ++ ys) j 0 ≡ get_or xs j 0
get_or-append_left [] ys j h = absurd (omega arith)
get_or-append_left (x ∷ xs) ys zero h = refl
get_or-append_left (x ∷ xs) ys (suc j) h = get_or-append_left xs ys j (omega arith)

pub get_or-append_right :
    (xs ys : List ℕ) (j : ℕ) → length xs ≤ j → get_or (xs ++ ys) j 0 ≡ get_or ys (j - length xs) 0
get_or-append_right [] ys j h = ap (λ i. get_or ys i 0) (omega arith)
get_or-append_right (x ∷ xs) ys zero h = absurd (omega arith)
get_or-append_right (x ∷ xs) ys (suc j) h =
    get_or-append_right xs ys j (omega arith) ∙ ap (λ i. get_or ys i 0) (omega arith)

pub lt_or_ge : (a b : ℕ) → (a < b) ⊎ (b ≤ a)
lt_or_ge a b = elim (Bool-cases (ltb a b)) [
  | inl h ↦ inl (ground arith)
  | inr h ↦ inr (ground arith)
]

pub get_or-take : (k : ℕ) (xs : List ℕ) (j : ℕ) → j < k → get_or (take k xs) j 0 ≡ get_or xs j 0
get_or-take zero xs j h = absurd (omega arith)
get_or-take (suc k) [] j h = refl
get_or-take (suc k) (x ∷ xs) zero h = refl
get_or-take (suc k) (x ∷ xs) (suc j) h = get_or-take k xs j (omega arith)

pub get_or-drop :
    (k : ℕ) (xs : List ℕ) (j : ℕ) → k ≤ j → get_or (drop k xs) (j - k) 0 ≡ get_or xs j 0
get_or-drop zero xs j h = ap (λ i. get_or xs i 0) (omega arith)
get_or-drop (suc k) [] j h = refl
get_or-drop (suc k) (x ∷ xs) zero h = absurd (omega arith)
get_or-drop (suc k) (x ∷ xs) (suc j) h =
    ap (λ i. get_or (drop k xs) i 0) (omega arith) ∙ get_or-drop k xs j (omega arith)
