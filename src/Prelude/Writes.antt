-- ===== src/Prelude/Writes.antt =====
-- The bytes of a payload, stored one after another in a buffer.
use formation_flight.Prelude.{
  ℕ, zero, suc, ◌+◌, ◌<◌, ◌≤◌, ◌≡◌, refl, sym, ap, ◌∙◌, List, [], ◌∷◌, ◌++◌, append_assoc,
  append-nil, set, take, length, length-set, arith,
}

-- Storing bytes one after another fills the buffer from `i` on.
unfoldable pub write_all : List ℕ → ℕ → List ℕ → List ℕ
write_all ys i [] = ys
write_all ys i (b ∷ bs) = write_all (set ys i b) (i + 1) bs

pub length-write_all : (ys : List ℕ) (i : ℕ) (bs : List ℕ) → length (write_all ys i bs) ≡ length ys
unfolding write_all
length-write_all ys i [] = refl
length-write_all ys i (b ∷ bs) = length-write_all (set ys i b) (i + 1) bs ∙ length-set ys i b

take-set :
    (ys : List ℕ) (i b : ℕ) → i < length ys → take (i + 1) (set ys i b) ≡ take i ys ++ (b ∷ [])
take-set [] i b h = absurd (omega arith)
take-set (y ∷ ys) zero b h = refl
take-set (y ∷ ys) (suc i) b h =
    let below : suc i + 1 ≡ suc (i + 1) = omega arith in
    ap (λ n. take n (y ∷ set ys i b)) below ∙ ap (λ t. y ∷ t) (take-set ys i b (omega arith))

take-write_all :
    (ys : List ℕ) (i : ℕ) (bs : List ℕ)
    → i + length bs ≤ length ys
    → take (i + length bs) (write_all ys i bs) ≡ take i ys ++ bs
unfolding write_all
take-write_all ys i [] h =
    let none_more : i + 0 ≡ i = omega arith in
    ap (λ n. take n ys) none_more ∙ sym (append-nil (take i ys))
take-write_all ys i (b ∷ bs) h =
    ap (λ n. take n (write_all (set ys i b) (i + 1) bs)) one_more
    ∙ take-write_all (set ys i b) (i + 1) bs (omega (arith, length-set ys i b))
    ∙ ap (λ t. t ++ bs) (take-set ys i b (omega arith))
    ∙ append_assoc (take i ys) (b ∷ []) bs
  where
    one_more : i + length (b ∷ bs) ≡ i + 1 + length bs
    one_more = omega arith

pub take-written :
    (ys bs : List ℕ) → length bs ≤ length ys → take (length bs) (write_all ys 0 bs) ≡ bs
take-written ys bs h =
    let from_zero : length bs ≡ 0 + length bs = omega arith in
    ap (λ n. take n (write_all ys 0 bs)) from_zero ∙ take-write_all ys 0 bs (omega arith)
