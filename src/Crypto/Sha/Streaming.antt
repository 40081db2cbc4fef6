-- ===== src/Crypto/Sha/Streaming.antt =====
-- lib/ff_core/sha256.cpp: a message that comes in pieces.
use formation_flight.Prelude.{
  ℕ, ◌+◌, ◌*◌, ◌%◌, ◌^◌, ◌≡◌, refl, sym, ap, ◌∙◌, List, [], ◌∷◌, ◌++◌, length, length-append, arith,
  ◌==◌, if◌then◌else◌, Bool, true, false,
}
use formation_flight.Crypto.Sha.{Sha256, absorb, update, compress}

abbrev with_bits : ℕ → Sha256 → Sha256
with_bits t s = record s { total_bits = t }

-- A byte more in the buffer, with the block compressed when it is full.
abbrev take_byte : Sha256 → ℕ → Sha256
take_byte s b =
    let buf = s.buf ++ (b ∷ []) in
    if length buf == 64 then record s { h = compress s.h buf; buf = [] } else record s { buf = buf }

take_byte-with_bits :
    (s : Sha256) (t b : ℕ) → take_byte (with_bits t s) b ≡ with_bits t (take_byte s b)
take_byte-with_bits s t b = choose (length (s.buf ++ (b ∷ [])) == 64)
  where
    choose :
        (full : Bool)
        → (if full
            then record (with_bits t s) { h = compress s.h (s.buf ++ (b ∷ [])); buf = [] }
            else record (with_bits t s) { buf = s.buf ++ (b ∷ []) })
          ≡ with_bits t (
              if full
              then record s { h = compress s.h (s.buf ++ (b ∷ [])); buf = [] }
              else record s { buf = s.buf ++ (b ∷ []) })
    choose true = refl
    choose false = refl

absorb-with_bits :
    (s : Sha256) (t : ℕ) (bs : List ℕ) → absorb (with_bits t s) bs ≡ with_bits t (absorb s bs)
unfolding absorb
absorb-with_bits s t [] = refl
absorb-with_bits s t (b ∷ bs) =
    ap (λ q. absorb q bs) (take_byte-with_bits s t b) ∙ absorb-with_bits (take_byte s b) t bs

absorb-append : (s : Sha256) (xs ys : List ℕ) → absorb s (xs ++ ys) ≡ absorb (absorb s xs) ys
unfolding absorb
absorb-append s [] ys = refl
absorb-append s (x ∷ xs) ys = absorb-append (take_byte s x) xs ys

absorb-total_bits : (s : Sha256) (xs : List ℕ) → (absorb s xs).total_bits ≡ s.total_bits
absorb-total_bits s xs = ap (λ q. q.total_bits) (absorb-with_bits s s.total_bits xs)

-- The digest does not depend on how the message is cut: two updates are one with both pieces.
pub update-update : (s : Sha256) (xs ys : List ℕ) → update (update s xs) ys ≡ update s (xs ++ ys)
unfolding update
update-update s xs ys =
    let bits = (s.total_bits + length xs * 8) % 2 ^ 64 in
    let all = (s.total_bits + length (xs ++ ys) * 8) % 2 ^ 64 in
    let first = absorb (with_bits bits s) xs in
    let sum : (first.total_bits + length ys * 8) % 2 ^ 64 ≡ all =
      omega (arith, absorb-total_bits (with_bits bits s) xs, length-append xs ys) in
    ap (λ t. absorb (with_bits t first) ys) sum
    ∙ ap (λ q. absorb q ys) (sym (absorb-with_bits (with_bits bits s) all xs))
    ∙ sym (absorb-append (with_bits all s) xs ys)
