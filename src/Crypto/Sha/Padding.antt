-- ===== src/Crypto/Sha/Padding.antt =====
-- lib/ff_core/sha256.cpp: the padding loop of finish.
use formation_flight.Prelude.{
  ℕ, zero, suc, ◌-◌, ◌+◌, ◌%◌, ◌<◌, ◌≤◌, ◌≡◌, ◌≢◌, ◌*◌, ◌^◌, refl, ap, ◌∙◌, [], ◌∷◌, ◌++◌, length,
  length-append, arith, ◌==◌, if◌then◌else◌, Bool, true, false, Bool-cases, inl, inr,
}
use formation_flight.Crypto.Sha.{Sha256, absorb, update, pad, compress}

length-zero_byte :
    (s : Sha256)
    → length (update s (0 ∷ [])).buf ≡ (if length s.buf + 1 == 64 then 0 else length s.buf + 1)
unfolding update absorb
length-zero_byte s =
    choose (length (s.buf ++ (0 ∷ [])) == 64)
    ∙ ap (λ (n : ℕ). if n == 64 then 0 else n) (length-append s.buf (0 ∷ []))
  where
    choose :
        (full : Bool)
        → length
            (if full
              then record s {
                h = compress s.h (s.buf ++ (0 ∷ []));
                buf = [];
                total_bits = (s.total_bits + 1 * 8) % 2 ^ 64;
              }
              else record s {
                buf = s.buf ++ (0 ∷ []);
                total_bits = (s.total_bits + 1 * 8) % 2 ^ 64;
              }).buf
          ≡ (if full then 0 else length (s.buf ++ (0 ∷ [])))
    choose true = refl
    choose false = refl

is_equal : (a b : ℕ) → (a == b) ≡ true → a ≡ b
is_equal a b h = ground arith

is_other : (a b : ℕ) → (a == b) ≡ false → a ≢ b
is_other a b h = ground arith

-- One zero more is one round less to go.
nearer :
    (len n : ℕ)
    → len < 64
    → len ≢ 56
    → (120 - len) % 64 ≤ suc n
    → ((if len + 1 == 64 then 0 else len + 1) < 64)
      × ((120 - (if len + 1 == 64 then 0 else len + 1)) % 64 ≤ n)
nearer len n h e d = ground arith

done :
    (stop : Bool)
    → stop ≡ true
    → (s more : Sha256) → length s.buf ≡ 56
    → length (if stop then s else more).buf ≡ 56
done stop e s more h = rw e h

more :
    (stop : Bool)
    → stop ≡ false
    → (s rest : Sha256) → length rest.buf ≡ 56
    → length (if stop then s else rest).buf ≡ 56
more stop e s rest h = rw e h

-- For a buffer of fewer than 64 bytes, as many rounds of the padding loop as there are bytes
-- missing to 56, counted modulo 64, or more, leave a buffer of 56 bytes.
pub length-pad :
    (n : ℕ) (s : Sha256)
    → length s.buf < 64
    → (120 - length s.buf) % 64 ≤ n
    → length (pad n s).buf ≡ 56
unfolding pad
length-pad zero s h d = omega arith
length-pad (suc n) s h d = elim (Bool-cases (length s.buf == 56)) [
  | inl e ↦ done (length s.buf == 56) e s (pad n (update s (0 ∷ []))) (is_equal (length s.buf) 56 e)
  | inr e ↦
      let (room, left) = nearer (length s.buf) n h (is_other (length s.buf) 56 e) d in
      more (length s.buf == 56) e s (pad n (update s (0 ∷ []))) (
        length-pad n (update s (0 ∷ [])) (omega (arith, length-zero_byte s, room))
          (omega (arith, length-zero_byte s, left)))
]
