-- ===== src/Crypto/Frame/Splits.antt =====
-- lib/ff_core/crypto.cpp: the parts of a frame that was made.
use formation_flight.Prelude.{
  ℕ, ◌-◌, ◌≤◌, ◌≡◌, refl, sym, ap, ◌∙◌, List, [], ◌∷◌, ◌++◌, Option, none, some, Bool, true, false,
  ltb, if◌then◌else◌, arith, take, drop, length, length-append, append_assoc, IsWord32,
}
use formation_flight.Wire.{put_u8, put_u32, get_u32}
use formation_flight.Wire.Roundtrip.{get_u32-put_u32}
use formation_flight.Protocol.{PacketType, write_header}
use formation_flight.Crypto.Frame.{Parts, split_frame, word_at}

take-all : (k : ℕ) (xs ys : List ℕ) → length xs ≡ k → take k (xs ++ ys) ≡ xs
take-all k [] ys h = rw (sym h) refl
take-all k (x ∷ xs) ys h = rw (sym h) (ap (λ t. x ∷ t) (take-all (length xs) xs ys refl))

drop-all : (k : ℕ) (xs ys : List ℕ) → length xs ≡ k → drop k (xs ++ ys) ≡ ys
drop-all k [] ys h = rw (sym h) refl
drop-all k (x ∷ xs) ys h = rw (sym h) (drop-all (length xs) xs ys refl)

word_at-get_u32 :
    (offset v : ℕ) (buf rest : List ℕ)
    → get_u32 (drop offset buf) ≡ some (v, rest)
    → word_at offset buf ≡ v
unfolding word_at
word_at-get_u32 offset v buf rest h = rw (word_at, h) refl

take-length : {k : ℕ} (xs : List ℕ) → length xs ≡ k → take k xs ≡ xs
take-length [] h = rw (sym h) refl
take-length (x ∷ xs) h = rw (sym h) (ap (λ t. x ∷ t) (take-length xs refl))

-- The words of a frame's header.
word_at-uid :
    (type : PacketType) (uid : ℕ) (rest : List ℕ)
    → IsWord32 uid
    → word_at 2 (write_header type uid ++ rest) ≡ uid
unfolding write_header put_u8
word_at-uid type uid rest h =
    word_at-get_u32 2 uid (write_header type uid ++ rest) rest (get_u32-put_u32 uid rest h)

word_at-counter :
    (type : PacketType) (uid counter : ℕ) (rest : List ℕ)
    → IsWord32 counter
    → word_at 6 (write_header type uid ++ (put_u32 counter ++ rest)) ≡ counter
unfolding write_header put_u8 put_u32
word_at-counter type uid counter rest h =
    word_at-get_u32 6 counter (write_header type uid ++ (put_u32 counter ++ rest)) rest
      (get_u32-put_u32 counter rest h)

-- A frame in its parts: the header, the counter, the ciphertext and the tag.
abbrev pub frame_of : PacketType → ℕ → ℕ → List ℕ → List ℕ → List ℕ
frame_of type uid counter ciphertext tag =
    (write_header type uid ++ put_u32 counter) ++ (ciphertext ++ tag)

abbrev pub sealed_header : PacketType → ℕ → ℕ → List ℕ
sealed_header type uid counter = write_header type uid ++ put_u32 counter

Parts_ext :
    {a b : Parts}
    → a.uid ≡ b.uid
    → a.counter ≡ b.counter
    → a.header ≡ b.header
    → a.ciphertext ≡ b.ciphertext
    → a.tag ≡ b.tag
    → a ≡ b
Parts_ext p q r s t =
    λ i. record { uid = p i; counter = q i; header = r i; ciphertext = s i; tag = t i }

pub length-sealed_header :
    (type : PacketType) (uid counter : ℕ) → length (sealed_header type uid counter) ≡ 10
unfolding write_header put_u8 put_u32
length-sealed_header type uid counter = refl

pub split_frame-frame_of :
    (type : PacketType) (uid counter : ℕ) (ciphertext tag : List ℕ)
    → IsWord32 uid
    → IsWord32 counter
    → length tag ≡ 6
    → split_frame (frame_of type uid counter ciphertext tag) ≡ record {
      uid = uid;
      counter = counter;
      header = sealed_header type uid counter;
      ciphertext = ciphertext;
      tag = tag;
    }
unfolding split_frame
split_frame-frame_of type uid counter ciphertext tag wu wc ht =
    let header = sealed_header type uid counter in
    let body = ciphertext ++ tag in
    let n = length (header ++ body) - 10 - 6 in
    let header_length = length-sealed_header type uid counter in
    let rest : drop 10 (header ++ body) ≡ body = drop-all 10 header body header_length in
    let size : length ciphertext ≡ n =
      omega (arith, length-append header body, length-append ciphertext tag) in
    let regroup : header ++ body ≡ write_header type uid ++ (put_u32 counter ++ body) =
      append_assoc (write_header type uid) (put_u32 counter) body in
    Parts_ext (ap (word_at 2) regroup ∙ word_at-uid type uid (put_u32 counter ++ body) wu)
      (ap (word_at 6) regroup ∙ word_at-counter type uid counter body wc)
      (take-all 10 header body header_length) (ap (take n) rest ∙ take-all n ciphertext tag size)
      (ap (λ t. take 6 (drop n t)) rest
        ∙ ap (take 6) (drop-all n ciphertext tag size)
        ∙ take-length tag ht)

-- The last step of `encrypt_as` succeeds only with a sealed payload.
pub assembled :
    (bad : Bool) (header : List ℕ) (sealed : Option (List ℕ × List ℕ)) (frame : List ℕ)
    → (if bad
        then none
        else elim sealed [ none ↦ none | some (payload, tag) ↦ some (header ++ (payload ++ tag)) ])
      ≡ some frame
    → (ciphertext tag : List ℕ) × (sealed ≡ some (ciphertext, tag))
      × (frame ≡ header ++ (ciphertext ++ tag))
assembled true header sealed frame h = absurd cc
assembled false header none frame h = absurd cc
assembled false header (some (c, t)) frame h = (c, t, refl, cc)

pub ltb-false : (a b : ℕ) → b ≤ a → ltb a b ≡ false
ltb-false a b h = ground arith
