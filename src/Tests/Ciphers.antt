-- ===== src/Tests/Ciphers.antt =====
-- Runs of the authenticated frames with a toy block cipher.
use formation_flight.Prelude.{
  ℕ, ◌+◌, ◌*◌, ◌<◌, ◌≡◌, refl, ◌∙◌, List, [], ◌∷◌, ◌++◌, none, some, true, false, map, get_or,
  length, length-map, u8, arith, replicate, zero, suc, bit_xor, u32,
}
use formation_flight.Wire.{put_u8, put_u32}
use formation_flight.Protocol.{position, write_header}
use formation_flight.Crypto.Ccm.{feed_byte, ctr_block, ctr_crypt, ccm_encrypt, ccm_decrypt}
use formation_flight.Crypto.Ccm.Stream.{ctr_crypt-at}
use formation_flight.Crypto.Ccm.Mac.{IsBlockCipher}
use formation_flight.Crypto.Ccm.Seal.{ccm_decrypt-ccm_encrypt, ccm_encrypt-ccm_decrypt}
use formation_flight.Crypto.Replay.{blank_slot, accept_frame}
use formation_flight.Crypto.Frame.{CcmCrypto, encrypt_as, decrypt, deliver_frame}
use formation_flight.Crypto.Frame.Roundtrip.{decrypt-encrypt_as}
use formation_flight.Crypto.Frame.Once.{decrypt_twice, after_frames}

abbrev pub toy : List ℕ → List ℕ → List ℕ
toy key b = map (λ x. u8 (x * 3 + get_or key 0 0)) b

get_or-map : (f : ℕ → ℕ) (xs : List ℕ) (j : ℕ) → ((x : ℕ) → f x < 256) → get_or (map f xs) j 0 < 256
get_or-map f [] j h = omega arith
get_or-map f (x ∷ xs) zero h = h x
get_or-map f (x ∷ xs) (suc j) h = get_or-map f xs j h

pub toy-IsBlockCipher : (key : List ℕ) → IsBlockCipher (toy key)
toy-IsBlockCipher key = record {
  size = λ b e. length-map b (λ x. u8 (x * 3 + get_or key 0 0)) ∙ e;
  bytes = λ b j e. get_or-map (λ x. u8 (x * 3 + get_or key 0 0)) b j (λ x. omega arith);
}

abbrev nonce : List ℕ
nonce = replicate 13 1

abbrev message : List ℕ
message =
    10 ∷ 20 ∷ 30 ∷ 40 ∷ 50 ∷ 60 ∷ 70 ∷ 80 ∷ 90 ∷ 100 ∷ 110 ∷ 120 ∷ 130 ∷ 140 ∷ 150 ∷ 160 ∷ 170 ∷ 180
    ∷ []

abbrev sealed_message : List ℕ
sealed_message =
    2 ∷ 28 ∷ 22 ∷ 32 ∷ 58 ∷ 52 ∷ 78 ∷ 88 ∷ 82 ∷ 108 ∷ 102 ∷ 112 ∷ 138 ∷ 132 ∷ 147 ∷ 168 ∷ 162 ∷ 188
    ∷ []

abbrev message_tag : List ℕ
message_tag = 61 ∷ 76 ∷ 210 ∷ 249 ∷ 179 ∷ 53 ∷ []

message_tag-octets : (j : ℕ) → get_or message_tag j 0 < 256
message_tag-octets zero = omega arith
message_tag-octets (suc zero) = omega arith
message_tag-octets (suc (suc zero)) = omega arith
message_tag-octets (suc (suc (suc zero))) = omega arith
message_tag-octets (suc (suc (suc (suc zero)))) = omega arith
message_tag-octets (suc (suc (suc (suc (suc zero))))) = omega arith
message_tag-octets (suc (suc (suc (suc (suc (suc j)))))) = omega arith

ctr_crypt-at_example :
    get_or (ctr_crypt (toy (5 ∷ [])) nonce message) 17 0
    ≡ bit_xor 180 (get_or (toy (5 ∷ []) (ctr_block nonce 2)) 1 0)
ctr_crypt-at_example = ctr_crypt-at (toy (5 ∷ [])) nonce message 17 (omega arith) (omega arith)

ccm_decrypt-ccm_encrypt_example :
    ccm_decrypt (toy (5 ∷ [])) nonce (9 ∷ []) sealed_message message_tag ≡ (true, message)
unfolding ccm_encrypt feed_byte
ccm_decrypt-ccm_encrypt_example =
    ccm_decrypt-ccm_encrypt (toy-IsBlockCipher (5 ∷ [])) nonce (9 ∷ []) message sealed_message
      message_tag 6 refl

ccm_encrypt-ccm_decrypt_example :
    ccm_encrypt (toy (5 ∷ [])) nonce (9 ∷ []) message (length message_tag)
    ≡ some (sealed_message, message_tag)
unfolding ccm_decrypt feed_byte
ccm_encrypt-ccm_decrypt_example =
    ccm_encrypt-ccm_decrypt (toy-IsBlockCipher (5 ∷ [])) nonce (9 ∷ []) message sealed_message
      message_tag message_tag-octets refl

abbrev pub node : CcmCrypto
node = record {
  key = 5 ∷ [];
  uid = 77;
  counter = 1000;
  bad_tag = 0;
  replay = 0;
  last_reject_replay = true;
  replay_slots = replicate 32 blank_slot;
}

abbrev frame : List ℕ
frame =
    2 ∷ 1 ∷ 77 ∷ 0 ∷ 0 ∷ 0 ∷ 233 ∷ 3 ∷ 0 ∷ 0 ∷ 2 ∷ 248 ∷ 27 ∷ 45 ∷ 55 ∷ 252 ∷ 72 ∷ 85 ∷ 95 ∷ 97
    ∷ 107 ∷ 125 ∷ 135 ∷ 137 ∷ 147 ∷ 168 ∷ 162 ∷ 88 ∷ 61 ∷ 255 ∷ 61 ∷ 16 ∷ 126 ∷ 149 ∷ []

decrypt-encrypt_as_example :
    decrypt toy node frame 500
    ≡ deliver_frame
        (record node { last_reject_replay = false })
        77
        1001
        500
        (write_header position 77 ++ message)
unfolding encrypt_as write_header put_u8 put_u32 feed_byte
decrypt-encrypt_as_example =
    decrypt-encrypt_as toy node node position 77 1001 64 500 message frame
      (toy-IsBlockCipher (5 ∷ [])) (omega arith) (omega arith) refl refl

-- The same frame and one that is too short, before the frame comes again.
abbrev dropped_frames : List (List ℕ × ℕ)
dropped_frames = (frame, 600) ∷ (2 ∷ 1 ∷ [], 700) ∷ []

decrypt_twice_example :
    let last = after_frames toy (decrypt toy node frame 500).0 dropped_frames in
    let again = decrypt toy last frame 900 in
    (again.1 ≡ none)
    × (again.0.last_reject_replay ≡ true)
    × (again.0.replay ≡ u32 (last.replay + 1))
unfolding encrypt_as write_header put_u8 put_u32 feed_byte decrypt accept_frame
decrypt_twice_example =
    decrypt_twice toy node frame (write_header position 77 ++ message) 500 900 dropped_frames
      (omega arith) refl (refl, (refl, tt)) (omega arith)
