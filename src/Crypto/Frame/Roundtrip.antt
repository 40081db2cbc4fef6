-- ===== src/Crypto/Frame/Roundtrip.antt =====
-- lib/ff_core/crypto.cpp: a frame that is made for a packet, and opened.
use formation_flight.Prelude.{
  ℕ, ◌≤◌, ◌≡◌, refl, sym, ap, ◌∙◌, List, ◌++◌, some, true, false, arith, take, length,
  length-append, IsWord32,
}
use formation_flight.Wire.{put_u8, put_u32}
use formation_flight.Protocol.{PacketType, write_header}
use formation_flight.Crypto.Ccm.{ccm_encrypt, ccm_decrypt}
use formation_flight.Crypto.Ccm.Mac.{IsBlockCipher}
use formation_flight.Crypto.Ccm.Seal.{length-tag, ccm_decrypt-ccm_encrypt}
use formation_flight.Crypto.Frame.{
  CcmCrypto, Parts, split_frame, open_parts, build_nonce, deliver_frame, encrypt_as, decrypt,
}
use formation_flight.Crypto.Frame.Splits.{
  frame_of, sealed_header, length-sealed_header, split_frame-frame_of, assembled, ltb-false,
}

module _ (encrypt_block : List ℕ → List ℕ → List ℕ) where
  open_parts_authentic :
      (node : CcmCrypto) (parts : Parts) (now_ms : ℕ) (payload : List ℕ)
      → ccm_decrypt
          (encrypt_block node.key)
          (build_nonce parts.uid parts.counter)
          parts.header
          parts.ciphertext
          parts.tag
        ≡ (true, payload)
      → open_parts encrypt_block node parts now_ms
        ≡ deliver_frame node parts.uid parts.counter now_ms (take 6 parts.header ++ payload)
  unfolding open_parts
  open_parts_authentic node parts now_ms payload h = rw h refl

  -- A frame that is long enough is opened.
  decrypt_long :
      (node : CcmCrypto) (buf : List ℕ) (now_ms : ℕ)
      → 16 ≤ length buf
      → decrypt encrypt_block node buf now_ms
        ≡ open_parts encrypt_block
            (record node { last_reject_replay = false })
            (split_frame buf)
            now_ms
  unfolding decrypt
  decrypt_long node buf now_ms h = rw (ltb-false (length buf) 16 h) refl

  -- What `encrypt_as` returns, taken apart.
  encrypt_as-frame_of :
      (node : CcmCrypto) (type : PacketType) (uid counter cap : ℕ) (payload frame : List ℕ)
      → encrypt_as encrypt_block node uid counter (write_header type uid ++ payload) cap
        ≡ some frame
      → (ciphertext tag : List ℕ) × (ccm_encrypt
            (encrypt_block node.key)
            (build_nonce uid counter)
            (sealed_header type uid counter)
            payload
            6
          ≡ some (ciphertext, tag))
        × (frame ≡ frame_of type uid counter ciphertext tag)
  unfolding encrypt_as write_header put_u8 put_u32
  encrypt_as-frame_of node type uid counter cap payload frame h =
      assembled _ (take 6 (write_header type uid ++ payload) ++ put_u32 counter) _ frame h

  -- A frame that `encrypt_as` made for a packet with a written header, under a block cipher and with
  -- a uid and a counter of 32 bits, is authentic to every node with the same key: what `decrypt`
  -- does is what it does behind the authentication, with the sender's identity and counter and the
  -- original packet.
  pub decrypt-encrypt_as :
      (sender receiver : CcmCrypto) (type : PacketType) (uid counter cap now_ms : ℕ)
      (payload frame : List ℕ)
      → IsBlockCipher (encrypt_block sender.key)
      → IsWord32 uid
      → IsWord32 counter
      → sender.key ≡ receiver.key
      → encrypt_as encrypt_block sender uid counter (write_header type uid ++ payload) cap
        ≡ some frame
      → decrypt encrypt_block receiver frame now_ms
        ≡ deliver_frame
            (record receiver { last_reject_replay = false })
            uid
            counter
            now_ms
            (write_header type uid ++ payload)
  unfolding write_header put_u8 put_u32
  decrypt-encrypt_as sender receiver type uid counter cap now_ms payload frame cipher wu wc same h =
      let (c, tag, sealed, whole) =
        encrypt_as-frame_of sender type uid counter cap payload frame h in
      let cleared : CcmCrypto = record receiver { last_reject_replay = false } in
      let opened =
        ccm_decrypt-ccm_encrypt cipher (build_nonce uid counter) (sealed_header type uid counter)
          payload c tag 6 sealed in
      let tag_length : length tag ≡ 6 =
        length-tag cipher (build_nonce uid counter) (sealed_header type uid counter) payload c tag 6
          sealed in
      ap (λ f. decrypt encrypt_block receiver f now_ms) whole
      ∙ decrypt_long receiver (frame_of type uid counter c tag) now_ms (
          omega (
            arith,
            length-append (sealed_header type uid counter) (c ++ tag),
            length-sealed_header type uid counter,
            length-append c tag,
            tag_length,
          ))
      ∙ ap (λ p. open_parts encrypt_block cleared p now_ms)
          (split_frame-frame_of type uid counter c tag wu wc tag_length)
      ∙ open_parts_authentic cleared
          (record {
            uid = uid;
            counter = counter;
            header = sealed_header type uid counter;
            ciphertext = c;
            tag = tag;
          })
          now_ms payload
          (ap
              (λ k.
                ccm_decrypt (encrypt_block k) (build_nonce uid counter)
                  (sealed_header type uid counter) c tag)
              (sym same)
            ∙ opened)
