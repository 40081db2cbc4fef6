-- ===== src/Crypto/Frame/Once.antt =====
-- lib/ff_core/crypto.cpp: a frame that comes again after frames that were dropped.
use mathlib.Core.Path.{subst}
use formation_flight.Prelude.{
  ℕ, ◌+◌, ◌<◌, ◌≤◌, ◌≡◌, refl, sym, ap, ◌∙◌, List, [], ◌∷◌, ◌++◌, none, some, Bool, true, false,
  ltb, if◌then◌else◌, take, length, u32, sub32,
}
use formation_flight.Crypto.Ccm.{ccm_decrypt}
use formation_flight.Crypto.Replay.{accept_frame}
use formation_flight.Crypto.Replay.Table.{accept_frame_twice}
use formation_flight.Crypto.Frame.{
  CcmCrypto, split_frame, open_parts, build_nonce, deliver_frame, decrypt,
}
use formation_flight.Crypto.Frame.Verdict.{
  Same, deliver_frame-some, deliver_frame_refused, deliver_frame-none, branch-none, branch-some,
  branch-pass,
}

module _ (encrypt_block : List ℕ → List ℕ → List ℕ) where
  -- The packet that a frame carries for this node, if its tag is right.
  verdict : CcmCrypto → List ℕ → Bool × List ℕ
  verdict node buf =
      let parts = split_frame buf in
      ccm_decrypt (encrypt_block node.key) (build_nonce parts.uid parts.counter) parts.header
        parts.ciphertext parts.tag

  carried : CcmCrypto → List ℕ → List ℕ
  carried node buf = take 6 (split_frame buf).header ++ (verdict node buf).1

  abbrev cleared : CcmCrypto → CcmCrypto
  cleared node = record node { last_reject_replay = false }

  decrypt_by_verdict :
      (node : CcmCrypto) (buf : List ℕ) (now_ms : ℕ)
      → decrypt encrypt_block node buf now_ms ≡ (
          if ltb (length buf) 16
          then (record (cleared node) { bad_tag = u32 (node.bad_tag + 1) }, none)
          else (if (verdict node buf).0
              then deliver_frame
                  (cleared node)
                  (split_frame buf).uid
                  (split_frame buf).counter
                  now_ms
                  (carried node buf)
              else (record (cleared node) { bad_tag = u32 (node.bad_tag + 1) }, none)))
  unfolding decrypt open_parts verdict carried
  decrypt_by_verdict node buf now_ms = refl

  -- A frame that is delivered was long enough and authentic, and what follows is the delivery.
  decrypt-some :
      (node : CcmCrypto) (buf out : List ℕ) (now_ms : ℕ)
      → (decrypt encrypt_block node buf now_ms).1 ≡ some out
      → (ltb (length buf) 16 ≡ false) × ((verdict node buf).0 ≡ true)
  decrypt-some node buf out now_ms h =
      branch-some _ _ (record (cleared node) { bad_tag = u32 (node.bad_tag + 1) }, none) _ out refl
        (ap (λ r. r.1) (sym (decrypt_by_verdict node buf now_ms)) ∙ h)

  decrypt_delivers :
      (node : CcmCrypto) (buf : List ℕ) (now_ms : ℕ)
      → ltb (length buf) 16 ≡ false
      → (verdict node buf).0 ≡ true
      → decrypt encrypt_block node buf now_ms
        ≡ deliver_frame
            (cleared node)
            (split_frame buf).uid
            (split_frame buf).counter
            now_ms
            (carried node buf)
  decrypt_delivers node buf now_ms p q =
      decrypt_by_verdict node buf now_ms ∙ branch-pass _ _ _ _ p q

  -- A frame that is dropped changes neither the replay table nor the key.
  decrypt-none :
      (node : CcmCrypto) (buf : List ℕ) (now_ms : ℕ)
      → (decrypt encrypt_block node buf now_ms).1 ≡ none
      → Same node (decrypt encrypt_block node buf now_ms).0
  decrypt-none node buf now_ms h =
      let steps = decrypt_by_verdict node buf now_ms in
      subst (λ r. Same node r.0) (sym steps)
        (branch-none (Same node) _ (verdict node buf).0 _ _ (refl, refl)
          (deliver_frame-none (cleared node) _ _ now_ms (carried node buf))
          (ap (λ r. r.1) (sym steps) ∙ h))

  -- The frames, each with its time, are dropped one after another.
  abbrev pub AllDropped : CcmCrypto → List (List ℕ × ℕ) → Type 0
  AllDropped node [] = Unit
  AllDropped node ((buf, now_ms) ∷ fs) =
      ((decrypt encrypt_block node buf now_ms).1 ≡ none)
      × AllDropped (decrypt encrypt_block node buf now_ms).0 fs

  abbrev pub after_frames : CcmCrypto → List (List ℕ × ℕ) → CcmCrypto
  after_frames node [] = node
  after_frames node ((buf, now_ms) ∷ fs) = after_frames (decrypt encrypt_block node buf now_ms).0 fs

  after_frames-Same :
      (node : CcmCrypto) (fs : List (List ℕ × ℕ))
      → AllDropped node fs
      → Same node (after_frames node fs)
  after_frames-Same node [] h = (refl, refl)
  after_frames-Same node ((buf, now_ms) ∷ fs) (dropped, rest) =
      let (slots, key) = after_frames-Same (decrypt encrypt_block node buf now_ms).0 fs rest in
      let (slots', key') = decrypt-none node buf now_ms dropped in (slots ∙ slots', key ∙ key')

  -- What a delivery leaves refuses the counter within ten seconds, and the key is as it was.
  delivered_once :
      (node : CcmCrypto) (buf packet : List ℕ) (now_ms later_ms : ℕ)
      → 0 < length node.replay_slots
      → (decrypt encrypt_block node buf now_ms).1 ≡ some packet
      → sub32 later_ms now_ms ≤ 10000
      → let after = (decrypt encrypt_block node buf now_ms).0 in
        ((accept_frame
            (split_frame buf).uid
            (split_frame buf).counter
            later_ms
            after.replay_slots).0
          ≡ false)
        × (after.key ≡ node.key)
  delivered_once node buf packet now_ms later_ms slots h near =
      let (long, authentic) = decrypt-some node buf packet now_ms h in
      let uid = (split_frame buf).uid in
      let counter = (split_frame buf).counter in
      let first = decrypt_delivers node buf now_ms long authentic in
      let (accepted, kept) =
        deliver_frame-some (cleared node) uid counter now_ms (carried node buf) packet
          (ap (λ r. r.1) (sym first) ∙ h) in
      let after_eq = ap (λ r. r.0) first ∙ kept in
      (
        ap (λ n. (accept_frame uid counter later_ms n.replay_slots).0) after_eq
            ∙ accept_frame_twice uid counter now_ms later_ms node.replay_slots slots accepted near,
        ap (λ n. n.key) after_eq,
      )

  -- In a node that has replay slots, a frame that was delivered is dropped when the same bytes come
  -- again within ten seconds of that and every frame in between was dropped, and is counted as a
  -- replay, whatever it contains.
  pub decrypt_twice :
      (node : CcmCrypto) (buf packet : List ℕ) (now_ms later_ms : ℕ) (between : List (List ℕ × ℕ))
      → 0 < length node.replay_slots
      → (decrypt encrypt_block node buf now_ms).1 ≡ some packet
      → AllDropped (decrypt encrypt_block node buf now_ms).0 between
      → sub32 later_ms now_ms ≤ 10000
      → let last = after_frames (decrypt encrypt_block node buf now_ms).0 between in
        let again = decrypt encrypt_block last buf later_ms in
        (again.1 ≡ none)
        × (again.0.last_reject_replay ≡ true)
        × (again.0.replay ≡ u32 (last.replay + 1))
  unfolding verdict
  decrypt_twice node buf packet now_ms later_ms between slots h dropped near =
      let (long, authentic) = decrypt-some node buf packet now_ms h in
      let first = (decrypt encrypt_block node buf now_ms).0 in
      let last = after_frames first between in
      let (refused, key) = delivered_once node buf packet now_ms later_ms slots h near in
      let (same_slots, same_key) = after_frames-Same first between dropped in
      let uid = (split_frame buf).uid in
      let counter = (split_frame buf).counter in
      let refused' : (accept_frame uid counter later_ms last.replay_slots).0 ≡ false =
        ap (λ t. (accept_frame uid counter later_ms t).0) same_slots ∙ refused in
      let authentic' : (verdict last buf).0 ≡ true =
        ap (λ k. (verdict (record node { key = k }) buf).0) (same_key ∙ key) ∙ authentic in
      subst
        (λ r. (r.1 ≡ none) × (r.0.last_reject_replay ≡ true) × (r.0.replay ≡ u32 (last.replay + 1)))
        (sym (decrypt_delivers last buf later_ms long authentic'))
        (deliver_frame_refused (cleared last) uid counter later_ms (carried last buf) refused')
