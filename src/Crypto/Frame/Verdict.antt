-- ===== src/Crypto/Frame/Verdict.antt =====
-- lib/ff_core/crypto.cpp: a frame behind its authentication, delivered or refused.
use formation_flight.Prelude.{
  ℕ, ◌+◌, ◌≡◌, refl, List, Option, none, some, Bool, true, false, if◌then◌else◌, arith, u32,
  Bool-cases, inl, inr,
}
use formation_flight.Crypto.Replay.{accept_frame}
use formation_flight.Crypto.Replay.Refused.{refused_frame}
use formation_flight.Crypto.Frame.{CcmCrypto, deliver_frame}

-- What a delivery needs: the counter was accepted, and only the table has changed.
pub deliver_frame-some :
    (node : CcmCrypto) (uid counter now_ms : ℕ) (packet out : List ℕ)
    → (deliver_frame node uid counter now_ms packet).1 ≡ some out
    → ((accept_frame uid counter now_ms node.replay_slots).0 ≡ true)
      × ((deliver_frame node uid counter now_ms packet).0
          ≡ record node { replay_slots = (accept_frame uid counter now_ms node.replay_slots).1 })
unfolding deliver_frame
deliver_frame-some node uid counter now_ms packet out h =
    elim (Bool-cases (accept_frame uid counter now_ms node.replay_slots).0) [
      | inl e ↦ (e, rw (deliver_frame, e) refl)
      | inr e ↦ ground arith
    ]

pub deliver_frame_refused :
    (node : CcmCrypto) (uid counter now_ms : ℕ) (packet : List ℕ)
    → (accept_frame uid counter now_ms node.replay_slots).0 ≡ false
    → ((deliver_frame node uid counter now_ms packet).1 ≡ none)
      × ((deliver_frame node uid counter now_ms packet).0.last_reject_replay ≡ true)
      × ((deliver_frame node uid counter now_ms packet).0.replay ≡ u32 (node.replay + 1))
unfolding deliver_frame
deliver_frame_refused node uid counter now_ms packet e = rw (deliver_frame, e) (refl, refl, refl)

-- The two nodes have the same replay table and the same key.
abbrev pub Same : CcmCrypto → CcmCrypto → Type 0
Same node next = (next.replay_slots ≡ node.replay_slots) × (next.key ≡ node.key)

pub deliver_frame-none :
    (node : CcmCrypto) (uid counter now_ms : ℕ) (packet : List ℕ)
    → (deliver_frame node uid counter now_ms packet).1 ≡ none
    → Same node (deliver_frame node uid counter now_ms packet).0
unfolding deliver_frame
deliver_frame-none node uid counter now_ms packet h =
    elim (Bool-cases (accept_frame uid counter now_ms node.replay_slots).0) [
      | inl e ↦ ground arith
      | inr e ↦ rw (deliver_frame, e) (refused_frame uid counter now_ms node.replay_slots e, refl)
    ]

pub branch-none :
    {A B : Type 0} (P : A → Type 0) (short authentic : Bool) (rejected r : A × Option B)
    → P rejected.0
    → (r.1 ≡ none → P r.0)
    → (if short then rejected else (if authentic then r else rejected)).1 ≡ none
    → P (if short then rejected else (if authentic then r else rejected)).0
branch-none P true authentic rejected r p q h = p
branch-none P false true rejected r p q h = q h
branch-none P false false rejected r p q h = p

-- Two tests stand before the branch that delivers.
pub branch-some :
    {A B : Type 0} (short authentic : Bool) (rejected r : A × Option B) (out : B)
    → rejected.1 ≡ none
    → (if short then rejected else (if authentic then r else rejected)).1 ≡ some out
    → (short ≡ false) × (authentic ≡ true)
branch-some true authentic rejected r out e h = absurd cc
branch-some false true rejected r out e h = (refl, refl)
branch-some false false rejected r out e h = absurd cc

pub branch-pass :
    {A : Type 0} (short authentic : Bool) (rejected r : A)
    → short ≡ false
    → authentic ≡ true
    → (if short then rejected else (if authentic then r else rejected)) ≡ r
branch-pass short authentic rejected r p q = rw (p, q) refl
