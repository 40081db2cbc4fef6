-- ===== src/Crypto/Replay/Refused.antt =====
-- lib/ff_core/crypto.cpp: what a frame that is refused leaves of the replay table.
use formation_flight.Prelude.{
  ℕ, zero, suc, ◌≡◌, refl, sym, ap, ◌∙◌, List, [], ◌∷◌, none, Bool, true, false, ◌||◌, ltb, arith,
  set, get_or, sub32, Option-cases, Bool-cases, inl, inr,
}
use formation_flight.Crypto.Replay.{
  ReplaySlot, blank_slot, look_behind, accept_counter, find_slot, slot_for, accept_at, accept_frame,
  replay_resync_ms,
}
use formation_flight.Crypto.Replay.Table.{slot_for_found}

set-get_or : (ss : List ReplaySlot) (i : ℕ) → set ss i (get_or ss i blank_slot) ≡ ss
set-get_or [] i = refl
set-get_or (s ∷ ss) zero = refl
set-get_or (s ∷ ss) (suc i) = ap (λ t. s ∷ t) (set-get_or ss i)

refused_slot :
    (slot : ReplaySlot) (c : ℕ) (reset : Bool)
    → (accept_counter slot c reset).0 ≡ false
    → (accept_counter slot c reset).1 ≡ slot
unfolding accept_counter look_behind
refused_slot slot c true h = cc
refused_slot slot c false h = ground arith

refused_at :
    (i counter now_ms : ℕ) (fresh : Bool) (ss : List ReplaySlot)
    → (accept_at i fresh counter now_ms ss).0 ≡ false
    → (accept_at i fresh counter now_ms ss).1 ≡ ss
unfolding accept_at
refused_at i counter now_ms fresh ss h =
    let slot = get_or ss i blank_slot in
    let reset = fresh || ltb replay_resync_ms (sub32 now_ms slot.last_ms) in
    elim (Bool-cases (accept_counter slot counter reset).0) [
      | inl e ↦ ground arith
      | inr e ↦
          rw (accept_at, e) (ap (set ss i) (refused_slot slot counter reset e) ∙ set-get_or ss i)
    ]

slot_for_new :
    (uid now_ms : ℕ) (ss : List ReplaySlot)
    → find_slot uid ss ≡ none
    → (slot_for uid now_ms ss).1 ≡ true
unfolding slot_for
slot_for_new uid now_ms ss n = rw (slot_for, n) refl

first_contact :
    (i counter now_ms : ℕ) (fresh : Bool) (ss : List ReplaySlot)
    → fresh ≡ true
    → (accept_at i fresh counter now_ms ss).0 ≡ true
unfolding accept_at accept_counter
first_contact i counter now_ms true ss e = refl
first_contact i counter now_ms false ss e = cc

-- A sender without a slot is accepted, so a frame that is refused leaves the table as it was.
pub refused_frame :
    (uid counter now_ms : ℕ) (ss : List ReplaySlot)
    → (accept_frame uid counter now_ms ss).0 ≡ false
    → (accept_frame uid counter now_ms ss).1 ≡ ss
unfolding accept_frame
refused_frame uid counter now_ms ss h =
    let r = slot_for uid now_ms ss in
    elim (Option-cases (find_slot uid ss)) as (λ _. (accept_at r.0 r.1 counter now_ms r.2).1 ≡ ss) [
      | inl n ↦
          let accepted = first_contact r.0 counter now_ms r.1 r.2 (slot_for_new uid now_ms ss n) in
          cc
      | inr (i, f) ↦
          let found = slot_for_found uid now_ms i ss f in
          ap (λ t. (accept_at t.0 t.1 counter now_ms t.2).1) found
          ∙ refused_at i counter now_ms false ss
              (sym (ap (λ t. (accept_at t.0 t.1 counter now_ms t.2).0) found) ∙ h)
    ]
