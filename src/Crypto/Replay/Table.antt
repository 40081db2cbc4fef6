-- ===== src/Crypto/Replay/Table.antt =====
-- lib/ff_core/crypto.cpp: the table of replay slots, and a frame that comes again at once.
use mathlib.Core.Path.{subst}
use native.Mathlib.Decide.{dec_lt}
use formation_flight.Prelude.{
  ℕ, zero, suc, ◌-◌, ◌+◌, ◌<◌, ◌≤◌, ◌≡◌, refl, sym, ap, ap₂, ◌∙◌, List, [], ◌∷◌, none, some, Bool,
  true, false, ◌&&◌, ◌||◌, ltb, ◌==◌, if◌then◌else◌, arith, set, get_or, length, bit_or, shl, sub32,
  Option-cases, inl, inr,
}
use formation_flight.Prelude.Bits.{bit-bit_or, bit-lt}
use formation_flight.Prelude.Bits.Single.{bit-single_self, bit_and-single_iff}
use formation_flight.Crypto.Replay.{
  ReplaySlot, blank_slot, advance_window, look_behind, accept_counter, find_slot, pick_victim,
  victim_slot, slot_for, accept_at, accept_frame, replay_resync_ms, earlier,
}

-- A counter that was just accepted is refused.
accept_counter_again :
    (slot : ReplaySlot) (c now_ms : ℕ) (reset : Bool)
    → (accept_counter slot c reset).0 ≡ true
    → (accept_counter (record (accept_counter slot c reset).1 { last_ms = now_ms }) c false).0
      ≡ false
unfolding accept_counter advance_window look_behind
accept_counter_again slot c now_ms true h = ground arith
accept_counter_again slot c now_ms false h = elim (dec_lt slot.high c) [
  | yes newer ↦ ground arith
  | no not_newer ↦
      let k = slot.high - c - 1 in
      ground (
        arith,
        bit-bit_or k slot.window (shl 1 k),
        bit-single_self k,
        bit-lt k slot.window,
        bit_and-single_iff k (bit_or slot.window (shl 1 k)),
      )
]

accept_counter_keeps :
    (slot : ReplaySlot) (c : ℕ) (reset : Bool)
    → ((accept_counter slot c reset).1.uid ≡ slot.uid)
      × ((accept_counter slot c reset).1.used ≡ slot.used)
unfolding accept_counter advance_window look_behind
accept_counter_keeps slot c reset = ground arith

abbrev serves : ℕ → ReplaySlot → Bool
serves uid s = s.used && s.uid == uid

find_slot-lt : (uid : ℕ) (ss : List ReplaySlot) {i : ℕ} → find_slot uid ss ≡ some i → i < length ss
unfolding find_slot
find_slot-lt uid [] e = cc
find_slot-lt uid (s ∷ ss) {i} e = elim (Option-cases (find_slot uid ss)) [
  | inl n ↦ ground arith
  | inr (j, f) ↦ ground (arith, find_slot-lt uid ss f)
]

find_slot-get_or :
    (uid : ℕ) (ss : List ReplaySlot) {i : ℕ}
    → find_slot uid ss ≡ some i
    → serves uid (get_or ss i blank_slot) ≡ true
unfolding find_slot
find_slot-get_or uid [] e = cc
find_slot-get_or uid (s ∷ ss) {i} e = elim (Option-cases (find_slot uid ss)) [
  | inl n ↦ ground arith
  | inr (j, f) ↦ ground (arith, find_slot-get_or uid ss f)
]

find_slot-set :
    (uid : ℕ) (ss : List ReplaySlot) (q : ReplaySlot) {i : ℕ}
    → find_slot uid ss ≡ some i
    → serves uid q ≡ true
    → find_slot uid (set ss i q) ≡ some i
unfolding find_slot
find_slot-set uid [] q e h = cc
find_slot-set uid (s ∷ ss) q {i} e h = elim (Option-cases (find_slot uid ss)) [
  | inl n ↦ ground arith
  | inr (j, f) ↦ ground (arith, find_slot-set uid ss q f h)
]

find_slot-set_new :
    (uid : ℕ) (ss : List ReplaySlot) (q : ReplaySlot) (i : ℕ)
    → find_slot uid ss ≡ none
    → i < length ss
    → serves uid q ≡ true
    → find_slot uid (set ss i q) ≡ some i
unfolding find_slot
find_slot-set_new uid [] q i e m h = absurd (omega arith)
find_slot-set_new uid (s ∷ ss) q zero e m h = ground arith
find_slot-set_new uid (s ∷ ss) q (suc i) e m h = elim (Option-cases (find_slot uid ss)) [
  | inl n ↦ ground (arith, find_slot-set_new uid ss q i n (omega arith) h)
  | inr (j, f) ↦ ground arith
]

get_or-set :
    (ss : List ReplaySlot) (i : ℕ) (q : ReplaySlot)
    → i < length ss
    → get_or (set ss i q) i blank_slot ≡ q
get_or-set [] i q h = absurd (omega arith)
get_or-set (s ∷ ss) zero q h = refl
get_or-set (s ∷ ss) (suc i) q h = get_or-set ss i q (omega arith)

pick_victim-lt :
    (ss : List ReplaySlot) (i victim stamp : ℕ)
    → victim < i
    → pick_victim ss i victim stamp < i + length ss
unfolding pick_victim
pick_victim-lt [] i victim stamp h = omega arith
pick_victim-lt (s ∷ ss) i victim stamp h = ground (
  arith,
  pick_victim-lt ss (i + 1) (if earlier s.last_ms stamp then i else victim)
      (if earlier s.last_ms stamp then s.last_ms else stamp),
)

victim_slot-lt : (ss : List ReplaySlot) → 0 < length ss → victim_slot ss < length ss
unfolding victim_slot
victim_slot-lt [] h = h
victim_slot-lt (s ∷ ss) h = ground (arith, pick_victim-lt ss 1 0 s.last_ms (omega arith))

-- The slot of the sender after a lookup: the first one that serves it.
slot_for-find_slot :
    (uid now_ms : ℕ) (ss : List ReplaySlot)
    → 0 < length ss
    → find_slot uid (slot_for uid now_ms ss).2 ≡ some (slot_for uid now_ms ss).0
unfolding slot_for
slot_for-find_slot uid now_ms ss h = elim (Option-cases (find_slot uid ss)) [
  | inl n ↦
      let taken : ReplaySlot = record blank_slot { uid = uid; used = true; last_ms = now_ms } in
      rw (n, slot_for)
        (find_slot-set_new uid ss taken (victim_slot ss) n (victim_slot-lt ss h) (ground arith))
  | inr (j, f) ↦ rw (f, slot_for) f
]

pub slot_for_found :
    (uid now_ms i : ℕ) (ss : List ReplaySlot)
    → find_slot uid ss ≡ some i
    → slot_for uid now_ms ss ≡ (i, false, ss)
unfolding slot_for
slot_for_found uid now_ms i ss f = rw (slot_for, f) refl

-- The slot that a table has ready for a sender whose counter it refuses.
record Refuses (uid counter now_ms : ℕ) (ss : List ReplaySlot) : Type 0 where
  place : ℕ
  found : find_slot uid ss ≡ some place
  time : (get_or ss place blank_slot).last_ms ≡ now_ms
  refused : (accept_counter (get_or ss place blank_slot) counter false).0 ≡ false

accept_at-Refuses :
    (uid counter now_ms i : ℕ) (fresh : Bool) (ss : List ReplaySlot)
    → find_slot uid ss ≡ some i
    → (accept_at i fresh counter now_ms ss).0 ≡ true
    → Refuses uid counter now_ms (accept_at i fresh counter now_ms ss).1
unfolding accept_at
accept_at-Refuses uid counter now_ms i fresh ss f e =
    let slot = get_or ss i blank_slot in
    let reset = fresh || ltb replay_resync_ms (sub32 now_ms slot.last_ms) in
    let kept = accept_counter_keeps slot counter reset in
    let served : serves uid slot ≡ true = find_slot-get_or uid ss f in
    let accepted : (accept_counter slot counter reset).0 ≡ true = ground arith in
    let after : ReplaySlot = record (accept_counter slot counter reset).1 { last_ms = now_ms } in
    let stored : get_or (set ss i after) i blank_slot ≡ after =
      get_or-set ss i after (find_slot-lt uid ss f) in
    rw (accept_at, accepted)
      (record {
        place = i;
        found = find_slot-set uid ss after f (ap₂ (λ u v. u && v == uid) kept.1 kept.0 ∙ served);
        time = ap (λ s. s.last_ms) stored;
        refused =
            ap (λ s. (accept_counter s counter false).0) stored
            ∙ accept_counter_again slot counter now_ms reset accepted;
      })

accept_frame-Refuses :
    (uid counter now_ms : ℕ) (ss : List ReplaySlot)
    → 0 < length ss
    → (accept_frame uid counter now_ms ss).0 ≡ true
    → Refuses uid counter now_ms (accept_frame uid counter now_ms ss).1
unfolding accept_frame
accept_frame-Refuses uid counter now_ms ss h e =
    let r = slot_for uid now_ms ss in
    accept_at-Refuses uid counter now_ms r.0 r.1 r.2 (slot_for-find_slot uid now_ms ss h) e

accept_at_refused :
    (counter later_ms i : ℕ) (ss : List ReplaySlot)
    → sub32 later_ms (get_or ss i blank_slot).last_ms ≤ 10000
    → (accept_counter (get_or ss i blank_slot) counter false).0 ≡ false
    → (accept_at i false counter later_ms ss).0 ≡ false
unfolding accept_at
accept_at_refused counter later_ms i ss near refused =
    let no_reset : ltb replay_resync_ms (sub32 later_ms (get_or ss i blank_slot).last_ms) ≡ false =
      ground arith in
    rw (accept_at, no_reset, refused) refl

-- A frame that was accepted is refused when it comes again within the resync time.
pub accept_frame_twice :
    (uid counter now_ms later_ms : ℕ) (ss : List ReplaySlot)
    → 0 < length ss
    → (accept_frame uid counter now_ms ss).0 ≡ true
    → sub32 later_ms now_ms ≤ 10000
    → (accept_frame uid counter later_ms (accept_frame uid counter now_ms ss).1).0 ≡ false
unfolding accept_frame
accept_frame_twice uid counter now_ms later_ms ss h e near =
    let after = (accept_frame uid counter now_ms ss).1 in
    let r = accept_frame-Refuses uid counter now_ms ss h e in
    ap (λ t. (accept_at t.0 t.1 counter later_ms t.2).0)
      (slot_for_found uid later_ms r.place after r.found)
    ∙ accept_at_refused counter later_ms r.place after
        (subst (λ t. sub32 later_ms t ≤ 10000) (sym r.time) near) r.refused
