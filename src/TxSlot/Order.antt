-- ===== src/TxSlot/Order.antt =====
-- lib/ff_core/tx_slot.h: the frames that are held back and those that are sent.
use formation_flight.Prelude.{
  ℕ, ◌≡◌, refl, sym, ap, ap₂, ◌∙◌, List, [], ◌∷◌, ◌++◌, some, Bool, true, false, ◌||◌, ltb, ◌==◌,
  if◌then◌else◌, arith, drop, take, length, u8, inl, inr, Bool-cases, append-nil,
}
use formation_flight.TxSlot.{TxSlot, push, is_empty, held_frame, clear}

-- A driver hands frames to the slot and, when the radio is idle, sends what it holds.
pub data Op : Type 0 where
  hand : List ℕ → Op
  send : Op

-- The frames that the slot takes, those that are sent, and the slot behind.
unfoldable pub drive : TxSlot → List Op → List (List ℕ) × List (List ℕ) × TxSlot
drive slot [] = ([], [], slot)
drive slot (hand frame ∷ ops) =
    let (held, slot') = push (some frame) slot in
    let (taken, sent, last) = drive slot' ops in (if held then frame ∷ taken else taken, sent, last)
drive slot (send ∷ ops) =
    let idle = is_empty slot in
    let (taken, sent, last) = drive (if idle then slot else clear slot) ops in
    (taken, if idle then sent else held_frame slot ∷ sent, last)

-- The frame that waits, if one does.
unfoldable pub waiting : TxSlot → List (List ℕ)
waiting slot = if is_empty slot then [] else held_frame slot ∷ []

take-append : (xs ys : List ℕ) → take (length xs) (xs ++ ys) ≡ xs
take-append [] ys = refl
take-append (x ∷ xs) ys = ap (λ t. x ∷ t) (take-append xs ys)

taken_true :
    (b : Bool) (frame : List ℕ) (taken : List (List ℕ))
    → b ≡ true
    → (if b then frame ∷ taken else taken) ≡ frame ∷ taken
taken_true b frame taken h = rw h refl

taken_false :
    (b : Bool) (frame : List ℕ) (taken : List (List ℕ))
    → b ≡ false
    → (if b then frame ∷ taken else taken) ≡ taken
taken_false b frame taken h = rw h refl

-- A frame is taken only by an empty slot, and waits there unchanged.
push-true :
    (slot : TxSlot) (frame : List ℕ)
    → (push (some frame) slot).0 ≡ true
    → (waiting slot ≡ []) × (waiting (push (some frame) slot).1 ≡ frame ∷ [])
unfolding push waiting is_empty held_frame
push-true slot frame h =
    let len = length frame in
    let bad = slot.full || len == 0 || ltb 64 len in
    let accepted : bad ≡ false = ground arith in
    let empty : slot.full ≡ false = ground arith in
    let short : u8 len ≡ len = ground arith in
    let stored : take (u8 len) (frame ++ drop len slot.buf) ≡ frame =
      ap (λ n. take n (frame ++ drop len slot.buf)) short ∙ take-append frame (drop len slot.buf) in
    (rw (waiting, is_empty, empty) refl, rw (push, accepted) (ap (λ t. t ∷ []) stored))

push-false :
    (slot : TxSlot) (frame : List ℕ)
    → (push (some frame) slot).0 ≡ false
    → (push (some frame) slot).1 ≡ slot
unfolding push
push-false slot frame h = ground arith

waiting_none : (slot : TxSlot) → is_empty slot ≡ true → waiting slot ≡ []
unfolding waiting
waiting_none slot h = rw (waiting, h) refl

waiting_some : (slot : TxSlot) → is_empty slot ≡ false → waiting slot ≡ held_frame slot ∷ []
unfolding waiting
waiting_some slot h = rw (waiting, h) refl

-- Whatever is handed over and whenever the radio is idle: the frame that waited at first and those
-- that the slot took are the ones that were sent, in the same order, and the one that waits at
-- the end.
pub drive_in_order :
    (slot : TxSlot) (ops : List Op)
    → waiting slot ++ (drive slot ops).0 ≡ (drive slot ops).1 ++ waiting (drive slot ops).2
unfolding drive
drive_in_order slot [] = append-nil (waiting slot)
drive_in_order slot (hand frame ∷ ops) =
    let rest = drive_in_order (push (some frame) slot).1 ops in
    elim (Bool-cases (push (some frame) slot).0) [
      | inl e ↦
          let (before, after) = push-true slot frame e in
          let r = drive (push (some frame) slot).1 ops in
          ap₂ ◌++◌ before (taken_true _ frame r.0 e) ∙ ap (λ t. t ++ r.0) (sym after) ∙ rest
      | inr e ↦
          let r = drive (push (some frame) slot).1 ops in
          ap₂ ◌++◌ (ap waiting (sym (push-false slot frame e))) (taken_false _ frame r.0 e) ∙ rest
    ]
drive_in_order slot (send ∷ ops) = elim (Bool-cases (is_empty slot)) [
  | inl e ↦ rw (drive, e) (drive_in_order slot ops)
  | inr e ↦
      rw (drive, e)
        (ap (λ t. t ++ (drive (clear slot) ops).0) (waiting_some slot e)
          ∙ ap (λ t. held_frame slot ∷ t) (cleared ∙ drive_in_order (clear slot) ops))
]
  where
    cleared : (drive (clear slot) ops).0 ≡ waiting (clear slot) ++ (drive (clear slot) ops).0
    cleared = unfold waiting is_empty clear in refl
