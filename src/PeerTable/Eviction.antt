-- ===== src/PeerTable/Eviction.antt =====
-- lib/ff_core/peer_table.cpp: which slot `allocSlot` hands to a new peer.
use formation_flight.Prelude.{
  ℕ, zero, suc, ◌+◌, ◌≤◌, ◌<◌, ◌≡◌, refl, ap, ◌∙◌, List, [], ◌∷◌, Bool, true, false, ◌&&◌, arith,
  ltb, length, get_or, if◌then◌else◌, Bool-cases, inl, inr,
}
use formation_flight.PeerTable.{Peer, blank_peer, alloc_from, alloc_slot}

-- Every slot is in use.
abbrev pub is_full : List Peer → Bool
is_full [] = true
is_full (p ∷ ps) = p.valid && is_full ps

-- The earliest of a time and the peers' times.
min_stamp : List Peer → ℕ → ℕ
min_stamp [] stamp = stamp
min_stamp (p ∷ ps) stamp =
    min_stamp ps (if ltb p.last_update_ms stamp then p.last_update_ms else stamp)

min_stamp-le : (ps : List Peer) (stamp : ℕ) → min_stamp ps stamp ≤ stamp
unfolding min_stamp
min_stamp-le [] stamp = omega arith
min_stamp-le (p ∷ ps) stamp =
    ground (arith, min_stamp-le ps p.last_update_ms, min_stamp-le ps stamp)

min_stamp-le_peer :
    (ps : List Peer) (stamp j : ℕ)
    → j < length ps
    → min_stamp ps stamp ≤ (get_or ps j blank_peer).last_update_ms
unfolding min_stamp
min_stamp-le_peer [] stamp j h = absurd (omega arith)
min_stamp-le_peer (p ∷ ps) stamp zero h =
    ground (arith, min_stamp-le ps p.last_update_ms, min_stamp-le ps stamp)
min_stamp-le_peer (p ∷ ps) stamp (suc j) h = min_stamp-le_peer ps _ j (omega arith)

-- The same table seen from slot `i + 1`.
next_slot {ℓ} :
    {A : Type ℓ} (at : ℕ → A) (of : Peer → A) (p : Peer) (ps : List Peer) (i : ℕ)
    → ((k : ℕ) → at (i + k) ≡ of (get_or (p ∷ ps) k blank_peer))
    → (k : ℕ) → at (i + 1 + k) ≡ of (get_or ps k blank_peer)
next_slot at of p ps i h k = ap at index ∙ h (suc k)
  where
    index : i + 1 + k ≡ i + suc k
    index = omega arith

-- In a full table the slot that the loop ends with has the earliest time.
alloc_from-min_stamp :
    (at : ℕ → ℕ) (ps : List Peer) (i oldest stamp : ℕ)
    → is_full ps ≡ true
    → at oldest ≡ stamp
    → ((k : ℕ) → at (i + k) ≡ (get_or ps k blank_peer).last_update_ms)
    → at (alloc_from ps i oldest stamp) ≡ min_stamp ps stamp
unfolding alloc_from min_stamp
alloc_from-min_stamp at [] i oldest stamp full o h = o
alloc_from-min_stamp at (p ∷ ps) i oldest stamp full o h =
    let tail = next_slot at (λ q. q.last_update_ms) p ps i h in
    let here : at i ≡ p.last_update_ms = ap at (omega arith) ∙ h 0 in
    let rest : is_full ps ≡ true = ground arith in
    ground (
      arith,
      alloc_from-min_stamp at ps (i + 1) i p.last_update_ms rest here tail,
      alloc_from-min_stamp at ps (i + 1) oldest stamp rest o tail,
    )

-- Where a slot is free the loop ends with a free slot.
alloc_from_free :
    (at : ℕ → Bool) (ps : List Peer) (i oldest stamp : ℕ)
    → is_full ps ≡ false
    → ((k : ℕ) → at (i + k) ≡ (get_or ps k blank_peer).valid)
    → at (alloc_from ps i oldest stamp) ≡ false
unfolding alloc_from
alloc_from_free at [] i oldest stamp full h = cc
alloc_from_free at (p ∷ ps) i oldest stamp full h =
    let tail = next_slot at (λ q. q.valid) p ps i h in
    let here : at i ≡ p.valid = ap at (omega arith) ∙ h 0 in
    elim (Bool-cases p.valid) [
      | inl used ↦
          let rest : is_full ps ≡ false = ground arith in
          ground (
            arith,
            alloc_from_free at ps (i + 1) i p.last_update_ms rest tail,
            alloc_from_free at ps (i + 1) oldest stamp rest tail,
          )
      | inr free ↦ ground arith
    ]

-- While a slot is free, no peer is evicted.
pub alloc_slot_free :
    (ps : List Peer) → is_full ps ≡ false → (get_or ps (alloc_slot ps) blank_peer).valid ≡ false
unfolding alloc_slot
alloc_slot_free ps full =
    alloc_from_free (λ k. (get_or ps k blank_peer).valid) ps 0 0 _ full
      λ k. ap (λ m. (get_or ps m blank_peer).valid) (omega arith)

-- In a full table the evicted peer's time of last contact is the smallest number in the table.
pub alloc_slot_full :
    (ps : List Peer) (j : ℕ)
    → is_full ps ≡ true
    → j < length ps
    → (get_or ps (alloc_slot ps) blank_peer).last_update_ms
      ≤ (get_or ps j blank_peer).last_update_ms
unfolding alloc_slot
alloc_slot_full ps j full h =
    rw
      (alloc_from-min_stamp (λ k. (get_or ps k blank_peer).last_update_ms) ps 0 0 _ full refl
        λ k. ap (λ m. (get_or ps m blank_peer).last_update_ms) (omega arith))
      (min_stamp-le_peer ps _ j h)
