-- ===== src/PeerTable/Expiry.antt =====
-- lib/ff_core/peer_table.cpp: who is expired, who is counted, and eviction across the wrap of the
-- millisecond clock.
use formation_flight.Prelude.{
  ℕ, ◌-◌, ◌≤◌, ◌<◌, ◌≡◌, ◌≢◌, refl, ap, sym, List, [], ◌∷◌, Option, none, some, true, ◌&&◌, arith,
  length, get_or, Bool-cases, inl, inr, if◌then◌else◌, u32, sub32,
}
use formation_flight.PeerTable.{
  Peer, PeerTable, blank_peer, holds, is_fresh, find, find_mutable, expire_all, expire, count_peers,
  count_active, alloc_slot,
}
use formation_flight.PeerTable.Slots.{find-find_mutable}
use formation_flight.PeerTable.Eviction.{is_full, alloc_slot_full}
use formation_flight.PeerTable.Invariant.{Unique, IsTable, find_mutable-none_expire}

-- What is left of a search result when the peers that were not heard in time are gone.
abbrev pub only_fresh : ℕ → ℕ → Option Peer → Option Peer
only_fresh now_ms timeout_ms none = none
only_fresh now_ms timeout_ms (some p) = if is_fresh now_ms timeout_ms p then some p else none

find-none_expire :
    (uid now_ms timeout_ms : ℕ) (ps : List Peer)
    → find_mutable uid ps ≡ none
    → find uid (expire_all now_ms timeout_ms ps) ≡ none
find-none_expire uid now_ms timeout_ms ps e = ground (
  arith,
  find-find_mutable uid (expire_all now_ms timeout_ms ps),
  find_mutable-none_expire uid now_ms timeout_ms ps e,
)

find-expire_all :
    (uid now_ms timeout_ms : ℕ) (ps : List Peer)
    → Unique ps
    → find uid (expire_all now_ms timeout_ms ps) ≡ only_fresh now_ms timeout_ms (find uid ps)
unfolding find expire_all
find-expire_all uid now_ms timeout_ms [] u = refl
find-expire_all uid now_ms timeout_ms (p ∷ ps) u = elim (Bool-cases (holds uid p)) [
  | inl here ↦
      let same : p.uid ≡ uid = ground arith in
      let used : p.valid ≡ true = ground arith in
      ground (arith, find-none_expire p.uid now_ms timeout_ms ps (u.0 used))
  | inr other ↦ ground (arith, find-expire_all uid now_ms timeout_ms ps u.1)
]

-- After an expiry a peer is found exactly if it was found before and was heard within the timeout;
-- it is found as it was.
pub find-expire :
    (uid now_ms : ℕ) (t : PeerTable)
    → IsTable t
    → find uid (expire now_ms t).peers ≡ only_fresh now_ms t.timeout_ms (find uid t.peers)
unfolding expire
find-expire uid now_ms t v = find-expire_all uid now_ms t.timeout_ms t.peers v.unique

count-expire_all :
    (now_ms timeout_ms : ℕ) (ps : List Peer)
    → count_peers (λ p. p.valid) (expire_all now_ms timeout_ms ps)
      ≡ count_peers (λ p. p.valid && is_fresh now_ms timeout_ms p) ps
unfolding count_peers expire_all
count-expire_all now_ms timeout_ms [] = refl
count-expire_all now_ms timeout_ms (p ∷ ps) = ground (arith, count-expire_all now_ms timeout_ms ps)

-- The count of active peers is the number of slots that an expiry at that time leaves in use: it
-- leaves out the peers whose time is over, whether they have been expired or not.
pub count_active-expire :
    (now_ms : ℕ) (t : PeerTable)
    → count_active now_ms t ≡ count_peers (λ p. p.valid) (expire now_ms t).peers
unfolding count_active expire
count_active-expire now_ms t = sym (count-expire_all now_ms t.timeout_ms t.peers)

-- The age of a peer in the table's clock is the time since it was heard, if that is below 2 ^ 32 ms,
-- also where the clock has wrapped in between.
pub sub32_elapsed :
    (heard now : ℕ)
    → heard ≤ now
    → now - heard < 4294967296
    → sub32 (u32 now) (u32 heard) ≡ now - heard
sub32_elapsed heard now h k = omega arith

-- Eviction does not see the wrap: in a full table the peer in slot i, heard before the one in slot
-- j, is not the one evicted if the clock has wrapped between the two.
pub alloc_slot-ne_wrapped :
    (ps : List Peer) (i j heard_i heard_j : ℕ)
    → is_full ps ≡ true
    → i < length ps
    → j < length ps
    → (get_or ps i blank_peer).last_update_ms ≡ u32 heard_i
    → (get_or ps j blank_peer).last_update_ms ≡ u32 heard_j
    → heard_i < heard_j
    → u32 heard_j < u32 heard_i
    → alloc_slot ps ≢ i
alloc_slot-ne_wrapped ps i j heard_i heard_j full hi hj ei ej earlier wrap e =
    let evicted = ap (λ k. (get_or ps k blank_peer).last_update_ms) e in
    absurd (omega (arith, alloc_slot_full ps j full hj, evicted, ei, ej))
