-- ===== src/PeerTable/Slots.antt =====
-- lib/ff_core/peer_table.cpp: the search for a peer's slot and the choice of a slot for a new one.
use mathlib.Core.Option
use formation_flight.Prelude.{
  ℕ, zero, suc, ◌+◌, ◌<◌, ◌≡◌, refl, ◌⊎◌, inl, inr, List, [], ◌∷◌, none, some, true, false, arith,
  length, set, get_or, Option-cases,
}
use formation_flight.PeerTable.{Peer, blank_peer, holds, find_mutable, find, alloc_from, alloc_slot}

-- `find` and `findMutable` agree: one returns what stands in the slot that the other names.
pub find-find_mutable :
    (uid : ℕ) (ps : List Peer)
    → find uid ps ≡ Option.map (λ i. get_or ps i blank_peer) (find_mutable uid ps)
unfolding find find_mutable
find-find_mutable uid [] = refl
find-find_mutable uid (p ∷ ps) =
    ground (arith, find-find_mutable uid ps, Option-cases (find_mutable uid ps))

-- The slot that is found lies in the table.
pub find_mutable-lt :
    (uid : ℕ) (ps : List Peer) {i : ℕ} → find_mutable uid ps ≡ some i → i < length ps
unfolding find_mutable
find_mutable-lt uid [] e = cc
find_mutable-lt uid (p ∷ ps) {i} e = elim (Option-cases (find_mutable uid ps)) [
  | inl n ↦ ground arith
  | inr (j, f) ↦ ground (arith, find_mutable-lt uid ps f)
]

-- Where the search ends, a matching peer that is written is found.
pub find-set_found :
    (uid : ℕ) (ps : List Peer) (q : Peer) {i : ℕ}
    → find_mutable uid ps ≡ some i
    → holds uid q ≡ true
    → find uid (set ps i q) ≡ some q
unfolding find_mutable find
find-set_found uid [] q e h = cc
find-set_found uid (p ∷ ps) q {i} e h = elim (Option-cases (find_mutable uid ps)) [
  | inl n ↦ ground arith
  | inr (j, f) ↦ ground (arith, find-set_found uid ps q f h)
]

-- A matching peer that is written where none was before is found.
pub find-set_new :
    (uid : ℕ) (ps : List Peer) (q : Peer) (i : ℕ)
    → find_mutable uid ps ≡ none
    → i < length ps
    → holds uid q ≡ true
    → find uid (set ps i q) ≡ some q
unfolding find_mutable find
find-set_new uid [] q i e h m = absurd (omega arith)
find-set_new uid (p ∷ ps) q zero e h m = ground arith
find-set_new uid (p ∷ ps) q (suc i) e h m =
    ground (arith, Option-cases (find_mutable uid ps), find-set_new uid ps q i)

-- A write to a slot that neither holds a peer before nor after does not change where it is found.
pub find_mutable-set_other :
    (uid : ℕ) (ps : List Peer) (q : Peer) (i : ℕ)
    → holds uid (get_or ps i blank_peer) ≡ false
    → holds uid q ≡ false
    → find_mutable uid (set ps i q) ≡ find_mutable uid ps
unfolding find_mutable
find_mutable-set_other uid [] q i h m = refl
find_mutable-set_other uid (p ∷ ps) q zero h m = ground arith
find_mutable-set_other uid (p ∷ ps) q (suc i) h m =
    ground (arith, find_mutable-set_other uid ps q i h m)

pub find-set_other :
    (uid : ℕ) (ps : List Peer) (q : Peer) (i : ℕ)
    → holds uid (get_or ps i blank_peer) ≡ false
    → holds uid q ≡ false
    → find uid (set ps i q) ≡ find uid ps
unfolding find
find-set_other uid [] q i h m = refl
find-set_other uid (p ∷ ps) q zero h m = ground arith
find-set_other uid (p ∷ ps) q (suc i) h m = ground (arith, find-set_other uid ps q i h m)

pub holds_found :
    (uid : ℕ) (ps : List Peer) {i : ℕ}
    → find_mutable uid ps ≡ some i
    → holds uid (get_or ps i blank_peer) ≡ true
unfolding find_mutable
holds_found uid [] e = cc
holds_found uid (p ∷ ps) {i} e = elim (Option-cases (find_mutable uid ps)) [
  | inl n ↦ ground arith
  | inr (j, f) ↦ ground (arith, holds_found uid ps f)
]

-- The slot for a new peer lies in the table.
alloc_from-bounds :
    (ps : List Peer) (i oldest stamp : ℕ)
    → (alloc_from ps i oldest stamp ≡ oldest) ⊎ (alloc_from ps i oldest stamp < i + length ps)
unfolding alloc_from
alloc_from-bounds [] i oldest stamp = inl refl
alloc_from-bounds (p ∷ ps) i oldest stamp = ground (
  arith,
  alloc_from-bounds ps (i + 1) i p.last_update_ms,
  alloc_from-bounds ps (i + 1) oldest stamp,
)

pub alloc_slot-lt : (ps : List Peer) → 0 < length ps → alloc_slot ps < length ps
unfolding alloc_slot
alloc_slot-lt ps h =
    ground (arith, alloc_from-bounds ps 0 0 (get_or ps 0 blank_peer).last_update_ms)
