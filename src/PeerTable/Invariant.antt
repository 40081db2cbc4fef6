-- ===== src/PeerTable/Invariant.antt =====
-- lib/ff_core/peer_table.cpp: the slots of a table after a history of updates and expiries.
use mathlib.Core.Path.{subst}
use formation_flight.Prelude.{
  ℕ, zero, suc, ◌≡◌, refl, ap, ◌∙◌, ◌⊎◌, inl, inr, List, [], ◌∷◌, none, some, true, false, arith,
  length, length-set, set, Option-cases, get_elem?, ◌≢◌, sym,
}
use formation_flight.Protocol.{PositionPacket, AnnouncePacket}
use formation_flight.PeerTable.{
  Peer, PeerTable, holds, find_mutable, claim, update_position, update_announce, with_position,
  with_announce, expire_all, expire, new_table, max_peers,
}
use formation_flight.PeerTable.Update.{holds-claim, holds-with_position, holds-with_announce}

-- No peer in use has a later namesake.
abbrev pub Unique : List Peer → Type 0
Unique [] = Unit {0}
Unique (p ∷ ps) = (p.valid ≡ true → find_mutable p.uid ps ≡ none) × Unique ps

pub record IsTable (t : PeerTable) : Type 0 where
  pub slots : length t.peers ≡ max_peers
  pub unique : Unique t.peers

-- A search that finds nothing finds nothing after a write of another peer.
find_mutable-none-set :
    (uid : ℕ) (ps : List Peer) (q : Peer) (i : ℕ)
    → find_mutable uid ps ≡ none
    → holds uid q ≡ false
    → find_mutable uid (set ps i q) ≡ none
unfolding find_mutable
find_mutable-none-set uid [] q i e h = refl
find_mutable-none-set uid (p ∷ ps) q zero e h = ground (arith, Option-cases (find_mutable uid ps))
find_mutable-none-set uid (p ∷ ps) q (suc i) e h =
    ground (arith, Option-cases (find_mutable uid ps), find_mutable-none-set uid ps q i)

-- A peer may be written where its uid stands, or anywhere if its uid stands nowhere.
Unique-set :
    (ps : List Peer) (q : Peer) (i : ℕ)
    → Unique ps
    → (find_mutable q.uid ps ≡ none) ⊎ (find_mutable q.uid ps ≡ some i)
    → Unique (set ps i q)
unfolding find_mutable
Unique-set [] q i u h = tt
Unique-set (p ∷ ps) q zero u h = (λ v. ground (arith, Option-cases (find_mutable q.uid ps)), u.1)
Unique-set (p ∷ ps) q (suc i) u h = (
  λ v.
      ground
        (arith, find_mutable-none-set p.uid ps q i (u.0 v), Option-cases (find_mutable q.uid ps)),
  Unique-set ps q i u.1 ground (arith, Option-cases (find_mutable q.uid ps)),
)

-- The claimed slot is where a peer of that uid may be written.
claim-place :
    (uid : ℕ) (ps : List Peer)
    → (find_mutable uid ps ≡ none) ⊎ (find_mutable uid ps ≡ some (claim uid ps).0)
unfolding claim
claim-place uid ps = elim (Option-cases (find_mutable uid ps)) [
  | inl e ↦ inl e
  | inr (i, e) ↦ ground arith
]

Unique-set-claim :
    (uid : ℕ) (ps : List Peer) (q : Peer)
    → holds uid q ≡ true
    → Unique ps
    → Unique (set ps (claim uid ps).0 q)
Unique-set-claim uid ps q h u =
    let same : q.uid ≡ uid = ground arith in
    Unique-set ps q (claim uid ps).0 u (rw same (claim-place uid ps))

update_position-IsTable :
    (p : PositionPacket) (now_ms rssi radio_index : ℕ) (t : PeerTable)
    → IsTable t
    → IsTable (update_position p now_ms rssi radio_index t).0
unfolding update_position
update_position-IsTable p now_ms rssi radio_index t v =
    let (i, peer) = claim p.uid t.peers in
    let q = with_position p now_ms rssi radio_index (claim p.uid t.peers).1 in
    record {
      slots = length-set t.peers (claim p.uid t.peers).0 q ∙ v.slots;
      unique =
          Unique-set-claim p.uid t.peers q
            (holds-with_position p.uid p now_ms rssi radio_index (claim p.uid t.peers).1
              ∙ holds-claim p.uid t.peers)
            v.unique;
    }

update_announce-IsTable :
    (a : AnnouncePacket) (now_ms radio_index : ℕ) (t : PeerTable)
    → IsTable t
    → IsTable (update_announce a now_ms radio_index t).0
unfolding update_announce
update_announce-IsTable a now_ms radio_index t v =
    let q = with_announce a now_ms radio_index (claim a.uid t.peers).1 in
    record {
      slots = length-set t.peers (claim a.uid t.peers).0 q ∙ v.slots;
      unique =
          Unique-set-claim a.uid t.peers q
            (holds-with_announce a.uid a now_ms radio_index (claim a.uid t.peers).1
              ∙ holds-claim a.uid t.peers)
            v.unique;
    }

length-expire_all :
    (now_ms timeout_ms : ℕ) (ps : List Peer) → length (expire_all now_ms timeout_ms ps) ≡ length ps
unfolding expire_all
length-expire_all now_ms timeout_ms [] = refl
length-expire_all now_ms timeout_ms (p ∷ ps) = ap suc (length-expire_all now_ms timeout_ms ps)

pub find_mutable-none_expire :
    (uid now_ms timeout_ms : ℕ) (ps : List Peer)
    → find_mutable uid ps ≡ none
    → find_mutable uid (expire_all now_ms timeout_ms ps) ≡ none
unfolding find_mutable expire_all
find_mutable-none_expire uid now_ms timeout_ms [] e = refl
find_mutable-none_expire uid now_ms timeout_ms (p ∷ ps) e =
    ground
      (arith, Option-cases (find_mutable uid ps), find_mutable-none_expire uid now_ms timeout_ms ps)

Unique-expire_all :
    (now_ms timeout_ms : ℕ) (ps : List Peer) → Unique ps → Unique (expire_all now_ms timeout_ms ps)
unfolding expire_all
Unique-expire_all now_ms timeout_ms [] u = tt
Unique-expire_all now_ms timeout_ms (p ∷ ps) u = (
  λ v. ground (arith, find_mutable-none_expire p.uid now_ms timeout_ms ps),
  Unique-expire_all now_ms timeout_ms ps u.1,
)

expire-IsTable : (now_ms : ℕ) (t : PeerTable) → IsTable t → IsTable (expire now_ms t)
unfolding expire
expire-IsTable now_ms t v = record {
  slots = length-expire_all now_ms t.timeout_ms t.peers ∙ v.slots;
  unique = Unique-expire_all now_ms t.timeout_ms t.peers v.unique;
}

pub new_table-IsTable : (timeout_ms : ℕ) → IsTable (new_table timeout_ms)
unfolding new_table
new_table-IsTable timeout_ms = ground arith

-- What a node does to its table.
pub data Change : Type 0 where
  heard_position : PositionPacket → ℕ → ℕ → ℕ → Change
  heard_announce : AnnouncePacket → ℕ → ℕ → Change
  expired : ℕ → Change

unfoldable pub change : Change → PeerTable → PeerTable
change (heard_position p now_ms rssi radio_index) t =
    (update_position p now_ms rssi radio_index t).0
change (heard_announce a now_ms radio_index) t = (update_announce a now_ms radio_index t).0
change (expired now_ms) t = expire now_ms t

unfoldable pub change_all : List Change → PeerTable → PeerTable
unfolding change
change_all [] t = t
change_all (c ∷ cs) t = change_all cs (change c t)

-- Every update and every expiry keeps the sixteen slots and the rule of one slot for each uid.
pub change-IsTable : (c : Change) (t : PeerTable) → IsTable t → IsTable (change c t)
unfolding change
change-IsTable (heard_position p now_ms rssi radio_index) t v =
    update_position-IsTable p now_ms rssi radio_index t v
change-IsTable (heard_announce a now_ms radio_index) t v =
    update_announce-IsTable a now_ms radio_index t v
change-IsTable (expired now_ms) t v = expire-IsTable now_ms t v

pub change_all-IsTable : (cs : List Change) (t : PeerTable) → IsTable t → IsTable (change_all cs t)
unfolding change_all
change_all-IsTable [] t v = v
change_all-IsTable (c ∷ cs) t v = change_all-IsTable cs (change c t) (change-IsTable c t v)

-- A peer in use is found by its uid, in its slot or before it.
find_mutable_no_later :
    (ps : List Peer) (p : Peer) (i : ℕ)
    → get_elem? ps i ≡ some p
    → p.valid ≡ true
    → find_mutable p.uid ps ≢ none
unfolding find_mutable
find_mutable_no_later [] p i e v = λ h. cc
find_mutable_no_later (q ∷ ps) p zero e v =
    λ h. ground (arith, Option-cases (find_mutable p.uid ps))
find_mutable_no_later (q ∷ ps) p (suc i) e v =
    λ h. ground (arith, Option-cases (find_mutable p.uid ps), find_mutable_no_later ps p i e v)

-- The first slot of a table, if it is in use, has no namesake.
Unique-head :
    (x p : Peer) (ps : List Peer) (uid : ℕ)
    → Unique (x ∷ ps)
    → get_elem? (x ∷ ps) 0 ≡ some p
    → p.valid ≡ true
    → p.uid ≡ uid
    → find_mutable uid ps ≡ none
Unique-head x p ps uid u e v same =
    let first : x ≡ p = cc in
    subst (λ n. find_mutable n ps ≡ none) (ap (λ r. r.uid) first ∙ same)
      (u.0 (ap (λ r. r.valid) first ∙ v))

-- Two slots with one uid are the same slot.
Unique-slots :
    (ps : List Peer) (p q : Peer) (i j : ℕ)
    → Unique ps
    → get_elem? ps i ≡ some p
    → get_elem? ps j ≡ some q
    → p.valid ≡ true
    → q.valid ≡ true
    → p.uid ≡ q.uid
    → i ≡ j
Unique-slots [] p q i j u e f v w same = cc
Unique-slots (x ∷ ps) p q zero zero u e f v w same = refl
Unique-slots (x ∷ ps) p q zero (suc j) u e f v w same =
    absurd (find_mutable_no_later ps q j f w (Unique-head x p ps q.uid u e v same))
Unique-slots (x ∷ ps) p q (suc i) zero u e f v w same =
    absurd (find_mutable_no_later ps p i e v (Unique-head x q ps p.uid u f w (sym same)))
Unique-slots (x ∷ ps) p q (suc i) (suc j) u e f v w same =
    ap suc (Unique-slots ps p q i j u.1 e f v w same)

-- Two different slots in use have different uids.
abbrev pub DistinctUids : List Peer → Type 0
DistinctUids ps =
    (i j : ℕ) (p q : Peer)
    → get_elem? ps i ≡ some p
    → get_elem? ps j ≡ some q
    → p.valid ≡ true
    → q.valid ≡ true
    → i ≢ j
    → p.uid ≢ q.uid

-- After any history of updates and expiries of a new table, it has sixteen slots, and two different
-- slots in use have different uids.
pub change_all-new_table :
    (cs : List Change) (timeout_ms : ℕ)
    → (length (change_all cs (new_table timeout_ms)).peers ≡ 16)
      × DistinctUids (change_all cs (new_table timeout_ms)).peers
change_all-new_table cs timeout_ms =
    let t = change_all-IsTable cs _ (new_table-IsTable timeout_ms) in
    (t.slots, λ i j p q e f v w apart same. apart (Unique-slots _ p q i j t.unique e f v w same))
