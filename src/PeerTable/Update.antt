-- ===== src/PeerTable/Update.antt =====
-- lib/ff_core/peer_table.cpp: what an update does to its peer, to the others and to the invariant.
use mathlib.Core.Option
use native.Mathlib.Decide.{ℕ_discrete}
use formation_flight.Prelude.{
  ℕ, zero, suc, ◌<◌, ◌≡◌, ◌≢◌, refl, ◌∙◌, ◌⊎◌, inl, inr, List, [], ◌∷◌, ◌++◌, none, some, true,
  false, arith, length, set, get_or, take, drop, Option-cases, ◌==◌, if◌then◌else◌, ltb, bit_or, u8,
  shl, add32,
}
use formation_flight.Protocol.{PositionPacket, AnnouncePacket, bounded_len, max_name_len}
use formation_flight.Protocol.Announce.{c_string, bounded_len-le}
use formation_flight.PeerTable.{
  Peer, PeerTable, blank_peer, holds, find_mutable, find, alloc_slot, claim, with_position,
  update_position, copy_name, with_announce, update_announce,
}
use formation_flight.PeerTable.Slots.{
  find-find_mutable, find-set_found, find-set_new, find-set_other, holds_found, alloc_slot-lt,
}
use formation_flight.PeerTable.Eviction.{is_full, alloc_slot_free}

-- A write into the claimed slot is found, if it keeps the peer's uid.
find-claim :
    (uid : ℕ) (ps : List Peer) (q : Peer)
    → 0 < length ps
    → holds uid q ≡ true
    → find uid (set ps (claim uid ps).0 q) ≡ some q
unfolding claim
find-claim uid ps q h m = elim (Option-cases (find_mutable uid ps)) [
  | inl e ↦ ground (arith, find-set_new uid ps q (alloc_slot ps) e (alloc_slot-lt ps h) m)
  | inr (i, e) ↦ ground (arith, find-set_found uid ps q e m)
]

-- The claimed peer is in use, under the packet's uid.
pub holds-claim : (uid : ℕ) (ps : List Peer) → holds uid (claim uid ps).1 ≡ true
unfolding claim
holds-claim uid ps = elim (Option-cases (find_mutable uid ps)) [
  | inl e ↦ ground arith
  | inr (i, e) ↦ ground (arith, holds_found uid ps e)
]

pub holds-with_position :
    (uid : ℕ) (p : PositionPacket) (now_ms rssi radio_index : ℕ) (peer : Peer)
    → holds uid (with_position p now_ms rssi radio_index peer) ≡ holds uid peer
unfolding with_position
holds-with_position uid p now_ms rssi radio_index peer = ground arith

pub holds-with_announce :
    (uid : ℕ) (a : AnnouncePacket) (now_ms radio_index : ℕ) (peer : Peer)
    → holds uid (with_announce a now_ms radio_index peer) ≡ holds uid peer
unfolding with_announce
holds-with_announce uid a now_ms radio_index peer = ground arith

-- The peer before an update: the one that is known, or a new one.
abbrev pub known_or_new : ℕ → List Peer → Peer
known_or_new uid ps = Option.get_or (find uid ps) (record blank_peer { uid = uid; valid = true })

claim-known_or_new : (uid : ℕ) (ps : List Peer) → (claim uid ps).1 ≡ known_or_new uid ps
unfolding claim
claim-known_or_new uid ps =
    ground (arith, Option-cases (find_mutable uid ps), find-find_mutable uid ps)

-- A slot that is claimed holds no other peer, if the table has a free slot or knows the peer.
claim-not_other :
    (uid w : ℕ) (ps : List Peer)
    → (is_full ps ≡ false) ⊎ (find uid ps ≢ none)
    → w ≢ uid
    → holds w (get_or ps (claim uid ps).0 blank_peer) ≡ false
unfolding claim
claim-not_other uid w ps room ne = elim (Option-cases (find_mutable uid ps)) [
  | inl e ↦ ground (arith, alloc_slot_free ps, find-find_mutable uid ps)
  | inr (i, e) ↦ ground (arith, holds_found uid ps e)
]

-- A write into the claimed slot, seen as a write into a map from uids to peers.
find-set-claim :
    (uid w : ℕ) (ps : List Peer) (q : Peer)
    → 0 < length ps
    → holds uid q ≡ true
    → (is_full ps ≡ false) ⊎ (find uid ps ≢ none)
    → find w (set ps (claim uid ps).0 q) ≡ (if w == uid then some q else find w ps)
find-set-claim uid w ps q h m room = elim (ℕ_discrete w uid) [
  | yes e ↦ ground (arith, find-claim uid ps q h m)
  | no ne ↦
      let other : holds w q ≡ false = ground arith in
      ground
        (arith, find-set_other w ps q (claim uid ps).0 (claim-not_other uid w ps room ne) other)
]

-- What a position packet leaves in a peer's entry: the packet's fields, the time, the strength of
-- the signal if it is known, and the radio that it came by.
abbrev pub stored_position : PositionPacket → ℕ → ℕ → ℕ → Peer → Peer
stored_position p now_ms rssi radio_index old = record old {
  lat = p.lat;
  lon = p.lon;
  alt_m = p.alt_m;
  speed_cms = p.speed_cms;
  course_ddeg = p.course_ddeg;
  flags = p.flags;
  last_update_ms = now_ms;
  last_position_ms = now_ms;
  rssi = if rssi == 0 then old.rssi else rssi;
  packets_received = add32 old.packets_received 1;
  last_seen_on =
      if ltb radio_index 4 then set old.last_seen_on radio_index now_ms else old.last_seen_on;
  radios_seen =
      if ltb radio_index 4
      then bit_or old.radios_seen (u8 (shl 1 radio_index))
      else old.radios_seen;
}

with_position-stored :
    (p : PositionPacket) (now_ms rssi radio_index : ℕ) (old : Peer)
    → with_position p now_ms rssi radio_index old ≡ stored_position p now_ms rssi radio_index old
unfolding with_position
with_position-stored p now_ms rssi radio_index old = ground arith

-- While the table has a free slot or knows the sender, a position packet is an update of a map from
-- uids to peers: the sender's entry is the old or a blank one with the packet's fields, the time,
-- the signal and the radio stored in it, and every other peer is found as before.
pub find-update_position :
    (p : PositionPacket) (now_ms rssi radio_index w : ℕ) (t : PeerTable)
    → 0 < length t.peers
    → (is_full t.peers ≡ false) ⊎ (find p.uid t.peers ≢ none)
    → find w (update_position p now_ms rssi radio_index t).0.peers ≡ (
        if w == p.uid
        then some (stored_position p now_ms rssi radio_index (known_or_new p.uid t.peers))
        else find w t.peers)
unfolding update_position
find-update_position p now_ms rssi radio_index w t h room =
    let q = with_position p now_ms rssi radio_index (claim p.uid t.peers).1 in
    rw
      (
        ← claim-known_or_new p.uid t.peers,
        ← with_position-stored p now_ms rssi radio_index (claim p.uid t.peers).1,
      )
      (find-set-claim p.uid w t.peers q h
        (holds-with_position p.uid p now_ms rssi radio_index (claim p.uid t.peers).1
          ∙ holds-claim p.uid t.peers)
        room)

-- The copy of a name is the C string with its terminator, over the front of what stood there.
copy_name_lem :
    (n : ℕ) (src dst : List ℕ)
    → bounded_len src n < length dst
    → copy_name n src dst ≡ take (bounded_len src n) src ++ (0 ∷ drop (suc (bounded_len src n)) dst)
unfolding copy_name bounded_len
copy_name_lem zero [] [] h = absurd (omega arith)
copy_name_lem zero [] (d ∷ dst) h = refl
copy_name_lem zero (c ∷ src) [] h = absurd (omega arith)
copy_name_lem zero (c ∷ src) (d ∷ dst) h = refl
copy_name_lem (suc n) [] [] h = absurd (omega arith)
copy_name_lem (suc n) [] (d ∷ dst) h = refl
copy_name_lem (suc n) (c ∷ src) [] h = absurd (omega arith)
copy_name_lem (suc n) (c ∷ src) (d ∷ dst) h = ground (arith, copy_name_lem n src dst)

-- What an announce packet leaves in a peer's entry.
abbrev pub stored_announce : AnnouncePacket → ℕ → ℕ → Peer → Peer
stored_announce a now_ms radio_index old = record old {
  name = c_string a.name ++ (0 ∷ drop (suc (bounded_len a.name max_name_len)) old.name);
  capabilities = a.capabilities;
  last_update_ms = now_ms;
  packets_received = add32 old.packets_received 1;
  last_seen_on =
      if ltb radio_index 4 then set old.last_seen_on radio_index now_ms else old.last_seen_on;
  radios_seen =
      if ltb radio_index 4
      then bit_or old.radios_seen (u8 (shl 1 radio_index))
      else old.radios_seen;
}

with_announce-stored :
    (a : AnnouncePacket) (now_ms radio_index : ℕ) (old : Peer)
    → max_name_len < length old.name
    → with_announce a now_ms radio_index old ≡ stored_announce a now_ms radio_index old
unfolding with_announce
with_announce-stored a now_ms radio_index old h =
    ground (arith, copy_name_lem max_name_len a.name old.name, bounded_len-le a.name max_name_len)

-- While the table has a free slot or knows the sender, an announce packet is an update of a map
-- from uids to peers: the sender's entry is the old or a blank one with the packet's name cut to a
-- C string of fifteen bytes, its capabilities, the time and the radio stored in it, and every other
-- peer is found as before. The entry's name has room for fifteen bytes and the terminator.
pub find-update_announce :
    (a : AnnouncePacket) (now_ms radio_index w : ℕ) (t : PeerTable)
    → 0 < length t.peers
    → (is_full t.peers ≡ false) ⊎ (find a.uid t.peers ≢ none)
    → max_name_len < length (known_or_new a.uid t.peers).name
    → find w (update_announce a now_ms radio_index t).0.peers ≡ (
        if w == a.uid
        then some (stored_announce a now_ms radio_index (known_or_new a.uid t.peers))
        else find w t.peers)
unfolding update_announce
find-update_announce a now_ms radio_index w t h room named =
    let q = with_announce a now_ms radio_index (claim a.uid t.peers).1 in
    rw
      (
        ← with_announce-stored a now_ms radio_index (known_or_new a.uid t.peers) named,
        ← claim-known_or_new a.uid t.peers,
      )
      (find-set-claim a.uid w t.peers q h
        (holds-with_announce a.uid a now_ms radio_index (claim a.uid t.peers).1
          ∙ holds-claim a.uid t.peers)
        room)
