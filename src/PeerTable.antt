-- ===== src/PeerTable.antt =====
-- lib/ff_core/peer_table.h and peer_table.cpp: the peers of a node.
--
-- A pointer to a slot is its index, and `nullptr` is `none`. Times are uint32_t milliseconds, which
-- wrap; `now_ms - last_update_ms` is `sub32`.
pub mod Eviction
pub mod Expiry
pub mod Invariant
pub mod Slots
pub mod Update
use mathlib.Core.Option
use formation_flight.Prelude.{
  ℕ, zero, suc, ◌+◌, List, [], ◌∷◌, Option, none, some, Bool, true, false, not, ◌&&◌, bit_and,
  bit_or, ltb, leb, ◌==◌, if◌then◌else◌, set, get_or, replicate, get_elem?, u8, shl, add32, sub32,
}
use formation_flight.Protocol.{PositionPacket, AnnouncePacket, max_name_len}

abbrev pub max_peers : ℕ
max_peers = 16

abbrev pub max_radios : ℕ
max_radios = 4

pub record Peer : Type 0 where
  pub uid : ℕ
  pub valid : Bool
  pub lat : ℕ
  pub lon : ℕ
  pub alt_m : ℕ
  pub speed_cms : ℕ
  pub course_ddeg : ℕ
  pub flags : ℕ
  pub name : List ℕ
  pub capabilities : ℕ
  pub last_update_ms : ℕ
  pub last_position_ms : ℕ
  pub rssi : ℕ
  pub packets_received : ℕ
  pub last_seen_on : List ℕ
  pub radios_seen : ℕ

-- `Peer{}`.
abbrev pub blank_peer : Peer
blank_peer = record {
  uid = 0;
  valid = false;
  lat = 0;
  lon = 0;
  alt_m = 0;
  speed_cms = 0;
  course_ddeg = 0;
  flags = 0;
  name = replicate 16 0;
  capabilities = 0;
  last_update_ms = 0;
  last_position_ms = 0;
  rssi = 0;
  packets_received = 0;
  last_seen_on = replicate max_radios 0;
  radios_seen = 0;
}

pub record PeerTable : Type 0 where
  pub peers : List Peer
  pub timeout_ms : ℕ

-- The constructor.
unfoldable pub new_table : ℕ → PeerTable
new_table timeout_ms = record { peers = replicate max_peers blank_peer; timeout_ms = timeout_ms }

abbrev pub holds : ℕ → Peer → Bool
holds uid p = p.valid && p.uid == uid

unfoldable pub find_mutable : ℕ → List Peer → Option ℕ
find_mutable uid [] = none
find_mutable uid (p ∷ ps) = if holds uid p then some 0 else Option.map suc (find_mutable uid ps)

unfoldable pub find : ℕ → List Peer → Option Peer
find uid [] = none
find uid (p ∷ ps) = if holds uid p then some p else find uid ps

-- The loop of `allocSlot`, from slot `i` on, with the oldest slot so far and its time.
unfoldable pub alloc_from : List Peer → ℕ → ℕ → ℕ → ℕ
alloc_from [] i oldest stamp = oldest
alloc_from (p ∷ ps) i oldest stamp =
    let older = ltb p.last_update_ms stamp in
    let rest =
      alloc_from ps (i + 1) (if older then i else oldest)
        (if older then p.last_update_ms else stamp) in
    if not p.valid then i else rest

unfoldable pub alloc_slot : List Peer → ℕ
unfolding alloc_from
alloc_slot ps = alloc_from ps 0 0 (get_or ps 0 blank_peer).last_update_ms

unfoldable pub mark_heard_on : Peer → ℕ → ℕ → Peer
mark_heard_on peer radio_index now_ms =
    if ltb radio_index max_radios
    then record peer {
      last_seen_on = set peer.last_seen_on radio_index now_ms;
      radios_seen = bit_or peer.radios_seen (u8 (shl 1 radio_index));
    }
    else peer

-- The slot that an update writes, with its contents before the update: the peer's own, or one that
-- is reset for it.
unfoldable pub claim : ℕ → List Peer → ℕ × Peer
unfolding find_mutable alloc_slot
claim uid ps = elim (find_mutable uid ps) [
  | some i ↦ (i, get_or ps i blank_peer)
  | none ↦ (alloc_slot ps, record blank_peer { uid = uid; valid = true })
]

-- What `updatePosition` stores in the peer.
unfoldable pub with_position : PositionPacket → ℕ → ℕ → ℕ → Peer → Peer
unfolding mark_heard_on
with_position p now_ms rssi radio_index peer =
    let moved = record peer {
      lat = p.lat;
      lon = p.lon;
      alt_m = p.alt_m;
      speed_cms = p.speed_cms;
      course_ddeg = p.course_ddeg;
      flags = p.flags;
      last_update_ms = now_ms;
      last_position_ms = now_ms;
      rssi = if rssi == 0 then peer.rssi else rssi;
    } in
    let heard = mark_heard_on moved radio_index now_ms in
    record heard { packets_received = add32 heard.packets_received 1 }

-- `rssi` is the bit pattern of an int16_t. The result is the new table with the peer's slot.
unfoldable pub update_position : PositionPacket → ℕ → ℕ → ℕ → PeerTable → PeerTable × ℕ
unfolding claim with_position
update_position p now_ms rssi radio_index t =
    let (i, peer) = claim p.uid t.peers in
    (record t { peers = set t.peers i (with_position p now_ms rssi radio_index peer) }, i)

-- The write of the terminator behind the copied name.
unfoldable pub terminate : List ℕ → List ℕ
terminate [] = []
terminate (d ∷ ds) = 0 ∷ ds

-- The loop that copies at most `n` bytes of a name over `dst`, and the terminator.
unfoldable pub copy_name : ℕ → List ℕ → List ℕ → List ℕ
unfolding terminate
copy_name zero src dst = terminate dst
copy_name (suc n) [] dst = terminate dst
copy_name (suc n) (c ∷ src) [] = []
copy_name (suc n) (c ∷ src) (d ∷ dst) = if c == 0 then 0 ∷ dst else c ∷ copy_name n src dst

-- What `updateAnnounce` stores in the peer.
unfoldable pub with_announce : AnnouncePacket → ℕ → ℕ → Peer → Peer
unfolding mark_heard_on copy_name
with_announce a now_ms radio_index peer =
    let named = record peer {
      name = copy_name max_name_len a.name peer.name;
      capabilities = a.capabilities;
      last_update_ms = now_ms;
    } in
    let heard = mark_heard_on named radio_index now_ms in
    record heard { packets_received = add32 heard.packets_received 1 }

unfoldable pub update_announce : AnnouncePacket → ℕ → ℕ → PeerTable → PeerTable × ℕ
unfolding claim with_announce
update_announce a now_ms radio_index t =
    let (i, peer) = claim a.uid t.peers in
    (record t { peers = set t.peers i (with_announce a now_ms radio_index peer) }, i)

-- Whether the peer was heard within the timeout.
abbrev pub is_fresh : ℕ → ℕ → Peer → Bool
is_fresh now_ms timeout_ms p = leb (sub32 now_ms p.last_update_ms) timeout_ms

abbrev pub expire_peer : ℕ → ℕ → Peer → Peer
expire_peer now_ms timeout_ms p =
    if p.valid && ltb timeout_ms (sub32 now_ms p.last_update_ms)
    then record p { valid = false }
    else p

unfoldable pub expire_all : ℕ → ℕ → List Peer → List Peer
expire_all now_ms timeout_ms [] = []
expire_all now_ms timeout_ms (p ∷ ps) =
    expire_peer now_ms timeout_ms p ∷ expire_all now_ms timeout_ms ps

unfoldable pub expire : ℕ → PeerTable → PeerTable
unfolding expire_all
expire now_ms t = record t { peers = expire_all now_ms t.timeout_ms t.peers }

unfoldable pub count_peers : (Peer → Bool) → List Peer → ℕ
count_peers test [] = 0
count_peers test (p ∷ ps) = let n = count_peers test ps in if test p then suc n else n

unfoldable pub count_active : ℕ → PeerTable → ℕ
unfolding count_peers
count_active now_ms t = count_peers (λ p. p.valid && is_fresh now_ms t.timeout_ms p) t.peers

abbrev pub heard_on : ℕ → ℕ → ℕ → Peer → Bool
heard_on radio_index now_ms timeout_ms p =
    p.valid
    && (not (bit_and p.radios_seen (u8 (shl 1 radio_index)) == 0)
        && leb (sub32 now_ms (get_or p.last_seen_on radio_index 0)) timeout_ms)

unfoldable pub count_active_on : ℕ → ℕ → PeerTable → ℕ
unfolding count_peers
count_active_on radio_index now_ms t =
    if leb max_radios radio_index
    then 0
    else count_peers (heard_on radio_index now_ms t.timeout_ms) t.peers

abbrev pub if_valid : Peer → Option Peer
if_valid p = if p.valid then some p else none

-- `at`: the slot's peer if the index is in range and the slot is in use.
unfoldable pub peer_at : ℕ → PeerTable → Option Peer
peer_at index t =
    if leb max_peers index
    then none
    else elim (get_elem? t.peers index) [ none ↦ none | some p ↦ if_valid p ]
