-- ===== src/Tests/Peers.antt =====
-- lib/ff_core/peer_table.cpp on a table of two peers, and on a full one.
use formation_flight.Prelude.{ℕ, ◌≡◌, ◌≢◌, refl, length, inl, List, [], ◌∷◌, some, true, arith}
use formation_flight.Protocol.{PositionPacket}
use formation_flight.PeerTable.{
  Peer, PeerTable, blank_peer, find, alloc_slot, new_table, update_position, expire,
}
use formation_flight.PeerTable.Update.{find-update_position}
use formation_flight.PeerTable.Invariant.{
  heard_position, expired, change_all, change_all-new_table, DistinctUids, change_all-IsTable,
  new_table-IsTable, Change,
}
use formation_flight.PeerTable.Expiry.{only_fresh, find-expire, alloc_slot-ne_wrapped}

abbrev beacon : ℕ → PositionPacket
beacon uid = record {
  uid = uid;
  lat = 10;
  lon = 20;
  alt_m = 30;
  speed_cms = 40;
  course_ddeg = 50;
  flags = 2;
}

abbrev peer_of : ℕ → ℕ → Peer
peer_of uid heard = record blank_peer { uid = uid; valid = true; last_update_ms = heard }

-- Two peers in use; the clock wraps between them.
abbrev pair : PeerTable
pair = record { peers = peer_of 5 4294967000 ∷ peer_of 6 100 ∷ blank_peer ∷ []; timeout_ms = 6000 }

abbrev full : List Peer
full = peer_of 5 4294967000 ∷ peer_of 6 100 ∷ []

find-update_position_example :
    find 6 (update_position (beacon 9) 700 0 1 pair).0.peers ≡ some (peer_of 6 100)
unfolding find
find-update_position_example =
    find-update_position (beacon 9) 700 0 1 6 pair (omega arith) (inl refl)

-- Two positions of one peer, a position of another between them, and an expiry.
abbrev changes : List Change
changes =
    heard_position (beacon 9) 700 0 1
    ∷ heard_position (beacon 4) 750 0 1
    ∷ heard_position (beacon 9) 800 0 1
    ∷ expired 900
    ∷ []

change_all-new_table_example :
    (length (change_all changes (new_table 6000)).peers ≡ 16)
    × DistinctUids (change_all changes (new_table 6000)).peers
change_all-new_table_example = change_all-new_table changes 6000

find-expire_example :
    find 9 (expire 900 (change_all (heard_position (beacon 9) 700 0 1 ∷ []) (new_table 100))).peers
    ≡ only_fresh 900 100
        (find 9 (change_all (heard_position (beacon 9) 700 0 1 ∷ []) (new_table 100)).peers)
unfolding change_all new_table update_position expire
find-expire_example =
    find-expire 9 900 (change_all (heard_position (beacon 9) 700 0 1 ∷ []) (new_table 100))
      (change_all-IsTable (heard_position (beacon 9) 700 0 1 ∷ []) _ (new_table-IsTable 100))

alloc_slot-ne_wrapped_example : alloc_slot full ≢ 0
alloc_slot-ne_wrapped_example =
    alloc_slot-ne_wrapped full 0 1 4294967000 4294967396 refl (omega arith) (omega arith) refl refl
      (omega arith) (omega arith)
