-- ===== src/Node/Receive/Tally.antt =====
-- lib/ff_core/node.cpp: the counters, the log and the statistics of a frame.
use mathlib.Core.Path.{subst}
use formation_flight.Prelude.{
  ℕ, zero, suc, [], ◌∷◌, ap, ◌∙◌, ◌+◌, ◌<◌, ◌≡◌, refl, sym, List, Bool, true, false, if◌then◌else◌,
  ltb, length, get_or, set, u32, arith, length-set,
}
use formation_flight.PeerTable.{PeerTable, max_radios}
use formation_flight.FrameLog
use formation_flight.FrameLog.{FrameResult, FrameLogEntry, entry_at}
use formation_flight.FrameLog.Recent.{WellFormed, entry_at-add_newest}
use formation_flight.RateControl.{Double}
use formation_flight.Node.Interfaces.{NodeStats, RadioStats}
use formation_flight.Node.State.{Node, log_frame, on_radio, stats_of, no_radio_stats}

-- What one frame with a result adds to the node's counters.
abbrev pub counted : FrameResult → NodeStats → NodeStats
counted FrameLog.tx s = s
counted FrameLog.ok s = record s { rx_ok = u32 (s.rx_ok + 1) }
counted FrameLog.self s = record s { rx_self = u32 (s.rx_self + 1) }
counted FrameLog.crypto_fail s = record s { rx_rejected = u32 (s.rx_rejected + 1) }
counted FrameLog.replay_fail s = record s { rx_rejected = u32 (s.rx_rejected + 1) }
counted FrameLog.decode_fail s = record s { rx_rejected = u32 (s.rx_rejected + 1) }
counted FrameLog.oversize s = record s { rx_rejected = u32 (s.rx_rejected + 1) }

-- What it adds to those of the radio that heard it.
abbrev pub tallied : {D : Type 0} → FrameResult → RadioStats D → RadioStats D
tallied FrameLog.tx s = s
tallied FrameLog.ok s = record s { rx_ok = u32 (s.rx_ok + 1) }
tallied FrameLog.self s = record s { rx_self = u32 (s.rx_self + 1) }
tallied FrameLog.crypto_fail s = record s { rx_crypto_fail = u32 (s.rx_crypto_fail + 1) }
tallied FrameLog.replay_fail s = record s { rx_replay = u32 (s.rx_replay + 1) }
tallied FrameLog.decode_fail s = record s { rx_decode_fail = u32 (s.rx_decode_fail + 1) }
tallied FrameLog.oversize s = record s { rx_decode_fail = u32 (s.rx_decode_fail + 1) }

pub if_either :
    {A : Type 0} (P : A → Type 0) (b : Bool) {x y : A} → P x → P y → P (if b then x else y)
if_either P true px py = px
if_either P false px py = py

-- The table behind a frame with a result: the updated one or the old one.
abbrev pub table_after : FrameResult → PeerTable → PeerTable → PeerTable
table_after FrameLog.ok old updated = updated
table_after FrameLog.tx old updated = old
table_after FrameLog.self old updated = old
table_after FrameLog.crypto_fail old updated = old
table_after FrameLog.replay_fail old updated = old
table_after FrameLog.decode_fail old updated = old
table_after FrameLog.oversize old updated = old

-- Between two states of a node lies one frame, heard at `now_ms` on `radio_index`, with the result
-- that the log's newest line names.
pub record Accounted {D : Type 0} ⦃d : Double D⦄ (now_ms rssi radio_index : ℕ) (n n' : Node D)
    : Type 0 where
  pub total : n'.stats ≡ counted (entry_at n'.frames 0).result n.stats
  pub per_radio :
      stats_of n' radio_index
      ≡ tallied
          (entry_at n'.frames 0).result
          (record (stats_of n radio_index) { last_rx_ms = now_ms; last_rssi = rssi })
  pub table : n'.peers ≡ table_after (entry_at n'.frames 0).result n.peers n'.peers
  pub room : length n'.radio_stats ≡ length n.radio_stats

abbrev slot_of : ℕ → ℕ
slot_of index = if ltb index max_radios then index else 0

slot_of-lt : (index : ℕ) → slot_of index < 4
slot_of-lt index = ground arith

module _ {D : Type 0} ⦃d : Double D⦄ where
  get_or-set_self :
      (xs : List (RadioStats D)) (i : ℕ) (v : RadioStats D)
      → i < length xs
      → get_or (set xs i v) i no_radio_stats ≡ v
  get_or-set_self [] i v i<0 = absurd (ground arith)
  get_or-set_self (x ∷ xs) zero v _ = refl
  get_or-set_self (x ∷ xs) (suc i) v i<n = get_or-set_self xs i v (omega arith)

  -- The way every branch ends: the counters, the table, one radio's statistics, a log line.
  abbrev settled :
      ℕ
      → ℕ
      → ℕ
      → ℕ
      → ℕ
      → ℕ
      → FrameResult
      → (RadioStats D → RadioStats D)
      → NodeStats
      → PeerTable
      → Node D
      → Node D
  settled clock_ms radio_index uid len rssi type result change stats peers n =
      log_frame clock_ms radio_index uid len rssi type result
        (on_radio radio_index change (record n { stats = stats; peers = peers }))

  abbrev pub heard : ℕ → ℕ → ℕ → Node D → Node D
  heard now_ms rssi radio_index n =
      on_radio radio_index (λ rs. record rs { last_rx_ms = now_ms; last_rssi = rssi }) n

  pub settled-Accounted :
      (clock_ms now_ms rssi radio_index uid len type : ℕ) (result : FrameResult)
      (change : RadioStats D → RadioStats D) (stats : NodeStats) (peers : PeerTable) (n : Node D)
      → WellFormed n.frames
      → length n.radio_stats ≡ 4
      → ((rs : RadioStats D) → change rs ≡ tallied result rs)
      → stats ≡ counted result n.stats
      → peers ≡ table_after result n.peers peers
      → Accounted now_ms rssi radio_index n (
          settled clock_ms radio_index uid len rssi type result change stats peers
            (heard now_ms rssi radio_index n))
  unfolding log_frame stats_of
  settled-Accounted clock_ms now_ms rssi radio_index uid len type result change stats peers n w l
        changed st ps =
      record {
        total = st ∙ ap (λ r. counted r n.stats) (sym newest);
        per_radio =
            get_or-set_self touched slot (change (get_or touched slot no_radio_stats)) (
              subst (λ k. slot < k) (sym (length-set n.radio_stats slot _ ∙ l))
                (slot_of-lt radio_index))
            ∙ (changed (get_or touched slot no_radio_stats)
                ∙ (ap (tallied result) (
                      get_or-set_self n.radio_stats slot mine
                        (subst (λ k. slot < k) (sym l) (slot_of-lt radio_index)))
                    ∙ ap (λ r. tallied r mine) (sym newest)));
        table = ps ∙ ap (λ r. table_after r n.peers peers) (sym newest);
        room = length-set touched slot _ ∙ length-set n.radio_stats slot _;
      }
    where
      slot : ℕ
      slot = slot_of radio_index

      mine : RadioStats D
      mine = record (stats_of n radio_index) { last_rx_ms = now_ms; last_rssi = rssi }

      touched : List (RadioStats D)
      touched = (heard now_ms rssi radio_index n).radio_stats

      newest :
          (entry_at
            (settled clock_ms radio_index uid len rssi type result change stats peers
              (heard now_ms rssi radio_index n)).frames
            0).result
          ≡ result
      newest = ap (λ e. e.result) (entry_at-add_newest _ n.frames w)
