-- ===== src/FrameLog.antt =====
-- lib/ff_core/frame_log.h: the frames that a node sent and received last.
pub mod Recent
use formation_flight.Prelude.{
  ℕ, ◌+◌, ◌-◌, ◌%◌, List, ltb, if◌then◌else◌, set, get_or, replicate, u32,
}

abbrev pub log_capacity : ℕ
log_capacity = 32

pub data FrameResult : Type 0 where
  tx ok self crypto_fail replay_fail decode_fail oversize : FrameResult

pub record FrameLogEntry : Type 0 where
  pub ms : ℕ
  pub uid : ℕ
  pub len : ℕ
  pub rssi : ℕ
  pub radio : ℕ
  pub type : ℕ
  pub result : FrameResult

-- `FrameLogEntry{}`.
abbrev pub blank_entry : FrameLogEntry
blank_entry = record { ms = 0; uid = 0; len = 0; rssi = 0; radio = 0; type = 0; result = ok }

pub record FrameLog : Type 0 where
  pub entries : List FrameLogEntry
  pub head : ℕ
  pub count : ℕ
  pub total : ℕ

abbrev pub empty_log : FrameLog
empty_log = record { entries = replicate log_capacity blank_entry; head = 0; count = 0; total = 0 }

unfoldable pub add : FrameLogEntry → FrameLog → FrameLog
add e log = record {
  entries = set log.entries log.head e;
  head = (log.head + 1) % log_capacity;
  count = if ltb log.count log_capacity then log.count + 1 else log.count;
  total = u32 (log.total + 1);
}

-- Index 0 is the most recent entry.
unfoldable pub entry_at : FrameLog → ℕ → FrameLogEntry
entry_at log i =
    get_or log.entries ((log.head + log_capacity - 1 - i % log_capacity) % log_capacity) blank_entry

unfoldable pub clear_log : FrameLog → FrameLog
clear_log log = record log { head = 0; count = 0 }
