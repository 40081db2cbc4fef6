-- ===== src/LogRing.antt =====
-- lib/ff_core/log.h and log.cpp: the log lines that the web interface reads.
--
-- The formatted text is an argument: vsnprintf is the C library's. A clock and a sink work on a state
-- of the program. A text is what is in front of its terminator.
pub mod Recent
use Prim.Native.String.{String}
use formation_flight.Prelude.{
  ℕ, ◌+◌, ◌-◌, ◌%◌, Bool, true, false, List, [], ltb, if◌then◌else◌, set, get_or, replicate, take,
  u32, Option, none, some,
}

abbrev pub line_capacity : ℕ
line_capacity = 48

abbrev pub log_text_len : ℕ
log_text_len = 72

pub data LogLevel : Type 0 where
  debug info warn error : LogLevel

unfoldable pub level_rank : LogLevel → ℕ
level_rank debug = 0
level_rank info = 1
level_rank warn = 2
level_rank error = 3

unfoldable pub log_level_name : LogLevel → String
log_level_name debug = "debug"
log_level_name info = "info"
log_level_name warn = "warn"
log_level_name error = "error"

pub record LogEntry : Type 0 where
  pub ms : ℕ
  pub level : LogLevel
  pub text : List ℕ

-- `LogEntry{}`.
abbrev pub blank_line : LogEntry
blank_line = record { ms = 0; level = info; text = [] }

pub record LogRing (W : Type 0) : Type 0 where
  pub entries : List LogEntry
  pub head : ℕ
  pub count : ℕ
  pub total : ℕ
  pub warnings : ℕ
  pub errors : ℕ
  pub min_level : LogLevel
  pub clock : Option (W → ℕ)
  pub sink : Option (LogEntry → W → W)

abbrev pub is_warn : LogLevel → Bool
is_warn debug = false
is_warn info = false
is_warn warn = true
is_warn error = false

abbrev pub is_error : LogLevel → Bool
is_error debug = false
is_error info = false
is_error warn = false
is_error error = true

module _ {W : Type 0} where
  abbrev pub new_ring : LogRing W
  new_ring = record {
    entries = replicate line_capacity blank_line;
    head = 0;
    count = 0;
    total = 0;
    warnings = 0;
    errors = 0;
    min_level = info;
    clock = none;
    sink = none;
  }

  unfoldable pub set_clock : Option (W → ℕ) → LogRing W → LogRing W
  set_clock fn r = record r { clock = fn }

  unfoldable pub set_sink : Option (LogEntry → W → W) → LogRing W → LogRing W
  set_sink fn r = record r { sink = fn }

  unfoldable pub set_min_level : LogLevel → LogRing W → LogRing W
  set_min_level level r = record r { min_level = level }

  abbrev pub time_of : Option (W → ℕ) → W → ℕ
  time_of none w = 0
  time_of (some fn) w = fn w

  abbrev pub echo : Option (LogEntry → W → W) → LogEntry → W → W
  echo none e w = w
  echo (some fn) e w = fn e w

  -- The entry that a line becomes, cut to its room.
  abbrev pub line_of : LogRing W → LogLevel → List ℕ → W → LogEntry
  line_of r level text w = record {
    ms = time_of r.clock w;
    level = level;
    text = take log_text_len text;
  }

  -- The ring with an entry, and with the counters of its level.
  unfoldable pub store_line : LogEntry → LogRing W → LogRing W
  store_line e r = record r {
    entries = set r.entries r.head e;
    head = (r.head + 1) % line_capacity;
    count = if ltb r.count line_capacity then r.count + 1 else r.count;
    total = u32 (r.total + 1);
    warnings = if is_warn e.level then u32 (r.warnings + 1) else r.warnings;
    errors = if is_error e.level then u32 (r.errors + 1) else r.errors;
  }

  -- `add` and `vadd`.
  unfoldable pub add_line : LogLevel → List ℕ → LogRing W × W → LogRing W × W
  unfolding level_rank store_line
  add_line level text (r, w) =
      if ltb (level_rank level) (level_rank r.min_level)
      then (r, w)
      else (store_line (line_of r level text w) r, echo r.sink (line_of r level text w) w)

  -- FF_LOG.
  unfoldable pub ff_log : LogLevel → List ℕ → LogRing W × W → LogRing W × W
  unfolding level_rank add_line
  ff_log level text (r, w) =
      let logged = add_line level text (r, w) in
      if ltb (level_rank level) (level_rank r.min_level) then (r, w) else logged

  -- Index 0 is the most recent line.
  unfoldable pub line_at : LogRing W → ℕ → LogEntry
  line_at r i =
      get_or r.entries ((r.head + line_capacity - 1 - i % line_capacity) % line_capacity) blank_line

  unfoldable pub clear_lines : LogRing W → LogRing W
  clear_lines r = record r { head = 0; count = 0 }
