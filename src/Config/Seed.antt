-- ===== src/Config/Seed.antt =====
-- lib/ff_core/config.cpp: what an image was flashed with, on a first boot.
use formation_flight.Prelude.{
  ℕ, Bool, true, false, not, ◌&&◌, ◌||◌, if◌then◌else◌, List, Option, none, some,
}
use formation_flight.Maths.{Maths}
use formation_flight.Protocol.{max_name_len}
use formation_flight.RateControl.{Double}
use formation_flight.Follow.State.{padded_name}
use formation_flight.Config.{Settings, ConfigError, config_validate, max_passphrase_len, is_blank}

-- `snprintf("%s")` into an array: a text that is there, or what there was. The bytes behind the
-- terminator are never read; here they are zero.
abbrev pub seeded : Option (List ℕ) → List ℕ → ℕ → List ℕ
seeded none dst room = dst
seeded (some s) dst room = if is_blank s then dst else padded_name room s

abbrev pub has_text : Option (List ℕ) → Bool
has_text none = false
has_text (some s) = not (is_blank s)

abbrev pub accepted : Option ConfigError → Bool
accepted none = true
accepted (some e) = false

module _ {D : Type 0} ⦃d : Double D⦄ ⦃m : Maths D⦄ where
  abbrev pub seed_result : Bool → Settings D → Settings D → Settings D × Bool
  seed_result true next c = (next, true)
  seed_result false next c = (c, false)

  -- `name` and `passphrase` are C strings, `none` for nullptr. The flag says that they were applied.
  unfoldable pub config_seed_flashed :
      Option (List ℕ) → Option (List ℕ) → Settings D → Settings D × Bool
  config_seed_flashed name passphrase c =
      let next = record c {
        node = record (c.node) { name = seeded name c.node.name max_name_len };
        security = record {
          passphrase = seeded passphrase c.security.passphrase max_passphrase_len;
        };
      } in
      seed_result ((has_text name || has_text passphrase) && accepted (config_validate next)) next c
