-- ===== src/Config/Partial.antt =====
-- lib/ff_core/config.cpp: what a document that is merged changes.
use Prim.Native.String.{String}
use formation_flight.Prelude.{
  ℕ, ◌≡◌, ◌⊎◌, inl, inr, refl, true, List, Option, none, some, ap, ◌∙◌, ◌≢◌, if◌then◌else◌,
}
use formation_flight.Maths.{Maths}
use formation_flight.RateControl.{Double}
use formation_flight.Follow.State.{padded_name}
use formation_flight.Config.{
  max_passphrase_len, max_psk_len, SecuritySettings, WifiSettings, Settings, ConfigError,
  config_validate,
}
use formation_flight.Config.Merge.{
  store_text, copy_str, section, store_member, on_member, merged, commit, config_merge_json,
  merge_wifi, merge_security,
}
use formation_flight.Config.Json.{Json, same_text, redacted_secret}

module _ {D : Type 0} where
  -- What the new settings leave alone, the result leaves alone.
  commit_keeps :
      {A : Type 0} (f : Settings D → A) (o : Option ConfigError) (next c : Settings D)
      → f next ≡ f c
      → f (commit o next c).0 ≡ f c
  commit_keeps f none next c e = e
  commit_keeps f (some x) next c e = refl

-- The document has no such key, or the placeholder that stands for a secret.
abbrev pub IsWithheld : {J D : Type 0} → Json J D → J → String → Type 0
IsWithheld j obj key =
    (j.member obj key ≡ none)
    ⊎ ((v : _) × (j.member obj key ≡ some v) × (j.text v ≡ some redacted_secret))

module _ {J D : Type 0} (j : Json J D) where
  redacted_same : same_text redacted_secret redacted_secret ≡ true
  unfolding same_text
  redacted_same = refl

  section_absent :
      {A : Type 0} (obj : J) (key : String) (merge : J → A → A) (old : A)
      → j.member obj key ≡ none
      → section j obj key merge old ≡ old
  section_absent obj key merge old h = ap (λ o. on_member j merge o old) h

  copy_str_withheld :
      (obj : J) (key : String) (dst : List ℕ) (room : ℕ)
      → IsWithheld j obj key
      → copy_str j obj key dst room ≡ dst
  unfolding copy_str store_text
  copy_str_withheld obj key dst room (inl h) = ap (λ o. store_member j o dst room) h
  copy_str_withheld obj key dst room (inr (v, h, t)) =
      ap (λ o. store_member j o dst room) h
      ∙ ap (λ o. store_text j o dst room) t
      ∙ ap (λ b. if b then dst else padded_name room redacted_secret) redacted_same

  -- A section that is there, with a part of the settings that it does not touch.
  section_keeps :
      {A B : Type 0} (f : A → B) (obj : J) (key : String) (merge : J → A → A) (old : A)
      → ((v : J) → j.member obj key ≡ some v → f (merge v old) ≡ f old)
      → f (section j obj key merge old) ≡ f old
  section_keeps f obj key merge old h = by_member (j.member obj key) refl
    where
      by_member : (o : Option J) → j.member obj key ≡ o → f (on_member j merge o old) ≡ f old
      by_member none e = refl
      by_member (some v) e = h v e

module _ {J D : Type 0} ⦃d : Double D⦄ ⦃m : Maths D⦄ where
  -- A merge without an error gives settings that pass validation, and one with an error the settings
  -- that there were. Of the sections node, security, rate, radios, wifi, follow and sim, one that the
  -- document lacks is as it was.
  pub config_merge_json-partial :
      (j : Json J D) (doc : J) (c : Settings D)
      → (((config_merge_json j doc c).1 ≡ none)
            × (config_validate (config_merge_json j doc c).0 ≡ none)
          ⊎ (((config_merge_json j doc c).1 ≢ none) × ((config_merge_json j doc c).0 ≡ c)))
        × (j.member doc "node" ≡ none → (config_merge_json j doc c).0.node ≡ c.node)
        × (j.member doc "security" ≡ none → (config_merge_json j doc c).0.security ≡ c.security)
        × (j.member doc "rate" ≡ none → (config_merge_json j doc c).0.rate ≡ c.rate)
        × (j.member doc "radios" ≡ none → (config_merge_json j doc c).0.radios ≡ c.radios)
        × (j.member doc "wifi" ≡ none → (config_merge_json j doc c).0.wifi ≡ c.wifi)
        × (j.member doc "follow" ≡ none → (config_merge_json j doc c).0.follow ≡ c.follow)
        × (j.member doc "sim" ≡ none → (config_merge_json j doc c).0.sim ≡ c.sim)
  unfolding config_merge_json merged
  config_merge_json-partial j doc c =
      let next = merged j doc c in
      let o = config_validate next in
      (
        by_answer o refl,
        λ h. commit_keeps (λ s. s.node) o next c (section_absent j doc "node" _ c.node h),
        λ h.
            commit_keeps (λ s. s.security) o next c
              (section_absent j doc "security" _ c.security h),
        λ h. commit_keeps (λ s. s.rate) o next c (section_absent j doc "rate" _ c.rate h),
        λ h. commit_keeps (λ s. s.radios) o next c (section_absent j doc "radios" _ c.radios h),
        λ h. commit_keeps (λ s. s.wifi) o next c (section_absent j doc "wifi" _ c.wifi h),
        λ h. commit_keeps (λ s. s.follow) o next c (section_absent j doc "follow" _ c.follow h),
        λ h. commit_keeps (λ s. s.sim) o next c (section_absent j doc "sim" _ c.sim h),
      )
    where
      by_answer :
          (o : Option ConfigError)
          → config_validate (merged j doc c) ≡ o
          → (((commit o (merged j doc c) c).1 ≡ none)
                × (config_validate (commit o (merged j doc c) c).0 ≡ none)
              ⊎ (((commit o (merged j doc c) c).1 ≢ none) × ((commit o (merged j doc c) c).0 ≡ c)))
      by_answer none e = inl (refl, e)
      by_answer (some x) e = inr ((λ p. cc), refl)

  -- If the document has no passphrase, psk and ap_psk, or the placeholder for a secret in their place,
  -- the three are what they were.
  pub config_merge_json-withheld :
      (j : Json J D) (doc : J) (c : Settings D)
      → ((v : J) → j.member doc "security" ≡ some v → IsWithheld j v "passphrase")
      → ((v : J) → j.member doc "wifi" ≡ some v → IsWithheld j v "psk" × IsWithheld j v "ap_psk")
      → ((config_merge_json j doc c).0.security.passphrase ≡ c.security.passphrase)
        × ((config_merge_json j doc c).0.wifi.psk ≡ c.wifi.psk)
        × ((config_merge_json j doc c).0.wifi.ap_psk ≡ c.wifi.ap_psk)
  unfolding config_merge_json merged merge_wifi merge_security
  config_merge_json-withheld j doc c hs hw =
      let next = merged j doc c in
      let o = config_validate next in
      (
        commit_keeps (λ s. s.security.passphrase) o next c
            (section_keeps j (λ (s : SecuritySettings). s.passphrase) doc "security" _ c.security
              (λ v e.
                copy_str_withheld j v "passphrase" c.security.passphrase max_passphrase_len
                  (hs v e))),
        commit_keeps (λ s. s.wifi.psk) o next c
            (section_keeps j (λ (w : WifiSettings). w.psk) doc "wifi" _ c.wifi
              (λ v e. copy_str_withheld j v "psk" c.wifi.psk max_psk_len (hw v e).0)),
        commit_keeps (λ s. s.wifi.ap_psk) o next c
            (section_keeps j (λ (w : WifiSettings). w.ap_psk) doc "wifi" _ c.wifi
              (λ v e. copy_str_withheld j v "ap_psk" c.wifi.ap_psk max_psk_len (hw v e).1)),
      )
