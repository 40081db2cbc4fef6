-- ===== src/Config/Secrets.antt =====
-- lib/ff_core/config.cpp: what a redacted document tells of the secrets.
use Prim.Native.String.{String}
use formation_flight.Prelude.{ℕ, ◌≡◌, refl, ap, ◌∙◌, Bool, true, false, not, List, if◌then◌else◌}
use formation_flight.Config.{Settings, is_blank}
use formation_flight.Config.Json.{redacted_secret}
use formation_flight.Config.Print.{
  JsonOut, Member, text, c_string, put_secret, security_to_json, wifi_to_json, sections_to_json,
  config_to_json,
}

-- What a redacted secret may tell: whether it is there, and its text only if that is empty.
abbrev pub SameShape : List ℕ → List ℕ → Type 0
SameShape a b = (is_blank a ≡ is_blank b) × (is_blank a ≡ true → a ≡ b)

module _ {D : Type 0} where
  -- What is printed of a secret of which `blank` says whether it is empty.
  unfoldable printed_secret : String → Bool → List ℕ → Member D
  printed_secret key blank value =
      (key, text (if not blank then redacted_secret else c_string value))

  printed_secret-SameShape :
      (key : String) (blank : Bool) (a b : List ℕ)
      → (blank ≡ true → a ≡ b)
      → printed_secret key blank a ≡ printed_secret key blank b
  unfolding printed_secret
  printed_secret-SameShape key true a b same = ap (λ t. (key, text (c_string t))) (same refl)
  printed_secret-SameShape key false a b same = refl

  put_secret-SameShape :
      (key : String) (a b : List ℕ)
      → SameShape a b
      → put_secret {D = D} key a true ≡ put_secret key b true
  unfolding put_secret printed_secret
  put_secret-SameShape key a b (blank, same) =
      printed_secret-SameShape key (is_blank a) a b same ∙ ap (λ e. printed_secret key e b) blank

module _ {O D : Type 0} (out : JsonOut O D) where
  -- Settings that differ only in the passphrase and the two Wi-Fi passwords, each of them empty in
  -- both or in neither and the same if empty, are printed as the same document if it is redacted.
  pub config_to_json-redacted :
      (c : Settings D) (passphrase psk ap_psk : List ℕ) (obj : O)
      → SameShape c.security.passphrase passphrase
      → SameShape c.wifi.psk psk
      → SameShape c.wifi.ap_psk ap_psk
      → config_to_json out c true obj
        ≡ config_to_json out
            (record c {
              security = record { passphrase = passphrase };
              wifi = record (c.wifi) { psk = psk; ap_psk = ap_psk };
            })
            true
            obj
  unfolding config_to_json sections_to_json security_to_json wifi_to_json
  config_to_json-redacted c passphrase psk ap_psk obj p q r =
      rw
        (
          put_secret-SameShape {D = D} "passphrase" c.security.passphrase passphrase p,
          put_secret-SameShape {D = D} "psk" c.wifi.psk psk q,
          put_secret-SameShape {D = D} "ap_psk" c.wifi.ap_psk ap_psk r,
        )
        refl
