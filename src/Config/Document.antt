-- ===== src/Config/Document.antt =====
-- lib/ff_core/config.cpp: what a document that was written reads as.
use Prim.Native.String.{String}
use package.text.Mathlib.Text.{◌==◌ as str_eq}
use formation_flight.Prelude.{
  ℕ, zero, suc, ◌+◌, ◌*◌, ◌/◌, ◌%◌, ◌<◌, ◌≡◌, refl, sym, ap, ◌∙◌, Bool, true, false, if◌then◌else◌,
  List, [], ◌∷◌, ◌++◌, Option, none, some, IsByte, IsWord16, IsWord32, arith,
}
use formation_flight.Maths.{Maths}
use formation_flight.Config.Merge.{merge_val}
use formation_flight.Config.Json.{Json}
use formation_flight.Config.Print.{
  JsonOut, JsonValue, Member, nat, i16, flag, double, text, hex_digit, hex_digits, put_members,
  put_sections,
}

-- What ArduinoJson documents of a document in memory: a key has the value that was put there last,
-- and an integer, a bool, a float, a double and a text are read as what they were. `strtoul` reads
-- another digit of up to eight.
pub record JsonLaws {O J D : Type 0} (out : JsonOut O D) (j : Json J D) (m : Maths D) : Type 0 where
  -- A new object, an object as it is read, and a value as it is read.
  pub blank : O
  pub read : O → J
  pub value : JsonValue D → J
  pub member_blank : (k : String) → j.member (read blank) k ≡ none
  pub member_put :
      (key k : String) (v : JsonValue D) (o : O)
      → j.member (read (out.put key v o)) k
        ≡ (if str_eq key k then some (value v) else j.member (read o) k)
  pub member_nested :
      (key k : String) (fill : O → O) (o : O)
      → j.member (read (out.nested key fill o)) k
        ≡ (if str_eq key k then some (read (fill blank)) else j.member (read o) k)
  pub u8_of : (n : ℕ) → IsByte n → j.as_u8 (value (nat n)) ≡ n
  pub u16_of : (n : ℕ) → IsWord16 n → j.as_u16 (value (nat n)) ≡ n
  pub u32_of : (n : ℕ) → IsWord32 n → j.as_u32 (value (nat n)) ≡ n
  pub i16_of : (n : ℕ) → IsWord16 n → j.as_i16 (value (i16 n)) ≡ n
  pub bool_of : (b : Bool) → j.as_bool (value (flag b)) ≡ b
  pub double_of : (v : D) → j.as_double (value (double v)) ≡ v
  pub float_of : (v : D) → j.as_float (value (double v)) ≡ m.to_float v
  pub text_of : (t : List ℕ) → j.text (value (text t)) ≡ some t
  pub strtoul_empty : j.strtoul_hex [] ≡ 0
  pub strtoul_digit :
      (n x d : ℕ)
      → n < 8
      → d < 16
      → j.strtoul_hex (hex_digits n x ++ (hex_digit d ∷ []))
        ≡ j.strtoul_hex (hex_digits n x) * 16 + d

-- The later one of two values.
abbrev pub or_before : {A : Type 0} → Option A → Option A → Option A
or_before none old = old
or_before (some v) old = some v

-- The value that a list of members leaves at a key.
abbrev pub last_of : {A : Type 0} → String → List (String × A) → Option A
last_of k [] = none
last_of k ((key, v) ∷ members) =
    or_before (last_of k members) (if str_eq key k then some v else none)

abbrev pub map_some : {A B : Type 0} → (A → B) → Option A → Option B
map_some f none = none
map_some f (some v) = some (f v)

or_before-if :
    {A B : Type 0} (f : A → B) (later : Option A) (b : Bool) (v : A) (old : Option B)
    → or_before (map_some f later) (if b then some (f v) else old)
      ≡ or_before (map_some f (or_before later (if b then some v else none))) old
or_before-if f (some w) b v old = refl
or_before-if f none true v old = refl
or_before-if f none false v old = refl

module _ {O J D : Type 0} {out : JsonOut O D} {j : Json J D} {m : Maths D}
    (laws : JsonLaws out j m) where
  open laws use {blank, read, value, member_blank, member_put, member_nested}

  member-put_members :
      (members : List (Member D)) (k : String) (o : O)
      → j.member (read (put_members out members o)) k
        ≡ or_before (map_some value (last_of k members)) (j.member (read o) k)
  unfolding put_members
  member-put_members [] k o = refl
  member-put_members ((key, v) ∷ members) k o =
      member-put_members members k (out.put key v o)
      ∙ ap (λ t. or_before (map_some value (last_of k members)) t) (member_put key k v o)
      ∙ or_before-if value (last_of k members) (str_eq key k) v (j.member (read o) k)

  -- The object that has such members.
  abbrev pub object : List (Member D) → J
  object members = read (put_members out members blank)

  pub member-put_sections :
      (sections : List (String × List (Member D))) (k : String) (o : O)
      → j.member (read (put_sections out sections o)) k
        ≡ or_before (map_some object (last_of k sections)) (j.member (read o) k)
  unfolding put_sections
  member-put_sections [] k o = refl
  member-put_sections ((key, members) ∷ sections) k o =
      member-put_sections sections k (out.nested key (put_members out members) o)
      ∙ ap (λ t. or_before (map_some object (last_of k sections)) t)
          (member_nested key k (put_members out members) o)
      ∙ or_before-if object (last_of k sections) (str_eq key k) members (j.member (read o) k)

  pub member-object :
      (members : List (Member D)) (k : String) (v : JsonValue D)
      → last_of k members ≡ some v
      → j.member (object members) k ≡ some (value v)
  member-object members k v e =
      member-put_members members k blank
      ∙ ap (λ t. or_before (map_some value t) (j.member (read blank) k)) e

  -- A member is read back by a conversion of its type.
  pub merge_val-object :
      {A : Type 0} (as_type : J → A) (members : List (Member D)) (k : String) (v : JsonValue D)
      (result old : A)
      → last_of k members ≡ some v
      → as_type (value v) ≡ result
      → merge_val j as_type (object members) k old ≡ result
  merge_val-object as_type members k v result old e r =
      rw (member-object members k v e, merge_val) r

  -- As many digits as there are.
  abbrev Fits : ℕ → ℕ → Type 0
  Fits zero x = x ≡ 0
  Fits (suc n) x = Fits n (x / 16)

  strtoul_hex-digits : (n x : ℕ) → n < 9 → Fits n x → j.strtoul_hex (hex_digits n x) ≡ x
  unfolding hex_digits
  strtoul_hex-digits zero x h e = laws.strtoul_empty ∙ sym e
  strtoul_hex-digits (suc n) x h e =
      let d : x % 16 < 16 = omega arith in
      let earlier = strtoul_hex-digits n (x / 16) (omega arith) e in
      laws.strtoul_digit n (x / 16) (x % 16) (omega arith) d ∙ omega (arith, earlier)

  pub strtoul_hex-hex_digits : (x : ℕ) → IsWord32 x → j.strtoul_hex (hex_digits 8 x) ≡ x
  strtoul_hex-hex_digits x h = strtoul_hex-digits 8 x (omega arith) (omega arith)
