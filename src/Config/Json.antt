-- ===== src/Config/Json.antt =====
-- lib/ff_core/config.cpp: the JSON library as it is read from, and the texts that are compared.
use Prim.Native.String.{String}
use formation_flight.Prelude.{
  ℕ, Bool, true, false, ◌&&◌, ◌==◌, if◌then◌else◌, List, [], ◌∷◌, ◌++◌, Option, none, some,
}
use formation_flight.Follow.Config.{
  HeadingMode, heading_off, course, point_leader, fixed, course_relative,
}

-- ArduinoJson, and strtoul. A value that is no object has no members, and one that is no string no
-- text; a conversion of another type yields what the library makes of it.
pub record Json (J D : Type 0) : Type 0 where
  pub member : J → String → Option J
  pub text : J → Option (List ℕ)
  pub as_bool : J → Bool
  pub as_u8 : J → ℕ
  pub as_u16 : J → ℕ
  pub as_u32 : J → ℕ
  pub as_i16 : J → ℕ
  pub as_float : J → D
  pub as_double : J → D
  pub strtoul_hex : List ℕ → ℕ

-- `strcmp(a, b) == 0`, of texts without their terminators.
unfoldable pub same_text : List ℕ → List ℕ → Bool
same_text [] [] = true
same_text (x ∷ xs) [] = false
same_text [] (y ∷ ys) = false
same_text (x ∷ xs) (y ∷ ys) = x == y && same_text xs ys

-- kRedactedSecret: eight bullets in UTF-8.
abbrev pub redacted_secret : List ℕ
redacted_secret =
    226 ∷ 128 ∷ 162 ∷ 226 ∷ 128 ∷ 162 ∷ 226 ∷ 128 ∷ 162 ∷ 226 ∷ 128 ∷ 162 ∷ 226 ∷ 128 ∷ 162 ∷ 226
    ∷ 128 ∷ 162 ∷ 226 ∷ 128 ∷ 162 ∷ 226 ∷ 128 ∷ 162 ∷ []

abbrev pub off_name : List ℕ
off_name = b'O' ∷ b'F' ∷ b'F' ∷ []

abbrev pub course_name : List ℕ
course_name = b'C' ∷ b'O' ∷ b'U' ∷ b'R' ∷ b'S' ∷ b'E' ∷ []

abbrev pub point_leader_name : List ℕ
point_leader_name =
    b'P' ∷ b'O' ∷ b'I' ∷ b'N' ∷ b'T' ∷ b'_' ∷ b'L' ∷ b'E' ∷ b'A' ∷ b'D' ∷ b'E' ∷ b'R' ∷ []

abbrev pub fixed_name : List ℕ
fixed_name = b'F' ∷ b'I' ∷ b'X' ∷ b'E' ∷ b'D' ∷ []

abbrev pub course_relative_name : List ℕ
course_relative_name =
    course_name ++ (b'_' ∷ b'R' ∷ b'E' ∷ b'L' ∷ b'A' ∷ b'T' ∷ b'I' ∷ b'V' ∷ b'E' ∷ [])

-- The heading mode of a name, or what there was.
unfoldable pub mode_named : List ℕ → HeadingMode → HeadingMode
unfolding same_text
mode_named t old =
    if same_text t off_name
    then heading_off
    else if same_text t course_name
    then course
    else if same_text t point_leader_name
    then point_leader
    else if same_text t fixed_name
    then fixed
    else if same_text t course_relative_name
    then course_relative
    else old

abbrev pub read_mode : Option (List ℕ) → HeadingMode → HeadingMode
read_mode none old = old
read_mode (some t) old = mode_named t old
