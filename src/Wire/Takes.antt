-- ===== src/Wire/Takes.antt =====
-- lib/ff_core/wire_format.h: how many bytes a reader takes.
use formation_flight.Prelude.{ℕ, ◌+◌, ◌≤◌, ◌≡◌, refl, List, [], ◌∷◌, some, arith, length}
use formation_flight.Wire.{
  Reader, ◌>>=◌ as bind, pure, >>=-eq_of_some, get_u8, get_u16, get_u32, get_i16, get_i32,
}

-- The reader takes n bytes wherever that many are left.
abbrev pub Takes : {A : Type 0} → ℕ → Reader A → Type 0
Takes {A} n r =
    (bs : List ℕ)
    → n ≤ length bs
    → (a : A) × (rest : List ℕ) × (r bs ≡ some (a, rest)) × (length rest + n ≡ length bs)

pub pure-Takes : {A : Type 0} (a : A) → Takes 0 (pure a)
pure-Takes a bs h = (a, bs, refl, omega arith)

pub get_u8-Takes : Takes 1 get_u8
unfolding get_u8
get_u8-Takes [] h = absurd (omega arith)
get_u8-Takes (b ∷ bs) h = (b, bs, refl, omega arith)

pub >>=-Takes :
    {A B : Type 0} (n k : ℕ) (m : Reader A) (f : A → Reader B)
    → Takes n m
    → ((a : A) → Takes k (f a))
    → Takes (n + k) (bind m f)
>>=-Takes n k m f hm hf bs h =
    let (a, rest, e, l) = hm bs (omega arith) in
    let (b, rest', e', l') = hf a rest (omega arith) in
    (b, rest', >>=-eq_of_some m f e e', omega arith)

pub get_u16-Takes : Takes 2 get_u16
unfolding get_u16
get_u16-Takes =
    >>=-Takes 1 1 get_u8 _ get_u8-Takes λ lo. >>=-Takes 1 0 get_u8 _ get_u8-Takes λ hi. pure-Takes _

pub get_u32-Takes : Takes 4 get_u32
unfolding get_u32
get_u32-Takes = >>=-Takes 1 3 get_u8 _ get_u8-Takes λ a. >>=-Takes 1 2 get_u8 _ get_u8-Takes λ b.
    >>=-Takes 1 1 get_u8 _ get_u8-Takes λ c. >>=-Takes 1 0 get_u8 _ get_u8-Takes λ d. pure-Takes _

pub get_i16-Takes : Takes 2 get_i16
unfolding get_i16
get_i16-Takes = get_u16-Takes

pub get_i32-Takes : Takes 4 get_i32
unfolding get_i32
get_i32-Takes = get_u32-Takes
