-- ===== src/HwLayout/Tables.antt =====
-- lib/ff_core/hw_layout.cpp: the power table of a layout that was parsed.
use Prim.Native.String.{String}
use formation_flight.Prelude.{
  ℕ, ◌≤◌, ◌≡◌, refl, Bool, true, false, not, ◌||◌, if◌then◌else◌, List, [], ◌∷◌, Option, none, some,
  u8, u16, length, take, zero, suc, IsWord32, arith,
}
use formation_flight.HwLayout.{HardwareLayout, clamp_int}
use formation_flight.HwLayout.Parse.{
  LayoutJson, LayoutError, read_items, read_table, read_board, with_table, read_power, read_layout,
  checked_layout, parse_layout_json, or_else, map_all, layout_keys,
}

-- What the choice of a power relies on.
pub record IsTabled (hw : HardwareLayout) : Type 0 where
  pub least : hw.power_min ≤ hw.power_max
  pub most : hw.power_max ≤ 7
  pub default_least : hw.power_min ≤ hw.power_default
  pub default_most : hw.power_default ≤ hw.power_max
  pub room : length hw.power_values ≤ 8
  pub dual_room : length hw.power_values_dual ≤ 8
  pub filled : hw.has_power_table ≡ true → 1 ≤ length hw.power_values

clamp_int-range :
    (v lo hi : ℕ)
    → IsWord32 v
    → lo ≤ hi
    → hi ≤ 7
    → (lo ≤ clamp_int v lo hi) × (clamp_int v lo hi ≤ hi)
clamp_int-range v lo hi w h k = ground arith

or_else-IsWord32 :
    (o : Option ℕ) (old : ℕ)
    → ((v : ℕ) → o ≡ some v → IsWord32 v)
    → IsWord32 old
    → IsWord32 (or_else o old)
or_else-IsWord32 none old h k = k
or_else-IsWord32 (some v) old h k = h v refl

length-map_all-take : (cast : ℕ → ℕ) (n : ℕ) (xs : List ℕ) → length (map_all cast (take n xs)) ≤ n
length-map_all-take cast zero xs = omega arith
length-map_all-take cast (suc n) [] = omega arith
length-map_all-take cast (suc n) (x ∷ xs) = omega (arith, length-map_all-take cast n xs)

module _ {J : Type 0} (j : LayoutJson J)
    (words : (doc : J) (key : String) (v : ℕ) → j.int_at doc key ≡ some v → IsWord32 v) where
  length-read_items : (cast : ℕ → ℕ) (o : Option (List ℕ)) → length (read_items j 8 cast o []) ≤ 8
  length-read_items cast none = omega arith
  length-read_items cast (some items) = length-map_all-take cast 8 items

  length-read_table : (doc : J) (key : String) → length (read_table j doc key 8) ≤ 8
  unfolding read_table
  length-read_table doc key = length-read_items u16 (j.items_at doc key)

  -- A byte that is read and then kept between two levels.
  read_level :
      (doc : J) (key : String) (old lo hi : ℕ)
      → IsWord32 old
      → lo ≤ hi
      → hi ≤ 7
      → (lo ≤ u8 (clamp_int (or_else (j.int_at doc key) old) lo hi))
        × (u8 (clamp_int (or_else (j.int_at doc key) old) lo hi) ≤ hi)
  read_level doc key old lo hi w h k =
      let v = or_else-IsWord32 (j.int_at doc key) old (λ v e. words doc key v e) w in
      let r = clamp_int-range (or_else (j.int_at doc key) old) lo hi v h k in
      (omega (arith, r.0, r.1), omega (arith, r.0, r.1))

  with_table-IsTabled :
      (doc : J) (v : ℕ) (vs : List ℕ) (out : HardwareLayout)
      → length (v ∷ vs) ≤ 8
      → IsTabled (with_table j doc (v ∷ vs) out)
  unfolding with_table
  with_table-IsTabled doc v vs out h =
      let a = read_level doc "power_min" 0 0 7 (omega arith) (omega arith) (omega arith) in
      let b = read_level doc "power_max" _ _ 7 (omega (arith, a.1)) a.1 (omega arith) in
      let c = read_level doc "power_default" _ _ _ (omega (arith, a.1)) b.0 b.1 in
      record {
        least = b.0;
        most = b.1;
        default_least = c.0;
        default_most = c.1;
        room = h;
        dual_room = length-read_table doc "power_values_dual";
        filled = λ e. some_values;
      }
    where
      some_values : 1 ≤ length (v ∷ vs)
      some_values = omega arith

  read_power-IsTabled :
      (doc : J) (values : List ℕ) (out : HardwareLayout)
      → length values ≤ 8
      → IsTabled out
      → IsTabled (read_power j doc values out)
  read_power-IsTabled doc [] out h k = k
  read_power-IsTabled doc (v ∷ vs) out h k = with_table-IsTabled doc v vs out h

  read_board-IsTabled :
      (doc : J) (out : HardwareLayout) → IsTabled out → IsTabled (read_board j doc out)
  unfolding read_board
  read_board-IsTabled doc out k = record {
    least = k.least;
    most = k.most;
    default_least = k.default_least;
    default_most = k.default_most;
    room = k.room;
    dual_room = k.dual_room;
    filled = k.filled;
  }

  read_layout-IsTabled :
      (doc : J) (out : HardwareLayout) → IsTabled out → IsTabled (read_layout j doc out)
  unfolding read_layout
  read_layout-IsTabled doc out k =
      read_power-IsTabled doc _ (read_board j doc out) (length-read_table doc "power_values")
        (read_board-IsTabled doc out k)

  either_layout :
      (b : Bool) (p q : HardwareLayout × Option LayoutError)
      → IsTabled p.0
      → IsTabled q.0
      → IsTabled (if b then p else q).0
  either_layout true p q h k = h
  either_layout false p q h k = k

  -- A layout whose power table is in range still has one in range when a document of any kind was
  -- parsed over it, if the ints in the document are words of 32 bits.
  pub parse_layout_json-IsTabled :
      (json : List ℕ) (out : HardwareLayout)
      → IsTabled out
      → IsTabled (parse_layout_json j json out).0
  unfolding parse_layout_json checked_layout
  parse_layout_json-IsTabled json out k = by_document (j.deserialize layout_keys 3072 json)
    where
      by_document : (o : Option J) → IsTabled (checked_layout j o out).0
      by_document none = k
      by_document (some doc) =
          either_layout (j.filter_overflowed layout_keys || j.overflowed doc) _ _ k
            (either_layout (not (j.is_object doc)) _ _ k (read_layout-IsTabled doc out k))
