-- ===== src/Msp/Bounds.antt =====
-- lib/ff_core/msp_parser.cpp: the index at which the bytes of a payload are stored.
use mathlib.Core.Path.{subst}
use formation_flight.Prelude.{
  ℕ, ◌<◌, ◌≤◌, ◌≡◌, refl, sym, ◌∙◌, List, [], ◌∷◌, ltb, get_elem?, get_elem?-set_ne, set, arith,
}
use formation_flight.Msp.{
  State, idle, hdr_m, v1_dir, v1_size, v1_id, v1_payload, v1_crc, v2_dir, v2_flag, v2_id_lo,
  v2_id_hi, v2_size_lo, v2_size_hi, v2_payload, v2_crc, MspParser, store_byte, feed_in, feed,
}
use formation_flight.Msp.Reply.{messages}

-- What the state says of the index and of the size that was announced.
unfoldable InStep : State → MspParser → Type 0
InStep v1_id p = (p.idx ≡ 0) × (p.oversize ≡ ltb 128 p.size)
InStep v1_payload p = (p.idx < p.size) × (p.oversize ≡ ltb 128 p.size)
InStep v2_payload p = (p.idx < p.size) × (p.oversize ≡ ltb 128 p.size)
InStep _ p = Unit

-- The parser behind a stream of bytes.
abbrev pub behind : MspParser → List ℕ → MspParser
behind p bs = (messages p bs).1

module _ (j : ℕ) (far : 128 ≤ j) where
  -- The memory from the buffer's end on is as it was, and the parser is in step.
  Leaves : MspParser → MspParser → Type 0
  Leaves p q = (get_elem? q.payload j ≡ get_elem? p.payload j) × InStep q.state q

  set-far : (xs : List ℕ) (i b : ℕ) → i < 128 → get_elem? (set xs i b) j ≡ get_elem? xs j
  set-far xs i b h = get_elem?-set_ne xs b (omega arith)

  feed_in-Leaves :
      (s : State) (p : MspParser) (b : ℕ)
      → InStep s p
      → Leaves p (feed_in s (record p { state = s }) b).1
  unfolding feed_in InStep store_byte Leaves
  feed_in-Leaves idle p b i = ground arith
  feed_in-Leaves hdr_m p b i = ground arith
  feed_in-Leaves v1_dir p b i = ground arith
  feed_in-Leaves v1_size p b i = ground arith
  feed_in-Leaves v1_id p b i = ground arith
  feed_in-Leaves v1_payload p b i = ground (arith, set-far p.payload p.idx b)
  feed_in-Leaves v1_crc p b i = (refl, tt)
  feed_in-Leaves v2_dir p b i = ground arith
  feed_in-Leaves v2_flag p b i = (refl, tt)
  feed_in-Leaves v2_id_lo p b i = (refl, tt)
  feed_in-Leaves v2_id_hi p b i = (refl, tt)
  feed_in-Leaves v2_size_lo p b i = (refl, tt)
  feed_in-Leaves v2_size_hi p b i = ground arith
  feed_in-Leaves v2_payload p b i = ground (arith, set-far p.payload p.idx b)
  feed_in-Leaves v2_crc p b i = (refl, tt)

  messages-Leaves :
      (p : MspParser) (bs : List ℕ)
      → InStep p.state p
      → get_elem? (behind p bs).payload j ≡ get_elem? p.payload j
  unfolding messages feed Leaves
  messages-Leaves p [] i = refl
  messages-Leaves p (b ∷ bs) i =
      let (kept, next) = feed_in-Leaves p.state p b i in messages-Leaves (feed p b).1 bs next ∙ kept

-- The buffer of an idle parser is the first 128 cells of `payload`, and the rest is the memory behind
-- it. Whatever bytes the parser is fed, and whatever sizes the frames in them announce, no cell of
-- that memory is changed.
pub write_in_bounds :
    (p : MspParser) (bs : List ℕ) (j : ℕ)
    → p.state ≡ idle
    → 128 ≤ j
    → get_elem? (behind p bs).payload j ≡ get_elem? p.payload j
unfolding InStep
write_in_bounds p bs j i far = messages-Leaves j far p bs (subst (λ t. InStep t p) (sym i) tt)
