-- ===== src/Tests/Frames.antt =====
-- lib/ff_core/msp_parser.cpp: replies of both versions in one stream.
use formation_flight.Prelude.{
  ℕ, ◌≡◌, refl, ◌++◌, get_elem?, some, arith, List, [], ◌∷◌, false, map, replicate,
}
use formation_flight.Msp.{MspParser, idle, msp_crc8_dvb_s2}
use formation_flight.Msp.Reply.{
  Reply, reply_v1, reply_v2, reply_frame, message_of, messages, fits, fold_crc,
}
use formation_flight.Msp.Bounds.{behind, write_in_bounds}
use formation_flight.Msp.Stream.{stream, all_fit, messages-stream}

abbrev parser : MspParser
parser = record {
  state = idle;
  version = 0;
  size = 0;
  id = 0;
  flag = 0;
  idx = 0;
  crc = 0;
  oversize = false;
  payload = replicate 128 0;
}

abbrev replies : List Reply
replies = reply_v1 106 (3 ∷ 12 ∷ 200 ∷ []) ∷ reply_v2 0 8192 (1 ∷ 2 ∷ []) ∷ reply_v1 101 [] ∷ []

stream_bytes :
    stream replies
    ≡ 36 ∷ 77 ∷ 62 ∷ 3 ∷ 106 ∷ 3 ∷ 12 ∷ 200 ∷ 174 ∷ 36 ∷ 88 ∷ 62 ∷ 0 ∷ 0 ∷ 32 ∷ 2 ∷ 0 ∷ 1 ∷ 2 ∷ 237
      ∷ 36 ∷ 77 ∷ 62 ∷ 0 ∷ 101 ∷ 101 ∷ []
unfolding stream reply_frame fold_crc msp_crc8_dvb_s2
stream_bytes = refl

messages-stream_example : (messages parser (stream replies)).0 ≡ map message_of replies
unfolding all_fit fits
messages-stream_example = messages-stream parser replies refl refl refl

-- A parser with two more cells of memory behind its buffer, and a frame that announces 200 bytes.
abbrev with_memory : MspParser
with_memory = record parser { payload = replicate 128 0 ++ (7 ∷ 8 ∷ []) }

abbrev oversized : List ℕ
oversized = 36 ∷ 77 ∷ 62 ∷ 200 ∷ 106 ∷ replicate 200 9

write_in_bounds_example : get_elem? (behind with_memory oversized).payload 129 ≡ some 8
write_in_bounds_example = write_in_bounds with_memory oversized 129 refl (omega arith)
