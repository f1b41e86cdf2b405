-- ===== src/Protocol/Packets/Tests.antt =====
-- Tests and applications of the theorems on packet sizes.
use open_fusion.Common.{
  ℕ, ◌+◌, ◌*◌, ◌≤◌, ◌≡◌, ◌↔◌, refl, true, false, Option, none, some, List, [], ◌∷◌, inl, inr, arith,
  ◌==◌, if◌then◌else◌, take, drop, Bool-cases,
}
use open_fusion.Common.Words.{bytes_word}
use open_fusion.Common.Int.{pos}
use open_fusion.Protocol.Packets.{
  read_word, check_fixed, check_variadic, cn_packet_body_size, PacketDesc, PacketData, handled,
  invalid_variadic, wrong_size, valid_out_var_packet, valid_in_var_packet, is_inbound_packet_id,
  count_of, check_sizes, lookup_type, parse_packet,
}
use open_fusion.Protocol.Packets.Bounds.{valid_out_var_packet_lem, valid_in_var_packet_lem}
use open_fusion.Protocol.Packets.Parse.{
  IsDescriptor, Framed, parse_packet-Framed, parse_packet_accepts,
}

-- A packet of two bytes, and one with trailers of three bytes behind a count.
abbrev fixed_desc : PacketDesc
fixed_desc = record {
  val = 0x12000001;
  name = "FIXED";
  size = 2;
  variadic = false;
  cnt_memb_ofs = 0;
  trailer_size = 0;
}

abbrev vary_desc : PacketDesc
vary_desc = record {
  val = 0x12000002;
  name = "VARY";
  size = 4;
  variadic = true;
  cnt_memb_ofs = 0;
  trailer_size = 3;
}

abbrev pub table : ℕ → Option PacketDesc
table t =
    if t == 0x12000001 then some fixed_desc else if t == 0x12000002 then some vary_desc else none

table-IsDescriptor : (t : ℕ) (d : PacketDesc) → table t ≡ some d → IsDescriptor d
table-IsDescriptor t d e = elim (Bool-cases (t == 0x12000001)) [
  | inl one ↦ record { small = ground arith; trailed = ground arith }
  | inr other ↦ record { small = ground arith; trailed = ground arith }
]

abbrev fixed_bytes : List ℕ
fixed_bytes = 1 ∷ 0 ∷ 0 ∷ 0x12 ∷ 7 ∷ 8 ∷ 99 ∷ []

abbrev vary_bytes : List ℕ
vary_bytes = 2 ∷ 0 ∷ 0 ∷ 0x12 ∷ 2 ∷ 0 ∷ 0 ∷ 0 ∷ 1 ∷ 2 ∷ 3 ∷ 4 ∷ 5 ∷ 6 ∷ []

-- The count is -1.
abbrev negative_bytes : List ℕ
negative_bytes = 2 ∷ 0 ∷ 0 ∷ 0x12 ∷ 255 ∷ 255 ∷ 255 ∷ 255 ∷ 1 ∷ 2 ∷ 3 ∷ []

negative_count_test : parse_packet table negative_bytes 11 ≡ some (negative_bytes, invalid_variadic)
unfolding parse_packet lookup_type check_sizes valid_in_var_packet is_inbound_packet_id count_of
    check_variadic check_fixed read_word bytes_word
negative_count_test = refl

-- Three bytes are too few for a type, and the size wraps around.
short_test : parse_packet table fixed_bytes 3 ≡ some (fixed_bytes, wrong_size)
unfolding parse_packet lookup_type check_sizes valid_in_var_packet is_inbound_packet_id count_of
    check_variadic check_fixed read_word bytes_word
short_test = refl

outbound_test : is_inbound_packet_id 0x31000001 ≡ false
unfolding is_inbound_packet_id
outbound_test = refl

valid_out_var_packet_lem_example :
    (valid_out_var_packet 8 100 40 ≡ true) ↔ (8 + 100 * 40 ≤ cn_packet_body_size)
valid_out_var_packet_lem_example = valid_out_var_packet_lem 8 100 40 (omega arith)

valid_in_var_packet_lem_example :
    (valid_in_var_packet 8 100 40 4008 ≡ true)
    ↔ ((100 * 40 ≤ cn_packet_body_size) × (4008 ≡ 8 + 100 * 40))
valid_in_var_packet_lem_example = valid_in_var_packet_lem 8 100 40 4008 (omega arith)

abbrev vary_packet : PacketData
vary_packet = record {
  buf = 2 ∷ 0 ∷ 0 ∷ 0 ∷ 1 ∷ 2 ∷ 3 ∷ 4 ∷ 5 ∷ 6 ∷ [];
  size = 10;
  type = 0x12000002;
  tr_cnt = pos 2;
  trailers = some (1 ∷ 2 ∷ 3 ∷ 4 ∷ 5 ∷ 6 ∷ []);
}

parse_packet-Framed_example :
    (d : PacketDesc) × (table (bytes_word (take 4 vary_bytes)) ≡ some d)
    × (0x12000002 ≡ bytes_word (take 4 vary_bytes))
    × (is_inbound_packet_id (bytes_word (take 4 vary_bytes)) ≡ true)
    × Framed d 14 vary_packet
unfolding parse_packet lookup_type check_sizes valid_in_var_packet is_inbound_packet_id count_of
    check_variadic check_fixed read_word bytes_word
parse_packet-Framed_example =
    parse_packet-Framed table vary_bytes 14 vary_bytes vary_packet table-IsDescriptor (omega arith)
      refl

parse_packet_accepts_example :
    (pkt : PacketData) × (parse_packet table fixed_bytes 6 ≡ some (fixed_bytes, handled pkt))
    × (pkt.buf ≡ drop 4 fixed_bytes)
    × (pkt.size + 4 ≡ 6)
    × (pkt.tr_cnt ≡ pos 0)
unfolding is_inbound_packet_id bytes_word
parse_packet_accepts_example =
    parse_packet_accepts table fixed_bytes 6 0 fixed_desc (omega arith) refl refl (omega arith)
      (inl (refl, refl, refl))
