-- ===== src/Protocol/Outbound/Tests.antt =====
-- Tests and applications of the theorem on validatingSendPacket.
use open_fusion.Common.{
  ℕ, ◌+◌, ◌≤◌, ◌≡◌, refl, inl, inr, true, Option, none, some, List, [], ◌∷◌, arith, ◌==◌,
  if◌then◌else◌, Bool-cases,
}
use open_fusion.Common.Words.{bytes_word}
use open_fusion.Protocol.Packets.{
  PacketDesc, cn_packet_buffer_size, cn_packet_body_size, valid_out_var_packet,
}
use open_fusion.Protocol.Outbound.{
  trailer_count, variadic_len, resp_len, outbound_desc, validated_len, is_outbound_packet_id,
}
use open_fusion.Protocol.Outbound.Fits.{IsExactLen, validated_len_lem}

-- A struct of 8 bytes that holds a count at 4, with trailers of 16 bytes.
abbrev chunk_desc : PacketDesc
chunk_desc = record {
  val = 0x31000001;
  name = "P_FE2CL_TEST";
  size = 8;
  variadic = true;
  cnt_memb_ofs = 4;
  trailer_size = 16;
}

abbrev table : ℕ → Option PacketDesc
table t = if t == 0x31000001 then some chunk_desc else none

abbrev two_trailers : List ℕ
two_trailers = 9 ∷ 9 ∷ 9 ∷ 9 ∷ 2 ∷ 0 ∷ 0 ∷ 0 ∷ []

len_test : validated_len table two_trailers 0x31000001 ≡ some 40
unfolding validated_len outbound_desc resp_len trailer_count variadic_len is_outbound_packet_id
    valid_out_var_packet bytes_word
len_test = refl

-- A packet from the client is not sent to it.
inbound_test : validated_len table two_trailers 0x13000001 ≡ none
unfolding validated_len outbound_desc is_outbound_packet_id
inbound_test = refl

table_small : (t : ℕ) (d : PacketDesc) → table t ≡ some d → d.size ≤ cn_packet_body_size
table_small t d h = elim (Bool-cases (t == 0x31000001)) [
  | inl e ↦ ground (arith, simp e at h)
  | inr e ↦ absurd (ground (arith, simp e at h))
]

validated_len_lem_example :
    (d : PacketDesc) × (table 0x31000001 ≡ some d)
    × (is_outbound_packet_id 0x31000001 ≡ true)
    × IsExactLen d two_trailers 40
    × (40 + 8 ≤ cn_packet_buffer_size)
validated_len_lem_example = validated_len_lem table two_trailers 0x31000001 40 table_small len_test
