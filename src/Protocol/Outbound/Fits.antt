-- ===== src/Protocol/Outbound/Fits.antt =====
-- A packet that validatingSendPacket sends fits the buffer of sendPacket.
use open_fusion.Common.{
  Option-cases, ◌∙◌, ℕ, ◌+◌, ◌*◌, ◌%◌, ◌^◌, ◌≤◌, ◌≡◌, ◌⊎◌, inl, inr, true, false, Option, none,
  some, List, arith, Bool-cases,
}
use open_fusion.Common.Int.{ℤ, to_size_t}
use open_fusion.Protocol.Packets.{
  PacketDesc, cn_packet_buffer_size, cn_packet_body_size, valid_out_var_packet,
}
use open_fusion.Protocol.Packets.Bounds.{valid_out_var_packet_lem}
use open_fusion.Protocol.Outbound.{
  trailer_count, variadic_len, resp_len, outbound_desc, validated_len, is_outbound_packet_id,
}

-- The length that a descriptor asks for, with the count that the packet holds.
abbrev pub IsExactLen : PacketDesc → List ℕ → ℕ → Type 0
IsExactLen d pkt n =
    ((d.variadic ≡ false) × (n ≡ d.size))
    ⊎ ((d.variadic ≡ true)
        × ((c : ℤ) × (trailer_count d pkt ≡ some c) × (n ≡ d.size + to_size_t c * d.trailer_size)))

no_wrap : (s x : ℕ) → s + x ≤ cn_packet_body_size → (s + x % 2 ^ 64) % 2 ^ 64 ≡ s + x
no_wrap s x h = omega arith

no_value : {n : ℕ} → none ≡ some n → ⊥
no_value h = ground arith

some_inj : {a b : ℕ} → some a ≡ some b → b ≡ a
some_inj h = ground arith

variadic_len_lem :
    (d : PacketDesc) (c : ℤ) (n : ℕ)
    → d.size ≤ cn_packet_body_size
    → variadic_len d c ≡ some n
    → (n ≡ d.size + to_size_t c * d.trailer_size) × (n ≤ cn_packet_body_size)
unfolding variadic_len
variadic_len_lem d c n small h =
    elim (Bool-cases (valid_out_var_packet d.size (to_size_t c) d.trailer_size)) [
      | inr e ↦ absurd (no_value (simp e at h))
      | inl e ↦
          let fits =
            (valid_out_var_packet_lem d.size (to_size_t c) d.trailer_size (omega arith)).0 e in
          let len = some_inj (simp e at h) ∙ no_wrap d.size (to_size_t c * d.trailer_size) fits in
          (len, omega (arith, len, fits))
    ]

resp_len_lem :
    (d : PacketDesc) (pkt : List ℕ) (n : ℕ)
    → d.size ≤ cn_packet_body_size
    → resp_len d pkt ≡ some n
    → IsExactLen d pkt n × (n ≤ cn_packet_body_size)
unfolding resp_len
resp_len_lem d pkt n small h = elim (Bool-cases d.variadic) [
  | inr e ↦ let len = some_inj (simp e at h) in (inl (e, len), omega (arith, len))
  | inl e ↦ elim (Option-cases (trailer_count d pkt)) [
    | inl q ↦ absurd (no_value (simp (e, q) at h))
    | inr (c, q) ↦
        let (len, fits) = variadic_len_lem d c n small (simp (e, q) at h) in
        (inr (e, (c, q, len)), fits)
  ]
]

-- Where validatingSendPacket passes its asserts, the packet's type is outbound and in the table, the
-- length it is sent with is that of its struct, with as many trailers as the packet says counted
-- without wrap-around, and the frame fits the buffer of sendPacket. The table's structs fit the body
-- of a packet.
pub validated_len_lem :
    (packets : ℕ → Option PacketDesc) (pkt : List ℕ) (type n : ℕ)
    → ((t : ℕ) (d : PacketDesc) → packets t ≡ some d → d.size ≤ cn_packet_body_size)
    → validated_len packets pkt type ≡ some n
    → (d : PacketDesc) × (packets type ≡ some d)
      × (is_outbound_packet_id type ≡ true)
      × IsExactLen d pkt n
      × (n + 8 ≤ cn_packet_buffer_size)
unfolding validated_len outbound_desc
validated_len_lem packets pkt type n table h = elim (Bool-cases (is_outbound_packet_id type)) [
  | inr e ↦ absurd (no_value (simp e at h))
  | inl e ↦ elim (Option-cases (packets type)) [
    | inl q ↦ absurd (no_value (simp (e, q) at h))
    | inr (d, q) ↦
        let (exact, fits) = resp_len_lem d pkt n (table type d q) (simp (e, q) at h) in
        (d, q, e, exact, omega (arith, fits))
  ]
]
