-- ===== src/Protocol/Packets/Bounds.antt =====
-- The two size checks compute what they are meant to, with no wrap-around.
use native.Mathlib.Nat.{div-lt_iff_lt-mul, mul_comm}
use open_fusion.Common.{
  ℕ, zero, suc, ◌+◌, ◌*◌, ◌/◌, ◌^◌, ◌≤◌, ◌<◌, ◌≡◌, ◌↔◌, true, ltb, ◌&&◌, arith,
}
use open_fusion.Protocol.Packets.{cn_packet_body_size, valid_out_var_packet, valid_in_var_packet}

-- The test by division is a test of the product.
product_test : (m n p : ℕ) → (ltb 0 n && ltb (m / n) p) ≡ ltb m (n * p)
product_test m zero p = ground arith
product_test m (suc n) p =
    let iff = div-lt_iff_lt-mul {k = suc n} {x = m} {y = p} (omega arith) in
    ground (arith, iff.0, iff.1, mul_comm p (suc n))

-- For a base size below 2^64 - 4088, validOutVarPacket holds exactly when the base and all
-- payloads, counted without wrap-around, fit into the packet body of 4088 bytes.
pub valid_out_var_packet_lem :
    (base npayloads plsize : ℕ)
    → base + cn_packet_body_size < 2 ^ 64
    → (valid_out_var_packet base npayloads plsize ≡ true)
      ↔ (base + npayloads * plsize ≤ cn_packet_body_size)
unfolding valid_out_var_packet
valid_out_var_packet_lem base n p h = rw (product_test cn_packet_body_size n p) (ground arith)

-- For a base size below 2^64 - 4088, validInVarPacket holds exactly when the trailing structs,
-- counted without wrap-around, fit into 4088 bytes and the data has the size of the base and them.
pub valid_in_var_packet_lem :
    (base npayloads plsize datasize : ℕ)
    → base + cn_packet_body_size < 2 ^ 64
    → (valid_in_var_packet base npayloads plsize datasize ≡ true)
      ↔ ((npayloads * plsize ≤ cn_packet_body_size) × (datasize ≡ base + npayloads * plsize))
unfolding valid_in_var_packet
valid_in_var_packet_lem base n p d h = rw (product_test cn_packet_body_size n p) (ground arith)
