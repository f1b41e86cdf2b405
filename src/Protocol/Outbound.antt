-- ===== src/Protocol/Outbound.antt =====
-- CNSocket::validatingSendPacket of core/CNProtocol.cpp. The asserts are kept: an assertion that
-- fails, which stops the server, is `none`; so is a read outside the packet.
pub mod Fits
mod Tests
use open_fusion.Common.{
  ℕ, ◌+◌, ◌*◌, ◌%◌, ◌^◌, bit_and, Bool, ◌||◌, Option, none, some, List, ◌==◌, if◌then◌else◌, take,
  drop, length, ltb,
}
use open_fusion.Common.Int.{ℤ, to_size_t, signed32}
use open_fusion.Common.Words.{bytes_word}
use open_fusion.Protocol.Cipher.{◌>>=◌}
use open_fusion.Protocol.Packets.{PacketDesc, valid_out_var_packet}
use open_fusion.Protocol.Socket.{Socket, SendReply, send_packet}

abbrev pub ls2cl : ℕ
ls2cl = 0x21000000

abbrev pub fe2cl : ℕ
fe2cl = 0x31000000

-- isOutboundPacketID
pub is_outbound_packet_id : ℕ → Bool
is_outbound_packet_id id = bit_and id ls2cl == ls2cl || bit_and id fe2cl == fe2cl

-- *(int32_t*)(((uint8_t*)pkt) + desc.cntMembOfs)
pub trailer_count : PacketDesc → List ℕ → Option ℤ
trailer_count desc pkt =
    if ltb (length pkt) (desc.cnt_memb_ofs + 4)
    then none
    else some (signed32 (bytes_word (take 4 (drop desc.cnt_memb_ofs pkt))))

pub variadic_len : PacketDesc → ℤ → Option ℕ
variadic_len desc ntrailers =
    if valid_out_var_packet desc.size (to_size_t ntrailers) desc.trailer_size
    then some ((desc.size + to_size_t ntrailers * desc.trailer_size % 2 ^ 64) % 2 ^ 64)
    else none

-- resplen
pub resp_len : PacketDesc → List ℕ → Option ℕ
resp_len desc pkt =
    if desc.variadic then trailer_count desc pkt >>= variadic_len desc else some desc.size

-- The asserts in front: the type is outbound, and known.
pub outbound_desc : (ℕ → Option PacketDesc) → ℕ → Option PacketDesc
outbound_desc packets type = if is_outbound_packet_id type then packets type else none

-- The descriptor and the length that a packet is sent with.
pub validated_len : (ℕ → Option PacketDesc) → List ℕ → ℕ → Option ℕ
validated_len packets pkt type = outbound_desc packets type >>= λ desc. resp_len desc pkt

-- validatingSendPacket
pub validating_send_packet :
    (ℕ → Option PacketDesc) → List SendReply → Socket → List ℕ → ℕ → Option (Socket × List ℕ)
validating_send_packet packets replies s pkt type =
    validated_len packets pkt type >>= λ resplen. send_packet replies s pkt type resplen
