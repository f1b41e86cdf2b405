-- ===== src/Protocol/Packets.antt =====
-- The validation of packets: core/CNProtocol.hpp, CNSocket::parsePacket of core/CNProtocol.cpp and
-- PacketDesc of core/Packets.hpp. The table Packets::packets, which the compiler fills with the
-- sizes of the packet structs, is an argument. `size_t` has 64 bits; the buffer has the size of the
-- default protocol version, 104.
pub mod Bounds
pub mod Parse
mod Tests
use open_fusion.Common.{
  ℕ, zero, suc, ◌+◌, ◌-◌, ◌*◌, ◌/◌, ◌%◌, ◌^◌, bit_and, Bool, true, false, ◌&&◌, ◌||◌, not, Option,
  none, some, List, ltb, leb, length, ◌==◌, if◌then◌else◌, take, drop, set,
}
use open_fusion.Common.Words.{bytes_word}
use open_fusion.Protocol.Cipher.{◌>>=◌}
use open_fusion.Common.Int.{ℤ, pos, negsuc, to_size_t, signed32}
use Prim.Native.String.{String}

-- CN_PACKET_BUFFER_SIZE
abbrev pub cn_packet_buffer_size : ℕ
cn_packet_buffer_size = 4096

-- CN_PACKET_BODY_SIZE: the buffer less two `int32_t`.
abbrev pub cn_packet_body_size : ℕ
cn_packet_body_size = 4088

abbrev pub cl2ls : ℕ
cl2ls = 0x12000000

abbrev pub cl2fe : ℕ
cl2fe = 0x13000000

-- isInboundPacketID
pub is_inbound_packet_id : ℕ → Bool
is_inbound_packet_id id = bit_and id cl2ls == cl2ls || bit_and id cl2fe == cl2fe

-- validOutVarPacket
unfoldable pub valid_out_var_packet : ℕ → ℕ → ℕ → Bool
valid_out_var_packet base npayloads plsize =
    if ltb 0 npayloads && ltb (cn_packet_body_size / npayloads) plsize
    then false
    else (let trailing = npayloads * plsize % 2 ^ 64 in
        if ltb cn_packet_body_size ((base + trailing) % 2 ^ 64) then false else true)

-- validInVarPacket
pub valid_in_var_packet : ℕ → ℕ → ℕ → ℕ → Bool
valid_in_var_packet base npayloads plsize datasize =
    if ltb 0 npayloads && ltb (cn_packet_body_size / npayloads) plsize
    then false
    else (let trailing = npayloads * plsize % 2 ^ 64 in
        if datasize == (base + trailing) % 2 ^ 64 then true else false)

-- PacketDesc
pub record PacketDesc : Type 0 where
  pub val : ℕ
  pub name : String
  pub size : ℕ
  pub variadic : Bool
  pub cnt_memb_ofs : ℕ
  pub trailer_size : ℕ

-- CNPacketData: the body and the trailers are the bytes from those places of the buffer on.
pub record PacketData : Type 0 where
  pub buf : List ℕ
  pub size : ℕ
  pub type : ℕ
  pub tr_cnt : ℤ
  pub trailers : Option (List ℕ)

-- What parsePacket does: it drops the packet for one of four reasons, or calls the handler.
pub data Verdict : Type 0 where
  unknown_packet unexpected_packet invalid_variadic wrong_size : Verdict
  handled : PacketData → Verdict

-- The zero byte of a packet whose struct has size 1 and whose body was not sent.
abbrev pub is_empty_struct : PacketDesc → ℕ → Bool
is_empty_struct desc pkt_size = not desc.variadic && desc.size == 1 && pkt_size == 0

abbrev pub body_size : PacketDesc → ℕ → ℕ
body_size desc pkt_size = if is_empty_struct desc pkt_size then 1 else pkt_size

-- `none` is a write outside the buffer, and below a read outside it.
abbrev pub zero_body : PacketDesc → ℕ → List ℕ → Option (List ℕ)
zero_body desc pkt_size buf =
    if is_empty_struct desc pkt_size
    then (if ltb 4 (length buf) then some (set buf 4 0) else none)
    else some buf

-- The four bytes at a place of the buffer.
pub read_word : List ℕ → ℕ → Option ℕ
read_word buf i = if leb (i + 4) (length buf) then some (bytes_word (take 4 (drop i buf))) else none

-- *(int32_t*)(body + desc.cntMembOfs)
pub count_of : PacketDesc → List ℕ → Option ℤ
count_of desc buf = read_word buf (4 + desc.cnt_memb_ofs) >>= λ w. some (signed32 w)

-- The check of a variadic packet with its count.
pub check_variadic : PacketDesc → ℕ → List ℕ → ℕ → ℤ → Verdict
check_variadic desc type buf pkt_size ntrailers =
    if valid_in_var_packet desc.size (to_size_t ntrailers) desc.trailer_size pkt_size
    then handled (record {
      buf = drop 4 buf;
      size = pkt_size;
      type = type;
      tr_cnt = ntrailers;
      trailers = some (drop (4 + desc.size) buf);
    })
    else invalid_variadic

pub check_fixed : PacketDesc → ℕ → List ℕ → ℕ → Verdict
check_fixed desc type buf pkt_size =
    if pkt_size == desc.size
    then handled
        (record { buf = drop 4 buf; size = pkt_size; type = type; tr_cnt = pos 0; trailers = none })
    else wrong_size

-- The sizes of a known inbound packet, checked.
pub check_sizes : PacketDesc → ℕ → List ℕ → ℕ → Option Verdict
check_sizes desc type buf pkt_size =
    if desc.variadic
    then (count_of desc buf >>= λ n. some (check_variadic desc type buf pkt_size n))
    else some (check_fixed desc type buf pkt_size)

pub lookup_type : Option PacketDesc → ℕ → List ℕ → ℕ → Option (List ℕ × Verdict)
lookup_type none type buf pkt_size = some (buf, unknown_packet)
lookup_type (some desc) type buf pkt_size =
    if not (is_inbound_packet_id type)
    then some (buf, unexpected_packet)
    else (zero_body desc pkt_size buf >>= λ buf'.
        check_sizes desc type buf' (body_size desc pkt_size) >>= λ v. some (buf', v))

-- parsePacket: the buffer afterwards, and what became of the packet.
pub parse_packet : (ℕ → Option PacketDesc) → List ℕ → ℕ → Option (List ℕ × Verdict)
parse_packet packets buf size = do
  type ← read_word buf 0
  lookup_type (packets type) type buf ((size + 2 ^ 64 - 4) % 2 ^ 64)
