-- ===== src/Protocol/Receive.antt =====
-- CNSocket::step of core/CNProtocol.cpp: the receiving end of a socket. What recv() returns is a
-- function of the number of bytes asked for. `none` is an access outside the read buffer.
pub mod Safety
pub mod Reassembly
pub mod Transfer
mod Tests
use open_fusion.Common.{
  ℕ, zero, suc, ◌+◌, ◌-◌, ◌^◌, Bool, true, false, ◌&&◌, not, Option, none, some, List, [], ◌∷◌,
  ◌++◌, ltb, leb, if◌then◌else◌, take, drop, length,
}
use open_fusion.Common.Words.{bytes_word}
use open_fusion.Common.Int.{ℤ, pos, negsuc, signed32, to_size_t, pos_part, neg_part, ltb_ℤ}
use open_fusion.Protocol.Cipher.{◌>>=◌, decrypt_data}
use open_fusion.Protocol.Packets.{
  cn_packet_buffer_size, PacketDesc, PacketData, Verdict, unknown_packet, unexpected_packet,
  invalid_variadic, wrong_size, handled, parse_packet,
}
use open_fusion.Protocol.Socket.{Socket, kill, key_bytes}

-- A reply of recv(): the bytes read (none of them at the end of the stream), EWOULDBLOCK, or another
-- error.
pub data RecvReply : Type 0 where
  received : List ℕ → RecvReply
  recv_would_block recv_failed : RecvReply

-- The bytes that recv() writes at a place of a buffer.
pub write_at : List ℕ → ℕ → List ℕ → Option (List ℕ)
write_at buf i bs =
    if ltb (length buf) (i + length bs)
    then none
    else some (take i buf ++ (bs ++ drop (i + length bs) buf))

-- What a part of `step` does: go on, or return.
pub data Flow : Type 0 where
  goes_on returns : Socket → Flow

-- The size check of the first read, with the bytes in the buffer.
pub got_header : Socket → List ℕ → List ℕ → Flow
got_header s bs buf =
    if ltb (length bs) 4
    then returns (kill (record s { read_buffer = buf }))
    else (let size = signed32 (bytes_word (take 4 buf)) in
        let t = record s { read_buffer = buf; read_size = size } in
        if ltb_ℤ (pos cn_packet_buffer_size) size
        then returns (kill t)
        else goes_on (record t { actively_reading = true }))

-- The first read, of the size of the packet.
pub read_header : Socket → RecvReply → Option Flow
read_header s (received bs) = write_at s.read_buffer 0 bs >>= λ buf. some (got_header s bs buf)
read_header s recv_would_block = some (goes_on s)
read_header s recv_failed = some (returns (kill s))

-- The second read, of the rest of the packet.
pub read_body : Socket → RecvReply → Option Flow
read_body s (received []) = some (returns (kill s))
read_body s (received (b ∷ bs)) = do
  buf ← write_at s.read_buffer s.read_buffer_index (b ∷ bs)
  some (
      goes_on
        (record s { read_buffer = buf; read_buffer_index = s.read_buffer_index + length (b ∷ bs) }))
read_body s recv_would_block = some (goes_on s)
read_body s recv_failed = some (returns (kill s))

-- The reset behind the call of the handler.
abbrev pub reset : Socket → Socket
reset s = record s { read_size = pos 0; read_buffer_index = 0; actively_reading = false }

abbrev pub wants_header : Socket → Bool
wants_header s = not (ltb_ℤ (pos 0) s.read_size)

pub first_part : (ℕ → RecvReply) → Socket → Option Flow
first_part recv s = if wants_header s then read_header s (recv 4) else some (goes_on s)

abbrev pub wants_body : Socket → Bool
wants_body s = ltb_ℤ (pos 0) s.read_size && ltb_ℤ (pos s.read_buffer_index) s.read_size

pub second_part : (ℕ → RecvReply) → Flow → Option Flow
second_part recv (returns s) = some (returns s)
second_part recv (goes_on s) =
    if wants_body s
    then read_body s (recv (pos_part s.read_size - s.read_buffer_index))
    else some (goes_on s)

abbrev pub is_complete : Socket → Bool
is_complete s = s.actively_reading && not (ltb_ℤ (pos s.read_buffer_index) s.read_size)

module _ (packets : ℕ → Option PacketDesc) (handler : Socket → PacketData → Socket) where
  -- pHandler is called for a packet that passes, with the socket as it stands.
  pub dispatch : Socket → List ℕ × Verdict → Socket
  dispatch s (buf, unknown_packet) = record s { read_buffer = buf }
  dispatch s (buf, unexpected_packet) = record s { read_buffer = buf }
  dispatch s (buf, invalid_variadic) = record s { read_buffer = buf }
  dispatch s (buf, wrong_size) = record s { read_buffer = buf }
  dispatch s (buf, handled pkt) = handler (record s { read_buffer = buf }) pkt

  -- The third part: decrypt a packet that is complete, and hand it on.
  pub finish_packet : Socket → Option Socket
  finish_packet s = do
    (buf, _) ← decrypt_data s.read_buffer (key_bytes s.e_key) s.read_size
    parsed ← parse_packet packets buf (to_size_t s.read_size)
    some (reset (dispatch s parsed))

  pub third_part : Flow → Option Socket
  third_part (returns s) = some s
  third_part (goes_on s) = if is_complete s then finish_packet s else some s

  -- step, over the replies of its two calls of recv().
  pub step : (ℕ → RecvReply) → (ℕ → RecvReply) → Socket → Option Socket
  step recv1 recv2 s = do f ← first_part recv1 s; g ← second_part recv2 f; third_part g
