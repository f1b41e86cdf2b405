-- ===== src/Protocol/Receive/Transfer.antt =====
-- One packet from the sending end to the receiving end.
use open_fusion.Common.{
  none, subst, length-take, ℕ, ◌+◌, ◌-◌, ◌^◌, ◌≤◌, ◌<◌, ◌≡◌, ◌≢◌, refl, sym, ◌∙◌, ap, ap₂, true,
  Option, some, List, [], ◌++◌, arith, length, take, drop, drop-add, length-append, length-drop,
  All,
}
use open_fusion.Common.Int.{ℤ, pos, to_size_t}
use open_fusion.Common.Words.{bytes_word, length-word_bytes}
use open_fusion.Protocol.Cipher.{◌>>=◌, decrypt_data}
use open_fusion.Protocol.Cipher.RoundTrip.{decrypt_data-append}
use open_fusion.Protocol.Packets.{
  cn_packet_buffer_size, PacketDesc, PacketData, Verdict, unknown_packet, unexpected_packet,
  invalid_variadic, wrong_size, handled, parse_packet,
}
use open_fusion.Protocol.Socket.{Socket, key_bytes, full_packet}
use open_fusion.Protocol.Socket.Frames.{take_front, drop_front, plain_body, full_packet_lem}
use open_fusion.Protocol.Receive.{
  RecvReply, received, recv_would_block, goes_on, got_header, read_header, read_body, dispatch,
  finish_packet, first_part, second_part, step, wants_header, reset,
}
use open_fusion.Protocol.Receive.Safety.{write_at_lem}
use open_fusion.Protocol.Receive.Reassembly.{
  IsReading, concat, bind_step, third_part_partial, deliver, deliver-finish_packet,
}

-- A socket between two packets.
pub record IsIdle (s : Socket) : Type 0 where
  pub size : s.read_size ≡ pos 0
  pub index : s.read_buffer_index ≡ 0
  pub buffered : length s.read_buffer ≡ cn_packet_buffer_size

first_part_idle :
    (recv : ℕ → RecvReply) (s : Socket)
    → wants_header s ≡ true
    → first_part recv s ≡ read_header s (recv 4)
unfolding first_part
first_part_idle recv s e = rw e

abbrev opened : Socket → List ℕ → ℕ → Socket
opened s buf n = record s { read_buffer = buf; read_size = pos n; actively_reading = true }

got_header-opened :
    (s : Socket) (bs d : List ℕ) (n : ℕ)
    → length bs ≡ 4
    → bytes_word bs ≡ n
    → n ≤ cn_packet_buffer_size
    → got_header s bs (bs ++ d) ≡ goes_on (opened s (bs ++ d) n)
unfolding got_header
got_header-opened s bs d n l w h = rw (take_front 4 bs d l, w) (ground arith)

read_header-opened :
    (s : Socket) (bs : List ℕ) (n : ℕ)
    → length s.read_buffer ≡ cn_packet_buffer_size
    → length bs ≡ 4
    → bytes_word bs ≡ n
    → n ≤ cn_packet_buffer_size
    → read_header s (received bs) ≡ some (goes_on (opened s (bs ++ drop 4 s.read_buffer) n))
unfolding read_header
read_header-opened s bs n v l w h =
    let four : 0 + length bs ≡ 4 = omega arith in
    rw (write_at_lem s.read_buffer 0 bs (omega arith), four)
      (ap some (got_header-opened s bs (drop 4 s.read_buffer) n l w h))

second_part_waits :
    (s : Socket) → second_part (λ _. recv_would_block) (goes_on s) ≡ some (goes_on s)
unfolding second_part read_body
second_part_waits s = ground arith

-- The four bytes of a header that announces n bytes, when the rest has not come yet.
header_step :
    (packets : ℕ → Option PacketDesc) (handler : Socket → PacketData → Socket) (s : Socket)
    (bs : List ℕ) (n : ℕ)
    → IsIdle s
    → length bs ≡ 4
    → bytes_word bs ≡ n
    → 0 < n
    → n ≤ cn_packet_buffer_size
    → step packets handler (λ _. received bs) (λ _. recv_would_block) s
      ≡ some (opened s (bs ++ drop 4 s.read_buffer) n)
unfolding step
header_step packets handler s bs n v l w p h =
    rw
      (
        first_part_idle (λ _. received bs) s (ground (arith, v.size)),
        read_header-opened s bs n v.buffered l w h,
        second_part_waits (opened s (bs ++ drop 4 s.read_buffer) n),
      )
      (third_part_partial packets handler (opened s (bs ++ drop 4 s.read_buffer) n)
        (ground (arith, v.index)))

-- The life of one packet on the receiving side: its first four bytes, then the others in pieces.
pub receive_packet :
    (ℕ → Option PacketDesc)
    → (Socket → PacketData → Socket)
    → List ℕ
    → List (List ℕ)
    → Socket
    → Option Socket
receive_packet packets handler header pieces s =
    step packets handler (λ _. received header) (λ _. recv_would_block) s
    >>= deliver packets handler pieces

-- What `finish_packet` does with a read buffer that begins with an encrypted packet.
finish_packet_plain :
    (packets : ℕ → Option PacketDesc) (handler : Socket → PacketData → Socket) (s : Socket)
    (body plain tail : List ℕ) (n : ℕ)
    → s.read_size ≡ pos n
    → s.read_buffer ≡ body ++ tail
    → length body ≡ n
    → n < 2 ^ 32
    → decrypt_data body (key_bytes s.e_key) (pos n) ≡ some (plain, pos n)
    → finish_packet packets handler s ≡ (
        parse_packet packets (plain ++ tail) n >>= λ parsed.
        some (reset (dispatch packets handler s parsed)))
unfolding finish_packet key_bytes
finish_packet_plain packets handler s body plain tail n es eb l small e =
    let whole =
      decrypt_data-append (key_bytes s.e_key) n (length-word_bytes 8 s.e_key) body tail plain
        (omega arith) e in
    let size : to_size_t s.read_size ≡ n = ground (arith, es) in
    bind_step (decrypt_data s.read_buffer (key_bytes s.e_key) s.read_size) _
      (ap₂ (λ (b : List ℕ) (z : ℤ). decrypt_data b (key_bytes s.e_key) z) eb es ∙ whole)
      (ap
        (λ (k : ℕ). parse_packet packets (plain ++ tail) k >>= λ parsed.
          some (reset (dispatch packets handler s parsed)))
        size)

-- The buffer of the socket is replaced before the handler is called.
dispatch_buffer :
    (packets : ℕ → Option PacketDesc) (handler : Socket → PacketData → Socket) (s : Socket)
    (b buf : List ℕ) (v : Verdict)
    → dispatch packets handler (record s { read_buffer = b }) (buf, v)
      ≡ dispatch packets handler s (buf, v)
unfolding dispatch
dispatch_buffer packets handler s b buf unknown_packet = refl
dispatch_buffer packets handler s b buf unexpected_packet = refl
dispatch_buffer packets handler s b buf invalid_variadic = refl
dispatch_buffer packets handler s b buf wrong_size = refl
dispatch_buffer packets handler s b buf (handled pkt) = refl

bind_cong :
    {A B : Type 0} (m : Option A) (f g : A → Option B)
    → ((a : A) → f a ≡ g a)
    → (m >>= f) ≡ (m >>= g)
bind_cong none f g h = refl
bind_cong (some a) f g h = h a

-- The socket as the handler finds it, but for its buffer.
abbrev pub complete : Socket → ℕ → Socket
complete s n = record s { read_size = pos n; read_buffer_index = n; actively_reading = true }

drop_behind :
    (hd buf : List ℕ) (n : ℕ) → length hd ≡ 4 → 4 ≤ n → drop n (hd ++ drop 4 buf) ≡ drop n buf
drop_behind hd buf n l h =
    let k = n - 4 in
    let split : n ≡ 4 + k = omega arith in
    ap (λ (t : ℕ). drop t (hd ++ drop 4 buf)) split
    ∙ drop-add 4 k (hd ++ drop 4 buf)
    ∙ ap (drop k) (drop_front 4 hd (drop 4 buf) l)
    ∙ sym (drop-add 4 k buf)
    ∙ ap (λ (t : ℕ). drop t buf) (sym split)

-- A frame in its parts, received by a socket between two packets.
receive_frame :
    (packets : ℕ → Option PacketDesc) (handler : Socket → PacketData → Socket) (s : Socket)
    (hd body plain : List ℕ) (n : ℕ) (pieces : List (List ℕ))
    → IsIdle s
    → length hd ≡ 4
    → bytes_word hd ≡ n
    → 4 ≤ n
    → n ≤ cn_packet_buffer_size
    → length body ≡ n
    → decrypt_data body (key_bytes s.e_key) (pos n) ≡ some (plain, pos n)
    → All (λ c. c ≢ []) pieces
    → concat pieces ≡ body
    → receive_packet packets handler hd pieces s ≡ (
        parse_packet packets (plain ++ drop n s.read_buffer) n >>= λ parsed.
        some (reset (dispatch packets handler (complete s n) parsed)))
unfolding receive_packet
receive_frame packets handler s hd body plain n pieces idle hl hw lo hi bl dec ne joined =
    let sb = s.read_buffer in
    let b = hd ++ drop 4 sb in
    let o = opened s b n in
    let parsed = parse_packet packets (plain ++ drop n sb) n in
    let reading : IsReading o n = record {
      size = refl;
      index = omega (arith, idle.index);
      active = refl;
      buffered = omega (arith, length-append hd (drop 4 sb), length-drop 4 sb, idle.buffered);
      bounded = hi;
    } in
    let whole = take s.read_buffer_index b ++ (concat pieces ++ drop n b) in
    let shape : whole ≡ body ++ drop n sb =
      ap (λ (k : ℕ). take k b ++ (concat pieces ++ drop n b)) idle.index
      ∙ ap₂ ◌++◌ joined (drop_behind hd sb n hl lo) in
    let done = record (complete s n) { read_buffer = whole } in
    bind_step _ (deliver packets handler pieces)
      (header_step packets handler s hd n idle hl hw (omega arith) hi)
      (deliver-finish_packet packets handler pieces o n reading ne
          (omega (arith, idle.index, ap length joined))
        ∙ finish_packet_plain packets handler done body plain (drop n sb) n refl shape bl
            (omega arith) dec
        ∙ bind_cong parsed _ _ (λ (buf, v).
          ap (λ (t : Socket). some (reset t))
            (dispatch_buffer packets handler (complete s n) whole buf v)))

-- The whole way of a packet. A body of `size` bytes that fits the buffer is framed by sendPacket
-- under the key of a socket that is between two packets. The frame's first four bytes arrive, and
-- then its others in any pieces that are not empty. Then `step` hands parsePacket the type and the
-- body that were sent, with their size, and resets the socket.
pub receive_packet-full_packet :
    (packets : ℕ → Option PacketDesc) (handler : Socket → PacketData → Socket) (s : Socket)
    (buf : List ℕ) (type size : ℕ) (frame : List ℕ) (pieces : List (List ℕ))
    → IsIdle s
    → size + 8 ≤ cn_packet_buffer_size
    → size ≤ length buf
    → full_packet (key_bytes s.e_key) buf type size ≡ some frame
    → All (λ c. c ≢ []) pieces
    → concat pieces ≡ drop 4 frame
    → receive_packet packets handler (take 4 frame) pieces s ≡ (
        parse_packet packets (plain_body buf type size ++ drop (size + 4) s.read_buffer) (size + 4)
        >>= λ parsed. some (reset (dispatch packets handler (complete s (size + 4)) parsed)))
unfolding key_bytes
receive_packet-full_packet packets handler s buf type size frame pieces idle fits inside e ne
      joined =
    let n = size + 4 in
    let (frame', e', len, header, decrypts) =
      full_packet_lem (key_bytes s.e_key) buf type size (length-word_bytes 8 s.e_key) fits inside in
    let same : frame' ≡ frame = cc in
    receive_frame packets handler s (take 4 frame) (drop 4 frame) (plain_body buf type size) n
      pieces idle (omega (arith, length-take 4 frame, ap length same))
      (subst (λ (t : List ℕ). bytes_word (take 4 t) ≡ n) same header) (omega arith) (omega arith)
      (omega (arith, length-drop 4 frame, ap length same))
      (subst
        (λ (t : List ℕ).
          decrypt_data (drop 4 t) (key_bytes s.e_key) (pos n)
          ≡ some (plain_body buf type size, pos n))
        same decrypts)
      ne joined
