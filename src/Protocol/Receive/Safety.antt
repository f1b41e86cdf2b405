-- ===== src/Protocol/Receive/Safety.antt =====
-- Whatever a client sends, in whatever pieces, `step` stays inside the read buffer.
use open_fusion.Common.{
  false, ◌⊎◌, inr, ℕ, ◌+◌, ◌-◌, ◌≤◌, ◌≡◌, refl, ◌∙◌, true, Option, some, List, [], ◌∷◌, ◌++◌, arith,
  length, take, drop, length-take, length-drop, length-append, inl, Bool-cases,
}
use open_fusion.Common.Words.{length-word_bytes}
use open_fusion.Common.Int.{ℤ, pos, negsuc, pos_part, to_size_t}
use open_fusion.Protocol.Cipher.{decrypt_data}
use open_fusion.Protocol.Cipher.RoundTrip.{decrypt_negative, cipher_in_bounds}
use open_fusion.Protocol.Packets.Parse.{AreCountsInside, length-parse_packet}
use open_fusion.Protocol.Packets.{
  cn_packet_buffer_size, PacketDesc, PacketData, Verdict, unknown_packet, unexpected_packet,
  invalid_variadic, wrong_size, handled,
}
use open_fusion.Protocol.Socket.{Socket, kill, key_bytes}
use open_fusion.Protocol.Receive.{
  reset, RecvReply, received, recv_would_block, recv_failed, write_at, Flow, goes_on, returns,
  got_header, read_header, read_body, dispatch, finish_packet, first_part, second_part, third_part,
  step, wants_header, wants_body, is_complete,
}

-- The state of the receiving end between two calls. Only a socket that was just killed has a size
-- that is too large.
pub record IsReceiver (s : Socket) : Type 0 where
  pub buffered : length s.read_buffer ≡ cn_packet_buffer_size
  pub sized : (s.alive ≡ false) ⊎ (pos_part s.read_size ≤ cn_packet_buffer_size)
  pub indexed : s.read_buffer_index ≤ pos_part s.read_size

alive_sized :
    (s : Socket) → IsReceiver s → s.alive ≡ true → pos_part s.read_size ≤ cn_packet_buffer_size
alive_sized s v a = ground (arith, v.sized)

-- recv() returns no more bytes than it was asked for.
abbrev pub RecvWithin : (ℕ → RecvReply) → Type 0
RecvWithin recv = (n : ℕ) (bs : List ℕ) → recv n ≡ received bs → length bs ≤ n

pub write_at_lem :
    (buf : List ℕ) (i : ℕ) (bs : List ℕ)
    → i + length bs ≤ length buf
    → write_at buf i bs ≡ some (take i buf ++ (bs ++ drop (i + length bs) buf))
unfolding write_at
write_at_lem buf i bs h = ground arith

pub length-written :
    (buf : List ℕ) (i : ℕ) (bs : List ℕ)
    → i + length bs ≤ length buf
    → length (take i buf ++ (bs ++ drop (i + length bs) buf)) ≡ length buf
length-written buf i bs h = omega (
  arith,
  length-append (take i buf) (bs ++ drop (i + length bs) buf),
  length-append bs (drop (i + length bs) buf),
  length-take i buf,
  length-drop (i + length bs) buf,
)

-- What a part of `step` hands on; the size is small while the socket is alive, and it lives on
-- where it goes on.
abbrev FlowIsReceiver : Flow → Type 0
FlowIsReceiver (goes_on s) = IsReceiver s × (s.alive ≡ true)
FlowIsReceiver (returns s) = IsReceiver s

abbrev Keeps : Option Flow → Type 0
Keeps r = (f : Flow) × (r ≡ some f) × FlowIsReceiver f

kill-IsReceiver : (s : Socket) → IsReceiver s → IsReceiver (kill s)
unfolding kill
kill-IsReceiver s v = ground arith

got_header-FlowIsReceiver :
    (s : Socket) (bs buf : List ℕ)
    → IsReceiver s
    → s.alive ≡ true
    → s.read_buffer_index ≡ 0
    → length buf ≡ cn_packet_buffer_size
    → FlowIsReceiver (got_header s bs buf)
unfolding got_header kill
got_header-FlowIsReceiver s bs buf v a i l = ground arith

read_header-Keeps :
    (s : Socket) (r : RecvReply)
    → IsReceiver s
    → s.alive ≡ true
    → s.read_buffer_index ≡ 0
    → ((bs : List ℕ) → r ≡ received bs → length bs ≤ 4)
    → Keeps (read_header s r)
unfolding read_header
read_header-Keeps s (received bs) v a i h =
    let fits = h bs refl in
    let base = v.buffered in
    let room : 0 + length bs ≤ length s.read_buffer = omega arith in
    let buf = take 0 s.read_buffer ++ (bs ++ drop (0 + length bs) s.read_buffer) in
    (
      got_header s bs buf,
      rw (write_at_lem s.read_buffer 0 bs room),
      got_header-FlowIsReceiver s bs buf v a i (length-written s.read_buffer 0 bs room ∙ base),
    )
read_header-Keeps s recv_would_block v a i h = (goes_on s, refl, (v, a))
read_header-Keeps s recv_failed v a i h = (returns (kill s), refl, kill-IsReceiver s v)

read_body-Keeps :
    (s : Socket) (r : RecvReply)
    → IsReceiver s
    → s.alive ≡ true
    → s.read_buffer_index ≤ pos_part s.read_size
    → ((bs : List ℕ) → r ≡ received bs → length bs ≤ pos_part s.read_size - s.read_buffer_index)
    → Keeps (read_body s r)
unfolding read_body
read_body-Keeps s (received []) v a i h = (returns (kill s), refl, kill-IsReceiver s v)
read_body-Keeps s (received (b ∷ bs)) v a i h =
    let fits = h (b ∷ bs) refl in
    let base = v.buffered in
    let sized = alive_sized s v a in
    let at = s.read_buffer_index in
    let room : at + length (b ∷ bs) ≤ length s.read_buffer = omega arith in
    let full = length-written s.read_buffer at (b ∷ bs) room ∙ base in
    (
      goes_on (record s {
        read_buffer =
            take at s.read_buffer ++ (b ∷ bs ++ drop (at + length (b ∷ bs)) s.read_buffer);
        read_buffer_index = at + length (b ∷ bs);
      }),
      rw (write_at_lem s.read_buffer at (b ∷ bs) room),
      (record { buffered = full; sized = v.sized; indexed = omega arith }, a),
    )
read_body-Keeps s recv_would_block v a i h = (goes_on s, refl, (v, a))
read_body-Keeps s recv_failed v a i h = (returns (kill s), refl, kill-IsReceiver s v)

-- The decryption of a packet of any size that passed the check of the header, also a negative one.
decrypt_read_buffer :
    (buf : List ℕ) (key : ℕ) (size : ℤ)
    → length buf ≡ cn_packet_buffer_size
    → pos_part size ≤ cn_packet_buffer_size
    → (out : List ℕ) × (decrypt_data buf (key_bytes key) size ≡ some (out, size))
      × (length out ≡ cn_packet_buffer_size)
unfolding key_bytes
decrypt_read_buffer buf key (pos n) l h =
    let (out, e, same, _) =
      (cipher_in_bounds (key_bytes key) n (length-word_bytes 8 key) buf (omega arith)).1 in
    (out, e, same ∙ l)
decrypt_read_buffer buf key (negsuc n) l h = (buf, decrypt_negative buf (key_bytes key) n, l)

first_part-Keeps :
    (recv : ℕ → RecvReply) (s : Socket)
    → RecvWithin recv
    → IsReceiver s
    → s.alive ≡ true
    → Keeps (first_part recv s)
unfolding first_part
first_part-Keeps recv s h v a = elim (Bool-cases (wants_header s)) [
  | inl wants ↦ rw wants (read_header-Keeps s (recv 4) v a (ground (arith, v.indexed)) (h 4))
  | inr reads ↦ (goes_on s, rw reads, (v, a))
]

second_part-Keeps :
    (recv : ℕ → RecvReply) (f : Flow)
    → RecvWithin recv
    → FlowIsReceiver f
    → Keeps (second_part recv f)
unfolding second_part
second_part-Keeps recv (returns s) h v = (returns s, refl, v)
second_part-Keeps recv (goes_on s) h (v, a) =
    let n = pos_part s.read_size - s.read_buffer_index in
    elim (Bool-cases (wants_body s)) [
      | inl wants ↦ rw wants (read_body-Keeps s (recv n) v a v.indexed (h n))
      | inr reads ↦ (goes_on s, rw reads, (v, a))
    ]

module _ (packets : ℕ → Option PacketDesc) (handler : Socket → PacketData → Socket)
    (keeps_buffer : (s : Socket) (pkt : PacketData)
      → length (handler s pkt).read_buffer ≡ length s.read_buffer)
    (inside : AreCountsInside packets) where
  dispatch-length :
      (s : Socket) (buf : List ℕ) (v : Verdict)
      → length (dispatch packets handler s (buf, v)).read_buffer ≡ length buf
  unfolding dispatch
  dispatch-length s buf unknown_packet = refl
  dispatch-length s buf unexpected_packet = refl
  dispatch-length s buf invalid_variadic = refl
  dispatch-length s buf wrong_size = refl
  dispatch-length s buf (handled pkt) = keeps_buffer _ pkt

  finish_packet-IsReceiver :
      (s : Socket)
      → IsReceiver s
      → s.alive ≡ true
      → (t : Socket) × (finish_packet packets handler s ≡ some t) × IsReceiver t
  unfolding finish_packet
  finish_packet-IsReceiver s v a =
      let (buf, e, l) =
        decrypt_read_buffer s.read_buffer s.e_key s.read_size v.buffered (alive_sized s v a) in
      let size = to_size_t s.read_size in
      let (buf', verdict, parsed, kept) = length-parse_packet packets buf size inside l in
      (
        reset (dispatch packets handler s (buf', verdict)),
        rw (e, parsed) refl,
        record {
          buffered = dispatch-length s buf' verdict ∙ kept ∙ l;
          sized = inr (omega arith);
          indexed = omega arith;
        },
      )

  third_part-IsReceiver :
      (f : Flow)
      → FlowIsReceiver f
      → (t : Socket) × (third_part packets handler f ≡ some t) × IsReceiver t
  unfolding third_part
  third_part-IsReceiver (returns s) v = (s, refl, v)
  third_part-IsReceiver (goes_on s) (v, a) = elim (Bool-cases (is_complete s)) [
    | inl done ↦ rw done (finish_packet-IsReceiver s v a)
    | inr more ↦ (s, rw more, v)
  ]

  -- A live socket handles whatever recv() returns without an access outside the read buffer, and
  -- is left with the invariant: the buffer has its 4096 bytes, the size of the current packet is at
  -- most that while the socket lives, and the index is at most the size. recv() returns at most
  -- what it is asked for, the handler keeps the buffer's length, and the structs of the packet table
  -- hold their counts: behind the type, within the buffer.
  pub step-IsReceiver :
      (recv1 recv2 : ℕ → RecvReply) (s : Socket)
      → RecvWithin recv1
      → RecvWithin recv2
      → IsReceiver s
      → s.alive ≡ true
      → (t : Socket) × (step packets handler recv1 recv2 s ≡ some t) × IsReceiver t
  unfolding step
  step-IsReceiver recv1 recv2 s h1 h2 v a =
      let (f, e, kf) = first_part-Keeps recv1 s h1 v a in
      let (g, e', kg) = second_part-Keeps recv2 f h2 kf in rw (e, e') (third_part-IsReceiver g kg)
