-- ===== src/Protocol/Receive/Reassembly.antt =====
-- The packet that a client sent is put together from whatever pieces recv() returns.
use open_fusion.Common.{
  drop-add, ap₂, ℕ, ◌+◌, ◌-◌, ◌≤◌, ◌<◌, ◌≡◌, refl, sym, ◌∙◌, ap, true, false, Option, none, some,
  List, [], ◌∷◌, ◌++◌, arith, length, take, drop, length-append, length-take, All, ◌≢◌,
}
use mathlib.Core.List.{append-nil, append_assoc}
use open_fusion.Common.Int.{pos, pos_part}
use open_fusion.Protocol.Cipher.{◌>>=◌}
use open_fusion.Protocol.Packets.{cn_packet_buffer_size, PacketDesc, PacketData}
use open_fusion.Protocol.Socket.{Socket}
use open_fusion.Protocol.Socket.Frames.{take_front, drop_front}
use open_fusion.Protocol.Receive.{
  RecvReply, received, recv_would_block, goes_on, read_body, finish_packet, first_part, second_part,
  third_part, step, is_complete, wants_body, wants_header,
}
use open_fusion.Protocol.Receive.Safety.{write_at_lem, length-written}

-- The pieces, in order.
unfoldable pub concat : List (List ℕ) → List ℕ
concat [] = []
concat (c ∷ cs) = c ++ concat cs

-- A socket in the middle of a packet of n bytes.
pub record IsReading (s : Socket) (n : ℕ) : Type 0 where
  pub size : s.read_size ≡ pos n
  pub index : s.read_buffer_index < n
  pub active : s.actively_reading ≡ true
  pub buffered : length s.read_buffer ≡ cn_packet_buffer_size
  pub bounded : n ≤ cn_packet_buffer_size

-- The bytes of a piece behind the i bytes that are there.
abbrev pub written : List ℕ → ℕ → List ℕ → List ℕ
written buf i c = take i buf ++ (c ++ drop (i + length c) buf)

abbrev pub got : Socket → List ℕ → Socket
got s c = record s {
  read_buffer = written s.read_buffer s.read_buffer_index c;
  read_buffer_index = s.read_buffer_index + length c;
}

bind_some {ℓ} : {A : Type ℓ} (m : Option A) → (m >>= some) ≡ m
bind_some none = refl
bind_some (some a) = refl

pub bind_step {ℓ κ} :
    {A : Type ℓ} {B : Type κ} (m : Option A) (f : A → Option B) {a : A} {r : Option B}
    → m ≡ some a
    → f a ≡ r
    → (m >>= f) ≡ r
bind_step m f e h = rw e h

-- The buffer after one piece and the rest is the buffer after both.
rejoin :
    (buf : List ℕ) (i : ℕ) (c rest : List ℕ) (n : ℕ)
    → i ≤ length buf
    → i + length c ≤ n
    → take (i + length c) (written buf i c) ++ (rest ++ drop n (written buf i c))
      ≡ take i buf ++ (c ++ rest ++ drop n buf)
rejoin buf i c rest n room fits =
    let m = i + length c in
    let k = n - m in
    let x = take i buf ++ c in
    let y = drop m buf in
    let lx : length x ≡ m = omega (arith, length-append (take i buf) c, length-take i buf) in
    let split : n ≡ m + k = omega arith in
    let shape : written buf i c ≡ x ++ y = sym (append_assoc (take i buf) c y) in
    let behind : drop n (x ++ y) ≡ drop n buf =
      ap (λ (t : ℕ). drop t (x ++ y)) split
      ∙ drop-add m k (x ++ y)
      ∙ ap (drop k) (drop_front m x y lx)
      ∙ sym (drop-add m k buf)
      ∙ ap (λ (t : ℕ). drop t buf) (sym split) in
    rw (shape, take_front m x y lx, behind) (simp append_assoc)

pub first_part_reading :
    (recv : ℕ → RecvReply) (s : Socket)
    → wants_header s ≡ false
    → first_part recv s ≡ some (goes_on s)
unfolding first_part
first_part_reading recv s e = rw e

second_part_reading :
    (recv : ℕ → RecvReply) (s : Socket)
    → wants_body s ≡ true
    → second_part recv (goes_on s) ≡ read_body s (recv (pos_part s.read_size - s.read_buffer_index))
unfolding second_part
second_part_reading recv s e = rw e

read_body-got :
    (s : Socket) (b : ℕ) (bs : List ℕ)
    → s.read_buffer_index + length (b ∷ bs) ≤ length s.read_buffer
    → read_body s (received (b ∷ bs)) ≡ some (goes_on (got s (b ∷ bs)))
unfolding read_body
read_body-got s b bs h = rw (write_at_lem s.read_buffer s.read_buffer_index (b ∷ bs) h)

reads : (s : Socket) (n : ℕ) → IsReading s n → (wants_header s ≡ false) × (wants_body s ≡ true)
reads s n v = (ground (arith, v.size, v.index), ground (arith, v.size, v.index))

module _ (packets : ℕ → Option PacketDesc) (handler : Socket → PacketData → Socket) where
  -- One call of `step` for each piece; a packet is being read, so recv() is called once.
  pub deliver : List (List ℕ) → Socket → Option Socket
  deliver [] s = some s
  deliver (c ∷ cs) s =
      step packets handler (λ _. recv_would_block) (λ _. received c) s >>= deliver cs

  step_piece :
      (s : Socket) (n b : ℕ) (bs : List ℕ)
      → IsReading s n
      → s.read_buffer_index + length (b ∷ bs) ≤ n
      → step packets handler (λ _. recv_would_block) (λ _. received (b ∷ bs)) s
        ≡ third_part packets handler (goes_on (got s (b ∷ bs)))
  unfolding step
  step_piece s n b bs v h = rw (
    first_part_reading (λ _. recv_would_block) s (reads s n v).0,
    second_part_reading (λ _. received (b ∷ bs)) s (reads s n v).1,
    read_body-got s b bs (omega (arith, v.buffered, v.bounded)),
  )

  pub third_part_partial :
      (s : Socket) → is_complete s ≡ false → third_part packets handler (goes_on s) ≡ some s
  unfolding third_part
  third_part_partial s e = rw e

  third_part_complete :
      (s : Socket)
      → is_complete s ≡ true
      → third_part packets handler (goes_on s) ≡ finish_packet packets handler s
  unfolding third_part
  third_part_complete s e = rw e

  -- A socket that reads a packet of n bytes, and gets the bytes that are missing in any pieces, none
  -- of them empty, goes on to decrypt and hand on the packet after the last piece and not before:
  -- its read buffer then holds the bytes that it had, the pieces in order, and behind the n bytes
  -- what stood there.
  pub deliver-finish_packet :
      (cs : List (List ℕ)) (s : Socket) (n : ℕ)
      → IsReading s n
      → All (λ c. c ≢ []) cs
      → s.read_buffer_index + length (concat cs) ≡ n
      → deliver cs s
        ≡ finish_packet packets handler (record s {
          read_buffer =
              take s.read_buffer_index s.read_buffer ++ (concat cs ++ drop n s.read_buffer);
          read_buffer_index = n;
        })
  unfolding deliver concat
  deliver-finish_packet [] s n v ne total = absurd (omega (arith, v.index))
  deliver-finish_packet ([] ∷ cs) s n v ne total = absurd (ne.0 refl)
  deliver-finish_packet ((b ∷ bs) ∷ []) s n v ne total =
      let i = s.read_buffer_index in
      let c = b ∷ bs in
      let all : i + length c ≡ n = omega (arith, total, length-append c []) in
      rw
        (
          step_piece s n b bs v (omega arith),
          third_part_complete (got s c) (ground (arith, v.size, v.active)),
          bind_some (finish_packet packets handler (got s c)),
        )
        (ap₂
          (λ (buf : List ℕ) (k : ℕ).
            finish_packet packets handler (record s { read_buffer = buf; read_buffer_index = k }))
          (ap₂ (λ (t : List ℕ) (k : ℕ). take i s.read_buffer ++ (t ++ drop k s.read_buffer))
            (sym (append-nil c)) all)
          all)
  deliver-finish_packet ((b ∷ bs) ∷ ([] ∷ cs)) s n v ne total = absurd (ne.1.0 refl)
  deliver-finish_packet ((b ∷ bs) ∷ ((b' ∷ bs') ∷ cs)) s n v ne total =
      let i = s.read_buffer_index in
      let c = b ∷ bs in
      let rest = (b' ∷ bs') ∷ cs in
      let sum = length-append c (concat rest) in
      let fits : i + length c < n = omega (arith, total, sum) in
      let room : i + length c ≤ length s.read_buffer = omega (arith, v.buffered, v.bounded) in
      let v' : IsReading (got s c) n = record {
        size = v.size;
        index = fits;
        active = v.active;
        buffered = length-written s.read_buffer i c room ∙ v.buffered;
        bounded = v.bounded;
      } in
      bind_step _ (deliver rest)
        (step_piece s n b bs v (omega arith)
          ∙ third_part_partial (got s c) (ground (arith, v.size, v.active)))
        (deliver-finish_packet ((b' ∷ bs') ∷ cs) (got s c) n v' ne.1 (omega (arith, total, sum))
          ∙ ap
              (λ (buf : List ℕ).
                finish_packet packets handler
                  (record s { read_buffer = buf; read_buffer_index = n }))
              (rejoin s.read_buffer i c (concat rest) n (omega arith) (omega arith)))
