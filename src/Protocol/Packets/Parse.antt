-- ===== src/Protocol/Packets/Parse.antt =====
-- Which packets parsePacket hands to the handler.
use open_fusion.Common.{
  if_true, if_false, length-set, length, inr, inl, ℕ, ◌+◌, ◌-◌, ◌*◌, ◌%◌, ◌^◌, ◌≤◌, ◌<◌, ◌≡◌, refl,
  ◌⊎◌, true, false, Option, none, some, List, take, drop, arith, ap, sym, subst, ◌∙◌, Bool-cases,
  not, set,
}
use open_fusion.Common.Words.{bytes_word}
use open_fusion.Common.Int.{ℤ, pos, pos_part, to_size_t, signed32}
use open_fusion.Protocol.Cipher.{◌>>=◌}
use open_fusion.Protocol.Packets.{
  cn_packet_body_size, cn_packet_buffer_size, PacketDesc, PacketData, Verdict, handled,
  unknown_packet, unexpected_packet, is_inbound_packet_id, read_word, count_of, check_variadic,
  check_fixed, check_sizes, lookup_type, parse_packet, zero_body, body_size, is_empty_struct,
}
use open_fusion.Protocol.Packets.Bounds.{valid_in_var_packet_lem}

-- What the compiler guarantees of a descriptor: a struct is smaller than 4 GB, and the trailing
-- struct of a variadic packet is not empty.
pub record IsDescriptor (d : PacketDesc) : Type 0 where
  pub small : d.size < 2 ^ 32
  pub trailed : d.variadic ≡ true → 0 < d.trailer_size

-- The received bytes are the packet type, the struct and the trailers, and nothing else, but for a
-- struct of one byte, which may be missing.
abbrev pub Framed : PacketDesc → ℕ → PacketData → Type 0
Framed d size pkt =
    ((d.variadic ≡ false)
      × (pkt.size ≡ d.size)
      × ((size ≡ 4 + d.size) ⊎ ((d.size ≡ 1) × (size ≡ 4))))
    ⊎ ((d.variadic ≡ true)
        × (pkt.tr_cnt ≡ pos (pos_part pkt.tr_cnt))
        × (size ≡ 4 + d.size + pos_part pkt.tr_cnt * d.trailer_size))

le-mul : (x p : ℕ) → 0 < p → x ≤ x * p
le-mul x p h = grind arith

-- A negative count is a huge `size_t`.
small_count :
    (w p : ℕ)
    → to_size_t (signed32 w) * p ≤ cn_packet_body_size
    → 0 < p
    → (signed32 w ≡ pos (pos_part (signed32 w))) × (to_size_t (signed32 w) ≡ pos_part (signed32 w))
small_count w p fits h = ground (arith, le-mul (to_size_t (signed32 w)) p h)

bind_inv :
    {A B : Type 0} (o : Option A) (k : A → Option B) (y : B)
    → (o >>= k) ≡ some y
    → (x : A) × (o ≡ some x) × (k x ≡ some y)
bind_inv none k y h = absurd (ground arith)
bind_inv (some x) k y h = (x, refl, h)

-- A count that was read has 32 bits.
counted_word :
    (d : PacketDesc) (buf : List ℕ) (n : ℤ) → count_of d buf ≡ some n → (w : ℕ) × (n ≡ signed32 w)
unfolding count_of
counted_word d buf n h =
    let (w, _, e) = bind_inv (read_word buf (4 + d.cnt_memb_ofs)) _ n h in (w, ground arith)

-- A packet whose sizes passed, with its count.
abbrev Sized : PacketDesc → ℕ → ℕ → PacketData → Type 0
Sized d type pkt_size pkt =
    (pkt.type ≡ type)
    × (pkt.size ≡ pkt_size)
    × (((d.variadic ≡ false) × (pkt_size ≡ d.size))
        ⊎ ((d.variadic ≡ true)
            × (pkt.tr_cnt ≡ pos (pos_part pkt.tr_cnt))
            × (pos_part pkt.tr_cnt * d.trailer_size ≤ cn_packet_body_size)
            × (pkt_size ≡ d.size + pos_part pkt.tr_cnt * d.trailer_size)))

check_variadic-Sized :
    (d : PacketDesc) (type : ℕ) (buf : List ℕ) (pkt_size : ℕ) (n : ℤ) (pkt : PacketData)
    → IsDescriptor d
    → d.variadic ≡ true
    → (w : ℕ) × (n ≡ signed32 w)
    → check_variadic d type buf pkt_size n ≡ handled pkt
    → Sized d type pkt_size pkt
unfolding check_variadic
check_variadic-Sized d type buf pkt_size n pkt valid vary (w, e) h =
    let exact =
      valid_in_var_packet_lem d.size (to_size_t n) d.trailer_size pkt_size (omega arith) in
    let small : to_size_t n * d.trailer_size ≤ cn_packet_body_size
        → 0 < d.trailer_size
        → (n ≡ pos (pos_part n)) × (to_size_t n ≡ pos_part n) =
      subst
        (λ (z : ℤ).
          to_size_t z * d.trailer_size ≤ cn_packet_body_size
          → 0 < d.trailer_size
          → (z ≡ pos (pos_part z)) × (to_size_t z ≡ pos_part z))
        (sym e) (small_count w d.trailer_size) in
    ground (arith, valid.trailed vary, exact.0, small)

check_fixed-Sized :
    (d : PacketDesc) (type : ℕ) (buf : List ℕ) (pkt_size : ℕ) (pkt : PacketData)
    → d.variadic ≡ false
    → check_fixed d type buf pkt_size ≡ handled pkt
    → Sized d type pkt_size pkt
unfolding check_fixed
check_fixed-Sized d type buf pkt_size pkt fixed h = ground arith

check_sizes-Sized :
    (d : PacketDesc) (type : ℕ) (buf : List ℕ) (pkt_size : ℕ) (pkt : PacketData)
    → IsDescriptor d
    → check_sizes d type buf pkt_size ≡ some (handled pkt)
    → Sized d type pkt_size pkt
unfolding check_sizes
check_sizes-Sized d type buf pkt_size pkt valid h = elim (Bool-cases d.variadic) [
  | inl vary ↦
      let read : (count_of d buf >>= λ n. some (check_variadic d type buf pkt_size n))
          ≡ some (handled pkt) =
        sym (
          if_true d.variadic (count_of d buf >>= λ n. some (check_variadic d type buf pkt_size n))
            (some (check_fixed d type buf pkt_size)) vary)
        ∙ h in
      let (n, counted, e) = bind_inv (count_of d buf) _ (handled pkt) read in
      check_variadic-Sized d type buf pkt_size n pkt valid vary (counted_word d buf n counted)
        (ground arith)
  | inr fixed ↦ check_fixed-Sized d type buf pkt_size pkt fixed (ground arith)
]

lookup_type-Framed :
    (m : Option PacketDesc) (type : ℕ) (buf : List ℕ) (size : ℕ) (buf' : List ℕ) (pkt : PacketData)
    → ((d : PacketDesc) → m ≡ some d → IsDescriptor d)
    → size < 2 ^ 64
    → lookup_type m type buf ((size + 2 ^ 64 - 4) % 2 ^ 64) ≡ some (buf', handled pkt)
    → (d : PacketDesc) × (m ≡ some d)
      × (pkt.type ≡ type)
      × (is_inbound_packet_id type ≡ true)
      × Framed d size pkt
unfolding lookup_type
lookup_type-Framed none type buf size buf' pkt table fits h = absurd (ground arith)
lookup_type-Framed (some d) type buf size buf' pkt table fits h =
    elim (Bool-cases (is_inbound_packet_id type)) [
      | inl inbound ↦
          let ps = (size + 2 ^ 64 - 4) % 2 ^ 64 in
          let valid = table d refl in
          let small = valid.small in
          let known : (zero_body d ps buf >>= λ b.
          check_sizes d type b (body_size d ps) >>= λ v. some (b, v))
              ≡ some (buf', handled pkt) =
            sym (
              if_false (not (is_inbound_packet_id type)) (some (buf, unexpected_packet))
                (zero_body d ps buf >>= λ b.
                  check_sizes d type b (body_size d ps) >>= λ v. some (b, v))
                (ap not inbound))
            ∙ h in
          let (b, _, checked) = bind_inv (zero_body d ps buf) _ (buf', handled pkt) known in
          let (v, e, same) =
            bind_inv (check_sizes d type b (body_size d ps)) _ (buf', handled pkt) checked in
          let is_handled : v ≡ handled pkt = ground arith in
          let sizes =
            check_sizes-Sized d type b (body_size d ps) pkt valid (e ∙ ap some is_handled) in
          let framed : Framed d size pkt = ground (arith, sizes) in
          (d, refl, sizes.0, inbound, framed)
      | inr other ↦ absurd (ground arith)
    ]

read_type : (buf : List ℕ) (t : ℕ) → read_word buf 0 ≡ some t → t ≡ bytes_word (take 4 buf)
unfolding read_word
read_type buf t h = ground arith

word_at :
    (buf : List ℕ) (i : ℕ)
    → i + 4 ≤ length buf
    → read_word buf i ≡ some (bytes_word (take 4 (drop i buf)))
unfolding read_word
word_at buf i h = ground arith

-- parsePacket calls the handler only for a packet whose type is in the table and inbound, and whose
-- size is exact: with d its descriptor, 4 bytes of type and the struct for a fixed size (or the type
-- alone where the struct has one byte), and for a variadic packet a count that is not negative and
-- as many trailers behind the struct as it says. The size is any `size_t`, also one below 4; the
-- table's structs are smaller than 2^32 bytes and its trailers not empty.
pub parse_packet-Framed :
    (packets : ℕ → Option PacketDesc) (buf : List ℕ) (size : ℕ) (buf' : List ℕ) (pkt : PacketData)
    → ((t : ℕ) (d : PacketDesc) → packets t ≡ some d → IsDescriptor d)
    → size < 2 ^ 64
    → parse_packet packets buf size ≡ some (buf', handled pkt)
    → (d : PacketDesc) × (packets (bytes_word (take 4 buf)) ≡ some d)
      × (pkt.type ≡ bytes_word (take 4 buf))
      × (is_inbound_packet_id (bytes_word (take 4 buf)) ≡ true)
      × Framed d size pkt
unfolding parse_packet
parse_packet-Framed packets buf size buf' pkt table fits h =
    let (type, read, e) = bind_inv (read_word buf 0) _ (buf', handled pkt) h in
    let typed = read_type buf type read in
    subst
      (λ (t : ℕ).
        (d : PacketDesc) × (packets t ≡ some d)
        × (pkt.type ≡ t)
        × (is_inbound_packet_id t ≡ true)
        × Framed d size pkt)
      typed (lookup_type-Framed (packets type) type buf size buf' pkt (table type) fits e)

-- The other way round: a packet of a known inbound type whose size is exact reaches the handler,
-- with its body and count. Its sizes are those of the descriptor: a struct that is not variadic and
-- that was sent whole, or a count n, read inside the buffer, whose trailers fit into 4088 bytes and
-- were sent whole. The buffer holds at least the type.
pub parse_packet_accepts :
    (packets : ℕ → Option PacketDesc) (buf : List ℕ) (size n : ℕ) (d : PacketDesc)
    → 4 ≤ length buf
    → packets (bytes_word (take 4 buf)) ≡ some d
    → is_inbound_packet_id (bytes_word (take 4 buf)) ≡ true
    → d.size < 2 ^ 32
    → ((d.variadic ≡ false) × (n ≡ 0) × (size ≡ 4 + d.size))
      ⊎ ((d.variadic ≡ true)
          × (count_of d buf ≡ some (pos n))
          × (n * d.trailer_size ≤ cn_packet_body_size)
          × (n < 2 ^ 64)
          × (size ≡ 4 + d.size + n * d.trailer_size))
    → (pkt : PacketData) × ((parse_packet packets buf size) ≡ some (buf, handled pkt))
      × (pkt.buf ≡ drop 4 buf)
      × (pkt.size + 4 ≡ size)
      × (pkt.tr_cnt ≡ pos n)
unfolding parse_packet lookup_type check_sizes check_variadic check_fixed count_of bytes_word
parse_packet_accepts packets buf size n d typed known inbound small (inl (fixed, none_, exact)) = (
  record {
    buf = drop 4 buf;
    size = d.size;
    type = bytes_word (take 4 buf);
    tr_cnt = pos 0;
    trailers = none;
  },
  rw (word_at buf 0 typed, known, lookup_type, inbound, fixed) (ground arith),
  refl,
  omega arith,
  ap pos (sym none_),
)
parse_packet_accepts packets buf size n d typed known inbound small
      (inr (vary, counted, fits, small_n, exact)) =
    let in_var =
      valid_in_var_packet_lem d.size n d.trailer_size (d.size + n * d.trailer_size) (omega arith) in
    (
      record {
        buf = drop 4 buf;
        size = d.size + n * d.trailer_size;
        type = bytes_word (take 4 buf);
        tr_cnt = pos n;
        trailers = some (drop (4 + d.size) buf);
      },
      rw (word_at buf 0 typed, known, lookup_type, inbound, vary, counted)
          (ground (arith, in_var.1)),
      refl,
      omega arith,
      refl,
    )

-- What the compiler guarantees of the counts of a table: with the type and the size word it lies in
-- a buffer of 4096 bytes.
abbrev pub AreCountsInside : (ℕ → Option PacketDesc) → Type 0
AreCountsInside packets =
    (t : ℕ) (d : PacketDesc)
    → packets t ≡ some d
    → d.variadic ≡ true
    → 8 + d.cnt_memb_ofs ≤ cn_packet_buffer_size

-- A parsed packet, in a buffer of the same length.
abbrev pub ParsesInside : Option (List ℕ × Verdict) → ℕ → Type 0
ParsesInside r n = (buf : List ℕ) × (v : Verdict) × (r ≡ some (buf, v)) × (length buf ≡ n)

check_sizes_answers :
    (d : PacketDesc) (type : ℕ) (buf : List ℕ) (pkt_size : ℕ)
    → (d.variadic ≡ true → 8 + d.cnt_memb_ofs ≤ length buf)
    → (v : Verdict) × (check_sizes d type buf pkt_size ≡ some v)
unfolding check_sizes count_of
check_sizes_answers d type buf pkt_size inside = elim (Bool-cases d.variadic) [
  | inl vary ↦
      let room = inside vary in
      let w = bytes_word (take 4 (drop (4 + d.cnt_memb_ofs) buf)) in
      (
        check_variadic d type buf pkt_size (signed32 w),
        rw (vary, word_at buf (4 + d.cnt_memb_ofs) (omega arith)) refl,
      )
  | inr fixed ↦ (check_fixed d type buf pkt_size, rw fixed refl)
]

zeroed :
    (d : PacketDesc) (n : ℕ) (buf : List ℕ)
    → 4 < length buf
    → (b : List ℕ) × (zero_body d n buf ≡ some b) × (length b ≡ length buf)
zeroed d n buf room = elim (Bool-cases (is_empty_struct d n)) [
  | inl empty ↦ (set buf 4 0, ground arith, length-set buf 4 0)
  | inr full ↦ (buf, ground arith, refl)
]

length-lookup_type :
    (m : Option PacketDesc) (type : ℕ) (buf : List ℕ) (n : ℕ)
    → 4 < length buf
    → ((d : PacketDesc) → m ≡ some d → d.variadic ≡ true → 8 + d.cnt_memb_ofs ≤ length buf)
    → ParsesInside (lookup_type m type buf n) (length buf)
unfolding lookup_type
length-lookup_type none type buf n room inside = (buf, unknown_packet, refl, refl)
length-lookup_type (some d) type buf n room inside = elim (Bool-cases (is_inbound_packet_id type)) [
  | inl inbound ↦
      let (b, e, l) = zeroed d n buf room in
      let (v, checked) =
        check_sizes_answers d type b (body_size d n)
          (λ vary. subst (λ k. 8 + d.cnt_memb_ofs ≤ k) (sym l) (inside d refl vary)) in
      (b, v, rw (inbound, e, checked) refl, l)
  | inr other ↦ (buf, unexpected_packet, rw other refl, refl)
]

-- parsePacket stays inside a full buffer, and keeps its length.
pub length-parse_packet :
    (packets : ℕ → Option PacketDesc) (buf : List ℕ) (size : ℕ)
    → AreCountsInside packets
    → length buf ≡ cn_packet_buffer_size
    → ParsesInside (parse_packet packets buf size) (length buf)
unfolding parse_packet
length-parse_packet packets buf size inside l =
    let t = bytes_word (take 4 buf) in
    rw (word_at buf 0 (omega arith)) (
      length-lookup_type (packets t) t buf _ (omega arith)
        (λ d e vary. omega (arith, inside t d e vary)))
