-- ===== src/Protocol/Socket/Sending.antt =====
-- What sendData puts on the wire, and when it succeeds.
use open_fusion.Common.{
  none, ◌⊎◌, take_all, subst, lt→ltb, ℕ, suc, ◌+◌, ◌-◌, ◌≤◌, ◌<◌, ◌≡◌, refl, sym, ◌∙◌, ap, Bool,
  true, false, inl, inr, Bool-cases, Option, some, List, [], ◌∷◌, ◌++◌, arith, leb, ltb, length,
  take, drop, take-add, All,
}
use open_fusion.Protocol.Cipher.{◌>>=◌, key_length}
use open_fusion.Protocol.Packets.{cn_packet_buffer_size}
use open_fusion.Protocol.Socket.Frames.{full_packet_lem}
use open_fusion.Protocol.Socket.{
  Socket, key_of, kill, full_packet, after_send, send_packet, SendReply, sent, send_would_block,
  send_failed, send_loop, send_data, max_send_tries,
}

-- send() takes no more bytes than it is given; replies behind the last byte are not asked for.
abbrev pub SendWithin : ℕ → List SendReply → Type 0
SendWithin left [] = Unit {0}
SendWithin left (sent n ∷ rs) = (0 < left → n ≤ left) × SendWithin (left - n) rs
SendWithin left (send_would_block ∷ rs) = SendWithin left rs
SendWithin left (send_failed ∷ rs) = SendWithin left rs

-- A prefix of the data, the whole of it on success.
abbrev pub Prefix : List ℕ → ℕ → Bool × List ℕ → Type 0
Prefix d size (done, wire) =
    (k : ℕ) × (k ≤ size) × (wire ≡ take k d) × ((done ≡ false) ⊎ (k ≡ size))

abbrev PrefixOf : List ℕ → ℕ → Option (Bool × List ℕ) → Type 0
PrefixOf d size r = (x : Bool × List ℕ) → r ≡ some x → Prefix d size x

ended :
    (d wire : List ℕ) (size k : ℕ) (done : Bool)
    → k ≤ size
    → wire ≡ take k d
    → (done ≡ false) ⊎ (k ≡ size)
    → PrefixOf d size (some (done, wire))
ended d wire size k done h e whole (done', wire') eq = (k, h, ground arith, ground arith)

send_loop-Prefix :
    (rs : List SendReply) (d : List ℕ) (size k tries : ℕ) (wire : List ℕ)
    → SendWithin (size - k) rs
    → k ≤ size
    → wire ≡ take k d
    → PrefixOf d size (send_loop rs d size k tries wire)
unfolding send_loop
send_loop-Prefix [] d size k tries wire w h e = elim (Bool-cases (leb size k)) [
  | inl over ↦ rw over (ended d wire size k true h e (inr (ground arith)))
  | inr more ↦ rw more (λ x eq. cc)
]
send_loop-Prefix (sent n ∷ rs) d size k tries wire w h e = elim (Bool-cases (leb size k)) [
  | inl over ↦ rw over (ended d wire size k true h e (inr (ground arith)))
  | inr more ↦ rw more (
      send_loop-Prefix rs d size (k + n) tries (wire ++ take n (drop k d))
        (subst (λ (m : ℕ). SendWithin m rs) (omega arith) w.1) (omega (arith, w.0 (ground arith)))
        (ap (λ (t : List ℕ). t ++ take n (drop k d)) e ∙ sym (take-add k n d)))
]
send_loop-Prefix (send_would_block ∷ rs) d size k tries wire w h e =
    elim (Bool-cases (leb size k)) [
      | inl over ↦ rw over (ended d wire size k true h e (inr (ground arith)))
      | inr more ↦ elim (Bool-cases (ltb 0 tries)) [
        | inl again ↦ rw (more, again) (send_loop-Prefix rs d size k (tries - 1) wire w h e)
        | inr tired ↦ rw (more, tired) (ended d wire size k false h e (inl refl))
      ]
    ]
send_loop-Prefix (send_failed ∷ rs) d size k tries wire w h e = elim (Bool-cases (leb size k)) [
  | inl over ↦ rw over (ended d wire size k true h e (inr (ground arith)))
  | inr more ↦ rw more (ended d wire size k false h e (inl refl))
]

-- Whatever the replies of send(), if none takes more than it is given, then what sendData has put on
-- the wire is a prefix of the first `size` bytes, in order and with nothing twice, and all of them
-- where sendData returns true.
pub send_data-Prefix :
    (rs : List SendReply) (d : List ℕ) (size : ℕ) (done : Bool) (wire : List ℕ)
    → SendWithin size rs
    → send_data rs d size ≡ some (done, wire)
    → Prefix d size (done, wire)
unfolding send_data
send_data-Prefix rs d size done wire w =
    send_loop-Prefix rs d size 0 max_send_tries []
      (subst (λ (m : ℕ). SendWithin m rs) (omega arith) w) (omega arith) refl (done, wire)

-- A reply by which the loop gets on: some bytes are taken, or send() would block.
abbrev pub IsProgress : SendReply → Type 0
IsProgress (sent n) = 0 < n
IsProgress send_would_block = Unit
IsProgress send_failed = ⊥

-- How often send() would block.
unfoldable pub blocked : List SendReply → ℕ
blocked [] = 0
blocked (send_would_block ∷ rs) = suc (blocked rs)
blocked (sent n ∷ rs) = blocked rs
blocked (send_failed ∷ rs) = blocked rs

send_loop_total :
    (rs : List SendReply) (d : List ℕ) (size k tries : ℕ) (wire : List ℕ)
    → All IsProgress rs
    → blocked rs ≤ tries
    → size - k + tries ≤ length rs
    → (w : List ℕ) × (send_loop rs d size k tries wire ≡ some (true, w))
unfolding send_loop blocked
send_loop_total [] d size k tries wire p b l = (wire, ground arith)
send_loop_total (sent n ∷ rs) d size k tries wire p b l = elim (Bool-cases (leb size k)) [
  | inl over ↦ (wire, rw over)
  | inr more ↦
      rw more
        (send_loop_total rs d size (k + n) tries (wire ++ take n (drop k d)) p.1 b (ground arith))
]
send_loop_total (send_would_block ∷ rs) d size k tries wire p b l = elim (Bool-cases (leb size k)) [
  | inl over ↦ (wire, rw over)
  | inr more ↦
      rw (more, lt→ltb 0 tries (omega arith))
        (send_loop_total rs d size k (tries - 1) wire p.1 (omega arith) (omega arith))
]
send_loop_total (send_failed ∷ rs) d size k tries wire p b l = elim p.0 [ ]

-- sendData ends and has sent everything, once it has had `size` + 10 replies that each took at
-- least one byte (and no more than it was given) or would block, of which at most 10 would block.
pub send_data_completes :
    (rs : List SendReply) (d : List ℕ) (size : ℕ)
    → SendWithin size rs
    → All IsProgress rs
    → blocked rs ≤ max_send_tries
    → size + max_send_tries ≤ length rs
    → send_data rs d size ≡ some (true, take size d)
unfolding send_data
send_data_completes rs d size w p b l =
    let (wire, e) = send_loop_total rs d size 0 max_send_tries [] p b (omega arith) in
    let (k, _, prefix, all) = send_data-Prefix rs d size true wire w e in
    e
    ∙ ap (λ (t : List ℕ). some (true, t)) (prefix ∙ ap (λ (t : ℕ). take t d) (ground (arith, all)))

-- What sendPacket did: it sent the frame and left the socket alone, or sent a part and killed it.
abbrev pub SentOrKilled : List ℕ → Socket → Socket × List ℕ → Type 0
SentOrKilled frame s (t, wire) =
    ((t ≡ s) × (wire ≡ frame))
    ⊎ ((t ≡ kill s) × ((k : ℕ) × (k ≤ length frame) × (wire ≡ take k frame)))

after_send-SentOrKilled :
    (s : Socket) (frame : List ℕ) (done : Bool) (wire : List ℕ)
    → s.alive ≡ true
    → Prefix frame (length frame) (done, wire)
    → SentOrKilled frame s (after_send s (done, wire))
unfolding after_send
after_send-SentOrKilled s frame true wire alive (k, le, e, all) =
    let whole : k ≡ length frame = ground (arith, all) in
    rw alive (inl (refl, e ∙ ap (λ (n : ℕ). take n frame) whole ∙ take_all _ frame (omega arith)))
after_send-SentOrKilled s frame false wire alive (k, le, e, all) = rw alive (inr (refl, (k, le, e)))

sent_case :
    (rs : List SendReply) (s : Socket) (frame : List ℕ) (r : Socket × List ℕ)
    (x : Option (Bool × List ℕ))
    → s.alive ≡ true
    → SendWithin (length frame) rs
    → send_data rs frame (length frame) ≡ x
    → (x >>= λ y. some (after_send s y)) ≡ some r
    → SentOrKilled frame s r
sent_case rs s frame r none alive w e h = cc
sent_case rs s frame r (some (done, wire)) alive w e h =
    let e' : after_send s (done, wire) ≡ r = cc in
    subst (SentOrKilled frame s) e' (
      after_send-SentOrKilled s frame done wire alive
        (send_data-Prefix rs frame (length frame) done wire w e))

-- On a live socket with a key set, and for a body that fits the buffer, sendPacket either puts its
-- whole frame on the wire and leaves the socket as it was, or puts a prefix of the frame on the
-- wire and kills the socket, whatever send() replies.
pub send_packet-SentOrKilled :
    (rs : List SendReply) (s : Socket) (key buf : List ℕ) (type size : ℕ) (r : Socket × List ℕ)
    → s.alive ≡ true
    → key_of s ≡ some key
    → length key ≡ key_length
    → size + 8 ≤ cn_packet_buffer_size
    → size ≤ length buf
    → SendWithin (size + 8) rs
    → send_packet rs s buf type size ≡ some r
    → (frame : List ℕ) × (full_packet key buf type size ≡ some frame) × SentOrKilled frame s r
unfolding send_packet
send_packet-SentOrKilled rs s key buf type size r alive keyed kl fits inside w h =
    let (frame, e, len, _, _) = full_packet_lem key buf type size kl fits inside in
    (
      frame,
      e,
      sent_case rs s frame r (send_data rs frame (length frame)) alive
          (subst (λ (n : ℕ). SendWithin n rs) (sym len) w) refl
          (subst (λ (n : ℕ). (send_data rs frame n >>= λ y. some (after_send s y)) ≡ some r)
            (sym len) (simp (alive, keyed, e) at h)),
    )

-- On a dead socket, and while no key is set, sendPacket sends nothing and changes nothing.
pub send_packet_silent :
    (rs : List SendReply) (s : Socket) (buf : List ℕ) (type size : ℕ)
    → (s.alive ≡ false) ⊎ (key_of s ≡ none)
    → send_packet rs s buf type size ≡ some (s, [])
unfolding send_packet
send_packet_silent rs s buf type size (inl dead) = simp dead
send_packet_silent rs s buf type size (inr unset) = elim (Bool-cases s.alive) [
  | inl alive ↦ simp (alive, unset)
  | inr dead ↦ simp dead
]
