-- ===== src/Protocol/Receive/Tests.antt =====
-- Applications of the theorems on receiving.
use open_fusion.Common.{
  Bool-cases, inl, if◌then◌else◌, ◌==◌, inr, ◌≤◌, subst, length-take, ℕ, ◌≡◌, refl, true, false,
  Option, none, some, List, [], ◌∷◌, ◌++◌, arith, take, drop, length, replicate, length-replicate,
}
use open_fusion.Common.Int.{pos}
use open_fusion.Protocol.Packets.{PacketDesc, PacketData, parse_packet}
use open_fusion.Protocol.Packets.Parse.{AreCountsInside}
use open_fusion.Common.Words.{word_bytes}
use open_fusion.Protocol.Cipher.{
  ◌>>=◌, encrypt_data, xor_data, encrypt_byte_change_a, xor_loop, change_loop, er_size_of, exchange,
  next_num3,
}
use open_fusion.Protocol.Socket.Frames.{plain_body}
use open_fusion.Protocol.Receive.Transfer.{complete, receive_packet, receive_packet-full_packet}
use open_fusion.Protocol.Socket.{full_packet, key_bytes, Socket, key_unset}
use open_fusion.Protocol.Receive.{
  RecvReply, received, recv_would_block, step, finish_packet, reset, dispatch,
}
use open_fusion.Protocol.Receive.Safety.{IsReceiver, RecvWithin, step-IsReceiver}
use open_fusion.Protocol.Receive.Reassembly.{concat, deliver, deliver-finish_packet}

-- No packet is known, and the handler does nothing.
abbrev no_packets : ℕ → Option PacketDesc
no_packets t = none

abbrev no_handler : Socket → PacketData → Socket
no_handler s pkt = s

zeros : List ℕ
zeros = replicate 4096 0

abbrev idle_socket : Socket
idle_socket = record {
  e_key = 99;
  fe_key = 7;
  read_size = pos 0;
  read_buffer = zeros;
  read_buffer_index = 0;
  actively_reading = false;
  alive = true;
  active_key = key_unset;
}

zeros-length : length zeros ≡ 4096
unfolding zeros
zeros-length = length-replicate {A = ℕ} 4096 0

abbrev reading_socket : Socket
reading_socket = record idle_socket {
  read_size = pos 6;
  read_buffer_index = 1;
  actively_reading = true;
}

-- The header announces -1 bytes.
abbrev bad_header : ℕ → RecvReply
bad_header n = received (take n (255 ∷ 255 ∷ 255 ∷ 255 ∷ []))

bad_header-RecvWithin : RecvWithin bad_header
bad_header-RecvWithin n bs e =
    let same : take n (255 ∷ 255 ∷ 255 ∷ 255 ∷ []) ≡ bs = cc in
    subst (λ (t : List ℕ). length t ≤ n) same
      (omega (arith, length-take {A = ℕ} n (255 ∷ 255 ∷ 255 ∷ 255 ∷ [])))

-- One variadic packet, with its count behind eight bytes.
abbrev one_packet : ℕ → Option PacketDesc
one_packet t =
    if t == 0x12000002
    then some (record {
      val = 0x12000002;
      name = "VARY";
      size = 12;
      variadic = true;
      cnt_memb_ofs = 8;
      trailer_size = 3;
    })
    else none

one_packet-AreCountsInside : AreCountsInside one_packet
one_packet-AreCountsInside t d e vary = elim (Bool-cases (t == 0x12000002)) [
  | inl one ↦ ground arith
  | inr other ↦ ground arith
]

step-IsReceiver_example :
    (t : Socket) × (step one_packet no_handler bad_header (λ _. recv_would_block) idle_socket
      ≡ some t)
    × IsReceiver t
step-IsReceiver_example =
    step-IsReceiver one_packet no_handler (λ s pkt. refl) one_packet-AreCountsInside bad_header
      (λ _. recv_would_block) idle_socket bad_header-RecvWithin (λ n bs e. cc)
      (record { buffered = zeros-length; sized = inr (omega arith); indexed = omega arith }) refl

deliver-finish_packet_example :
    deliver no_packets no_handler ((1 ∷ 2 ∷ []) ∷ (3 ∷ 4 ∷ 5 ∷ []) ∷ []) reading_socket
    ≡ finish_packet no_packets no_handler (record reading_socket {
      read_buffer = take 1 zeros ++ (concat ((1 ∷ 2 ∷ []) ∷ (3 ∷ 4 ∷ 5 ∷ []) ∷ []) ++ drop 6 zeros);
      read_buffer_index = 6;
    })
unfolding concat
deliver-finish_packet_example =
    deliver-finish_packet no_packets no_handler ((1 ∷ 2 ∷ []) ∷ (3 ∷ 4 ∷ 5 ∷ []) ∷ [])
      reading_socket 6
      (record {
        size = refl;
        index = omega arith;
        active = refl;
        buffered = zeros-length;
        bounded = omega arith;
      })
      ((λ e. cc), ((λ e. cc), tt)) refl

-- What sendPacket makes of the body 8, 9 under the key 99, and two pieces of it.
abbrev sent_frame : List ℕ
sent_frame = 6 ∷ 0 ∷ 0 ∷ 0 ∷ 98 ∷ 0 ∷ 0 ∷ 18 ∷ 8 ∷ 9 ∷ []

abbrev sent_pieces : List (List ℕ)
sent_pieces = (98 ∷ 0 ∷ 0 ∷ []) ∷ (18 ∷ 8 ∷ 9 ∷ []) ∷ []

sent_frame_test : full_packet (key_bytes 99) (8 ∷ 9 ∷ []) 0x12000001 2 ≡ some sent_frame
unfolding full_packet encrypt_data xor_data encrypt_byte_change_a xor_loop change_loop er_size_of
    exchange next_num3 word_bytes key_bytes
sent_frame_test = refl

receive_packet-full_packet_example :
    receive_packet no_packets no_handler (take 4 sent_frame) sent_pieces idle_socket ≡ (
      parse_packet no_packets (plain_body (8 ∷ 9 ∷ []) 0x12000001 2 ++ drop 6 zeros) 6 >>= λ parsed.
      some (reset (dispatch no_packets no_handler (complete idle_socket 6) parsed)))
unfolding concat
receive_packet-full_packet_example =
    receive_packet-full_packet no_packets no_handler idle_socket (8 ∷ 9 ∷ []) 0x12000001 2
      sent_frame sent_pieces (record { size = refl; index = refl; buffered = zeros-length })
      (omega arith) (omega arith) sent_frame_test ((λ e. cc), ((λ e. cc), tt)) refl
