-- ===== src/Protocol/Socket/Tests.antt =====
-- Tests and applications of the theorems on sending.
use open_fusion.Common.{
  ℕ, ◌≡◌, refl, true, false, some, List, [], ◌∷◌, inr, arith, take, drop, length, replicate,
}
use open_fusion.Common.Words.{bytes_word, length-word_bytes, word_bytes}
use open_fusion.Common.Int.{pos}
use open_fusion.Protocol.Cipher.{
  decrypt_data, encrypt_data, xor_data, encrypt_byte_change_a, xor_loop, change_loop, er_size_of,
  exchange, next_num3,
}
use open_fusion.Protocol.Socket.{
  kill, after_send, Socket, socketkey_e, key_unset, sent, send_would_block, send_failed, SendReply,
  send_data, send_loop, send_packet, full_packet, key_bytes,
}
use open_fusion.Protocol.Socket.Frames.{plain_body, full_packet_lem}
use open_fusion.Protocol.Socket.Sending.{
  send_packet-SentOrKilled, SentOrKilled, Prefix, send_data-Prefix, send_data_completes,
  send_packet_silent, blocked,
}

abbrev bytes : List ℕ
bytes = 1 ∷ 2 ∷ 3 ∷ 4 ∷ 5 ∷ []

abbrev stutter : List SendReply
stutter =
    sent 2
    ∷ send_would_block
    ∷ sent 3
    ∷ sent 1
    ∷ sent 1
    ∷ sent 1
    ∷ sent 1
    ∷ sent 1
    ∷ sent 1
    ∷ sent 1
    ∷ sent 1
    ∷ sent 1
    ∷ sent 1
    ∷ sent 1
    ∷ sent 1
    ∷ []

abbrev broken : List SendReply
broken = sent 2 ∷ send_failed ∷ []

broken_test : send_data broken bytes 5 ≡ some (false, 1 ∷ 2 ∷ [])
unfolding send_data send_loop
broken_test = refl

-- Ten times EWOULDBLOCK are borne, the eleventh is not.
tired_test : send_data (replicate 11 send_would_block) bytes 5 ≡ some (false, [])
unfolding send_data send_loop
tired_test = refl

send_data-Prefix_example : Prefix bytes 5 (false, 1 ∷ 2 ∷ [])
send_data-Prefix_example =
    send_data-Prefix broken bytes 5 false (1 ∷ 2 ∷ []) (omega arith) broken_test

abbrev quick : List SendReply
quick = sent 5 ∷ []

abbrev online : Socket
online = record {
  e_key = 99;
  fe_key = 7;
  read_size = pos 0;
  read_buffer = [];
  read_buffer_index = 0;
  actively_reading = false;
  alive = true;
  active_key = socketkey_e;
}

small_frame :
    (frame : List ℕ) × (full_packet (key_bytes 99) bytes 0x31000005 5 ≡ some frame)
    × (length frame ≡ 13)
    × (bytes_word (take 4 frame) ≡ 9)
    × (decrypt_data (drop 4 frame) (key_bytes 99) (pos 9)
        ≡ some (plain_body bytes 0x31000005 5, pos 9))
unfolding key_bytes
small_frame =
    full_packet_lem (key_bytes 99) bytes 0x31000005 5 (length-word_bytes 8 99) (omega arith)
      (omega arith)

dead_socket_is_silent :
    send_packet quick (record online { active_key = key_unset }) bytes 0x31000005 5
    ≡ some (record online { active_key = key_unset }, [])
dead_socket_is_silent =
    send_packet_silent quick (record online { active_key = key_unset }) bytes 0x31000005 5
      (inr refl)

send_data_completes_example : send_data stutter bytes 5 ≡ some (true, bytes)
unfolding blocked
send_data_completes_example =
    send_data_completes stutter bytes 5 (omega arith) (omega arith) (omega arith) (omega arith)

send_packet-SentOrKilled_example :
    (frame : List ℕ) × (full_packet (key_bytes 99) bytes 0x31000005 5 ≡ some frame)
    × SentOrKilled frame online (record online { alive = false }, [])
unfolding send_packet full_packet encrypt_data xor_data encrypt_byte_change_a xor_loop change_loop
    er_size_of exchange next_num3 word_bytes key_bytes send_data send_loop after_send kill
send_packet-SentOrKilled_example =
    send_packet-SentOrKilled (send_failed ∷ []) online (key_bytes 99) bytes 0x31000005 5
      (record online { alive = false }, []) refl refl refl (omega arith) (omega arith) tt refl
