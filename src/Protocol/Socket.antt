-- ===== src/Protocol/Socket.antt =====
-- The state of a CNSocket and its sending end: core/CNProtocol.cpp and CNProtocol.hpp. The replies
-- of send(), which the operating system chooses, are a list of events; what send() has accepted is
-- the wire. The bodies of shutdown() and close() are left out.
pub mod Sending
pub mod Frames
mod Tests
use open_fusion.Common.{
  ◌&&◌, ℕ, zero, suc, ◌+◌, ◌-◌, ◌^◌, Bool, true, false, ◌||◌, not, Option, none, some, List, [],
  ◌∷◌, ◌++◌, ltb, leb, if◌then◌else◌, take, drop, length,
}
use open_fusion.Common.Words.{word_bytes, bytes_word}
use open_fusion.Common.Int.{ℤ, pos}
use open_fusion.Protocol.Cipher.{◌>>=◌, default_key, encrypt_data}
use open_fusion.Protocol.Packets.{cn_packet_buffer_size}

-- ACTIVEKEY; the constructor of CNSocket leaves the member with neither value.
pub data ActiveKey : Type 0 where
  socketkey_e socketkey_fe key_unset : ActiveKey

pub record Socket : Type 0 where
  pub e_key : ℕ
  pub fe_key : ℕ
  pub read_size : ℤ
  pub read_buffer : List ℕ
  pub read_buffer_index : ℕ
  pub actively_reading : Bool
  pub alive : Bool
  pub active_key : ActiveKey

-- CNSocket::CNSocket, over what the memory held in the members that it does not set.
pub new_socket : ℕ → List ℕ → Socket
new_socket fe_key read_buffer = record {
  e_key = bytes_word default_key;
  fe_key = fe_key;
  read_size = pos 0;
  read_buffer = read_buffer;
  read_buffer_index = 0;
  actively_reading = false;
  alive = true;
  active_key = key_unset;
}

pub set_e_key : Socket → ℕ → Socket
set_e_key s k = record s { e_key = k }

pub set_fe_key : Socket → ℕ → Socket
set_fe_key s k = record s { fe_key = k }

pub set_active_key : Socket → ActiveKey → Socket
set_active_key s k = record s { active_key = k }

unfoldable pub kill : Socket → Socket
kill s = if not s.alive then s else record s { alive = false }

-- A reply of send(): how many bytes it took, EWOULDBLOCK, or another error.
pub data SendReply : Type 0 where
  sent : ℕ → SendReply
  send_would_block send_failed : SendReply

-- The loop of sendData. `none`: the replies ran out before the loop ended.
unfoldable pub send_loop : List SendReply → List ℕ → ℕ → ℕ → ℕ → List ℕ → Option (Bool × List ℕ)
send_loop [] data_ size sent_bytes max_tries wire =
    if leb size sent_bytes then some (true, wire) else none
send_loop (sent n ∷ replies) data_ size sent_bytes max_tries wire =
    if leb size sent_bytes
    then some (true, wire)
    else send_loop replies data_ size (sent_bytes + n) max_tries
        (wire ++ take n (drop sent_bytes data_))
send_loop (send_would_block ∷ replies) data_ size sent_bytes max_tries wire =
    if leb size sent_bytes
    then some (true, wire)
    else if ltb 0 max_tries
    then send_loop replies data_ size sent_bytes (max_tries - 1) wire
    else some (false, wire)
send_loop (send_failed ∷ replies) data_ size sent_bytes max_tries wire =
    if leb size sent_bytes then some (true, wire) else some (false, wire)

abbrev pub max_send_tries : ℕ
max_send_tries = 10

-- sendData: whether all was sent, and the bytes that went out.
unfoldable pub send_data : List SendReply → List ℕ → ℕ → Option (Bool × List ℕ)
unfolding send_loop
send_data replies data_ size = send_loop replies data_ size 0 max_send_tries []

-- The eight bytes of a key in memory.
unfoldable pub key_bytes : ℕ → List ℕ
key_bytes k = word_bytes 8 k

abbrev pub key_of : Socket → Option (List ℕ)
key_of s = elim s.active_key [
  | socketkey_e ↦ some (key_bytes s.e_key)
  | socketkey_fe ↦ some (key_bytes s.fe_key)
  | key_unset ↦ none
]

-- The packet that sendPacket builds in `fullpkt`, encrypted under a key. `none`: it reads or writes
-- outside `buf` or `fullpkt`.
unfoldable pub full_packet : List ℕ → List ℕ → ℕ → ℕ → Option (List ℕ)
full_packet key buf type size =
    if ltb cn_packet_buffer_size (size + 8) || ltb (length buf) size then none else (do
      (body, _) ← encrypt_data (word_bytes 4 type ++ take size buf) key (pos (size + 4))
      some (word_bytes 4 (size + 4) ++ body))

unfoldable pub after_send : Socket → Bool × List ℕ → Socket × List ℕ
unfolding kill
after_send s (done, wire) = if s.alive && not done then (kill s, wire) else (s, wire)

-- sendPacket: the socket afterwards and the bytes that went out.
unfoldable pub send_packet : List SendReply → Socket → List ℕ → ℕ → ℕ → Option (Socket × List ℕ)
send_packet replies s buf type size = if not s.alive then some (s, []) else elim (key_of s) [
  | none ↦ some (s, [])
  | some key ↦ full_packet key buf type size >>= λ fullpkt.
      send_data replies fullpkt (size + 8) >>= λ r. some (after_send s r)
]
