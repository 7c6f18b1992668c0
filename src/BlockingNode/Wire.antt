-- ===== src/BlockingNode/Wire.antt =====
-- The bytes of a message between nodes: marshall_pm and unmarshall_pm of blocking_node.c, and the
-- buffer of send_peer_message.
use cse511_lab.Prelude.{
  ℕ, ◌+◌, ◌-◌, List, [], ◌∷◌, ◌++◌, Option, none, some, Bool, ◌==◌, ltb, if◌then◌else◌, length,
  take, drop, replicate, to_bytes, of_bytes, ◌>>=◌,
}
use cse511_lab.CString.{CString, until_nul}
use cse511_lab.CString.Tokens.{strtok}
use cse511_lab.DataTypes.{
  MessageType, request_lock, release_lock, reply_lock, server_write, other_type, PeerMessage,
}

-- `MAX_MESSAGE_SIZE`
abbrev pub max_message_size : ℕ
max_message_size = 420

-- the number of a constant of the enumeration
unfoldable pub type_code : MessageType → ℕ
type_code request_lock = 0
type_code release_lock = 1
type_code reply_lock = 2
type_code server_write = 3
type_code (other_type n) = n

unfoldable pub type_of_code : ℕ → MessageType
type_of_code n =
    if n == 0
    then request_lock
    else if n == 1
    then release_lock
    else if n == 2
    then reply_lock
    else if n == 3
    then server_write
    else other_type n

-- `marshall_pm`, none where it takes the length of NULL
unfoldable pub marshall_pm : PeerMessage → Option (List ℕ)
unfolding type_code
marshall_pm m = do
  k ← m.key
  v ← m.value
  some (
      to_bytes 4 (type_code m.message_type)
      ++ (to_bytes 4 m.timestamp
          ++ (to_bytes 4 m.node_id ++ (to_bytes 4 m.write_type ++ (k ++ 32 ∷ (v ++ 0 ∷ []))))))

-- The buffer that send_peer_message writes, none where the message runs over it.
unfoldable pub message_buffer : PeerMessage → Option (List ℕ)
unfolding marshall_pm
message_buffer m = do
  bytes ← marshall_pm m
  if ltb max_message_size (length bytes)
      then none
      else some (bytes ++ replicate (max_message_size - length bytes) 0)

-- A key or a value that calloc and memcpy have copied without its terminator, as a string; `spare` says
-- whether calloc leaves a zero byte behind so many, and none is a read outside of the block.
unfoldable pub copied : (ℕ → Bool) → Option CString → Option (Option CString)
copied spare none = some none
copied spare (some s) = if spare (length s) then some (some s) else none

-- `unmarshall_pm` on a cleared message
unfoldable pub unmarshall_pm : (ℕ → Bool) → List ℕ → Option PeerMessage
unfolding type_of_code strtok until_nul copied
unmarshall_pm spare buf = do
  let (k, rest) = strtok (until_nul (drop (4 + 4 + 4 + 4) buf))
  let (v, _) = strtok rest
  key ← copied spare k
  value ← copied spare v
  some (record {
    message_type = type_of_code (of_bytes (take 4 buf));
    timestamp = of_bytes (take 4 (drop 4 buf));
    node_id = of_bytes (take 4 (drop (4 + 4) buf));
    key = key;
    value = value;
    write_type = of_bytes (take 4 (drop (4 + 4 + 4) buf));
  })
