-- ===== src/DataTypes.antt =====
-- data_types.h: the messages that nodes exchange.
use cse511_lab.Prelude.{ℕ, Bool, Option, ◌≡◌, ◌⊎◌, inl, inr, refl}
use cse511_lab.CString.{CString}

-- `peer_message_type_t`
pub data MessageType : Type 0 where
  request_lock release_lock reply_lock server_write : MessageType
  other_type : ℕ → MessageType

-- `peer_message_t`. A string pointer that may be NULL is an option.
pub record PeerMessage : Type 0 where
  pub message_type : MessageType
  pub timestamp : ℕ
  pub node_id : ℕ
  pub key : Option CString
  pub value : Option CString
  pub write_type : ℕ

-- `pqueue_data_t`, a pointer: its address, and the message that it points to. A message is not
-- written to while a queue holds it.
pub record MessagePtr : Type 0 where
  pub address : ℕ
  pub target : PeerMessage

-- `peer_t`: a number or a socket is none for -1, and `sem` says whether there is a semaphore.
pub record Peer : Type 0 where
  pub valid : Bool
  pub peer_node_id : Option ℕ
  pub sock : Option ℕ
  pub peer_request_lock_pending : Bool
  pub sem : Bool

pub MessageType-cases :
    (t : MessageType)
    → (t ≡ request_lock)
      ⊎ (t ≡ release_lock)
      ⊎ (t ≡ reply_lock)
      ⊎ (t ≡ server_write)
      ⊎ ((n : ℕ) × (t ≡ other_type n))
MessageType-cases request_lock = inl refl
MessageType-cases release_lock = inr (inl refl)
MessageType-cases reply_lock = inr (inr (inl refl))
MessageType-cases server_write = inr (inr (inr (inl refl)))
MessageType-cases (other_type n) = inr (inr (inr (inr (n, refl))))
