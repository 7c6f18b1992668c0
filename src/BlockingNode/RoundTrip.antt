-- ===== src/BlockingNode/RoundTrip.antt =====
-- The bytes of a message between nodes, written by marshall_pm and read by unmarshall_pm of
-- blocking_node.c.
use cse511_lab.Prelude.{
  ℕ, Bool, true, ◌+◌, ◌<◌, ◌^◌, List, [], ◌∷◌, ◌++◌, some, ◌≡◌, ◌≢◌, sym, ap, ◌∙◌, arith, length,
  take, drop, to_bytes, of_bytes, All-append, take_front, drop_front, drop-drop, length-to_bytes,
  of_bytes-to_bytes, append_assoc,
}
use cse511_lab.CString.{CString, until_nul}
use cse511_lab.CString.Scan.{until_nul_lem, IsText}
use cse511_lab.CString.Tokens.{IsToken, strtok, strtok-blank, strtok_end, IsToken-IsText}
use cse511_lab.DataTypes.{MessageType, PeerMessage}
use cse511_lab.BlockingNode.Wire.{type_code, type_of_code, marshall_pm, copied, unmarshall_pm}

-- a message of these fields
abbrev message : MessageType → ℕ → ℕ → CString → CString → ℕ → PeerMessage
message type timestamp node_id key value write_type = record {
  message_type = type;
  timestamp = timestamp;
  node_id = node_id;
  key = some key;
  value = some value;
  write_type = write_type;
}

-- the fields of a buffer, read one by one
read_back :
    (spare : ℕ → Bool) (buf : List ℕ) (type : MessageType) (timestamp node_id write_type : ℕ)
    (k v : CString)
    → of_bytes (take 4 buf) ≡ type_code type
    → of_bytes (take 4 (drop 4 buf)) ≡ timestamp
    → of_bytes (take 4 (drop (4 + 4) buf)) ≡ node_id
    → of_bytes (take 4 (drop (4 + 4 + 4) buf)) ≡ write_type
    → strtok (until_nul (drop (4 + 4 + 4 + 4) buf)) ≡ (some k, v)
    → IsToken v
    → type_of_code (type_code type) ≡ type
    → spare (length k) ≡ true
    → spare (length v) ≡ true
    → unmarshall_pm spare buf ≡ some (message type timestamp node_id k v write_type)
unfolding unmarshall_pm copied
read_back spare buf type timestamp node_id write_type k v a b c d e h known sk sv =
    rw (a, known, e, strtok_end v h, b, c, d, sk, sv)

-- four words of four bytes, and what stands behind them
record Words (buf one two three four text : List ℕ) : Type 0 where
  first : take 4 buf ≡ one
  second : take 4 (drop 4 buf) ≡ two
  third : take 4 (drop (4 + 4) buf) ≡ three
  fourth : take 4 (drop (4 + 4 + 4) buf) ≡ four
  behind : drop (4 + 4 + 4 + 4) buf ≡ text

words :
    (one two three four text : List ℕ)
    → length one ≡ 4
    → length two ≡ 4
    → length three ≡ 4
    → length four ≡ 4
    → Words (one ++ (two ++ (three ++ (four ++ text)))) one two three four text
words one two three four text a b c d =
    let buf = one ++ (two ++ (three ++ (four ++ text))) in
    let at4 : drop 4 buf ≡ two ++ (three ++ (four ++ text)) = drop_front 4 one _ a in
    let at8 : drop (4 + 4) buf ≡ three ++ (four ++ text) =
      sym (drop-drop 4 4 buf) ∙ ap (drop 4) at4 ∙ drop_front 4 two _ b in
    let at12 : drop (4 + 4 + 4) buf ≡ four ++ text =
      sym (drop-drop (4 + 4) 4 buf) ∙ ap (drop 4) at8 ∙ drop_front 4 three _ c in
    record {
      first = take_front 4 one _ a;
      second = ap (take 4) at4 ∙ take_front 4 two _ b;
      third = ap (take 4) at8 ∙ take_front 4 three _ c;
      fourth = ap (take 4) at12 ∙ take_front 4 four text d;
      behind = sym (drop-drop (4 + 4 + 4) 4 buf) ∙ ap (drop 4) at12 ∙ drop_front 4 four text d;
    }

read_words :
    (spare : ℕ → Bool) (type : MessageType) (timestamp node_id write_type : ℕ) (k v : CString)
    (rest : List ℕ)
    → timestamp < 256 ^ 4
    → node_id < 256 ^ 4
    → write_type < 256 ^ 4
    → IsToken k
    → IsToken v
    → type_of_code (type_code type) ≡ type
    → type_code type < 256 ^ 4
    → spare (length k) ≡ true
    → spare (length v) ≡ true
    → unmarshall_pm spare (
        to_bytes 4 (type_code type)
        ++ (to_bytes 4 timestamp
            ++ (to_bytes 4 node_id ++ (to_bytes 4 write_type ++ ((k ++ 32 ∷ v) ++ 0 ∷ rest)))))
      ≡ some (message type timestamp node_id k v write_type)
read_words spare type timestamp node_id write_type k v rest a b c hk hv known bound sk sv =
    let w : Words _ (to_bytes 4 (type_code type)) (to_bytes 4 timestamp) (to_bytes 4 node_id)
        (to_bytes 4 write_type) ((k ++ 32 ∷ v) ++ 0 ∷ rest) =
      words (to_bytes 4 (type_code type)) (to_bytes 4 timestamp) (to_bytes 4 node_id)
        (to_bytes 4 write_type) ((k ++ 32 ∷ v) ++ 0 ∷ rest) (length-to_bytes 4 _)
        (length-to_bytes 4 _) (length-to_bytes 4 _) (length-to_bytes 4 _) in
    let text : IsText (k ++ 32 ∷ v) =
      All-append (λ c. c ≢ 0) k (32 ∷ v) (IsToken-IsText k hk) (omega arith, IsToken-IsText v hv) in
    read_back spare _ type timestamp node_id write_type k v
      (ap of_bytes w.first ∙ of_bytes-to_bytes 4 (type_code type) bound)
      (ap of_bytes w.second ∙ of_bytes-to_bytes 4 timestamp a)
      (ap of_bytes w.third ∙ of_bytes-to_bytes 4 node_id b)
      (ap of_bytes w.fourth ∙ of_bytes-to_bytes 4 write_type c)
      (ap (λ l. strtok (until_nul l)) w.behind
        ∙ ap strtok (until_nul_lem (k ++ 32 ∷ v) rest text)
        ∙ strtok-blank k v hk)
      hv known sk sv

-- What marshall_pm writes for a message, whatever stands behind it in the buffer, unmarshall_pm reads
-- back as the message. The numbers fit into 4 bytes, the type is a constant, the key and the value are not
-- empty and have no blanks, and calloc leaves a zero byte behind their copies.
pub unmarshall_pm-marshall_pm :
    (spare : ℕ → Bool) (type : MessageType) (timestamp node_id write_type : ℕ) (k v : CString)
    (bytes rest : List ℕ)
    → timestamp < 256 ^ 4
    → node_id < 256 ^ 4
    → write_type < 256 ^ 4
    → IsToken k
    → IsToken v
    → type_of_code (type_code type) ≡ type
    → type_code type < 256 ^ 4
    → spare (length k) ≡ true
    → spare (length v) ≡ true
    → marshall_pm (message type timestamp node_id k v write_type) ≡ some bytes
    → unmarshall_pm spare (bytes ++ rest) ≡ some (message type timestamp node_id k v write_type)
unfolding marshall_pm
unmarshall_pm-marshall_pm spare type timestamp node_id write_type k v bytes rest a b c hk hv known
      bound sk sv h =
    let written : to_bytes 4 (type_code type)
          ++ (to_bytes 4 timestamp
              ++ (to_bytes 4 node_id ++ (to_bytes 4 write_type ++ (k ++ 32 ∷ (v ++ 0 ∷ [])))))
        ≡ bytes =
      cc in
    let layout : bytes ++ rest
        ≡ to_bytes 4 (type_code type)
          ++ (to_bytes 4 timestamp
              ++ (to_bytes 4 node_id ++ (to_bytes 4 write_type ++ ((k ++ 32 ∷ v) ++ 0 ∷ rest)))) =
      ap (λ l. l ++ rest) (sym written) ∙ simp append_assoc in
    ap (unmarshall_pm spare) layout
    ∙ read_words spare type timestamp node_id write_type k v rest a b c hk hv known bound sk sv
