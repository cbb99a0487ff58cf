-- ===== src/Network/Message.antt =====
-- network.rs: the frames of messages, and the queue that takes them from a stream of bytes.
pub mod Chunks
pub mod Stream
pub mod RoundTrip
use ironcat.Base.{
  ℕ, zero, suc, ◌+◌, ◌*◌, List, [], ◌∷◌, ◌++◌, Bool, true, false, not, ◌&&◌, Option, none, some,
  leb, ltb, ◌==◌, length, take, drop, replicate, ◌-◌, ◌%◌, All, if◌then◌else◌,
}
use ironcat.Base.Result.{Result, ok, err, ◌>>◌, ensure}
use ironcat.Network.Cursor.{Bytes, to_le_bytes, from_le_bytes}
use ironcat.Types.Hash.{Sha256, bytes_eq, double_sha256}

abbrev pub command_length : ℕ
command_length = 12

abbrev pub max_message_size : ℕ
max_message_size = 2000000

abbrev pub net_magic : Bytes
net_magic = 0xFC ∷ 0xC1 ∷ 0xB7 ∷ 0xDC ∷ []

-- magic, command, length and checksum.
abbrev pub frame_header_size : ℕ
frame_header_size = 24

pub data Corruption : Type 0 where
  invalid_magic length_above_limit checksum_mismatch : Corruption

pub data MessageParseError : Type 0 where
  incomplete : MessageParseError
  corrupt : Corruption → MessageParseError

pub record Message : Type 0 where
  pub magic : Bytes
  pub command : Bytes
  pub payload_length : ℕ
  pub checksum : ℕ
  pub payload : Bytes

pub data MessageError : Type 0 where
  payload_too_large command_not_ascii command_too_long command_too_short : MessageError

abbrev pub all_ascii : Bytes → Bool
all_ascii [] = true
all_ascii (b ∷ bs) = ltb b 128 && all_ascii bs

-- `size` bytes from the position `start` on.
abbrev pub slice : ℕ → ℕ → Bytes → Bytes
slice start size bytes = take size (drop start bytes)

abbrev pub parsed_message : Bytes → ℕ → Message
parsed_message bytes len = record {
  magic = slice 0 4 bytes;
  command = slice 4 command_length bytes;
  payload_length = len;
  checksum = from_le_bytes (slice 20 4 bytes);
  payload = slice frame_header_size len bytes;
}

unfoldable pub message_to_bytes : Message → Bytes
message_to_bytes m =
    m.magic
    ++ (m.command ++ (to_le_bytes 4 m.payload_length ++ (to_le_bytes 4 m.checksum ++ m.payload)))

module _ (sha : Sha256) where
  -- The first four bytes of the double hash.
  unfoldable pub calculate_checksum : Bytes → ℕ
  calculate_checksum bytes = from_le_bytes (take 4 (double_sha256 sha bytes))

  -- `Message::new`, with `set_command`.
  unfoldable pub new_message : Bytes → Bytes → Result MessageError Message
  new_message name bytes =
      ensure (leb (length bytes) max_message_size) payload_too_large
      >> ensure (all_ascii name) command_not_ascii
      >> ensure (ltb (length name) command_length) command_too_long
      >> ensure (not (length name == 0)) command_too_short
      >> ok (record {
        magic = net_magic;
        command = name ++ replicate (command_length - length name) 0;
        payload_length = length bytes;
        checksum = calculate_checksum bytes;
        payload = bytes;
      })

  -- The message at the front, with the number of its bytes.
  unfoldable pub message_from_bytes : Bytes → Result MessageParseError (Message × ℕ)
  message_from_bytes bytes =
      let len = from_le_bytes (slice 16 4 bytes) in
      let m = parsed_message bytes len in
      ensure (leb frame_header_size (length bytes)) incomplete
      >> ensure (bytes_eq (slice 0 4 bytes) net_magic) (corrupt invalid_magic)
      >> ensure (leb len max_message_size) (corrupt length_above_limit)
      >> ensure (leb (frame_header_size + len) (length bytes)) incomplete
      >> ensure (calculate_checksum m.payload == m.checksum) (corrupt checksum_mismatch)
      >> ok (m, frame_header_size + len)

  -- The messages that were taken from the front, what is left, and why the loop stopped if not for
  -- want of bytes.
  abbrev pub Extracted : Type 0
  Extracted = List Message × Bytes × Option Corruption

  abbrev pub with_message : Message → Extracted → Extracted
  with_message m r = (m ∷ r.0, r.1, r.2)

  abbrev pub extract_round :
      Result MessageParseError (Message × ℕ) → Bytes → (Bytes → Extracted) → Extracted
  extract_round (ok (m, n)) bytes rest = with_message m (rest (drop n bytes))
  extract_round (err incomplete) bytes rest = ([], bytes, none)
  extract_round (err (corrupt c)) bytes rest = ([], bytes, some c)

  unfoldable pub extract : ℕ → Bytes → Extracted
  extract zero bytes = ([], bytes, none)
  extract (suc fuel) bytes = extract_round (message_from_bytes bytes) bytes (extract fuel)

  -- A message takes 24 bytes at least, so the length of the bytes is fuel enough.
  unfoldable pub extract_all : Bytes → Extracted
  extract_all bytes = extract (length bytes) bytes

pub record NetworkQueue : Type 0 where
  pub buffer : Bytes
  pub messages : List Message

pub data QueueError : Type 0 where
  above_safety_limit above_message_size : QueueError
  corrupt_data : Corruption → QueueError

abbrev pub new_queue : NetworkQueue
new_queue = record { buffer = []; messages = [] }

-- What the loop found goes into the queue. Where it met corrupt data the buffer stays whole.
abbrev pub take_extracted :
    NetworkQueue
    → Bytes
    → List Message × Bytes × Option Corruption
    → NetworkQueue × Result QueueError (Unit {0})
take_extracted q whole (found, rest, some c) =
    (record { buffer = whole; messages = q.messages ++ found }, err (corrupt_data c))
take_extracted q whole (found, rest, none) = (
  record { buffer = rest; messages = q.messages ++ found },
  ensure (leb (length rest) max_message_size) above_message_size,
)

module _ (sha : Sha256) where
  unfoldable pub process_incoming_data :
      NetworkQueue → Bytes → NetworkQueue × Result QueueError (Unit {0})
  process_incoming_data q bytes =
      if ltb (max_message_size * 2) (length q.buffer + length bytes)
      then (q, err above_safety_limit)
      else take_extracted q (q.buffer ++ bytes) (extract_all sha (q.buffer ++ bytes))

abbrev pub pop_front : List Message → Option Message × List Message
pop_front [] = (none, [])
pop_front (m ∷ ms) = (some m, ms)

unfoldable pub get_next_message : NetworkQueue → Option Message × NetworkQueue
get_next_message q = let p = pop_front q.messages in (p.0, record q { messages = p.1 })
