-- ===== src/Examples/Message.antt =====
-- A message on the wire, at once and in two chunks.
use ironcat.Base.{◌≡◌, refl, [], ◌∷◌, ◌++◌, take, drop, length, replicate, All, arith}
use ironcat.Base.Result.{ok}
use ironcat.Network.Cursor.{Bytes, IsByte, to_le_bytes, from_le_bytes}
use ironcat.Types.Hash.{double_sha256}
use ironcat.Network.Message.{
  Message, net_magic, new_message, calculate_checksum, message_to_bytes, message_from_bytes,
  extract, extract_all, NetworkQueue, new_queue, process_incoming_data,
}
use ironcat.Network.Message.RoundTrip.{message_from_bytes-message_to_bytes}
use ironcat.Network.Message.Stream.{process_incoming_data-append}
use ironcat.Examples.Data.{prefix_sha}

-- A `ping` with a payload of three bytes.
abbrev ping : Message
ping = record {
  magic = net_magic;
  command = 112 ∷ 105 ∷ 110 ∷ 103 ∷ replicate 8 0;
  payload_length = 3;
  checksum = 0x0003_0201;
  payload = 1 ∷ 2 ∷ 3 ∷ [];
}

ping_made : new_message prefix_sha (112 ∷ 105 ∷ 110 ∷ 103 ∷ []) (1 ∷ 2 ∷ 3 ∷ []) ≡ ok ping
unfolding new_message calculate_checksum double_sha256 from_le_bytes
ping_made = refl

ping_digest : All IsByte (double_sha256 prefix_sha (1 ∷ 2 ∷ 3 ∷ []))
unfolding double_sha256
ping_digest = ground arith

message_from_bytes-message_to_bytes_example :
    message_from_bytes prefix_sha (message_to_bytes ping ++ (9 ∷ 9 ∷ []))
    ≡ ok (ping, length (message_to_bytes ping))
message_from_bytes-message_to_bytes_example =
    message_from_bytes-message_to_bytes prefix_sha (112 ∷ 105 ∷ 110 ∷ 103 ∷ []) (1 ∷ 2 ∷ 3 ∷ [])
      (9 ∷ 9 ∷ []) ping ping_digest ping_made

-- The first ten bytes, and what follows with the start of another message behind it.
abbrev first_chunk : Bytes
first_chunk = take 10 (message_to_bytes ping)

abbrev second_chunk : Bytes
second_chunk = drop 10 (message_to_bytes ping) ++ (0xFC ∷ [])

abbrev waiting : NetworkQueue
waiting = record { buffer = first_chunk; messages = [] }

abbrev received : NetworkQueue
received = record { buffer = 0xFC ∷ []; messages = ping ∷ [] }

waits : process_incoming_data prefix_sha new_queue first_chunk ≡ (waiting, ok tt)
unfolding process_incoming_data extract_all extract message_from_bytes message_to_bytes to_le_bytes
    from_le_bytes calculate_checksum double_sha256
waits = refl

receives :
    process_incoming_data prefix_sha new_queue (first_chunk ++ second_chunk) ≡ (received, ok tt)
unfolding process_incoming_data extract_all extract message_from_bytes message_to_bytes to_le_bytes
    from_le_bytes calculate_checksum double_sha256
receives = refl

process_incoming_data-append_example :
    process_incoming_data prefix_sha waiting second_chunk ≡ (received, ok tt)
process_incoming_data-append_example =
    process_incoming_data-append prefix_sha new_queue waiting received first_chunk second_chunk
      waits receives
