-- ===== src/Context.antt =====
-- server/include/Context.h: message and operation types, the packed message, and the operation
-- context that travels in an SQE's 64-bit `user_data` (IOUring::setContext and the getContext of
-- Session.cpp and of Listener.cpp, the same code twice).
pub mod RoundTrip
pub mod Wire
pub mod Packets
use tcpchatserver.Base.{
  ℕ, suc, ◌+◌, ◌*◌, ◌/◌, ◌%◌, ◌^◌, List, ◌==◌, if◌then◌else◌, slice, get_or, ◌∷◌, take, drop,
}
use tcpchatserver.Base.Int.{ℤ, int32, bits32}

-- An `enum class` over uint8_t can hold any byte: `unknown` has those that no enumerator names.
pub data MessageType : Type 0 where
  server_ack server_error server_chat server_notification : MessageType
  client_join client_leave client_chat client_command : MessageType
  unknown : ℕ → MessageType

unfoldable pub message_byte : MessageType → ℕ
message_byte MessageType.server_ack = 0x01
message_byte MessageType.server_error = 0x02
message_byte MessageType.server_chat = 0x03
message_byte MessageType.server_notification = 0x04
message_byte MessageType.client_join = 0x11
message_byte MessageType.client_leave = 0x12
message_byte MessageType.client_chat = 0x13
message_byte MessageType.client_command = 0x14
message_byte (MessageType.unknown b) = b

unfoldable pub message_type : ℕ → MessageType
message_type b =
    if b == 0x01
    then MessageType.server_ack
    else if b == 0x02
    then MessageType.server_error
    else if b == 0x03
    then MessageType.server_chat
    else if b == 0x04
    then MessageType.server_notification
    else if b == 0x11
    then MessageType.client_join
    else if b == 0x12
    then MessageType.client_leave
    else if b == 0x13
    then MessageType.client_chat
    else if b == 0x14
    then MessageType.client_command
    else MessageType.unknown b

pub data OperationType : Type 0 where
  accept read write close : OperationType
  unknown : ℕ → OperationType

unfoldable pub operation_byte : OperationType → ℕ
operation_byte OperationType.accept = 1
operation_byte OperationType.read = 2
operation_byte OperationType.write = 3
operation_byte OperationType.close = 4
operation_byte (OperationType.unknown b) = b

unfoldable pub operation_type : ℕ → OperationType
operation_type b =
    if b == 1
    then OperationType.accept
    else if b == 2
    then OperationType.read
    else if b == 3
    then OperationType.write
    else if b == 4
    then OperationType.close
    else OperationType.unknown b

pub record Operation : Type 0 where
  pub client_fd : ℤ
  pub op_type : OperationType
  pub buffer_idx : ℕ

-- The packed message: a type byte, a uint16_t length and `content`, the 512 bytes of `data`.
pub record ChatMessage : Type 0 where
  pub type : MessageType
  pub len : ℕ
  pub content : List ℕ

abbrev pub max_data : ℕ
max_data = 512

-- sizeof(ChatMessage)
abbrev pub message_size : ℕ
message_size = 515

-- MAX_MESSAGE_SIZE
abbrev pub max_message_size : ℕ
max_message_size = 4096

-- The bytes 0..3, 4 and 5..6 of `user_data` are written; byte 7 stays as it was.
unfoldable pub set_context : ℕ → OperationType → ℤ → ℕ → ℕ
set_context user_data type client_fd buffer_idx =
    bits32 client_fd
    + operation_byte type * 2 ^ 32
    + buffer_idx % 2 ^ 16 * 2 ^ 40
    + user_data / 2 ^ 56 * 2 ^ 56

unfoldable pub get_context : ℕ → Operation
get_context user_data = record {
  client_fd = int32 (user_data % 2 ^ 32);
  op_type = operation_type (user_data / 2 ^ 32 % 2 ^ 8);
  buffer_idx = user_data / 2 ^ 40 % 2 ^ 16;
}

-- `reinterpret_cast<ChatMessage*>(buf)`: the message that lies at an address.
unfoldable pub message_at : (ℕ → ℕ) → ℕ → ChatMessage
message_at memory addr = record {
  type = message_type (memory addr);
  len = memory (addr + 1) + 256 * memory (addr + 2);
  content = slice memory (addr + 3) max_data;
}

-- `*reinterpret_cast<const int32_t*>(message->data)`: the four bytes at the start, little endian.
unfoldable pub int32_at : List ℕ → ℤ
int32_at content = int32 (
    get_or content 0 0
    + 2 ^ 8 * get_or content 1 0
    + 2 ^ 16 * get_or content 2 0
    + 2 ^ 24 * get_or content 3 0)

-- The bytes of a message in memory and on the wire, the length little endian; and the message that
-- so many bytes are, where there are at least sizeof(ChatMessage) of them.
unfoldable pub message_bytes : ChatMessage → List ℕ
message_bytes m = message_byte m.type ∷ m.len % 256 ∷ m.len / 256 ∷ m.content

unfoldable pub message_of_bytes : List ℕ → ChatMessage
message_of_bytes bytes = record {
  type = message_type (get_or bytes 0 0);
  len = get_or bytes 1 0 + 256 * get_or bytes 2 0;
  content = take max_data (drop 3 bytes);
}
