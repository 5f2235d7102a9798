-- ===== src/Protocol.antt =====
-- protocol.h and protocol.cpp: the requests and the response headers of memcached's binary protocol.
--
-- A string is its bytes. htobe16, htobe32 and htobe64 store a number with its most significant byte
-- first; what is too large for the field loses its upper bytes.
pub mod Bytes
pub mod Headers
pub mod Requests
use memcache_router.Prelude.{
  ℕ, suc, ◌+◌, ◌-◌, ◌%◌, ◌^◌, List, [], ◌∷◌, ◌++◌, Option, none, some, if◌then◌else◌, length, ltb,
  ◌==◌,
}
use memcache_router.Prelude.Text.{Text}
use memcache_router.Messages.{ℤ, pos, negsuc}
use memcache_router.Protocol.Bytes.{be, read, drop}

abbrev pub request_magic : ℕ
request_magic = 0x80

abbrev pub response_magic : ℕ
response_magic = 0x81

pub data Commands : Type 0 where
  get_command set_command add_command replace_command delete_command increment_command
        decrement_command quit_command flush_command getq_command noop_command version_command
        getk_command getkq_command append_command prepend_command stat_command setq_command
        addq_command replaceq_command deleteq_command incrementq_command decrementq_command
        quitq_command flushq_command appendq_command prependq_command :
      Commands

abbrev pub command_code : Commands → ℕ
command_code get_command = 0
command_code set_command = 1
command_code add_command = 2
command_code replace_command = 3
command_code delete_command = 4
command_code increment_command = 5
command_code decrement_command = 6
command_code quit_command = 7
command_code flush_command = 8
command_code getq_command = 9
command_code noop_command = 10
command_code version_command = 11
command_code getk_command = 12
command_code getkq_command = 13
command_code append_command = 14
command_code prepend_command = 15
command_code stat_command = 16
command_code setq_command = 17
command_code addq_command = 18
command_code replaceq_command = 19
command_code deleteq_command = 20
command_code incrementq_command = 21
command_code decrementq_command = 22
command_code quitq_command = 23
command_code flushq_command = 24
command_code appendq_command = 25
command_code prependq_command = 26

-- The fields as the host reads them.
pub record ProtocolHeader : Type 0 where
  pub magic : ℕ
  pub opcode : ℕ
  pub key_length : ℕ
  pub extra_length : ℕ
  pub data_type : ℕ
  pub reserved : ℕ
  pub total_body_length : ℕ
  pub opaque : ℕ
  pub cas : ℕ

abbrev pub reset_header : ProtocolHeader
reset_header = record {
  magic = 0;
  opcode = 0;
  key_length = 0;
  extra_length = 0;
  data_type = 0;
  reserved = 0;
  total_body_length = 0;
  opaque = 0;
  cas = 0;
}

-- The 24 bytes of a header.
unfoldable pub header_bytes : ProtocolHeader → Text
header_bytes h =
    be 1 h.magic
    ++ (be 1 h.opcode
        ++ (be 2 h.key_length
            ++ (be 1 h.extra_length
                ++ (be 1 h.data_type
                    ++ (be 2 h.reserved
                        ++ (be 4 h.total_body_length ++ (be 4 h.opaque ++ be 8 h.cas)))))))

pub record RequestPacket : Type 0 where
  pub command : Text
  pub num : ℕ

abbrev pub new_request : RequestPacket
new_request = record { command = []; num = 0 }

unfoldable pub reset : RequestPacket → RequestPacket
reset r = record { command = []; num = 0 }

unfoldable pub get : Text → RequestPacket → RequestPacket
get key r =
    let header : ProtocolHeader = record reset_header {
      magic = request_magic;
      opcode = command_code get_command;
      key_length = length key;
      total_body_length = length key;
    } in
    record { command = r.command ++ (header_bytes header ++ key); num = r.num + 1 }

unfoldable pub set : Text → Text → ℕ → ℕ → ℕ → RequestPacket → RequestPacket
set key value flag expiry cas r =
    let header : ProtocolHeader = record reset_header {
      magic = request_magic;
      opcode = command_code set_command;
      key_length = length key;
      extra_length = 8;
      total_body_length = length key + length value + 8;
      cas = cas;
    } in
    record {
      command =
          r.command ++ (header_bytes header ++ (be 4 flag ++ (be 4 expiry ++ (key ++ value))));
      num = r.num + 1;
    }

unfoldable pub noop : RequestPacket → RequestPacket
noop r =
    let header : ProtocolHeader = record reset_header {
      magic = request_magic;
      opcode = command_code noop_command;
    } in
    record { command = r.command ++ header_bytes header; num = r.num + 1 }

-- The header at the front of the bytes.
unfoldable pub read_header : Text → ProtocolHeader
read_header t0 =
    let (magic, t1) = read 1 t0 in
    let (opcode, t2) = read 1 t1 in
    let (key_length, t3) = read 2 t2 in
    let (extra_length, t4) = read 1 t3 in
    let (data_type, t5) = read 1 t4 in
    let (reserved, t6) = read 2 t5 in
    let (total_body_length, t7) = read 4 t6 in
    let (opaque, t8) = read 4 t7 in
    record {
      magic = magic;
      opcode = opcode;
      key_length = key_length;
      extra_length = extra_length;
      data_type = data_type;
      reserved = reserved;
      total_body_length = total_body_length;
      opaque = opaque;
      cas = (read 8 t8).0;
    }

-- A number of 64 bits returned as an `int`.
unfoldable pub to_int : ℕ → ℤ
to_int n =
    let low : ℕ = n % 2 ^ 32 in if ltb low (2 ^ 31) then pos low else negsuc (2 ^ 32 - low - 1)

-- `none` is the CHECK that fails.
unfoldable pub check_header : ℕ → ProtocolHeader → Option (ℤ × ProtocolHeader)
unfolding to_int
check_header at h =
    if h.magic == response_magic then some (to_int (at + 24 + h.total_body_length), h) else none

-- The position behind the packet and its header; 0, and the header as it was, where fewer than 24 bytes
-- are left.
unfoldable pub parse_header : Text → ℕ → ProtocolHeader → Option (ℤ × ProtocolHeader)
parse_header response at header =
    if ltb (length response) (at + 24)
    then some (pos 0, header)
    else check_header at (read_header (drop at response))
