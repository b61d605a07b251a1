-- ===== src/Protocol/Header.antt =====
-- The packet header of sysmodule/source/protocol/types.hpp: its constants, the packet types, and
-- the structure in memory. A structure is packed and the machine is little-endian.
use native.Mathlib.Nat.{le_refl}
use ryu_ldn_nx.Prelude.{
  ℕ, ◌%◌, ◌^◌, ◌<◌, ◌≤◌, ◌≡◌, refl, sym, ap, ◌∙◌, take-append_left, List, ◌∷◌, ◌++◌, arith, length,
  get_or, get_or-take, take,
}
use ryu_ldn_nx.Prelude.Bytes.{u16_bytes, u32_bytes, read_u16, read_u32}

-- "RLDN", read as a little-endian number.
abbrev pub protocol_magic : ℕ
protocol_magic = 0x4E444C52

abbrev pub protocol_version : ℕ
protocol_version = 1

abbrev pub max_packet_size : ℕ
max_packet_size = 131072

-- `sizeof(LdnHeader)`.
abbrev pub header_size : ℕ
header_size = 12

pub data PacketId : Type 0 where
  initialize passphrase create_access_point create_access_point_private external_proxy : PacketId
  external_proxy_token external_proxy_state sync_network reject reject_reply scan : PacketId
  scan_reply scan_reply_end connect connect_private connected disconnect proxy_config : PacketId
  proxy_connect proxy_connect_reply proxy_data proxy_disconnect set_accept_policy : PacketId
  set_advertise_data ping network_error : PacketId

-- `static_cast<uint8_t>(type)`.
unfoldable pub code : PacketId → ℕ
code initialize = 0
code passphrase = 1
code create_access_point = 2
code create_access_point_private = 3
code external_proxy = 4
code external_proxy_token = 5
code external_proxy_state = 6
code sync_network = 7
code reject = 8
code reject_reply = 9
code scan = 10
code scan_reply = 11
code scan_reply_end = 12
code connect = 13
code connect_private = 14
code connected = 15
code disconnect = 16
code proxy_config = 17
code proxy_connect = 18
code proxy_connect_reply = 19
code proxy_data = 20
code proxy_disconnect = 21
code set_accept_policy = 22
code set_advertise_data = 23
code ping = 254
code network_error = 255

pub code-lt : (p : PacketId) → code p < 256
unfolding code
code-lt p = ground arith

-- `data_size` is an `int32_t`, kept as its bit pattern.
pub record LdnHeader : Type 0 where
  pub magic : ℕ  -- uint32_t
  pub type : ℕ  -- uint8_t
  pub version : ℕ  -- uint8_t
  pub reserved : ℕ  -- uint16_t
  pub data_size : ℕ  -- int32_t

-- The twelve bytes of a header, as `memcpy` takes them out of the structure.
unfoldable pub header_bytes : LdnHeader → List ℕ
header_bytes h =
    u32_bytes h.magic
    ++ (h.type % 256 ∷ h.version % 256 ∷ (u16_bytes h.reserved ++ u32_bytes h.data_size))

-- `memcpy(&header, buffer, sizeof(LdnHeader))`.
unfoldable pub read_header : List ℕ → LdnHeader
read_header b = record {
  magic = read_u32 b 0;
  type = get_or b 4 0;
  version = get_or b 5 0;
  reserved = read_u16 b 6;
  data_size = read_u32 b 8;
}

-- The fields fit their types.
pub record IsFit (h : LdnHeader) : Type 0 where
  pub magic_fit : h.magic < 2 ^ 32
  pub type_fit : h.type < 256
  pub version_fit : h.version < 256
  pub reserved_fit : h.reserved < 2 ^ 16
  pub data_size_fit : h.data_size < 2 ^ 32

pub length-header_bytes : (h : LdnHeader) → length (header_bytes h) ≡ header_size
unfolding header_bytes
length-header_bytes h = refl

pub read_header-header_bytes :
    (h : LdnHeader) (rest : List ℕ) → IsFit h → read_header (header_bytes h ++ rest) ≡ h
unfolding read_header header_bytes
read_header-header_bytes h rest fit = ground arith

-- Only the first twelve bytes matter.
pub read_header-take :
    (n : ℕ) (b : List ℕ) → header_size ≤ n → read_header (take n b) ≡ read_header b
unfolding read_header
read_header-take n b h = ground (
  arith,
  get_or-take n 0 b 0,
  get_or-take n 1 b 0,
  get_or-take n 2 b 0,
  get_or-take n 3 b 0,
  get_or-take n 4 b 0,
  get_or-take n 5 b 0,
  get_or-take n 6 b 0,
  get_or-take n 7 b 0,
  get_or-take n 8 b 0,
  get_or-take n 9 b 0,
  get_or-take n 10 b 0,
  get_or-take n 11 b 0,
)

pub read_header-append :
    (xs ys : List ℕ) → header_size ≤ length xs → read_header (xs ++ ys) ≡ read_header xs
read_header-append xs ys h =
    sym (read_header-take 12 (xs ++ ys) (le_refl 12))
    ∙ ap read_header (take-append_left 12 xs ys h)
    ∙ read_header-take 12 xs (le_refl 12)
