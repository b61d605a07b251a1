-- ===== src/Protocol/PacketBuffer/Extraction.antt =====
-- Taking packets out of the buffer, whole ones only.
use ryu_ldn_nx.Prelude.{
  ℕ, ◌+◌, ◌≤◌, ◌<◌, ◌≡◌, refl, sym, ap, ◌∙◌, List, [], ◌++◌, arith, append_assoc, length, take,
  drop, length-append, take-append_length, drop-append_length, ltb, if◌then◌else◌, take-take,
  append-nil,
}
use ryu_ldn_nx.Prelude.Bytes.{write_at}
use ryu_ldn_nx.Protocol.Header.{
  PacketId, LdnHeader, header_bytes, header_size, max_packet_size, length-header_bytes,
  read_header-take, read_header-append,
}
use ryu_ldn_nx.Protocol.Codec.{
  packet_header, decode_header, check_complete_packet, undefined_header,
}
use ryu_ldn_nx.Protocol.Codec.RoundTrip.{packet, decode_header-packet}
use ryu_ldn_nx.Protocol.PacketBuffer.{
  success, no_complete_packet, PacketBuffer, peek_packet_info, consume, extract_packet,
}
use ryu_ldn_nx.Protocol.PacketBuffer.Contents.{
  contents, IsValid, length-contents, contents-consume, consume-IsValid,
}

pub length-packet :
    (type : PacketId) (payload : List ℕ)
    → length (packet type payload) ≡ header_size + length payload
length-packet type payload = omega (
  arith,
  length-append (header_bytes (packet_header type (length payload))) payload,
  length-header_bytes (packet_header type (length payload)),
)

-- A header is decoded from the contents alone, and from more of the stream alike.
pub decode_header-contents :
    (size : ℕ) (b : PacketBuffer) (tail : List ℕ) (h : LdnHeader)
    → IsValid size b
    → header_size ≤ b.write_pos
    → decode_header b.buffer b.write_pos h ≡ decode_header (contents b ++ tail) b.write_pos h
unfolding decode_header
decode_header-contents size b tail h v long = ground (
  arith,
  read_header-append (contents b) tail,
  read_header-take b.write_pos b.buffer,
  length-contents size b v,
)

-- With a packet at the front of the stream, `peek_packet_info` says how long it is once its header
-- is there, and whether all of it is.
pub peek_packet_info-packet :
    (size : ℕ) (b : PacketBuffer) (tail : List ℕ) (type : PacketId) (payload rest : List ℕ)
    → IsValid size b
    → length payload ≤ max_packet_size
    → contents b ++ tail ≡ packet type payload ++ rest
    → peek_packet_info b ≡ (
        if ltb (length (contents b)) (header_size + length payload)
        then (
          no_complete_packet,
          if ltb (length (contents b)) header_size then 0 else header_size + length payload,
        )
        else (success, header_size + length payload))
unfolding peek_packet_info check_complete_packet packet_header
peek_packet_info-packet size b tail type payload rest v small e =
    let whole = append_assoc (header_bytes (packet_header type (length payload))) payload rest in
    ground (
      arith,
      length-contents size b v,
      e,
      whole,
      decode_header-contents size b tail undefined_header v,
      decode_header-packet type (length payload) (payload ++ rest) b.write_pos undefined_header,
    )

-- What a whole packet at the front of the contents gives to whoever takes it out.
pub record Front (size : ℕ) (b : PacketBuffer) (whole rest : List ℕ) : Type 0 where
  pub peeked : peek_packet_info b ≡ (success, length whole)
  pub bytes : take (length whole) b.buffer ≡ whole
  pub left : contents (consume b (length whole)) ≡ rest
  pub valid : IsValid size (consume b (length whole))

pub packet-Front :
    (size : ℕ) (b : PacketBuffer) (type : PacketId) (payload rest : List ℕ)
    → IsValid size b
    → length payload ≤ max_packet_size
    → contents b ≡ packet type payload ++ rest
    → Front size b (packet type payload) rest
packet-Front size b type payload rest v small e = record {
  peeked = ground (
    arith,
    peek_packet_info-packet size b [] type payload rest v small (append-nil (contents b) ∙ e),
    fits,
    length-packet type payload,
  );
  bytes =
      sym (take-take n b.write_pos b.buffer (omega (arith, fits, length-contents size b v)))
      ∙ ap (take n) e
      ∙ take-append_length n (packet type payload) rest refl;
  left =
      contents-consume size b n v
      ∙ ap (drop n) e
      ∙ drop-append_length n (packet type payload) rest refl;
  valid = consume-IsValid size b n v;
}
  where
    n : ℕ
    n = length (packet type payload)

    fits : n ≤ length (contents b)
    fits = omega (arith, ap length e, length-append (packet type payload) rest)

-- With a whole packet within the protocol's limit at the front of a valid buffer's contents and
-- room for it in the caller's block, `extract_packet` puts exactly that packet at the front of the
-- block, and leaves what came after it as the contents of a valid buffer.
pub extract_packet-packet :
    (size : ℕ) (b : PacketBuffer) (type : PacketId) (payload rest : List ℕ) (out_buffer : List ℕ)
    (out_buffer_size : ℕ)
    → IsValid size b
    → length payload ≤ max_packet_size
    → contents b ≡ packet type payload ++ rest
    → header_size + length payload ≤ out_buffer_size
    → let (result, out, packet_size, b') = extract_packet b out_buffer out_buffer_size in
      (result ≡ success)
      × (out ≡ write_at out_buffer 0 (packet type payload))
      × (packet_size ≡ header_size + length payload)
      × (contents b' ≡ rest)
      × IsValid size b'
unfolding extract_packet
extract_packet-packet size b type payload rest out_buffer out_buffer_size v small e room =
    let f = packet-Front size b type payload rest v small e in
    ground (arith, f, length-packet type payload)

-- A packet that the protocol allows but that is longer than the block is never complete: whatever
-- first part of it a valid buffer holds, `peek_packet_info` answers that no packet is complete.
peek_packet_info-oversize :
    (size : ℕ) (b : PacketBuffer) (tail : List ℕ) (type : PacketId) (payload rest : List ℕ)
    → IsValid size b
    → length payload ≤ max_packet_size
    → size < header_size + length payload
    → contents b ++ tail ≡ packet type payload ++ rest
    → (peek_packet_info b).0 ≡ no_complete_packet
peek_packet_info-oversize size b tail type payload rest v small over e = ground (
  arith,
  peek_packet_info-packet size b tail type payload rest v small e,
  length-contents size b v,
)
