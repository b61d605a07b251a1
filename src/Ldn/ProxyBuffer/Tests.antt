-- ===== src/Ldn/ProxyBuffer/Tests.antt =====
-- Runs of the proxy buffer.
use ryu_ldn_nx.Prelude.{
  ℕ, ◌+◌, ◌≤◌, ◌<◌, ◌≡◌, refl, ◌⊎◌, true, false, none, some, List, [], ◌∷◌, ◌++◌, arith, min,
  replicate, take, length-replicate, length,
}
use ryu_ldn_nx.Prelude.Bytes.{write_at}
use ryu_ldn_nx.Ldn.ProxyBuffer.{
  LdnProxyBuffer, ProxyDataHeader, zero_header, zero_entry, buffer_size, max_packet_data_size,
  max_queued_packets, new, write, read, write_position, store, release, copy_in, copy_out,
}
use ryu_ldn_nx.Ldn.ProxyBuffer.Layout.{queue, IsValid, IsLinear}
use ryu_ldn_nx.Ldn.ProxyBuffer.Writes.{write-queue}
use ryu_ldn_nx.Ldn.ProxyBuffer.Reads.{read-queue}

abbrev header_of : ℕ → ProxyDataHeader
header_of n = record zero_header { data_length = n }

-- One packet of three bytes.
abbrev one : LdnProxyBuffer
one = record {
  packets =
      record { header = header_of 3; data_size = 3; data_offset = 0 } ∷ replicate 15 zero_entry;
  packet_read_idx = 0;
  packet_write_idx = 1;
  packet_count = 1;
  data_buffer = replicate buffer_size 7;
  data_read_pos = 0;
  data_write_pos = 3;
}

one-IsValid : IsValid one
one-IsValid = record {
  slots = refl;
  block = length-replicate {A = ℕ} buffer_size 7;
  read_in = omega arith;
  write_is = refl;
  count_in = omega arith;
  read_pos_in = omega arith;
  write_pos_in = omega arith;
  inside = (omega arith, tt);
}

write-queue_example :
    let (b', ok) = write one (header_of 2) (some (8 ∷ 9 ∷ [])) 2 in
    (((max_packet_data_size < 2) ⊎ (1 ≡ max_queued_packets) ⊎ ((buffer_size < 3 + 2) × (0 ≤ 2)))
      × (ok ≡ false)
      × (b' ≡ one))
    ⊎ ((2 ≤ max_packet_data_size)
        × (1 < max_queued_packets)
        × ((3 + 2 ≤ buffer_size) ⊎ (2 < 0))
        × (ok ≡ true)
        × (queue b' ≡ queue one ++ ((header_of 2, 8 ∷ 9 ∷ []) ∷ []))
        × IsValid b'
        × ((3 + 2 ≤ buffer_size) → IsLinear b'))
write-queue_example =
    write-queue one (header_of 2) (8 ∷ 9 ∷ []) one-IsValid (omega arith, omega arith)

read-queue_example :
    let (b', found, h', out', size) = read one zero_header (some (0 ∷ 0 ∷ [])) 0 2 in
    ((queue one ≡ [])
      × (found ≡ false)
      × (b' ≡ one)
      × (h' ≡ zero_header)
      × (out' ≡ some (0 ∷ 0 ∷ []))
      × (size ≡ 0))
    ⊎ ((bytes : List ℕ) × (queue one ≡ (h', bytes) ∷ queue b')
        × (found ≡ true)
        × (size ≡ min (length bytes) 2)
        × (out' ≡ some (write_at (0 ∷ 0 ∷ []) 0 (take size bytes)))
        × IsValid b'
        × (IsLinear one → IsLinear b'))
read-queue_example = read-queue one zero_header (0 ∷ 0 ∷ []) 0 2 one-IsValid

-- Four packets of 2048 bytes are written, two are read, two more are written; the bytes themselves
-- are left out.
abbrev put : LdnProxyBuffer → ℕ → LdnProxyBuffer
put b n = (write b (header_of n) none 2048).0

abbrev get : LdnProxyBuffer → LdnProxyBuffer
get b = (read b zero_header none 0 2048).0

abbrev wrapped : LdnProxyBuffer
wrapped = record {
  packets =
      record { header = header_of 1; data_size = 2048; data_offset = 0 }
      ∷ record { header = header_of 2; data_size = 2048; data_offset = 2048 }
      ∷ record { header = header_of 3; data_size = 2048; data_offset = 4096 }
      ∷ record { header = header_of 4; data_size = 2048; data_offset = 6144 }
      ∷ record { header = header_of 5; data_size = 2048; data_offset = 0 }
      ∷ record { header = header_of 6; data_size = 2048; data_offset = 2048 }
      ∷ replicate 10 zero_entry;
  packet_read_idx = 2;
  packet_write_idx = 6;
  packet_count = 4;
  data_buffer = replicate buffer_size 0;
  data_read_pos = 4096;
  data_write_pos = 4096;
}

wrapped-reached : put (put (get (get (put (put (put (put new 1) 2) 3) 4))) 5) 6 ≡ wrapped
unfolding new write read write_position store release copy_in copy_out
wrapped-reached = refl
