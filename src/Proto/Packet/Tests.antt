-- ===== src/Proto/Packet/Tests.antt =====
-- The theorems on `packet` at concrete packets, and on `buffer`.
use networkio.Base.{ℕ, ◌≡◌, ◌>>=◌, List, [], ◌∷◌, map, none, some, arith, refl, replicate}
use networkio.Memory.Shared.{Buffer}
use networkio.Memory.Shared.Laws.{IsBuffer}
use networkio.Proto.Packet.{Packet, make, begin_read, read_bytesleft, set_start, write_data, size}
use networkio.Proto.Packet.State.{Reads}
use networkio.Proto.Packet.Writing.{write_data_strands_reader}
use networkio.Proto.Packet.Fields.{
  Field, num, str, kind_of, write_fields, read_fields, fields_round_trip,
}
use networkio.Proto.Packet.Start.{set_start_again}

abbrev junk : ℕ → ℕ
junk i = 0xcd

-- Six bytes of room, three of them written, one of those read.
abbrev storage : Buffer
storage = record {
  m_buffer = 1 ∷ 2 ∷ 3 ∷ 0xcd ∷ 0xcd ∷ 0xcd ∷ [];
  m_begin = 0;
  m_offset = 0;
  m_size = 6;
  block = 0;
}

storage-IsBuffer : IsBuffer storage
storage-IsBuffer = omega arith

abbrev packet : Packet
packet = record {
  m_buffer = some storage;
  m_read_pointer = some (record { block = 0; offs = 1 });
  m_write_pointer = some (record { block = 0; offs = 3 });
  m_address = replicate 16 0;
}

packet-Reads : Reads packet storage 0 (1 ∷ []) (2 ∷ 3 ∷ [])
packet-Reads = record {
  writes = record {
    has = refl;
    valid = storage-IsBuffer;
    begins = refl;
    write_at = refl;
    upper = omega arith;
    payload = refl;
  };
  read_at = refl;
}

write_data_strands_reader_example :
    (p : Packet) × (write_data junk packet (4 ∷ 5 ∷ 6 ∷ 7 ∷ []) 4 ≡ some p)
    × (size p ≡ some 7)
    × (read_bytesleft p ≡ none)
write_data_strands_reader_example =
    write_data_strands_reader junk (4 ∷ 5 ∷ 6 ∷ 7 ∷ []) 4 packet-Reads (omega arith) (omega arith)
      (omega arith)

abbrev fields : List Field
fields = num 4 77 ∷ str (104 ∷ 105 ∷ []) ∷ num 1 255 ∷ str [] ∷ []

fields_round_trip_example :
    (p : Packet) × (q : Packet) × ((make junk none >>= λ new. write_fields junk new fields)
      ≡ some p)
    × (read_fields (begin_read p) (map kind_of fields) ≡ some (fields, q))
    × (read_bytesleft q ≡ some 0)
unfolding networkio.Proto.Wire.to_bytes
fields_round_trip_example = fields_round_trip junk none fields (omega arith) (omega arith)

-- The same packet once it starts at its second byte, and one byte more has been read.
abbrev later : Packet
later = record packet {
  m_buffer = some (record storage { m_begin = 1; m_offset = 1 });
  m_read_pointer = some (record { block = 0; offs = 2 });
}

later-Reads : Reads later (record storage { m_begin = 1; m_offset = 1 }) 1 (2 ∷ []) (3 ∷ [])
later-Reads = record {
  writes = record {
    has = refl;
    valid = omega arith;
    begins = refl;
    write_at = refl;
    upper = omega arith;
    payload = refl;
  };
  read_at = refl;
}

set_start_again_example :
    (read_bytesleft later ≡ some 1) × ((set_start later >>= read_bytesleft) ≡ some 2)
set_start_again_example = set_start_again later-Reads (omega arith)
