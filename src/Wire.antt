-- ===== src/Wire.antt =====
-- The wire format of prototype/fpga/tb/mqnic_core_pcie_us/ssr_packet.py. A byte is a number below
-- 256, and `none` is the exception: struct.error for a value out of range or raw bytes of the wrong
-- length, AssertionError for addresses of the wrong length.
pub mod RoundTrip
pub mod Harness
pub mod Frames
pub mod Packets
mod Examples
use syncons.Base.{
  ℕ, zero, suc, ◌+◌, ◌-◌, ◌*◌, ◌/◌, ◌%◌, ◌^◌, Bool, true, false, ◌&&◌, Option, none, some, List, [],
  ◌∷◌, ◌++◌, if◌then◌else◌, ltb, ◌==◌, length,
}
use syncons.Control.{◌>>=◌}

abbrev pub Bytes : Type 0
Bytes = List ℕ

abbrev pub ethertype : ℕ
ethertype = 34_997

abbrev pub off_payload : ℕ
off_payload = 64

abbrev pub eth_header_bytes : ℕ
eth_header_bytes = 14

-- `CONSENSUS_HEADER.size` of the format "!BBIQH".
abbrev pub consensus_header_bytes : ℕ
consensus_header_bytes = 16

abbrev pub header_used_bytes : ℕ
header_used_bytes = eth_header_bytes + consensus_header_bytes

abbrev pub header_beat_bytes : ℕ
header_beat_bytes = 64

abbrev pub header_bytes : ℕ
header_bytes = header_beat_bytes

abbrev pub min_frame_bytes : ℕ
min_frame_bytes = 60

abbrev pub single_beat_payload_bytes : ℕ
single_beat_payload_bytes = 64 - header_bytes

-- `xs[:n]` and `xs[n:]`, and `xs[a:b]`.
abbrev pub take {ℓ} : {A : Type ℓ} → ℕ → List A → List A
take zero xs = []
take (suc n) [] = []
take (suc n) (x ∷ xs) = x ∷ take n xs

abbrev pub drop {ℓ} : {A : Type ℓ} → ℕ → List A → List A
drop zero xs = xs
drop (suc n) [] = []
drop (suc n) (x ∷ xs) = drop n xs

abbrev pub slice {ℓ} : {A : Type ℓ} → ℕ → ℕ → List A → List A
slice a b xs = take (b - a) (drop a xs)

-- `b"\x00" * n`
abbrev pub zero_bytes : ℕ → Bytes
zero_bytes zero = []
zero_bytes (suc n) = 0 ∷ zero_bytes n

-- A number in so many bytes, the highest first, and back.
abbrev pub to_bytes : ℕ → ℕ → Bytes
to_bytes zero value = []
to_bytes (suc width) value = to_bytes width (value / 256) ++ value % 256 ∷ []

abbrev pub from_bytes_after : ℕ → Bytes → ℕ
from_bytes_after value [] = value
from_bytes_after value (b ∷ bytes) = from_bytes_after (value * 256 + b) bytes

abbrev pub from_bytes : Bytes → ℕ
from_bytes bytes = from_bytes_after 0 bytes

-- One field of `pack`: B, H, I and Q are 1, 2, 4 and 8 bytes wide.
abbrev pub pack_field : ℕ → ℕ → Option Bytes
pack_field width value = if ltb value (256 ^ width) then some (to_bytes width value) else none

-- The arguments of `encode_consensus_header`, which `decode_consensus_header` returns.
pub record ConsensusHeader : Type 0 where
  pub node_id : ℕ
  pub row : ℕ
  pub run_id : ℕ
  pub round_id : ℕ
  pub payload_length : ℕ

unfoldable pub encode_consensus_header : ConsensusHeader → Option Bytes
encode_consensus_header header = do
  node_id ← pack_field 1 header.node_id
  row ← pack_field 1 header.row
  run_id ← pack_field 4 header.run_id
  round_id ← pack_field 8 header.round_id
  payload_length ← pack_field 2 header.payload_length
  some (node_id ++ row ++ run_id ++ round_id ++ payload_length)

unfoldable pub decode_consensus_header : Bytes → Option ConsensusHeader
decode_consensus_header raw =
    if length raw == consensus_header_bytes
    then some (record {
      node_id = from_bytes (slice 0 1 raw);
      row = from_bytes (slice 1 2 raw);
      run_id = from_bytes (slice 2 6 raw);
      round_id = from_bytes (slice 6 14 raw);
      payload_length = from_bytes (slice 14 16 raw);
    })
    else none

unfoldable pub encode_header_beat : Bytes → Bytes → ConsensusHeader → Option Bytes
encode_header_beat dst_mac src_mac header = do
  encoded ← encode_consensus_header header
  let beat = dst_mac ++ src_mac ++ to_bytes 2 ethertype ++ encoded
  if length beat == header_used_bytes
      then some (beat ++ zero_bytes (header_beat_bytes - header_used_bytes))
      else none
