-- ===== src/Wire/Examples.antt =====
-- Instances of the theorems on frames, at a cluster of three nodes.
use syncons.Base.{
  ℕ, ◌≡◌, refl, true, not, none, some, List, [], ◌∷◌, ◌++◌, map, filter, all, range, arith, ◌==◌,
  length, if◌then◌else◌,
}
use syncons.Control.{◌>>=◌}
use syncons.Wire.{
  Bytes, ethertype, header_beat_bytes, take, drop, slice, zero_bytes, from_bytes, ConsensusHeader,
  encode_consensus_header, decode_consensus_header, encode_header_beat,
}
use syncons.Wire.RoundTrip.{
  in_range, decode_consensus_header-encode_consensus_header, encode_header_beat_lem,
}
use syncons.Wire.Harness.{
  SsrFrame, Ether, encode, decode, ClusterConfig, post_init, construct_packets,
}
use syncons.Wire.Frames.{decode_raises, header_of, IsFrameOf, encode-IsFrameOf}
use syncons.Wire.Packets.{construct_packets_returns}

abbrev header : ConsensusHeader
header = record { node_id = 2; row = 7; run_id = 300; round_id = 70_000; payload_length = 3 }

decode_consensus_header-encode_consensus_header_example :
    encode_consensus_header header >>= decode_consensus_header
    ≡ (if in_range header then some header else none)
decode_consensus_header-encode_consensus_header_example =
    decode_consensus_header-encode_consensus_header header

abbrev mac : ℕ → Bytes
mac last = 2 ∷ 0 ∷ 0 ∷ 0 ∷ 0 ∷ last ∷ []

encode_header_beat_lem_example :
    (beat : Bytes) × (encode_header_beat (mac 1) (mac 2) header ≡ some beat)
    × (length beat ≡ header_beat_bytes)
    × (take 6 beat ≡ mac 1)
    × (slice 6 12 beat ≡ mac 2)
    × (from_bytes (slice 12 14 beat) ≡ ethertype)
    × (decode_consensus_header (slice 14 30 beat) ≡ some header)
    × (drop 30 beat ≡ zero_bytes 34)
encode_header_beat_lem_example = encode_header_beat_lem (mac 1) (mac 2) header refl refl refl

-- A concrete Ethernet layer: fixed addresses.
abbrev fixed : Ether
fixed = record {
  build = λ h. mac 1 ++ mac 2 ++ 136 ∷ 181 ∷ [];
  parse = λ raw. record { dst = "a"; src = "b"; type_field = ethertype };
}

decode_raises_example : decode fixed (zero_bytes 64) ≡ none
decode_raises_example = decode_raises fixed (zero_bytes 64)

abbrev frame : SsrFrame
frame = record {
  dst_mac = "a";
  src_mac = "b";
  eth_type = ethertype;
  run_id = 300;
  round_id = 70_000;
  node_id = 2;
  row = 7;
  payload = 11 ∷ 12 ∷ 13 ∷ [];
}

encode-IsFrameOf_example :
    (bytes : Bytes) × (encode fixed frame ≡ some bytes) × IsFrameOf fixed frame bytes
encode-IsFrameOf_example = encode-IsFrameOf fixed frame refl refl

abbrev config : ClusterConfig
config = record {
  num_nodes = 3;
  mac_addresses = "a" ∷ "b" ∷ "c" ∷ [];
  eth_type = ethertype;
  rtl_node_id = 1;
}

config-valid : post_init config ≡ some config
unfolding post_init
config-valid = refl

construct_packets_returns_example :
    (packets : List SsrFrame) × (construct_packets config 9 4 ≡ some packets)
    × (map (λ packet. packet.node_id) packets ≡ filter (λ j. not (j == 1)) (range 3))
    × (all (λ packet. in_range (header_of packet)) packets ≡ true)
construct_packets_returns_example =
    construct_packets_returns config 9 4 config-valid (omega arith) (omega arith) (omega arith)
