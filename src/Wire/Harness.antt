-- ===== src/Wire/Harness.antt =====
-- SSRPacketCodec, ClusterConfig and construct_packets of
-- prototype/fpga/tb/mqnic_core_pcie_us/ssr_sim_harness.py. scapy's Ether is a parameter.
use syncons.Base.{
  ℕ, zero, suc, ◌+◌, ◌-◌, ◌^◌, not, Option, none, some, List, [], ◌∷◌, ◌++◌, if◌then◌else◌, ltb,
  ◌==◌, length, get_elem?, range, String,
}
use syncons.Control.{◌>>=◌}
use syncons.Wire.{
  Bytes, off_payload, eth_header_bytes, header_bytes, min_frame_bytes, single_beat_payload_bytes,
  take, slice, zero_bytes, encode_consensus_header, decode_consensus_header,
}

pub record SsrFrame : Type 0 where
  pub dst_mac : String
  pub src_mac : String
  pub eth_type : ℕ
  pub run_id : ℕ
  pub round_id : ℕ
  pub node_id : ℕ
  pub row : ℕ
  pub payload : Bytes

-- The fields of a parsed Ethernet header.
pub record EtherHeader : Type 0 where
  pub dst : String
  pub src : String
  pub type_field : ℕ

-- `bytes(Ether(dst=…, src=…, type=…))` and `Ether(raw)`.
pub record Ether : Type 0 where
  pub build : EtherHeader → Bytes
  pub parse : Bytes → EtherHeader

abbrev pub padded : Bytes → Bytes
padded frame =
    if ltb (length frame) min_frame_bytes
    then frame ++ zero_bytes (min_frame_bytes - length frame)
    else frame

module _ (ether : Ether) where
  unfoldable pub encode : SsrFrame → Option Bytes
  encode frame = do
    ssr_header ← encode_consensus_header (record {
      node_id = frame.node_id;
      row = frame.row;
      run_id = frame.run_id;
      round_id = frame.round_id;
      payload_length = length frame.payload;
    })
    let eth_header =
        ether.build
          (record { dst = frame.dst_mac; src = frame.src_mac; type_field = frame.eth_type })
    some (padded (eth_header ++ ssr_header ++ frame.payload))

  unfoldable pub decode : Bytes → Option SsrFrame
  decode frame = if ltb (length frame) header_bytes then none else do
    header ← decode_consensus_header (slice eth_header_bytes header_bytes frame)
    let eth_header = ether.parse (take eth_header_bytes frame)
    some (record {
      dst_mac = eth_header.dst;
      src_mac = eth_header.src;
      eth_type = eth_header.type_field;
      run_id = header.run_id;
      round_id = header.round_id;
      node_id = header.node_id;
      row = header.row;
      payload = slice off_payload (off_payload + header.payload_length) frame;
    })

pub record ClusterConfig : Type 0 where
  pub num_nodes : ℕ
  pub mac_addresses : List String
  pub eth_type : ℕ
  pub rtl_node_id : ℕ

-- `__post_init__`, where `none` is the ValueError.
unfoldable pub post_init : ClusterConfig → Option ClusterConfig
post_init config =
    if not (config.num_nodes == length config.mac_addresses)
    then none
    else if ltb 7 config.num_nodes
    then none
    else some config

-- `bytes([value] * n)`, of a value below 256.
abbrev pub repeated : ℕ → ℕ → Bytes
repeated zero value = []
repeated (suc n) value = value ∷ repeated n value

-- The body of the loop of `construct_packets` at a node other than the one under test.
unfoldable pub construct_packet : ClusterConfig → String → ℕ → ℕ → ℕ → String → SsrFrame
construct_packet config destination_mac round_id run_id node_id src_mac = record {
  dst_mac = destination_mac;
  src_mac = src_mac;
  eth_type = config.eth_type;
  run_id = run_id;
  round_id = round_id;
  node_id = node_id;
  row = 2 ^ config.num_nodes - 1;
  payload = repeated single_beat_payload_bytes node_id;
}

-- The loop; `none` is the IndexError.
unfoldable pub construct_each : ClusterConfig → String → ℕ → ℕ → List ℕ → Option (List SsrFrame)
unfolding construct_packet
construct_each config destination_mac round_id run_id [] = some []
construct_each config destination_mac round_id run_id (node_id ∷ nodes) =
    let rest = construct_each config destination_mac round_id run_id nodes in
    if node_id == config.rtl_node_id then rest else do
      src_mac ← get_elem? config.mac_addresses node_id
      packets ← rest
      some (construct_packet config destination_mac round_id run_id node_id src_mac ∷ packets)

unfoldable pub construct_packets : ClusterConfig → ℕ → ℕ → Option (List SsrFrame)
unfolding construct_each
construct_packets config round_id run_id = do
  destination_mac ← get_elem? config.mac_addresses config.rtl_node_id
  construct_each config destination_mac round_id run_id (range config.num_nodes)
