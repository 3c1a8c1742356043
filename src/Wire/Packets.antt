-- ===== src/Wire/Packets.antt =====
-- The packets that the harness of prototype/fpga/tb/mqnic_core_pcie_us/ssr_sim_harness.py builds.
use syncons.Base.{
  ℕ, zero, suc, ◌+◌, ◌-◌, ◌^◌, ◌<◌, ◌≤◌, ◌≡◌, ◌∙◌, refl, ap, subst, Bool, true, not, some, List, [],
  ◌∷◌, arith, ◌==◌, length, all, get_elem?, range, range_from, String, Bool-cases, inl, inr, map,
  filter,
}
use syncons.Wire.RoundTrip.{in_range}
use syncons.Wire.Harness.{
  SsrFrame, ClusterConfig, post_init, construct_packet, construct_each, construct_packets,
}
use syncons.Wire.Frames.{header_of}

abbrev numbers_of : List SsrFrame → List ℕ
numbers_of packets = map (λ packet. packet.node_id) packets

-- The payload is empty, and the numbers fit the header.
abbrev fits_header : SsrFrame → Bool
fits_header packet = in_range (header_of packet)

get_found {ℓ} :
    {A : Type ℓ} (xs : List A) (i : ℕ) → i < length xs → (a : A) × (get_elem? xs i ≡ some a)
get_found [] i h = absurd (omega arith)
get_found (x ∷ xs) zero h = (x, refl)
get_found (x ∷ xs) (suc i) h = get_found xs i (omega arith)

row_fits : (n : ℕ) → n ≤ 7 → 2 ^ n - 1 < 256
row_fits n h = omega (arith, grows n (7 - n) 7 (omega arith))
  where
    grows : (n k m : ℕ) → n + k ≡ m → 2 ^ n ≤ 2 ^ m
    grows n zero m e = subst (λ j. 2 ^ n ≤ 2 ^ j) {x = n} (omega arith) (omega arith)
    grows n (suc k) zero e = absurd (omega arith)
    grows n (suc k) (suc m) e = omega (arith, grows n k m (omega arith))

construct_packet_fits :
    (config : ClusterConfig) (dst src : String) (round_id run_id node_id : ℕ)
    → config.num_nodes ≤ 7
    → node_id < config.num_nodes
    → round_id < 2 ^ 64
    → run_id < 2 ^ 32
    → fits_header (construct_packet config dst round_id run_id node_id src) ≡ true
unfolding construct_packet
construct_packet_fits config dst src round_id run_id node_id small inside r k =
    ground (arith, row_fits config.num_nodes small)

module _ (config : ClusterConfig) (dst : String) (round_id run_id : ℕ) where
  construct_each_returns :
      (i k : ℕ)
      → i + k ≤ config.num_nodes
      → config.num_nodes ≤ 7
      → config.num_nodes ≡ length config.mac_addresses
      → round_id < 2 ^ 64
      → run_id < 2 ^ 32
      → (packets : List SsrFrame) × (construct_each config dst round_id run_id (range_from i k)
          ≡ some packets)
        × (numbers_of packets ≡ filter (λ j. not (j == config.rtl_node_id)) (range_from i k))
        × (all fits_header packets ≡ true)
  unfolding construct_each construct_packet
  construct_each_returns i zero h small macs r s = ([], refl, refl, refl)
  construct_each_returns i (suc k) h small macs r s =
      let (packets, made, numbers, fit) =
        construct_each_returns (suc i) k (omega arith) small macs r s in
      elim (Bool-cases (i == config.rtl_node_id)) [
        | inl own ↦ (packets, rw (own, made) refl, numbers ∙ rw own refl, fit)
        | inr other ↦
            let (src, found) = get_found config.mac_addresses i (omega arith) in
            (
              construct_packet config dst round_id run_id i src ∷ packets,
              rw (other, found, made) refl,
              rw other (ap (λ js. i ∷ js) numbers),
              rw
                  (
                    construct_packet_fits config dst src round_id run_id i small (omega arith) r s,
                    fit,
                  )
                  refl,
            )
      ]

-- Of a valid configuration whose node under test is one of the nodes, in a round below 2 ^ 64 and a
-- run below 2 ^ 32, construct_packets makes a packet of each other node, in their order, each with
-- fields that can be encoded.
pub construct_packets_returns :
    (config : ClusterConfig) (round_id run_id : ℕ)
    → post_init config ≡ some config
    → config.rtl_node_id < config.num_nodes
    → round_id < 2 ^ 64
    → run_id < 2 ^ 32
    → (packets : List SsrFrame) × (construct_packets config round_id run_id ≡ some packets)
      × (map (λ packet. packet.node_id) packets
          ≡ filter (λ j. not (j == config.rtl_node_id)) (range config.num_nodes))
      × (all (λ packet. in_range (header_of packet)) packets ≡ true)
unfolding post_init construct_packets
construct_packets_returns config round_id run_id valid inside r s =
    let macs : config.num_nodes ≡ length config.mac_addresses = ground arith in
    let small : config.num_nodes ≤ 7 = ground arith in
    let (dst, found) = get_found config.mac_addresses config.rtl_node_id (omega arith) in
    let (packets, made, numbers, fit) =
      construct_each_returns config dst round_id run_id 0 config.num_nodes (omega arith) small macs
        r s in
    (packets, rw (found, made) refl, numbers, fit)
