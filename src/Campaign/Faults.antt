-- ===== src/Campaign/Faults.antt =====
-- The random fault models of sim/runtime/random_campaign.py. What `random.Random` draws is an
-- argument.
use syncons.Base.{
  ℕ, ◌+◌, ◌-◌, Bool, true, Option, none, some, List, [], ◌∷◌, Dict, if◌then◌else◌, insert, ltb,
  range, range_from, lookup,
}
use syncons.Protocol.{NetworkFaultModel, NodeFaultModel, Packet, Delivery}

-- The probabilities are `Chance`s, whatever the random source makes of them.
pub record RandomFaultConfig (Chance : Type 0) : Type 0 where
  pub node_count : ℕ
  pub rounds : ℕ
  pub trials : ℕ
  pub seed : ℕ
  pub packet_loss : Chance
  pub packet_delay : Chance
  pub ack_corruption : Chance
  pub duplicate : Chance
  pub node_crash : Chance

-- The inner loop of `_random_node_fault_model`: the first round whose draw says so. The outcomes of
-- `rng.random() < config.node_crash` are the argument.
unfoldable pub first_crash : (ℕ → Bool) → List ℕ → Option ℕ
first_crash drawn [] = none
first_crash drawn (round_id ∷ rounds) =
    if drawn round_id then some round_id else first_crash drawn rounds

abbrev pub store_crash : ℕ → Option ℕ → Dict ℕ → Dict ℕ
store_crash node_id none crash_rounds = crash_rounds
store_crash node_id (some round_id) crash_rounds = insert node_id round_id crash_rounds

-- The outer loop, `range(1, config.rounds)` being `range_from 1 (rounds - 1)`.
unfoldable pub draw_crash_rounds : (ℕ → ℕ → Bool) → ℕ → List ℕ → Dict ℕ → Dict ℕ
unfolding first_crash
draw_crash_rounds drawn rounds [] crash_rounds = crash_rounds
draw_crash_rounds drawn rounds (node_id ∷ nodes) crash_rounds =
    draw_crash_rounds drawn rounds nodes
      (store_crash node_id (first_crash (drawn node_id) (range_from 1 (rounds - 1))) crash_rounds)

-- `crash_round is None or round_id < crash_round`
abbrev pub is_before : ℕ → Option ℕ → Bool
is_before round_id none = true
is_before round_id (some crash_round) = ltb round_id crash_round

unfoldable pub random_node_fault_model : (ℕ → ℕ → Bool) → ℕ → ℕ → NodeFaultModel
unfolding draw_crash_rounds
random_node_fault_model drawn node_count rounds node_id round_id =
    is_before round_id (lookup node_id (draw_crash_rounds drawn rounds (range node_count) []))

-- What `random.Random` decides about a packet.
pub record Rolls : Type 0 where
  pub lost : Bool
  pub delayed : Bool
  pub corrupted : Option ℕ
  pub duplicated : Bool

abbrev plain_delivery : Option ℕ → Delivery
plain_delivery deliver_round = record {
  deliver_round = deliver_round;
  packet_round_override = none;
  run_id_override = none;
  row_override = none;
  payload_override = none;
  extra_deliver_rounds = [];
  extra_copies = [];
}

unfoldable pub random_network_fault_model : (Packet → ℕ → Rolls) → NetworkFaultModel
random_network_fault_model rolls packet dst =
    let roll = rolls packet dst in
    if roll.lost
    then plain_delivery none
    else if roll.delayed
    then plain_delivery (some (packet.round_id + 1))
    else record (plain_delivery (some packet.round_id)) {
      row_override = roll.corrupted;
      extra_deliver_rounds = if roll.duplicated then packet.round_id ∷ [] else [];
    }
