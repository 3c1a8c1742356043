-- ===== src/Control/Repair.antt =====
-- The choice of a repair prefix, and the repair logs of sim/control/control_plane.py.
pub mod Prefix
use syncons.Base.{
  ℕ, Bool, true, false, Option, none, some, List, [], ◌∷◌, Dict, map, filter, if◌then◌else◌, ltb,
  ◌==◌, length, tabulate, keys,
}
use syncons.Protocol.{
  CommittedRoundRecord, RepairLog, RepairSnapshot, ControlPlaneState, MembershipState, recovering,
  rejoin_pending,
}
use syncons.Protocol.Records.{with_timing}
use syncons.Control.{ControlPlane, ◌>>=◌}

unfoldable pub clone_repair_prefix : List CommittedRoundRecord → RepairLog
clone_repair_prefix committed_rounds = record {
  entries = map (λ entry. with_timing entry none none) committed_rounds;
}

-- The order of the keys `(len(committed_rounds), -node_id)`, strictly.
unfoldable pub is_better : RepairSnapshot → RepairSnapshot → Bool
is_better a b =
    if ltb (length b.committed_rounds) (length a.committed_rounds)
    then true
    else if length a.committed_rounds == length b.committed_rounds
    then ltb a.node_id b.node_id
    else false

-- `max` keeps the first of equal keys.
unfoldable pub best_of : RepairSnapshot → List RepairSnapshot → RepairSnapshot
unfolding is_better
best_of best [] = best
best_of best (s ∷ ss) = best_of (if is_better s best then s else best) ss

unfoldable pub select_repair_prefix : List RepairSnapshot → RepairLog
unfolding clone_repair_prefix best_of
select_repair_prefix [] = record { entries = [] }
select_repair_prefix (s ∷ ss) = clone_repair_prefix ((best_of s ss).committed_rounds)

abbrev pub under_repair : MembershipState → Bool
under_repair recovering = true
under_repair rejoin_pending = true
under_repair _ = false

-- The ids in recovery or waiting to rejoin.
pub repair_targets : Dict MembershipState → List ℕ
repair_targets node_states = keys (filter (λ e. under_repair e.1) node_states)

-- The new repair logs: none without targets, the old ones if no node has committed anything.
unfoldable pub rebuilt_logs : List RepairSnapshot → ControlPlaneState → Dict RepairLog
unfolding repair_targets
rebuilt_logs snapshots state =
    let targets = repair_targets state.node_states in
    let prefix = select_repair_prefix snapshots in
    if length targets == 0
    then []
    else if length prefix.entries == 0
    then state.repair_logs
    else tabulate (λ _. prefix) targets

unfoldable pub rebuild_repair_logs : List RepairSnapshot → ControlPlane → Option ControlPlane
unfolding rebuilt_logs
rebuild_repair_logs snapshots cp = do
  state ← cp.current_state
  some (record cp {
    current_state = some (record state { repair_logs = rebuilt_logs snapshots state });
  })
