-- ===== src/Driver/Device.antt =====
-- SSRDevice of ssr_dataplane.py. Arguments are natural numbers, so the tests below zero fall away.
pub mod Config
pub mod MacTable
pub mod Lifecycle
use syncons.Base.{
  ℕ, ◌+◌, ◌*◌, ◌/◌, ◌%◌, ◌^◌, bit_or, Bool, true, false, not, ◌||◌, Option, none, some, List, [],
  ◌∷◌, ltb, leb, ◌==◌, if◌then◌else◌, length,
}
use syncons.Wire.{Bytes}
use syncons.Driver.{
  read_dword, write_dword, ssr_rb_type, ssr_rb_version, common_reg_config_replica_id,
  common_reg_config_replica_num, common_reg_config_round_len_ns, common_reg_config_eth_type,
  common_reg_config_mactable_addr_lo, common_reg_config_mactable_addr_hi, common_mac_entry_stride,
  common_max_replicas, Platform, runtime_error, value_error, attribute_error, assertion_error, ok,
  err, Done, done, Call, ◌>>=◌, ◌>>◌, pure, gets, modify, raise_if, or_raise,
}
use syncons.Driver.Proposals.{ProposalQueue, new_proposal_queue, ProposalCall, open_proposal_queue}
use syncons.Driver.Commits.{CommitQueue, new_commit_queue, CommitCall}
use syncons.Driver.Commits.Queue.{open_commit_queue, start_commits, stop_commits}

pub data SsrDeviceState : Type 0 where
  uninitialized probed opened_state running_state : SsrDeviceState

-- `mem_pool` and `rb` tell whether probe has set `_mem_pool` and found the register block;
-- `commit_task`, whether the run loop of the commit queue is a task.
pub record SsrDevice : Type 0 where
  pub state : SsrDeviceState
  pub mem_pool : Bool
  pub rb : Bool
  pub proposal : Option ProposalQueue
  pub commit : Option CommitQueue
  pub consensus : Bool
  pub commit_task : Bool

unfoldable pub new_device : SsrDevice
new_device = record {
  state = uninitialized;
  mem_pool = false;
  rb = false;
  proposal = none;
  commit = none;
  consensus = false;
  commit_task = false;
}

-- What probe tests of the parent driver, if there is one.
pub record ParentDriver : Type 0 where
  pub initialized : Bool
  pub has_app_hw_regs : Bool

abbrev pub is_usable : Option ParentDriver → Bool
is_usable none = false
is_usable (some driver) = if driver.initialized then driver.has_app_hw_regs else false

abbrev pub state_number : SsrDeviceState → ℕ
state_number uninitialized = 0
state_number probed = 1
state_number opened_state = 2
state_number running_state = 3

abbrev pub is_among : SsrDeviceState → List SsrDeviceState → Bool
is_among s [] = false
is_among s (t ∷ ts) = state_number s == state_number t || is_among s ts

abbrev pub DeviceCall : Type 0 → Type 0 → Type 0
DeviceCall Hw A = Call Hw SsrDevice A

-- A call of a queue; without one, None has no such method.
unfoldable pub on_proposal : {Hw A : Type 0} → ProposalCall Hw A → DeviceCall Hw A
on_proposal call s hw = elim s.proposal [
  | none ↦ (err attribute_error, (s, hw))
  | some q ↦ let (r, (q', hw')) = call q hw in (r, (record s { proposal = some q' }, hw'))
]

unfoldable pub on_commit : {Hw A : Type 0} → CommitCall Hw A → DeviceCall Hw A
on_commit call s hw = elim s.commit [
  | none ↦ (err attribute_error, (s, hw))
  | some q ↦ let (r, (q', hw')) = call q hw in (r, (record s { commit = some q' }, hw'))
]

-- A MAC address as an int, or as bytes or a list or tuple of ints.
pub data Mac : Type 0 where
  of_int : ℕ → Mac
  of_bytes : Bytes → Mac

-- `int.from_bytes(raw, byteorder="big")`, after what the bytes so far have given.
abbrev pub from_bytes_big : ℕ → Bytes → ℕ
from_bytes_big acc [] = acc
from_bytes_big acc (b ∷ bytes) = from_bytes_big (acc * 256 + b) bytes

-- `bytes(mac)` raises for a number above 255.
abbrev pub are_bytes : List ℕ → Bool
are_bytes [] = true
are_bytes (b ∷ bytes) = if ltb b 256 then are_bytes bytes else false

-- `none` is the ValueError.
unfoldable pub mac_to_int : Mac → Option ℕ
mac_to_int (of_int mac) = if ltb 0xffff_ffff_ffff mac then none else some mac
mac_to_int (of_bytes raw) =
    if not (are_bytes raw)
    then none
    else if not (length raw == 6)
    then none
    else some (from_bytes_big 0 raw)

module _ {Hw : Type 0} (p : Platform Hw) where
  unfoldable pub require_state : List SsrDeviceState → DeviceCall Hw Done
  require_state allowed s = raise_if (not (is_among s.state allowed)) runtime_error s

  -- `self._rb.write_dword(…)`: without a block the attribute or its method is missing.
  unfoldable pub write_common : ℕ → ℕ → DeviceCall Hw Done
  write_common addr value s = (raise_if (not s.rb) attribute_error >> write_dword p addr value) s

  unfoldable pub read_common : ℕ → DeviceCall Hw ℕ
  read_common addr s = (raise_if (not s.rb) attribute_error >> read_dword p addr) s

  unfoldable pub the_proposal : DeviceCall Hw ProposalQueue
  the_proposal s = or_raise s.proposal runtime_error s

  unfoldable pub the_commit : DeviceCall Hw CommitQueue
  the_commit s = or_raise s.commit runtime_error s

  unfoldable pub the_consensus : DeviceCall Hw Done
  the_consensus s = raise_if (not s.consensus) runtime_error s

  unfoldable pub probe : Option ParentDriver → DeviceCall Hw Done
  unfolding require_state new_proposal_queue new_commit_queue
  probe mqnic_driver = do
    require_state (uninitialized ∷ [])
    raise_if (not (is_usable mqnic_driver)) assertion_error
    modify (λ s. record s { mem_pool = true })
    (λ s hw. (ok done, (s, p.enumerate_reg_blocks hw)))
    found ← (λ s hw. (ok (p.find ssr_rb_type ssr_rb_version hw), (s, hw)))
    modify (λ s. record s { rb = found })
    raise_if (not found) runtime_error
    modify (λ s. record s { proposal = some new_proposal_queue })
    commit ← or_raise new_commit_queue value_error
    modify (λ s. record s { commit = some commit; consensus = true; state = probed })

  unfoldable pub open_device : DeviceCall Hw Done
  unfolding require_state on_proposal on_commit open_proposal_queue open_commit_queue
  open_device = do
    require_state (probed ∷ [])
    bound ← gets (λ s. s.mem_pool)
    on_proposal (open_proposal_queue p bound 8)
    on_commit (open_commit_queue p bound 16)
    modify (λ s. record s { state = opened_state })

  unfoldable pub reset_device : DeviceCall Hw Done
  unfolding require_state
  reset_device = do
    require_state (opened_state ∷ probed ∷ running_state ∷ uninitialized ∷ [])
    modify (λ s. record s { state = uninitialized })

  unfoldable pub start_device : DeviceCall Hw Done
  unfolding require_state on_commit start_commits
  start_device = do
    require_state (opened_state ∷ [])
    on_commit (start_commits p)
    modify (λ s. record s { commit_task = true; state = running_state })

  unfoldable pub stop_device : DeviceCall Hw Done
  unfolding require_state on_commit stop_commits
  stop_device = do
    require_state (running_state ∷ [])
    on_commit (stop_commits p)
    modify (λ s. record s { commit_task = false; state = opened_state })

  unfoldable pub close_device : DeviceCall Hw Done
  unfolding require_state
  close_device = do require_state (opened_state ∷ []); modify (λ s. record s { state = probed })

  unfoldable pub remove_device : DeviceCall Hw Done
  unfolding require_state
  remove_device = do require_state (probed ∷ []); modify (λ s. record s { state = uninitialized })

  unfoldable pub configure_replica : ℕ → ℕ → ℕ → ℕ → DeviceCall Hw Done
  unfolding write_common
  configure_replica replica_id replica_num round_length_ns ethernet_type = do
    raise_if (replica_num == 0 || ltb common_max_replicas replica_num) value_error
    raise_if (leb replica_num replica_id) value_error
    raise_if (round_length_ns == 0) value_error
    write_common common_reg_config_replica_id replica_id
    write_common common_reg_config_replica_num replica_num
    write_common common_reg_config_round_len_ns round_length_ns
    write_common common_reg_config_eth_type ethernet_type

  unfoldable pub write_mac_address : ℕ → Mac → DeviceCall Hw Done
  unfolding mac_to_int write_common
  write_mac_address index mac = do
    raise_if (leb common_max_replicas index) value_error
    value ← or_raise (mac_to_int mac) value_error
    let offset = index * common_mac_entry_stride
    write_common (common_reg_config_mactable_addr_lo + offset) (value % 2 ^ 32)
    write_common (common_reg_config_mactable_addr_hi + offset) (value / 2 ^ 32 % 2 ^ 16)

  unfoldable pub read_mac_address : ℕ → DeviceCall Hw ℕ
  unfolding read_common
  read_mac_address index = do
    raise_if (leb common_max_replicas index) value_error
    let offset = index * common_mac_entry_stride
    lo ← read_common (common_reg_config_mactable_addr_lo + offset)
    hi ← read_common (common_reg_config_mactable_addr_hi + offset)
    pure (bit_or (hi % 2 ^ 16 * 2 ^ 32) lo)
