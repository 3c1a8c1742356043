-- ===== src/Driver/Proposals.antt =====
-- ProposalQueue of ssr_dataplane.py, with its data structures.
pub mod Transfers
pub mod Delivery
use syncons.Base.{
  ℕ, ◌*◌, ◌^◌, bit_and, bit_or, Bool, true, false, not, ◌||◌, Option, none, some, ◌==◌,
  if◌then◌else◌, is_none,
}
use syncons.Bitmap.{has_bit}
use syncons.Wire.{Bytes}
use syncons.Driver.{
  read_dword, write_dword, alloc_dma_region, proposal_magic, proposal_version, reg_proposal_magic,
  reg_proposal_version, reg_proposal_slot_bytes, reg_proposal_status, reg_proposal_entry_counter_lo,
  reg_proposal_entry_counter_hi, reg_proposal_dma_control, reg_proposal_dma_active_index,
  reg_proposal_dma_state, reg_proposal_dma_status_tag, reg_proposal_dma_status_error,
  reg_proposal_dma_status_valid, Region, Platform, state_error, runtime_error, value_error,
  assertion_error, Done, Call, ◌>>=◌, ◌>>◌, pure, gets, modify, raise_if, or_raise,
}

pub data ProposalHardwareState : Type 0 where
  idle issue_dma wait_dma commit_slot batch_done : ProposalHardwareState

pub record ProposalBatchResult : Type 0 where
  pub requested_count : ℕ
  pub completed_count : ℕ
  pub entry_counter_before : ℕ
  pub entry_counter_after : ℕ
  pub last_dma_status_valid : Bool

-- `slot_len` and `region` are `none` where the attribute is not set or is None.
pub record ProposalQueue : Type 0 where
  pub opened : Bool
  pub slot_len : Option ℕ
  pub region : Option Region
  pub region_slots : ℕ

unfoldable pub new_proposal_queue : ProposalQueue
new_proposal_queue = record { opened = false; slot_len = none; region = none; region_slots = 0 }

-- The positions of RUNNING, DONE and ERROR in ProposalStatus.
abbrev pub proposal_running : ℕ
proposal_running = 0

abbrev pub proposal_done : ℕ
proposal_done = 1

abbrev pub proposal_error : ℕ
proposal_error = 2

-- `START` and `CLEAR_DONE | CLEAR_ERROR` of ProposalControl.
abbrev pub proposal_start : ℕ
proposal_start = 1

abbrev pub proposal_clear : ℕ
proposal_clear = bit_or 2 4

unfoldable pub hardware_state : ℕ → Option ProposalHardwareState
hardware_state raw =
    if raw == 0
    then some idle
    else if raw == 1
    then some issue_dma
    else if raw == 2
    then some wait_dma
    else if raw == 3
    then some commit_slot
    else if raw == 4
    then some batch_done
    else none

-- What `_diagnose` reports, and whether it has a hint to give.
pub record Diagnosis : Type 0 where
  pub hw_state : ProposalHardwareState
  pub status : ℕ
  pub active_index : ℕ
  pub dma_status : ℕ × (ℕ × Bool)
  pub hint : Bool

abbrev pub has_hint : ProposalHardwareState → Bool
has_hint issue_dma = true
has_hint wait_dma = true
has_hint commit_slot = true
has_hint _ = false

abbrev pub ProposalCall : Type 0 → Type 0 → Type 0
ProposalCall Hw A = Call Hw ProposalQueue A

module _ {Hw : Type 0} (p : Platform Hw) where
  unfoldable pub require_open_proposals : ProposalCall Hw Done
  require_open_proposals s hw = raise_if (not s.opened) state_error s hw

  unfoldable pub proposal_slot_len : ProposalCall Hw ℕ
  unfolding require_open_proposals
  proposal_slot_len = do
    require_open_proposals
    slot_len ← gets (λ s. s.slot_len)
    or_raise slot_len assertion_error

  unfoldable pub proposal_capacity_slots : ProposalCall Hw ℕ
  unfolding require_open_proposals
  proposal_capacity_slots = do
    require_open_proposals
    region ← gets (λ s. s.region)
    raise_if (is_none region) assertion_error
    gets (λ s. s.region_slots)

  unfoldable pub read_slot_length : ProposalCall Hw ℕ
  read_slot_length = read_dword p reg_proposal_slot_bytes

  unfoldable pub read_proposal_status : ProposalCall Hw ℕ
  read_proposal_status = do raw ← read_dword p reg_proposal_status; pure (bit_and raw 7)

  unfoldable pub read_hw_state : ProposalCall Hw ProposalHardwareState
  unfolding hardware_state
  read_hw_state = do
    raw ← read_dword p reg_proposal_dma_state
    or_raise (hardware_state (bit_and raw 7)) runtime_error

  unfoldable pub read_active_index : ProposalCall Hw ℕ
  read_active_index = read_dword p reg_proposal_dma_active_index

  unfoldable pub read_entry_counter : ProposalCall Hw ℕ
  read_entry_counter = do
    lo ← read_dword p reg_proposal_entry_counter_lo
    hi ← read_dword p reg_proposal_entry_counter_hi
    pure (bit_or (hi * 2 ^ 32) lo)

  unfoldable pub read_dma_status : ProposalCall Hw (ℕ × (ℕ × Bool))
  read_dma_status = do
    tag ← read_dword p reg_proposal_dma_status_tag
    error ← read_dword p reg_proposal_dma_status_error
    valid ← read_dword p reg_proposal_dma_status_valid
    pure (tag, (error, not (valid == 0)))

  pub diagnose_proposals : ProposalCall Hw Diagnosis
  diagnose_proposals = do
    state ← read_hw_state
    bits ← read_proposal_status
    idx ← read_active_index
    dma ← read_dma_status
    pure (record {
      hw_state = state;
      status = bits;
      active_index = idx;
      dma_status = dma;
      hint = has_hint state;
    })

  unfoldable pub clear_flags : ProposalCall Hw Done
  clear_flags = write_dword p reg_proposal_dma_control proposal_clear

  -- `mem_pool` tells whether the device has bound its memory pool.
  unfoldable pub open_proposal_queue : Bool → ℕ → ProposalCall Hw Done
  unfolding read_slot_length clear_flags alloc_dma_region
  open_proposal_queue mem_pool capacity_slots = do
    opened ← gets (λ s. s.opened)
    raise_if opened runtime_error
    raise_if (capacity_slots == 0) value_error
    magic ← read_dword p reg_proposal_magic
    version ← read_dword p reg_proposal_version
    raise_if (not (magic == proposal_magic) || not (version == proposal_version)) runtime_error
    slot_len ← read_slot_length
    modify (λ s. record s { slot_len = some slot_len })
    raise_if (slot_len == 0) runtime_error
    modify (λ s. record s { region_slots = capacity_slots })
    region ← alloc_dma_region p mem_pool (slot_len * capacity_slots) 0
    modify (λ s. record s { region = some region })
    clear_flags
    modify (λ s. record s { opened = true })

  unfoldable pub close_proposal_queue : ProposalCall Hw Done
  unfolding require_open_proposals
  close_proposal_queue = do
    require_open_proposals
    modify (λ s. record s { opened = false; region = none; region_slots = 0 })

  unfoldable pub proposals_on_parent_reset : ProposalCall Hw Done
  proposals_on_parent_reset =
      modify (λ s. record s { opened = false; region = none; region_slots = 0 })
