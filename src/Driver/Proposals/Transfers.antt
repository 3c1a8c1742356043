-- ===== src/Driver/Proposals/Transfers.antt =====
-- submit, wait_done and propose of ProposalQueue in ssr_dataplane.py.
use syncons.Base.{
  ℕ, suc, ◌+◌, ◌-◌, ◌*◌, ◌/◌, ◌%◌, ◌^◌, bit_and, Bool, true, false, not, Option, none, some, List,
  [], ◌∷◌, ltb, ◌==◌, length, count,
}
use syncons.Bitmap.{has_bit}
use syncons.Wire.{Bytes}
use syncons.Driver.{
  validate_u32, validate_u64, write_dword, poll_register, reg_proposal_status,
  reg_proposal_dma_addr_lo, reg_proposal_dma_addr_hi, reg_proposal_dma_stride_lo,
  reg_proposal_dma_stride_hi, reg_proposal_dma_count, reg_proposal_dma_control, Region, Platform,
  state_error, hardware_error, value_error, attribute_error, Done, done, ◌>>=◌, ◌>>◌, pure, gets,
  raise_if, or_raise,
}
use syncons.Driver.Proposals.{
  ProposalBatchResult, proposal_running, proposal_done, proposal_error, proposal_start,
  ProposalCall, require_open_proposals, read_proposal_status, read_active_index, read_entry_counter,
  read_dma_status,
}

module _ {Hw : Type 0} (p : Platform Hw) where
  unfoldable pub submit : ℕ → ℕ → ℕ → ProposalCall Hw Done
  unfolding require_open_proposals validate_u64 validate_u32 read_proposal_status
  submit dma_addr count stride = do
    require_open_proposals p
    validate_u64 dma_addr
    validate_u32 count
    validate_u64 stride
    raise_if (count == 0) value_error
    own ← gets (λ s. s.slot_len)
    slot_len ← or_raise own attribute_error
    raise_if (not (stride == slot_len)) value_error
    status ← read_proposal_status p
    raise_if (has_bit status proposal_running) state_error
    write_dword p reg_proposal_dma_addr_lo (dma_addr % 2 ^ 32)
    write_dword p reg_proposal_dma_addr_hi (dma_addr / 2 ^ 32 % 2 ^ 32)
    write_dword p reg_proposal_dma_stride_lo (stride % 2 ^ 32)
    write_dword p reg_proposal_dma_stride_hi (stride / 2 ^ 32 % 2 ^ 32)
    write_dword p reg_proposal_dma_count count
    write_dword p reg_proposal_dma_control proposal_start

  -- The second SSRTimeoutError only has another text; `interval_ns` is not used.
  unfoldable pub wait_done : ℕ → ProposalCall Hw ℕ
  unfolding require_open_proposals poll_register
  wait_done timeout_polls = do
    require_open_proposals p
    raw ← poll_register p reg_proposal_status (λ x. has_bit x proposal_done) timeout_polls
    let status = bit_and raw 7
    raise_if (has_bit status proposal_error) hardware_error
    pure status

  -- The loop over the records from number `i` on.
  unfoldable pub store_records : Region → ℕ → ℕ → List Bytes → ProposalCall Hw Done
  store_records region slot_len i [] = pure done
  store_records region slot_len i (rec ∷ records) =
      raise_if (not (length rec == slot_len)) value_error >> λ s hw.
      store_records region slot_len (suc i) records s (p.store region (i * slot_len) rec hw)

  -- The end of `propose`: the counters after the transfer.
  unfoldable pub tally : ℕ → ℕ → ProposalCall Hw ProposalBatchResult
  unfolding read_entry_counter read_active_index read_dma_status
  tally requested entry_before = do
    entry_after ← read_entry_counter p
    active_index ← read_active_index p
    dma ← read_dma_status p
    raise_if (not (entry_after == entry_before + requested)) hardware_error
    pure (record {
      requested_count = requested;
      completed_count = entry_after - entry_before;
      entry_counter_before = entry_before;
      entry_counter_after = entry_after;
      last_dma_status_valid = dma.1.1;
    })

  -- What `propose` does after its submit, where it is to wait.
  unfoldable pub confirm : ℕ → ℕ → ℕ → ProposalCall Hw ProposalBatchResult
  unfolding wait_done tally
  confirm requested entry_before timeout_polls =
      wait_done timeout_polls >> tally requested entry_before

  -- The tests of `propose` before its loop, and what it reads of the opened queue.
  unfoldable pub admit : List Bytes → ProposalCall Hw (ℕ × Region)
  unfolding require_open_proposals
  admit records = do
    require_open_proposals p
    raise_if (length records == 0) value_error
    slots ← gets (λ s. s.region_slots)
    raise_if (ltb slots (length records)) value_error
    own ← gets (λ s. s.slot_len)
    slot_len ← or_raise own attribute_error
    held ← gets (λ s. s.region)
    region ← or_raise held attribute_error
    pure (slot_len, region)

  -- What follows: the loop, the submit and the wait for it.
  unfoldable pub transfer :
      List Bytes → Bool → ℕ → ℕ × Region → ProposalCall Hw (Option ProposalBatchResult)
  unfolding store_records read_entry_counter submit confirm
  transfer records wait timeout_polls (slot_len, region) = do
    store_records region slot_len 0 records
    entry_before ← read_entry_counter p
    submit region.address (length records / slot_len) slot_len
    elim wait [
      | false ↦ pure none
      | true ↦ confirm (length records) entry_before timeout_polls >>= λ result. pure (some result)
    ]

  unfoldable pub propose : List Bytes → Bool → ℕ → ProposalCall Hw (Option ProposalBatchResult)
  unfolding admit transfer
  propose records wait timeout_polls = admit records >>= transfer records wait timeout_polls
