-- ===== src/Driver/Consensus.antt =====
-- ConsensusCore of ssr_dataplane.py, which keeps no state of its own: `S` is any.
use syncons.Base.{ℕ, Bool, true, false, not, ◌||◌, if◌then◌else◌, ◌==◌}
use syncons.Bitmap.{has_bit}
use syncons.Driver.{
  validate_u32, read_dword, write_dword, poll_register, reg_consensus_halt,
  reg_consensus_global_enable, reg_consensus_run_id, reg_consensus_membership,
  reg_consensus_activate, reg_consensus_reboot, Platform, timeout_error, hardware_error, ok, err,
  waits, Done, done, Left, Call, ◌>>=◌, ◌>>◌, pure, raise_if,
}

-- What `_diagnose` reports.
pub record ConsensusReport : Type 0 where
  pub enabled : Bool
  pub run_id : ℕ
  pub membership : ℕ
  pub activate : Bool
  pub halt : Bool

-- `try … return True, except SSRTimeoutError: return False`
unfoldable pub no_timeout : {Hw S : Type 0} → Left Hw S ℕ → Left Hw S Bool
no_timeout (ok _, left) = (ok true, left)
no_timeout (err timeout_error, left) = (ok false, left)
no_timeout (err e, left) = (err e, left)
no_timeout (waits, left) = (waits, left)

module _ {Hw : Type 0} (p : Platform Hw) {S : Type 0} where
  -- `bool(int(await self.rb.read_dword(addr)) & 0x1)`
  abbrev pub read_flag : ℕ → Call Hw S Bool
  read_flag addr = read_dword p addr >>= λ raw. pure (has_bit raw 0)

  unfoldable pub set_enabled : Bool → Call Hw S Done
  set_enabled on = write_dword p reg_consensus_global_enable (if on then 1 else 0)

  unfoldable pub is_enabled : Call Hw S Bool
  is_enabled = read_flag reg_consensus_global_enable

  unfoldable pub read_run_id : Call Hw S ℕ
  read_run_id = read_dword p reg_consensus_run_id

  unfoldable pub read_activate : Call Hw S Bool
  read_activate = read_flag reg_consensus_activate

  unfoldable pub read_halt : Call Hw S Bool
  read_halt = read_flag reg_consensus_halt

  unfoldable pub install_config : ℕ → ℕ → Call Hw S Done
  unfolding validate_u32
  install_config run_id membership = do
    validate_u32 run_id
    validate_u32 membership
    write_dword p reg_consensus_run_id run_id
    write_dword p reg_consensus_membership membership
    write_dword p reg_consensus_activate 1

  unfoldable pub check_config : ℕ → ℕ → Call Hw S Done
  unfolding read_run_id
  check_config run_id membership = do
    actual_run_id ← read_run_id
    actual_membership ← read_dword p reg_consensus_membership
    raise_if (not (actual_run_id == run_id) || not (actual_membership == membership)) hardware_error

  unfoldable pub activate_config : ℕ → ℕ → Bool → Call Hw S Done
  unfolding install_config check_config
  activate_config run_id membership verify = do
    install_config run_id membership
    elim verify [ true ↦ check_config run_id membership | false ↦ pure done ]
    write_dword p reg_consensus_activate 1

  unfoldable pub deactivate : Call Hw S Done
  deactivate = write_dword p reg_consensus_activate 0

  unfoldable pub reboot_core : Call Hw S Done
  reboot_core = write_dword p reg_consensus_reboot 1 >> write_dword p reg_consensus_reboot 0

  unfoldable pub wait_halt : ℕ → Call Hw S Bool
  unfolding poll_register no_timeout
  wait_halt timeout_polls =
      λ s hw. no_timeout (poll_register p reg_consensus_halt (λ x. has_bit x 0) timeout_polls s hw)

  unfoldable pub assert_not_halted : Call Hw S Done
  unfolding read_halt
  assert_not_halted = read_halt >>= λ halted. raise_if halted hardware_error

  unfoldable pub diagnose_consensus : Call Hw S ConsensusReport
  unfolding is_enabled read_run_id read_activate read_halt
  diagnose_consensus = do
    on ← is_enabled
    run ← read_run_id
    members ← read_dword p reg_consensus_membership
    active ← read_activate
    halted ← read_halt
    pure (record {
      enabled = on;
      run_id = run;
      membership = members;
      activate = active;
      halt = halted;
    })
