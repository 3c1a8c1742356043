-- ===== src/Driver/Commits/Queue.antt =====
-- The methods of CommitQueue in ssr_dataplane.py but for its loops.
use syncons.Base.{
  ℕ, ◌*◌, ◌/◌, ◌%◌, ◌^◌, bit_and, Bool, true, false, not, ◌||◌, none, some, [], ◌∷◌, ◌++◌, ◌==◌,
}
use syncons.Driver.{
  read_dword, write_dword, alloc_dma_region, commit_magic, commit_version, reg_commit_magic,
  reg_commit_version, reg_commit_control, reg_commit_stride_lo, reg_commit_stride_hi,
  reg_commit_active_buffer, reg_commit_buf_slot_len, Platform, state_error, runtime_error,
  value_error, assertion_error, name_error, Done, done, ◌>>=◌, ◌>>◌, pure, raise, gets, modify,
  raise_if, or_raise,
}
use syncons.Driver.Commits.{
  CommitBufferState, commit_start, commit_stop, Place, first, second, blank_buffer, CommitCall,
  configure_buffer, read_buffer_status, arm_buffer, clear_buffer,
}

module _ {Hw : Type 0} (p : Platform Hw) where
  unfoldable pub require_open_commits : CommitCall Hw Done
  require_open_commits q = raise_if (not q.opened) state_error q

  unfoldable pub commit_slot_len : CommitCall Hw ℕ
  unfolding require_open_commits
  commit_slot_len = do
    require_open_commits
    width ← gets (λ q. q.slot_len)
    or_raise width assertion_error

  -- The body of the loop over the buffers in `open`.
  unfoldable pub open_buffer : Bool → ℕ → ℕ → Place → CommitCall Hw Done
  unfolding alloc_dma_region configure_buffer
  open_buffer mem_pool width slots place = do
    region ← alloc_dma_region p mem_pool (width * slots) 0
    configure_buffer p place region slots width

  -- The first part of `open`: its tests, and the length of a slot.
  unfoldable pub identify_commits : ℕ → CommitCall Hw ℕ
  identify_commits buf_slot_count = do
    opened ← gets (λ q. q.opened)
    raise_if opened runtime_error
    raise_if (buf_slot_count == 0) value_error
    magic ← read_dword p reg_commit_magic
    version ← read_dword p reg_commit_version
    raise_if (not (magic == commit_magic) || not (version == commit_version)) runtime_error
    width ← read_dword p reg_commit_buf_slot_len
    modify (λ q. record q { slot_len = some width })
    raise_if (width == 0) runtime_error
    modify (λ q. record q { slot_count = buf_slot_count })
    pure width

  -- The second part: its writes, the buffers and the flag.
  unfoldable pub open_buffers : Bool → ℕ → ℕ → CommitCall Hw Done
  unfolding open_buffer
  open_buffers mem_pool buf_slot_count width = do
    write_dword p reg_commit_stride_lo (width % 2 ^ 32)
    write_dword p reg_commit_stride_hi (width / 2 ^ 32 % 2 ^ 32)
    open_buffer mem_pool width buf_slot_count first
    open_buffer mem_pool width buf_slot_count second
    modify (λ q. record q { opened = true })

  unfoldable pub open_commit_queue : Bool → ℕ → CommitCall Hw Done
  unfolding identify_commits open_buffers
  open_commit_queue mem_pool buf_slot_count =
      identify_commits buf_slot_count >>= open_buffers mem_pool buf_slot_count

  unfoldable pub start_commits : CommitCall Hw Done
  unfolding require_open_commits clear_buffer arm_buffer
  start_commits = do
    require_open_commits
    running ← gets (λ q. q.running)
    raise_if running runtime_error
    clear_buffer p first
    arm_buffer p first
    clear_buffer p second
    arm_buffer p second
    write_dword p reg_commit_control commit_start
    modify (λ q. record q { run_error = none; running = true })

  unfoldable pub stop_commits : CommitCall Hw Done
  stop_commits = do
    running ← gets (λ q. q.running)
    elim running [
      | false ↦ pure done
      | true ↦
          write_dword p reg_commit_control commit_stop
          >> modify (λ q. record q { running = false; completed = q.completed ++ none ∷ [] })
    ]

  unfoldable pub close_commit_queue : CommitCall Hw Done
  unfolding require_open_commits stop_commits
  close_commit_queue = do
    require_open_commits
    stop_commits
    modify (λ q. record q {
      buffer0 = blank_buffer q.buffer0;
      buffer1 = blank_buffer q.buffer1;
      opened = false;
      slot_len = none;
      slot_count = 0;
    })

  unfoldable pub commits_on_parent_reset : CommitCall Hw Done
  commits_on_parent_reset = modify (λ q. record q {
    buffer0 = blank_buffer q.buffer0;
    buffer1 = blank_buffer q.buffer1;
    opened = false;
    running = false;
    slot_len = none;
    slot_count = 0;
  })

  -- The class CommitStatus that the method constructs is not defined.
  unfoldable pub read_global_status : CommitCall Hw ℕ
  read_global_status = raise name_error

  unfoldable pub read_active_buffer : CommitCall Hw ℕ
  read_active_buffer = read_dword p reg_commit_active_buffer >>= λ raw. pure (bit_and raw 1)

  unfoldable pub diagnose_commits :
      CommitCall Hw (ℕ × (ℕ × (CommitBufferState × CommitBufferState)))
  unfolding read_global_status read_active_buffer read_buffer_status
  diagnose_commits = do
    global ← read_global_status
    active ← read_active_buffer
    status0 ← read_buffer_status p first
    status1 ← read_buffer_status p second
    pure (global, (active, (status0, status1)))
