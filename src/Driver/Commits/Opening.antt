-- ===== src/Driver/Commits/Opening.antt =====
-- The commit queue of ssr_dataplane.py cannot be opened: `configure` asks for registers that the
-- table of the buffers does not have.
use syncons.Base.{
  ℕ, ◌*◌, ◌/◌, ◌%◌, ◌^◌, String, ◌≡◌, refl, inl, inr, Bool, true, false, none, arith, Option-cases,
}
use syncons.Driver.{write_dword, alloc_dma_region, Region, Platform, Done, ◌>>◌, modify}
use syncons.Driver.Outcomes.{Keeps, Fails, keep_then, fail_later, fail_first}
use syncons.Driver.Commits.Queue.{
  require_open_commits, open_buffer, identify_commits, open_buffers, open_commit_queue,
  start_commits, stop_commits, close_commit_queue,
}
use syncons.Driver.Commits.Running.{run_commits, recv}
use syncons.Driver.Commits.{
  register_of, CommitQueue, Place, first, second, buffer_at, configured, CommitCall, reg_named,
  write_buffer_reg, write_area, configure_buffer,
}

-- The queue is closed and does not run, and its first buffer has no register of the name.
abbrev pub IsStuck : CommitQueue → Type 0
IsStuck q =
    (q.opened ≡ false) × (register_of "stride_lo" q.buffer0.reg ≡ none) × (q.running ≡ false)

module _ {Hw : Type 0} (p : Platform Hw) where
  reg_named-Keeps : (place : Place) (name : String) → Keeps IsStuck (reg_named p place name)
  unfolding reg_named
  reg_named-Keeps place name s hw h =
      elim (Option-cases (register_of name (buffer_at place s).reg)) [
        | inl e ↦ ground (arith, h)
        | inr (addr, e) ↦ ground (arith, h)
      ]

  write_buffer_reg-Keeps :
      (place : Place) (name : String) (value : ℕ)
      → Keeps IsStuck (write_buffer_reg p place name value)
  unfolding write_buffer_reg
  write_buffer_reg-Keeps place name value =
      keep_then IsStuck (reg_named p place name) (λ addr. write_dword p addr value)
        (reg_named-Keeps place name) (λ addr s hw h. h)

  alloc_dma_region-Keeps :
      (bound : Bool) (size fill : ℕ) → Keeps IsStuck (alloc_dma_region p bound size fill)
  unfolding alloc_dma_region
  alloc_dma_region-Keeps bound size fill s hw h = elim (Option-cases (p.alloc_region size hw).0) [
    | inl e ↦ ground (arith, h)
    | inr (region, e) ↦ ground (arith, h)
  ]

  missing_register : (value : ℕ) → Fails IsStuck (write_buffer_reg p first "stride_lo" value)
  unfolding write_buffer_reg reg_named
  missing_register value s hw (closed, missing, still) = rw missing (refl, (closed, missing, still))

  write_area-Keeps :
      (place : Place) (held : Region) (slots : ℕ) → Keeps IsStuck (write_area p place held slots)
  unfolding write_area
  write_area-Keeps place held slots =
      let high = held.address / 2 ^ 32 % 2 ^ 32 in
      let write : String → ℕ → CommitCall Hw Done = write_buffer_reg p place in
      keep_then IsStuck (write "addr_lo" (held.address % 2 ^ 32))
        (λ _. write "addr_hi" high >> write "capacity" slots)
        (write_buffer_reg-Keeps place "addr_lo" (held.address % 2 ^ 32))
        (λ _.
          keep_then IsStuck (write "addr_hi" high) (λ _. write "capacity" slots)
            (write_buffer_reg-Keeps place "addr_hi" high)
            (λ _. write_buffer_reg-Keeps place "capacity" slots))

  configure_buffer-Fails :
      (held : Region) (slots width : ℕ) → Fails IsStuck (configure_buffer p first held slots width)
  unfolding configure_buffer
  configure_buffer-Fails held slots width =
      let write : String → ℕ → CommitCall Hw Done = write_buffer_reg p first in
      let rest : CommitCall Hw Done =
        write "stride_hi" (width / 2 ^ 32 % 2 ^ 32) >> modify (configured first held slots width) in
      fail_later IsStuck (write_area p first held slots)
        (λ _. write "stride_lo" (width % 2 ^ 32) >> rest) (write_area-Keeps first held slots)
        (λ _.
          fail_first IsStuck (write "stride_lo" (width % 2 ^ 32)) (λ _. rest)
            (missing_register (width % 2 ^ 32)))

  open_buffer-Fails :
      (mem_pool : Bool) (width slots : ℕ) → Fails IsStuck (open_buffer p mem_pool width slots first)
  unfolding open_buffer
  open_buffer-Fails mem_pool width slots =
      fail_later IsStuck (alloc_dma_region p mem_pool (width * slots) 0)
        (λ region. configure_buffer p first region slots width)
        (alloc_dma_region-Keeps mem_pool (width * slots) 0)
        (λ region. configure_buffer-Fails region slots width)

  identify_commits-Keeps : (slots : ℕ) → Keeps IsStuck (identify_commits p slots)
  unfolding identify_commits
  identify_commits-Keeps slots s hw h = ground (arith, h)

  open_buffers-Fails :
      (mem_pool : Bool) (slots width : ℕ) → Fails IsStuck (open_buffers p mem_pool slots width)
  unfolding open_buffers
  open_buffers-Fails mem_pool slots width s hw =
      fail_first IsStuck (open_buffer p mem_pool width slots first)
        (λ _. open_buffer p mem_pool width slots second >> modify (λ q. record q { opened = true }))
        (open_buffer-Fails mem_pool width slots) s _

  pub open_commit_queue-Fails :
      (mem_pool : Bool) (slots : ℕ) → Fails IsStuck (open_commit_queue p mem_pool slots)
  unfolding open_commit_queue
  open_commit_queue-Fails mem_pool slots =
      fail_later IsStuck (identify_commits p slots) (open_buffers p mem_pool slots)
        (identify_commits-Keeps slots) (open_buffers-Fails mem_pool slots)

  pub start_commits-Keeps : Keeps IsStuck (start_commits p)
  unfolding start_commits require_open_commits
  start_commits-Keeps s hw h = ground (arith, h)

  pub stop_commits-Keeps : Keeps IsStuck (stop_commits p)
  unfolding stop_commits
  stop_commits-Keeps s hw h = ground (arith, h)

  pub close_commit_queue-Keeps : Keeps IsStuck (close_commit_queue p)
  unfolding close_commit_queue require_open_commits
  close_commit_queue-Keeps s hw h = ground (arith, h)

  pub run_commits-Keeps : (passes : ℕ) → Keeps IsStuck (run_commits p passes)
  unfolding run_commits
  run_commits-Keeps passes s hw h = ground (arith, h)

  pub recv-Keeps : Keeps IsStuck (recv p)
  unfolding recv
  recv-Keeps s hw h = ground (arith, h)
