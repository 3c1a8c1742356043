-- ===== src/Driver/Device/Lifecycle.antt =====
-- The states of SSRDevice in ssr_dataplane.py that a program can reach through its methods and
-- those of its queues, each of which may raise and be called again.
use syncons.Base.{
  ℕ, ◌≡◌, refl, subst, inl, inr, Bool, true, false, Option, none, some, List, [], ◌∷◌, arith,
  Option-cases,
}
use syncons.Driver.{Platform, Done, done, ◌>>=◌, ◌>>◌, pure, gets, modify}
use syncons.Driver.Commits.{
  buffer_regs, new_commit_buffer, CommitQueue, new_commit_queue, CommitCall,
}
use syncons.Driver.Commits.Queue.{
  open_commit_queue, start_commits, stop_commits, close_commit_queue,
}
use syncons.Driver.Commits.Opening.{
  IsStuck, open_commit_queue-Fails, start_commits-Keeps, stop_commits-Keeps,
  close_commit_queue-Keeps, run_commits-Keeps, recv-Keeps,
}
use syncons.Driver.Proposals.Transfers.{propose}
use syncons.Driver.Proposals.{ProposalCall, open_proposal_queue, close_proposal_queue}
use syncons.Driver.Commits.Running.{run_commits, recv}
use syncons.Wire.{Bytes}
use syncons.Driver.Outcomes.{is_ok, Keeps, Fails, keep_then, fail_later, fail_first}
use syncons.Driver.Device.{
  SsrDeviceState, uninitialized, probed, opened_state, running_state, SsrDevice, new_device,
  ParentDriver, DeviceCall, on_proposal, on_commit, Mac, require_state, write_common, probe,
  open_device, reset_device, start_device, stop_device, close_device, remove_device,
  configure_replica, write_mac_address,
}

-- The calls of a program.
pub data DeviceOp : Type 0 where
  probe_op : Option ParentDriver → DeviceOp
  open_op reset_op start_op stop_op close_op remove_op : DeviceOp
  configure_op : ℕ → ℕ → ℕ → ℕ → DeviceOp
  mac_op : ℕ → Mac → DeviceOp
  commit_open_op : ℕ → DeviceOp
  commit_start_op commit_stop_op commit_close_op commit_recv_op : DeviceOp
  commit_run_op proposal_open_op : ℕ → DeviceOp
  proposal_close_op : DeviceOp
  propose_op : List Bytes → Bool → ℕ → DeviceOp

module _ {Hw : Type 0} (p : Platform Hw) where
  unfoldable pub perform : DeviceOp → DeviceCall Hw Done
  perform (probe_op driver) = probe p driver
  perform open_op = open_device p
  perform reset_op = reset_device p
  perform start_op = start_device p
  perform stop_op = stop_device p
  perform close_op = close_device p
  perform remove_op = remove_device p
  perform (configure_op id num len eth) = configure_replica p id num len eth
  perform (mac_op index mac) = write_mac_address p index mac
  perform (commit_open_op slots) =
      gets (λ s. s.mem_pool) >>= λ bound. on_commit (open_commit_queue p bound slots)
  perform commit_start_op = on_commit (start_commits p)
  perform commit_stop_op = on_commit (stop_commits p)
  perform commit_close_op = on_commit (close_commit_queue p)
  perform commit_recv_op = on_commit (recv p) >> pure done
  perform (commit_run_op passes) = on_commit (run_commits p passes)
  perform (proposal_open_op slots) =
      gets (λ s. s.mem_pool) >>= λ bound. on_proposal (open_proposal_queue p bound slots)
  perform proposal_close_op = on_proposal (close_proposal_queue p)
  perform (propose_op records wait polls) = on_proposal (propose p records wait polls) >> pure done

  -- What the calls leave, if the program goes on after those that raise.
  unfoldable pub perform_all : List DeviceOp → SsrDevice → Hw → SsrDevice × Hw
  unfolding perform
  perform_all [] s hw = (s, hw)
  perform_all (op ∷ ops) s hw = let (_, (s', hw')) = perform op s hw in perform_all ops s' hw'

abbrev pub is_idle : SsrDeviceState → Bool
is_idle uninitialized = true
is_idle probed = true
is_idle opened_state = false
is_idle running_state = false

-- Whether the device has a commit queue that is open.
abbrev pub is_open_commit : SsrDevice → Bool
is_open_commit s = elim s.commit [ none ↦ false | some q ↦ q.opened ]

abbrev IsStuckIf : Option CommitQueue → Type 0
IsStuckIf none = Unit
IsStuckIf (some q) = IsStuck q

-- The device is idle, and its commit queue, if it has one, is closed for good.
abbrev IsIdle : SsrDevice → Type 0
IsIdle s = (is_idle s.state ≡ true) × IsStuckIf s.commit

module _ {Hw : Type 0} where
  on_commit-Keeps :
      {A : Type 0} (call : CommitCall Hw A) → Keeps IsStuck call → Keeps IsIdle (on_commit call)
  unfolding on_commit
  on_commit-Keeps call k s hw (h, stuck) = elim (Option-cases s.commit) [
    | inl e ↦ rw e (h, subst IsStuckIf e stuck)
    | inr (q, e) ↦ rw e (h, k q hw (subst IsStuckIf e stuck))
  ]

  on_commit-Fails : (call : CommitCall Hw Done) → Fails IsStuck call → Fails IsIdle (on_commit call)
  unfolding on_commit
  on_commit-Fails call k s hw (h, stuck) = elim (Option-cases s.commit) [
    | inl e ↦ rw e (refl, (h, subst IsStuckIf e stuck))
    | inr (q, e) ↦
        let (failed, still) = k q hw (subst IsStuckIf e stuck) in rw e (failed, (h, still))
  ]

  on_proposal-Keeps : {A : Type 0} (call : ProposalCall Hw A) → Keeps IsIdle (on_proposal call)
  unfolding on_proposal
  on_proposal-Keeps call s hw h = elim (Option-cases s.proposal) [
    | inl e ↦ rw e h
    | inr (q, e) ↦ rw e h
  ]

module _ {Hw : Type 0} (p : Platform Hw) where
  probe-Keeps : (driver : Option ParentDriver) → Keeps IsIdle (probe p driver)
  unfolding probe require_state new_commit_queue new_commit_buffer buffer_regs
  probe-Keeps driver s hw (h, stuck) = ground arith

  open_device-Fails : Fails IsIdle (open_device p)
  unfolding open_device
  open_device-Fails =
      let last : DeviceCall Hw Done = modify (λ s. record s { state = opened_state }) in
      let commits : Bool → DeviceCall Hw Done = λ bound. on_commit (open_commit_queue p bound 16) in
      let both : Bool → DeviceCall Hw Done =
        λ bound. on_proposal (open_proposal_queue p bound 8) >> (commits bound >> last) in
      fail_later IsIdle (require_state p (probed ∷ [])) (λ _. gets (λ s. s.mem_pool) >>= both)
        (λ s hw h. h)
        (λ _ s.
          fail_later IsIdle (on_proposal (open_proposal_queue p s.mem_pool 8))
            (λ _. commits s.mem_pool >> last)
            (on_proposal-Keeps (open_proposal_queue p s.mem_pool 8))
            (λ _.
              fail_first IsIdle (commits s.mem_pool) (λ _. last)
                (on_commit-Fails (open_commit_queue p s.mem_pool 16)
                  (open_commit_queue-Fails p s.mem_pool 16)))
            s)

  start_device-Keeps : Keeps IsIdle (start_device p)
  unfolding start_device require_state
  start_device-Keeps s hw h = ground (arith, h)

  stop_device-Keeps : Keeps IsIdle (stop_device p)
  unfolding stop_device require_state
  stop_device-Keeps s hw h = ground (arith, h)

  perform-Keeps : (op : DeviceOp) → Keeps IsIdle (perform p op)
  unfolding perform reset_device close_device remove_device configure_replica write_mac_address
      write_common
  perform-Keeps (probe_op driver) = probe-Keeps driver
  perform-Keeps open_op = λ s hw h. (open_device-Fails s hw h).1
  perform-Keeps reset_op = λ s hw h. ground (arith, h)
  perform-Keeps start_op = start_device-Keeps
  perform-Keeps stop_op = stop_device-Keeps
  perform-Keeps close_op = λ s hw h. ground (arith, h)
  perform-Keeps remove_op = λ s hw h. ground (arith, h)
  perform-Keeps (configure_op id num len eth) = λ s hw h. ground (arith, h)
  perform-Keeps (mac_op index mac) = λ s hw h. ground (arith, h)
  perform-Keeps (commit_open_op slots) = λ s hw h.
      (on_commit-Fails (open_commit_queue p s.mem_pool slots)
        (open_commit_queue-Fails p s.mem_pool slots) s hw h).1
  perform-Keeps commit_start_op = on_commit-Keeps (start_commits p) (start_commits-Keeps p)
  perform-Keeps commit_stop_op = on_commit-Keeps (stop_commits p) (stop_commits-Keeps p)
  perform-Keeps commit_close_op =
      on_commit-Keeps (close_commit_queue p) (close_commit_queue-Keeps p)
  perform-Keeps commit_recv_op =
      keep_then IsIdle (on_commit (recv p)) (λ _. pure done)
        (on_commit-Keeps (recv p) (recv-Keeps p)) (λ _ s hw h. h)
  perform-Keeps (commit_run_op passes) =
      on_commit-Keeps (run_commits p passes) (run_commits-Keeps p passes)
  perform-Keeps (proposal_open_op slots) =
      λ s. on_proposal-Keeps (open_proposal_queue p s.mem_pool slots) s
  perform-Keeps proposal_close_op = on_proposal-Keeps (close_proposal_queue p)
  perform-Keeps (propose_op records wait polls) =
      keep_then IsIdle (on_proposal (propose p records wait polls)) (λ _. pure done)
        (on_proposal-Keeps (propose p records wait polls)) (λ _ s hw h. h)

  new_device-IsIdle : IsIdle new_device
  unfolding new_device
  new_device-IsIdle = (refl, tt)

  perform_all-IsIdle :
      (ops : List DeviceOp) (s : SsrDevice) (hw : Hw) → IsIdle s → IsIdle (perform_all p ops s hw).0
  unfolding perform_all
  perform_all-IsIdle [] s hw h = h
  perform_all-IsIdle (op ∷ ops) s hw h =
      let left = perform p op s hw in
      perform_all-IsIdle ops left.1.0 left.1.1 (perform-Keeps op s hw h)

  -- Whatever the hardware answers and whatever calls of DeviceOp, which are methods of the device
  -- and its queues, a program makes of a new device, the device is unopened afterwards, its commit
  -- queue too, and `open` does not succeed.
  pub perform_all_unopened :
      (ops : List DeviceOp) (hw : Hw)
      → (is_idle (perform_all p ops new_device hw).0.state ≡ true)
        × (is_open_commit (perform_all p ops new_device hw).0 ≡ false)
        × (is_ok
              (open_device p
                (perform_all p ops new_device hw).0
                (perform_all p ops new_device hw).1).0
            ≡ false)
  perform_all_unopened ops hw =
      let h = perform_all-IsIdle ops new_device hw new_device-IsIdle in
      (
        h.0,
        unopened (perform_all p ops new_device hw).0 h,
        (open_device-Fails _ (perform_all p ops new_device hw).1 h).0,
      )
    where
      unopened : (s : SsrDevice) → IsIdle s → is_open_commit s ≡ false
      unopened s h = elim (Option-cases s.commit) [
        | inl e ↦ rw e refl
        | inr (q, e) ↦ rw e (subst IsStuckIf e h.1).0
      ]
