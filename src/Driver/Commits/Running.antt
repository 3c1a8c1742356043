-- ===== src/Driver/Commits/Running.antt =====
-- run, recv and recv_batch of CommitQueue in ssr_dataplane.py. A pass of the run loop is one call;
-- what the other tasks of the simulation do while recv_batch waits is an argument of it.
use syncons.Base.{
  ℕ, zero, suc, ◌+◌, Bool, true, false, not, ◌||◌, Option, none, some, List, [], ◌∷◌, ◌++◌, ltb,
  is_some, length, count,
}
use syncons.Bitmap.{has_bit}
use syncons.Driver.{
  wait_ns, Platform, timeout_error, hardware_error, runtime_error, ok, err, waits, Done, done,
  ◌>>=◌, ◌>>◌, pure, raise, wait_for_others, gets, modify, raise_if,
}
use syncons.Driver.Commits.{
  CommitRecord, buffer_done, CommitQueue, Place, first, second, buffer_at, CommitCall,
  read_raw_status, read_completed_count, read_error_count, release_and_rearm, read_slot,
}

abbrev pub no_items : List (Option CommitRecord) → Bool
no_items [] = true
no_items (_ ∷ _) = false

module _ {Hw : Type 0} (p : Platform Hw) where
  -- The loop over the slots of a filled buffer, from slot `i` on.
  unfoldable pub queue_slots : Place → ℕ → ℕ → ℕ → CommitCall Hw Done
  unfolding read_slot
  queue_slots place now i zero = pure done
  queue_slots place now i (suc n) = do
    bytes ← read_slot p place i
    modify (λ q. record q {
      completed =
          q.completed
          ++ some (record {
            buffer_index = (buffer_at place q).index;
            slot_index = i;
            data_bytes = bytes;
            sim_time_ns = now;
          })
            ∷ [];
    })
    queue_slots place now (suc i) n

  -- The body of the loop over the buffers in `run`: whether the buffer was filled.
  unfoldable pub service : Place → CommitCall Hw Bool
  unfolding read_raw_status read_completed_count read_error_count queue_slots release_and_rearm
  service place = do
    raw ← read_raw_status p place
    elim (has_bit raw buffer_done) [
      | false ↦ pure false
      | true ↦ do
        n ← read_completed_count p place
        err_count ← read_error_count p place
        (λ q hw. queue_slots place (p.sim_time hw) 0 n q hw)
        release_and_rearm p place
        pure true
    ]

  -- The body of the while loop in `run`.
  unfoldable pub run_pass : CommitCall Hw Done
  unfolding service
  run_pass = do
    progressed0 ← service first
    progressed1 ← service second
    interval ← gets (λ q. q.poll_interval_ns)
    elim (progressed0 || progressed1) [ true ↦ pure done | false ↦ wait_ns p interval ]

  -- The while loop, for a number of passes, and the `except` around it.
  unfoldable pub run_loop : ℕ → CommitCall Hw Done
  unfolding run_pass
  run_loop zero q hw = (waits, (q, hw))
  run_loop (suc passes) q hw = elim q.running [
    | false ↦ (ok done, (q, hw))
    | true ↦
        let (r, (q', hw')) = run_pass q hw in
        elim r [
          | ok _ ↦ run_loop passes q' hw'
          | err e ↦ (ok done, (record q' { run_error = some e; running = false }, hw'))
          | waits ↦ (waits, (q', hw'))
        ]
  ]

  unfoldable pub run_commits : ℕ → CommitCall Hw Done
  unfolding run_loop
  run_commits passes = do
    running ← gets (λ q. q.running)
    raise_if (not running) runtime_error
    run_loop passes

  -- `await self._completed.get()`
  abbrev pub take_completed : CommitCall Hw (Option CommitRecord)
  take_completed q hw = elim q.completed [
    | [] ↦ (waits, (q, hw))
    | item ∷ rest ↦ (ok item, (record q { completed = rest }, hw))
  ]

  unfoldable pub recv : CommitCall Hw CommitRecord
  recv = do
    failed ← gets (λ q. q.run_error)
    raise_if (is_some failed) hardware_error
    running ← gets (λ q. q.running)
    raise_if (not running) runtime_error
    item ← take_completed
    later ← gets (λ q. q.run_error)
    elim item [
      | some taken ↦ pure taken
      | none ↦ raise_if (is_some later) hardware_error >> raise runtime_error
    ]

  -- The loop of `recv_batch`, for a number of turns.
  unfoldable pub collect :
      (CommitQueue → Hw → CommitQueue × Hw)
      → ℕ
      → ℕ
      → ℕ
      → List CommitRecord
      → CommitCall Hw (List CommitRecord)
  unfolding recv
  collect others count deadline zero out = wait_for_others
  collect others count deadline (suc turns) out = λ q hw. elim (ltb (length out) count) [
    | false ↦ (ok out, (q, hw))
    | true ↦ elim (ltb deadline (p.sim_time hw)) [
      | true ↦ (err timeout_error, (q, hw))
      | false ↦ elim (no_items q.completed) [
        | true ↦
            let (q', hw') = others q (p.wait_ns 100 hw) in
            collect others count deadline turns out q' hw'
        | false ↦ (recv >>= λ taken. collect others count deadline turns (out ++ taken ∷ [])) q hw
      ]
    ]
  ]

  unfoldable pub recv_batch :
      (CommitQueue → Hw → CommitQueue × Hw) → ℕ → ℕ → ℕ → CommitCall Hw (List CommitRecord)
  unfolding collect
  recv_batch others turns count timeout_ns =
      λ q hw. collect others count (p.sim_time hw + timeout_ns) turns [] q hw
