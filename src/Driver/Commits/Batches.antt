-- ===== src/Driver/Commits/Batches.antt =====
-- recv_batch of ssr_dataplane.py ends.
use syncons.Base.{
  ℕ, zero, suc, ◌+◌, ◌-◌, ◌/◌, ◌≤◌, ◌<◌, ◌≡◌, inl, inr, Bool, true, false, List, [], ◌∷◌, ◌++◌,
  arith, ltb, Bool-cases, length, length-append,
}
use syncons.Driver.{Platform, timeout_error, Result, ok, err, waits, Left, and_then}
use syncons.Driver.Commits.Running.{no_items, recv, collect, recv_batch}
use syncons.Driver.Commits.{CommitRecord, CommitQueue, CommitCall}

-- The call has ended; if it returned, then with `count` records.
abbrev pub IsBatch : ℕ → Result (List CommitRecord) → Type 0
IsBatch n (ok out) = length out ≡ n
IsBatch n (err _) = Unit
IsBatch n waits = true ≡ false

abbrev is_waiting : {A : Type 0} → Result A → Bool
is_waiting (ok _) = false
is_waiting (err _) = false
is_waiting waits = true

module _ {Hw : Type 0} (p : Platform Hw) (others : CommitQueue → Hw → CommitQueue × Hw)
    (ticks : (q : CommitQueue) (hw : Hw)
      → p.sim_time hw + 100 ≤ p.sim_time (others q (p.wait_ns 100 hw)).1) where
  recv_now : (q : CommitQueue) (hw : Hw) → (recv p q hw).1.1 ≡ hw
  unfolding recv
  recv_now q hw = ground arith

  recv_ends :
      (q : CommitQueue) (hw : Hw)
      → no_items q.completed ≡ false
      → is_waiting (recv p q hw).0 ≡ false
  unfolding recv
  recv_ends q hw e = ground arith

  -- The turns of the loop, by what it tests.
  abbrev collected : ℕ → ℕ → ℕ → List CommitRecord → CommitCall Hw (List CommitRecord)
  collected n deadline turns out = collect p others n deadline turns out

  collect_full :
      (n deadline turns : ℕ) (out : List CommitRecord) (q : CommitQueue) (hw : Hw)
      → ltb (length out) n ≡ false
      → collected n deadline (suc turns) out q hw ≡ (ok out, (q, hw))
  unfolding collect
  collect_full n deadline turns out q hw full = ground arith

  collect_late :
      (n deadline turns : ℕ) (out : List CommitRecord) (q : CommitQueue) (hw : Hw)
      → ltb (length out) n ≡ true
      → ltb deadline (p.sim_time hw) ≡ true
      → collected n deadline (suc turns) out q hw ≡ (err timeout_error, (q, hw))
  unfolding collect
  collect_late n deadline turns out q hw missing late = ground arith

  collect_waits :
      (n deadline turns : ℕ) (out : List CommitRecord) (q : CommitQueue) (hw : Hw)
      → ltb (length out) n ≡ true
      → ltb deadline (p.sim_time hw) ≡ false
      → no_items q.completed ≡ true
      → collected n deadline (suc turns) out q hw
        ≡ collected n deadline turns out
            (others q (p.wait_ns 100 hw)).0
            (others q (p.wait_ns 100 hw)).1
  unfolding collect
  collect_waits n deadline turns out q hw missing early nothing = ground arith

  collect_takes :
      (n deadline turns : ℕ) (out : List CommitRecord) (q : CommitQueue) (hw : Hw)
      → ltb (length out) n ≡ true
      → ltb deadline (p.sim_time hw) ≡ false
      → no_items q.completed ≡ false
      → collected n deadline (suc turns) out q hw
        ≡ and_then (λ taken. collected n deadline turns (out ++ taken ∷ [])) (recv p q hw)
  unfolding collect
  collect_takes n deadline turns out q hw missing early some_left = ground arith

  -- The turns that are enough.
  abbrev turns_of : ℕ → ℕ → List CommitRecord → Hw → ℕ
  turns_of n deadline out hw = n - length out + (deadline + 100 - p.sim_time hw) / 100

  after_recv :
      (n deadline turns : ℕ) (out : List CommitRecord) (left : Left Hw CommitQueue CommitRecord)
      → is_waiting left.0 ≡ false
      → ((taken : CommitRecord) (q : CommitQueue)
          → IsBatch n (collected n deadline turns (out ++ taken ∷ []) q left.1.1).0)
      → IsBatch n (and_then (λ taken. collected n deadline turns (out ++ taken ∷ [])) left).0
  after_recv n deadline turns out (ok taken, (q, hw)) h k = k taken q
  after_recv n deadline turns out (err e, left) h k = tt
  after_recv n deadline turns out (waits, left) h k = absurd (ground arith)

  collect_ends :
      (n deadline turns : ℕ) (out : List CommitRecord) (q : CommitQueue) (hw : Hw)
      → length out ≤ n
      → turns_of n deadline out hw < turns
      → IsBatch n (collected n deadline turns out q hw).0
  collect_ends n deadline zero out q hw small enough = absurd (omega arith)
  collect_ends n deadline (suc turns) out q hw small enough =
      elim (Bool-cases (ltb (length out) n)) [
        | inr full ↦ rw (collect_full n deadline turns out q hw full) (ground arith)
        | inl missing ↦ elim (Bool-cases (ltb deadline (p.sim_time hw))) [
          | inl late ↦ rw (collect_late n deadline turns out q hw missing late) tt
          | inr early ↦ elim (Bool-cases (no_items q.completed)) [
            | inl nothing ↦
                let later = others q (p.wait_ns 100 hw) in
                let sooner : turns_of n deadline out later.1 < turns = ground (arith, ticks q hw) in
                rw (collect_waits n deadline turns out q hw missing early nothing)
                  (collect_ends n deadline turns out later.0 later.1 small sooner)
            | inr some_left ↦ rw (collect_takes n deadline turns out q hw missing early some_left) (
                after_recv n deadline turns out (recv p q hw) (recv_ends q hw some_left)
                  (λ taken q'. rw (recv_now q hw) (
                    collect_ends n deadline turns (out ++ taken ∷ []) q' hw
                      (ground (arith, length-append out (taken ∷ [])))
                      (ground (arith, length-append out (taken ∷ []))))))
          ]
        ]
      ]

  -- Where the time of the simulation goes on by at least 100 ns at each wait, whatever the other
  -- tasks do meanwhile, recv_batch ends within a turn for each record and each 100 ns of the
  -- timeout, and two more; if it returns, then with as many records as it was asked for.
  pub recv_batch-IsBatch :
      (turns n timeout_ns : ℕ) (q : CommitQueue) (hw : Hw)
      → n + timeout_ns / 100 + 1 < turns
      → IsBatch n (recv_batch p others turns n timeout_ns q hw).0
  unfolding recv_batch
  recv_batch-IsBatch turns n timeout_ns q hw enough =
      collect_ends n (p.sim_time hw + timeout_ns) turns [] q hw (omega arith) (omega arith)
