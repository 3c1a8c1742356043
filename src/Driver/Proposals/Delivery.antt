-- ===== src/Driver/Proposals/Delivery.antt =====
-- What propose of ssr_dataplane.py has done when it returns.
use native.Mathlib.Nat.{div-eq_of_lt}
use syncons.Base.{
  ℕ, zero, suc, ◌+◌, ◌*◌, ◌/◌, ◌≤◌, ◌<◌, ◌≡◌, refl, sym, subst, inl, inr, Bool, true, false, not,
  Option, none, some, List, [], ◌∷◌, arith, ltb, ◌==◌, Bool-cases, length, count, all,
}
use syncons.Wire.{Bytes}
use syncons.Driver.{
  validate_u32, validate_u64, Region, Platform, value_error, Done, ◌>>=◌, ◌>>◌, pure, raise_if,
}
use syncons.Driver.Outcomes.{
  Holds, Yields, and_then-Holds, yield_then, yield_always, raise_if-Yields, yield_weaker,
}
use syncons.Driver.Proposals.Transfers.{
  submit, wait_done, store_records, tally, confirm, admit, transfer, propose,
}
use syncons.Driver.Proposals.{
  ProposalBatchResult, ProposalQueue, ProposalCall, require_open_proposals, read_active_index,
  read_entry_counter, read_dma_status,
}

-- Each record fills a slot, and there are as many as a slot has bytes.
abbrev pub AreSlots : ℕ → List Bytes → Type 0
AreSlots width records =
    (all (λ rec. length rec == width) records ≡ true) × (width ≤ length records)

enough_records : (n width : ℕ) → 0 < n / width → width ≤ n
enough_records n width h = elim (Bool-cases (ltb n width)) [
  | inl few ↦ absurd (omega (arith, div-eq_of_lt {n = n} {m = width} (ground arith)))
  | inr enough ↦ ground arith
]

-- What a transfer returns: nothing if it does not wait, else a result that all records went out.
abbrev pub IsDelivered : ℕ → Bool → Option ProposalBatchResult → Type 0
IsDelivered n wait none = wait ≡ false
IsDelivered n wait (some r) =
    (wait ≡ true)
    × (r.requested_count ≡ n)
    × (r.completed_count ≡ n)
    × (r.entry_counter_after ≡ r.entry_counter_before + n)

-- Both of them together.
abbrev pub IsSent : ℕ → List Bytes → Bool → Option ProposalBatchResult → Type 0
IsSent width records wait r = AreSlots width records × IsDelivered (length records) wait r

module _ {Hw : Type 0} (p : Platform Hw) where
  store_records-Yields :
      (region : Region) (slot_len i : ℕ) (records : List Bytes)
      → Yields
          (λ _. all (λ rec. length rec == slot_len) records ≡ true)
          (store_records p region slot_len i records)
  unfolding store_records
  store_records-Yields region slot_len i [] = λ s hw. refl
  store_records-Yields region slot_len i (rec ∷ records) =
      yield_then (λ _. (length rec == slot_len) ≡ true)
        (λ _. all (λ r. length r == slot_len) (rec ∷ records) ≡ true)
        (raise_if (not (length rec == slot_len)) value_error)
        (λ _ s hw.
          store_records p region slot_len (suc i) records s (p.store region (i * slot_len) rec hw))
        (raise_if-Yields (length rec == slot_len) value_error)
        (λ _ fits s hw.
          rw (fits, all)
            (store_records-Yields region slot_len (suc i) records s
              (p.store region (i * slot_len) rec hw)))

  submit-Yields :
      (dma_addr count stride : ℕ) → Yields (λ _. 0 < count) (submit p dma_addr count stride)
  unfolding submit require_open_proposals validate_u64 validate_u32
  submit-Yields dma_addr zero stride = λ s hw. ground arith
  submit-Yields dma_addr (suc count) stride =
      yield_always (λ _. 0 < suc count) (λ _. omega arith) (submit p dma_addr (suc count) stride)

  tally-Yields : (n before : ℕ) → Yields (λ r. IsDelivered n true (some r)) (tally p n before)
  unfolding tally read_entry_counter read_active_index read_dma_status
  tally-Yields n before s hw = ground arith

  confirm-Yields :
      (n before polls : ℕ) → Yields (λ r. IsDelivered n true (some r)) (confirm p n before polls)
  unfolding confirm
  confirm-Yields n before polls =
      yield_then (λ _. Unit) (λ r. IsDelivered n true (some r)) (wait_done p polls)
        (λ _. tally p n before) (yield_always (λ _. Unit) (λ _. tt) (wait_done p polls))
        (λ status _. tally-Yields n before)

  -- The end of a transfer, if it is to wait or not.
  abbrev finish : ℕ → ℕ → ℕ → Bool → ProposalCall Hw (Option ProposalBatchResult)
  finish n before polls wait = elim wait [
    | false ↦ pure none
    | true ↦ confirm p n before polls >>= λ result. pure (some result)
  ]

  finish-Yields :
      (n before polls : ℕ) (wait : Bool) → Yields (IsDelivered n wait) (finish n before polls wait)
  finish-Yields n before polls false = λ s hw. refl
  finish-Yields n before polls true =
      yield_then (λ r. IsDelivered n true (some r)) (IsDelivered n true) (confirm p n before polls)
        (λ result. pure (some result)) (confirm-Yields n before polls) (λ result h s hw. h)

  transfer-Yields :
      (records : List Bytes) (wait : Bool) (polls width : ℕ) (region : Region)
      → Yields (IsSent width records wait) (transfer p records wait polls (width, region))
  unfolding transfer read_entry_counter
  transfer-Yields records wait polls width region =
      let n = length records in
      let send : ProposalCall Hw Done = submit p region.address (n / width) width in
      yield_then (λ _. all (λ rec. length rec == width) records ≡ true) (IsSent width records wait)
        (store_records p region width 0 records)
        (λ _. read_entry_counter p >>= λ before. send >> finish n before polls wait)
        (store_records-Yields region width 0 records)
        (λ _ fits s hw.
          yield_then (λ _. 0 < n / width) (IsSent width records wait) send
            (λ _. finish n _ polls wait) (submit-Yields region.address (n / width) width)
            (λ _ some_slots.
              yield_weaker (IsDelivered n wait) (IsSent width records wait)
                (λ r h. ((fits, enough_records n width some_slots), h)) (finish n _ polls wait)
                (finish-Yields n _ polls wait))
            s _)

  admit-width :
      (records : List Bytes) (width : ℕ) (s : ProposalQueue) (hw : Hw)
      → s.slot_len ≡ some width
      → Holds (λ r. r.0 ≡ width) (admit p records s hw).0
  unfolding admit require_open_proposals
  admit-width records width s hw h = ground (arith, h)

  -- However the hardware answers, if `propose` returns, then each record fills a slot, there are at
  -- least as many records as a slot has bytes, and it returns nothing if it was not to wait; else a
  -- result in which all records are completed, by which the entry counter has grown.
  pub propose-IsSent :
      (records : List Bytes) (wait : Bool) (polls width : ℕ) (s : ProposalQueue) (hw : Hw)
      → s.slot_len ≡ some width
      → Holds (IsSent width records wait) (propose p records wait polls s hw).0
  unfolding propose
  propose-IsSent records wait polls width s hw h =
      and_then-Holds (λ r. r.0 ≡ width) (IsSent width records wait) (transfer p records wait polls)
        (λ r e s' hw'.
          subst
            (λ n.
              Holds (IsSent width records wait) (transfer p records wait polls (n, r.1) s' hw').0)
            (sym e) (transfer-Yields records wait polls width r.1 s' hw'))
        (admit p records s hw) (admit-width records width s hw h)
