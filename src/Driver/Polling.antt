-- ===== src/Driver/Polling.antt =====
-- What poll_register of ssr_dataplane.py returns.
use syncons.Base.{ℕ, zero, suc, ◌<◌, ◌≡◌, refl, ◌⊎◌, inl, inr, Bool, true, false, arith, Bool-cases}
use syncons.Driver.{poll_register, Platform, timeout_error, ok, err, Left}

module _ {Hw : Type 0} (p : Platform Hw) (addr : ℕ) (condition : ℕ → Bool) where
  -- The hardware when the register is read for the time numbered `k`, and what is read.
  abbrev pub at_poll : ℕ → Hw → Hw
  at_poll zero hw = hw
  at_poll (suc k) hw = at_poll k (p.wait_ns 100 (p.read_dword addr hw).1)

  abbrev pub value_at : ℕ → Hw → ℕ
  value_at k hw = (p.read_dword addr (at_poll k hw)).0

  -- The first poll that meets the condition has the number `k`.
  abbrev pub IsFirst : ℕ → Hw → Type 0
  IsFirst k hw =
      (condition (value_at k hw) ≡ true) × ((j : ℕ) → j < k → condition (value_at j hw) ≡ false)

module _ {Hw : Type 0} (p : Platform Hw) {S : Type 0} (addr : ℕ) (condition : ℕ → Bool) where
  -- How a poll ended.
  abbrev pub Polled : ℕ → S → Hw → Left Hw S ℕ → Type 0
  Polled polls s hw left =
      ((k : ℕ) × (k < polls)
        × IsFirst p addr condition k hw
        × (left ≡ (
          ok (value_at p addr condition k hw),
          (s, (p.read_dword addr (at_poll p addr condition k hw)).1),
        )))
      ⊎ (((k : ℕ) → k < polls → condition (value_at p addr condition k hw) ≡ false)
          × (left ≡ (err timeout_error, (s, at_poll p addr condition polls hw))))

  -- One poll more in front.
  Polled-suc :
      (polls : ℕ) (s : S) (hw : Hw) (left : Left Hw S ℕ)
      → condition (value_at p addr condition 0 hw) ≡ false
      → Polled polls s (at_poll p addr condition 1 hw) left
      → Polled (suc polls) s hw left
  Polled-suc polls s hw left miss (inl (k, below, (found, before), e)) =
      inl (suc k, omega arith, (found, not_before), e)
    where
      not_before : (j : ℕ) → j < suc k → condition (value_at p addr condition j hw) ≡ false
      not_before zero h = miss
      not_before (suc j) h = before j (omega arith)
  Polled-suc polls s hw left miss (inr (never, e)) = inr (not_yet, e)
    where
      not_yet : (j : ℕ) → j < suc polls → condition (value_at p addr condition j hw) ≡ false
      not_yet zero h = miss
      not_yet (suc j) h = never j (omega arith)

  -- Polling returns the first value that meets the condition, as it was read, if one of the first
  -- `polls` polls finds one, and the timeout error if none does.
  pub poll_register-Polled :
      (polls : ℕ) (s : S) (hw : Hw) → Polled polls s hw (poll_register p addr condition polls s hw)
  unfolding poll_register
  poll_register-Polled zero s hw = inr ((λ k h. absurd (omega arith)), refl)
  poll_register-Polled (suc polls) s hw =
      elim (Bool-cases (condition (value_at p addr condition 0 hw))) [
        | inl found ↦ rw found (inl (0, omega arith, (found, λ j h. absurd (omega arith)), refl))
        | inr miss ↦ rw miss (
            Polled-suc polls s hw _ miss
              (poll_register-Polled polls s (at_poll p addr condition 1 hw)))
      ]
