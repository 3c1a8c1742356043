-- ===== src/Driver/Calls.antt =====
-- A call of the driver: state, hardware and exceptions. What was written before a raise stays
-- written. A coroutine that has not ended, since it waits for another task, is `waits`.
use syncons.Base.{Bool, Option, none, some, if◌then◌else◌}

-- The exceptions that the calls raise: those of the driver, and Python's own.
pub data DriverError : Type 0 where
  state_error timeout_error hardware_error : DriverError
  runtime_error value_error key_error attribute_error assertion_error name_error : DriverError

pub data Result (A : Type 0) : Type 0 where
  ok : A → Result A
  err : DriverError → Result A
  waits : Result A

pub data Done : Type 0 where
  done : Done

-- What a call leaves: how it ended, the state of the object and the hardware.
abbrev pub Left : Type 0 → Type 0 → Type 0 → Type 0
Left Hw S A = Result A × (S × Hw)

abbrev pub Call : Type 0 → Type 0 → Type 0 → Type 0
Call Hw S A = S → Hw → Left Hw S A

module _ {Hw S : Type 0} where
  abbrev pub and_then : {A B : Type 0} → (A → Call Hw S B) → Left Hw S A → Left Hw S B
  and_then f (ok a, (s, hw)) = f a s hw
  and_then f (err e, left) = (err e, left)
  and_then f (waits, left) = (waits, left)

  infixl 5 ◌>>=◌ ◌>>◌
  abbrev pub ◌>>=◌ : {A B : Type 0} → Call Hw S A → (A → Call Hw S B) → Call Hw S B
  m >>= f = λ s hw. and_then f (m s hw)

  abbrev pub ◌>>◌ : {A B : Type 0} → Call Hw S A → Call Hw S B → Call Hw S B
  m >> k = m >>= λ _. k

  abbrev pub pure : {A : Type 0} → A → Call Hw S A
  pure a = λ s hw. (ok a, (s, hw))

  abbrev pub raise : {A : Type 0} → DriverError → Call Hw S A
  raise e = λ s hw. (err e, (s, hw))

  abbrev pub wait_for_others : {A : Type 0} → Call Hw S A
  wait_for_others = λ s hw. (waits, (s, hw))

  abbrev pub gets : {A : Type 0} → (S → A) → Call Hw S A
  gets f = λ s hw. (ok (f s), (s, hw))

  abbrev pub modify : (S → S) → Call Hw S Done
  modify f = λ s hw. (ok done, (f s, hw))

  abbrev pub raise_if : Bool → DriverError → Call Hw S Done
  raise_if b e = λ s hw. ((if b then err e else ok done), (s, hw))

  abbrev pub or_raise : {A : Type 0} → Option A → DriverError → Call Hw S A
  or_raise none e = raise e
  or_raise (some a) e = pure a
