-- ===== src/Driver/Outcomes.antt =====
-- What calls keep, and which never succeed, however the hardware answers.
use syncons.Base.{◌≡◌, refl, Bool, true, false, not, arith}
use syncons.Driver.{DriverError, Result, ok, err, waits, Left, Call, and_then, ◌>>=◌, raise_if}

abbrev pub is_ok : {A : Type 0} → Result A → Bool
is_ok (ok _) = true
is_ok (err _) = false
is_ok waits = false

module _ {Hw S : Type 0} (I : S → Type 0) where
  -- The call keeps `I`, whether it raises or not.
  abbrev pub Keeps : {A : Type 0} → Call Hw S A → Type 0
  Keeps m = (s : S) (hw : Hw) → I s → I (m s hw).1.0

  -- The call keeps `I` and does not succeed.
  abbrev pub Fails : {A : Type 0} → Call Hw S A → Type 0
  Fails m = (s : S) (hw : Hw) → I s → (is_ok (m s hw).0 ≡ false) × I (m s hw).1.0

  module _ {A B : Type 0} (f : A → Call Hw S B) where
    and_then-Keeps :
        ((a : A) → Keeps (f a)) → (left : Left Hw S A) → I left.1.0 → I (and_then f left).1.0
    and_then-Keeps k (ok a, (s, hw)) h = k a s hw h
    and_then-Keeps k (err e, left) h = h
    and_then-Keeps k (waits, left) h = h

    and_then-Fails :
        ((a : A) → Fails (f a))
        → (left : Left Hw S A) → I left.1.0
        → (is_ok (and_then f left).0 ≡ false) × I (and_then f left).1.0
    and_then-Fails k (ok a, (s, hw)) h = k a s hw h
    and_then-Fails k (err e, left) h = (refl, h)
    and_then-Fails k (waits, left) h = (refl, h)

    and_then_failed :
        (left : Left Hw S A)
        → (is_ok left.0 ≡ false) × I left.1.0
        → (is_ok (and_then f left).0 ≡ false) × I (and_then f left).1.0
    and_then_failed (ok a, (s, hw)) (h, k) = absurd (ground arith)
    and_then_failed (err e, left) (h, k) = (refl, k)
    and_then_failed (waits, left) (h, k) = (refl, k)

  module _ {A B : Type 0} where
    pub keep_then :
        (m : Call Hw S A) (f : A → Call Hw S B)
        → Keeps m
        → ((a : A) → Keeps (f a))
        → Keeps (m >>= f)
    keep_then m f k l s hw h = and_then-Keeps f l (m s hw) (k s hw h)

    pub fail_later :
        (m : Call Hw S A) (f : A → Call Hw S B)
        → Keeps m
        → ((a : A) → Fails (f a))
        → Fails (m >>= f)
    fail_later m f k l s hw h = and_then-Fails f l (m s hw) (k s hw h)

    pub fail_first : (m : Call Hw S A) (f : A → Call Hw S B) → Fails m → Fails (m >>= f)
    fail_first m f k s hw h = and_then_failed f (m s hw) (k s hw h)

-- What holds of the value, if there is one.
abbrev pub Holds : {A : Type 0} → (A → Type 0) → Result A → Type 0
Holds Q (ok a) = Q a
Holds Q (err _) = Unit
Holds Q waits = Unit

weaken :
    {A : Type 0} (P Q : A → Type 0) → ((a : A) → P a → Q a) → (r : Result A) → Holds P r → Holds Q r
weaken P Q k (ok a) h = k a h
weaken P Q k (err _) h = tt
weaken P Q k waits h = tt

hold_all : {A : Type 0} (Q : A → Type 0) → ((a : A) → Q a) → (r : Result A) → Holds Q r
hold_all Q h (ok a) = h a
hold_all Q h (err _) = tt
hold_all Q h waits = tt

module _ {Hw S : Type 0} where
  -- If the call returns, then with a value of which `Q` holds.
  abbrev pub Yields : {A : Type 0} → (A → Type 0) → Call Hw S A → Type 0
  Yields Q m = (s : S) (hw : Hw) → Holds Q (m s hw).0

  module _ {A B : Type 0} (R : A → Type 0) (Q : B → Type 0) where
    pub and_then-Holds :
        (f : A → Call Hw S B)
        → ((a : A) → R a → Yields Q (f a))
        → (left : Left Hw S A) → Holds R left.0
        → Holds Q (and_then f left).0
    and_then-Holds f k (ok a, (s, hw)) h = k a h s hw
    and_then-Holds f k (err e, left) h = tt
    and_then-Holds f k (waits, left) h = tt

    pub yield_then :
        (m : Call Hw S A) (f : A → Call Hw S B)
        → Yields R m
        → ((a : A) → R a → Yields Q (f a))
        → Yields Q (m >>= f)
    yield_then m f h k s hw = and_then-Holds f k (m s hw) (h s hw)

  pub yield_always :
      {A : Type 0} (Q : A → Type 0) → ((a : A) → Q a) → (m : Call Hw S A) → Yields Q m
  yield_always Q h m s hw = hold_all Q h (m s hw).0

  -- After a test the condition holds.
  pub raise_if-Yields : (b : Bool) (e : DriverError) → Yields (λ _. b ≡ true) (raise_if (not b) e)
  raise_if-Yields true e s hw = refl
  raise_if-Yields false e s hw = tt

  pub yield_weaker :
      {A : Type 0} (P Q : A → Type 0)
      → ((a : A) → P a → Q a)
      → (m : Call Hw S A) → Yields P m
      → Yields Q m
  yield_weaker P Q k m h s hw = weaken P Q k (m s hw).0 (h s hw)
