-- ===== src/Expectations/Equality.antt =====
-- The tests of ScenarioExpectation in sim/protocol/types.py decide that two values are the same.
use syncons.Base.{
  ℕ, ◌≡◌, refl, ap, Bool, true, Option, none, some, List, [], ◌∷◌, arith, ==_iff, ==_refl, &&_elim,
  ℤ, int_eq,
}
use syncons.Protocol.{NodeStatus, running, halted, crashed}
use syncons.Protocol.Equality.{node_status_eq}
use syncons.Campaign.{rounds_eq}
use syncons.Campaign.Values.{int_eq_refl, int_eq_sound}
use syncons.Expectations.{list_eq, halts_eq}

module _ {ℓ} {A : Type ℓ} (eq : A → A → Bool) where
  pub list_eq_refl : ((a : A) → eq a a ≡ true) → (as' : List A) → list_eq eq as' as' ≡ true
  list_eq_refl h [] = refl
  list_eq_refl h (a ∷ as') = rw (h a) (list_eq_refl h as')

  pub list_eq_sound :
      ((a b : A) → eq a b ≡ true → a ≡ b) → (as' bs : List A) → list_eq eq as' bs ≡ true → as' ≡ bs
  list_eq_sound h [] [] e = refl
  list_eq_sound h [] (b ∷ bs) e = absurd (ground arith)
  list_eq_sound h (a ∷ as') [] e = absurd (ground arith)
  list_eq_sound h (a ∷ as') (b ∷ bs) e =
      let (first, rest) = &&_elim (eq a b) (list_eq eq as' bs) e in
      cc (h a b first, list_eq_sound h as' bs rest)

pub node_status_eq_refl : (a : NodeStatus) → node_status_eq a a ≡ true
node_status_eq_refl running = refl
node_status_eq_refl halted = refl
node_status_eq_refl crashed = refl

pub node_status_eq_sound : (a b : NodeStatus) → node_status_eq a b ≡ true → a ≡ b
node_status_eq_sound running running e = refl
node_status_eq_sound halted halted e = refl
node_status_eq_sound crashed crashed e = refl
node_status_eq_sound running halted e = absurd (ground arith)
node_status_eq_sound running crashed e = absurd (ground arith)
node_status_eq_sound halted running e = absurd (ground arith)
node_status_eq_sound halted crashed e = absurd (ground arith)
node_status_eq_sound crashed running e = absurd (ground arith)
node_status_eq_sound crashed halted e = absurd (ground arith)

pub rounds_eq_refl : (a : List ℤ) → rounds_eq a a ≡ true
rounds_eq_refl [] = refl
rounds_eq_refl (a ∷ as') = rw (int_eq_refl a) (rounds_eq_refl as')

pub rounds_eq_sound : (a b : List ℤ) → rounds_eq a b ≡ true → a ≡ b
rounds_eq_sound [] [] e = refl
rounds_eq_sound [] (b ∷ bs) e = absurd (ground arith)
rounds_eq_sound (a ∷ as') [] e = absurd (ground arith)
rounds_eq_sound (a ∷ as') (b ∷ bs) e =
    let (first, rest) = &&_elim (int_eq a b) (rounds_eq as' bs) e in
    cc (int_eq_sound a b first, rounds_eq_sound as' bs rest)

pub halts_eq_refl : (a : Option ℕ) → halts_eq a a ≡ true
halts_eq_refl none = refl
halts_eq_refl (some a) = ==_refl a

pub halts_eq_sound : (a b : Option ℕ) → halts_eq a b ≡ true → a ≡ b
halts_eq_sound none none e = refl
halts_eq_sound none (some b) e = absurd (ground arith)
halts_eq_sound (some a) none e = absurd (ground arith)
halts_eq_sound (some a) (some b) e = ap some ((==_iff a b).0 e)
