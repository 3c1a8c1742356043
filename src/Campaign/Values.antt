-- ===== src/Campaign/Values.antt =====
-- Equality of committed values in sim/runtime/random_campaign.py decides that they are the same.
use text.Mathlib.TextEquality.{eq_iff}
use syncons.Base.{
  ℕ, ◌≡◌, refl, ap, true, List, [], ◌∷◌, arith, ◌==◌, ==_iff, ==_refl, &&_elim, ℤ, pos, negsuc,
  int_eq, String, str_eq,
}
use syncons.Campaign.{CommittedValue, items_eq, value_eq}

pub int_eq_refl : (a : ℤ) → int_eq a a ≡ true
int_eq_refl (pos n) = ==_refl n
int_eq_refl (negsuc n) = ==_refl n

pub int_eq_sound : (a b : ℤ) → int_eq a b ≡ true → a ≡ b
int_eq_sound (pos a) (pos b) h = ap pos (ground arith)
int_eq_sound (pos a) (negsuc b) h = absurd (ground arith)
int_eq_sound (negsuc a) (pos b) h = absurd (ground arith)
int_eq_sound (negsuc a) (negsuc b) h = ap negsuc (ground arith)

items_eq_refl : (a : List (ℕ × String)) → items_eq a a ≡ true
items_eq_refl [] = refl
items_eq_refl (a ∷ as') = rw (==_refl a.0, (eq_iff a.1 a.1).1 refl) (items_eq_refl as')

items_eq_sound : (a b : List (ℕ × String)) → items_eq a b ≡ true → a ≡ b
items_eq_sound [] [] h = refl
items_eq_sound [] (b ∷ bs) h = absurd (ground arith)
items_eq_sound (a ∷ as') [] h = absurd (ground arith)
items_eq_sound (a ∷ as') (b ∷ bs) h =
    let (key, rest) = &&_elim (a.0 == b.0) _ h in
    let (text, tails) = &&_elim (str_eq a.1 b.1) _ rest in
    cc ((==_iff a.0 b.0).0 key, (eq_iff a.1 b.1).0 text, items_eq_sound as' bs tails)

pub value_eq_refl : (a : CommittedValue) → value_eq a a ≡ true
value_eq_refl a = rw (==_refl a.membership_epoch, ==_refl a.commit_set) (items_eq_refl a.proposals)

pub value_eq_sound : (a b : CommittedValue) → value_eq a b ≡ true → a ≡ b
value_eq_sound a b h =
    let (epoch, rest) = &&_elim (a.membership_epoch == b.membership_epoch) _ h in
    let (set, items) = &&_elim (a.commit_set == b.commit_set) _ rest in
    cc (
      (==_iff a.membership_epoch b.membership_epoch).0 epoch,
      (==_iff a.commit_set b.commit_set).0 set,
      items_eq_sound a.proposals b.proposals items,
    )
