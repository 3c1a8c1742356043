-- ===== src/Base/Dicts.antt =====
-- Python's dict with integer keys, in insertion order.
use Prim.Native.Nat.{ℕ}
use mathlib.Core.Path.{◌≡◌, refl}
use mathlib.Core.Bool.{Bool, true, false, ◌&&◌}
use mathlib.Core.Option.{Option, none, some}
use mathlib.Core.List.{List, [], ◌∷◌, map}
use native.Mathlib.Omega.{arith}
use syncons.Base.Tests.{◌==◌, if◌then◌else◌}
use syncons.Base.Lists.{length, all, elem}

abbrev pub Dict {ℓ} : Type ℓ → Type ℓ
Dict V = List (ℕ × V)

module _ {ℓ} {V : Type ℓ} where
  -- `d.get(k)`
  abbrev pub lookup : ℕ → Dict V → Option V
  lookup k [] = none
  lookup k (e ∷ d) = if k == e.0 then some e.1 else lookup k d

  -- `d.get(k, default)`
  abbrev pub lookup_or : ℕ → V → Dict V → V
  lookup_or k v d = elim (lookup k d) [ none ↦ v | some w ↦ w ]

  -- `k in d`
  abbrev pub has_key : ℕ → Dict V → Bool
  has_key k d = elim (lookup k d) [ none ↦ false | some _ ↦ true ]

  -- `d.pop(k, ...)`, what stays
  abbrev pub erase : ℕ → Dict V → Dict V
  erase key [] = []
  erase key (item ∷ d) = if key == item.0 then d else item ∷ erase key d

  -- `d[k] = v`
  abbrev pub insert : ℕ → V → Dict V → Dict V
  insert key new [] = (key, new) ∷ []
  insert key new (item ∷ d) = if key == item.0 then (key, new) ∷ d else item ∷ insert key new d

  -- `d.setdefault(k, v)`
  abbrev pub set_default : ℕ → V → Dict V → Dict V
  set_default key new d = if has_key key d then d else insert key new d

  abbrev pub keys : Dict V → List ℕ
  keys d = map (λ e. e.0) d

  -- `{k: f(k) for k in ks}`; the keys of the comprehensions in the source are distinct
  abbrev pub tabulate : (ℕ → V) → List ℕ → Dict V
  tabulate f ks = map (λ k. (k, f k)) ks

  -- `d == e`, which does not see the order of insertion
  abbrev pub dict_eq : (V → V → Bool) → Dict V → Dict V → Bool
  dict_eq eq d e =
      length d == length e && all (λ b. elim (lookup b.0 e) [ none ↦ false | some v ↦ eq b.1 v ]) d

  pub lookup-insert :
      (j k : ℕ) (v : V) (d : Dict V)
      → lookup j (insert k v d) ≡ (if j == k then some v else lookup j d)
  lookup-insert j k v [] = refl
  lookup-insert j k v (e ∷ d) = ground (arith, lookup-insert j k v d)

  pub lookup-tabulate :
      (j : ℕ) (f : ℕ → V) (ks : List ℕ)
      → lookup j (tabulate f ks) ≡ (if elem j ks then some (f j) else none)
  lookup-tabulate j f [] = refl
  lookup-tabulate j f (k ∷ ks) = ground (arith, lookup-tabulate j f ks)
