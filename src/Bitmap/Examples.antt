-- ===== src/Bitmap/Examples.antt =====
-- Runs and instances of the bitmap laws.
use syncons.Base.{ℕ, ◌<◌, ◌≡◌, refl, true, ◌&&◌, arith, some, none, [], ◌∷◌, elem, ltb}
use syncons.Bitmap.{has_bit, bitmap_set, bitmap_members, bitmap_text}
use syncons.Bitmap.Sets.{elem-bitmap_members, bitmap_set-has_bit, bitmap_set-bitmap_members}

members_of_five : bitmap_members 0x16 5 ≡ 1 ∷ 2 ∷ 4 ∷ []
unfolding bitmap_members has_bit
members_of_five = refl

text_of_five : bitmap_text 0x16 5 ≡ "10110"
unfolding bitmap_text has_bit
text_of_five = refl

set_outside : bitmap_set 3 (0 ∷ 3 ∷ []) ≡ none
unfolding bitmap_set
set_outside = refl

below_three : (i : ℕ) → has_bit 5 i ≡ true → i < 3
unfolding has_bit bitmap_set
below_three i h = grind (arith, has_bit-five i)
  where
    has_bit-five : (i : ℕ) → has_bit 5 i ≡ (elem i (0 ∷ 2 ∷ []))
    has_bit-five i = bitmap_set-has_bit 3 (0 ∷ 2 ∷ []) 5 i refl

elem-bitmap_members_example : elem 2 (bitmap_members 5 3) ≡ (has_bit 5 2 && ltb 2 3)
elem-bitmap_members_example = elem-bitmap_members 5 3 2

bitmap_set-has_bit_example : has_bit 5 1 ≡ elem 1 (0 ∷ 2 ∷ [])
unfolding bitmap_set
bitmap_set-has_bit_example = bitmap_set-has_bit 3 (0 ∷ 2 ∷ []) 5 1 refl

five_there_and_back : bitmap_set 3 (bitmap_members 5 3) ≡ some 5
five_there_and_back = bitmap_set-bitmap_members 5 3 below_three
