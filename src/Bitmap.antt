-- ===== src/Bitmap.antt =====
-- sim/protocol/types.py: the bitmaps that stand for sets of node ids. Python's ints are
-- unbounded, so a bitmap is a natural number and `1 << i` is `2 ^ i`.
mod Digits
pub mod Laws
pub mod Sets
mod Examples
use syncons.Base.{
  ℕ, zero, suc, ◌^◌, bit_and, bit_or, Bool, not, ◌&&◌, Option, none, some, List, [], ◌∷◌, String,
  ltb, ◌==◌, if◌then◌else◌, filter, range,
}
use Prim.Native.String

-- The truth value of `bitmap & (1 << idx)`.
unfoldable pub has_bit : ℕ → ℕ → Bool
has_bit bitmap idx = not (bit_and bitmap (2 ^ idx) == 0)

-- `bitmap & other == bitmap`
unfoldable pub is_subset : ℕ → ℕ → Bool
is_subset bitmap other = bit_and bitmap other == bitmap

unfoldable pub set_members : ℕ → ℕ → List ℕ → Option ℕ
set_members node_count value [] = some value
set_members node_count value (member ∷ members) =
    if not (ltb member node_count)
    then none
    else set_members node_count (bit_or value (2 ^ member)) members

-- `none` is the ValueError of a member outside the cluster.
unfoldable pub bitmap_set : ℕ → List ℕ → Option ℕ
unfolding set_members
bitmap_set node_count members = set_members node_count 0 members

unfoldable pub bitmap_members : ℕ → ℕ → List ℕ
bitmap_members bitmap node_count = filter (has_bit bitmap) (range node_count)

-- The highest id comes first.
pub bitmap_text : ℕ → ℕ → String
bitmap_text bitmap zero = ""
bitmap_text bitmap (suc idx) =
    String.◌∷◌ (if has_bit bitmap idx then "1" else "0") (bitmap_text bitmap idx)
