-- ===== src/Driver/Device/MacTable.antt =====
-- The MAC table of SSRDevice in ssr_dataplane.py, over the registers that ssr_dataplane.v keeps
-- for it.
use native.Mathlib.Nat.{pow-suc, mul-le-mul_right, mul_assoc}
use syncons.Base.{
  ℕ, ◌+◌, ◌*◌, ◌/◌, ◌%◌, ◌^◌, ◌≤◌, ◌<◌, bit_or, ◌≡◌, refl, sym, ap, subst, ◌∙◌, true, false, some,
  [], ◌∷◌, arith, ◌==◌, if◌then◌else◌, if_cases, length,
}
use syncons.Bitmap.Laws.{bit_or_words}
use syncons.Wire.{Bytes}
use syncons.Driver.{
  common_reg_config_mactable_addr_lo, common_reg_config_mactable_addr_hi, common_mac_entry_stride,
  Platform, HoldsWords, ok, done, ◌>>◌,
}
use syncons.Driver.Device.{
  SsrDevice, Mac, of_int, of_bytes, from_bytes_big, are_bytes, mac_to_int, write_common,
  read_common, write_mac_address, read_mac_address,
}
use syncons.Driver.Device.Config.{is_config, word, untouched}

from_bytes_big_bound :
    (acc : ℕ) (bytes : Bytes)
    → are_bytes bytes ≡ true
    → from_bytes_big acc bytes < (acc + 1) * 256 ^ length bytes
from_bytes_big_bound acc [] h = omega arith
from_bytes_big_bound acc (b ∷ bytes) h =
    let rest = from_bytes_big_bound (acc * 256 + b) bytes (ground arith) in
    let small : b < 256 = ground arith in
    let grows : (acc * 256 + b + 1) * 256 ^ length bytes ≤ (acc + 1) * 256 * 256 ^ length bytes =
      mul-le-mul_right (256 ^ length bytes) (omega arith) in
    omega (
      arith,
      rest,
      grows,
      mul_assoc (acc + 1) 256 (256 ^ length bytes),
      pow-suc 256 (length bytes),
      ap (λ x. (acc + 1) * x) (pow-suc 256 (length bytes)),
    )

-- A MAC address has 48 bits.
mac_to_int_bound : (mac : Mac) (v : ℕ) → mac_to_int mac ≡ some v → v < 2 ^ 48
unfolding mac_to_int
mac_to_int_bound (of_int mac) v h = ground arith
mac_to_int_bound (of_bytes raw) v h = ground (arith, from_bytes_big_bound 0 raw)

module _ {Hw : Type 0} (p : Platform Hw) (holds : HoldsWords p is_config) where
  abbrev lo_at : ℕ → ℕ
  lo_at i = common_reg_config_mactable_addr_lo + i * common_mac_entry_stride

  abbrev hi_at : ℕ → ℕ
  hi_at i = common_reg_config_mactable_addr_hi + i * common_mac_entry_stride

  abbrev written : ℕ → ℕ → Hw → Hw
  written i v hw =
      p.write_dword (hi_at i) (v / 2 ^ 32 % 2 ^ 16) (p.write_dword (lo_at i) (v % 2 ^ 32) hw)

  write_lem :
      (i v : ℕ) (mac : Mac) (s : SsrDevice) (hw : Hw)
      → s.rb ≡ true
      → i < 7
      → mac_to_int mac ≡ some v
      → write_mac_address p i mac s hw ≡ (ok done, (s, written i v hw))
  unfolding write_mac_address write_common
  write_lem i v mac s hw bound below e = ground arith

  read_lem :
      (j : ℕ) (s : SsrDevice) (hw : Hw)
      → s.rb ≡ true
      → j < 7
      → (read_mac_address p j s hw).0
        ≡ ok (
            bit_or
              ((p.read_dword (hi_at j) (p.read_dword (lo_at j) hw).1).0 % 2 ^ 16 * 2 ^ 32)
              (p.read_dword (lo_at j) hw).0)
  unfolding read_mac_address read_common
  read_lem j s hw bound below = ground arith

  lo_at-is_config : (i : ℕ) → i < 7 → is_config (lo_at i) ≡ true
  lo_at-is_config i below = ground arith

  hi_at-is_config : (i : ℕ) → i < 7 → is_config (hi_at i) ≡ true
  hi_at-is_config i below = ground arith

  -- The words of an entry after a write to the same one, and to another.
  lo_written : (i v : ℕ) (hw : Hw) → i < 7 → word p (lo_at i) (written i v hw) ≡ v % 2 ^ 32
  lo_written i v hw below =
      untouched p holds (lo_at i) (hi_at i) _ _ (lo_at-is_config i below) (hi_at-is_config i below)
        (ground arith)
      ∙ holds.read_written (lo_at i) (v % 2 ^ 32) hw (lo_at-is_config i below) (omega arith)

  lo_other :
      (i j v : ℕ) (hw : Hw)
      → i < 7
      → j < 7
      → (j == i) ≡ false
      → word p (lo_at j) (written i v hw) ≡ word p (lo_at j) hw
  lo_other i j v hw below below' apart =
      untouched p holds (lo_at j) (hi_at i) _ _ (lo_at-is_config j below') (hi_at-is_config i below)
        (ground arith)
      ∙ untouched p holds (lo_at j) (lo_at i) _ hw (lo_at-is_config j below')
          (lo_at-is_config i below) (ground arith)

  hi_other :
      (i j v : ℕ) (hw : Hw)
      → i < 7
      → j < 7
      → (j == i) ≡ false
      → word p (hi_at j) (written i v hw) ≡ word p (hi_at j) hw
  hi_other i j v hw below below' apart =
      untouched p holds (hi_at j) (hi_at i) _ _ (hi_at-is_config j below') (hi_at-is_config i below)
        (ground arith)
      ∙ untouched p holds (hi_at j) (lo_at i) _ hw (hi_at-is_config j below')
          (lo_at-is_config i below) (ground arith)

  -- Reading the lower word p first makes no difference to the upper one.
  hi_again :
      (j : ℕ) (hw : Hw)
      → j < 7
      → word p (hi_at j) (p.read_dword (lo_at j) hw).1 ≡ word p (hi_at j) hw
  hi_again j hw below =
      holds.read_again (hi_at j) (lo_at j) hw (hi_at-is_config j below) (lo_at-is_config j below)

  read_words :
      (j : ℕ) (s : SsrDevice) (hw : Hw)
      → s.rb ≡ true
      → j < 7
      → (read_mac_address p j s hw).0
        ≡ ok (bit_or (word p (hi_at j) hw % 2 ^ 16 * 2 ^ 32) (word p (lo_at j) hw))
  read_words j s hw bound below = read_lem j s hw bound below ∙ rw (hi_again j hw below) refl

  own_entry :
      (i v : ℕ) (s : SsrDevice) (hw : Hw)
      → s.rb ≡ true
      → i < 7
      → v < 2 ^ 48
      → (read_mac_address p i s (written i v hw)).0 ≡ ok v
  own_entry i v s hw bound below small =
      let hi =
        holds.read_written (hi_at i) (v / 2 ^ 32 % 2 ^ 16) (p.write_dword (lo_at i) (v % 2 ^ 32) hw)
          (hi_at-is_config i below) (omega arith) in
      read_words i s (written i v hw) bound below
      ∙ ap ok (
          rw hi (
            rw (lo_written i v hw below)
              (bit_or_words 32 _ (v % 2 ^ 32) (omega arith) ∙ omega arith)))

  other_entry :
      (i j v : ℕ) (s : SsrDevice) (hw : Hw)
      → s.rb ≡ true
      → i < 7
      → j < 7
      → (j == i) ≡ false
      → (read_mac_address p j s (written i v hw)).0 ≡ (read_mac_address p j s hw).0
  other_entry i j v s hw bound below below' apart =
      read_words j s (written i v hw) bound below'
      ∙ rw (lo_other i j v hw below below' apart)
          (rw (hi_other i j v hw below below' apart) (sym (read_words j s hw bound below')))

  -- On a device that has its register block, a MAC address that is written to one of the seven
  -- entries is read back from it, and every other entry keeps its own, where the words of the table
  -- and the four registers of the replica's configuration hold what is written.
  pub read_mac_address-write_mac_address :
      (i j v : ℕ) (mac : Mac) (s : SsrDevice) (hw : Hw)
      → s.rb ≡ true
      → i < 7
      → j < 7
      → mac_to_int mac ≡ some v
      → ((write_mac_address p i mac >> read_mac_address p j) s hw).0
        ≡ (if j == i then ok v else (read_mac_address p j s hw).0)
  read_mac_address-write_mac_address i j v mac s hw bound below below' e =
      let small = mac_to_int_bound mac v e in
      rw (write_lem i v mac s hw bound below e) (
        if_cases (λ x. (read_mac_address p j s (written i v hw)).0 ≡ x) (j == i)
          (λ same.
            subst (λ k. (read_mac_address p k s (written i v hw)).0 ≡ ok v) (ground arith)
              (own_entry i v s hw bound below small))
          (λ apart. other_entry i j v s hw bound below below' apart))
