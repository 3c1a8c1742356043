-- ===== src/Driver/Device/Config.antt =====
-- configure_replica of ssr_dataplane.py, over the registers that ssr_dataplane.v keeps for it.
use syncons.Base.{
  ℕ, ◌+◌, ◌*◌, ◌%◌, ◌^◌, ◌<◌, ◌≡◌, refl, ◌∙◌, Bool, true, false, ◌&&◌, ◌||◌, arith, ltb, leb, ◌==◌,
}
use syncons.Driver.{
  common_reg_config_replica_id, common_reg_config_replica_num, common_reg_config_round_len_ns,
  common_reg_config_eth_type, common_reg_config_mactable_addr_lo, common_mac_entry_stride, Platform,
  HoldsWords, value_error, ok, err, Done, done, Left,
}
use syncons.Driver.Device.{SsrDevice, write_common, configure_replica}

-- The addresses of the plain 32-bit registers that ssr_dataplane.v keeps for the configuration: id
-- and number of the replicas, length of the round and Ethernet type, and the two words of each of
-- the seven MAC entries. The counters and status words between them are not among these.
abbrev pub is_config : ℕ → Bool
is_config addr =
    addr % 4 == 0
    && ((leb common_reg_config_replica_id addr && leb addr common_reg_config_eth_type)
        || (leb common_reg_config_mactable_addr_lo addr
            && ltb addr (common_reg_config_mactable_addr_lo + 7 * common_mac_entry_stride)))

module _ {Hw : Type 0} (p : Platform Hw) where
  -- The word at an address, as the next read finds it.
  abbrev pub word : ℕ → Hw → ℕ
  word addr hw = (p.read_dword addr hw).0

module _ {Hw : Type 0} (p : Platform Hw) (holds : HoldsWords p is_config) where
  -- What a write to another register leaves.
  pub untouched :
      (a b v : ℕ) (hw : Hw)
      → is_config a ≡ true
      → is_config b ≡ true
      → (a == b) ≡ false
      → word p a (p.write_dword b v hw) ≡ word p a hw
  untouched a b v hw plain plain' apart = holds.read_other a b v hw plain plain' (ground arith)

  abbrev is_replica : ℕ → ℕ → ℕ → Bool
  is_replica id num len = ltb 0 num && leb num 7 && ltb id num && ltb 0 len

  -- How `configure_replica` ended, by whether its arguments are those of a replica.
  abbrev Configured : Bool → ℕ → ℕ → ℕ → ℕ → SsrDevice → Hw → Left Hw SsrDevice Done → Type 0
  Configured false id num len eth s hw left = left ≡ (err value_error, (s, hw))
  Configured true id num len eth s hw (r, (s', hw')) =
      (r ≡ ok done)
      × (s' ≡ s)
      × (word p common_reg_config_replica_id hw' ≡ id)
      × (word p common_reg_config_replica_num hw' ≡ num)
      × (word p common_reg_config_round_len_ns hw' ≡ len)
      × (word p common_reg_config_eth_type hw' ≡ eth)

  abbrev settings : ℕ → ℕ → ℕ → ℕ → Hw → Hw
  settings id num len eth hw = p.write_dword common_reg_config_eth_type eth (
      p.write_dword common_reg_config_round_len_ns len (
        p.write_dword common_reg_config_replica_num num
          (p.write_dword common_reg_config_replica_id id hw)))

  configure_writes :
      (id num len eth : ℕ) (s : SsrDevice) (hw : Hw)
      → s.rb ≡ true
      → is_replica id num len ≡ true
      → configure_replica p id num len eth s hw ≡ (ok done, (s, settings id num len eth hw))
  unfolding configure_replica write_common
  configure_writes id num len eth s hw bound valid = ground arith

  configure_raises :
      (id num len eth : ℕ) (s : SsrDevice) (hw : Hw)
      → is_replica id num len ≡ false
      → configure_replica p id num len eth s hw ≡ (err value_error, (s, hw))
  unfolding configure_replica write_common
  configure_raises id num len eth s hw invalid = ground arith

  settings_hold :
      (id num len eth : ℕ) (s : SsrDevice) (hw : Hw)
      → is_replica id num len ≡ true
      → len < 2 ^ 32
      → eth < 2 ^ 32
      → Configured true id num len eth s hw (ok done, (s, settings id num len eth hw))
  settings_hold id num len eth s hw valid below below' = (
    refl,
    refl,
    untouched _ _ _ _ refl refl refl
        ∙ untouched _ _ _ _ refl refl refl
        ∙ untouched _ _ _ _ refl refl refl
        ∙ holds.read_written _ _ _ refl (ground arith),
    untouched _ _ _ _ refl refl refl
        ∙ untouched _ _ _ _ refl refl refl
        ∙ holds.read_written _ _ _ refl (ground arith),
    untouched _ _ _ _ refl refl refl ∙ holds.read_written _ _ _ refl below,
    holds.read_written _ _ _ refl below',
  )

  -- Of a device that has its register block, `configure_replica` raises a ValueError and writes
  -- nothing unless there are 1 to 7 replicas, the id is below their number and the round is not
  -- empty; else the four registers hold the arguments, where they hold what is written, if the
  -- length of the round and the Ethernet type have 32 bits.
  pub configure_replica-Configured :
      (id num len eth : ℕ) (s : SsrDevice) (hw : Hw)
      → s.rb ≡ true
      → len < 2 ^ 32
      → eth < 2 ^ 32
      → Configured
          (is_replica id num len)
          id
          num
          len
          eth
          s
          hw
          (configure_replica p id num len eth s hw)
  configure_replica-Configured id num len eth s hw bound below below' =
      outcome (is_replica id num len) refl
    where
      outcome :
          (b : Bool)
          → is_replica id num len ≡ b
          → Configured b id num len eth s hw (configure_replica p id num len eth s hw)
      outcome true valid =
          rw (configure_writes id num len eth s hw bound valid)
            (settings_hold id num len eth s hw valid below below')
      outcome false invalid = configure_raises id num len eth s hw invalid
