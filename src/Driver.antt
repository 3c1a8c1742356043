-- ===== src/Driver.antt =====
-- prototype/fpga/tb/mqnic_core_pcie_us/ssr_dataplane.py: the driver of the dataplane in the
-- hardware simulation. mqnic and cocotb are the parameter Platform; logging is left out.
pub mod Outcomes
pub mod Polling
pub mod Proposals
pub mod Commits
pub mod Consensus
pub mod Device
mod Examples
mod Registers
mod Hardware
mod Calls
pub use Registers.*
pub use Hardware.*
pub use Calls.*
use syncons.Base.{
  ℕ, zero, suc, ◌+◌, ◌-◌, ◌*◌, ◌/◌, ◌%◌, ◌^◌, Bool, true, false, not, ◌&&◌, ◌||◌, Option, none,
  some, List, [], ◌∷◌, ◌++◌, if◌then◌else◌, ltb, ◌==◌, bit_and, bit_or,
}
use syncons.Wire.Harness.{repeated}

module _ {Hw S : Type 0} where
  -- `_validate_u32` and `_validate_u64`.
  unfoldable pub validate_u32 : ℕ → Call Hw S Done
  validate_u32 value = raise_if (not (ltb value (2 ^ 32))) value_error

  unfoldable pub validate_u64 : ℕ → Call Hw S Done
  validate_u64 value = raise_if (not (ltb value (2 ^ 64))) value_error

module _ {Hw : Type 0} (p : Platform Hw) {S : Type 0} where
  abbrev pub read_dword : ℕ → Call Hw S ℕ
  read_dword addr = λ s hw. (ok (p.read_dword addr hw).0, (s, (p.read_dword addr hw).1))

  abbrev pub write_dword : ℕ → ℕ → Call Hw S Done
  write_dword addr value = λ s hw. (ok done, (s, p.write_dword addr value hw))

  abbrev pub wait_ns : ℕ → Call Hw S Done
  wait_ns n = λ s hw. (ok done, (s, p.wait_ns n hw))

  -- The register that the source polls is the one at `addr`.
  unfoldable pub poll_register : ℕ → (ℕ → Bool) → ℕ → Call Hw S ℕ
  poll_register addr condition zero = raise timeout_error
  poll_register addr condition (suc polls) = do
    value ← read_dword addr
    elim (condition value) [
      | true ↦ pure value
      | false ↦ wait_ns 100 >> poll_register addr condition polls
    ]

  -- SSRDevice.alloc_dma_region, of a device whose `_mem_pool` is bound or not; without, the
  -- attribute is missing.
  unfoldable pub alloc_dma_region : Bool → ℕ → ℕ → Call Hw S Region
  alloc_dma_region bound size fill = raise_if (not bound) attribute_error >> λ s hw.
      let (found, hw') = p.alloc_region size hw in
      elim found [
        | none ↦ (err runtime_error, (s, hw'))
        | some region ↦ (ok region, (s, p.store region 0 (repeated size fill) hw'))
      ]
