-- ===== src/Driver/Hardware.antt =====
-- What prototype/fpga/tb/mqnic_core_pcie_us/ssr_dataplane.py takes from mqnic and cocotb: the
-- register block, the memory pool and the time of the simulation. `Hw` is everything behind them.
use syncons.Base.{ℕ, ◌^◌, ◌<◌, ◌≡◌, ◌≢◌, Bool, true, Option}
use syncons.Wire.{Bytes}

-- A region of the memory pool: `get_absolute_address(0)` and its size.
pub record Region : Type 0 where
  pub address : ℕ
  pub size : ℕ

pub record Platform (Hw : Type 0) : Type 0 where
  pub read_dword : ℕ → Hw → ℕ × Hw
  pub write_dword : ℕ → ℕ → Hw → Hw
  -- `await Timer(n, units="ns")` and `get_sim_time("ns")`
  pub wait_ns : ℕ → Hw → Hw
  pub sim_time : Hw → ℕ
  pub alloc_region : ℕ → Hw → Option Region × Hw
  -- `region[offset:offset + len(data)] = data` and `region[offset:end]`
  pub store : Region → ℕ → Bytes → Hw → Hw
  pub load : Region → ℕ → ℕ → Hw → Bytes
  -- `enumerate_reg_blocks` and `find`
  pub enumerate_reg_blocks : Hw → Hw
  pub find : ℕ → ℕ → Hw → Bool

-- The registers among `plain` hold a written word until it is written over, and reading one has no
-- effect on the others.
pub record HoldsWords {Hw : Type 0} (p : Platform Hw) (plain : ℕ → Bool) : Type 0 where
  pub read_written :
      (a v : ℕ) (hw : Hw)
      → plain a ≡ true
      → v < 2 ^ 32
      → (p.read_dword a (p.write_dword a v hw)).0 ≡ v
  pub read_other :
      (a b v : ℕ) (hw : Hw)
      → plain a ≡ true
      → plain b ≡ true
      → a ≢ b
      → (p.read_dword a (p.write_dword b v hw)).0 ≡ (p.read_dword a hw).0
  pub read_again :
      (a b : ℕ) (hw : Hw)
      → plain a ≡ true
      → plain b ≡ true
      → (p.read_dword a (p.read_dword b hw).1).0 ≡ (p.read_dword a hw).0
