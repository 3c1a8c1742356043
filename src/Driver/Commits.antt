-- ===== src/Driver/Commits.antt =====
-- CommitBuffer and CommitQueue of ssr_dataplane.py. A queue and its two buffers are one state; a
-- method of a buffer takes its index, the one it is constructed with.
pub mod Queue
pub mod Running
pub mod Opening
pub mod Batches
use syncons.Base.{
  ℕ, ◌+◌, ◌*◌, ◌/◌, ◌%◌, ◌^◌, bit_and, String, Bool, false, not, Option, none, some, List, [], ◌∷◌,
  str_eq, ltb, if◌then◌else◌, Dict, lookup,
}
use syncons.Bitmap.{has_bit}
use syncons.Wire.{Bytes}
use syncons.Driver.{
  read_dword, write_dword, reg_commit_dma_buf0_addr_lo, reg_commit_dma_buf0_addr_hi,
  reg_commit_dma_buf0_slot_capacity, reg_commit_dma_buf0_control, reg_commit_dma_buf0_status,
  reg_commit_dma_buf0_completed_count, reg_commit_dma_buf0_error_count, reg_commit_dma_buf1_addr_lo,
  reg_commit_dma_buf1_addr_hi, reg_commit_dma_buf1_slot_capacity, reg_commit_dma_buf1_control,
  reg_commit_dma_buf1_status, reg_commit_dma_buf1_completed_count, reg_commit_dma_buf1_error_count,
  Region, Platform, DriverError, runtime_error, value_error, key_error, ok, Done, Call, ◌>>=◌, ◌>>◌,
  pure, gets, modify, raise_if, or_raise,
}

pub data CommitBufferState : Type 0 where
  unconfigured software_owned hardware_owned buffer_completed buffer_error : CommitBufferState

pub record CommitRecord : Type 0 where
  pub buffer_index : ℕ
  pub slot_index : ℕ
  pub data_bytes : Bytes
  pub sim_time_ns : ℕ

-- The positions of ARMED, DONE and ERROR in CommitBufferStatus.
abbrev pub buffer_armed : ℕ
buffer_armed = 0

abbrev pub buffer_done : ℕ
buffer_done = 1

abbrev pub buffer_failed : ℕ
buffer_failed = 2

-- START and STOP of CommitControl, ARM and CLEAR of CommitBufferControl.
abbrev pub commit_start : ℕ
commit_start = 1

abbrev pub commit_stop : ℕ
commit_stop = 2

abbrev pub buffer_arm : ℕ
buffer_arm = 1

abbrev pub buffer_clear : ℕ
buffer_clear = 2

-- A dict of registers by name.
abbrev pub Registry : Type 0
Registry = List (String × ℕ)

abbrev pub register_of : String → Registry → Option ℕ
register_of name [] = none
register_of name ((key, addr) ∷ regs) = if str_eq name key then some addr else register_of name regs

unfoldable pub buffer_regs : Dict Registry
buffer_regs =
    (
      0,
      ("addr_lo", reg_commit_dma_buf0_addr_lo)
          ∷ ("addr_hi", reg_commit_dma_buf0_addr_hi)
          ∷ ("capacity", reg_commit_dma_buf0_slot_capacity)
          ∷ ("control", reg_commit_dma_buf0_control)
          ∷ ("status", reg_commit_dma_buf0_status)
          ∷ ("completed", reg_commit_dma_buf0_completed_count)
          ∷ ("error", reg_commit_dma_buf0_error_count)
          ∷ [],
    )
    ∷ (
      1,
      ("addr_lo", reg_commit_dma_buf1_addr_lo)
          ∷ ("addr_hi", reg_commit_dma_buf1_addr_hi)
          ∷ ("capacity", reg_commit_dma_buf1_slot_capacity)
          ∷ ("control", reg_commit_dma_buf1_control)
          ∷ ("status", reg_commit_dma_buf1_status)
          ∷ ("completed", reg_commit_dma_buf1_completed_count)
          ∷ ("error", reg_commit_dma_buf1_error_count)
          ∷ [],
    )
    ∷ []

pub record CommitBuffer : Type 0 where
  pub index : ℕ
  pub reg : Registry
  pub region : Option Region
  pub capacity : Option ℕ
  pub stride : Option ℕ

-- `none` is the ValueError.
unfoldable pub new_commit_buffer : ℕ → Option CommitBuffer
unfolding buffer_regs
new_commit_buffer index = elim (lookup index buffer_regs) [
  | none ↦ none
  | some reg ↦
      some (record { index = index; reg = reg; region = none; capacity = none; stride = none })
]

-- In the queue `_completed`, `none` is the None that `stop` puts there.
pub record CommitQueue : Type 0 where
  pub buffer0 : CommitBuffer
  pub buffer1 : CommitBuffer
  pub completed : List (Option CommitRecord)
  pub slot_len : Option ℕ
  pub slot_count : ℕ
  pub opened : Bool
  pub running : Bool
  pub poll_interval_ns : ℕ
  pub run_error : Option DriverError

-- `none` is the ValueError of a buffer.
unfoldable pub new_commit_queue : Option CommitQueue
unfolding new_commit_buffer
new_commit_queue = elim (new_commit_buffer 0) [
  | none ↦ none
  | some b0 ↦ elim (new_commit_buffer 1) [
    | none ↦ none
    | some b1 ↦ some (record {
      buffer0 = b0;
      buffer1 = b1;
      completed = [];
      slot_len = none;
      slot_count = 0;
      opened = false;
      running = false;
      poll_interval_ns = 200;
      run_error = none;
    })
  ]
]

-- A buffer of the tuple `_buffers`, by its place there.
pub data Place : Type 0 where
  first second : Place

abbrev pub buffer_at : Place → CommitQueue → CommitBuffer
buffer_at first q = q.buffer0
buffer_at second q = q.buffer1

abbrev pub with_buffer : Place → CommitBuffer → CommitQueue → CommitQueue
with_buffer first b q = record q { buffer0 = b }
with_buffer second b q = record q { buffer1 = b }

abbrev pub blank_buffer : CommitBuffer → CommitBuffer
blank_buffer b = record b { region = none; capacity = none; stride = none }

abbrev pub configured : Place → Region → ℕ → ℕ → CommitQueue → CommitQueue
configured place held slots width q =
    with_buffer place
      (record (buffer_at place q) {
        region = some held;
        capacity = some slots;
        stride = some width;
      })
      q

abbrev pub CommitCall : Type 0 → Type 0 → Type 0
CommitCall Hw A = Call Hw CommitQueue A

module _ {Hw : Type 0} (p : Platform Hw) where
  -- `self.reg[name]`
  unfoldable pub reg_named : Place → String → CommitCall Hw ℕ
  reg_named place name q = or_raise (register_of name (buffer_at place q).reg) key_error q

  unfoldable pub write_buffer_reg : Place → String → ℕ → CommitCall Hw Done
  unfolding reg_named
  write_buffer_reg place name value = reg_named place name >>= λ addr. write_dword p addr value

  unfoldable pub read_buffer_reg : Place → String → CommitCall Hw ℕ
  unfolding reg_named
  read_buffer_reg place name = reg_named place name >>= λ addr. read_dword p addr

  -- The first three writes of `configure`.
  unfoldable pub write_area : Place → Region → ℕ → CommitCall Hw Done
  unfolding write_buffer_reg
  write_area place held slots = do
    write_buffer_reg place "addr_lo" (held.address % 2 ^ 32)
    write_buffer_reg place "addr_hi" (held.address / 2 ^ 32 % 2 ^ 32)
    write_buffer_reg place "capacity" slots

  unfoldable pub configure_buffer : Place → Region → ℕ → ℕ → CommitCall Hw Done
  unfolding write_area write_buffer_reg
  configure_buffer place held slots width = do
    write_area place held slots
    write_buffer_reg place "stride_lo" (width % 2 ^ 32)
    write_buffer_reg place "stride_hi" (width / 2 ^ 32 % 2 ^ 32)
    modify (configured place held slots width)

  unfoldable pub read_raw_status : Place → CommitCall Hw ℕ
  unfolding read_buffer_reg
  read_raw_status place = read_buffer_reg place "status" >>= λ raw. pure (bit_and raw 7)

  unfoldable pub read_buffer_status : Place → CommitCall Hw CommitBufferState
  unfolding read_raw_status
  read_buffer_status place = do
    region ← gets (λ q. (buffer_at place q).region)
    elim region [
      | none ↦ pure unconfigured
      | some _ ↦ read_raw_status place >>= λ raw. pure (
          if has_bit raw buffer_done
          then buffer_completed
          else if has_bit raw buffer_failed
          then buffer_error
          else if has_bit raw buffer_armed
          then hardware_owned
          else software_owned)
    ]

  unfoldable pub read_completed_count : Place → CommitCall Hw ℕ
  unfolding read_buffer_reg
  read_completed_count place = read_buffer_reg place "completed"

  unfoldable pub read_error_count : Place → CommitCall Hw ℕ
  unfolding read_buffer_reg
  read_error_count place = read_buffer_reg place "error"

  unfoldable pub arm_buffer : Place → CommitCall Hw Done
  unfolding write_buffer_reg
  arm_buffer place = write_buffer_reg place "control" buffer_arm

  unfoldable pub clear_buffer : Place → CommitCall Hw Done
  unfolding write_buffer_reg
  clear_buffer place = write_buffer_reg place "control" buffer_clear

  unfoldable pub release_and_rearm : Place → CommitCall Hw Done
  unfolding clear_buffer arm_buffer
  release_and_rearm place = clear_buffer place >> arm_buffer place

  -- The three tests for None, and the slot.
  unfoldable pub read_slot_of : CommitBuffer → ℕ → CommitCall Hw Bytes
  read_slot_of b slot_index = do
    held ← or_raise b.region runtime_error
    width ← or_raise b.stride runtime_error
    slots ← or_raise b.capacity runtime_error
    raise_if (not (ltb slot_index slots)) value_error
    λ q hw. (ok (p.load held (slot_index * width) (slot_index * width + width) hw), (q, hw))

  unfoldable pub read_slot : Place → ℕ → CommitCall Hw Bytes
  unfolding read_slot_of
  read_slot place slot_index q = read_slot_of (buffer_at place q) slot_index q
