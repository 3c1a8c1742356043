-- ===== src/Driver/Examples.antt =====
-- A bench for the driver: registers that hold what is written to them, a memory, and a clock.
use syncons.Base.{
  ℕ, ◌+◌, ◌≤◌, ◌≡◌, refl, true, false, none, some, List, [], ◌∷◌, ◌++◌, arith, ◌==◌, if◌then◌else◌,
  Dict, lookup_or, insert, lookup-insert,
}
use syncons.Bitmap.{has_bit}
use syncons.Wire.{Bytes, slice}
use syncons.Driver.Proposals.Delivery.{IsSent, propose-IsSent}
use syncons.Driver.Proposals.Transfers.{
  submit, wait_done, store_records, tally, confirm, admit, transfer, propose,
}
use syncons.Driver.Commits.Queue.{open_buffer, identify_commits, open_buffers, open_commit_queue}
use syncons.Driver.Commits.Running.{recv_batch}
use syncons.Driver.Device.MacTable.{read_mac_address-write_mac_address}
use syncons.Driver.{
  validate_u32, validate_u64, poll_register, alloc_dma_region, proposal_magic, proposal_version,
  reg_proposal_magic, reg_proposal_version, reg_proposal_slot_bytes, reg_proposal_status,
  reg_proposal_entry_counter_lo, reg_proposal_dma_count, reg_proposal_dma_control, commit_magic,
  commit_version, reg_commit_magic, reg_commit_version, reg_commit_buf_slot_len,
  reg_commit_dma_buf0_status, reg_commit_dma_buf0_completed_count, Region, Platform, HoldsWords,
  key_error, ok, err, ◌>>◌,
}
use syncons.Driver.Polling.{Polled, poll_register-Polled}
use syncons.Driver.Outcomes.{is_ok, Holds}
use syncons.Driver.Proposals.{
  ProposalQueue, new_proposal_queue, require_open_proposals, read_slot_length, read_proposal_status,
  read_active_index, read_entry_counter, read_dma_status, clear_flags, open_proposal_queue,
}
use syncons.Driver.Commits.{
  buffer_regs, CommitBuffer, new_commit_buffer, CommitQueue, new_commit_queue, reg_named,
  write_buffer_reg, write_area, configure_buffer,
}
use syncons.Driver.Commits.Batches.{IsBatch, recv_batch-IsBatch}
use syncons.Driver.Device.{
  probed, SsrDevice, new_device, on_proposal, on_commit, Mac, of_bytes, mac_to_int, require_state,
  open_device, write_mac_address, read_mac_address,
}
use syncons.Driver.Device.Config.{is_config}
use syncons.Driver.Device.Lifecycle.{
  DeviceOp, probe_op, open_op, reset_op, start_op, commit_open_op, commit_start_op, perform_all,
  is_idle, is_open_commit, perform_all_unopened,
}

record Bench : Type 0 where
  regs : Dict ℕ
  memory : Bytes
  time : ℕ

abbrev bench : Platform Bench
bench = record {
  read_dword = λ (addr : ℕ) (hw : Bench). (lookup_or addr 0 hw.regs, hw);
  write_dword =
      λ (addr : ℕ) (value : ℕ) (hw : Bench). record hw { regs = insert addr value hw.regs };
  wait_ns = λ (n : ℕ) (hw : Bench). record hw { time = hw.time + n };
  sim_time = λ (hw : Bench). hw.time;
  alloc_region = λ (size : ℕ) (hw : Bench). (some (record { address = 4096; size = size }), hw);
  store =
      λ (region : Region) (offset : ℕ) (bytes : Bytes) (hw : Bench). record hw { memory = bytes };
  load = λ (region : Region) (start : ℕ) (end : ℕ) (hw : Bench). slice start end hw.memory;
  enumerate_reg_blocks = λ (hw : Bench). hw;
  find = λ (kind : ℕ) (version : ℕ) (hw : Bench). true;
}

bench-HoldsWords : HoldsWords bench is_config
bench-HoldsWords = record {
  read_written =
      λ (a : ℕ) (v : ℕ) (hw : Bench) plain small. ground (arith, lookup-insert a a v hw.regs);
  read_other = λ (a : ℕ) (b : ℕ) (v : ℕ) (hw : Bench) plain plain' apart.
      ground (arith, lookup-insert a b v hw.regs);
  read_again = λ (a : ℕ) (b : ℕ) (hw : Bench) plain plain'. refl;
}

-- Both queues answer with their identities and a slot of 4 bytes; buffer 0 is done with 2 slots.
abbrev hw0 : Bench
hw0 = record {
  regs =
      (reg_proposal_magic, proposal_magic)
      ∷ (reg_proposal_version, proposal_version)
      ∷ (reg_proposal_slot_bytes, 4)
      ∷ (reg_commit_magic, commit_magic)
      ∷ (reg_commit_version, commit_version)
      ∷ (reg_commit_buf_slot_len, 4)
      ∷ (reg_commit_dma_buf0_status, 2)
      ∷ (reg_commit_dma_buf0_completed_count, 2)
      ∷ [];
  memory = 1 ∷ 2 ∷ 3 ∷ 4 ∷ 5 ∷ 6 ∷ 7 ∷ 8 ∷ [];
  time = 700;
}

abbrev calls : List DeviceOp
calls =
    probe_op (some (record { initialized = true; has_app_hw_regs = true }))
    ∷ open_op
    ∷ commit_open_op 4
    ∷ commit_start_op
    ∷ start_op
    ∷ reset_op
    ∷ []

abbrev after_calls : SsrDevice × Bench
after_calls = perform_all bench calls new_device hw0

perform_all_unopened_example :
    (is_idle after_calls.0.state ≡ true)
    × (is_open_commit after_calls.0 ≡ false)
    × (is_ok (open_device bench after_calls.0 after_calls.1).0 ≡ false)
perform_all_unopened_example = perform_all_unopened bench calls hw0

abbrev proposals : ProposalQueue
proposals = record {
  opened = true;
  slot_len = some 4;
  region = some (record { address = 4096; size = 32 });
  region_slots = 8;
}

-- A start completes the transfer: the counter grows by the count.
abbrev dma_bench : Platform Bench
dma_bench = record bench {
  write_dword = λ (addr : ℕ) (value : ℕ) (hw : Bench). record hw {
    regs =
        if addr == reg_proposal_dma_control
        then insert reg_proposal_status 2 (
            insert reg_proposal_entry_counter_lo
              (lookup_or reg_proposal_entry_counter_lo 0 hw.regs
                + lookup_or reg_proposal_dma_count 0 hw.regs)
              hw.regs)
        else insert addr value hw.regs;
  };
}

abbrev bytewise : ProposalQueue
bytewise = record proposals { slot_len = some 1 }

abbrev two_bytes : List Bytes
two_bytes = (7 ∷ []) ∷ (8 ∷ []) ∷ []

propose_run :
    (propose dma_bench two_bytes true 10 bytewise hw0).0
    ≡ ok (
        some (record {
          requested_count = 2;
          completed_count = 2;
          entry_counter_before = 0;
          entry_counter_after = 2;
          last_dma_status_valid = false;
        }))
unfolding propose admit transfer require_open_proposals store_records read_entry_counter submit
    validate_u64 validate_u32 read_proposal_status confirm wait_done poll_register tally
    read_active_index read_dma_status has_bit
propose_run = refl

propose-IsSent_example :
    Holds (IsSent 1 two_bytes true) (propose dma_bench two_bytes true 10 bytewise hw0).0
propose-IsSent_example = propose-IsSent dma_bench two_bytes true 10 1 bytewise hw0 refl

-- The second bit of the status is not set, so three polls find nothing.
poll_register-Polled_example :
    Polled bench reg_proposal_status
      (λ status. has_bit status 1)
      3
      proposals
      hw0
      (poll_register bench reg_proposal_status (λ status. has_bit status 1) 3 proposals hw0)
poll_register-Polled_example =
    poll_register-Polled bench reg_proposal_status (λ status. has_bit status 1) 3 proposals hw0

abbrev held_region : Region
held_region = record { address = 4096; size = 8 }

abbrev held : ℕ → CommitBuffer
held index = record {
  index = index;
  reg = lookup_or index [] buffer_regs;
  region = some held_region;
  capacity = some 2;
  stride = some 4;
}

abbrev commits : CommitQueue
commits = record {
  buffer0 = held 0;
  buffer1 = held 1;
  completed = [];
  slot_len = some 4;
  slot_count = 2;
  opened = true;
  running = true;
  poll_interval_ns = 200;
  run_error = none;
}

-- Meanwhile a record comes in.
abbrev fills : CommitQueue → Bench → CommitQueue × Bench
fills q hw = (
  record q {
    completed =
        q.completed
        ++ some (record { buffer_index = 0; slot_index = 0; data_bytes = 1 ∷ []; sim_time_ns = 0 })
          ∷ [];
  },
  hw,
)

fills_ticks :
    (q : CommitQueue) (hw : Bench)
    → bench.sim_time hw + 100 ≤ bench.sim_time (fills q (bench.wait_ns 100 hw)).1
fills_ticks q hw = omega arith

recv_batch-IsBatch_example : IsBatch 2 (recv_batch bench fills 20 2 1000 commits hw0).0
recv_batch-IsBatch_example =
    recv_batch-IsBatch bench fills fills_ticks 20 2 1000 commits hw0 (omega arith)

abbrev device : SsrDevice
device = record {
  state = probed;
  mem_pool = true;
  rb = true;
  proposal = none;
  commit = none;
  consensus = true;
  commit_task = false;
}

abbrev mac : Mac
mac = of_bytes (2 ∷ 0 ∷ 0 ∷ 1 ∷ 2 ∷ 3 ∷ [])

abbrev mac_value : ℕ
mac_value = 2_199_023_321_603

mac_value_lem : mac_to_int mac ≡ some mac_value
unfolding mac_to_int
mac_value_lem = refl

read_mac_address-write_mac_address_example :
    ((write_mac_address bench 3 mac >> read_mac_address bench 3) device hw0).0
    ≡ ok 2_199_023_321_603
read_mac_address-write_mac_address_example =
    read_mac_address-write_mac_address bench bench-HoldsWords 3 3 mac_value mac device hw0 refl
      (omega arith) (omega arith) mac_value_lem

-- The calls run.
open_device_run :
    (open_device bench
      (record device { proposal = some new_proposal_queue; commit = new_commit_queue })
      hw0).0
    ≡ err key_error
unfolding open_device require_state on_proposal on_commit new_proposal_queue new_commit_queue
    new_commit_buffer buffer_regs open_proposal_queue read_slot_length clear_flags alloc_dma_region
    open_commit_queue identify_commits open_buffers open_buffer configure_buffer write_area
    write_buffer_reg reg_named
open_device_run = refl
