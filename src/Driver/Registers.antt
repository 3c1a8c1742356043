-- ===== src/Driver/Registers.antt =====
-- The addresses, identities and bits of ssr_dataplane.py.
use syncons.Base.{ℕ, ◌+◌}

abbrev pub ssr_rb_type : ℕ
ssr_rb_type = 0x53535201

abbrev pub ssr_rb_version : ℕ
ssr_rb_version = 0x100

abbrev pub ssr_rb_features : ℕ
ssr_rb_features = 0xf

abbrev pub rbb_common : ℕ
rbb_common = 0

abbrev pub rbb_proposal_queue : ℕ
rbb_proposal_queue = 0x1000

abbrev pub rbb_commit_queue : ℕ
rbb_commit_queue = 0x2000

abbrev pub rbb_consensus_core : ℕ
rbb_consensus_core = 0x3000

abbrev pub common_reg_type : ℕ
common_reg_type = rbb_common + 0

abbrev pub common_reg_version : ℕ
common_reg_version = rbb_common + 4

abbrev pub common_reg_next_ptr : ℕ
common_reg_next_ptr = rbb_common + 8

abbrev pub common_reg_features : ℕ
common_reg_features = rbb_common + 0xc

abbrev pub common_reg_control : ℕ
common_reg_control = rbb_common + 0x10

abbrev pub common_reg_status : ℕ
common_reg_status = rbb_common + 0x14

abbrev pub common_reg_error : ℕ
common_reg_error = rbb_common + 0x18

abbrev pub common_reg_scratch : ℕ
common_reg_scratch = rbb_common + 0x1c

abbrev pub common_reg_config_replica_id : ℕ
common_reg_config_replica_id = rbb_common + 0x20

abbrev pub common_reg_config_replica_num : ℕ
common_reg_config_replica_num = rbb_common + 0x24

abbrev pub common_reg_config_round_len_ns : ℕ
common_reg_config_round_len_ns = rbb_common + 0x28

abbrev pub common_reg_config_eth_type : ℕ
common_reg_config_eth_type = rbb_common + 0x2c

abbrev pub common_reg_config_mactable_addr_lo : ℕ
common_reg_config_mactable_addr_lo = rbb_common + 0x100

abbrev pub common_reg_config_mactable_addr_hi : ℕ
common_reg_config_mactable_addr_hi = rbb_common + 0x104

abbrev pub common_mac_entry_stride : ℕ
common_mac_entry_stride = 8

abbrev pub common_max_replicas : ℕ
common_max_replicas = 7

abbrev pub proposal_magic : ℕ
proposal_magic = 0x70726f71

abbrev pub proposal_version : ℕ
proposal_version = 0x100

abbrev pub reg_proposal_magic : ℕ
reg_proposal_magic = rbb_proposal_queue + 0

abbrev pub reg_proposal_version : ℕ
reg_proposal_version = rbb_proposal_queue + 4

abbrev pub reg_proposal_features : ℕ
reg_proposal_features = rbb_proposal_queue + 8

abbrev pub reg_proposal_slot_bytes : ℕ
reg_proposal_slot_bytes = rbb_proposal_queue + 0xc

abbrev pub reg_proposal_control : ℕ
reg_proposal_control = rbb_proposal_queue + 0x10

abbrev pub reg_proposal_status : ℕ
reg_proposal_status = rbb_proposal_queue + 0x14

abbrev pub reg_proposal_entry_counter_lo : ℕ
reg_proposal_entry_counter_lo = rbb_proposal_queue + 0x18

abbrev pub reg_proposal_entry_counter_hi : ℕ
reg_proposal_entry_counter_hi = rbb_proposal_queue + 0x1c

abbrev pub reg_proposal_dma_addr_lo : ℕ
reg_proposal_dma_addr_lo = rbb_proposal_queue + 0x100

abbrev pub reg_proposal_dma_addr_hi : ℕ
reg_proposal_dma_addr_hi = rbb_proposal_queue + 0x104

abbrev pub reg_proposal_dma_len : ℕ
reg_proposal_dma_len = rbb_proposal_queue + 0x108

abbrev pub reg_proposal_dma_stride_lo : ℕ
reg_proposal_dma_stride_lo = rbb_proposal_queue + 0x10c

abbrev pub reg_proposal_dma_stride_hi : ℕ
reg_proposal_dma_stride_hi = rbb_proposal_queue + 0x110

abbrev pub reg_proposal_dma_count : ℕ
reg_proposal_dma_count = rbb_proposal_queue + 0x114

abbrev pub reg_proposal_dma_control : ℕ
reg_proposal_dma_control = rbb_proposal_queue + 0x118

abbrev pub reg_proposal_dma_status : ℕ
reg_proposal_dma_status = rbb_proposal_queue + 0x11c

abbrev pub reg_proposal_dma_active_index : ℕ
reg_proposal_dma_active_index = rbb_proposal_queue + 0x120

abbrev pub reg_proposal_dma_state : ℕ
reg_proposal_dma_state = rbb_proposal_queue + 0x124

abbrev pub reg_proposal_dma_status_tag : ℕ
reg_proposal_dma_status_tag = rbb_proposal_queue + 0x128

abbrev pub reg_proposal_dma_status_error : ℕ
reg_proposal_dma_status_error = rbb_proposal_queue + 0x12c

abbrev pub reg_proposal_dma_status_valid : ℕ
reg_proposal_dma_status_valid = rbb_proposal_queue + 0x130

abbrev pub commit_magic : ℕ
commit_magic = 0x636f6d71

abbrev pub commit_version : ℕ
commit_version = 0x100

abbrev pub commit_features : ℕ
commit_features = 1

abbrev pub reg_commit_magic : ℕ
reg_commit_magic = rbb_commit_queue + 0

abbrev pub reg_commit_version : ℕ
reg_commit_version = rbb_commit_queue + 4

abbrev pub reg_commit_features : ℕ
reg_commit_features = rbb_commit_queue + 8

abbrev pub reg_commit_control : ℕ
reg_commit_control = rbb_commit_queue + 0xc

abbrev pub reg_commit_status : ℕ
reg_commit_status = rbb_commit_queue + 0x10

abbrev pub reg_commit_stride_lo : ℕ
reg_commit_stride_lo = rbb_commit_queue + 0x14

abbrev pub reg_commit_stride_hi : ℕ
reg_commit_stride_hi = rbb_commit_queue + 0x18

abbrev pub reg_commit_active_buffer : ℕ
reg_commit_active_buffer = rbb_commit_queue + 0x1c

abbrev pub reg_commit_buf_slot_len : ℕ
reg_commit_buf_slot_len = rbb_commit_queue + 0x20

abbrev pub reg_commit_dma_buf0_addr_lo : ℕ
reg_commit_dma_buf0_addr_lo = rbb_commit_queue + 0x100

abbrev pub reg_commit_dma_buf0_addr_hi : ℕ
reg_commit_dma_buf0_addr_hi = rbb_commit_queue + 0x104

abbrev pub reg_commit_dma_buf0_slot_capacity : ℕ
reg_commit_dma_buf0_slot_capacity = rbb_commit_queue + 0x108

abbrev pub reg_commit_dma_buf0_control : ℕ
reg_commit_dma_buf0_control = rbb_commit_queue + 0x10c

abbrev pub reg_commit_dma_buf0_status : ℕ
reg_commit_dma_buf0_status = rbb_commit_queue + 0x110

abbrev pub reg_commit_dma_buf0_completed_count : ℕ
reg_commit_dma_buf0_completed_count = rbb_commit_queue + 0x114

abbrev pub reg_commit_dma_buf0_error_count : ℕ
reg_commit_dma_buf0_error_count = rbb_commit_queue + 0x118

abbrev pub reg_commit_dma_buf1_addr_lo : ℕ
reg_commit_dma_buf1_addr_lo = rbb_commit_queue + 0x200

abbrev pub reg_commit_dma_buf1_addr_hi : ℕ
reg_commit_dma_buf1_addr_hi = rbb_commit_queue + 0x204

abbrev pub reg_commit_dma_buf1_slot_capacity : ℕ
reg_commit_dma_buf1_slot_capacity = rbb_commit_queue + 0x208

abbrev pub reg_commit_dma_buf1_control : ℕ
reg_commit_dma_buf1_control = rbb_commit_queue + 0x20c

abbrev pub reg_commit_dma_buf1_status : ℕ
reg_commit_dma_buf1_status = rbb_commit_queue + 0x210

abbrev pub reg_commit_dma_buf1_completed_count : ℕ
reg_commit_dma_buf1_completed_count = rbb_commit_queue + 0x214

abbrev pub reg_commit_dma_buf1_error_count : ℕ
reg_commit_dma_buf1_error_count = rbb_commit_queue + 0x218

abbrev pub reg_consensus_halt : ℕ
reg_consensus_halt = rbb_consensus_core + 0

abbrev pub reg_consensus_global_enable : ℕ
reg_consensus_global_enable = rbb_consensus_core + 4

abbrev pub reg_consensus_run_id : ℕ
reg_consensus_run_id = rbb_consensus_core + 8

abbrev pub reg_consensus_membership : ℕ
reg_consensus_membership = rbb_consensus_core + 0xc

abbrev pub reg_consensus_activate : ℕ
reg_consensus_activate = rbb_consensus_core + 0x10

abbrev pub reg_consensus_reboot : ℕ
reg_consensus_reboot = rbb_consensus_core + 0x14
