-- ===== src/Uapi.antt =====
-- kmod/vpipe.h: the interface that the kernel module shares with userspace.
use vpipe.Base.{ℕ, ◌+◌, ℤ}

abbrev pub meta_version : ℕ
meta_version = 2

-- Bit positions of the metadata flags: VPIPE_META_F_OVERRUN is 1U << 0, and so on.
abbrev pub meta_f_overrun : ℕ
meta_f_overrun = 0

abbrev pub meta_f_dropped : ℕ
meta_f_dropped = 2

abbrev pub algo_none : ℕ
algo_none = 0

abbrev pub algo_threshold : ℕ
algo_threshold = 1

-- V4L2_CID_USER_BASE of linux/v4l2-controls.h.
abbrev cid_user_base : ℕ
cid_user_base = 0x0098_0900

abbrev cid_base : ℕ
cid_base = cid_user_base + 0x1000

abbrev pub cid_src_sequence : ℕ
cid_src_sequence = cid_base + 0

abbrev pub cid_algo : ℕ
cid_algo = cid_base + 1

abbrev pub cid_roi_left : ℕ
cid_roi_left = cid_base + 2

abbrev pub cid_roi_top : ℕ
cid_roi_top = cid_base + 3

abbrev pub cid_roi_width : ℕ
cid_roi_width = cid_base + 4

abbrev pub cid_roi_height : ℕ
cid_roi_height = cid_base + 5

abbrev pub cid_threshold : ℕ
cid_threshold = cid_base + 6

-- One row of metadata. Its fields are in the order of the struct.
pub record MetaEntry : Type 0 where
  pub version : ℕ
  pub entry_size : ℕ
  pub flags : ℕ
  pub seq : ℕ
  pub src_v4l2_sequence : ℕ
  pub buffer_index : ℕ
  pub source_timestamp_ns : ℕ
  pub qbuf_timestamp_ns : ℕ
  pub capture_done_ns : ℕ
  pub dqbuf_timestamp_ns : ℕ
  pub bytesused : ℕ
  pub crc32 : ℕ
  pub algo_id : ℕ
  pub algo_status : ℕ
  pub roi_left : ℤ
  pub roi_top : ℤ
  pub roi_width : ℤ
  pub roi_height : ℤ
  pub algo_value0 : ℕ
  pub algo_value1 : ℕ
  pub source_backend : ℕ
  pub buffer_type : ℕ
  pub queue_depth : ℕ
  pub cpu_id : ℕ
