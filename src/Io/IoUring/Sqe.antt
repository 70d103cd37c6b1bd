-- ===== src/Io/IoUring/Sqe.antt =====
-- `IOUringSQE` (bipolar/io/io_uring.hpp): the preparation of a submission entry. The fields are those of the
-- kernel's `io_uring_sqe` that the code writes; `len` has 32 bits there, `off` and `addr` have 64. The
-- three flag fields are one word in the kernel's structure, of which an operation writes one.
use bipolar.Common.{ℕ, u32, u64}

pub record Sqe : Type 0 where
  pub opcode : ℕ
  pub fd : ℕ
  pub off : ℕ
  pub addr : ℕ
  pub len : ℕ
  pub buf_index : ℕ
  pub poll_events : ℕ
  pub fsync_flags : ℕ
  pub sync_range_flags : ℕ
  pub user_data : ℕ

-- The operations' codes, from the kernel's header.
pub record Opcodes : Type 0 where
  pub op_readv : ℕ
  pub op_read_fixed : ℕ
  pub op_writev : ℕ
  pub op_write_fixed : ℕ
  pub op_poll_add : ℕ
  pub op_poll_remove : ℕ
  pub op_fsync : ℕ
  pub op_sync_file_range : ℕ
  pub op_recvmsg : ℕ
  pub op_sendmsg : ℕ
  pub op_nop : ℕ

abbrev pub clear : Sqe → Sqe
clear this = record {
  opcode = 0;
  fd = 0;
  off = 0;
  addr = 0;
  len = 0;
  buf_index = 0;
  poll_events = 0;
  fsync_flags = 0;
  sync_range_flags = 0;
  user_data = 0;
}

abbrev pub prep_rw : ℕ → ℕ → ℕ → ℕ → ℕ → Sqe → Sqe
prep_rw op fd addr len offset this =
    let e = clear this in
    record e { opcode = op; fd = fd; off = u64 offset; addr = u64 addr; len = u32 len }

module _ (ops : Opcodes) where
  unfoldable pub readv : ℕ → ℕ → ℕ → ℕ → Sqe → Sqe
  readv fd iovecs n offset this = prep_rw ops.op_readv fd iovecs n offset this

  unfoldable pub read_fixed : ℕ → ℕ → ℕ → ℕ → ℕ → Sqe → Sqe
  read_fixed fd buf n offset buf_index this =
      let e = prep_rw ops.op_read_fixed fd buf n offset this in record e { buf_index = buf_index }

  unfoldable pub writev : ℕ → ℕ → ℕ → ℕ → Sqe → Sqe
  writev fd iovecs n offset this = prep_rw ops.op_writev fd iovecs n offset this

  unfoldable pub write_fixed : ℕ → ℕ → ℕ → ℕ → ℕ → Sqe → Sqe
  write_fixed fd buf n offset buf_index this =
      let e = prep_rw ops.op_write_fixed fd buf n offset this in record e { buf_index = buf_index }

  unfoldable pub poll_add : ℕ → ℕ → Sqe → Sqe
  poll_add fd poll_events this =
      let e = clear this in
      record e { opcode = ops.op_poll_add; fd = fd; poll_events = poll_events }

  unfoldable pub poll_remove : ℕ → Sqe → Sqe
  poll_remove user_data this =
      let e = clear this in record e { opcode = ops.op_poll_remove; addr = u64 user_data }

  unfoldable pub fsync : ℕ → ℕ → Sqe → Sqe
  fsync fd fsync_flags this =
      let e = clear this in record e { opcode = ops.op_fsync; fd = fd; fsync_flags = fsync_flags }

  unfoldable pub sync_file_range : ℕ → ℕ → ℕ → ℕ → Sqe → Sqe
  sync_file_range fd offset nbytes flags this =
      let e = clear this in
      record e {
        opcode = ops.op_sync_file_range;
        fd = fd;
        off = u64 offset;
        len = u32 nbytes;
        sync_range_flags = flags;
      }

  unfoldable pub recvmsg : ℕ → ℕ → ℕ → Sqe → Sqe
  recvmsg fd msgs n this =
      let e = clear this in
      record e { opcode = ops.op_recvmsg; fd = fd; addr = u64 msgs; len = u32 n }

  unfoldable pub sendmsg : ℕ → ℕ → ℕ → Sqe → Sqe
  sendmsg fd msgs n this =
      let e = clear this in
      record e { opcode = ops.op_sendmsg; fd = fd; addr = u64 msgs; len = u32 n }

  unfoldable pub nop : Sqe → Sqe
  nop this = let e = clear this in record e { opcode = ops.op_nop }
