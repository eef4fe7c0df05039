-- ===== src/Poll.antt =====
-- include/coro/poll.hpp: what is polled for, and what a poll ends with.
use libcoro.Base.{Bool, true, false}

-- `poll_op`; on Linux `read_write` is the union of the bits of the other two.
pub data PollOp : Type 0 where
  read write read_write : PollOp

-- `poll_op_readable` and `poll_op_writeable`
abbrev pub poll_op_readable : PollOp → Bool
poll_op_readable PollOp.write = false
poll_op_readable _ = true

abbrev pub poll_op_writeable : PollOp → Bool
poll_op_writeable PollOp.read = false
poll_op_writeable _ = true

-- `poll_status`
pub data PollStatus : Type 0 where
  read write timeout error closed cancelled : PollStatus

abbrev pub is_read : PollStatus → Bool
is_read PollStatus.read = true
is_read _ = false

abbrev pub is_write : PollStatus → Bool
is_write PollStatus.write = true
is_write _ = false
