-- ===== src/Net/IoStatus.antt =====
-- include/coro/net/io_status.hpp and src/net/io_status.cpp. An `int` is kept as its bit pattern.
use libcoro.Base.{ℕ, ◌-◌, ◌^◌, Bool, true, false, ◌==◌, if◌then◌else◌}
use libcoro.Poll.{PollStatus}

-- `io_status::kind`
pub data Kind : Type 0 where
  ok closed connection_reset connection_refused timeout would_block_or_try_again : Kind
  polling_error cancelled udp_not_bound message_too_big native unknown : Kind

pub record IoStatus : Type 0 where
  pub type : Kind
  pub native_code : ℕ

-- An `io_status` that is made from its kind alone.
abbrev pub io_status : Kind → IoStatus
io_status k = record { type = k; native_code = 0 }

abbrev pub kind_is_ok : Kind → Bool
kind_is_ok Kind.ok = true
kind_is_ok _ = false

abbrev pub kind_is_try_again : Kind → Bool
kind_is_try_again Kind.would_block_or_try_again = true
kind_is_try_again _ = false

-- `io_status::is_ok` and `io_status::try_again`
abbrev pub is_ok : IoStatus → Bool
is_ok s = kind_is_ok s.type

abbrev pub try_again : IoStatus → Bool
try_again s = kind_is_try_again s.type

-- The platform's error numbers.
pub record Errno : Type 0 where
  pub econnrefused : ℕ
  pub econnreset : ℕ
  pub eagain : ℕ
  pub emsgsize : ℕ

-- `EOF` is -1.
abbrev pub eof : ℕ
eof = 2 ^ 32 - 1

abbrev pub native_kind : Errno → ℕ → Kind
native_kind e code =
    if code == 0
    then Kind.ok
    else if code == eof
    then Kind.closed
    else if code == e.econnrefused
    then Kind.connection_refused
    else if code == e.econnreset
    then Kind.connection_reset
    else if code == e.eagain
    then Kind.would_block_or_try_again
    else if code == e.emsgsize
    then Kind.message_too_big
    else Kind.native

-- `make_io_status_from_native`
unfoldable pub make_io_status_from_native : Errno → ℕ → IoStatus
make_io_status_from_native e code = record { type = native_kind e code; native_code = code }

-- `make_io_status_from_poll_status`
unfoldable pub make_io_status_from_poll_status : PollStatus → IoStatus
make_io_status_from_poll_status PollStatus.read = io_status Kind.ok
make_io_status_from_poll_status PollStatus.write = io_status Kind.ok
make_io_status_from_poll_status PollStatus.timeout = io_status Kind.timeout
make_io_status_from_poll_status PollStatus.error = io_status Kind.polling_error
make_io_status_from_poll_status PollStatus.closed = io_status Kind.closed
make_io_status_from_poll_status PollStatus.cancelled = io_status Kind.cancelled
