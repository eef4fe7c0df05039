-- ===== src/IoNotifier/UserData.antt =====
-- src/detail/io_notifier_epoll.cpp: the two flags beside a pointer in an event's 64 bits.
use libcoro.Base.{ℕ, ◌^◌, ◌<◌, ◌≡◌, Bool, true, false, arith}
use libcoro.IoNotifier.{encode_udata, decode_udata}

-- For a pointer below 2 ^ 48, `decode_udata` gives back the flags and the pointer that `encode_udata`
-- packed, and the packed value fits 64 bits.
pub decode_udata-encode_udata :
    (keep_registered is_cancel_event : Bool) (udata : ℕ)
    → udata < 2 ^ 48
    → (decode_udata (encode_udata keep_registered is_cancel_event udata)
        ≡ (keep_registered, is_cancel_event, udata))
      × (encode_udata keep_registered is_cancel_event udata < 2 ^ 64)
unfolding encode_udata decode_udata
decode_udata-encode_udata true true u h = (ground (arith, h), omega (arith, h))
decode_udata-encode_udata true false u h = (ground (arith, h), omega (arith, h))
decode_udata-encode_udata false true u h = (ground (arith, h), omega (arith, h))
decode_udata-encode_udata false false u h = (ground (arith, h), omega (arith, h))
