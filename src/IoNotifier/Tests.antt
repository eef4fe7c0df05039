-- ===== src/IoNotifier/Tests.antt =====
-- src/detail/io_notifier_epoll.cpp: runs at concrete inputs.
use libcoro.Base.{◌^◌, ◌<◌, ◌≡◌, true, arith}
use libcoro.IoNotifier.{encode_udata, decode_udata}
use libcoro.IoNotifier.UserData.{decode_udata-encode_udata}

decode_udata-encode_udata_example :
    (decode_udata (encode_udata true true 140_737_488_355_327) ≡ (true, true, 140_737_488_355_327))
    × (encode_udata true true 140_737_488_355_327 < 2 ^ 64)
decode_udata-encode_udata_example =
    decode_udata-encode_udata true true 140_737_488_355_327 (omega arith)
