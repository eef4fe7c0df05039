-- ===== src/IoNotifier.antt =====
-- src/detail/io_notifier_epoll.cpp: the descriptors that epoll watches for poll_infos, and the user
-- data of an event. The calls of the kernel are a parameter.
pub mod UserData
pub mod Tests
use libcoro.Base.{
  ℕ, suc, ◌+◌, ◌-◌, ◌*◌, ◌/◌, ◌%◌, ◌^◌, ◌==◌, ◌≡◌, ltb, leb, Bool, true, false, not, ◌&&◌, ◌||◌,
  Option, none, some, List, [], ◌∷◌, ◌++◌, if◌then◌else◌,
}
use libcoro.Poll.{PollOp, PollStatus}

-- `watch_timer`, by the time at which the timer expires: at once, in a nanosecond, if the time point
-- is past.
unfoldable pub watch_timer : ℕ → ℕ → ℕ
watch_timer now tp = now + (if tp - now == 0 then 1 else tp - now)

-- An event's bits.
pub record EventBits : Type 0 where
  pub epollin : Bool
  pub epollout : Bool
  pub epollerr : Bool
  pub epollrdhup : Bool
  pub epollhup : Bool

-- `event_to_poll_status`; `none` where it throws.
unfoldable pub event_to_poll_status : EventBits → Option PollStatus
event_to_poll_status ev =
    if ev.epollin
    then some PollStatus.read
    else if ev.epollout
    then some PollStatus.write
    else if ev.epollerr
    then some PollStatus.error
    else if ev.epollrdhup || ev.epollhup
    then some PollStatus.closed
    else none

abbrev pub bit : Bool → ℕ
bit true = 1
bit false = 0

-- `encode_udata`: a pointer is a number below 2 ^ 64, and the fields that are joined by `|` do not
-- overlap.
unfoldable pub encode_udata : Bool → Bool → ℕ → ℕ
encode_udata keep_registered is_cancel_event udata =
    bit keep_registered * 2 ^ 63 + bit is_cancel_event * 2 ^ 62 + udata % 2 ^ 62

-- `decode_udata`
unfoldable pub decode_udata : ℕ → Bool × Bool × ℕ
decode_udata encoded =
    (not (encoded / 2 ^ 63 == 0), not (encoded / 2 ^ 62 % 2 == 0), encoded % 2 ^ 48)

-- `epoll_ctl` on the epoll instance, whose state is in `E`. The source does not look at its results.
pub record EpollCtl (E : Type 0) : Type 0 where
  -- EPOLL_CTL_ADD of a descriptor, with the 64 bits of user data of its events
  pub ctl_add : E → (fd udata : ℕ) → E
  -- EPOLL_CTL_DEL
  pub ctl_del : E → (fd : ℕ) → E

module _ {E : Type 0} ⦃ctl : EpollCtl E⦄ where
  -- `watch` of a descriptor that is not kept
  unfoldable pub watch : E → ℕ → ℕ → Bool → E
  unfolding encode_udata
  watch k fd i is_cancel_event = ctl.ctl_add k fd (encode_udata false is_cancel_event i)

  abbrev pub watch_optional : E → Option ℕ → ℕ → Bool → E
  watch_optional k none i is_cancel_event = k
  watch_optional k (some fd) i is_cancel_event = watch k fd i is_cancel_event

  -- `watch(poll_info&)`, whose answer is always true. `none` is descriptor -1, at which `epoll_ctl`
  -- fails.
  unfoldable pub watch_info : E → ℕ → Option ℕ → Option ℕ → E
  unfolding watch
  watch_info k i fd cancel_trigger =
      watch_optional (watch_optional k fd i false) cancel_trigger i true

  -- `unwatch` of a descriptor
  unfoldable pub unwatch : E → ℕ → E
  unwatch k fd = ctl.ctl_del k fd

abbrev pub or_else : Option ℕ → ℕ → ℕ
or_else none v = v
or_else (some u) v = u

-- What the source relies on of `epoll_ctl`: adding a descriptor that is registered fails, and changes
-- nothing. `find` is the user data that a descriptor is registered with.
pub record EpollLaws {E : Type 0} (ctl : EpollCtl E) : Type 0 where
  pub find : E → ℕ → Option ℕ
  pub find_add :
      (k : E) (fd udata g : ℕ)
      → find (ctl.ctl_add k fd udata) g
        ≡ (if g == fd then some (or_else (find k fd) udata) else find k g)
  pub find_del :
      (k : E) (fd g : ℕ) → find (ctl.ctl_del k fd) g ≡ (if g == fd then none else find k g)
