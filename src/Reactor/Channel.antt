-- ===== src/Reactor/Channel.antt =====
-- channel.h and channel.cpp. A channel is an object behind a pointer; the store of channels is a
-- function of the pointer.
pub mod Events
pub mod Same
use tcp_net_library.Base.{
  ℕ, Bool, true, false, not, ◌&&◌, List, [], ◌∷◌, ◌++◌, ◌==◌, if◌then◌else◌, bit_and, bit_or, ℤ,
  negsuc,
}

abbrev pub pollin : ℕ
pollin = 0x1

abbrev pub pollpri : ℕ
pollpri = 0x2

abbrev pub pollout : ℕ
pollout = 0x4

abbrev pub pollerr : ℕ
pollerr = 0x8

abbrev pub pollhup : ℕ
pollhup = 0x10

abbrev pub pollnval : ℕ
pollnval = 0x20

abbrev pub pollrdhup : ℕ
pollrdhup = 0x2000

abbrev pub none_event : ℕ
none_event = 0

abbrev pub read_event : ℕ
read_event = bit_or pollin pollpri

abbrev pub write_event : ℕ
write_event = pollout

-- The callbacks that are set.
pub record Channel : Type 0 where
  pub fd : ℕ
  pub event : ℕ
  pub revent : ℕ
  pub index : ℤ
  pub event_handing : Bool
  pub has_read : Bool
  pub has_write : Bool
  pub has_error : Bool
  pub has_close : Bool

abbrev pub new_channel : ℕ → Channel
new_channel fd = record {
  fd = fd;
  event = 0;
  revent = 0;
  index = negsuc 0;
  event_handing = false;
  has_read = false;
  has_write = false;
  has_error = false;
  has_close = false;
}

abbrev pub set_read_callback : Channel → Bool → Channel
set_read_callback c cb = record c { has_read = cb }

abbrev pub set_write_callback : Channel → Bool → Channel
set_write_callback c cb = record c { has_write = cb }

abbrev pub set_error_callback : Channel → Bool → Channel
set_error_callback c cb = record c { has_error = cb }

abbrev pub set_close_callback : Channel → Bool → Channel
set_close_callback c cb = record c { has_close = cb }

-- `flags & mask`, as a condition.
abbrev pub has : ℕ → ℕ → Bool
has flags mask = not (bit_and flags mask == 0)

abbrev pub is_none_event : Channel → Bool
is_none_event c = c.event == none_event

abbrev pub is_writing : Channel → Bool
is_writing c = has c.event write_event

abbrev pub set_event : Channel → ℕ → Channel
set_event c revent = record c { revent = revent }

abbrev pub set_index : Channel → ℤ → Channel
set_index c idx = record c { index = idx }

-- The change of the watched events; each is followed by `update()`. The mask ~4 is that of an `int`.
abbrev pub enable_reading : Channel → Channel
enable_reading c = record c { event = bit_or c.event read_event }

abbrev pub enable_writing : Channel → Channel
enable_writing c = record c { event = bit_or c.event write_event }

abbrev pub disable_writing : Channel → Channel
disable_writing c = record c { event = bit_and c.event 0xfffffffb }

abbrev pub disable_all : Channel → Channel
disable_all c = record c { event = none_event }

pub data Callback : Type 0 where
  on_close on_error on_read on_write : Callback

abbrev notify : Bool → Bool → Callback → List Callback
notify happened is_set cb = if happened then if is_set then cb ∷ [] else [] else []

-- The callbacks that `handleEvent` runs, in order.
unfoldable pub handle_event : Channel → List Callback
handle_event c =
    notify (has c.revent pollhup && has c.revent pollin) c.has_close on_close
    ++ (notify (has c.revent (bit_or pollnval pollerr)) c.has_error on_error
        ++ (notify (has c.revent (bit_or (bit_or pollin pollpri) pollrdhup)) c.has_read on_read
            ++ notify (has c.revent pollout) c.has_write on_write))
