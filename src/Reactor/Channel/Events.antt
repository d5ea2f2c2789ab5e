-- ===== src/Reactor/Channel/Events.antt =====
-- channel.cpp: the masks of events.
use tcp_net_library.Base.{ℕ, ◌≡◌, refl, true, false, bit_or, bit_and}
use tcp_net_library.Reactor.Channel.{
  Channel, has, read_event, write_event, is_writing, enable_reading, enable_writing,
  disable_writing,
}

-- Nothing, reading, writing, or both.
pub data IsEvents : ℕ → Type 0 where
  nothing : IsEvents 0
  reading : IsEvents 3
  writing : IsEvents 4
  both : IsEvents 7

abbrev clear_write : ℕ → ℕ
clear_write n = bit_and n 0xfffffffb

or_read-IsEvents : (n : ℕ) → IsEvents n → IsEvents (bit_or n read_event)
or_read-IsEvents _ nothing = reading
or_read-IsEvents _ reading = reading
or_read-IsEvents _ writing = both
or_read-IsEvents _ both = both

pub or_write-IsEvents : (n : ℕ) → IsEvents n → IsEvents (bit_or n write_event)
or_write-IsEvents _ nothing = writing
or_write-IsEvents _ reading = both
or_write-IsEvents _ writing = writing
or_write-IsEvents _ both = both

pub clear_write-IsEvents : (n : ℕ) → IsEvents n → IsEvents (clear_write n)
clear_write-IsEvents _ nothing = nothing
clear_write-IsEvents _ reading = reading
clear_write-IsEvents _ writing = nothing
clear_write-IsEvents _ both = reading

pub has-or_write : (n : ℕ) → IsEvents n → has (bit_or n write_event) write_event ≡ true
has-or_write _ nothing = refl
has-or_write _ reading = refl
has-or_write _ writing = refl
has-or_write _ both = refl

pub has-clear_write : (n : ℕ) → IsEvents n → has (clear_write n) write_event ≡ false
has-clear_write _ nothing = refl
has-clear_write _ reading = refl
has-clear_write _ writing = refl
has-clear_write _ both = refl

keep_read :
    (n : ℕ)
    → IsEvents n
    → (has (bit_or n write_event) read_event ≡ has n read_event)
      × (has (clear_write n) read_event ≡ has n read_event)
keep_read _ nothing = (refl, refl)
keep_read _ reading = (refl, refl)
keep_read _ writing = (refl, refl)
keep_read _ both = (refl, refl)

-- On the events that a channel can have, `enableWriting` and `disableWriting` switch writing on and
-- off, keep whether the channel reads, and lead to such events again.
pub writing_lem :
    (c : Channel)
    → IsEvents c.event
    → (is_writing (enable_writing c) ≡ true)
      × (is_writing (disable_writing c) ≡ false)
      × (has (enable_writing c).event read_event ≡ has c.event read_event)
      × (has (disable_writing c).event read_event ≡ has c.event read_event)
      × IsEvents (enable_writing c).event
      × IsEvents (disable_writing c).event
      × IsEvents (enable_reading c).event
writing_lem c h = (
  has-or_write c.event h,
  has-clear_write c.event h,
  (keep_read c.event h).0,
  (keep_read c.event h).1,
  or_write-IsEvents c.event h,
  clear_write-IsEvents c.event h,
  or_read-IsEvents c.event h,
)
