-- ===== src/Reactor/Poller.antt =====
-- poller.h and poller.cpp: the set of channels that `poll` watches.
-- `channels_` is a function of the descriptor, a `Channel*` a number, the objects stand in `chans`.
-- Descriptors are not negative. `thread` is the loop's thread; each operation has its caller's.
pub mod Invariant
pub mod Update
pub mod Remove
pub mod Removed
pub mod Active
pub mod Polled
use tcp_net_library.Base.{
  ℕ, ◌+◌, ◌-◌, ◌*◌, ◌%◌, ◌^◌, ◌≡◌, refl, Bool, true, false, not, ◌&&◌, ◌||◌, List, [], ◌∷◌, ◌++◌,
  Option, none, some, length, take, get_elem?, set, ltb, leb, ◌==◌, if◌then◌else◌, ℤ, pos, negsuc,
  is_negative, flip, eq_ℤ, Result, ok, fault, assert, fatal, out_of_bounds, ◌>>=◌, ◌>>◌,
}
use tcp_net_library.Reactor.Channel.{Channel, set_event, set_index, is_none_event}

-- `struct pollfd`
pub record PollFd : Type 0 where
  pub fd : ℤ
  pub events : ℕ
  pub revents : ℕ

pub record Poller : Type 0 where
  pub thread : ℕ
  pub pollfds : List PollFd
  pub channels : ℕ → Option ℕ
  pub chans : ℕ → Channel

-- `loop_->assertInLoopThread()`
abbrev pub assert_in_loop : ℕ → ℕ → Result (Unit {0})
assert_in_loop thread caller = if thread == caller then ok tt else fault fatal

abbrev pub update_at {ℓ} : {A : Type ℓ} → (ℕ → A) → ℕ → A → ℕ → A
update_at f k v j = if j == k then v else f j

abbrev pub is_none {ℓ} : {A : Type ℓ} → Option A → Bool
is_none none = true
is_none (some _) = false

abbrev pub is_pointer : Option ℕ → ℕ → Bool
is_pointer none p = false
is_pointer (some q) p = q == p

abbrev pub or_fault {ℓ} : {A : Type ℓ} → Option A → Result A
or_fault none = fault out_of_bounds
or_fault (some a) = ok a

-- `static_cast<short>`, as a bit pattern.
abbrev pub short : ℕ → ℕ
short n = n % 2 ^ 16

-- A channel that the poller has not seen.
unfoldable pub add_channel : Poller → ℕ → Result Poller
add_channel w p = do
  let c = w.chans p
  assert (is_none (w.channels c.fd))
  let pfd : PollFd = record { fd = pos c.fd; events = short c.event; revents = 0 }
  let pollfds = w.pollfds ++ pfd ∷ []
  ok (record w {
    pollfds = pollfds;
    channels = update_at w.channels c.fd (some p);
    chans = update_at w.chans p (set_index c (pos (length pollfds - 1)));
  })

-- A known channel, at `idx`. The descriptor is switched off where no event is wanted, and not
-- switched on again where one is.
unfoldable pub modify_channel : Poller → ℕ → ℕ → Result Poller
modify_channel w p idx = do
  let c = w.chans p
  assert (not (is_none (w.channels c.fd)))
  assert (is_pointer (w.channels c.fd) p)
  assert (ltb idx (length w.pollfds))
  pfd ← or_fault (get_elem? w.pollfds idx)
  assert (eq_ℤ pfd.fd (pos c.fd) || eq_ℤ pfd.fd (negsuc c.fd))
  let fd = if is_none_event c then negsuc c.fd else pfd.fd
  ok (record w {
    pollfds = set w.pollfds idx (record { fd = fd; events = short c.event; revents = 0 });
  })

unfoldable pub update_at_index : Poller → ℕ → ℤ → Result Poller
update_at_index w p (negsuc n) = add_channel w p
update_at_index w p (pos idx) = modify_channel w p idx

unfoldable pub update_channel : ℕ → Poller → ℕ → Result Poller
update_channel caller w p = assert_in_loop w.thread caller >> update_at_index w p (w.chans p).index

-- The descriptor that an entry stands for: `if(fd < 0) fd = -fd-1`.
abbrev pub descriptor : ℤ → ℕ
descriptor (pos n) = n
descriptor (negsuc n) = n

-- The last entry takes the place of the one at `idx`, and the last place goes.
abbrev pub swap_remove : List PollFd → ℕ → PollFd → List PollFd
swap_remove pollfds idx last = take (length pollfds - 1) (set pollfds idx last)

unfoldable pub remove_at : Poller → ℕ → ℕ → Result Poller
remove_at w p idx = do
  let c = w.chans p
  let channels = update_at w.channels c.fd none
  assert (ltb idx (length w.pollfds))
  if idx == length w.pollfds - 1
      then ok (record w { pollfds = take (length w.pollfds - 1) w.pollfds; channels = channels })
      else (or_fault (get_elem? w.pollfds (length w.pollfds - 1)) >>= λ last.
          or_fault (channels (descriptor last.fd)) >>= λ q. ok (record w {
            pollfds = swap_remove w.pollfds idx last;
            channels = channels;
            chans = update_at w.chans q (set_index (w.chans q) (pos idx));
          }))

-- The index of the channel that goes is left as it was.
unfoldable pub remove_at_index : Poller → ℕ → ℤ → Result Poller
remove_at_index w p (negsuc n) = assert false >> ok w
remove_at_index w p (pos idx) = remove_at w p idx

unfoldable pub remove_channel : ℕ → Poller → ℕ → Result Poller
remove_channel caller w p = do
  assert_in_loop w.thread caller
  let c = w.chans p
  assert (not (is_none (w.channels c.fd)))
  assert (is_pointer (w.channels c.fd) p)
  assert (is_none_event c)
  remove_at_index w p c.index

-- `channels_.find(pfd->fd)`; no key is negative.
abbrev pub find_channel : (ℕ → Option ℕ) → ℤ → Option ℕ
find_channel channels (pos fd) = channels fd
find_channel channels (negsuc n) = none

-- A `short` above 0.
abbrev pub positive : ℕ → Bool
positive n = ltb 0 n && ltb n (2 ^ 15)

pub record Filled : Type 0 where
  pub chans : ℕ → Channel
  pub active : List ℕ

abbrev pub assert_found : Option ℕ → Result ℕ
assert_found none = assert false >> ok 0
assert_found (some p) = ok p

-- The loop of `fillActiveChannels`: `nums` counts the entries still expected.
unfoldable pub fill_active : (ℕ → Option ℕ) → List PollFd → ℕ → Filled → Result Filled
fill_active channels [] nums acc = ok acc
fill_active channels (pfd ∷ rest) nums acc =
    if ltb 0 nums
    then if positive pfd.revents
      then (assert_found (find_channel channels pfd.fd) >>= λ p.
          fill_active channels rest (nums - 1) (record {
            chans = update_at acc.chans p (set_event (acc.chans p) pfd.revents);
            active = acc.active ++ p ∷ [];
          }))
      else fill_active channels rest nums acc
    else ok acc

-- What the kernel answers: the entries' `revents` and their number; `none`: `poll` failed.
abbrev pub store_revents : List PollFd → List ℕ → List PollFd
store_revents [] rs = []
store_revents (pfd ∷ pfds) [] = pfd ∷ pfds
store_revents (pfd ∷ pfds) (r ∷ rs) = record pfd { revents = r } ∷ store_revents pfds rs

unfoldable pub poll : Poller → Option (ℕ × List ℕ) → Result (Poller × List ℕ)
poll w none = ok (w, [])
poll w (some (nums, revents)) =
    let watched = store_revents w.pollfds revents in
    if ltb 0 nums
    then (fill_active w.channels watched nums (record { chans = w.chans; active = [] }) >>= λ f.
        ok (record w { pollfds = watched; chans = f.chans }, f.active))
    else ok (record w { pollfds = watched }, [])
