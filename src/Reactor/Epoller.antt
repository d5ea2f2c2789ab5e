-- ===== src/Reactor/Epoller.antt =====
-- epoller.h and epoller.cpp: the second poller, over `epoll`, with the poller's interface.
-- The calls of `epoll_ctl` are a parameter: a kernel's set of watched descriptors, with what the
-- manual says of adding, changing and deleting one. A descriptor is watched with its events and the
-- channel's pointer.
pub mod Watched
pub mod Control
pub mod Update
pub mod Remove
pub mod Poll
use tcp_net_library.Base.{
  ℕ, zero, suc, ◌+◌, ◌*◌, ◌≡◌, refl, Bool, true, false, not, ◌&&◌, ◌||◌, List, [], ◌∷◌, ◌++◌,
  Option, none, some, length, leb, ◌==◌, if◌then◌else◌, ℤ, pos, negsuc, eq_ℤ, Result, ok, fault,
  assert, fatal, ◌>>=◌, ◌>>◌,
}
use tcp_net_library.Reactor.Channel.{Channel, set_event, set_index, is_none_event}
use tcp_net_library.Reactor.Poller.{
  assert_in_loop, update_at, is_none, is_pointer, assert_found, Filled,
}

pub data Operation : Type 0 where
  add mod_ del : Operation

-- `epoll_ctl`; `none` is a failure. Adding and changing may fail on any descriptor, for want of memory
-- or because the descriptor cannot be watched; deleting a watched descriptor does not.
pub record EpollCalls : Type 1 where
  pub Set : Type 0
  pub watched : Set → ℕ → Option (ℕ × ℕ)
  pub ctl : Set → Operation → ℕ → ℕ × ℕ → Option Set
  pub add_law :
      (s t : Set) (fd : ℕ) (e : ℕ × ℕ)
      → watched s fd ≡ none
      → ctl s add fd e ≡ some t
      → (g : ℕ) → watched t g ≡ (if g == fd then some e else watched s g)
  pub mod_law :
      (s t : Set) (fd : ℕ) (e old : ℕ × ℕ)
      → watched s fd ≡ some old
      → ctl s mod_ fd e ≡ some t
      → (g : ℕ) → watched t g ≡ (if g == fd then some e else watched s g)
  pub del_ok :
      (s : Set) (fd : ℕ) (e old : ℕ × ℕ)
      → watched s fd ≡ some old
      → (t : Set) × (ctl s del fd e ≡ some t)
        × ((g : ℕ) → watched t g ≡ (if g == fd then none else watched s g))

-- `kNew`, `kAdded` and `kDelete`
abbrev pub new : ℤ
new = negsuc 0

abbrev pub added : ℤ
added = pos 1

abbrev pub deleted : ℤ
deleted = negsuc 1

abbrev pub init_event_list_size : ℕ
init_event_list_size = 16

pub record Epoller (k : EpollCalls) : Type 0 where
  pub thread : ℕ
  pub kernel : k.Set
  pub channels : ℕ → Option ℕ
  pub chans : ℕ → Channel
  pub event_list_size : ℕ

-- The loop of `fillActiveChannels` over the events that `epoll_wait` returned.
unfoldable pub fill_active : (ℕ → Option ℕ) → List (ℕ × ℕ) → Filled → Result Filled
fill_active channels [] acc = ok acc
fill_active channels ((events, p) ∷ rest) acc =
    assert (not (is_none (channels (acc.chans p).fd)))
    >> (assert (is_pointer (channels (acc.chans p).fd) p)
        >> fill_active channels rest (record {
          chans = update_at acc.chans p (set_event (acc.chans p) events);
          active = acc.active ++ p ∷ [];
        }))

module _ {k : EpollCalls} where
  abbrev pub set_kernel : Epoller k → k.Set → Epoller k
  set_kernel w s = record w { kernel = s }

  -- A failure to delete is only logged.
  unfoldable pub after_ctl : Epoller k → Operation → Option k.Set → Result (Epoller k)
  after_ctl w op (some s) = ok (set_kernel w s)
  after_ctl w del none = ok w
  after_ctl w add none = fault fatal
  after_ctl w mod_ none = fault fatal

  -- `update(operation, channel)`
  unfoldable pub update : Epoller k → Operation → ℕ → Result (Epoller k)
  update w op p = after_ctl w op (k.ctl w.kernel op (w.chans p).fd ((w.chans p).event, p))

  abbrev pub index_as : Epoller k → ℕ → ℤ → Epoller k
  index_as w p i = record w { chans = update_at w.chans p (set_index (w.chans p) i) }

  -- The channel is the one that its descriptor is mapped to.
  abbrev pub assert_known : Epoller k → ℕ → Result (Unit {0})
  assert_known w p =
      assert (not (is_none (w.channels (w.chans p).fd)))
      >> assert (is_pointer (w.channels (w.chans p).fd) p)

  unfoldable pub update_new : Epoller k → ℕ → Result (Epoller k)
  update_new w p =
      let fd = (w.chans p).fd in
      assert (is_none (w.channels fd))
      >> update (index_as (record w { channels = update_at w.channels fd (some p) }) p added) add p

  unfoldable pub update_deleted : Epoller k → ℕ → Result (Epoller k)
  update_deleted w p = assert_known w p >> update (index_as w p added) add p

  unfoldable pub update_added : Epoller k → ℕ → Result (Epoller k)
  update_added w p =
      assert_known w p
      >> (if is_none_event (w.chans p)
          then (update w del p >>= λ w'. ok (index_as w' p deleted))
          else update w mod_ p)

  unfoldable pub update_channel : ℕ → Epoller k → ℕ → Result (Epoller k)
  update_channel caller w p =
      assert_in_loop w.thread caller
      >> (if eq_ℤ (w.chans p).index new
          then update_new w p
          else if eq_ℤ (w.chans p).index deleted
          then update_deleted w p
          else update_added w p)

  unfoldable pub remove_channel : ℕ → Epoller k → ℕ → Result (Epoller k)
  remove_channel caller w p =
      let c = w.chans p in
      let out = record w { channels = update_at w.channels c.fd none } in
      assert_in_loop w.thread caller
      >> (assert_known w p
          >> (assert (is_none_event c)
              >> (assert (eq_ℤ c.index added || eq_ℤ c.index deleted)
                  >> ((if eq_ℤ c.index added then update out del p else ok out) >>= λ w'.
                      ok (index_as w' p new)))))

  -- `none`: `epoll_wait` failed. The list of events doubles where it was full.
  unfoldable pub poll : Epoller k → Option (List (ℕ × ℕ)) → Result (Epoller k × List ℕ)
  poll w none = ok (w, [])
  poll w (some []) = ok (w, [])
  poll w (some (e ∷ es)) =
      assert (leb (length (e ∷ es)) w.event_list_size)
      >> (fill_active w.channels (e ∷ es) (record { chans = w.chans; active = [] }) >>= λ f. ok (
        record w {
          chans = f.chans;
          event_list_size =
              if length (e ∷ es) == w.event_list_size
              then w.event_list_size * 2
              else w.event_list_size;
        },
        f.active,
      ))
