-- ===== src/Tests/Epolling.antt =====
-- The epoller's theorems over a kernel whose set is a function of the descriptor.
use tcp_net_library.Base.{
  ℕ, ◌≤◌, ◌<◌, ◌≡◌, inl, inr, refl, sym, subst, ap, some_inj, Option, none, some, ◌==◌, [], ◌∷◌,
  if◌then◌else◌, ℤ, ok, arith, ==_iff, Bool-cases,
}
use tcp_net_library.Reactor.Channel.{Channel, new_channel}
use tcp_net_library.Reactor.Epoller.{
  Epoller, EpollCalls, Operation, add, mod_, del, added, deleted, update_channel, remove_channel,
  poll,
}
use tcp_net_library.Reactor.Epoller.Watched.{Slot, known, on, off, free, IsValid}
use tcp_net_library.Reactor.Epoller.Update.{Ended, mapped, update_channel-Updated}
use tcp_net_library.Reactor.Epoller.Remove.{Removed, remove_channel-Removed}
use tcp_net_library.Reactor.Epoller.Poll.{none_left, event, poll_ok}

abbrev Set : Type 0
Set = ℕ → Option (ℕ × ℕ)

abbrev change : Set → ℕ → ℕ × ℕ → Operation → Option (ℕ × ℕ) → Option Set
change s fd e add none = some (λ g. if g == fd then some e else s g)
change s fd e mod_ (some old) = some (λ g. if g == fd then some e else s g)
change s fd e del (some old) = some (λ g. if g == fd then none else s g)
change s fd e op held = none

abbrev calls : EpollCalls
calls = record {
  Set = Set;
  watched = λ s fd. s fd;
  ctl = λ s op fd e. change s fd e op (s fd);
  add_law = λ s t fd e h r g. ap (λ (u : Set). u g) (sym (some_inj (rw h at r)));
  mod_law = λ s t fd e old h r g. ap (λ (u : Set). u g) (sym (some_inj (rw h at r)));
  del_ok = λ s fd e old h. (λ g. if g == fd then none else s g, rw h, λ g. refl);
}

abbrev chan : ℕ → ℤ → Channel
chan e i = record (new_channel 5) { event = e; index = i }

-- The object 7 has the descriptor 5 and wants the events `e`.
abbrev one : ℕ → ℤ → Option (ℕ × ℕ) → Option ℕ → Epoller calls
one e i held entry = record {
  thread = 1;
  kernel = λ fd. if fd == 5 then held else none;
  channels = λ fd. if fd == 5 then entry else none;
  chans = λ p. chan e i;
  event_list_size = 1;
}

one-IsValid :
    (e : ℕ) (i : ℤ) (held : Option (ℕ × ℕ)) (entry : Option ℕ)
    → Slot (λ p. chan e i) 5 held entry
    → IsValid (one e i held entry)
one-IsValid e i held entry s fd = elim (Bool-cases (fd == 5)) [
  | inl h ↦ rw h (subst (λ t. Slot (λ p. chan e i) t held entry) (sym ((==_iff fd 5).0 h)) s)
  | inr h ↦ rw h (free refl)
]

abbrev watching : Epoller calls
watching = one 3 added (some (3, 7)) (some 7)

watching-IsValid : IsValid watching
watching-IsValid = one-IsValid 3 added (some (3, 7)) (some 7) (known refl (on 3 refl refl))

abbrev let_go : Epoller calls
let_go = one 3 deleted none (some 7)

let_go-IsValid : IsValid let_go
let_go-IsValid = one-IsValid 3 deleted none (some 7) (known refl (off refl refl))

-- A channel that was let go and wants to read again.
update_channel-Updated_example : Ended let_go 7 (update_channel 1 let_go 7)
update_channel-Updated_example = update_channel-Updated let_go 7 let_go-IsValid (mapped refl)

abbrev silent : Epoller calls
silent = one 0 added (some (3, 7)) (some 7)

remove_channel-Removed_example :
    (w' : Epoller calls) × (remove_channel 1 silent 7 ≡ ok w') × Removed silent 7 w'
remove_channel-Removed_example =
    remove_channel-Removed silent 7
      (one-IsValid 0 added (some (3, 7)) (some 7) (known refl (on 3 refl refl))) refl refl

poll_ok_example :
    (w' : Epoller calls) × (poll watching (some ((1, 7) ∷ [])) ≡ ok (w', 7 ∷ []))
    × IsValid w'
    × (1 ≤ w'.event_list_size)
    × (1 < w'.event_list_size)
poll_ok_example =
    poll_ok watching ((1, 7) ∷ []) watching-IsValid (event {fd = 5} refl none_left) (omega arith)
      (omega arith)
