-- ===== src/Reactor/Loop/Early.antt =====
-- eventLoop.cpp: a functor that the loop's own thread queues before it calls `loop`.
use tcp_net_library.Base.{ℕ, ◌+◌, ◌≡◌, refl, ap, [], ◌∷◌, false, true, ==_refl}
use tcp_net_library.Reactor.Loop.{
  Loop, polling, new_loop, queue_inloop, Steps, here, next, queues_early, enters,
}

-- A functor that the loop's own thread queues between the constructor and `loop`, while the flag,
-- which the constructor does not set, is off: `loop` polls with the functor waiting, its descriptor is
-- not readable, and nobody is about to write it.
queue-loop_asleep :
    (thread f : ℕ)
    → (w : Loop) × Steps (new_loop thread false) w
      × (w.phase ≡ polling)
      × (w.pending ≡ f ∷ [])
      × (w.wakes + w.waking ≡ 0)
unfolding queue_inloop
queue-loop_asleep thread f =
    let u = new_loop thread false in
    let v = record (queue_inloop thread u f) { early = true } in
    let quiet : queue_inloop thread u f ≡ record u { pending = f ∷ []; queued = f ∷ [] } =
      rw (==_refl thread) in
    (
      record v { phase = polling },
      next _ _ _ (next _ _ _ (here u) (queues_early u f refl)) (enters v (ap (λ t. t.phase) quiet)),
      refl,
      ap (λ t. t.pending) quiet,
      ap (λ t. t.wakes + t.waking) quiet,
    )
