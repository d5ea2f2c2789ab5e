-- ===== src/Reactor/Loop/Interleaving.antt =====
-- eventLoop.cpp: the functor queue under any interleaving of threads.
use tcp_net_library.Base.{
  ℕ, ◌+◌, ◌<◌, ◌≡◌, ◌≢◌, ◌⊎◌, inl, inr, refl, ap, sym, ◌∙◌, Bool, true, false, [], ◌∷◌, ◌++◌,
  append-nil, append_assoc, arith, ==_refl, Bool-cases,
}
use tcp_net_library.Reactor.Loop.{
  Phase, outside, polling, handling, calling, Loop, new_loop, queue_inloop, Step, pushes, writes,
  queues_early, enters, queues, quits, returns, reads, takes, runs, ends, Steps, here, next,
}

-- The loop handles events and will look at the queue, or nothing waits, or a wake-up is due, or the
-- loop's own thread has queued outside of `loop`.
abbrev Awake : Loop → Type 0
Awake w = (w.phase ≡ handling) ⊎ (w.pending ≡ []) ⊎ (0 < w.wakes + w.waking) ⊎ (w.early ≡ true)

pub record IsValid (w : Loop) : Type 0 where
  pub order : w.queued ≡ w.ran ++ (w.batch ++ w.pending)
  pub idle : (w.phase ≡ calling) ⊎ (w.batch ≡ [])
  pub flag : w.phase ≡ calling → w.calling_pending ≡ true
  pub awake : Awake w

new_loop-IsValid : (thread : ℕ) (flag : Bool) → IsValid (new_loop thread flag)
new_loop-IsValid thread flag = record {
  order = refl;
  idle = inr refl;
  flag = λ e. absurd (cc e);
  awake = inr (inl refl);
}

push_order :
    (w : Loop) (f : ℕ)
    → IsValid w
    → w.queued ++ f ∷ [] ≡ w.ran ++ (w.batch ++ (w.pending ++ f ∷ []))
push_order w f v =
    ap (λ t. t ++ f ∷ []) v.order
    ∙ append_assoc w.ran (w.batch ++ w.pending) (f ∷ [])
    ∙ ap (◌++◌ w.ran) (append_assoc w.batch w.pending (f ∷ []))

phase_cases : (p : Phase) → (p ≡ polling) ⊎ (p ≡ handling) ⊎ (p ≡ calling) ⊎ (p ≡ outside)
phase_cases polling = inl refl
phase_cases handling = inr (inl refl)
phase_cases calling = inr (inr (inl refl))
phase_cases outside = inr (inr (inr refl))

-- Where the flag is off, inside of `loop` and not in `poll`, the loop handles events.
still_handling :
    (w : Loop)
    → w.phase ≢ outside
    → w.phase ≢ polling
    → IsValid w
    → w.calling_pending ≡ false
    → w.phase ≡ handling
still_handling w o h v c = elim (phase_cases w.phase) [
  | inl e ↦ absurd (h e)
  | inr r ↦ elim r [
    | inl e ↦ e
    | inr s ↦ elim s [ inl e ↦ absurd (cc (v.flag e, c)) | inr e ↦ absurd (o e) ]
  ]
]

no_batch : (w : Loop) → w.phase ≢ calling → IsValid w → w.batch ≡ []
no_batch w h v = elim v.idle [ inl e ↦ absurd (h e) | inr b ↦ b ]

queue_inloop-IsValid :
    (w : Loop) (f : ℕ)
    → w.phase ≢ outside
    → w.phase ≢ polling
    → IsValid w
    → IsValid (queue_inloop w.thread w f)
unfolding queue_inloop
queue_inloop-IsValid w f o h v = elim (Bool-cases w.calling_pending) [
  | inl c ↦
      rw (==_refl w.thread, c)
        (record {
          order = push_order w f v;
          idle = v.idle;
          flag = λ e. refl;
          awake = inr (inr (inl (omega arith)));
        })
  | inr c ↦
      rw (==_refl w.thread, c)
        (record {
          order = push_order w f v;
          idle = v.idle;
          flag = λ e. absurd (cc (e, still_handling w o h v c));
          awake = inl (still_handling w o h v c);
        })
]

queue_early-IsValid :
    (w : Loop) (f : ℕ)
    → w.phase ≡ outside
    → IsValid w
    → IsValid (record (queue_inloop w.thread w f) { early = true })
unfolding queue_inloop
queue_early-IsValid w f h v = elim (Bool-cases w.calling_pending) [
  | inl c ↦
      rw (==_refl w.thread, c)
        (record {
          order = push_order w f v;
          idle = v.idle;
          flag = λ e. absurd (cc (e, h));
          awake = inr (inr (inr refl));
        })
  | inr c ↦
      rw (==_refl w.thread, c)
        (record {
          order = push_order w f v;
          idle = v.idle;
          flag = λ e. absurd (cc (e, h));
          awake = inr (inr (inr refl));
        })
]

step-IsValid : (w u : Loop) → Step w u → IsValid w → IsValid u
step-IsValid _ _ (pushes w f) v = record {
  order = push_order w f v;
  idle = v.idle;
  flag = v.flag;
  awake = inr (inr (inl (omega arith)));
}
step-IsValid _ _ (writes w h) v = record {
  order = v.order;
  idle = v.idle;
  flag = v.flag;
  awake = inr (inr (inl (omega arith)));
}
step-IsValid _ _ (queues_early w f h) v = queue_early-IsValid w f h v
step-IsValid _ _ (enters w h) v = record {
  order = v.order;
  idle = inr (no_batch w (λ e. cc (e, h)) v);
  flag = λ e. absurd (cc e);
  awake = elim v.awake [ inl e ↦ absurd (cc (e, h)) | inr r ↦ inr r ];
}
step-IsValid _ _ (quits w h b) v = record {
  order = v.order;
  idle = inr b;
  flag = λ e. absurd (cc e);
  awake = elim v.awake [ inl e ↦ absurd (cc (e, h)) | inr r ↦ inr r ];
}
step-IsValid _ _ (queues w f o h) v = queue_inloop-IsValid w f o h v
step-IsValid _ _ (returns w h) v = record {
  order = v.order;
  idle = inr (no_batch w (λ e. cc (e, h)) v);
  flag = λ e. absurd (cc e);
  awake = inl refl;
}
step-IsValid _ _ (reads w h) v = record {
  order = v.order;
  idle = v.idle;
  flag = v.flag;
  awake = inl h;
}
step-IsValid _ _ (takes w h) v = record {
  order =
      v.order
      ∙ ap (λ t. w.ran ++ (t ++ w.pending)) (no_batch w (λ e. cc (e, h)) v)
      ∙ ap (◌++◌ w.ran) (sym (append-nil w.pending));
  idle = inl refl;
  flag = λ e. refl;
  awake = inr (inl refl);
}
step-IsValid _ _ (runs w f rest h b) v = record {
  order =
      v.order
      ∙ ap (λ t. w.ran ++ (t ++ w.pending)) b
      ∙ sym (append_assoc w.ran (f ∷ []) (rest ++ w.pending));
  idle = inl h;
  flag = v.flag;
  awake = v.awake;
}
step-IsValid _ _ (ends w h b) v = record {
  order = v.order;
  idle = inr b;
  flag = λ e. absurd (cc e);
  awake = elim v.awake [ inl e ↦ absurd (cc (e, h)) | inr r ↦ inr r ];
}

steps-IsValid : (u w : Loop) → Steps u w → IsValid u → IsValid w
steps-IsValid _ _ (here w) v = v
steps-IsValid _ _ (next u w t ss s) v = step-IsValid w t s (steps-IsValid u w ss v)

-- In every run of the threads from a new loop, functors run in the order in which they were queued,
-- each once: those that have run, those of the batch and those that wait are all that were queued.
pub steps_order :
    (thread : ℕ) (flag : Bool) (w : Loop)
    → Steps (new_loop thread flag) w
    → w.queued ≡ w.ran ++ (w.batch ++ w.pending)
steps_order thread flag w ss =
    (steps-IsValid (new_loop thread flag) w ss (new_loop-IsValid thread flag)).order

-- In every run of the threads from a new loop, whenever the loop polls while functors wait, its
-- descriptor is readable or a thread is about to write it, unless the loop's own thread has queued a
-- functor outside of `loop` and no `poll` has returned since: no other wake-up is lost.
pub steps_awake :
    (thread : ℕ) (flag : Bool) (w : Loop)
    → Steps (new_loop thread flag) w
    → w.phase ≡ polling
    → w.pending ≢ []
    → w.early ≡ false
    → 0 < w.wakes + w.waking
steps_awake thread flag w ss p h q =
    elim (steps-IsValid (new_loop thread flag) w ss (new_loop-IsValid thread flag)).awake [
      | inl e ↦ absurd (cc (e, p))
      | inr r ↦ elim r [
        | inl e ↦ absurd (h e)
        | inr s ↦ elim s [ inl l ↦ l | inr e ↦ absurd (cc (e, q)) ]
      ]
    ]
