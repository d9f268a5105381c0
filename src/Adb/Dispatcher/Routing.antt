-- ===== src/Adb/Dispatcher/Routing.antt =====
-- Each stream gets its own messages, all of them and in order, whatever the other threads do.
use rusty_cortex.Base.{
  ne→==, ==_iff, subst, ℕ, true, false, ◌||◌, List, [], ◌∷◌, ◌++◌, ◌==◌, if◌then◌else◌, ◌≡◌, ◌≢◌,
  refl, sym, ap, ◌∙◌, arith, append-nil, append_assoc, Bool-cases, inl, inr, All,
}
use rusty_cortex.Failure.{Result, ok, err, panic}
use rusty_cortex.Adb.Message.{AdbMessage}
use rusty_cortex.Adb.Dispatcher.{
  is_alive, protocol_says, UsbDispatcher, Event, round, register_stream, unregister_stream,
  drop_receiver, request_shutdown, route, stop, step, run,
}

-- The messages for stream `i` among the reads of a run.
abbrev pub addressed : ℕ → List Event → List AdbMessage
addressed i [] = []
addressed i (round (ok m) ∷ es) = if m.arg1 == i then m ∷ addressed i es else addressed i es
addressed i (_ ∷ es) = addressed i es

-- Events that neither touch stream `i` nor stop the reader: reads that bring a message, a timeout or
-- stale bytes, and what other threads do with other streams.
abbrev pub Leaves : ℕ → Event → Type 0
Leaves i (round (ok m)) = Unit
Leaves i (round (err e)) = (protocol_says "timeout" e || protocol_says "bad magic" e) ≡ true
Leaves i (round panic) = ⊥
Leaves i (register_stream j) = j ≢ i
Leaves i (unregister_stream j) = j ≢ i
Leaves i (drop_receiver j) = j ≢ i
Leaves i request_shutdown = ⊥

-- The reader runs, and stream `i` is open at both ends.
pub record IsServed (i : ℕ) (d : UsbDispatcher) : Type 0 where
  pub is_running : d.running ≡ true
  pub not_shutdown : d.shutdown ≡ false
  pub is_registered : (d.streams i).registered ≡ true
  pub is_listening : (d.streams i).listening ≡ true

abbrev now : ℕ → Event → List AdbMessage
now i e = addressed i (e ∷ [])

-- What the round on `m` leaves of stream `i`, if `more` is what its channel got.
abbrev Served : ℕ → AdbMessage → UsbDispatcher → List AdbMessage → Type 0
Served i m d more =
    IsServed i (step (round (ok m)) d)
    × (((step (round (ok m)) d).streams i).queue ≡ (d.streams i).queue ++ more)

Served-own : (m : AdbMessage) (d : UsbDispatcher) → IsServed m.arg1 d → Served m.arg1 m d (m ∷ [])
unfolding step route
Served-own m d s = ground arith

Served-other :
    (i : ℕ) (m : AdbMessage) (d : UsbDispatcher) → i ≢ m.arg1 → IsServed i d → Served i m d []
unfolding step route
Served-other i m d ne s = ground (arith, append-nil (d.streams i).queue)

step-IsServed :
    (i : ℕ) (e : Event) (d : UsbDispatcher)
    → Leaves i e
    → IsServed i d
    → IsServed i (step e d) × (((step e d).streams i).queue ≡ (d.streams i).queue ++ now i e)
unfolding step route
step-IsServed i (round (ok m)) d l s = elim (Bool-cases (m.arg1 == i)) [
  | inl same ↦ rw same (
      subst (λ (j : ℕ). IsServed j d → Served j m d (m ∷ [])) ((==_iff m.arg1 i).0 same)
        (Served-own m d) s)
  | inr other ↦ rw other (Served-other i m d (ground arith) s)
]
step-IsServed i (round (err x)) d l s = ground (arith, append-nil (d.streams i).queue)
step-IsServed i (round panic) d l s = absurd l
step-IsServed i (register_stream j) d l s = rw (ne→== i j (λ e. l (sym e))) (
  record {
    is_running = s.is_running;
    not_shutdown = s.not_shutdown;
    is_registered = rw (ne→== i j (λ e. l (sym e))) s.is_registered;
    is_listening = rw (ne→== i j (λ e. l (sym e))) s.is_listening;
  },
  sym (append-nil (d.streams i).queue),
)
step-IsServed i (unregister_stream j) d l s = rw (ne→== i j (λ e. l (sym e))) (
  record {
    is_running = s.is_running;
    not_shutdown = s.not_shutdown;
    is_registered = rw (ne→== i j (λ e. l (sym e))) s.is_registered;
    is_listening = rw (ne→== i j (λ e. l (sym e))) s.is_listening;
  },
  sym (append-nil (d.streams i).queue),
)
step-IsServed i (drop_receiver j) d l s = rw (ne→== i j (λ e. l (sym e))) (
  record {
    is_running = s.is_running;
    not_shutdown = s.not_shutdown;
    is_registered = rw (ne→== i j (λ e. l (sym e))) s.is_registered;
    is_listening = rw (ne→== i j (λ e. l (sym e))) s.is_listening;
  },
  sym (append-nil (d.streams i).queue),
)
step-IsServed i request_shutdown d l s = absurd l

addressed_cons :
    (i : ℕ) (e : Event) (es : List Event) → addressed i (e ∷ es) ≡ now i e ++ addressed i es
addressed_cons i (round (ok m)) es = ground arith
addressed_cons i (round (err x)) es = refl
addressed_cons i (round panic) es = refl
addressed_cons i (register_stream j) es = refl
addressed_cons i (unregister_stream j) es = refl
addressed_cons i (drop_receiver j) es = refl
addressed_cons i request_shutdown es = refl

-- Over any run that neither touches stream `i` nor stops the reader: the stream's channel receives
-- exactly the messages addressed to it, in the order in which they were read, and stays served.
-- Messages for other streams, timeouts, stale bytes and the other streams' comings and goings do not
-- matter.
pub run_routes :
    (i : ℕ) (es : List Event) (d : UsbDispatcher)
    → All (Leaves i) es
    → IsServed i d
    → IsServed i (run es d) × (((run es d).streams i).queue ≡ (d.streams i).queue ++ addressed i es)
unfolding run
run_routes i [] d l s = (s, sym (append-nil (d.streams i).queue))
run_routes i (e ∷ es) d (l, ls) s =
    let (kept, queue) = step-IsServed i e d l s in
    let (final, queues) = run_routes i es (step e d) ls kept in
    (
      final,
      queues
          ∙ ap (λ (q : List AdbMessage). q ++ addressed i es) queue
          ∙ append_assoc (d.streams i).queue (now i e) (addressed i es)
          ∙ ap (◌++◌ (d.streams i).queue) (sym (addressed_cons i e es)),
    )

-- The reader has stopped only if the shutdown flag is set.
abbrev pub HasReader : UsbDispatcher → Type 0
HasReader d = (d.running || d.shutdown) ≡ true

step-HasReader : (e : Event) (d : UsbDispatcher) → HasReader d → HasReader (step e d)
unfolding step route stop
step-HasReader (round (ok m)) d h = ground arith
step-HasReader (round (err x)) d h = ground arith
step-HasReader (round panic) d h = ground arith
step-HasReader (register_stream j) d h = h
step-HasReader (unregister_stream j) d h = h
step-HasReader (drop_receiver j) d h = h
step-HasReader request_shutdown d h = elim (Bool-cases d.running) [
  | inl e ↦ rw e refl
  | inr e ↦ rw e refl
]

-- Whatever happens, a reader that has stopped has left the shutdown flag set.
run-HasReader : (es : List Event) (d : UsbDispatcher) → HasReader d → HasReader (run es d)
unfolding run
run-HasReader [] d h = h
run-HasReader (e ∷ es) d h = run-HasReader es (step e d) (step-HasReader e d h)

is_alive-running : (d : UsbDispatcher) → HasReader d → is_alive d ≡ true → d.running ≡ true
is_alive-running d h alive = ground arith

-- Over any run from a dispatcher whose reader runs, or has left the shutdown flag set: if `is_alive`
-- then says yes, the reader is still running.
pub run-is_alive :
    (es : List Event) (d : UsbDispatcher)
    → HasReader d
    → is_alive (run es d) ≡ true
    → (run es d).running ≡ true
run-is_alive es d h alive = is_alive-running (run es d) (run-HasReader es d h) alive

-- When the reader stops, by the flag or by an error, no stream stays registered: every receiver
-- learns of it as soon as its queue is empty.
pub round_stops :
    (r : Result AdbMessage) (d : UsbDispatcher)
    → d.running ≡ true
    → (step (round r) d).running ≡ false
    → (i : ℕ)
    → (((step (round r) d).streams i).registered ≡ false)
      × (((step (round r) d).streams i).queue ≡ (d.streams i).queue)
unfolding step route stop
round_stops (ok m) d h e i = ground arith
round_stops (err x) d h e i = ground arith
round_stops panic d h e i = ground arith
