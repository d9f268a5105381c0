-- ===== src/Adb/Open/Registered.antt =====
-- What an open leaves in the dispatcher's table.
use rusty_cortex.Base.{
  ℕ, ◌+◌, ◌%◌, ◌^◌, Bool, true, false, List, [], ◌∷◌, ◌++◌, ◌≡◌, refl, arith, ◌==◌, ==_refl,
  if◌then◌else◌, Bool-cases, inl, inr,
}
use rusty_cortex.Base.Words.{Bytes}
use rusty_cortex.Failure.{FlashError, Result, ok, err, panic}
use rusty_cortex.Adb.Message.{a_open, a_okay, a_clse}
use rusty_cortex.Adb.Usb.{Link, usb_send_message}
use rusty_cortex.Adb.Dispatcher.{UsbDispatcher, register_stream, step}
use rusty_cortex.Adb.Stream.{Received, got, quiet, hung_up, UsbStream}
use rusty_cortex.Adb.Stream.Pending.{arriving, pending, IsStream}
use rusty_cortex.Adb.Open.{Opening, unregister, open_loop, open_sent, adb_usb_open}

abbrev pub is_registered : ℕ → Opening → Bool
is_registered i o = (o.dispatcher.streams i).registered

-- What comes behind the device's answer to OPEN.
abbrev pub after_okay : List Received → List Received
after_okay [] = []
after_okay (quiet ∷ rest) = []
after_okay (hung_up ∷ rest) = []
after_okay (got m ∷ rest) =
    let later = after_okay rest in if m.command == a_okay then rest else later

-- A stream that was opened has the local id and is registered, and its reads will return the data
-- behind the answer; after an error the id is not registered.
abbrev pub Opened : ℕ → Bytes → Result UsbStream × Opening → Type 0
Opened i expected (ok s, o) =
    (s.local_id ≡ i) × (is_registered i o ≡ true) × (pending s ≡ expected) × IsStream s
Opened i expected (err e, o) = is_registered i o ≡ false
Opened i expected (panic, o) = ⊥

unregister-registered : (i : ℕ) (o : Opening) → is_registered i (unregister i o) ≡ false
unfolding step
unregister-registered i o = rw (==_refl i, is_registered)

open_loop-Opened :
    (i size : ℕ) (service : Bytes) (inbox : List Received) (o : Opening)
    → is_registered i o ≡ true
    → Opened i (arriving (after_okay inbox)) (open_loop i size service inbox o)
unfolding open_loop
open_loop-Opened i size service [] o h = unregister-registered i o
open_loop-Opened i size service (quiet ∷ rest) o h = unregister-registered i o
open_loop-Opened i size service (hung_up ∷ rest) o h = unregister-registered i o
open_loop-Opened i size service (got m ∷ rest) o h = elim (Bool-cases (m.command == a_okay)) [
  | inl okay ↦ rw okay (refl, h, refl, omega arith)
  | inr other ↦ rw other (elim (Bool-cases (m.command == a_clse)) [
    | inl refused ↦ rw refused (unregister-registered i o)
    | inr ignored ↦ rw ignored (open_loop-Opened i size service rest o h)
  ])
]

register-registered :
    (i next : ℕ) (d : UsbDispatcher) (l : Link)
    → is_registered i
        (record { next_local_id = next; dispatcher = step (register_stream i) d; link = l })
      ≡ true
unfolding step
register-registered i next d l = rw (==_refl i, is_registered)

open_sent-Opened :
    (i size : ℕ) (service : Bytes) (inbox : List Received) (o : Opening)
    (r : Result (Unit {0}) × Link)
    → is_registered i o ≡ true
    → r.0 ≡ ok tt
    → Opened i (arriving (after_okay inbox)) (open_sent i size service inbox o r)
open_sent-Opened i size service inbox o (ok u, l) h e =
    open_loop-Opened i size service inbox (record o { link = l }) h
open_sent-Opened i size service inbox o (err x, l) h e = absurd cc
open_sent-Opened i size service inbox o (panic, l) h e = absurd cc

-- An open whose OPEN message was sent: if it returns a stream, the stream is registered under its id
-- and its reads will return the data behind the device's OKAY, and if it fails, on a refusal, a
-- timeout or a stopped dispatcher, the id is not registered any more.
pub adb_usb_open-Opened :
    (size : ℕ) (service : Bytes) (inbox : List Received) (o : Opening)
    → (usb_send_message a_open o.next_local_id 0 (service ++ (0 ∷ [])) o.link).0 ≡ ok tt
    → Opened o.next_local_id (arriving (after_okay inbox)) (adb_usb_open size service inbox o)
unfolding adb_usb_open
adb_usb_open-Opened size service inbox o e =
    let i = o.next_local_id in
    open_sent-Opened i size service inbox
      (record o {
        next_local_id = (i + 1) % 2 ^ 32;
        dispatcher = step (register_stream i) o.dispatcher;
      })
      (usb_send_message a_open i 0 (service ++ (0 ∷ [])) o.link)
      (register-registered i ((i + 1) % 2 ^ 32) o.dispatcher o.link) e

open_sent-failed :
    (i size : ℕ) (service : Bytes) (inbox : List Received) (o : Opening)
    (r : Result (Unit {0}) × Link) (x : FlashError)
    → is_registered i o ≡ true
    → r.0 ≡ err x
    → ((open_sent i size service inbox o r).0 ≡ err x)
      × (is_registered i (open_sent i size service inbox o r).1 ≡ true)
open_sent-failed i size service inbox o (ok u, l) x h e = absurd cc
open_sent-failed i size service inbox o (err y, l) x h e = (cc, h)
open_sent-failed i size service inbox o (panic, l) x h e = absurd cc

-- When OPEN itself cannot be sent, the open fails with that error and the id stays registered: the
-- dispatcher keeps the sender of a stream that nobody will read.
pub adb_usb_open_leaks :
    (size : ℕ) (service : Bytes) (inbox : List Received) (o : Opening) (x : FlashError)
    → (usb_send_message a_open o.next_local_id 0 (service ++ (0 ∷ [])) o.link).0 ≡ err x
    → ((adb_usb_open size service inbox o).0 ≡ err x)
      × (is_registered o.next_local_id (adb_usb_open size service inbox o).1 ≡ true)
unfolding adb_usb_open
adb_usb_open_leaks size service inbox o x e =
    let i = o.next_local_id in
    open_sent-failed i size service inbox
      (record o {
        next_local_id = (i + 1) % 2 ^ 32;
        dispatcher = step (register_stream i) o.dispatcher;
      })
      (usb_send_message a_open i 0 (service ++ (0 ∷ [])) o.link) x
      (register-registered i ((i + 1) % 2 ^ 32) o.dispatcher o.link) e
