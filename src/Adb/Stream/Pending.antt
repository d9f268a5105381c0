-- ===== src/Adb/Stream/Pending.antt =====
-- What reads take from a stream, and what they leave pending.
use rusty_cortex.Base.{
  subst, ◌⊎◌, ltb→ge, drop-all, ==_iff, length-drop, take-all, ℕ, ◌+◌, ◌-◌, ◌≤◌, min, Bool, true,
  false, List, [], ◌∷◌, ◌++◌, ◌≡◌, refl, sym, ap, ◌∙◌, arith, ltb, ◌==◌, if◌then◌else◌, length,
  take, drop, append_assoc, Bool-cases, inl, inr, take-append-drop, drop-drop,
}
use rusty_cortex.Base.Words.{Bytes}
use rusty_cortex.Failure.{FlashError, Result, ok, err, panic}
use rusty_cortex.Adb.Message.{a_okay, a_wrte, a_clse}
use rusty_cortex.Adb.Usb.{Link}
use rusty_cortex.Adb.Stream.{
  acked, Received, got, quiet, hung_up, UsbStream, send_on, hand_out, read_loop, read,
}

-- The data that the channel will still bring: the payloads of the WRTE messages before the stream is
-- closed or the dispatcher goes away.
abbrev pub arriving : List Received → Bytes
arriving [] = []
arriving (quiet ∷ rest) = arriving rest
arriving (hung_up ∷ rest) = []
arriving (got m ∷ rest) =
    let more = m.payload ++ arriving rest in
    let skipped = arriving rest in
    if m.command == a_wrte then more else if m.command == a_clse then [] else skipped

-- The bytes that no read has returned yet: the rest of the buffer, and what the channel still brings
-- unless the stream is closed.
abbrev pub pending : UsbStream → Bytes
pending s = drop s.read_pos s.read_buf ++ (if s.closed then [] else arriving s.inbox)

-- The position lies inside the buffer.
abbrev pub IsStream : UsbStream → Type 0
IsStream s = s.read_pos ≤ length s.read_buf

-- The payload of one message is lost, as its acknowledgement failed with this error.
abbrev pub IsLost : UsbStream → Bytes → FlashError → UsbStream → Type 0
IsLost before_read before e s =
    (payload : Bytes) × (payload ++ pending s ≡ before)
    × ((send_on a_okay [] before_read).0 ≡ err e)

-- A read that returns has taken what it returns off the front of the pending bytes. After an error
-- all of them are still pending, or one payload is lost with the acknowledgement that failed.
pub Reads : UsbStream → Bytes → Result Bytes × UsbStream → Type 0
Reads before_read before (ok out, s) = (out ++ pending s ≡ before) × IsStream s
Reads before_read before (err e, s) =
    ((pending s ≡ before) ⊎ IsLost before_read before e s) × IsStream s
Reads before_read before (panic, s) = Unit

Reads-kept :
    (b : UsbStream) (before : Bytes) (e : FlashError) (s : UsbStream)
    → pending s ≡ before
    → IsStream s
    → Reads b before (err e, s)
unfolding Reads
Reads-kept b before e s kept h = (inl kept, h)

Reads-lost :
    (b : UsbStream) (before : Bytes) (e : FlashError) (s : UsbStream)
    → IsLost b before e s
    → IsStream s
    → Reads b before (err e, s)
unfolding Reads
Reads-lost b before e s lost h = (inr lost, h)

Reads-panic : (b : UsbStream) (before : Bytes) (s : UsbStream) → Reads b before (panic, s)
unfolding Reads
Reads-panic b before s = tt

Reads-ok :
    (b : UsbStream) (before out : Bytes) (s : UsbStream)
    → out ++ pending s ≡ before
    → IsStream s
    → Reads b before (ok out, s)
unfolding Reads
Reads-ok b before out s e h = (e, h)

hand_out-Reads :
    (b : UsbStream) (len : ℕ) (s : UsbStream)
    → s.closed ≡ false
    → IsStream s
    → Reads b (drop s.read_pos s.read_buf ++ arriving s.inbox) (hand_out len s)
unfolding hand_out Reads
hand_out-Reads b len s c h =
    let n = min (length s.read_buf - s.read_pos) len in
    let pos = s.read_pos + n in
    elim (Bool-cases (pos == length s.read_buf)) [
      | inl drained ↦ rw drained (
        simp c (
            ap (λ (t : Bytes). t ++ arriving s.inbox)
              (take-all n (drop s.read_pos s.read_buf) (
                omega (
                  arith,
                  length-drop s.read_pos s.read_buf,
                  (==_iff pos (length s.read_buf)).0 drained,
                )))),
        omega arith,
      )
      | inr some_left ↦ rw some_left (
        simp c (
            ap (◌++◌ (take n (drop s.read_pos s.read_buf)))
              (ap (λ (t : Bytes). t ++ arriving s.inbox) (sym (drop-drop s.read_pos n s.read_buf)))
            ∙ sym (
                append_assoc (take n (drop s.read_pos s.read_buf))
                  (drop n (drop s.read_pos s.read_buf)) (arriving s.inbox))
            ∙ ap (λ (t : Bytes). t ++ arriving s.inbox)
                (take-append-drop n (drop s.read_pos s.read_buf))),
        omega arith,
      )
    ]

acked-Reads :
    (b : UsbStream) (len : ℕ) (bytes : Bytes) (s : UsbStream) (r : Result (Unit {0}) × Link)
    → s.closed ≡ false
    → IsStream s
    → drop s.read_pos s.read_buf ≡ []
    → (send_on a_okay [] b).0 ≡ r.0
    → Reads b (bytes ++ arriving s.inbox) (acked len bytes s r)
acked-Reads b len bytes s (ok u, l) c h d sends =
    hand_out-Reads b len (record s { read_buf = bytes; read_pos = 0; link = l }) c (omega arith)
acked-Reads b len bytes s (err e, l) c h d sends =
    Reads-lost b _ e (record s { link = l }) (bytes, rw (d, c) refl, sends) h
acked-Reads b len bytes s (panic, l) c h d sends = Reads-panic b _ _

read_loop-Reads :
    (len : ℕ) (inbox : List Received) (s : UsbStream)
    → s.closed ≡ false
    → IsStream s
    → drop s.read_pos s.read_buf ≡ []
    → Reads s (arriving inbox) (read_loop len inbox s)
unfolding read_loop
read_loop-Reads len [] s c h d = Reads-kept s _ _ (record s { inbox = [] }) (rw (d, c) refl) h
read_loop-Reads len (quiet ∷ rest) s c h d =
    Reads-kept s _ _ (record s { inbox = rest }) (rw (d, c) refl) h
read_loop-Reads len (hung_up ∷ rest) s c h d =
    Reads-kept s _ _ (record s { inbox = rest; closed = true }) (rw d refl) h
read_loop-Reads len (got m ∷ rest) s c h d = elim (Bool-cases (m.command == a_wrte)) [
  | inl data_message ↦
      rw data_message
        (acked-Reads s len m.payload (record s { inbox = rest }) (send_on a_okay [] s) c h d refl)
  | inr other ↦ rw other (elim (Bool-cases (m.command == a_clse)) [
    | inl close_message ↦
        rw close_message (Reads-ok s [] [] (record s { inbox = rest; closed = true }) (rw d refl) h)
    | inr ignored ↦ rw ignored (read_loop-Reads len rest s c h d)
  ])
]

pub open-pending :
    (s : UsbStream) → s.closed ≡ false → pending s ≡ drop s.read_pos s.read_buf ++ arriving s.inbox
open-pending s c = rw c refl

-- The body of `read`, with the flag as a variable.
read_flag :
    (len : ℕ) (s : UsbStream)
    → IsStream s
    → (flag : Bool) → s.closed ≡ flag
    → flag ≡ false
    → Reads s (drop s.read_pos s.read_buf ++ arriving s.inbox) (
        if flag
        then (ok [], s)
        else if ltb s.read_pos (length s.read_buf)
        then hand_out len s
        else read_loop len s.inbox s)
read_flag len s h true c open_stream = absurd (cc)
read_flag len s h false c open_stream = elim (Bool-cases (ltb s.read_pos (length s.read_buf))) [
  | inl more ↦ rw more (hand_out-Reads s len s c h)
  | inr drained ↦
      let d = drop-all s.read_pos s.read_buf (ltb→ge s.read_pos (length s.read_buf) drained) in
      rw (drained, d) (read_loop-Reads len s.inbox s c h d)
]

-- A read of an open stream, whatever the channel brings: if it returns, it returns the front of the
-- pending bytes and leaves the rest pending; messages without data in between do not matter. If it
-- fails, all bytes stay pending, but for the payload of a message whose acknowledgement could not be
-- sent: that one is lost.
pub read-Reads :
    (len : ℕ) (s : UsbStream) → s.closed ≡ false → IsStream s → Reads s (pending s) (read len s)
unfolding read
read-Reads len s c h =
    subst (λ before. Reads s before (read len s)) (sym (open-pending s c))
      (read_flag len s h s.closed refl c)
