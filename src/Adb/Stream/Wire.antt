-- ===== src/Adb/Stream/Wire.antt =====
-- What writes put on the wire: one message, and acknowledgements behind it.
use rusty_cortex.Base.{
  zero, suc, String, append-nil, subst, ℕ, Bool, true, false, List, [], ◌∷◌, ◌++◌, ◌≡◌, refl, sym,
  ◌∙◌, ◌==◌, if◌then◌else◌, append_assoc, Bool-cases, inl, inr,
}
use rusty_cortex.Base.Words.{Bytes}
use rusty_cortex.Failure.{IoErrorKind, io, Result, ok, err, panic}
use rusty_cortex.Adb.Message.{build_header, a_okay, a_wrte, a_clse}
use rusty_cortex.Adb.Usb.{
  Link, Sent, delivered, gone, broken, bulk_next, bulk_out, send_payload, usb_send_message,
}
use rusty_cortex.Adb.Stream.{
  io_result, sent, buffered, go_on, Received, got, quiet, hung_up, UsbStream, send_on, ack_loop,
}

-- The transfers of a message: its header, and its payload unless that is empty.
abbrev pub payload_part : Bytes → List Bytes
payload_part [] = []
payload_part (b ∷ bs) = (b ∷ bs) ∷ []

abbrev pub frame : ℕ → ℕ → ℕ → Bytes → List Bytes
frame command arg0 arg1 bytes = build_header command arg0 arg1 bytes ∷ payload_part bytes

-- So many acknowledgements.
abbrev pub okays : ℕ → ℕ → ℕ → List Bytes
okays zero arg0 arg1 = []
okays (suc count) arg0 arg1 = frame a_okay arg0 arg1 [] ++ okays count arg0 arg1

-- What has reached the device when a call returns.
abbrev pub Wired : List Bytes → Result (Unit {0}) × Link → Type 0
Wired wire (ok u, l) = l.wire ≡ wire
Wired wire (err e, l) = Unit
Wired wire (panic, l) = Unit

bulk_next-Wired :
    (what : String) (bytes : Bytes) (outcomes : List Sent) (l : Link)
    → Wired (l.wire ++ (bytes ∷ [])) (bulk_next what bytes outcomes l)
bulk_next-Wired what bytes [] l = refl
bulk_next-Wired what bytes (delivered ∷ later) l = refl
bulk_next-Wired what bytes (gone ∷ later) l = tt
bulk_next-Wired what bytes (broken ∷ later) l = tt

bulk_out-Wired :
    (what : String) (bytes : Bytes) (l : Link)
    → Wired (l.wire ++ (bytes ∷ [])) (bulk_out what bytes l)
unfolding bulk_out
bulk_out-Wired what bytes l = bulk_next-Wired what bytes l.outcomes l

send_payload-Wired :
    (wire : List Bytes) (bytes : Bytes) (r : Result (Unit {0}) × Link)
    → Wired wire r
    → Wired (wire ++ payload_part bytes) (send_payload bytes r)
send_payload-Wired wire [] (ok u, l) w = w ∙ sym (append-nil wire)
send_payload-Wired wire [] (err e, l) w = tt
send_payload-Wired wire [] (panic, l) w = tt
send_payload-Wired wire (b ∷ bs) (ok u, l) w =
    subst
      (λ (before : List Bytes).
        Wired (before ++ ((b ∷ bs) ∷ [])) (bulk_out "bulk OUT (payload) failed: {e}" (b ∷ bs) l))
      w (bulk_out-Wired "bulk OUT (payload) failed: {e}" (b ∷ bs) l)
send_payload-Wired wire (b ∷ bs) (err e, l) w = tt
send_payload-Wired wire (b ∷ bs) (panic, l) w = tt

io_result-Wired :
    (wire : List Bytes) (r : Result (Unit {0}) × Link) → Wired wire r → Wired wire (io_result r)
io_result-Wired wire (ok u, l) w = w
io_result-Wired wire (err e, l) w = tt
io_result-Wired wire (panic, l) w = tt

pub send_on-Wired :
    (command : ℕ) (bytes : Bytes) (s : UsbStream)
    → Wired (s.link.wire ++ frame command s.local_id s.remote_id bytes) (send_on command bytes s)
unfolding send_on usb_send_message
send_on-Wired command bytes s =
    let head = build_header command s.local_id s.remote_id bytes in
    let header_out = bulk_out "bulk OUT (header) failed: {e}" head s.link in
    io_result-Wired (s.link.wire ++ frame command s.local_id s.remote_id bytes)
      (send_payload bytes header_out)
      (subst (λ (wire : List Bytes). Wired wire (send_payload bytes header_out))
        (append_assoc s.link.wire (head ∷ []) (payload_part bytes))
        (send_payload-Wired (s.link.wire ++ (head ∷ [])) bytes header_out
          (bulk_out-Wired "bulk OUT (header) failed: {e}" head s.link)))

-- A write that returns has sent nothing but acknowledgements behind `wire`.
abbrev pub Acks : ℕ → ℕ → List Bytes → Result ℕ × UsbStream → Type 0
Acks arg0 arg1 wire (ok k, s) = (count : ℕ) × (s.link.wire ≡ wire ++ okays count arg0 arg1)
Acks arg0 arg1 wire (err e, s) = Unit
Acks arg0 arg1 wire (panic, s) = Unit

Acks-behind :
    (arg0 arg1 : ℕ) (wire : List Bytes) (r : Result ℕ × UsbStream)
    → Acks arg0 arg1 (wire ++ frame a_okay arg0 arg1 []) r
    → Acks arg0 arg1 wire r
Acks-behind arg0 arg1 wire (ok k, s) (count, e) =
    (suc count, e ∙ append_assoc wire (frame a_okay arg0 arg1 []) (okays count arg0 arg1))
Acks-behind arg0 arg1 wire (err e, s) a = tt
Acks-behind arg0 arg1 wire (panic, s) a = tt

after_data-Acks :
    (bytes : Bytes) (s : UsbStream) (r : Result (Unit {0}) × Link)
    (again : UsbStream → Result ℕ × UsbStream)
    → ((t : UsbStream)
        → t.local_id ≡ s.local_id
        → t.remote_id ≡ s.remote_id
        → Acks s.local_id s.remote_id t.link.wire (again t))
    → Wired (s.link.wire ++ frame a_okay s.local_id s.remote_id []) r
    → Acks s.local_id s.remote_id s.link.wire (go_on again (buffered bytes s r))
after_data-Acks bytes s (ok u, l) again loop w =
    let next = record s { read_buf = s.read_buf ++ bytes; link = l } in
    Acks-behind s.local_id s.remote_id s.link.wire (again next) (
      subst (λ (wire : List Bytes). Acks s.local_id s.remote_id wire (again next)) w
        (loop next refl refl))
after_data-Acks bytes s (err e, l) again loop w = tt
after_data-Acks bytes s (panic, l) again loop w = tt

no_acks : (wire : List Bytes) (arg0 arg1 : ℕ) → (count : ℕ) × (wire ≡ wire ++ okays count arg0 arg1)
no_acks wire arg0 arg1 = (0, sym (append-nil wire))

ack_loop-Acks :
    (n : ℕ) (inbox : List Received) (s : UsbStream)
    → Acks s.local_id s.remote_id s.link.wire (ack_loop n inbox s)
unfolding ack_loop
ack_loop-Acks n [] s = tt
ack_loop-Acks n (quiet ∷ rest) s = tt
ack_loop-Acks n (hung_up ∷ rest) s = tt
ack_loop-Acks n (got m ∷ rest) s = elim (Bool-cases (m.command == a_okay)) [
  | inl okay ↦ rw okay (no_acks s.link.wire s.local_id s.remote_id)
  | inr not_okay ↦ rw not_okay (elim (Bool-cases (m.command == a_wrte)) [
    | inl wrte ↦ rw wrte (
        after_data-Acks m.payload s (send_on a_okay [] s) (ack_loop n rest)
          (λ t same_local same_remote.
            rw (sym same_local, sym same_remote) (ack_loop-Acks n rest t))
          (send_on-Wired a_okay [] s))
    | inr not_wrte ↦ rw not_wrte (elim (Bool-cases (m.command == a_clse)) [
      | inl clse ↦ rw clse tt
      | inr ignored ↦ rw ignored (ack_loop-Acks n rest s)
    ])
  ])
]

sent-Acks :
    (n : ℕ) (wire : List Bytes) (s : UsbStream) (r : Result (Unit {0}) × Link)
    → Wired wire r
    → Acks s.local_id s.remote_id wire (sent n s r)
sent-Acks n wire s (ok u, l) w =
    subst
      (λ (before : List Bytes).
        Acks s.local_id s.remote_id before (ack_loop n s.inbox (record s { link = l })))
      w (ack_loop-Acks n s.inbox (record s { link = l }))
sent-Acks n wire s (err e, l) w = tt
sent-Acks n wire s (panic, l) w = tt

pub write_flag-Acks :
    (n : ℕ) (wire : List Bytes) (s : UsbStream) (r : Result (Unit {0}) × Link)
    → Wired wire r
    → (flag : Bool)
    → Acks s.local_id s.remote_id wire
        (if flag then (err (io IoErrorKind.broken_pipe), s) else sent n s r)
write_flag-Acks n wire s r w true = tt
write_flag-Acks n wire s r w false = sent-Acks n wire s r w
