-- ===== src/Adb/Connect/Stale.antt =====
-- Messages left over from an earlier session, in front of the answer to CNXN.
use rusty_cortex.Base.{
  ◌-◌, ℕ, suc, ◌+◌, ◌≤◌, ◌<◌, Bool, true, false, ◌||◌, List, [], ◌∷◌, ◌++◌, ◌≡◌, ◌≢◌, ◌⊎◌, refl, ap,
  ◌∙◌, arith, if◌then◌else◌, length, All, le→ltb, lt→ltb, length-append,
}
use rusty_cortex.Base.Words.{Bytes}
use rusty_cortex.Failure.{ok, err}
use rusty_cortex.Adb.Message.{
  AdbMessage, a_cnxn, a_auth, a_wrte, a_okay, a_clse, auth_token, max_payload_size,
}
use rusty_cortex.Adb.Message.Laws.{IsFrame, header_of, length-build_header}
use rusty_cortex.Adb.Usb.{Transfer, Link, receive}
use rusty_cortex.Adb.Usb.Fragments.{concat, transfers, IsChunk, usb_read_message_fragments}
use rusty_cortex.Adb.Connect.{
  parse_cnxn_banner, min, Keys, finish, skip, accepted, judge, cnxn_loop, too_many, deadline_passed,
  next,
}

-- A message and the transfers that bring it.
pub record Arrival : Type 0 where
  pub message : AdbMessage
  pub chunks : List Bytes

pub record IsArrival (a : Arrival) : Type 0 where
  pub frame : IsFrame a.message
  pub bound : length a.message.payload ≤ max_payload_size
  pub chunked : All IsChunk a.chunks
  pub complete : concat a.chunks ≡ header_of a.message ++ a.message.payload

-- The commands that the handshake takes for left over: data, acknowledgements and closes of streams,
-- and AUTH messages that are no token.
abbrev pub IsStale : AdbMessage → Type 0
IsStale m =
    (m.command ≡ a_wrte)
    ⊎ (m.command ≡ a_okay)
    ⊎ (m.command ≡ a_clse)
    ⊎ ((m.command ≡ a_auth) × (m.arg0 ≢ auth_token))

abbrev pub script : List Arrival → List Transfer → List Transfer
script [] more = more
script (a ∷ old) more = transfers a.chunks ++ script old more

abbrev pub with_incoming : Link → List Transfer → Link
with_incoming l ts = record l { incoming = ts }

receive_lem :
    (a : Arrival) (l : Link) (more : List Transfer)
    → IsArrival a
    → receive (with_incoming l (transfers a.chunks ++ more)) ≡ (ok a.message, with_incoming l more)
receive_lem a l more h =
    rw (usb_read_message_fragments a.message a.chunks more h.frame h.bound h.chunked h.complete)

not_expired :
    (chunks : List Bytes) (more : List Transfer)
    → 0 < length (concat chunks)
    → deadline_passed (transfers chunks ++ more) ≡ false
not_expired [] more h = absurd (omega arith)
not_expired (c ∷ cs) more h = refl

arrival-not_expired :
    (a : Arrival) (more : List Transfer)
    → IsArrival a
    → deadline_passed (transfers a.chunks ++ more) ≡ false
arrival-not_expired a more h = not_expired a.chunks more (
    omega (
      arith,
      ap length h.complete,
      length-append (header_of a.message) a.message.payload,
      length-build_header a.message.command a.message.arg0 a.message.arg1 a.message.payload,
    ))

module _ (keys : Keys) where
  judge-skip : (m : AdbMessage) (l : Link) → IsStale m → judge keys (ok m, l) ≡ skip l
  unfolding judge
  judge-skip m l h = ground arith

  judge-cnxn :
      (m : AdbMessage) (l : Link)
      → m.command ≡ a_cnxn
      → judge keys (ok m, l) ≡ finish (ok (accepted keys m), l)
  unfolding judge
  judge-cnxn m l h = rw h

  loop_stops :
      (fuel stale : ℕ) (l : Link)
      → 32 < stale
      → cnxn_loop keys (suc fuel) stale l ≡ (err too_many, l)
  unfolding cnxn_loop
  loop_stops fuel stale l h = rw (lt→ltb 32 stale h) (stops (deadline_passed l.incoming))
    where
      stops :
          (b : Bool)
          → (if b || true
              then (err too_many, l)
              else next (cnxn_loop keys fuel (stale + 1)) (judge keys (receive l)))
            ≡ (err too_many, l)
      stops true = refl
      stops false = refl

  cnxn_loop_step :
      (fuel stale : ℕ) (a : Arrival) (l : Link) (more : List Transfer)
      → IsArrival a
      → stale ≤ 32
      → cnxn_loop keys (suc fuel) stale (with_incoming l (transfers a.chunks ++ more))
        ≡ next (cnxn_loop keys fuel (stale + 1)) (judge keys (ok a.message, with_incoming l more))
  unfolding cnxn_loop
  cnxn_loop_step fuel stale a l more h b =
      rw (arrival-not_expired a more h) (rw (le→ltb 32 stale b) (rw (receive_lem a l more h)))

  cnxn_loop_skips :
      (old : List Arrival) (fuel stale : ℕ) (l : Link) (more : List Transfer)
      → All IsArrival old
      → All (λ a. IsStale a.message) old
      → stale + length old ≤ 33
      → cnxn_loop keys (length old + fuel) stale (with_incoming l (script old more))
        ≡ cnxn_loop keys fuel (stale + length old) (with_incoming l more)
  cnxn_loop_skips [] fuel stale l more h k b =
      let e : 0 + fuel ≡ fuel = omega arith in
      let d : stale + 0 ≡ stale = omega arith in rw e (rw d)
  cnxn_loop_skips (a ∷ old) fuel stale l more (h, hs) (k, ks) b =
      let e : suc (length old) + fuel ≡ suc (length old + fuel) = omega arith in
      let d : stale + suc (length old) ≡ stale + 1 + length old = omega arith in
      rw e (
        rw d (
          cnxn_loop_step (length old + fuel) stale a l (script old more) h (omega arith)
          ∙ ap (next (cnxn_loop keys (length old + fuel) (stale + 1)))
              (judge-skip a.message (with_incoming l (script old more)) k)
          ∙ cnxn_loop_skips old fuel (stale + 1) l more hs ks (omega arith)))

  -- Up to 32 stale messages in front of the device's CNXN are skipped, however they are cut into
  -- transfers: the loop returns the smaller of the payload size in that CNXN and 1 MiB, with the
  -- banner in it, and has read nothing behind it.
  pub cnxn_loop_accepts :
      (old : List Arrival) (answer : Arrival) (l : Link) (more : List Transfer)
      → All IsArrival old
      → All (λ a. IsStale a.message) old
      → length old ≤ 32
      → IsArrival answer
      → answer.message.command ≡ a_cnxn
      → cnxn_loop keys 34 0 (with_incoming l (script old (transfers answer.chunks ++ more))) ≡ (
        ok (
          min answer.message.arg1 1048576,
          parse_cnxn_banner (keys.from_utf8_lossy answer.message.payload),
        ),
        with_incoming l more,
      )
  unfolding accepted
  cnxn_loop_accepts old answer l more h k b ha hc =
      let e : length old + suc (33 - length old) ≡ 34 = omega arith in
      let d : 0 + length old ≡ length old = omega arith in
      rw e at (
        cnxn_loop_skips old (suc (33 - length old)) 0 l (transfers answer.chunks ++ more) h k
          (omega arith))
      ∙ rw d (
          cnxn_loop_step (33 - length old) (length old) answer l more ha b
          ∙ ap (next (cnxn_loop keys (33 - length old) (length old + 1)))
              (judge-cnxn answer.message (with_incoming l more) hc))

  -- With 33 stale messages the handshake gives up, whatever follows them.
  pub cnxn_loop_gives_up :
      (old : List Arrival) (l : Link) (more : List Transfer)
      → All IsArrival old
      → All (λ a. IsStale a.message) old
      → length old ≡ 33
      → cnxn_loop keys 34 0 (with_incoming l (script old more))
        ≡ (err too_many, with_incoming l more)
  cnxn_loop_gives_up old l more h k b =
      let e : length old + 1 ≡ 34 = omega arith in
      let d : 0 + length old ≡ 33 = omega arith in
      rw e at (cnxn_loop_skips old 1 0 l more h k (omega arith))
      ∙ rw d (loop_stops 0 33 (with_incoming l more) (omega arith))
