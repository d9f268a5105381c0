-- ===== src/Adb/Usb/Fragments.antt =====
-- A message is read whole however the transport cuts it.
use rusty_cortex.Base.{
  take-append-drop, drop-append_le, take-append, take-append_le, le→ltb, ==_refl, take, drop-append,
  length-append, leb→le, ℕ, ◌≤◌, ◌<◌, List, [], ◌∷◌, ◌++◌, ◌≡◌, refl, sym, ap, ◌∙◌, arith, leb,
  length, Bool-cases, inl, inr, append_assoc, append-nil, All,
}
use rusty_cortex.Base.Words.{Bytes}
use rusty_cortex.Failure.{ok}
use rusty_cortex.Adb.Message.{AdbMessage, magic_of, max_payload_size}
use rusty_cortex.Adb.Message.Laws.{
  IsFrame, header_of, header_fields, length-build_header, checked_message_own,
}
use rusty_cortex.Adb.Usb.{
  drop, Transfer, received, Part, header, payload, read_until, usb_read_message, with_header,
  with_payload,
}

abbrev pub concat : List Bytes → Bytes
concat [] = []
concat (c ∷ cs) = c ++ concat cs

abbrev pub transfers : List Bytes → List Transfer
transfers [] = []
transfers (c ∷ cs) = received c ∷ transfers cs

abbrev pub IsChunk : Bytes → Type 0
IsChunk c = 0 < length c

-- What `read_until` takes from chunks that hold enough: the buffer it returns and the chunks left.
record Taken (need : ℕ) (part : Part) (buf : Bytes) (chunks : List Bytes) (more : List Transfer)
    : Type 0 where
  got : Bytes
  left : List Bytes
  enough : need ≤ length got
  whole : got ++ concat left ≡ buf ++ concat chunks
  still : All IsChunk left
  runs : read_until need part buf (transfers chunks ++ more) ≡ (ok got, transfers left ++ more)

read_until_stop :
    (need : ℕ) (part : Part) (buf : Bytes) (script : List Transfer)
    → need ≤ length buf
    → read_until need part buf script ≡ (ok buf, script)
unfolding read_until
read_until_stop need part buf [] h = ground arith
read_until_stop need part buf (t ∷ script) h = ground arith

read_until-Taken :
    (need : ℕ) (part : Part) (buf : Bytes) (chunks : List Bytes) (more : List Transfer)
    → All IsChunk chunks
    → need ≤ length (buf ++ concat chunks)
    → Taken need part buf chunks more
unfolding read_until
read_until-Taken need part buf [] more k h = record {
  got = buf;
  left = [];
  enough = rw append-nil at h;
  whole = refl;
  still = tt;
  runs = read_until_stop need part buf more (rw append-nil at h);
}
read_until-Taken need part buf (c ∷ cs) more (hc, hs) h =
    elim (Bool-cases (leb need (length buf))) [
      | inl full ↦ record {
        got = buf;
        left = c ∷ cs;
        enough = leb→le need (length buf) full;
        whole = refl;
        still = (hc, hs);
        runs = rw full;
      }
      | inr short ↦
          let t =
            read_until-Taken need part (buf ++ c) cs more hs
              (rw (append_assoc buf c (concat cs)) h) in
          record {
            got = t.got;
            left = t.left;
            enough = t.enough;
            whole = t.whole ∙ append_assoc buf c (concat cs);
            still = t.still;
            runs = rw short t.runs;
          }
    ]

no_chunks : (cs : List Bytes) → All IsChunk cs → length (concat cs) ≡ 0 → cs ≡ []
no_chunks [] h e = refl
no_chunks (c ∷ cs) (hc, hs) e = absurd (omega (arith, length-append c (concat cs)))

-- Two ways to cut one list: at `length h`, and behind it.
recut :
    (n : ℕ) (got l h p : Bytes)
    → got ++ l ≡ h ++ p
    → length h ≡ n
    → n ≤ length got
    → (got ≡ h ++ drop n got) × (drop n got ++ l ≡ p)
recut n got l h p e len k =
    let front : take n got ≡ h =
      sym (take-append_le n got l k) ∙ ap (take n) e ∙ take-append n h p len in
    let back : drop n got ++ l ≡ p =
      sym (drop-append_le n got l k) ∙ ap (drop n) e ∙ drop-append n h p len in
    (sym (take-append-drop n got) ∙ ap (λ (t : Bytes). t ++ drop n got) front, back)

with_header_own :
    (m : AdbMessage) (x : Bytes) (script : List Transfer)
    → IsFrame m
    → length m.payload ≤ max_payload_size
    → with_header (ok (header_of m ++ x), script)
      ≡ with_payload (header_of m ++ x) (read_until (length m.payload) payload x script)
with_header_own m x script f bound =
    let (c, a, b, l, s, g) = header_fields m x f in
    rw (drop-append 24 (header_of m) x (length-build_header m.command m.arg0 m.arg1 m.payload)) (
      rw c (
        rw l (
          rw g (
            rw (==_refl (magic_of m.command))
              (rw (le→ltb max_payload_size (length m.payload) bound))))))

with_payload_own :
    (m : AdbMessage) (x : Bytes) (script : List Transfer)
    → IsFrame m
    → with_payload (header_of m ++ x) (ok m.payload, script) ≡ (ok m, script)
with_payload_own m x script f =
    let (c, a, b, l, s, g) = header_fields m x f in
    rw c (rw a (rw b (rw s (rw (checked_message_own m)))))

payload_fragments :
    (m : AdbMessage) (x : Bytes) (chunks : List Bytes) (more : List Transfer)
    → All IsChunk chunks
    → x ++ concat chunks ≡ m.payload
    → read_until (length m.payload) payload x (transfers chunks ++ more) ≡ (ok m.payload, more)
payload_fragments m x chunks more k e =
    let t = read_until-Taken (length m.payload) payload x chunks more k (rw e (omega arith)) in
    let none_left : t.left ≡ [] =
      no_chunks t.left t.still
        (omega (arith, ap length (t.whole ∙ e), length-append t.got (concat t.left), t.enough)) in
    let all_got : t.got ≡ m.payload = sym (append-nil t.got) ∙ rw none_left at (t.whole ∙ e) in
    t.runs ∙ rw none_left (rw all_got)

-- However a message's header and payload are cut into transfers (none of them empty, and the header
-- and the payload may share one), `usb_read_message` returns the message and leaves the transfers
-- that follow it.
pub usb_read_message_fragments :
    (m : AdbMessage) (chunks : List Bytes) (more : List Transfer)
    → IsFrame m
    → length m.payload ≤ max_payload_size
    → All IsChunk chunks
    → concat chunks ≡ header_of m ++ m.payload
    → usb_read_message (transfers chunks ++ more) ≡ (ok m, more)
unfolding usb_read_message
usb_read_message_fragments m chunks more f bound k e =
    let enough : 24 ≤ length (concat chunks) = omega (
      arith,
      ap length e,
      length-append (header_of m) m.payload,
      length-build_header m.command m.arg0 m.arg1 m.payload,
    ) in
    let head = read_until-Taken 24 header [] chunks more k enough in
    let (got, x) =
      recut 24 head.got (concat head.left) (header_of m) m.payload (head.whole ∙ e)
        (length-build_header m.command m.arg0 m.arg1 m.payload) head.enough in
    ap with_header (head.runs ∙ ap (λ (t : Bytes). (ok t, transfers head.left ++ more)) got)
    ∙ with_header_own m (drop 24 head.got) (transfers head.left ++ more) f bound
    ∙ ap (with_payload (header_of m ++ drop 24 head.got))
        (payload_fragments m (drop 24 head.got) head.left more head.still x)
    ∙ with_payload_own m (drop 24 head.got) more f
