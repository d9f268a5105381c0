-- ===== src/Adb/Connect/Entries.antt =====
-- The cache of connections across `adb_usb_connect`.
use rusty_cortex.Base.{
  subst, ℕ, ◌≤◌, true, false, Option, none, some, ◌≡◌, refl, sym, ◌∙◌, ==_refl, equal, equal_iff,
  Bool-cases, inl, inr, Option-cases,
}
use rusty_cortex.Base.Words.{Bytes}
use rusty_cortex.Failure.{Result, ok, err, panic}
use rusty_cortex.Adb.Message.{max_payload_size}
use rusty_cortex.Adb.Usb.{Link}
use rusty_cortex.Adb.Banner.{BannerInfo}
use rusty_cortex.Adb.Discovery.{AdbInterface}
use rusty_cortex.Adb.Connect.{
  on_bus, started, spawned, claimed, shaken, Keys, handshake, CachedUsbConnection, UsbConnection,
  Host, remove, connection, adb_usb_connect,
}
use rusty_cortex.Adb.Connect.Cache.{Bounded, handshake-Bounded}

-- Every cached connection has a negotiated payload size within the protocol's.
abbrev pub Within : Option CachedUsbConnection → Type 0
Within none = Unit
Within (some c) = c.max_payload ≤ max_payload_size

abbrev pub IsCacheValid : Host → Type 0
IsCacheValid h = (s : Bytes) → Within (h.cache s)

-- After a call for `serial`: a connection is the cached one, its dispatcher runs, and its payload
-- size is within bounds; after an error nothing is cached for the device.
abbrev pub Answers : Bytes → Result UsbConnection × Host → Type 0
Answers serial (ok conn, h) =
    (c : CachedUsbConnection) × (h.cache serial ≡ some c)
    × (conn ≡ connection serial c)
    × (h.alive c.dispatcher ≡ true)
    × (c.max_payload ≤ max_payload_size)
Answers serial (err e, h) = h.cache serial ≡ none
Answers serial (panic, h) = h.cache serial ≡ none

equal_refl : (s : Bytes) → equal s s ≡ true
equal_refl s = (equal_iff s s).1 refl

remove_self :
    (serial : Bytes) (cache : Bytes → Option CachedUsbConnection)
    → remove serial cache serial ≡ none
remove_self serial cache = rw (equal_refl serial)

started-Answers :
    (serial : Bytes) (i : AdbInterface) (size : ℕ) (banner : BannerInfo) (h : Host)
    → size ≤ max_payload_size
    → Answers serial (started serial i (size, banner) h)
started-Answers serial i size banner h b = (
  record { ep_out = i.ep_out; max_payload = size; banner = banner; dispatcher = h.next_dispatcher },
  rw (equal_refl serial),
  refl,
  rw (==_refl h.next_dispatcher),
  b,
)

spawned-Answers :
    (serial : Bytes) (i : AdbInterface) (size : ℕ) (banner : BannerInfo) (r : Result (Unit {0}))
    (h : Host)
    → h.cache serial ≡ none
    → size ≤ max_payload_size
    → Answers serial (spawned serial i (size, banner) r h)
spawned-Answers serial i size banner (ok u) h e b = started-Answers serial i size banner h b
spawned-Answers serial i size banner (err x) h e b = e
spawned-Answers serial i size banner panic h e b = e

shaken-Answers :
    (serial : Bytes) (i : AdbInterface) (h : Host) (r : Result (ℕ × BannerInfo) × Link)
    → h.cache serial ≡ none
    → Bounded r
    → Answers serial (shaken serial i h r)
unfolding Bounded
shaken-Answers serial i h (ok (size, banner), l) e b =
    spawned-Answers serial i size banner h.spawn (record h { link = l }) e b
shaken-Answers serial i h (err x, l) e b = remove_self serial h.cache
shaken-Answers serial i h (panic, l) e b = e

claimed-Answers :
    (keys : Keys) (serial : Bytes) (r : Result (Unit {0})) (h : Host) (i : Result AdbInterface)
    → h.cache serial ≡ none
    → Answers serial (claimed keys serial r h i)
claimed-Answers keys serial (ok u) h (ok i) e =
    shaken-Answers serial i h (handshake keys h.link) e (handshake-Bounded keys h.link)
claimed-Answers keys serial (err x) h (ok i) e = e
claimed-Answers keys serial panic h (ok i) e = e
claimed-Answers keys serial (ok u) h (err x) e = e
claimed-Answers keys serial (err y) h (err x) e = e
claimed-Answers keys serial panic h (err x) e = e
claimed-Answers keys serial (ok u) h panic e = e
claimed-Answers keys serial (err y) h panic e = e
claimed-Answers keys serial panic h panic e = e

-- With a valid cache: a connection that `adb_usb_connect` returns is the one cached for the serial
-- number, with a running dispatcher and a payload size of at most 1 MiB; and after an error nothing
-- is cached for that serial number.
pub adb_usb_connect-Answers :
    (keys : Keys) (serial : Bytes) (h : Host)
    → IsCacheValid h
    → Answers serial (adb_usb_connect keys serial h)
unfolding adb_usb_connect
adb_usb_connect-Answers keys serial h v = elim (Option-cases (h.cache serial)) [
  | inl e ↦ rw e (claimed-Answers keys serial h.claim h (on_bus serial h.devices) e)
  | inr (c, e) ↦ elim (Bool-cases (h.alive c.dispatcher)) [
    | inl alive ↦ rw e (rw alive (c, e, refl, alive, subst Within e (v serial)))
    | inr dead ↦ rw e (
        rw dead (
          claimed-Answers keys serial h.claim (record h { cache = remove serial h.cache })
            (on_bus serial h.devices) (remove_self serial h.cache)))
  ]
]

-- The entries of other serial numbers.
abbrev Others : Bytes → Host → Result UsbConnection × Host → Type 0
Others serial h r = (s : Bytes) → equal serial s ≡ false → r.1.cache s ≡ h.cache s

shaken-Others :
    (serial : Bytes) (i : AdbInterface) (h : Host) (r : Result (ℕ × BannerInfo) × Link)
    → Others serial h (shaken serial i h r)
shaken-Others serial i h (ok p, l) = spawned-Others h.spawn
  where
    spawned-Others :
        (r : Result (Unit {0})) → Others serial h (spawned serial i p r (record h { link = l }))
    spawned-Others (ok u) s o = rw o
    spawned-Others (err x) s o = refl
    spawned-Others panic s o = refl
shaken-Others serial i h (err x, l) = λ s o. rw o
shaken-Others serial i h (panic, l) = λ s o. refl

claimed-Others :
    (keys : Keys) (serial : Bytes) (r : Result (Unit {0})) (h : Host) (i : Result AdbInterface)
    → Others serial h (claimed keys serial r h i)
claimed-Others keys serial (ok u) h (ok i) = shaken-Others serial i h (handshake keys h.link)
claimed-Others keys serial (err x) h (ok i) = λ s o. refl
claimed-Others keys serial panic h (ok i) = λ s o. refl
claimed-Others keys serial (ok u) h (err x) = λ s o. refl
claimed-Others keys serial (err y) h (err x) = λ s o. refl
claimed-Others keys serial panic h (err x) = λ s o. refl
claimed-Others keys serial (ok u) h panic = λ s o. refl
claimed-Others keys serial (err y) h panic = λ s o. refl
claimed-Others keys serial panic h panic = λ s o. refl

-- A call for one device leaves what is cached for every other device as it was.
pub adb_usb_connect-others :
    (keys : Keys) (serial : Bytes) (h : Host) (s : Bytes)
    → equal serial s ≡ false
    → (adb_usb_connect keys serial h).1.cache s ≡ h.cache s
unfolding adb_usb_connect
adb_usb_connect-others keys serial h s o = elim (Option-cases (h.cache serial)) [
  | inl e ↦ rw e (claimed-Others keys serial h.claim h (on_bus serial h.devices) s o)
  | inr (c, e) ↦ elim (Bool-cases (h.alive c.dispatcher)) [
    | inl alive ↦ rw e (rw alive refl)
    | inr dead ↦ rw e (
        rw dead (
          claimed-Others keys serial h.claim (record h { cache = remove serial h.cache })
            (on_bus serial h.devices) s o
          ∙ rw o))
  ]
]

Answers-Within :
    (serial : Bytes) (r : Result UsbConnection × Host)
    → Answers serial r
    → Within (r.1.cache serial)
Answers-Within serial (ok conn, h) (c, e, p, a, b) = rw e b
Answers-Within serial (err x, h) e = rw e tt
Answers-Within serial (panic, h) e = rw e tt

-- `adb_usb_connect` keeps the payload sizes of all cached connections within the protocol's bound.
pub adb_usb_connect-IsCacheValid :
    (keys : Keys) (serial : Bytes) (h : Host)
    → IsCacheValid h
    → IsCacheValid (adb_usb_connect keys serial h).1
adb_usb_connect-IsCacheValid keys serial h v s = elim (Bool-cases (equal serial s)) [
  | inl same ↦
      subst (λ (t : Bytes). Within ((adb_usb_connect keys serial h).1.cache t))
        ((equal_iff serial s).0 same)
        (Answers-Within serial (adb_usb_connect keys serial h)
          (adb_usb_connect-Answers keys serial h v))
  | inr other ↦ subst Within (sym (adb_usb_connect-others keys serial h s other)) (v s)
]
