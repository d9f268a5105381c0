-- ===== src/Adb/Connect.antt =====
-- `adb_usb_connect` and `do_auth_handshake`, with the cache of authenticated connections.
mod Cache
pub mod Entries
pub mod Stale
use rusty_cortex.Base.{
  ℕ, zero, suc, ◌+◌, min, Bool, true, false, not, ◌&&◌, ◌||◌, List, [], ◌∷◌, Option, none, some,
  ltb, ◌==◌, if◌then◌else◌, String, codes, contains, equal,
}
use rusty_cortex.Base.Words.{Bytes}
use rusty_cortex.Failure.{FlashError, Result, ok, err, panic, protocol, number, Arg}
use rusty_cortex.Adb.Message.{
  AdbMessage, a_cnxn, a_auth, a_wrte, a_okay, a_clse, a_version, max_payload_size, auth_token,
  auth_signature, auth_rsapublickey,
}
use rusty_cortex.Adb.Usb.{Transfer, expired, Link, usb_send_message, receive}
use rusty_cortex.Adb.Banner.{BannerInfo, parse_cnxn_banner}
use rusty_cortex.Adb.Discovery.{UsbDevice, AdbInterface, find_adb_usb_device}

-- What the connection takes from the system: loading the key and signing a token with it may fail;
-- `public_key` is the AUTH RSAPUBLICKEY payload; `from_utf8_lossy` is the library's.
pub record Keys : Type 1 where
  pub Key : Type 0
  pub load_adb_key : Result Key
  pub sign_auth_token : Key → Bytes → Result Bytes
  pub encode_public_key : Key → Bytes
  pub from_utf8_lossy : Bytes → List ℕ

-- `matches!(e, FlashError::Protocol(msg) if msg.contains(what))`; the messages' arguments here are
-- numbers and fixed words, so the format string decides.
abbrev pub protocol_says : String → FlashError → Bool
protocol_says what (protocol message args) = contains (codes message) (codes what)
protocol_says what _ = false

-- What the loop does with one read: finish, or skip a stale message and go on.
pub data Round : Type 0 where
  finish : Result (ℕ × BannerInfo) × Link → Round
  skip : Link → Round

abbrev pub next : (Link → Result (ℕ × BannerInfo) × Link) → Round → Result (ℕ × BannerInfo) × Link
next again (finish r) = r
next again (skip l) = again l

abbrev pub too_many : FlashError
too_many = protocol "Too many stale messages in USB endpoint during CNXN handshake" []

abbrev pub deadline_passed : List Transfer → Bool
deadline_passed (expired ∷ script) = true
deadline_passed _ = false

abbrev pub host_banner : Bytes
host_banner = codes "host::features=shell_v2,cmd"

module _ (keys : Keys) where
  open keys use {Key, load_adb_key, sign_auth_token, encode_public_key, from_utf8_lossy}

  -- The negotiated payload size, and the banner.
  unfoldable pub accepted : AdbMessage → ℕ × BannerInfo
  accepted m = (min m.arg1 max_payload_size, parse_cnxn_banner (from_utf8_lossy m.payload))

  -- The answer to the public key.
  abbrev public_key_answer : Result AdbMessage × Link → Result (ℕ × BannerInfo) × Link
  public_key_answer (ok m, l) = if m.command == a_cnxn then (ok (accepted m), l) else (
    err (
        protocol "Expected CNXN after RSAPUBLICKEY, got command=0x{other:08X}"
          (number m.command ∷ [])),
    l,
  )
  public_key_answer (err e, l) = (err e, l)
  public_key_answer (panic, l) = (panic, l)

  abbrev public_key_sent : Result (Unit {0}) × Link → Result (ℕ × BannerInfo) × Link
  public_key_sent (ok _, l) = public_key_answer (receive l)
  public_key_sent (err e, l) = (err e, l)
  public_key_sent (panic, l) = (panic, l)

  -- The answer to the signature.
  abbrev signature_answer : Key → Result AdbMessage × Link → Result (ℕ × BannerInfo) × Link
  signature_answer key (ok m, l) =
      if m.command == a_cnxn
      then (ok (accepted m), l)
      else if m.command == a_auth && m.arg0 == auth_token
      then public_key_sent (usb_send_message a_auth auth_rsapublickey 0 (encode_public_key key) l)
      else (
        err (
            protocol "Unexpected AUTH response: command=0x{other:08X}, arg0={}"
              (number m.command ∷ number m.arg0 ∷ [])),
        l,
      )
  signature_answer key (err e, l) = (err e, l)
  signature_answer key (panic, l) = (panic, l)

  abbrev signature_sent : Key → Result (Unit {0}) × Link → Result (ℕ × BannerInfo) × Link
  signature_sent key (ok _, l) = signature_answer key (receive l)
  signature_sent key (err e, l) = (err e, l)
  signature_sent key (panic, l) = (panic, l)

  abbrev signed : Key → Result Bytes → Link → Result (ℕ × BannerInfo) × Link
  signed key (ok signature) l =
      signature_sent key (usb_send_message a_auth auth_signature 0 signature l)
  signed key (err e) l = (err e, l)
  signed key panic l = (panic, l)

  abbrev loaded : Result Key → Bytes → Link → Result (ℕ × BannerInfo) × Link
  loaded (ok key) token l = signed key (sign_auth_token key token) l
  loaded (err e) token l = (err e, l)
  loaded panic token l = (panic, l)

  unfoldable pub do_auth_handshake : Bytes → Link → Result (ℕ × BannerInfo) × Link
  do_auth_handshake token l = loaded load_adb_key token l

  unfoldable pub judge : Result AdbMessage × Link → Round
  judge (ok m, l) =
      if m.command == a_cnxn
      then finish (ok (accepted m), l)
      else if m.command == a_auth && m.arg0 == auth_token
      then finish (do_auth_handshake m.payload l)
      else if m.command == a_wrte
          || m.command == a_okay
          || m.command == a_clse
          || m.command == a_auth
      then skip l
      else finish (
        err (protocol "Unexpected response to CNXN: command=0x{other:08X}" (number m.command ∷ [])),
        l,
      )
  judge (err e, l) = if protocol_says "bad magic" e then skip l else finish (err e, l)
  judge (panic, l) = finish (panic, l)

  -- The loop, with `stale_skipped` messages skipped. It stops beyond 32 of them, so 34 rounds of fuel
  -- are enough.
  unfoldable pub cnxn_loop : ℕ → ℕ → Link → Result (ℕ × BannerInfo) × Link
  cnxn_loop zero stale_skipped l = (err too_many, l)
  cnxn_loop (suc fuel) stale_skipped l =
      if deadline_passed l.incoming || ltb 32 stale_skipped
      then (err too_many, l)
      else next (λ l'. cnxn_loop fuel (stale_skipped + 1) l') (judge (receive l))

  abbrev cnxn_sent : Result (Unit {0}) × Link → Result (ℕ × BannerInfo) × Link
  cnxn_sent (ok _, l) = cnxn_loop 34 0 l
  cnxn_sent (err e, l) = (err e, l)
  cnxn_sent (panic, l) = (panic, l)

  -- CNXN out, then its answer.
  unfoldable pub handshake : Link → Result (ℕ × BannerInfo) × Link
  unfolding cnxn_loop
  handshake l = cnxn_sent (usb_send_message a_cnxn a_version max_payload_size host_banner l)

-- `CachedUsbConnection`; `dispatcher` names the dispatcher that it shares.
pub record CachedUsbConnection : Type 0 where
  pub ep_out : ℕ
  pub max_payload : ℕ
  pub banner : BannerInfo
  pub dispatcher : ℕ

-- `UsbConnection`
pub record UsbConnection : Type 0 where
  pub ep_out : ℕ
  pub max_payload : ℕ
  pub banner : BannerInfo
  pub serial : Bytes
  pub dispatcher : ℕ

-- The cache, the dispatchers whose shutdown flag is not set, and the number that the next one gets.
-- `devices` is the USB bus, `claim` the outcome of claiming the interface and clearing its halts,
-- `spawn` that of starting the reader thread, `link` the claimed interface.
pub record Host : Type 0 where
  pub cache : Bytes → Option CachedUsbConnection
  pub alive : ℕ → Bool
  pub next_dispatcher : ℕ
  pub devices : Result (List UsbDevice)
  pub claim : Result (Unit {0})
  pub spawn : Result (Unit {0})
  pub link : Link

abbrev pub insert :
    Bytes
    → CachedUsbConnection
    → (Bytes → Option CachedUsbConnection)
    → Bytes
    → Option CachedUsbConnection
insert serial c cache s = if equal serial s then some c else cache s

abbrev pub remove :
    Bytes → (Bytes → Option CachedUsbConnection) → Bytes → Option CachedUsbConnection
remove serial cache s = if equal serial s then none else cache s

abbrev pub connection : Bytes → CachedUsbConnection → UsbConnection
connection serial c = record {
  ep_out = c.ep_out;
  max_payload = c.max_payload;
  banner = c.banner;
  serial = serial;
  dispatcher = c.dispatcher;
}

-- The dispatcher starts, and the connection is cached.
abbrev started : Bytes → AdbInterface → ℕ × BannerInfo → Host → Result UsbConnection × Host
started serial i (max_payload, banner) h =
    let c : CachedUsbConnection = record {
      ep_out = i.ep_out;
      max_payload = max_payload;
      banner = banner;
      dispatcher = h.next_dispatcher;
    } in
    (
      ok (connection serial c),
      record h {
        cache = insert serial c h.cache;
        alive = λ d. if d == h.next_dispatcher then true else h.alive d;
        next_dispatcher = h.next_dispatcher + 1;
      },
    )

abbrev spawned :
    Bytes → AdbInterface → ℕ × BannerInfo → Result (Unit {0}) → Host → Result UsbConnection × Host
spawned serial i p (ok _) h = started serial i p h
spawned serial i p (err e) h = (err e, h)
spawned serial i p panic h = (panic, h)

-- After the handshake; on an error the cache entry is removed.
abbrev shaken :
    Bytes → AdbInterface → Host → Result (ℕ × BannerInfo) × Link → Result UsbConnection × Host
shaken serial i h (ok p, l) = spawned serial i p h.spawn (record h { link = l })
shaken serial i h (err e, l) = (err e, record h { link = l; cache = remove serial h.cache })
shaken serial i h (panic, l) = (panic, record h { link = l })

abbrev claimed :
    Keys → Bytes → Result (Unit {0}) → Host → Result AdbInterface → Result UsbConnection × Host
claimed keys serial (ok _) h (ok i) = shaken serial i h (handshake keys h.link)
claimed keys serial (err e) h (ok i) = (err e, h)
claimed keys serial panic h (ok i) = (panic, h)
claimed keys serial r h (err e) = (err e, h)
claimed keys serial r h panic = (panic, h)

abbrev on_bus : Bytes → Result (List UsbDevice) → Result AdbInterface
on_bus serial (ok ds) = find_adb_usb_device serial ds
on_bus serial (err e) = err e
on_bus serial panic = panic

abbrev reuse : Keys → Bytes → Host → Option CachedUsbConnection → Result UsbConnection × Host
reuse keys serial h none = claimed keys serial h.claim h (on_bus serial h.devices)
reuse keys serial h (some c) =
    if h.alive c.dispatcher
    then (ok (connection serial c), h)
    else claimed keys serial h.claim (record h { cache = remove serial h.cache })
        (on_bus serial h.devices)

unfoldable pub adb_usb_connect : Keys → Bytes → Host → Result UsbConnection × Host
adb_usb_connect keys serial h = reuse keys serial h (h.cache serial)
