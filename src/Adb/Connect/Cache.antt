-- ===== src/Adb/Connect/Cache.antt =====
-- The cache across `adb_usb_connect`.
use rusty_cortex.Base.{zero, suc, if_elim, ℕ, ◌+◌, ◌≤◌, arith}
use rusty_cortex.Base.Words.{Bytes}
use rusty_cortex.Failure.{FlashError, Result, ok, err, panic}
use rusty_cortex.Adb.Message.{AdbMessage, max_payload_size}
use rusty_cortex.Adb.Usb.{Link}
use rusty_cortex.Adb.Banner.{BannerInfo}
use rusty_cortex.Adb.Connect.{
  next, host_banner, a_version, auth_rsapublickey, auth_signature, a_auth, a_cnxn, signed, loaded,
  suc, cnxn_sent, signature_sent, usb_send_message, receive, public_key_sent, public_key_answer,
  signature_answer, Keys, Round, finish, skip, accepted, do_auth_handshake, judge, cnxn_loop,
  handshake,
}

-- A negotiated payload size within the protocol's.
unfoldable pub Bounded : Result (ℕ × BannerInfo) × Link → Type 0
Bounded (ok (size, banner), l) = size ≤ max_payload_size
Bounded (err e, l) = Unit
Bounded (panic, l) = Unit

Bounded-err : (e : FlashError) (l : Link) → Bounded (err e, l)
unfolding Bounded
Bounded-err e l = tt

Bounded-panic : (l : Link) → Bounded (panic, l)
unfolding Bounded
Bounded-panic l = tt

-- What a round of the loop ends with.
RoundBounded : Round → Type 0
RoundBounded (finish r) = Bounded r
RoundBounded (skip l) = Unit

RoundBounded-skip : (l : Link) → RoundBounded (skip l)
unfolding RoundBounded
RoundBounded-skip l = tt

RoundBounded-finish : (r : Result (ℕ × BannerInfo) × Link) → Bounded r → RoundBounded (finish r)
unfolding RoundBounded
RoundBounded-finish r h = h

next-Bounded :
    (r : Round) (f : Link → Result (ℕ × BannerInfo) × Link)
    → RoundBounded r
    → ((l : Link) → Bounded (f l))
    → Bounded (next f r)
unfolding RoundBounded
next-Bounded (finish p) f h k = h
next-Bounded (skip l) f h k = k l

module _ (keys : Keys) where
  open keys use {Key, load_adb_key, sign_auth_token, encode_public_key, from_utf8_lossy}

  accepted-Bounded : (m : AdbMessage) (l : Link) → Bounded (ok (accepted keys m), l)
  unfolding accepted Bounded
  accepted-Bounded m l = omega arith

  public_key_answer-Bounded : (r : Result AdbMessage × Link) → Bounded (public_key_answer keys r)
  public_key_answer-Bounded (ok m, l) =
      if_elim Bounded _ _ _ (accepted-Bounded m l) (Bounded-err _ l)
  public_key_answer-Bounded (err e, l) = Bounded-err e l
  public_key_answer-Bounded (panic, l) = Bounded-panic l

  public_key_sent-Bounded : (r : Result (Unit {0}) × Link) → Bounded (public_key_sent keys r)
  public_key_sent-Bounded (ok u, l) = public_key_answer-Bounded (receive l)
  public_key_sent-Bounded (err e, l) = Bounded-err e l
  public_key_sent-Bounded (panic, l) = Bounded-panic l

  signature_answer-Bounded :
      (key : Key) (r : Result AdbMessage × Link) → Bounded (signature_answer keys key r)
  signature_answer-Bounded key (ok m, l) = if_elim Bounded _ _ _ (accepted-Bounded m l) (
      if_elim Bounded _ _ _
        (public_key_sent-Bounded
          (usb_send_message a_auth auth_rsapublickey 0 (encode_public_key key) l))
        (Bounded-err _ l))
  signature_answer-Bounded key (err e, l) = Bounded-err e l
  signature_answer-Bounded key (panic, l) = Bounded-panic l

  signature_sent-Bounded :
      (key : Key) (r : Result (Unit {0}) × Link) → Bounded (signature_sent keys key r)
  signature_sent-Bounded key (ok u, l) = signature_answer-Bounded key (receive l)
  signature_sent-Bounded key (err e, l) = Bounded-err e l
  signature_sent-Bounded key (panic, l) = Bounded-panic l

  signed-Bounded : (key : Key) (r : Result Bytes) (l : Link) → Bounded (signed keys key r l)
  signed-Bounded key (ok signature) l =
      signature_sent-Bounded key (usb_send_message a_auth auth_signature 0 signature l)
  signed-Bounded key (err e) l = Bounded-err e l
  signed-Bounded key panic l = Bounded-panic l

  loaded-Bounded : (r : Result Key) (token : Bytes) (l : Link) → Bounded (loaded keys r token l)
  loaded-Bounded (ok key) token l = signed-Bounded key (sign_auth_token key token) l
  loaded-Bounded (err e) token l = Bounded-err e l
  loaded-Bounded panic token l = Bounded-panic l

  do_auth_handshake-Bounded : (token : Bytes) (l : Link) → Bounded (do_auth_handshake keys token l)
  unfolding do_auth_handshake
  do_auth_handshake-Bounded token l = loaded-Bounded load_adb_key token l

  judge-Bounded : (r : Result AdbMessage × Link) → RoundBounded (judge keys r)
  unfolding judge
  judge-Bounded (ok m, l) =
      if_elim RoundBounded _ _ _ (RoundBounded-finish _ (accepted-Bounded m l)) (
        if_elim RoundBounded _ _ _ (RoundBounded-finish _ (do_auth_handshake-Bounded m.payload l)) (
          if_elim RoundBounded _ _ _ (RoundBounded-skip l)
            (RoundBounded-finish _ (Bounded-err _ l))))
  judge-Bounded (err e, l) =
      if_elim RoundBounded _ _ _ (RoundBounded-skip l) (RoundBounded-finish _ (Bounded-err e l))
  judge-Bounded (panic, l) = RoundBounded-finish _ (Bounded-panic l)

  cnxn_loop-Bounded : (fuel stale : ℕ) (l : Link) → Bounded (cnxn_loop keys fuel stale l)
  unfolding cnxn_loop
  cnxn_loop-Bounded zero stale l = Bounded-err _ l
  cnxn_loop-Bounded (suc fuel) stale l = if_elim Bounded _ _ _ (Bounded-err _ l) (
      next-Bounded (judge keys (receive l)) (cnxn_loop keys fuel (stale + 1))
        (judge-Bounded (receive l)) (cnxn_loop-Bounded fuel (stale + 1)))

  cnxn_sent-Bounded : (r : Result (Unit {0}) × Link) → Bounded (cnxn_sent keys r)
  cnxn_sent-Bounded (ok u, l) = cnxn_loop-Bounded 34 0 l
  cnxn_sent-Bounded (err e, l) = Bounded-err e l
  cnxn_sent-Bounded (panic, l) = Bounded-panic l

  pub handshake-Bounded : (l : Link) → Bounded (handshake keys l)
  unfolding handshake
  handshake-Bounded l =
      cnxn_sent-Bounded (usb_send_message a_cnxn a_version max_payload_size host_banner l)
