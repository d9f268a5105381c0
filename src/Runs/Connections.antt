-- ===== src/Runs/Connections.antt =====
-- Connecting to one device, with a key that always loads.
use rusty_cortex.Adb.Open.{Opening, adb_usb_open}
use rusty_cortex.Adb.Open.Registered.{
  Opened, after_okay, is_registered, adb_usb_open-Opened, adb_usb_open_leaks,
}
use rusty_cortex.Adb.Stream.Pending.{arriving}
use rusty_cortex.Failure.{device_disconnected}
use rusty_cortex.Adb.Usb.{gone, usb_send_message, bulk_out}
use rusty_cortex.Base.{
  min, zero, suc, ℕ, List, [], ◌∷◌, ◌++◌, ◌≡◌, refl, inl, arith, All, codes, none, some, true,
  false, repeat,
}
use rusty_cortex.Base.Words.{to_le_bytes}
use rusty_cortex.Failure.{ok, err}
use rusty_cortex.Adb.Message.{AdbMessage, a_cnxn, build_header}
use rusty_cortex.Adb.Message.Laws.{header_of}
use rusty_cortex.Adb.Usb.{bulk_out, usb_send_message, Link, timed_out}
use rusty_cortex.Adb.Usb.Fragments.{transfers}
use rusty_cortex.Adb.Discovery.{UsbDevice}
use rusty_cortex.Adb.Banner.{parse_cnxn_banner}
use rusty_cortex.Adb.Connect.{Keys, Host, adb_usb_connect, cnxn_loop}
use rusty_cortex.Adb.Connect.Entries.{
  IsCacheValid, Answers, adb_usb_connect-Answers, adb_usb_connect-IsCacheValid,
}
use rusty_cortex.Adb.Connect.Stale.{
  Arrival, IsArrival, IsStale, script, with_incoming, cnxn_loop_accepts,
}
use rusty_cortex.Adb.Stream.{Received, UsbStream, got, read}
use rusty_cortex.Adb.Stream.Pending.{Reads, pending, read-Reads}
use rusty_cortex.Adb.Stream.Writes.{Writes}
use rusty_cortex.Adb.Stream.Wire.{frame}
use rusty_cortex.Runs.Messages.{hello, hello-IsFrame}

abbrev keys : Keys
keys = record {
  Key = Unit {0};
  load_adb_key = ok tt;
  sign_auth_token = λ k token. ok token;
  encode_public_key = λ k. codes "key";
  from_utf8_lossy = λ bytes. bytes;
}

abbrev device_cnxn : AdbMessage
device_cnxn = record {
  command = a_cnxn;
  arg0 = 0x01000001;
  arg1 = 4096;
  payload = codes "device::";
}

abbrev answer : Arrival
answer = record { message = device_cnxn; chunks = header_of device_cnxn ∷ device_cnxn.payload ∷ [] }

answer-IsArrival : IsArrival answer
unfolding build_header to_le_bytes
answer-IsArrival = record {
  frame = record {
    command_fits = omega arith;
    arg0_fits = omega arith;
    arg1_fits = omega arith;
    length_fits = omega arith;
  };
  bound = omega arith;
  chunked = (omega arith, (omega arith, tt));
  complete = refl;
}

-- Data of an earlier session, in one transfer.
abbrev leftover : Arrival
leftover = record { message = hello; chunks = (header_of hello ++ hello.payload) ∷ [] }

leftover-IsArrival : IsArrival leftover
unfolding build_header to_le_bytes
leftover-IsArrival = record {
  frame = hello-IsFrame;
  bound = omega arith;
  chunked = (omega arith, tt);
  complete = refl;
}

abbrev idle : Link
idle = record { incoming = []; outcomes = []; wire = [] }

cnxn_loop_accepts_example :
    cnxn_loop keys 34 0 (
      with_incoming idle
        (script (leftover ∷ leftover ∷ []) (transfers answer.chunks ++ (timed_out ∷ []))))
    ≡ (
      ok (
        min device_cnxn.arg1 1048576,
        parse_cnxn_banner (keys.from_utf8_lossy device_cnxn.payload),
      ),
      with_incoming idle (timed_out ∷ []),
    )
cnxn_loop_accepts_example =
    cnxn_loop_accepts keys (leftover ∷ leftover ∷ []) answer idle (timed_out ∷ [])
      (leftover-IsArrival, (leftover-IsArrival, tt)) (inl refl, (inl refl, tt)) (omega arith)
      answer-IsArrival refl

abbrev leftovers : ℕ → List Arrival
leftovers n = repeat n (leftover ∷ [])

leftovers-IsArrival : (n : ℕ) → All IsArrival (leftovers n)
leftovers-IsArrival zero = tt
leftovers-IsArrival (suc n) = (leftover-IsArrival, leftovers-IsArrival n)

leftovers-IsStale : (n : ℕ) → All (λ a. IsStale a.message) (leftovers n)
leftovers-IsStale zero = tt
leftovers-IsStale (suc n) = (inl refl, leftovers-IsStale n)

abbrev phone : UsbDevice
phone = record {
  serial_number = some (codes "A1");
  opens = true;
  config = some (
      record {
        class = 0xFF;
        subclass = 0x42;
        protocol_code = 1;
        interface_number = 1;
        endpoints =
            record { is_bulk = true; is_in = true; address = 0x81 }
            ∷ record { is_bulk = true; is_in = false; address = 1 }
            ∷ [];
      }
      ∷ []);
}

abbrev host : Host
host = record {
  cache = λ serial. none;
  alive = λ d. false;
  next_dispatcher = 0;
  devices = ok (phone ∷ []);
  claim = ok tt;
  spawn = ok tt;
  link = with_incoming idle (transfers answer.chunks);
}

adb_usb_connect-Answers_example : Answers (codes "A1") (adb_usb_connect keys (codes "A1") host)
adb_usb_connect-Answers_example = adb_usb_connect-Answers keys (codes "A1") host (λ s. tt)

adb_usb_connect-IsCacheValid_example : IsCacheValid (adb_usb_connect keys (codes "A1") host).1
adb_usb_connect-IsCacheValid_example = adb_usb_connect-IsCacheValid keys (codes "A1") host (λ s. tt)

abbrev stream : UsbStream
stream = record {
  local_id = 1;
  remote_id = 5;
  max_payload = 4;
  read_buf = codes "abc";
  read_pos = 2;
  closed = false;
  inbox = got hello ∷ got (record hello { command = 0x59414B4F; payload = [] }) ∷ [];
  link = idle;
}

read-Reads_example : Reads stream (pending stream) (read 2 stream)
read-Reads_example = read-Reads 2 stream refl (omega arith)

abbrev opening : Opening
opening = record {
  next_local_id = 1;
  dispatcher = record {
    streams = λ i. record { queue = []; registered = false; listening = false };
    shutdown = false;
    running = true;
  };
  link = idle;
}

abbrev okay_then_data : List Received
okay_then_data = got (record hello { command = 0x59414B4F; payload = [] }) ∷ got hello ∷ []

adb_usb_open-Opened_example :
    Opened 1
      (arriving (after_okay okay_then_data))
      (adb_usb_open 4096 (codes "sync:") okay_then_data opening)
unfolding usb_send_message bulk_out
adb_usb_open-Opened_example = adb_usb_open-Opened 4096 (codes "sync:") okay_then_data opening refl

abbrev unplugged_opening : Opening
unplugged_opening = record opening { link = record idle { outcomes = gone ∷ [] } }

adb_usb_open_leaks_example :
    ((adb_usb_open 4096 (codes "sync:") [] unplugged_opening).0 ≡ err device_disconnected)
    × (is_registered 1 (adb_usb_open 4096 (codes "sync:") [] unplugged_opening).1 ≡ true)
unfolding usb_send_message bulk_out
adb_usb_open_leaks_example =
    adb_usb_open_leaks 4096 (codes "sync:") [] unplugged_opening device_disconnected refl
