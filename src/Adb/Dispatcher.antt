-- ===== src/Adb/Dispatcher.antt =====
-- `UsbDispatcher`: one reader thread that routes messages to the streams' channels, and the threads
-- that register and unregister streams or ask it to stop. A run is a sequence of events.
pub mod Routing
use rusty_cortex.Base.{ℕ, Bool, true, false, ◌&&◌, ◌||◌, List, [], ◌∷◌, ◌++◌, ◌==◌, if◌then◌else◌}
use rusty_cortex.Failure.{FlashError, Result, ok, err, panic, device_disconnected}
use rusty_cortex.Adb.Message.{AdbMessage}
use rusty_cortex.Adb.Connect.{protocol_says}

-- A stream's channel: what was sent and not yet received, whether the dispatcher holds the sender, and
-- whether the stream still holds the receiver.
pub record Channel : Type 0 where
  pub queue : List AdbMessage
  pub registered : Bool
  pub listening : Bool

-- `streams` by local id, the shutdown flag, and whether the reader thread runs.
pub record UsbDispatcher : Type 0 where
  pub streams : ℕ → Channel
  pub shutdown : Bool
  pub running : Bool

abbrev pub put : ℕ → Channel → (ℕ → Channel) → ℕ → Channel
put i c streams j = if j == i then c else streams j

-- `map.get(&target_id)` and `tx.send(msg)`: a message for an unknown or dropped stream is discarded.
unfoldable pub route : AdbMessage → UsbDispatcher → UsbDispatcher
route m d =
    let c = d.streams m.arg1 in
    if c.registered && c.listening
    then record d { streams = put m.arg1 (record c { queue = c.queue ++ (m ∷ []) }) d.streams }
    else d

-- The end of the thread: `map.clear()` drops all senders; what was sent stays in the channels.
unfoldable pub stop : UsbDispatcher → UsbDispatcher
stop d = record d {
  streams = λ i. let c = d.streams i in record c { registered = false };
  running = false;
}

-- One read of the loop.
abbrev after_read : Result AdbMessage → UsbDispatcher → UsbDispatcher
after_read (ok m) d = route m d
after_read (err e) d =
    if protocol_says "timeout" e || protocol_says "bad magic" e
    then d
    else stop (record d { shutdown = true })
after_read panic d = stop (record d { shutdown = true })

pub data Event : Type 0 where
  -- the reader thread comes round: it looks at the flag, then reads
  round : Result AdbMessage → Event
  register_stream : ℕ → Event
  unregister_stream : ℕ → Event
  drop_receiver : ℕ → Event
  request_shutdown : Event

unfoldable pub step : Event → UsbDispatcher → UsbDispatcher
step (round r) d = if d.running then (if d.shutdown then stop d else after_read r d) else d
step (register_stream i) d = record d {
  streams = put i (record { queue = []; registered = true; listening = true }) d.streams;
}
step (unregister_stream i) d =
    let c = d.streams i in record d { streams = put i (record c { registered = false }) d.streams }
step (drop_receiver i) d =
    let c = d.streams i in record d { streams = put i (record c { listening = false }) d.streams }
step request_shutdown d = record d { shutdown = true }

unfoldable pub run : List Event → UsbDispatcher → UsbDispatcher
run [] d = d
run (e ∷ es) d = run es (step e d)

-- `is_alive`
abbrev pub is_alive : UsbDispatcher → Bool
is_alive d = if d.shutdown then false else true
