-- ===== src/Runs/Messages.antt =====
-- ADB messages and a dispatcher's run.
use rusty_cortex.Base.{
  starts_with, ◌==◌, contains, if◌then◌else◌, List, [], ◌∷◌, ◌++◌, ◌≡◌, refl, arith, codes, true,
  false,
}
use rusty_cortex.Base.Words.{to_le_bytes, Bytes}
use rusty_cortex.Failure.{ok, err, protocol}
use rusty_cortex.Adb.Message.{AdbMessage, adb_checksum, magic_of, build_header, a_wrte, a_okay}
use rusty_cortex.Adb.Message.Laws.{IsFrame, header_of}
use rusty_cortex.Adb.Usb.{timed_out, usb_read_message}
use rusty_cortex.Adb.Usb.Fragments.{transfers, usb_read_message_fragments}
use rusty_cortex.Adb.Dispatcher.{
  is_alive, step, route, Channel, UsbDispatcher, Event, round, register_stream, unregister_stream,
  run,
}
use rusty_cortex.Adb.Dispatcher.Routing.{addressed, IsServed, run_routes, run-is_alive}

abbrev pub hello : AdbMessage
hello = record { command = a_wrte; arg0 = 5; arg1 = 1; payload = codes "hi" }

pub hello-IsFrame : IsFrame hello
hello-IsFrame = record {
  command_fits = omega arith;
  arg0_fits = omega arith;
  arg1_fits = omega arith;
  length_fits = omega arith;
}

abbrev hello_bytes : Bytes
hello_bytes = header_of hello ++ (hello.payload ++ [])

-- Ten bytes of the header, the other fourteen with a byte of the payload, and the last byte.
abbrev hello_chunks : List Bytes
hello_chunks =
    (87 ∷ 82 ∷ 84 ∷ 69 ∷ 5 ∷ 0 ∷ 0 ∷ 0 ∷ 1 ∷ 0 ∷ [])
    ∷ (0 ∷ 0 ∷ 2 ∷ 0 ∷ 0 ∷ 0 ∷ 209 ∷ 0 ∷ 0 ∷ 0 ∷ 168 ∷ 173 ∷ 171 ∷ 186 ∷ 104 ∷ [])
    ∷ (105 ∷ [])
    ∷ []

usb_read_message_fragments_example :
    usb_read_message (transfers hello_chunks ++ (timed_out ∷ [])) ≡ (ok hello, timed_out ∷ [])
unfolding build_header to_le_bytes magic_of adb_checksum
usb_read_message_fragments_example =
    usb_read_message_fragments hello hello_chunks (timed_out ∷ []) hello-IsFrame (omega arith)
      (omega arith) refl

abbrev closed_channel : Channel
closed_channel = record { queue = []; registered = false; listening = false }

abbrev one_stream : UsbDispatcher
one_stream = record {
  streams = λ i.
      if i == 1 then record { queue = []; registered = true; listening = true } else closed_channel;
  shutdown = false;
  running = true;
}

one_stream-IsServed : IsServed 1 one_stream
one_stream-IsServed = record {
  is_running = refl;
  not_shutdown = refl;
  is_registered = refl;
  is_listening = refl;
}

abbrev busy : List Event
busy =
    register_stream 2
    ∷ round (ok hello)
    ∷ round (ok (record hello { arg1 = 2 }))
    ∷ round (err (protocol "USB bulk IN ({where_}) timeout after {} ms — device sent no data" []))
    ∷ unregister_stream 2
    ∷ round (ok (record hello { command = a_okay }))
    ∷ []

run_routes_example :
    IsServed 1 (run busy one_stream)
    × (((run busy one_stream).streams 1).queue ≡ (one_stream.streams 1).queue ++ addressed 1 busy)
unfolding contains starts_with
run_routes_example =
    run_routes 1 busy one_stream (omega arith, (tt, (tt, (refl, (omega arith, (tt, tt))))))
      one_stream-IsServed

abbrev reading : List Event
reading = round (ok hello) ∷ register_stream 3 ∷ round (ok hello) ∷ []

still_alive : is_alive (run reading one_stream) ≡ true
unfolding run step route
still_alive = refl

run-is_alive_example : (run reading one_stream).running ≡ true
run-is_alive_example = run-is_alive reading one_stream refl still_alive
