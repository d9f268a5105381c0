-- ===== src/Lib.antt =====
-- Rusty Cortex: the protocol core of a phone flashing tool (src-tauri/src), which reads sparse
-- images and GPT tables and speaks ADB over USB.
--
-- Parts:
--   Failure        src-tauri/src/error.rs: FlashError as a value. A call returns ok, err or panic;
--                  panic is the abort that an out-of-range slice causes (panic = "abort" in the
--                  release profile). A message is its format string with the arguments.
--   Sparse         src-tauri/src/protocols/sparse.rs: is_sparse, decompress_sparse, ensure_raw_image
--                  over streams in memory and a disk that maps paths to contents. Sparse/Image says
--                  what an image means; the other children prove the code against it.
--   Gpt            src-tauri/src/protocols/edl_gpt.rs: header, entries, GUIDs, categories.
--   Adb/Message    src-tauri/src/protocols/adb_usb.rs: frames, checksum and magic number.
--   Adb/Usb        adb_usb.rs: usb_send_message, usb_read_message over bulk transfers. What the device
--                  does is a script of transfers.
--   Adb/Banner     adb_usb.rs: parse_cnxn_banner.
--   Adb/Discovery  adb_usb.rs: find_adb_usb_device over the descriptors that the USB library reports.
--   Adb/Connect    adb_usb.rs: adb_usb_connect, do_auth_handshake and the cache of connections. The
--                  key file, the RSA signature and the encoding of the public key are parameters
--                  (the record Keys).
--   Adb/Dispatcher adb_usb.rs: UsbDispatcher. The reader's rounds and what the other threads do are
--                  the events of a run.
--   Adb/Stream     adb_usb.rs: UsbStream, its reads and writes on the channel that the dispatcher
--                  fills.
--   Adb/Open       adb_usb.rs: adb_usb_open on the dispatcher's table, the drop of a stream, and
--                  UsbShellWriter.
--   Adb/Logcat     src-tauri/src/protocols/adb/logcat.rs: the streaming parser and the filter.
--   Adb/Sideload   src-tauri/src/protocols/adb/sideload.rs: the blocks that a recovery asks for.
--   Adb/Sync       src-tauri/src/protocols/adb/sync.rs: push and pull once the stream is open.
--                  How the disk takes the renaming and removal of the temporary file is a parameter.
--   Adb/Shell      src-tauri/src/protocols/adb/shell.rs: packets of the shell protocol, the loops that
--                  read them and the stream of a file into a command, once the stream is open.
--                  String::from_utf8_lossy is a parameter.
--   Adb/Device     src-tauri/src/protocols/adb/mod.rs: quoting, checks and questions to a device.
--   Adb/Dump       src-tauri/src/protocols/adb/dump.rs: names, lists and commands for partition dumps;
--                  Adb/Dump/Write and Fetch: run_write_partition and the two dumps as their steps.
--                  The shell is a function from commands to answers.
--   Adb/Install    src-tauri/src/protocols/adb/install.rs: run_install as the commands that it gives.
--   Flash          src-tauri/src/flash/validation.rs and manager.rs: the checks before a partition is
--                  written, and run_flash as the list of its actions.
--   Edl/Mbn        src-tauri/src/protocols/edl_mbn.rs: the identity of a programmer file. Certificates
--                  walks the DER chain, Segment reads hash segments and MBN files, Elf finds the hash
--                  segment, Filename reads the ids from a file name. The hash functions are a
--                  parameter (the record Hashes).
--   Edl/Chipsets   edl_mbn.rs: the tables of chips, one pair for each arm, and resolve_chipset.
--   Edl/Db         src-tauri/src/protocols/edl_db.rs: the database of programmers as a list of keys
--                  with entries, in Scan the search through a folder, in Score the order in which the
--                  programmers are offered. Lower case and the decoding of hexadecimal text are
--                  parameters.
--   Base           numbers, lists, bytes and text that the parts share.
--   Runs           concrete inputs.
--
-- Adb/Connect uses Adb/Message, Adb/Usb, Adb/Banner and Adb/Discovery; Adb/Stream uses Adb/Usb for its
-- acknowledgements. A stream's inbox stands for the channel of Adb/Dispatcher.
--
-- Machine integers: a byte is a natural number, fields of 16, 32 and 64 bits are read from bytes, and
-- sums and products of usize and u64 wrap at 2 ^ 64 where the code does not check them. Subtractions
-- are written with the wrap or stand behind the code's own test.
--
-- Loops: the loops over channels and transfers are recursive in the list of what arrives; after the
-- list the deadline passes. copy_raw has as much fuel as bytes to copy, and each round takes at least
-- one. The handshake's loop has 34 rounds of fuel, and the code gives up once 33 messages have been
-- skipped. The log parser has as much fuel as the buffer has bytes, and a round that goes on takes at
-- least 20.
-- The walk over certificates has as much fuel as there are bytes, and each turn takes at least two.
-- The loops over shell packets have as much fuel as there are bytes, and each packet takes five.
-- The loop of a pull has a round more than there are bytes to come, and each takes at least eight.
-- The loop of a push has as much fuel as the file has bytes.
--
-- Aborts: where fields of a programmer file are read, the model aborts outside of the file (`sliced`,
-- `read_header`). The walk over certificates is modelled as one that does not abort.
--
-- Not modelled: the vendored USB library, time, logging and progress events (but for those of
-- run_flash), locks (each operation runs alone), the Tauri commands and the frontend, and the protocols that drive external programs.
pub mod Adb
pub mod Base
pub mod Edl
pub mod Failure
pub mod Flash
pub mod Gpt
pub mod Runs
pub mod Sparse
