-- ===== src/Lib.antt =====
-- The host tools of NanoQL: tools/nanoql_link.py, which talks to the board over a serial line, and
-- tools/nanoql_drive.py, which builds and reads Microdrive images.
--
-- Base holds the shared types and lemmas: lists and Boolean tests over the native numbers, bytes
-- and big-endian numbers, and Exec, the methods that change an object and may raise. What was
-- written before a raise stays written, so a state comes back beside an error too.
--
-- Link is the protocol. Link/Crc and Link/Frame are `crc8` and the frames; Link/Session is
-- `transact`, `_reconnect` and `close` over Link/Serial, the serial port and the clock, which are
-- parameters; Link/Session/Delivered describes the exchanges that a board answers. Link/Transport is what all other methods use of a session, as a record that
-- Link/Session fills; the board behind it is a parameter, and what a theorem relies on is a record
-- of laws beside it. Link/Status has the status and diagnostic replies, Link/Memory `hold`,
-- `write`, `read`, `execute` and `load_binary`, Link/Errors the tables of texts. Link/Memory/Board
-- is what `write` and `read` rely on of src/companion/ql_host_link.sv: a command is refused with
-- `protocol_error`, or starts a transfer that is done when the status no longer says busy.
-- Link/Memory/Desk is a concrete board of that kind, Link/Bench one for the other tests.
--
-- Drive is the microSD drive of the board: Drive/RemotePath is `remote_path_bytes`, Drive/Files the
-- directory operations, Drive/Download `filesystem_get` and `filesystem_crc32`, Drive/Upload
-- `filesystem_put`, Drive/Microdrive `microdrive_sync_control` and what is built on it.
--
-- Qlay is tools/nanoql_drive.py: Qlay/Sector and Qlay/Header are the bytes of a sector and of a
-- file header, Qlay/Build is `build_qlay_image`, Qlay/Validate `validate_qlay_image`, Qlay/Parse
-- `parse_qlay_image`. The children of Qlay/Parse follow a cartridge from the files to the image and
-- back: what the sectors hold (View), the placing of the blocks (Start, Places, Streams), the tape
-- and its map as they are read (Tape, Collect, Image), the streams and the directory that come out
-- (Joined, Entry, Round), and all of it together (Cartridge). Qlay/Folder is `qdos_name` and
-- `collect_drive_files`, Qlay/Extract `_safe_desktop_name` and `extract_qlay_image`.
--
-- Fpga is `program_fpga`, `program_fpga_flash` and their diagnostics. Keyboard is `key_event`,
-- `tap_key`, `character_key`, `type_character` and `type_text`, with its tables.
--
-- Gowin is `_validate_gowin_binary`, `_decode_gowin_fs` and `load_gowin_bitstream`, with a writer of
-- .fs texts in Gowin/Print. Screen is `ql_screen_png`, and Screen/Capture `screenshot`.
--
-- Debug is `cpu_debug_state`, `qdos_memory_map` and `find_ir_address`.
--
-- Rom is tools/prepare_ql_ipc_rom.py: `parse_intel_hex` and `read_ipc_firmware`. Card is
-- `update_defaults` of tools/prepare_sd_card.py, on the lines of nanoql.ini. Bl616 is
-- `build_full_flash_image` of tools/prepare_bl616_firmware.py. Setup/Update is
-- `install_assistant_update` of tools/nanoql_setup.pyw, on a disk whose operations may fail:
-- Setup/Update/Undo is about a replacement and its undoing, Setup/Update/Loops about the loops.
-- Bl616/Download is `verified_download`, Setup/Release `_safe_extract_release`.
--
-- Numbers are naturals, times milliseconds, addresses refused below their range by the source's own
-- tests. A loop that the source ends by a deadline runs on rounds: 61 for a reconnection, which
-- pauses 250 ms up to fifteen seconds, 4 for `transact`, whose attempts are counted, 401 for
-- `wait_idle`, 251 for a key and 501 for a screen, which nap 5 ms, 20 ms and 10 ms up to two and
-- five seconds. The loops over a file run on its size. `filesystem_list` and the commit of an
-- upload end when the board says so, and take their rounds as an argument. Running out of rounds is
-- an error of its own that the source does not have, and the theorems on termination exclude it.
--
-- Not modelled: printing, the numbers inside messages, the local file system but for the folders
-- that a function is given, `zlib` and `unicodedata` (parameters), disassembly, the search of a
-- release folder, the interactive keyboards and the command line, the windows and processes of the
-- setup assistant, the scripts that download and flash the BL616 firmware, and the firmware and FPGA
-- sources.
pub mod Base
pub mod Link
pub mod Drive
pub mod Qlay
pub mod Keyboard
pub mod Fpga
pub mod Rom
pub mod Card
pub mod Debug
pub mod Gowin
pub mod Screen
pub mod Setup
pub mod Bl616
