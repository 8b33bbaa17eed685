-- ===== src/Lib.antt =====
-- Motesque sensor libraries: the platform-independent parts of an IMU sensor's firmware.
--
-- The program's parts are libraries that the firmware puts together. Sensor samples go through the
-- closest-packet queues (lib_util/sync_packets.h) and, as message frames (lib_message), through the
-- sequential buffer (lib_util/sequential_buffer.h) to the network or to a file of the slot
-- filesystem (lib_slotfs), which uses the CRC-32 of lib_util. Their timestamps are mapped to a common
-- clock by the tables of the broadcast synchronisation (lib_rbs). Settings from outside are checked
-- against the enums of lib_util/generic_sensor.h. The HTTP server (lib_http) runs on its own thread; the
-- callbacks of the network reach that thread through the command queue (lib_util/command_queue.h).
--
-- Prelude: the names of the library that all files share, tests on numbers (Tests), lists over the
--   native numbers (Lists), 64-bit words with their wrap-around (Words), little-endian bytes (Bytes),
--   literal texts (Texts).
-- SequentialBuffer: lib_util/sequential_buffer.h. A pointer into the storage is an index; `size_t`
--   counts are unbounded, as they never pass the storage's size in a valid buffer. Contents gives the
--   queue that a buffer holds, Storage the bytes that a write leaves, Write and Read the operations
--   against that queue, Stream sequences of calls. Each call runs under the lock, so a call is one step;
--   the event flag is one bit, and whether a wait was signalled is an argument of `request_read`.
-- Crc32: lib_util/util_crc32.cpp, the table and the loop.
-- SlotFs: lib_slotfs/slotfs.h (State) and lib_slotfs/slotfs.cpp (Meta: metadata blocks, `sfs_init`,
--   `sfs_format`; Open: `sfs_file_exists`, `sfs_file_open`, `sfs_file_close`; Io: the rest). The block
--   device is a parameter: `read` and `write` over a store; that it keeps its bytes is the hypothesis
--   `KeepsBytes`. Addresses are 64-bit words. The loop of `sfs_file_write` has as fuel the number of
--   bytes and one: only the round that flushes a page that was already full copies nothing, and the
--   next one has an empty page. The loop of `sfs_file_read` has as fuel the number of bytes asked for:
--   each round copies at least one. Blocks, Revision, Layout, Positions, Loops and Faults hold the proofs,
--   Metas and Metas/Writes those about the two metadata blocks of an open file, Stored and its modules those
--   about a file that is opened, written part by part and flushed, Reading and its modules those about
--   what is read of it; that the device never fails is their hypothesis `NeverFails`.
-- GenericSensor: lib_util/generic_sensor.h, the enums, their arrays and `is_valid_enum_value`.
-- Rbs: lib_rbs. SyncTable (rbs_sync_table.h and .cpp), Message (rbs_message.cpp), Server
--   (rbs_server.h and .cpp). A double is its 64 bits; `ceil (m * t + b)` is a parameter. An access
--   outside a buffer is a result of its own. The rows of a packet are read with as fuel the 32 rows of
--   the table, past which the code leaves the table. RoundTrip and History hold the proofs. A reply is
--   what is handed to the network, which may still lose it.
-- SyncPackets: lib_util/sync_packets.h. `std::labs` takes a `long` of 32 or 64 bits, both are modelled.
--   A read outside a queue is a result of its own. Order, Closest and Pop hold the proofs.
-- MessageFrame: lib_message/message_frame.h and message_frame.cpp. The mask is the list of its bits for
--   the nine parts; a read past the end of a message is a result of its own. Compact is about the loop
--   of `finish`, Parse about that of `get_frame_message_data`, RoundTrip about both.
-- HttpPayload: lib_http/http_payload.h and http_payload.cpp, the contents of a response with their
--   positions. A pointer behind the end is a result of its own. Delivery is about a client that takes a
--   payload in rounds, as lib_http/http_server.cpp does. Range is `parse_range_header`, with `strtol` as a
--   parameter, and Range/Accepts says which texts it accepts. File is lib_http/http_payload_file.h over
--   SequentialBuffer; in `Reaches` the task that fills the buffer and the client take turns, call by
--   call, with the client's copy as a step of its own, and File/Pointers and
--   File/Sending are about what the client gets.
-- CommandQueue: lib_util/command_queue.h. The two queues of indices are the parameter `QueueT`, which
--   `IsFifo` says to be first in, first out with room for `size` indices. A function is a value, listed
--   when it is called; the clock is an argument; an `int` is its 32 bits. Counts and Validity hold the
--   invariant, Accept the three `execute_async`, Popping an index taken from a queue, Delayed the loop
--   of `enqueue_delayed_commands`, whose fuel is the number of contexts and two: each round but the
--   first and the last takes another index. Taken and Process are about `process`, Reach about
--   sequences of calls.
-- HttpRequest: lib_http/http_request.h and http_request.cpp. The callbacks that the parser makes are
--   arguments, as is what it says of a URL. The loop of `decode_uri_escape_sequences` has a round for
--   each byte as fuel, since each reads at least one. The map of routes is the list of them in its
--   order (Routes). Unescapes says what the escapes of a text write. Escapes, Query and Headers hold the other proofs.
-- HttpResponse: lib_http/http_response.h, http_response.cpp and http_utils.cpp, over HttpPayload.
--   `sprintf` of an `int` is a parameter. Commit and Stream say which bytes are left.
-- HttpServer: lib_http/http_server.h and http_server.cpp. What the network does in a pass is an
--   argument. The loop that fills a packet has the packet's size and one as fuel: each round but the
--   last puts in at least a byte. Requests holds the reading part of a pass; Fill, Stream, Passes, Whole
--   and Empty are about the writing part.
--   Counting is about the callbacks of the clients, Lifecycle is `start`, `stop` and
--   the TLS identity, with what the platform holds for the server, and Lifecycle/Resources is
--   about what they leave behind.
-- EventTrace: lib_lw_event_trace/lw_event_trace.h and lw_event_trace.cpp (Logger), and the payload of
--   lib_http/http_payload_trace_event.h (Json, Stream). `sprintf` is a parameter; a `size_t` has 32 bits.
-- IpAddress: lib_util/ip_address.h and ip_address.cpp, with `snprintf` for their two formats. RoundTrip
--   and Sectets read the texts back.
-- Discovery: lib_discovery/discovery.h. The transport, the callback and `json_asprintf` are parameters; an
--   attribute is its 32 bytes. Beacons is about a device that was started.
-- BatteryCharger: lib_util/battery_charger.h and battery_defs.h. The bus, `float`, the size of a pointer
--   and the memory behind a buffer are parameters. Gauge is `FuelGauge`. Registers is about a chip that
--   keeps its registers, which `Device` describes.
-- RgbLed: lib_util/rgb_led.h, rgb_led.cpp, and Driver: lib_util/rgb_led_driver.h, rgb_led_driver.cpp. A
--   brightness is an exact fraction where the code rounds it to `float`. Priorities is about `set`, Waves
--   about the patterns over time.
-- Not modelled: the platform files of lib_lw_event_trace, lib_util/linalg, platform, device_info,
-- motesque_version and event_flag_status, which are arithmetic on `float`, constants and calls of the
-- operating system; lib_http/http_parser.c, lib_util/json_frozen.c and lib_util/md5.c, copies of other
-- projects' libraries; the timer of lib_util/rgb_led.cpp; the calls of the network stack in lib_rbs
-- (`start`, `stop`, `on_receive_packet`); in lib_util/command_queue.h the wait of
-- `execute_async` for a result, and calls into the queue from a function that `process` runs; the
-- template `GenericSensor`, which forwards to classes that are not in the repository; interleavings
-- inside a call that holds a lock.
pub mod Prelude
pub mod SequentialBuffer
pub mod Crc32
pub mod SlotFs
pub mod GenericSensor
pub mod Rbs
pub mod SyncPackets
pub mod MessageFrame
pub mod HttpPayload
pub mod CommandQueue
pub mod HttpRequest
pub mod HttpResponse
pub mod HttpServer
pub mod EventTrace
pub mod IpAddress
pub mod Discovery
pub mod BatteryCharger
pub mod RgbLed
