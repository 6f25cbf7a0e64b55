-- ===== src/Lib.antt =====
-- AccelObserver: a client samples an accelerometer and sends each sample as a JSON text, over a WebSocket
-- or an MQTT broker; a server reads the texts, checks them, keeps statistics, and writes the packets to a
-- CSV file.
--
-- How the parts interact. The server comes to its settings by a file, which confparser.h reads and
-- confloader.cpp applies, and then by its arguments (`start`). The client prints a sample
-- (`sensor_to_json`) and sends it, either as a masked text frame (`ws_send_text`) over a connection that the
-- HTTP upgrade has opened (`do_handshake` at both ends), or by `mqtt_publish`. The server's WsSubscriber
-- reads frames from the socket (`read_frame`), its MqttSubscriber takes messages from the library
-- (`on_message`), and either hands each payload that is not empty to the callback of main.cpp. This parses
-- it (`PacketValidator::parse`), records it in the StatsAnalyzer, sends it to the browsers that the
-- WebInterface has registered (`broadcast_data`), and pushes it to the StorageManager. That keeps packets
-- in a RingBuffer, from which a writer thread hands them to the CsvFormatter.
--
-- Files, and the code that each is about:
--   Prelude        names of the libraries passed on; Tests, Lists, Words, Bits (laws of &, |, ^), State
--                  (steps that can fail), Text (searching, strtoull and %llu of the C library), Int
--                  (signed integers), Number (strtol, strtoull and atoi, with their bases)
--   RingBuffer     server/include/ringbuffer/ringbuffer.hpp. A method runs under the mutex, so it is one
--                  step; the wait of `drain` is the result none. Queue is the abstract bounded queue, Inv
--                  the invariant, Refine and Run the refinement
--   Crypto         client/src/crypto/base64.c and sha1.c, with the published vectors as tests. The files of
--                  the same names under server/src/crypto are copies
--   Net            client/src/network/net_platform.c: the loops over recv and send. Stream is the interface
--                  to the operating system's socket, which the clients take as a parameter: what recv
--                  gives is a piece of what the peer has sent, and what send takes is a piece of what it
--                  was given. Exact and Line are about the loops; Loopback is a concrete socket for tests
--   WebSocket      Mask: the payload mask of both ends. Client: client/src/transport/websocket/ws_client.c
--                  (generator, ws_send_text, ws_close), Upgrade, its do_handshake, and Connect. Server:
--                  server/src/transport/websocket/ws_subscriber.cpp (read_frame, send_pong, the loop of
--                  run over one connection) and Handshake, its do_handshake. Upgrade/Joined puts the two
--                  handshakes together, Session the sending and the reading behind them
--   Mqtt           client/src/transport/mqtt/mqtt_client.c: Client (state, callbacks, mqtt_publish), Connect
--                  (mqtt_connect, mqtt_disconnect, mqtt_destroy; Handle and Wait are about it), Counts.
--                  Subscriber: server/src/transport/mqtt/mqtt_subscriber.cpp, with the library's loop as
--                  a list of events
--   Sensor         client/src/sensor/sensor_data_sim.c: the JSON text of a sample
--   Validator      server/src/misc/packet_validator.cpp, with the types of core/servertypes.hpp
--   Stats          server/src/misc/stats_analyzer.cpp. Loss is about the counts, Latency about the extremes
--                  and the history
--   Storage        server/src/storage/storage_manager.cpp (Paths: its directories; Flow: what becomes of
--                  the packets) and Csv, server/src/format/csv/csv_formatter.cpp, which implements the
--                  interface IFormatter of the source
--   WebIf          server/src/webif/web_interface.cpp: ws_encode_frame, Messages (JSON objects and HTTP
--                  answers by their grammars), Send (send_raw), Http (requests and answers), Discard
--                  (the frames that browsers send), Hub (the registered browsers and the broadcasts),
--                  Hub/Threads (the threads as a step relation)
--   Pipeline       server/src/main.cpp: the callback that joins validator, statistics and storage; Dashboard
--                  adds the browsers
--   ClientMain     client/src/main.c: the run over a WebSocket. Session is about its loop, Whole about the
--                  way from the samples to the server's callback
--   Conf           shared/include/confparser.h: Strings, Load (the loop over the lines), Lookup, Numbers
--                  (the getters of numbers), Find (conf_find_config)
--   Settings       server/include/core/servertypes.hpp (Config), Arguments: server/src/conf/
--                  cliargsparser.cpp, File: server/src/conf/confloader.cpp, Start: what server/src/main.cpp
--                  makes of them; Usable and Numbers are about these
--
-- State is passed explicitly: a function takes a record and returns the new one with its result. What can
-- fail returns Option, a Boolean with the state, or the source's own result type. The writer thread of the
-- storage is an operation that may come at any point between the pushes, in any number.
--
-- Machine integers are natural numbers with the wrap-around of their width written out (u8, u32, u64).
-- Doubles are a parameter: their operations (Doubles in Stats, Reals in Validator) are functions that the
-- statements quantify over, with the laws that a theorem needs as a hypothesis.
--
-- Loops recur on their data, or on fuel where a call of the operating system decides how far they get.
-- net_recv_exact has fuel one above the length asked for and net_send_exact one above the length to be
-- sent; each round moves one byte at least, and the theorems on whole messages show that the fuel is
-- enough. The send of a payload has fuel above its length, and each round takes one byte at least.
-- drain_nowait runs as many rounds as the buffer has items. base64 and the SHA-1 padding recur on the
-- input and on numbers of the source. The server's recv_line has fuel for the bytes of a line and the
-- handshake for the lines; the theorem asks for more of both than the request has. The client's
-- handshake has fuel for the header lines, of which the server's answer has four. The wait of
-- mqtt_connect is a list of rounds, each with the clock and with what the library's thread stores
-- meanwhile; without a round after the deadline it has no result. The loop of the client's main program
-- is a list of rounds too, with whether it has ended. read_request has fuel 4096 for at most 4095 bytes,
-- and discard_loop for the frames of a browser.
--
-- Calls of libmosquitto are recorded, and what they return is an argument. The threads of the browser
-- interface take their steps in any order; what one thread does under a mutex, or in one call, is a step.
--
-- Not modelled: resolving names, opening sockets, timeouts, select and accept; log lines and the logger;
-- the configuration of the client and its run over MQTT; the simulated sensor, and the table of devices, which is not built; help texts,
-- conf_dump and dump_config, and the printing of settings and of statistics for the log. Allocation does
-- not fail in the model, but for the structures of the two clients (ws_connect, mqtt_connect).
pub mod Prelude
pub mod ClientMain
pub mod Conf
pub mod Crypto
pub mod Mqtt
pub mod Net
pub mod Pipeline
pub mod RingBuffer
pub mod Sensor
pub mod Settings
pub mod Stats
pub mod Storage
pub mod Validator
pub mod WebIf
pub mod WebSocket
