-- ===== src/Lib.antt =====
-- The communication daemon of kaonic (kaonic/src), which joins radios, a mesh network over each of
-- them, remote clients (gRPC) and a serial port.
--
-- A frame goes down from a client (services/grpc_service.cpp) or from the serial port
-- (services/serial_service.cpp, over comm/serial) through services/radio_service.cpp to the mesh
-- network of a module and to its radio (radio/rf215_radio.cpp); a frame that a network receives
-- goes up through a broadcaster (mesh/network_receiver.cpp) to the listeners of both services.
--
-- Which file models what, with paths below kaonic/src/comm unless said otherwise:
--   Failure              kaonic/include/kaonic/common/error.hpp: Error, with_error for `+=`
--   Messages             proto/kaonic.proto: the protobuf messages as records
--   Radio                kaonic/include/kaonic/comm/radio/radio.hpp: frames and settings
--   Radio/Rf215          radio/rf215_radio.cpp: the register tables (Ofdm, Fsk), and Device with
--                        configure, transmit and receive
--   Radio/Rf215/Overlap  radio/rf215_radio.cpp: calls of configure that overlap, and
--                        transmissions and receptions between their steps; Attempts has the steps
--                        of such calls between the attempts of a transmission
--   Radio/Rf215/Bus      radio/rf215_radio.cpp: init, and the callbacks write and read;
--                        Registers has memory of the chip behind them
--   Radio/Rf215/Interrupts  radio/rf215_radio.cpp: the callbacks wait_irq, reset and sleep
--   Drivers/Spi          drivers/spi.cpp: open, read_buffer, write_buffer and close
--   Drivers/Gpio         kaonic/include/kaonic/comm/drivers/gpio.hpp, and the requests for lines
--   Serial/Hdlc          serial/hdlc.cpp: escape, unescape, and the detector hdlc_processor
--   Serial/Port          serial/serial.cpp: open
--   Serial/Port/Transfer  serial/serial.cpp: read, write and close
--   Serial/Packet        serial/packet.cpp: encode and decode
--   Mesh/Receiver        mesh/network_receiver.cpp: the broadcaster
--   Mesh/Interface       mesh/radio_network.cpp: radio_network_interface, over a radio
--   Mesh/Network         mesh/network.cpp: tx, rx, on_receive, transmit and update
--   Mesh/Contention      mesh/network.cpp: update and transmit in their single steps, for threads that
--                        run at the same time, as a step relation
--   Mesh/Identity        mesh/network.cpp: generate_id and gen_id
--   Mesh/Node            mesh/radio_network.cpp: radio_network as one object, with the constructors
--   Mesh/Update          mesh/radio_network.cpp: start, stop and update as a step relation
--   Services/Buffers     buf_pack and buf_unpack of services/serial_service.cpp and grpc_service.cpp;
--                        Meaning has messages up to the frame that they stand for
--   Services/RadioPort   what both services use of services/radio_service.cpp
--   Services/Serial      services/serial_service.cpp: tx, handle_packet, receive_frame, start_tx,
--                        stop_tx
--   Services/Serial/Polling  services/serial_service.cpp: the loop of tx over the serial port
--   Services/Serial/Session  services/serial_service.cpp: the loop of tx and the listener, in turns
--   Services/Serial/Lifecycle  services/serial_service.cpp: start_tx, stop_tx and the monitor thread
--                        as a step relation
--   Services/Grpc        services/grpc_service.cpp: Configure, Transmit, ReceiveStream and the queue
--   Services/Grpc/Overlap  services/grpc_service.cpp: calls of Transmit, and of ReceiveStream, that
--                        run at the same time, as schedules of their steps
--   Services/Grpc/Waiting  services/grpc_service.cpp: receive_frame and pop_frame in their single
--                        steps, with the mutex and the condition variable, as a step relation
--   Services/Radio       services/radio_service.cpp: the networks by index and the broadcasters
--   Daemon               kaonic/src/main.cpp: create_radio, main, and what happens while it serves
--   Daemon/Locks         the mutexes of mesh/network.cpp, services/grpc_service.cpp and
--                        serial/serial.cpp, and the threads that lock them
--   Daemon/Machine       kaonic/src/main.cpp: the machines and select_machine_config
--   Shared               lists, Boolean tests, words and bits on the native numbers; Mutex has
--                        std::mutex for the step relations
--
-- A method is a function from the state of its object to the new state and the result. Bytes and
-- words are natural numbers; a cast is written out as a remainder (u8, u16, u32), and a range is a
-- hypothesis where a theorem needs it. Memory that memcpy reads as words is little-endian.
--
-- What is not part of the repository is a parameter: protobuf (Protobuf, with IsCodec for its
-- promise that a message is parsed back from its serialization), the chip behind the SPI bus
-- (IsChip, for memory of it, from its data sheet), zlib's crc32, the rf215 driver (Driver,
-- with a transceiver or none for a frequency), libgpiod (Board, Lines),
-- the system calls (System, Tty, Io), rfnet (Rfnet), and the state behind the calls of the radio
-- service (RadioPort, NetworkPort). Input is an argument: the bytes that the serial port reads are
-- the rounds of tx, the frames that arrive while a stream waits are part of its passes, and the
-- line of the machine's file and the memory of the chip are options. While the daemon serves, the
-- calls of clients, the takes of their streams and the updates of the networks are a list of
-- events, in any order, and an update has the list of the calls that rfnet makes in it.
--
-- All loops are recursions on what they run over: the bytes, the rounds, the passes, the states
-- that the mesh network's transmit finds, the schedules of overlapping calls, and the four attempts
-- of the radio; the loop of tx over the port runs for a number of passes, and its theorem is for
-- every number. The loops of the update thread and of the monitor thread, the waits of pop_frame
-- and of the mesh network's transmit, and the threads that lock mutexes, are step relations. No
-- fuel is used.
--
-- The calls of start and stop of a network, and those of start_tx and stop_tx, come one after the
-- other. In Mesh/Node a wait of transmit has the states of rfnet that its tests find, and leaves
-- out what update does to the radio meanwhile. Frames are transmitted and received by the thread of
-- update alone.
--
-- For a frequency without a transceiver the code follows a null pointer and has no defined result:
-- Radio/Rf215/Device answers fail, and in Radio/Rf215/Overlap the call takes no further step.
--
-- Not modelled: the mesh protocol rfnet and the driver rf215 (git submodules), time of the mesh
-- network and current_time of the radio, which read the clock, the gRPC server itself, logging, and
-- the scripts in ota and scripts.
pub mod Daemon
pub mod Drivers
pub mod Failure
pub mod Mesh
pub mod Messages
pub mod Radio
pub mod Serial
pub mod Services
pub mod Shared
