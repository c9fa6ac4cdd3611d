-- ===== src/Daemon/Tests.antt =====
-- Instances of the theorems on the daemon, with a board on which all goes well.
use kaonic_comm.Shared.{
  length, ℕ, ◌+◌, ◌≤◌, ◌≡◌, refl, true, false, none, some, List, [], ◌∷◌, ◌++◌, arith, pos, negsuc,
}
use kaonic_comm.Failure.{is_ok, with_error, from_rc}
use kaonic_comm.Messages.{ConfigurationRequest, TransmitRequest, unset}
use kaonic_comm.Radio.{Frame, RadioFrame}
use kaonic_comm.Radio.Rf215.Registers.{rf09}
use kaonic_comm.Radio.Rf215.Device.{Driver, Rf215Radio, configure}
use kaonic_comm.Radio.Rf215.Bus.{Board, init, lines}
use kaonic_comm.Drivers.Spi.{System, Spi, open_spi}
use kaonic_comm.Mesh.Interface.{rf215_device}
use kaonic_comm.Mesh.Network.{Rfnet, sends, asks, hands}
use kaonic_comm.Mesh.Node.{node_port}
use kaonic_comm.Services.Grpc.{internal, push_frame, pop_frame, receive_stream}
use kaonic_comm.Services.Buffers.{grpc_buf_pack}
use kaonic_comm.Services.Grpc
use kaonic_comm.Services.Radio.{radio_port}
use kaonic_comm.Daemon.{
  Chip, Daemon, create_radio, main, Event, configured, transmitted, streamed, updated, handle_all,
}
use kaonic_comm.Daemon.Machine.{select_machine_config, machine_config_protoa, spi_device}
use kaonic_comm.Daemon.Laws.{main_refuses}
use kaonic_comm.Daemon.Air.{main-push_frames}
use kaonic_comm.Daemon.Streaming.{pass_of, main-receive_stream}
use kaonic_comm.Services.Grpc.Stream.{received}

abbrev good_system : System ℕ
good_system = record {
  open_device = λ w dev. (pos 3, w + 1);
  ioctl = λ w fd r. (pos 0, w + 1);
  message = λ w fd address transfer. (pos 0, [], w + 1);
  close = λ w fd. w;
}

abbrev good_board : Board ℕ
good_board = record {
  request = λ w l. (true, w + 1);
  init = λ s w. (pos 0, w + 1);
  probe = λ s w. (0x34, w + 1);
}

abbrev good_driver : Driver (Chip ℕ)
good_driver = record {
  get_trx_by_freq = λ d f. some rf09;
  write_reg = λ d w. d;
  write_reg_set = λ d ws. (pos 0, d);
  set_freq = λ d t f. (pos 0, d);
  cca_tx_frame = λ d t f. (pos 0, d);
  rx = λ d t millis size buffer. (record { rc = negsuc 0; len = 0; buffer = buffer }, d);
}

abbrev free_rfnet : Rfnet (List Frame)
free_rfnet = record {
  unset = [];
  init = λ c. [];
  is_tx_free = λ n. pos 0;
  send = λ n f. (pos 0, f ∷ n);
  get_stats = λ n. record { tx_speed = 0; rx_speed = 0; rx_counter = 0; tx_counter = length n };
  reset = λ n. n;
}

abbrev blank_memory : RadioFrame
blank_memory = record { len = 0; payload = [] }

abbrev closed_spi : Spi
closed_spi = record { device_fd = pos 0; config = spi_device "" 0 }

abbrev started_radio : Rf215Radio (Chip ℕ)
started_radio = record {
  dev = (record { device_fd = pos 3; config = machine_config_protoa.rfa_config.spi }, 11);
  active_trx = some rf09;
  flt_v1 = false;
  flt_v2 = true;
  tx_counter = 0;
  rx_counter = 0;
}

abbrev second_module : ConfigurationRequest
second_module = record {
  module_index = 257;
  freq = 869535;
  channel = 1;
  channel_spacing = 200;
  tx_power = 3;
  phy_config = unset;
}

abbrev send_second : TransmitRequest
send_second = record { module_index = 1; frame = record { words = 7 ∷ []; size = 4 } }

comes_up :
    create_radio good_system good_board good_driver closed_spi 0
      (select_machine_config none).rfa_config
      11
    ≡ some started_radio
unfolding create_radio select_machine_config init configure is_ok lines with_error from_rc open_spi
comes_up = refl

abbrev running_daemon : Daemon ℕ (List Frame)
running_daemon =
    main good_driver free_rfnet (λ n. []) blank_memory good_system good_board (some "unknown")
      closed_spi 0

main_refuses_example :
    let port =
      radio_port (node_port (rf215_device good_driver) free_rfnet (λ n. []) blank_memory) in
    (1 ≤ 1)
    × (1 ≤ 1 → Grpc.configure port running_daemon second_module ≡ (internal, running_daemon))
    × (1 ≤ 1
        → Grpc.transmit port running_daemon send_second ≡ (
          internal,
          record running_daemon {
            tx_frame = grpc_buf_pack send_second.frame running_daemon.tx_frame;
          },
        ))
unfolding create_radio select_machine_config init configure is_ok lines with_error from_rc open_spi
main_refuses_example =
    main_refuses good_driver free_rfnet (λ n. []) blank_memory good_system good_board
      (some "unknown") closed_spi 0 second_module send_second

-- In its first update rfnet sends a byte between the frames that it hands over; there is no module 1.
abbrev morning : List (Event (List Frame))
morning =
    updated 0 [] (hands (1 ∷ 2 ∷ []) ∷ sends (4 ∷ []) ∷ asks (0 ∷ []) 1 ∷ hands [] ∷ [])
    ∷ configured second_module
    ∷ updated 1 [] (hands (3 ∷ []) ∷ [])
    ∷ []

abbrev evening : List (Event (List Frame))
evening = transmitted send_second ∷ updated 0 ([] ∷ []) (hands (9 ∷ []) ∷ []) ∷ []

main-push_frames_example :
    (handle_all good_driver free_rfnet
      (λ n. [])
      blank_memory
      (λ l. true)
      (main good_driver free_rfnet (λ n. []) blank_memory good_system good_board none closed_spi 0)
      (morning ++ streamed ∷ evening)).frame_queue
    ≡ [] ∷ (9 ∷ []) ∷ []
unfolding push_frame pop_frame
main-push_frames_example =
    main-push_frames good_driver free_rfnet (λ n. []) blank_memory (λ l. true) good_system
      good_board none closed_spi 0 started_radio (morning ++ streamed ∷ evening) comes_up refl

-- One frame is written, and then the next; the one that comes meanwhile stays in the queue.
main-receive_stream_example :
    let run = handle_all good_driver free_rfnet (λ n. []) blank_memory (λ l. true) in
    let up =
      main good_driver free_rfnet (λ n. []) blank_memory good_system good_board none closed_spi 0 in
    let d = run up morning in
    let d' = run d (streamed ∷ evening ++ streamed ∷ []) in
    let stream = receive_stream d (pass_of {F = List Frame} [] ∷ pass_of evening ∷ []) in
    (stream.status ≡ none)
    × (stream.queue ≡ d'.frame_queue)
    × (received stream.writes ++ d'.frame_queue ≡ [] ∷ (1 ∷ 2 ∷ []) ∷ [] ∷ (9 ∷ []) ∷ [])
main-receive_stream_example =
    main-receive_stream good_driver free_rfnet (λ n. []) blank_memory (λ l. true) good_system
      good_board none closed_spi 0 started_radio morning ([] ∷ evening ∷ []) comes_up refl
      (ground arith) (ground arith) (omega arith)
