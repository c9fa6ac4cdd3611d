-- ===== src/Radio/Rf215/Bus/Laws.antt =====
-- When rf215_radio::init succeeds, and what its callbacks read.
use kaonic_comm.Shared.{◌≡◌, ◌≢◌, ◌↔◌, ◌⊎◌, true, arith, pos}
use kaonic_comm.Failure.{ok, fail}
use kaonic_comm.Drivers.Spi.{System, Spi, open_spi}
use kaonic_comm.Radio.Rf215.Bus.{Rf215RadioConfig, Board, lines, request_each, init}

module _ {ℓ} {W : Type ℓ} (sys : System W) (board : Board W) where
  -- `init` returns `ok` exactly if each of the five lines is granted, the driver starts with 0, and
  -- the probe finds a part number; what `open` of the SPI device returned has no part in it. In
  -- all other cases it returns `fail`.
  init_lem :
      (s : Spi) (w : W) (config : Rf215RadioConfig)
      → let (opened, s', w') = open_spi sys s w config.spi in
        let (granted, w'') = request_each board w' (lines config) in
        let (rc, w''') = board.init s' w'' in
        let err = (init sys board s w config).0 in
        ((err ≡ ok) ↔ ((granted ≡ true) × (rc ≡ pos 0) × ((board.probe s' w''').0 ≢ 0)))
        × ((err ≡ ok) ⊎ (err ≡ fail))
  unfolding init
  init_lem s w config = ground arith
