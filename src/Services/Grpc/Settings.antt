-- ===== src/Services/Grpc/Settings.antt =====
-- What the FSK settings of a remote client become in the registers of the chip.
use kaonic_comm.Shared.{◌≡◌, refl, ap, ◌∙◌, none, some, arith}
use kaonic_comm.Messages.{FskMessage, ConfigurationRequest}
use kaonic_comm.Messages
use kaonic_comm.Radio.{FskConfig, fsk}
use kaonic_comm.Radio.Rf215.Registers.{TrxType, rf09, rf24, BasebandRegister, baseband}
use kaonic_comm.Radio.Rf215.Fsk.{fsk_set, high_half}
use kaonic_comm.Radio.Rf215.Fsk.Fields.{IsTyped, high_half_of_byte}
use kaonic_comm.Radio.Rf215.Device.Configure.{last_value}
use kaonic_comm.Services.Grpc.{fsk_config, config_of}

fsk_config-IsTyped : (f : FskMessage) → IsTyped (fsk_config f)
unfolding fsk_config
fsk_config-IsTyped f = omega arith

last_delimiters :
    (trx : TrxType) (c : FskConfig)
    → let after = λ (reg : BasebandRegister). last_value (baseband trx reg) (fsk_set trx c) none in
      (after BasebandRegister.fsksfd0h ≡ some (high_half c.sfd0))
      × (after BasebandRegister.fsksfd1h ≡ some (high_half c.sfd1))
unfolding last_value fsk_set high_half
last_delimiters rf09 c = (refl, refl)
last_delimiters rf24 c = (refl, refl)

-- The settings of a remote client that asks for FSK are within their C types, and the upper halves
-- of both start-of-frame delimiters are written as 0, whatever delimiters of sixteen bits the
-- client asks for.
remote_delimiters :
    (trx : TrxType) (m : ConfigurationRequest) (f : FskMessage)
    → m.phy_config ≡ Messages.PhyMessage.fsk f
    → (c : FskConfig) × ((config_of m).phy_config ≡ fsk c)
      × IsTyped c
      × (last_value (baseband trx BasebandRegister.fsksfd0h) (fsk_set trx c) none ≡ some 0)
      × (last_value (baseband trx BasebandRegister.fsksfd1h) (fsk_set trx c) none ≡ some 0)
unfolding config_of fsk_config
remote_delimiters trx m f e =
    let last = last_delimiters trx (fsk_config f) in
    (
      fsk_config f,
      rw e,
      fsk_config-IsTyped f,
      last.0 ∙ ap some (high_half_of_byte f.sfd0),
      last.1 ∙ ap some (high_half_of_byte f.sfd1),
    )
