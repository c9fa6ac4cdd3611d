-- ===== src/Drivers/Spi/Laws.antt =====
-- The descriptors that spi::open leaves open.
use Prim.Native.String.{String}
use kaonic_comm.Shared.{
  ◌≡◌, refl, ◌∙◌, ◌⊎◌, inl, inr, true, false, List, [], ◌∷◌, ℤ, is_negative, Bool-cases,
}
use kaonic_comm.Failure.{ok, fail, is_ok}
use kaonic_comm.Drivers.Spi.{
  SpiConfig, Request, System, Spi, open_spi, set_each, is_minus_one, requests_of,
}

-- What the system keeps of its descriptors, by their documentation: a successful `open` adds one,
-- `close` removes it, and no other call changes them.
pub record KeepsDescriptors {ℓ} {W : Type ℓ} (sys : System W) (held : W → List ℤ) : Type ℓ where
  pub opened :
      (w : W) (dev : String)
      → is_negative (sys.open_device w dev).0 ≡ false
      → held (sys.open_device w dev).1 ≡ (sys.open_device w dev).0 ∷ held w
  pub not_opened :
      (w : W) (dev : String)
      → is_negative (sys.open_device w dev).0 ≡ true
      → held (sys.open_device w dev).1 ≡ held w
  pub set : (w : W) (fd : ℤ) (r : Request) → held (sys.ioctl w fd r).1 ≡ held w
  pub closed : (w : W) (fd : ℤ) (rest : List ℤ) → held w ≡ fd ∷ rest → held (sys.close w fd) ≡ rest

module _ {ℓ} {W : Type ℓ} (sys : System W) (held : W → List ℤ) (k : KeepsDescriptors sys held) where
  set_each_held :
      (s : Spi) (w : W) (requests : List Request) (rest : List ℤ)
      → held w ≡ s.device_fd ∷ rest
      → ((set_each sys s w requests).0 ≡ ok
          × held (set_each sys s w requests).1 ≡ s.device_fd ∷ rest)
        ⊎ ((set_each sys s w requests).0 ≡ fail × held (set_each sys s w requests).1 ≡ rest)
  unfolding set_each
  set_each_held s w [] rest h = inl (refl, h)
  set_each_held s w (r ∷ requests) rest h =
      let (rc, w') = sys.ioctl w s.device_fd r in
      let h' = k.set w s.device_fd r ∙ h in
      elim (Bool-cases (is_minus_one (sys.ioctl w s.device_fd r).0)) [
        | inl e ↦ rw e (inr (refl, k.closed _ s.device_fd rest h'))
        | inr e ↦ rw e (set_each_held s (sys.ioctl w s.device_fd r).1 requests rest h')
      ]

  -- Over a system that keeps its descriptors, `open` returns `ok` and holds one descriptor more, its
  -- own, with the configuration stored; or it returns `fail`, and each descriptor that it opened is
  -- closed again, and the configuration stays.
  pub open_spi_held :
      (s : Spi) (w : W) (config : SpiConfig)
      → let (err, s', w') = open_spi sys s w config in
        ((err ≡ ok) × (held w' ≡ s'.device_fd ∷ held w) × (s'.config ≡ config))
        ⊎ ((err ≡ fail) × (held w' ≡ held w) × (s'.config ≡ s.config))
  unfolding open_spi is_ok
  open_spi_held s w config = elim (Bool-cases (is_negative (sys.open_device w config.dev).0)) [
    | inl e ↦ rw e (inr (refl, k.not_opened w config.dev e, refl))
    | inr e ↦
        rw e
          (elim (set_each_held (record s { device_fd = (sys.open_device w config.dev).0 })
            (sys.open_device w config.dev).1 (requests_of config) (held w)
            (k.opened w config.dev e)) [
              | inl (o, h) ↦ rw o (inl (refl, h, refl))
              | inr (f, h) ↦ rw f (inr (refl, h, refl))
            ])
  ]
