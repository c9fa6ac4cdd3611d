-- ===== src/Radio/Rf215/Overlap/Steady.antt =====
-- Properties of `_active_trx` that every store of it has, where `configure` follows the pointer.
use kaonic_comm.Shared.{
  ℕ, ◌≡◌, sym, subst, Option, some, List, [], ◌∷◌, get_elem?, set_cases, inl, inr, Option-cases,
  arith, length,
}
use kaonic_comm.Radio.{RadioFrame, RadioConfig}
use kaonic_comm.Radio.Rf215.Registers.{TrxType, RegValue}
use kaonic_comm.Radio.Rf215.Device.{
  Driver, Rf215Radio, select_filter, common_writes, phy_set, transmit, receive,
}
use kaonic_comm.Radio.Rf215.Overlap.{
  Call, waiting, filtered, stored, writing, collecting, tuning, answered, Overlapped, Turn, caller,
  updater, listener, write_next, collect_next, tune, step, advance, run,
}

-- The calls that follow the pointer in their next step.
abbrev pub Follows : Call → Type 0
Follows (waiting c) = ⊥
Follows (filtered c) = ⊥
Follows (stored c) = Unit
Follows (writing trx k c) = Unit
Follows (collecting trx values c) = Unit
Follows (tuning err c) = Unit
Follows (answered err) = ⊥

-- What a call that has not returned asks for.
abbrev pub Asks {κ} : (RadioConfig → Type κ) → Call → Type κ
Asks P (waiting c) = P c
Asks P (filtered c) = P c
Asks P (stored c) = P c
Asks P (writing trx k c) = P c
Asks P (collecting trx values c) = P c
Asks P (tuning err c) = P c
Asks P (answered err) = Unit

module _ {ℓ} {D : Type ℓ} (driver : Driver D) where
  select_filter-active :
      (r : Rf215Radio D) (freq : ℕ) → (select_filter r freq).active_trx ≡ r.active_trx
  unfolding select_filter
  select_filter-active r freq = ground arith

  write_next-active :
      (r : Rf215Radio D) (active trx : TrxType) (k : ℕ) (c : RadioConfig)
      → (write_next driver r active trx k c).0.active_trx ≡ r.active_trx
  unfolding write_next
  write_next-active r active trx k c = ground arith

  collect_next-active :
      (r : Rf215Radio D) (a : Option TrxType) (trx : TrxType) (values : List RegValue)
      (c : RadioConfig)
      → (collect_next driver r a trx values c).0.active_trx ≡ r.active_trx
  unfolding collect_next
  collect_next-active r a trx values c = ground arith

  transmit-active :
      (r : Rf215Radio D) (frame : RadioFrame)
      → (transmit driver r frame).1.active_trx ≡ r.active_trx
  unfolding transmit
  transmit-active r frame = ground arith

  receive-active :
      (r : Rf215Radio D) (frame : RadioFrame) (millis : ℕ)
      → (receive driver r frame millis).2.active_trx ≡ r.active_trx
  unfolding receive
  receive-active r frame millis = ground arith

  write_next-Asks :
      (P : RadioConfig → Type ℓ) (r : Rf215Radio D) (active trx : TrxType) (k : ℕ) (c : RadioConfig)
      → P c
      → Asks P (write_next driver r active trx k c).1
  unfolding write_next
  write_next-Asks P r active trx k c p =
      elim (Option-cases (get_elem? (common_writes active c.tx_power) k)) [
        | inl e ↦ rw (e, write_next) p
        | inr (w, e) ↦ rw (e, write_next) p
      ]

  collect_next-Asks :
      (P : RadioConfig → Type ℓ) (r : Rf215Radio D) (a : Option TrxType) (trx : TrxType)
      (values : List RegValue) (c : RadioConfig)
      → P c
      → Asks P (collect_next driver r a trx values c).1
  unfolding collect_next
  collect_next-Asks P r a trx values c p =
      elim (Option-cases (get_elem? (phy_set trx c.phy_config) (length values))) [
        | inl e ↦ rw (e, collect_next) p
        | inr (w, e) ↦ elim (Option-cases a) [
          | inl n ↦ rw (e, collect_next) (rw n p)
          | inr (t, n) ↦ rw (e, collect_next) (rw n p)
        ]
      ]

  -- A property of the settings that calls ask for, and one of the pointer, which every store for
  -- such settings has.
  module _ (P : RadioConfig → Type ℓ) (Q : Option TrxType → Type 0)
      (stores : (d : D) (c : RadioConfig) → P c → Q (driver.get_trx_by_freq d c.freq)) where
    abbrev pub IsSteady : Overlapped D → Type ℓ
    IsSteady v =
        (i : ℕ) (call : Call)
        → get_elem? v.calls i ≡ some call
        → Asks P call × (Follows call → Q v.device.active_trx)

    step_keeps :
        (r : Rf215Radio D) (call : Call)
        → Asks P call
        → Q r.active_trx
        → Q (step driver r call).0.active_trx
    unfolding step tune
    step_keeps r (waiting c) p h = rw (select_filter-active r c.freq) h
    step_keeps r (filtered c) p h = stores r.dev c p
    step_keeps r (stored c) p h = elim (Option-cases r.active_trx) [
      | inl e ↦ rw (e, step) h
      | inr (active, e) ↦ rw (e, step) h
    ]
    step_keeps r (collecting trx values c) p h =
        rw (collect_next-active r r.active_trx trx values c) h
    step_keeps r (writing trx k c) p h = elim (Option-cases r.active_trx) [
      | inl e ↦ rw (e, step) h
      | inr (active, e) ↦ rw (e, step) (rw (write_next-active r active trx k c) h)
    ]
    step_keeps r (tuning err c) p h = elim (Option-cases r.active_trx) [
      | inl e ↦ rw (e, step) h
      | inr (active, e) ↦ rw (e, step) h
    ]
    step_keeps r (answered err) p h = h

    step-Asks : (r : Rf215Radio D) (call : Call) → Asks P call → Asks P (step driver r call).1
    unfolding step tune
    step-Asks r (waiting c) p = p
    step-Asks r (filtered c) p = p
    step-Asks r (stored c) p = elim (Option-cases r.active_trx) [
      | inl e ↦ rw (e, step) p
      | inr (active, e) ↦ rw (e, step) p
    ]
    step-Asks r (collecting trx values c) p = collect_next-Asks P r r.active_trx trx values c p
    step-Asks r (writing trx k c) p = elim (Option-cases r.active_trx) [
      | inl e ↦ rw (e, step) p
      | inr (active, e) ↦ rw (e, step) (write_next-Asks P r active trx k c p)
    ]
    step-Asks r (tuning err c) p = elim (Option-cases r.active_trx) [
      | inl e ↦ rw (e, step) p
      | inr (active, e) ↦ rw (e, step) tt
    ]
    step-Asks r (answered err) p = p

    step_follows :
        (r : Rf215Radio D) (call : Call)
        → Asks P call
        → (Follows call → Q r.active_trx)
        → Follows (step driver r call).1
        → Q (step driver r call).0.active_trx
    unfolding step
    step_follows r (waiting c) p h f = absurd f
    step_follows r (filtered c) p h f = stores r.dev c p
    step_follows r (stored c) p h f = step_keeps r (stored c) p (h tt)
    step_follows r (collecting trx values c) p h f = step_keeps r (collecting trx values c) p (h tt)
    step_follows r (writing trx k c) p h f = step_keeps r (writing trx k c) p (h tt)
    step_follows r (tuning err c) p h f = step_keeps r (tuning err c) p (h tt)
    step_follows r (answered err) p h f = absurd f

    turn-IsSteady : (v : Overlapped D) (t : Turn) → IsSteady v → IsSteady (advance driver v t)
    unfolding advance
    turn-IsSteady v (caller i) h = elim (Option-cases (get_elem? v.calls i)) [
      | inl e ↦ rw (e, advance) h
      | inr (call, e) ↦
          let (p, q) = h i call e in
          rw (e, advance)
            (λ j other at. elim (set_cases v.calls i j _ other call e at) [
              | inl own ↦ (
                subst (Asks P) own (step-Asks v.device call p),
                λ f. step_follows v.device call p q (subst Follows (sym own) f),
              )
              | inr still ↦
                  ((h j other still).0, λ f. step_keeps v.device call p ((h j other still).1 f))
            ])
    ]
    turn-IsSteady v (listener frame millis) h = λ j call at.
        ((h j call at).0, λ f. rw (receive-active v.device frame millis) ((h j call at).1 f))
    turn-IsSteady v (updater frame) h =
        λ j call at. ((h j call at).0, λ f. rw (transmit-active v.device frame) ((h j call at).1 f))

    pub run-IsSteady :
        (v : Overlapped D) (schedule : List Turn) → IsSteady v → IsSteady (run driver v schedule)
    unfolding run
    run-IsSteady v [] h = h
    run-IsSteady v (t ∷ schedule) h =
        run-IsSteady (advance driver v t) schedule (turn-IsSteady v t h)

    turn_keeps :
        (v : Overlapped D) (t : Turn)
        → IsSteady v
        → Q v.device.active_trx
        → Q (advance driver v t).device.active_trx
    unfolding advance
    turn_keeps v (caller i) h q = elim (Option-cases (get_elem? v.calls i)) [
      | inl e ↦ rw (e, advance) q
      | inr (call, e) ↦ rw (e, advance) (step_keeps v.device call (h i call e).0 q)
    ]
    turn_keeps v (updater frame) h q = rw (transmit-active v.device frame) q
    turn_keeps v (listener frame millis) h q = rw (receive-active v.device frame millis) q

    -- Also of the pointer itself.
    pub run_keeps :
        (v : Overlapped D) (schedule : List Turn)
        → IsSteady v
        → Q v.device.active_trx
        → Q (run driver v schedule).device.active_trx
    unfolding run
    run_keeps v [] h q = q
    run_keeps v (t ∷ schedule) h q =
        run_keeps (advance driver v t) schedule (turn-IsSteady v t h) (turn_keeps v t h q)
