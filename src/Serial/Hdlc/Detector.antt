-- ===== src/Serial/Hdlc/Detector.antt =====
-- The frame detector: hdlc_processor::update.
use kaonic_comm.Shared.{
  suc, ℕ, ◌+◌, ◌≤◌, ◌<◌, ◌≡◌, refl, ◌≢◌, true, false, List, [], ◌∷◌, ◌++◌, append_assoc, arith,
  length, length-append, All, ◌==◌, if◌then◌else◌, replicate, Bool-cases, inl, inr,
}
use kaonic_comm.Serial.Hdlc.{flag, Processor, update, update_all}

abbrev pub flags : List ℕ → ℕ
flags [] = 0
flags (b ∷ bs) = let rest = flags bs in if b == flag then suc rest else rest

-- The buffer never outgrows `max_hdlc_size`, whatever the state and the byte.
pub update-bounded :
    (p : Processor) (element : ℕ) (output : List ℕ)
    → 0 < p.max_hdlc_size
    → length output ≤ p.max_hdlc_size
    → length (update p element output).1 ≤ p.max_hdlc_size
unfolding update
update-bounded p element output h k =
    ground (arith, length-append output (flag ∷ []), length-append output (element ∷ []))

-- Inside a frame a byte that is no flag is collected while it fits.
update_collects :
    (p : Processor) (element : ℕ) (output : List ℕ)
    → p.in_frame ≡ true
    → element ≢ flag
    → length output + 1 ≤ p.max_hdlc_size
    → update p element output ≡ (p, output ++ element ∷ [], false)
unfolding update
update_collects p element output h k l = ground arith

update_ends :
    (p : Processor) (output : List ℕ)
    → p.in_frame ≡ true
    → length output + 1 ≤ p.max_hdlc_size
    → update p flag output ≡ (record p { in_frame = false }, output ++ flag ∷ [], true)
unfolding update
update_ends p output h l = ground arith

-- A detector that is inside a frame collects the bytes up to the next flag, completes the frame
-- with that flag, and leaves the frame, if all of it fits the limit.
update_all_completes :
    (p : Processor) (body output : List ℕ)
    → p.in_frame ≡ true
    → All (λ b. b ≢ flag) body
    → length output + length body + 1 ≤ p.max_hdlc_size
    → let whole = output ++ (body ++ flag ∷ []) in
      update_all p output (body ++ flag ∷ []) ≡ (record p { in_frame = false }, whole, whole ∷ [])
unfolding update_all
update_all_completes p [] output h k l = ground (arith, update_ends p output h (omega arith))
update_all_completes p (b ∷ body) output h k l = ground (
  arith,
  update_collects p b output h k.0 (omega arith),
  append_assoc output (b ∷ []) (body ++ flag ∷ []),
  length-append output (b ∷ []),
  update_all_completes p body (output ++ b ∷ []) h k.1,
)

-- Outside a frame a flag is taken for both ends of a frame at once.
pub update_outside :
    (p : Processor) (element : ℕ) (output : List ℕ)
    → p.in_frame ≡ false
    → update p element output
      ≡ (if element == flag then (p, flag ∷ [], true) else (p, output, false))
unfolding update
update_outside p element output h = ground arith

-- A detector that starts outside a frame, as a new one does, is never inside one: over any bytes it
-- completes one frame for each flag, and each of these holds the flag alone.
pub update_all_outside :
    (p : Processor) (elements output : List ℕ)
    → p.in_frame ≡ false
    → ((update_all p output elements).0 ≡ p)
      × ((update_all p output elements).2 ≡ replicate (flags elements) (flag ∷ []))
unfolding update_all
update_all_outside p [] output h = (refl, refl)
update_all_outside p (e ∷ elements) output h = elim (Bool-cases (e == flag)) [
  | inl hit ↦
      rw (update_outside p e output h, hit)
        (ground (arith, update_all_outside p elements (flag ∷ []) h))
  | inr miss ↦ rw (update_outside p e output h, miss) (update_all_outside p elements output h)
]
