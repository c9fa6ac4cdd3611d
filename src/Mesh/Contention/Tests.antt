-- ===== src/Mesh/Contention/Tests.antt =====
-- A run of two threads over a network whose state is how many frames wait: a client finds it busy,
-- and sends its frame behind an update.
use kaonic_comm.Shared.{
  Action, Admits, ℕ, ◌+◌, ◌==◌, ◌≡◌, refl, some, List, [], ◌∷◌, get_elem?, pos, if◌then◌else◌,
}
use kaonic_comm.Failure.{ok}
use kaonic_comm.Radio.{Frame}
use kaonic_comm.Mesh.Network.{Rfnet}
use kaonic_comm.Mesh.Contention.{
  Point, Op, updated, sent, Move, called_update, locked_update, updates, done_update, called,
  locked, waits, rested, finds, sends, done, Contended, moves, Reach, start, later,
}
use kaonic_comm.Mesh.Contention.Moves.{Serial}
use kaonic_comm.Mesh.Contention.Laws.{reach-Serial, transmit_found, reach-transmit}

abbrev counting : Rfnet ℕ
counting = record {
  unset = 0;
  init = λ c. 0;
  is_tx_free = λ n. if n == 0 then pos 0 else pos 1;
  send = λ n f. (pos 0, n + 1);
  get_stats = λ n. record { tx_speed = 0; rx_speed = 0; rx_counter = 0; tx_counter = n };
  reset = λ n. 0;
}

abbrev Stage : Type 0
Stage = (ops : List (Op ℕ)) × (w : Contended ℕ) × Reach counting 5 2 ops w

unfoldable goes :
    (s : Stage) (i : ℕ) {p p' : Point ℕ} {a : Action} {ops : List (Op ℕ)} {n : ℕ}
    → Move counting s.1.state p a ops n p'
    → get_elem? s.1.points i ≡ some p
    → Admits s.1.owner a
    → Stage
goes (ops, w, r) i m at admits = (_, _, later i r (moves _ _ _ _ _ at m admits))

abbrev small : Frame
small = 7 ∷ []

unfoldable found_busy : Stage
unfolding goes
found_busy =
    let s1 = goes ([], _, start) 1 (called small) refl tt in
    let s2 = goes s1 1 (locked small []) refl refl in
    let s3 = goes s2 1 (waits small [] (λ e. cc)) refl tt in
    goes s3 1 (rested small (5 ∷ [])) refl tt

unfoldable made_free : Stage
unfolding goes found_busy
made_free =
    let s1 = goes found_busy 0 called_update refl tt in
    let s2 = goes s1 0 locked_update refl refl in
    let s3 = goes s2 0 (updates 0) refl tt in goes s3 0 done_update refl tt

unfoldable gone : Stage
unfolding goes found_busy made_free
gone =
    let s1 = goes made_free 1 (locked small (5 ∷ [])) refl refl in
    let s2 = goes s1 1 (finds small (5 ∷ []) refl) refl tt in
    let s3 = goes s2 1 (sends small (5 ∷ [])) refl tt in
    goes s3 1 (done small (5 ∷ []) 0 ok) refl tt

reach-Serial_example : Serial counting 5 (updated 0 ∷ sent small ∷ []) 1
unfolding goes found_busy made_free gone
reach-Serial_example = reach-Serial counting gone.2

reach-transmit_example : transmit_found counting (5 ∷ []) 0 small ≡ some (ok, 1)
unfolding goes found_busy made_free gone
reach-transmit_example = reach-transmit counting 1 small (5 ∷ []) 0 ok gone.2 refl
