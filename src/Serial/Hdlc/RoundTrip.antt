-- ===== src/Serial/Hdlc/RoundTrip.antt =====
-- Stuffing and its inverse: hdlc::escape and hdlc::unescape.
use kaonic_comm.Shared.{
  ℕ, ◌+◌, ◌*◌, ◌≤◌, ◌≡◌, refl, ◌≢◌, Bool, true, false, List, [], ◌∷◌, ◌++◌, append_assoc, arith,
  length, length-append, All, ◌==◌, if◌then◌else◌,
}
use kaonic_comm.Serial.Hdlc.{flag, hdlc_esc, escape_bytes, escape, unescape_from, unescape}

-- A count of the bytes that need an escape character.
abbrev pub specials : List ℕ → ℕ
specials [] = 0
specials (b ∷ bs) = (if b == hdlc_esc then 1 else if b == flag then 1 else 0) + specials bs

unescape_from-escape_bytes :
    (input rest : List ℕ) → unescape_from true false (escape_bytes input ++ flag ∷ rest) ≡ input
unfolding escape_bytes unescape_from
unescape_from-escape_bytes [] rest = refl
unescape_from-escape_bytes (b ∷ bs) rest = ground (arith, unescape_from-escape_bytes bs rest)

-- `unescape` gives back what `escape` was given, also when more bytes follow the frame.
pub unescape-escape : (input rest : List ℕ) → unescape (escape input ++ rest) ≡ input
unfolding escape unescape unescape_from
unescape-escape input rest =
    rw (append_assoc (escape_bytes input) (flag ∷ []) rest) (unescape_from-escape_bytes input rest)

escape_bytes-no_flag : (input : List ℕ) → All (λ b. b ≢ flag) (escape_bytes input)
unfolding escape_bytes
escape_bytes-no_flag [] = tt
escape_bytes-no_flag (b ∷ bs) = ground (arith, escape_bytes-no_flag bs)

-- The flag byte delimits a frame and stands nowhere inside it.
escape_delimited :
    (input : List ℕ)
    → (body : List ℕ) × (escape input ≡ flag ∷ (body ++ flag ∷ [])) × All (λ b. b ≢ flag) body
unfolding escape
escape_delimited input = (escape_bytes input, refl, escape_bytes-no_flag input)

length-escape_bytes : (input : List ℕ) → length (escape_bytes input) ≡ length input + specials input
unfolding escape_bytes
length-escape_bytes [] = refl
length-escape_bytes (b ∷ bs) = ground (arith, length-escape_bytes bs)

specials-le-length : (input : List ℕ) → specials input ≤ length input
specials-le-length [] = omega arith
specials-le-length (b ∷ bs) = ground (arith, specials-le-length bs)

-- The size of a frame: two flags, the bytes, and one more for each byte that is escaped; so it is
-- at most twice the input and two.
length-escape :
    (input : List ℕ)
    → (length (escape input) ≡ length input + specials input + 2)
      × (length (escape input) ≤ 2 * length input + 2)
unfolding escape
length-escape input = omega (
  arith,
  length-append (escape_bytes input) (flag ∷ []),
  length-escape_bytes input,
  specials-le-length input,
)

length-unescape_from :
    (in_frame esc : Bool) (input : List ℕ)
    → length (unescape_from in_frame esc input) ≤ length input
unfolding unescape_from
length-unescape_from in_frame esc [] = omega arith
length-unescape_from in_frame esc (b ∷ bs) = ground (
  arith,
  length-unescape_from true esc bs,
  length-unescape_from in_frame true bs,
  length-unescape_from in_frame false bs,
  length-unescape_from in_frame esc bs,
)

-- `unescape` never produces more bytes than it reads, whatever they are.
pub length-unescape-le : (input : List ℕ) → length (unescape input) ≤ length input
unfolding unescape
length-unescape-le input = length-unescape_from false false input
