-- ===== src/Radio/Rf215/Bus/Registers.antt =====
-- The callbacks write and read of rf215_radio over memory of a chip that answers on the SPI bus.
use kaonic_comm.Shared.{
  ℕ, zero, suc, ◌+◌, ◌*◌, ◌/◌, ◌%◌, ◌≤◌, ◌<◌, ◌≡◌, ◌≢◌, refl, sym, ap, ap₂, ◌∙◌, true, false, ◌==◌,
  Option, none, some, List, [], ◌∷◌, arith, length, memcpy, memcpy_whole, ℤ, pos, negsuc,
  is_negative, if◌then◌else◌,
}
use kaonic_comm.Failure.{is_ok}
use kaonic_comm.Drivers.Spi.{System, Spi, Transfer, address_transfer, read_buffer, write_buffer}
use kaonic_comm.Radio.Rf215.Bus.{write, read}

-- The cells with a block of bytes stored from `a` on.
abbrev pub store : (ℕ → ℕ) → ℕ → List ℕ → ℕ → ℕ
store cells a [] i = cells i
store cells a (b ∷ bytes) i = if i == a then b else store cells (suc a) bytes i

-- So many cells from `a` on.
abbrev pub block : (ℕ → ℕ) → ℕ → ℕ → List ℕ
block cells a zero = []
block cells a (suc n) = cells a ∷ block cells (suc a) n

-- The command that the first two bytes of a message are, the high byte first, and its access to
-- write. The other bits are the address: fourteen of them.
abbrev pub command : ℕ → ℕ → ℕ
command hi lo = hi * 256 + lo

abbrev pub write_access : ℕ
write_access = 0x8000

-- What the data sheet of the AT86RF215 says of block access to memory, such as the frame buffer for
-- transmission, of which the cells from `lo` on and below `hi` are, for a message that the system call reports as sent:
-- with the access to write, the bytes behind the command are stored from its address on; with the
-- access to read, the chip answers with its cells from there on. Nothing is said of the registers
-- outside, which may change by themselves or be cleared by a read.
pub record IsChip {ℓ} {W : Type ℓ} (sys : System W) (cells : W → ℕ → ℕ) (lo hi : ℕ) : Type ℓ where
  pub addressed : hi ≤ 0x4000
  pub stores :
      (w : W) (fd : ℤ) (first second : Transfer) (high low a : ℕ) (bytes : List ℕ)
      → first.tx_buf ≡ some (high ∷ low ∷ [])
      → first.len ≡ 2
      → second.tx_buf ≡ some bytes
      → second.len ≡ length bytes
      → command high low ≡ write_access + a
      → lo ≤ a
      → a + length bytes ≤ hi
      → is_negative (sys.message w fd first second).0 ≡ false
      → (i : ℕ) → lo ≤ i
      → i < hi
      → cells (sys.message w fd first second).2 i ≡ store (cells w) a bytes i
  pub answers :
      (w : W) (fd : ℤ) (first second : Transfer) (high low a : ℕ)
      → first.tx_buf ≡ some (high ∷ low ∷ [])
      → first.len ≡ 2
      → second.tx_buf ≡ none
      → second.rx_buf ≡ true
      → command high low ≡ a
      → lo ≤ a
      → a + second.len ≤ hi
      → is_negative (sys.message w fd first second).0 ≡ false
      → ((sys.message w fd first second).1 ≡ block (cells w) a second.len)
        × ((i : ℕ) → lo ≤ i → i < hi → cells (sys.message w fd first second).2 i ≡ cells w i)

block_same :
    (c d : ℕ → ℕ) (a n : ℕ) → ((i : ℕ) → a ≤ i → i < a + n → c i ≡ d i) → block c a n ≡ block d a n
block_same c d a zero h = refl
block_same c d a (suc n) h =
    ap₂ (λ (x : ℕ) (xs : List ℕ). x ∷ xs) (h a (omega arith) (omega arith))
      (block_same c d (suc a) n (λ i le lt. h i (omega arith) (omega arith)))

length-block : (c : ℕ → ℕ) (a n : ℕ) → length (block c a n) ≡ n
length-block c a zero = refl
length-block c a (suc n) = ap suc (length-block c (suc a) n)

store_behind :
    (c : ℕ → ℕ) (a b : ℕ) (bytes : List ℕ) (i : ℕ)
    → a < i
    → store c a (b ∷ bytes) i ≡ store c (suc a) bytes i
store_behind c a b bytes i h = ground arith

-- A block that was stored is what stands there.
block-store :
    (c : ℕ → ℕ) (a : ℕ) (bytes : List ℕ) → block (store c a bytes) a (length bytes) ≡ bytes
block-store c a [] = refl
block-store c a (b ∷ bytes) =
    let here : (if a == a then b else store c (suc a) bytes a) ≡ b = ground arith in
    ap₂ (λ (x : ℕ) (xs : List ℕ). x ∷ xs) here
      (block_same (store c a (b ∷ bytes)) (store c (suc a) bytes) (suc a) (length bytes)
          (λ i le lt. store_behind c a b bytes i (omega arith))
        ∙ block-store c (suc a) bytes)

htobe16-command : (a : ℕ) → a < 65536 → command (a / 256 % 256) (a % 256) ≡ a
htobe16-command a h = omega arith

abbrev write_transfer : Spi → List ℕ → Transfer
write_transfer s bytes = record {
  tx_buf = some bytes;
  rx_buf = false;
  len = length bytes;
  speed_hz = s.config.speed;
  bits_per_word = s.config.bits_per_word;
}

abbrev read_transfer : Spi → ℕ → Transfer
read_transfer s n = record {
  tx_buf = none;
  rx_buf = true;
  len = n;
  speed_hz = s.config.speed;
  bits_per_word = s.config.bits_per_word;
}

abbrev result : ℤ → ℤ
result rc = if is_negative rc then negsuc 0 else pos 0

result_zero : (rc : ℤ) → result rc ≡ pos 0 → is_negative rc ≡ false
result_zero rc h = ground arith

module _ {ℓ} {W : Type ℓ} (sys : System W) (s : Spi) (w : W) (reg : ℕ) where
  -- The message of each callback.
  abbrev write_message : List ℕ → ℤ × List ℕ × W
  write_message bytes =
      sys.message w s.device_fd (address_transfer sys s reg) (write_transfer s bytes)

  abbrev read_message : ℕ → ℤ × List ℕ × W
  read_message n = sys.message w s.device_fd (address_transfer sys s reg) (read_transfer s n)

  write_sends :
      (bytes : List ℕ)
      → length bytes ≢ 0
      → write sys s w reg (some bytes) (length bytes)
        ≡ (result (write_message bytes).0, (write_message bytes).2)
  unfolding write write_buffer is_ok
  write_sends bytes h = ground arith

  read_sends :
      (memory : List ℕ) (n : ℕ)
      → n ≢ 0
      → read sys s w reg (some memory) n
        ≡ (result (read_message n).0, some (memcpy memory (read_message n).1), (read_message n).2)
  unfolding read read_buffer is_ok
  read_sends memory n h = ground arith

module _ {ℓ} {W : Type ℓ} (sys : System W) (cells : W → ℕ → ℕ) (lo hi : ℕ)
    (chip : IsChip sys cells lo hi) where
  -- `write` that returns 0 has stored the bytes, and no other cell of the memory changes.
  write_stores :
      (s : Spi) (w : W) (reg : ℕ) (bytes : List ℕ)
      → length bytes ≢ 0
      → lo ≤ reg
      → reg + length bytes ≤ hi
      → (write sys s w (write_access + reg) (some bytes) (length bytes)).0 ≡ pos 0
      → (i : ℕ) → lo ≤ i
      → i < hi
      → cells (write sys s w (write_access + reg) (some bytes) (length bytes)).1 i
        ≡ store (cells w) reg bytes i
  write_stores s w reg bytes ne above fits sent i le lt =
      let sends = write_sends sys s w (write_access + reg) bytes ne in
      let went = result_zero _ (sym (ap (λ (r : ℤ × W). r.0) sends) ∙ sent) in
      rw sends (
        chip.stores w s.device_fd (address_transfer sys s (write_access + reg))
          (write_transfer s bytes) _ _ reg bytes refl refl refl refl
          (htobe16-command (write_access + reg) (omega (arith, fits, chip.addressed))) above fits
          went i le lt)

  -- `read` that returns 0 has the cells in its memory, and none of them changes.
  read_answers :
      (s : Spi) (w : W) (reg : ℕ) (memory : List ℕ)
      → length memory ≢ 0
      → lo ≤ reg
      → reg + length memory ≤ hi
      → (read sys s w reg (some memory) (length memory)).0 ≡ pos 0
      → ((read sys s w reg (some memory) (length memory)).1
          ≡ some (block (cells w) reg (length memory)))
        × ((i : ℕ)
            → lo ≤ i
            → i < hi
            → cells (read sys s w reg (some memory) (length memory)).2 i ≡ cells w i)
  read_answers s w reg memory ne above fits received =
      let n = length memory in
      let sends = read_sends sys s w reg memory n ne in
      let went = result_zero _ (sym (ap (λ (r : ℤ × Option (List ℕ) × W). r.0) sends) ∙ received) in
      let (answer, same) =
        chip.answers w s.device_fd (address_transfer sys s reg) (read_transfer s n) _ _ reg refl
          refl refl refl (htobe16-command reg (omega (arith, fits, chip.addressed))) above fits
          went in
      rw sends (
        rw answer (
            ap (λ (x : List ℕ). some x)
              (memcpy_whole memory (block (cells w) reg n) (sym (length-block (cells w) reg n)))),
        same,
      )

  -- Over a chip of which some addresses are memory that answers as its data sheet says, and messages
  -- that go through: `read` of an address of that memory after `write` of it, with as many bytes, all
  -- within the memory, gives these bytes back, and afterwards every cell of the memory is as it was
  -- before, or, in the block that was written, has its byte. The driver passes the address to `write`
  -- with the access to write.
  pub write-read :
      (s : Spi) (w : W) (reg : ℕ) (bytes memory : List ℕ)
      → length bytes ≢ 0
      → length memory ≡ length bytes
      → lo ≤ reg
      → reg + length bytes ≤ hi
      → (write sys s w (write_access + reg) (some bytes) (length bytes)).0 ≡ pos 0
      → let w' = (write sys s w (write_access + reg) (some bytes) (length bytes)).1 in
        (read sys s w' reg (some memory) (length memory)).0 ≡ pos 0
        → let w' = (write sys s w (write_access + reg) (some bytes) (length bytes)).1 in
          let (rc, memory', w'') = read sys s w' reg (some memory) (length memory) in
          (memory' ≡ some bytes)
          × ((i : ℕ) → lo ≤ i → i < hi → cells w'' i ≡ store (cells w) reg bytes i)
  write-read s w reg bytes memory ne same above fits sent received =
      let w' = (write sys s w (write_access + reg) (some bytes) (length bytes)).1 in
      let stored = write_stores s w reg bytes ne above fits sent in
      let (answer, kept) =
        read_answers s w' reg memory (λ e. ne (sym same ∙ e)) above (omega (arith, fits))
          received in
      (
        answer
            ∙ ap (λ (x : List ℕ). some x)
                (ap (block (cells w') reg) same
                  ∙ block_same (cells w') (store (cells w) reg bytes) reg (length bytes)
                      (λ i le lt. stored i (omega (arith, above)) (omega (arith, fits)))
                  ∙ block-store (cells w) reg bytes),
        λ i le lt. kept i le lt ∙ stored i le lt,
      )
