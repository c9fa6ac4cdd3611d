-- ===== src/Serial/Port/Transfer/Tests.antt =====
-- An instance of the theorem on read, with a system that reads one byte at a time.
use kaonic_comm.Shared.{ℕ, suc, ◌%◌, ◌≡◌, refl, [], ◌∷◌, ◌==◌, if◌then◌else◌, pos, negsuc}
use kaonic_comm.Serial.Port.Transfer.{Io, read_port, write_port}

abbrev counting : Io ℕ
counting = record {
  select = λ w fd micros. (pos 1, w);
  read = λ w fd size. if size == 0 then (pos 0, [], w) else (pos 1, w % 256 ∷ [], suc w);
  write = λ w fd bytes. (negsuc 0, w);
  flush_output = λ w fd. 0;
  close = λ w fd. w;
}

one_byte_read : read_port 32 counting (pos 3) 300 (1 ∷ 2 ∷ []) 2 100 ≡ (1, 44 ∷ 2 ∷ [], 301)
unfolding read_port
one_byte_read = refl

failed_write : write_port 32 counting (pos 3) 300 (1 ∷ []) ≡ (4294967295, 300)
unfolding write_port
failed_write = refl
