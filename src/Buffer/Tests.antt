-- ===== src/Buffer/Tests.antt =====
-- shared/buffer.c on small buffers.
use protos_tpe.Prelude.{◌≡◌, some, [], ◌∷◌, arith}
use protos_tpe.Buffer.{Buffer, IsValid, write_bytes, fill}
use protos_tpe.Buffer.Writes.{Pushed, write_bytes_room, fill_room}

-- two of three bytes wait
abbrev waiting : Buffer
waiting = record { bytes = 7 ∷ 8 ∷ 9 ∷ 0 ∷ 0 ∷ []; limit = 5; read = 1; write = 3 }

waiting-IsValid : IsValid waiting
waiting-IsValid = record { storage = omega arith; read_le = omega arith; write_le = omega arith }

write_bytes_example :
    (b' : Buffer) × (write_bytes waiting (1 ∷ 2 ∷ []) ≡ some b') × Pushed waiting b' (1 ∷ 2 ∷ [])
write_bytes_example = write_bytes_room (1 ∷ 2 ∷ []) waiting-IsValid (omega arith)

fill_example : (b' : Buffer) × (fill waiting (4 ∷ []) ≡ some b') × Pushed waiting b' (4 ∷ [])
fill_example = fill_room (4 ∷ []) waiting-IsValid (omega arith)
