-- ===== src/Copy/Stream.antt =====
-- The C library's streams, as far as cw3 uses them: a file open for reading, and its position.
use systemy_operacyjne_agh.Prelude.{ℕ, ◌+◌, ◌-◌, List, ◌++◌, length, take, drop, leb, if◌then◌else◌}

pub record Stream : Type 0 where
  pub bytes : List ℕ
  pub position : ℕ

-- `fseek(f, 0, SEEK_END)`, after which `ftell(f)` is the position.
abbrev pub fseek_end : Stream → Stream
fseek_end f = record f { position = length f.bytes }

-- `fseek(f, i, SEEK_SET)`
abbrev pub fseek_set : Stream → ℕ → Stream
fseek_set f i = record f { position = i }

-- `fseek(f, -n, SEEK_CUR)`: a seek before the start fails, and leaves the position.
abbrev pub fseek_back : Stream → ℕ → Stream
fseek_back f n = record f { position = if leb n f.position then f.position - n else f.position }

-- What `fread(buffer, 1, n, f)` reads.
abbrev pub read_bytes : Stream → ℕ → List ℕ
read_bytes f n = take n (drop f.position f.bytes)

-- `fread(buffer, 1, n, f)`: the buffer and the stream after it. Bytes that are not read stay.
abbrev pub fread : List ℕ → ℕ → Stream → List ℕ × Stream
fread buffer n f =
    let got = read_bytes f n in
    (got ++ drop (length got) buffer, record f { position = f.position + length got })
