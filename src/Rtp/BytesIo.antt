-- ===== src/Rtp/BytesIo.antt =====
-- Python's `io.BytesIO`, as far as rfcvoip/RTP.py uses it: a content and a position, which may stand
-- behind the end. A write there fills the gap with zero bytes.
use rfcvoip.Prelude.{ℕ, ◌+◌, ◌-◌, List, [], ◌++◌, length, take, drop, replicate}

pub record BytesIo : Type 0 where
  pub content : List ℕ
  pub pos : ℕ

-- `io.BytesIO(data)`
abbrev pub open_bytes : List ℕ → BytesIo
open_bytes content = record { content = content; pos = 0 }

-- `buffer.seek(pos, 0)`
abbrev pub seek : ℕ → BytesIo → BytesIo
seek pos b = record b { pos = pos }

-- `buffer.seek(0, 2)`
abbrev pub seek_end : BytesIo → BytesIo
seek_end b = record b { pos = length b.content }

-- `buffer.seek(n, 1)`
abbrev pub seek_on : ℕ → BytesIo → BytesIo
seek_on n b = record b { pos = b.pos + n }

-- `buffer.read(n)`: what was read, and the stream behind it.
abbrev pub read : ℕ → BytesIo → List ℕ × BytesIo
read n b = let got = take n (drop b.pos b.content) in (got, record b { pos = b.pos + length got })

-- `buffer.read()`
abbrev pub read_all : BytesIo → List ℕ
read_all b = drop b.pos b.content

-- `content` with `data` written at `pos`
abbrev pub overwrite : List ℕ → ℕ → List ℕ → List ℕ
overwrite content pos bytes =
    take pos content
    ++ (replicate (pos - length content) 0 ++ (bytes ++ drop (pos + length bytes) content))

-- `buffer.write(bytes)`; an empty write changes nothing.
abbrev pub write : List ℕ → BytesIo → BytesIo
write [] b = b
write bytes b = record { content = overwrite b.content b.pos bytes; pos = b.pos + length bytes }
