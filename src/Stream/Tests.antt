-- ===== src/Stream/Tests.antt =====
-- Transfers over a plain drive.
use icariusos.Base.{ℕ, ◌+◌, ◌≡◌, inl, inr, refl, arith, List, [], ◌∷◌, Option, none, some}
use icariusos.Libc.Blocks.{Bytes}
use icariusos.Stream.{stream_read, stream_write}
use icariusos.Stream.Plain.{plain, contents, plain-IsReliable}
use icariusos.Stream.Interface.{Ata, byte_at}
use icariusos.Stream.Reads.{bytes_from, stream_read-bytes, stream_read-crosses}
use icariusos.Stream.Writes.{patched, stream_write-patched}

-- Byte i of sector l is l + i.
abbrev counted : Ata (ℕ → Bytes)
counted = record { buffer = λ i. 0; drive = λ l i. l + i }

abbrev read_bytes : {W : Type 0} → Option (ℕ × List ℕ × ℕ × Ata W) → List ℕ
read_bytes none = []
read_bytes (some (res, bytes, pos, dev)) = bytes

read-inside : read_bytes (stream_read plain 1030 4 counted) ≡ (8 ∷ 9 ∷ 10 ∷ 11 ∷ [])
unfolding stream_read
read-inside = refl

stream_read-bytes_example :
    (dev' : Ata (ℕ → Bytes)) × ((stream_read plain 512 700 counted
        ≡ some (0, bytes_from (byte_at contents counted.drive) 512 700, 512 + 700, dev'))
      × ((l i : ℕ) → contents dev'.drive l i ≡ contents counted.drive l i))
stream_read-bytes_example =
    stream_read-bytes plain contents plain-IsReliable 512 700 counted (inl refl) (omega arith)

stream_read-crosses_example : stream_read plain 510 4 counted ≡ none
stream_read-crosses_example =
    stream_read-crosses plain contents plain-IsReliable 510 4 counted (omega arith) (omega arith)

stream_write-patched_example :
    (dev' : Ata (ℕ → Bytes)) × ((stream_write plain 514 (7 ∷ 8 ∷ []) counted ≡ some (0, 516, dev'))
      × ((a : ℕ)
          → byte_at contents dev'.drive a
            ≡ patched (byte_at contents counted.drive) 514 (7 ∷ 8 ∷ []) a))
stream_write-patched_example =
    stream_write-patched plain contents plain-IsReliable 514 (7 ∷ 8 ∷ []) counted
      (inr (omega arith)) (omega arith)
