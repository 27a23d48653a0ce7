-- ===== src/Stream/Writes.antt =====
-- What a write leaves on the disk.
use icariusos.Base.{
  ℕ, zero, suc, ◌+◌, ◌-◌, ◌/◌, ◌%◌, ◌^◌, ◌<◌, ◌≤◌, ◌≡◌, ◌≢◌, inl, inr, refl, sym, ap, ◌∙◌, arith,
  Bool-cases, true, ◌&&◌, List, [], ◌∷◌, length, take, drop, get_or, some, ltb, leb, ◌==◌,
  if◌then◌else◌,
}
use icariusos.Libc.Blocks.{Bytes, store}
use icariusos.Stream.{copy_in, chunk, write_loop, stream_write}
use icariusos.Stream.Interface.{Driver, Ata, sector_size, IsReliable, byte_at}
use icariusos.Stream.Reads.{Fits, Fits-chunk, Fits-next, chunk_bounds}

-- The bytes from `pos` on are the given ones, and the others are as before.
abbrev pub patched : Bytes → ℕ → List ℕ → Bytes
patched b pos bytes a =
    if leb pos a && ltb a (pos + length bytes) then get_or bytes (a - pos) 0 else b a

patched-cons :
    (b : Bytes) (pos byte : ℕ) (bytes : List ℕ) (a : ℕ)
    → patched (store b pos byte) (pos + 1) bytes a ≡ patched b pos (byte ∷ bytes) a
patched-cons b pos byte bytes a = elim (Bool-cases (ltb pos a)) [
  | inl e ↦
      let less : pos < a = ground arith in
      let back : a - pos ≡ suc (a - (pos + 1)) = omega arith in rw back (ground arith)
  | inr n ↦ elim (Bool-cases (a == pos)) [
    | inl e ↦
        let same : a ≡ pos = ground arith in
        let none : a - pos ≡ 0 = omega arith in rw none (ground arith)
    | inr m ↦ ground arith
  ]
]

copy_in-patched :
    (bytes : List ℕ) (at : ℕ) (b : Bytes)
    → at + length bytes ≤ sector_size
    → (b' : Bytes) × ((copy_in bytes at b ≡ some b') × ((i : ℕ) → b' i ≡ patched b at bytes i))
unfolding copy_in
copy_in-patched [] at b fits = (b, (refl, λ i. ground arith))
copy_in-patched (byte ∷ bytes) at b fits =
    let inside : ltb at sector_size ≡ true = ground arith in
    let (b', (rest, is)) = copy_in-patched bytes (at + 1) (store b at byte) (omega arith) in
    (b', (rw inside rest, λ i. is i ∙ patched-cons b at byte bytes i))

pub length-take : (k : ℕ) (l : List ℕ) → k ≤ length l → length (take k l) ≡ k
length-take zero l h = refl
length-take (suc k) [] h = absurd (omega arith)
length-take (suc k) (x ∷ l) h = ap suc (length-take k l (omega arith))

pub length-drop : (k : ℕ) (l : List ℕ) → length (drop k l) ≡ length l - k
length-drop zero l = omega arith
length-drop (suc k) [] = omega arith
length-drop (suc k) (x ∷ l) = length-drop k l ∙ omega arith

pub get_or-take : (k : ℕ) (l : List ℕ) (i : ℕ) → i < k → get_or (take k l) i 0 ≡ get_or l i 0
get_or-take zero l i h = absurd (omega arith)
get_or-take (suc k) [] i h = refl
get_or-take (suc k) (x ∷ l) zero h = refl
get_or-take (suc k) (x ∷ l) (suc i) h = get_or-take k l i (omega arith)

pub get_or-drop : (k : ℕ) (l : List ℕ) (i : ℕ) → get_or (drop k l) i 0 ≡ get_or l (k + i) 0
get_or-drop zero l i = ap (λ (n : ℕ). get_or l n 0) (omega arith)
get_or-drop (suc k) [] i = refl
get_or-drop (suc k) (x ∷ l) i =
    let more : suc k + i ≡ suc (k + i) = omega arith in rw more (get_or-drop k l i)

-- A patch in two pieces.
patched-pieces :
    (b c : Bytes) (pos k : ℕ) (bytes : List ℕ) (a : ℕ)
    → k ≤ length bytes
    → c a ≡ patched b pos (take k bytes) a
    → patched c (pos + k) (drop k bytes) a ≡ patched b pos bytes a
patched-pieces b c pos k bytes a le is =
    let same : pos + k ≤ a → get_or bytes (k + (a - (pos + k))) 0 ≡ get_or bytes (a - pos) 0 =
      λ ge. ap (λ (n : ℕ). get_or bytes n 0) (omega arith) in
    ground (
      arith,
      length-take k bytes,
      length-drop k bytes,
      get_or-take k bytes (a - pos),
      get_or-drop k bytes (a - (pos + k)),
      same,
    )

-- A patched sector buffer, back in its sector.
patched-sector :
    (load : Bytes) (pos : ℕ) (src : List ℕ) (a x old : ℕ)
    → pos % sector_size + length src ≤ sector_size
    → x ≡ patched load (pos % sector_size) src (a % sector_size)
    → (a / sector_size ≡ pos / sector_size → load (a % sector_size) ≡ old)
    → (if a / sector_size == pos / sector_size then x else old)
      ≡ (if leb pos a && ltb a (pos + length src) then get_or src (a - pos) 0 else old)
patched-sector load pos src a x old fits is loads =
    elim (Bool-cases (a / sector_size == pos / sector_size)) [
      | inl e ↦
          let here : a / sector_size ≡ pos / sector_size = ground arith in
          let index : pos ≤ a
              → get_or src (a % sector_size - pos % sector_size) 0 ≡ get_or src (a - pos) 0 =
            λ le. ap (λ (n : ℕ). get_or src n 0) (omega arith) in
          rw e (is ∙ ground (arith, index, loads here))
      | inr n ↦ let away : a / sector_size ≢ pos / sector_size = ground arith in rw n (ground arith)
    ]

module _ {W : Type 0} (driver : Driver W) (sector : W → ℕ → Bytes)
    (law : IsReliable driver sector) where
  -- One round, on a drive that answers.
  write-round :
      (fuel pos byte : ℕ) (bytes : List ℕ) (dev : Ata W)
      → Fits pos (length (byte ∷ bytes))
      → pos + chunk (length (byte ∷ bytes)) < 2 ^ 32
      → let k = chunk (length (byte ∷ bytes)) in
        (dev' : Ata W) × ((write_loop driver (suc fuel) pos (byte ∷ bytes) dev
            ≡ write_loop driver fuel (pos + k) (drop k (byte ∷ bytes)) dev')
          × ((a : ℕ)
              → byte_at sector dev'.drive a
                ≡ patched (byte_at sector dev.drive) pos (take k (byte ∷ bytes)) a))
  unfolding write_loop
  write-round fuel pos byte bytes dev fits small =
      let k = chunk (length (byte ∷ bytes)) in
      let bounds = chunk_bounds (length bytes) in
      let inside = Fits-chunk pos (length bytes) fits in
      let wrap : (pos + k) % 2 ^ 32 ≡ pos + k = omega arith in
      let size = length-take k (byte ∷ bytes) bounds.0 in
      let loaded = (driver.ata_read (pos / sector_size) dev).1 in
      let (buffer, (copied, is)) =
        copy_in-patched (take k (byte ∷ bytes)) (pos % sector_size) loaded.buffer
          (omega (arith, size)) in
      let stored = record loaded { buffer = buffer } in
      (
        (driver.ata_write (pos / sector_size) stored).1,
        (
          rw (
            law.read_done (pos / sector_size) dev,
            copied,
            law.write_done (pos / sector_size) stored,
            wrap,
          ),
          λ a.
              law.write_sector (pos / sector_size) stored (a / sector_size) (a % sector_size)
                (omega arith)
              ∙ patched-sector loaded.buffer pos (take k (byte ∷ bytes)) a
                  (buffer (a % sector_size))
                  (sector loaded.drive (a / sector_size) (a % sector_size)) (omega (arith, size))
                  (is (a % sector_size))
                  (λ e.
                    law.read_buffer (pos / sector_size) dev (a % sector_size) (omega arith)
                    ∙ sym (
                        law.read_keeps (pos / sector_size) dev (pos / sector_size)
                          (a % sector_size))
                    ∙ ap (λ (l : ℕ). sector loaded.drive l (a % sector_size)) (sym e))
              ∙ ap
                  (λ (o : ℕ).
                    if leb pos a && ltb a (pos + length (take k (byte ∷ bytes)))
                    then get_or (take k (byte ∷ bytes)) (a - pos) 0
                    else o)
                  (law.read_keeps (pos / sector_size) dev (a / sector_size) (a % sector_size)),
        ),
      )

  write_loop-patched :
      (fuel pos : ℕ) (bytes : List ℕ) (dev : Ata W)
      → Fits pos (length bytes)
      → pos + length bytes < 2 ^ 32
      → length bytes ≤ fuel
      → (dev' : Ata W) × ((write_loop driver fuel pos bytes dev
            ≡ some (0, pos + length bytes, dev'))
          × ((a : ℕ)
              → byte_at sector dev'.drive a ≡ patched (byte_at sector dev.drive) pos bytes a))
  write_loop-patched fuel pos [] dev fits small enough =
      let back : pos + 0 ≡ pos = omega arith in
      (dev, (unfold write_loop in rw back, λ a. ground arith))
  write_loop-patched zero pos (byte ∷ bytes) dev fits small enough = absurd (omega arith)
  write_loop-patched (suc fuel) pos (byte ∷ bytes) dev fits small enough =
      let k = chunk (length (byte ∷ bytes)) in
      let bounds = chunk_bounds (length bytes) in
      let (mid, (round, wrote)) =
        write-round fuel pos byte bytes dev fits (omega (arith, bounds.0)) in
      let left = length-drop k (byte ∷ bytes) in
      let fits' : Fits (pos + k) (length (drop k (byte ∷ bytes))) =
        rw left (Fits-next pos (length bytes) fits) in
      let (last, (rest, writes)) =
        write_loop-patched fuel (pos + k) (drop k (byte ∷ bytes)) mid fits'
          (omega (arith, bounds.0, left)) (omega (arith, bounds.1, bounds.0, left)) in
      let final : pos + k + length (drop k (byte ∷ bytes)) ≡ pos + length (byte ∷ bytes) =
        omega (arith, bounds.0, left) in
      (
        last,
        (
          round ∙ rest ∙ ap (λ (n : ℕ). some (0, n, last)) final,
          λ a.
              writes a
              ∙ patched-pieces (byte_at sector dev.drive) (byte_at sector mid.drive) pos k
                  (byte ∷ bytes) a bounds.0 (wrote a),
        ),
      )

  -- From a sector boundary, or inside one sector, `stream_write` answers 0, leaves its bytes on the
  -- disk from the position on and every other byte of the disk as it was, and moves behind them.
  pub stream_write-patched :
      (pos : ℕ) (bytes : List ℕ) (dev : Ata W)
      → Fits pos (length bytes)
      → pos + length bytes < 2 ^ 32
      → (dev' : Ata W) × ((stream_write driver pos bytes dev ≡ some (0, pos + length bytes, dev'))
          × ((a : ℕ)
              → byte_at sector dev'.drive a ≡ patched (byte_at sector dev.drive) pos bytes a))
  unfolding stream_write
  stream_write-patched pos bytes dev fits small =
      write_loop-patched (length bytes) pos bytes dev fits small (omega arith)
