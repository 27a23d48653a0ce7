-- ===== src/Stream/Reads.antt =====
-- What a read brings: the bytes of the disk, where it does not run over the end of a sector.
use icariusos.Base.{
  ℕ, zero, suc, ◌+◌, ◌-◌, ◌/◌, ◌%◌, ◌^◌, ◌<◌, ◌≤◌, ◌≡◌, ◌⊎◌, inl, inr, refl, sym, ap, ap₂, ◌∙◌,
  arith, Bool-cases, true, false, List, [], ◌∷◌, ◌++◌, append_assoc, append-nil, length, none, some,
  ltb,
}
use icariusos.Libc.Blocks.{Bytes}
use icariusos.Stream.{copy_out, chunk, read_loop, stream_read}
use icariusos.Stream.Interface.{Driver, Ata, sector_size, IsReliable, byte_at}

-- The `n` bytes from a position on.
abbrev pub bytes_from : Bytes → ℕ → ℕ → List ℕ
bytes_from b pos zero = []
bytes_from b pos (suc n) = b pos ∷ bytes_from b (pos + 1) n

pub length-bytes_from : (b : Bytes) (pos n : ℕ) → length (bytes_from b pos n) ≡ n
length-bytes_from b pos zero = refl
length-bytes_from b pos (suc n) = ap suc (length-bytes_from b (pos + 1) n)

pub bytes_from-add :
    (b : Bytes) (pos n k : ℕ)
    → bytes_from b pos (n + k) ≡ bytes_from b pos n ++ bytes_from b (pos + n) k
bytes_from-add b pos zero k =
    let here : 0 + k ≡ k = omega arith in
    let there : pos + 0 ≡ pos = omega arith in rw (here, there)
bytes_from-add b pos (suc n) k =
    let more : suc n + k ≡ suc (n + k) = omega arith in
    let there : pos + suc n ≡ pos + 1 + n = omega arith in
    rw (more, there, bytes_from-add b (pos + 1) n k)

pub bytes_from-eq :
    (b c : Bytes) (p q n : ℕ)
    → ((i : ℕ) → i < n → b (p + i) ≡ c (q + i))
    → bytes_from b p n ≡ bytes_from c q n
bytes_from-eq b c p q zero h = refl
bytes_from-eq b c p q (suc n) h =
    let p0 : p + 0 ≡ p = omega arith in
    let q0 : q + 0 ≡ q = omega arith in
    let first : b p ≡ c q = sym (ap b p0) ∙ h 0 (omega arith) ∙ ap c q0 in
    let rest : (i : ℕ) → i < n → b (p + 1 + i) ≡ c (q + 1 + i) = λ i lt.
      let p1 : p + 1 + i ≡ p + suc i = omega arith in
      let q1 : q + 1 + i ≡ q + suc i = omega arith in rw (p1, q1) (h (suc i) (omega arith)) in
    rw (first, bytes_from-eq b c (p + 1) (q + 1) n rest)

-- The copy stays in the buffer, or faults.
pub copy_out-inside :
    (rounds at : ℕ) (b : Bytes)
    → at + rounds ≤ sector_size
    → copy_out rounds at b ≡ some (bytes_from b at rounds)
unfolding copy_out
copy_out-inside zero at b fits = refl
copy_out-inside (suc rounds) at b fits =
    let inside : ltb at sector_size ≡ true = ground arith in
    rw (inside, copy_out-inside rounds (at + 1) b (omega arith))

pub copy_out-outside :
    (rounds at : ℕ) (b : Bytes)
    → sector_size < at + rounds
    → at ≤ sector_size
    → copy_out rounds at b ≡ none
unfolding copy_out
copy_out-outside zero at b over within = absurd (omega arith)
copy_out-outside (suc rounds) at b over within = ground (arith, copy_out-outside rounds (at + 1) b)

pub chunk_bounds :
    (r : ℕ)
    → (chunk (suc r) ≤ suc r)
      × (0 < chunk (suc r))
      × (chunk (suc r) ≤ sector_size)
      × ((chunk (suc r) ≡ sector_size) ⊎ (chunk (suc r) ≡ suc r))
chunk_bounds r = elim (Bool-cases (ltb sector_size (suc r))) [
  | inl e ↦ rw e (ground arith, ground arith, ground arith, inl refl)
  | inr n ↦ rw n (ground arith, ground arith, ground arith, inr refl)
]

-- A position from which `n` bytes can be taken without running over the end of a sector.
abbrev pub Fits : ℕ → ℕ → Type 0
Fits pos n = (pos % sector_size ≡ 0) ⊎ (pos % sector_size + n ≤ sector_size)

pub Fits-chunk : (pos r : ℕ) → Fits pos (suc r) → pos % sector_size + chunk (suc r) ≤ sector_size
Fits-chunk pos r (inl aligned) = let bounds = chunk_bounds r in omega (arith, bounds.2)
Fits-chunk pos r (inr inside) = let bounds = chunk_bounds r in omega (arith, bounds.0)

Fits-step :
    (pos n k : ℕ) → k ≤ n → (k ≡ sector_size) ⊎ (k ≡ n) → Fits pos n → Fits (pos + k) (n - k)
Fits-step pos n k le (inl whole) (inl aligned) = inl (omega arith)
Fits-step pos n k le (inl whole) (inr inside) = inl (omega arith)
Fits-step pos n k le (inr all) fits = inr (omega arith)

pub Fits-next : (pos r : ℕ) → Fits pos (suc r) → Fits (pos + chunk (suc r)) (suc r - chunk (suc r))
Fits-next pos r fits =
    let bounds = chunk_bounds r in Fits-step pos (suc r) (chunk (suc r)) bounds.0 bounds.3 fits

module _ {W : Type 0} (driver : Driver W) (sector : W → ℕ → Bytes)
    (law : IsReliable driver sector) where
  -- One sector's bytes, in the buffer after the transfer.
  loaded-bytes :
      (pos k : ℕ) (dev : Ata W)
      → pos % sector_size + k ≤ sector_size
      → bytes_from (driver.ata_read (pos / sector_size) dev).1.buffer (pos % sector_size) k
        ≡ bytes_from (byte_at sector dev.drive) pos k
  loaded-bytes pos k dev fits =
      bytes_from-eq _ (byte_at sector dev.drive) (pos % sector_size) pos k (λ i lt.
        let here : (pos + i) / sector_size ≡ pos / sector_size = omega arith in
        let there : (pos + i) % sector_size ≡ pos % sector_size + i = omega arith in
        rw (here, there)
          (law.read_buffer (pos / sector_size) dev (pos % sector_size + i) (omega arith)))

  -- One round that the drive answers.
  read-round :
      (fuel pos r : ℕ) (out : List ℕ) (dev : Ata W)
      → Fits pos (suc r)
      → pos + chunk (suc r) < 2 ^ 32
      → read_loop driver (suc fuel) pos (suc r) out dev
        ≡ read_loop driver fuel
            (pos + chunk (suc r))
            (suc r - chunk (suc r))
            (out ++ bytes_from (byte_at sector dev.drive) pos (chunk (suc r)))
            (driver.ata_read (pos / sector_size) dev).1
  unfolding read_loop
  read-round fuel pos r out dev fits small =
      let k = chunk (suc r) in
      let inside = Fits-chunk pos r fits in
      let wrap : (pos + k) % 2 ^ 32 ≡ pos + k = omega arith in
      let loaded : copy_out k (pos % sector_size) (driver.ata_read (pos / sector_size) dev).1.buffer
          ≡ some (bytes_from (byte_at sector dev.drive) pos k) =
        copy_out-inside k (pos % sector_size) _ inside ∙ ap some (loaded-bytes pos k dev inside) in
      rw (law.read_done (pos / sector_size) dev, loaded, wrap)

  read_loop-bytes :
      (fuel pos remaining : ℕ) (out : List ℕ) (dev : Ata W)
      → Fits pos remaining
      → pos + remaining < 2 ^ 32
      → remaining ≤ fuel
      → (dev' : Ata W) × ((read_loop driver fuel pos remaining out dev
            ≡ some (
              0,
              out ++ bytes_from (byte_at sector dev.drive) pos remaining,
              pos + remaining,
              dev',
            ))
          × ((l i : ℕ) → sector dev'.drive l i ≡ sector dev.drive l i))
  read_loop-bytes fuel pos zero out dev fits small enough =
      let back : pos + 0 ≡ pos = omega arith in
      (dev, (unfold read_loop in rw (append-nil, back), λ l i. refl))
  read_loop-bytes zero pos (suc r) out dev fits small enough = absurd (omega arith)
  read_loop-bytes (suc fuel) pos (suc r) out dev fits small enough =
      let k = chunk (suc r) in
      let bounds = chunk_bounds r in
      let dev' = (driver.ata_read (pos / sector_size) dev).1 in
      let (last, (rest, keeps)) =
        read_loop-bytes fuel (pos + k) (suc r - k)
          (out ++ bytes_from (byte_at sector dev.drive) pos k) dev' (Fits-next pos r fits)
          (omega (arith, bounds.0)) (omega (arith, bounds.0, bounds.1)) in
      let whole : k + (suc r - k) ≡ suc r = omega (arith, bounds.0) in
      let same : (out ++ bytes_from (byte_at sector dev.drive) pos k)
            ++ bytes_from (byte_at sector dev'.drive) (pos + k) (suc r - k)
          ≡ out ++ bytes_from (byte_at sector dev.drive) pos (suc r) =
        ap (λ l. (out ++ bytes_from (byte_at sector dev.drive) pos k) ++ l)
          (bytes_from-eq _ _ (pos + k) (pos + k) (suc r - k)
            (λ i lt. law.read_keeps (pos / sector_size) dev _ _))
        ∙ append_assoc out _ _
        ∙ ap (λ l. out ++ l)
            (sym (bytes_from-add (byte_at sector dev.drive) pos k (suc r - k))
              ∙ ap (bytes_from (byte_at sector dev.drive) pos) whole) in
      let final : pos + k + (suc r - k) ≡ pos + suc r = omega (arith, bounds.0) in
      (
        last,
        (
          read-round fuel pos r out dev fits (omega (arith, bounds.0))
              ∙ rest
              ∙ ap₂ (λ l (n : ℕ). some (0, l, n, last)) same final,
          λ l i. keeps l i ∙ law.read_keeps (pos / sector_size) dev l i,
        ),
      )

  -- From a sector boundary, or inside one sector, `stream_read` answers 0 and brings the bytes that
  -- stand on the disk from the position on, moves behind them, and leaves the disk as it is.
  pub stream_read-bytes :
      (pos n : ℕ) (dev : Ata W)
      → Fits pos n
      → pos + n < 2 ^ 32
      → (dev' : Ata W) × ((stream_read driver pos n dev
            ≡ some (0, bytes_from (byte_at sector dev.drive) pos n, pos + n, dev'))
          × ((l i : ℕ) → sector dev'.drive l i ≡ sector dev.drive l i))
  unfolding stream_read
  stream_read-bytes pos n dev fits small = read_loop-bytes n pos n [] dev fits small (omega arith)

  -- A read of at most a sector's bytes that runs over the end of a sector reads behind the buffer.
  pub stream_read-crosses :
      (pos n : ℕ) (dev : Ata W)
      → n ≤ sector_size
      → sector_size < pos % sector_size + n
      → stream_read driver pos n dev ≡ none
  unfolding stream_read read_loop
  stream_read-crosses pos zero dev le over = absurd (omega arith)
  stream_read-crosses pos (suc n) dev le over =
      let whole : ltb sector_size (suc n) ≡ false = ground arith in
      let faults : copy_out (suc n) (pos % sector_size)
            (driver.ata_read (pos / sector_size) dev).1.buffer
          ≡ none =
        copy_out-outside (suc n) (pos % sector_size) _ over (omega arith) in
      rw (law.read_done (pos / sector_size) dev, whole, faults)
