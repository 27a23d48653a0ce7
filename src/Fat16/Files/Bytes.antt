-- ===== src/Fat16/Files/Bytes.antt =====
-- The bytes of a chain of clusters.
use icariusos.Base.{
  ℕ, suc, ◌+◌, ◌-◌, ◌%◌, ◌^◌, ◌<◌, ◌≤◌, ◌≡◌, refl, ap₂, arith, Bool-cases, List, [], ◌∷◌, ◌++◌,
  append_assoc, append-nil, length, length-append, Option, some, ltb, inl, inr,
}
use icariusos.Libc.Blocks.{Bytes}
use icariusos.Stream.Interface.{Ata, sector_size}
use icariusos.Stream.Reads.{bytes_from, bytes_from-eq}
use icariusos.Fat16.Layout.{Bpb}
use icariusos.Fat16.Table.Entries.{IsSane}
use icariusos.Fat16.Files.{max_cluster_size_bytes, data_pos, share}

-- The first `n` bytes of the clusters of a list, as far as these go.
abbrev pub chain_bytes : Bpb → Bytes → List ℕ → ℕ → List ℕ
chain_bytes bpb b [] n = []
chain_bytes bpb b (c ∷ cs) n =
    bytes_from b (data_pos bpb c) (share (max_cluster_size_bytes bpb) n)
    ++ chain_bytes bpb b cs (n - share (max_cluster_size_bytes bpb) n)

-- The bytes of a cluster are below 4 GB.
abbrev pub IsNear : Bpb → ℕ → Type 0
IsNear bpb c = data_pos bpb c + max_cluster_size_bytes bpb < 2 ^ 32

pub share_bounds :
    (size r : ℕ)
    → 0 < size
    → (share size (suc r) ≤ suc r) × (0 < share size (suc r)) × (share size (suc r) ≤ size)
share_bounds size r positive = elim (Bool-cases (ltb (suc r) size)) [
  | inl e ↦ rw e (ground arith, ground arith, ground arith)
  | inr n ↦ rw n (ground arith, ground arith, ground arith)
]

pub chain_bytes-zero : (bpb : Bpb) (b : Bytes) (cs : List ℕ) → chain_bytes bpb b cs 0 ≡ []
chain_bytes-zero bpb b [] = refl
chain_bytes-zero bpb b (c ∷ cs) = elim (Bool-cases (ltb 0 (max_cluster_size_bytes bpb))) [
  | inl e ↦ rw e (chain_bytes-zero bpb b cs)
  | inr n ↦
      let none : max_cluster_size_bytes bpb ≡ 0 = ground arith in
      rw (n, none) (chain_bytes-zero bpb b cs)
]

-- A cluster begins at a sector.
pub data_pos_aligned : (bpb : Bpb) (c : ℕ) → IsSane bpb → data_pos bpb c % sector_size ≡ 0
unfolding data_pos
data_pos_aligned bpb c sane = rw (sane.sector_bytes) (omega arith)

pub chain_bytes-eq :
    (bpb : Bpb) (b b' : Bytes) (cs : List ℕ) (n : ℕ)
    → ((a : ℕ) → b' a ≡ b a)
    → chain_bytes bpb b' cs n ≡ chain_bytes bpb b cs n
chain_bytes-eq bpb b b' [] n same = refl
chain_bytes-eq bpb b b' (c ∷ cs) n same =
    let size = share (max_cluster_size_bytes bpb) n in
    ap₂ (λ (x y : List ℕ). x ++ y)
      (bytes_from-eq b' b (data_pos bpb c) (data_pos bpb c) size (λ i lt. same _))
      (chain_bytes-eq bpb b b' cs (n - size) same)

-- The outcome of the loop once it has read some more bytes.
abbrev pub finished :
    {W : Type 0} → ℕ → ℕ → List ℕ → List ℕ → Ata W → Option (ℕ × ℕ × List ℕ × Ata W)
finished bytes_read pos out bytes dev =
    some (bytes_read + length bytes, pos + length bytes, out ++ bytes, dev)

pub finished-nil :
    {W : Type 0} (bytes_read pos : ℕ) (out : List ℕ) (dev : Ata W)
    → finished bytes_read pos out [] dev ≡ some (bytes_read, pos, out, dev)
finished-nil bytes_read pos out dev =
    let read : bytes_read + 0 ≡ bytes_read = omega arith in
    let moved : pos + 0 ≡ pos = omega arith in rw (read, moved, append-nil out)

pub finished-append :
    {W : Type 0} (bytes_read pos k : ℕ) (out xs ys : List ℕ) (dev : Ata W)
    → length xs ≡ k
    → finished (bytes_read + k) (pos + k) (out ++ xs) ys dev
      ≡ finished bytes_read pos out (xs ++ ys) dev
finished-append bytes_read pos k out xs ys dev long =
    let read : bytes_read + k + length ys ≡ bytes_read + length (xs ++ ys) =
      omega (arith, length-append xs ys) in
    let moved : pos + k + length ys ≡ pos + length (xs ++ ys) =
      omega (arith, length-append xs ys) in
    rw (read, moved, append_assoc out xs ys)
