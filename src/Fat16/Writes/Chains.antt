-- ===== src/Fat16/Writes/Chains.antt =====
-- A chain of clusters that is written over: what its clusters hold then, and what stays as it was.
use icariusos.Base.{
  ℕ, zero, suc, ◌+◌, ◌-◌, ◌^◌, ◌<◌, ◌≤◌, ◌≡◌, inl, inr, refl, sym, ap, ap₂, ◌∙◌, arith, Bool-cases,
  false, List, [], ◌∷◌, ◌++◌, append-nil, length, take, drop, get_or, All, All-map, some, ltb, leb,
}
use icariusos.Libc.Blocks.{Bytes}
use icariusos.Stream.Interface.{Driver, Ata, IsReliable, byte_at}
use icariusos.Stream.Reads.{bytes_from}
use icariusos.Stream.Writes.{patched, length-take, length-drop}
use icariusos.Fat16.Layout.{Bpb}
use icariusos.Fat16.Table.Entries.{IsSane, entry}
use icariusos.Fat16.Table.Chains.{Chain, link, Chain-eq}
use icariusos.Fat16.Files.{max_cluster_size_bytes, data_pos, share}
use icariusos.Fat16.Files.Bytes.{IsNear, chain_bytes, chain_bytes-zero}
use icariusos.Fat16.Writes.{wrote, write_clusters}
use icariusos.Fat16.Writes.Loop.{
  Outside, Apart, AllApart, IsBehind, bytes_from-get_or, patched-inside, patched-outside, take-drop,
  table-behind, write-last, write-next,
}

-- The bytes that the clusters of a list have room for.
abbrev pub room : ℕ → List ℕ → ℕ
room size [] = 0
room size (c ∷ cs) = size + room size cs

share-fits : (size n : ℕ) → n ≤ size → share size n ≡ n
share-fits size n fits = elim (Bool-cases (ltb n size)) [
  | inl e ↦ rw e
  | inr m ↦ rw m (ground arith)
]

share-over : (size n : ℕ) → size < n → share size n ≡ size
share-over size n over = let more : ltb n size ≡ false = ground arith in rw more

pub Chain-small :
    (t : ℕ → ℕ) (c : ℕ) (ds : List ℕ) → c < 2 ^ 16 → Chain t c ds → All (λ x. x < 2 ^ 16) (c ∷ ds)
Chain-small t c [] small chain = (small, tt)
Chain-small t c (d ∷ ds) small (link _ _ _ e lt chain) =
    (small, Chain-small t d ds (omega arith) chain)

-- A position inside a cluster is outside those apart from it.
Apart-Outside :
    (bpb : Bpb) (c i : ℕ)
    → i < max_cluster_size_bytes bpb
    → (d : ℕ) → Apart bpb c d
    → Outside bpb (data_pos bpb c + i) d
Apart-Outside bpb c i lt d (inl before) = inl (omega arith)
Apart-Outside bpb c i lt d (inr behind) = inr (omega arith)

Outside-patch :
    (bpb : Bpb) (b b' : Bytes) (c : ℕ) (bytes : List ℕ) (a : ℕ)
    → length bytes ≤ max_cluster_size_bytes bpb
    → ((x : ℕ) → b' x ≡ patched b (data_pos bpb c) bytes x)
    → Outside bpb a c
    → b' a ≡ b a
Outside-patch bpb b b' c bytes a fits is (inl below) =
    is a ∙ patched-outside b (data_pos bpb c) bytes a (inl below)
Outside-patch bpb b b' c bytes a fits is (inr above) =
    is a ∙ patched-outside b (data_pos bpb c) bytes a (inr (omega arith))

-- The first cluster of a chain, and the rest of it.
chain_bytes-last :
    (bpb : Bpb) (b : Bytes) (c : ℕ) (ds bytes : List ℕ)
    → length bytes ≤ max_cluster_size_bytes bpb
    → ((i : ℕ) → i < length bytes → b (data_pos bpb c + i) ≡ get_or bytes i 0)
    → chain_bytes bpb b (c ∷ ds) (length bytes) ≡ bytes
chain_bytes-last bpb b c ds bytes fits holds =
    let size = max_cluster_size_bytes bpb in
    let all = share-fits size (length bytes) fits in
    let nothing : length bytes - length bytes ≡ 0 = omega arith in
    ap (λ (n : ℕ). bytes_from b (data_pos bpb c) n ++ chain_bytes bpb b ds (length bytes - n)) all
    ∙ ap₂ (λ (x y : List ℕ). x ++ y) (bytes_from-get_or b (data_pos bpb c) bytes holds)
        (ap (chain_bytes bpb b ds) nothing ∙ chain_bytes-zero bpb b ds)
    ∙ append-nil bytes

chain_bytes-next :
    (bpb : Bpb) (b : Bytes) (c : ℕ) (ds bytes : List ℕ)
    → let size = max_cluster_size_bytes bpb in
      size < length bytes
      → ((i : ℕ) → i < size → b (data_pos bpb c + i) ≡ get_or (take size bytes) i 0)
      → chain_bytes bpb b ds (length (drop size bytes)) ≡ drop size bytes
      → chain_bytes bpb b (c ∷ ds) (length bytes) ≡ bytes
chain_bytes-next bpb b c ds bytes over holds rest =
    let size = max_cluster_size_bytes bpb in
    let all = share-over size (length bytes) over in
    let long : length (take size bytes) ≡ size = length-take size bytes (omega arith) in
    let first : bytes_from b (data_pos bpb c) size ≡ take size bytes =
      ap (bytes_from b (data_pos bpb c)) (sym long)
      ∙ bytes_from-get_or b (data_pos bpb c) (take size bytes) (λ i lt. holds i (omega arith)) in
    ap (λ (n : ℕ). bytes_from b (data_pos bpb c) n ++ chain_bytes bpb b ds (length bytes - n)) all
    ∙ ap₂ (λ (x y : List ℕ). x ++ y) first
        (ap (chain_bytes bpb b ds) (sym (length-drop size bytes)) ∙ rest)
    ∙ take-drop size bytes

module _ {W : Type 0} (driver : Driver W) (sector : W → ℕ → Bytes) (law : IsReliable driver sector)
    (bpb : Bpb) (sane : IsSane bpb) where
  abbrev table : W → ℕ → ℕ
  table w = entry driver sector law bpb sane w

  -- What the loop guarantees.
  abbrev Rewritten : ℕ → ℕ → ℕ → List ℕ → List ℕ → Ata W → Type 0
  Rewritten fuel additional c cs bytes dev =
      (curr : ℕ) × (dev' : Ata W) × (write_clusters driver bpb fuel additional c 0 bytes dev
        ≡ some (wrote curr, dev'))
      × (chain_bytes bpb (byte_at sector dev'.drive) cs (length bytes) ≡ bytes)
      × ((a : ℕ)
          → All (Outside bpb a) cs
          → byte_at sector dev'.drive a ≡ byte_at sector dev.drive a)

  Rewritten-last :
      (fuel additional c byte : ℕ) (ds bytes : List ℕ) (dev : Ata W)
      → length (byte ∷ bytes) ≤ max_cluster_size_bytes bpb
      → IsNear bpb c
      → Rewritten (suc fuel) additional c (c ∷ ds) (byte ∷ bytes) dev
  Rewritten-last fuel additional c byte ds bytes dev fits near =
      let (dev1, goes, is) =
        write-last driver sector law bpb sane fuel additional c byte bytes dev fits near in
      (
        c,
        dev1,
        goes,
        chain_bytes-last bpb (byte_at sector dev1.drive) c ds (byte ∷ bytes) fits (λ i lt.
            is _ ∙ patched-inside (byte_at sector dev.drive) (data_pos bpb c) (byte ∷ bytes) i lt),
        λ a (outside, rest).
            Outside-patch bpb (byte_at sector dev.drive) (byte_at sector dev1.drive) c
              (byte ∷ bytes) a fits is outside,
      )

  Rewritten-next :
      (fuel additional c d byte : ℕ) (ds bytes : List ℕ) (dev dev2 : Ata W)
      → let size = max_cluster_size_bytes bpb in
        size < length (byte ∷ bytes)
        → All (Apart bpb c) (d ∷ ds)
        → write_clusters driver bpb (suc fuel) additional c 0 (byte ∷ bytes) dev
          ≡ write_clusters driver bpb fuel additional d 0 (drop size (byte ∷ bytes)) dev2
        → ((a : ℕ)
            → byte_at sector dev2.drive a
              ≡ patched (byte_at sector dev.drive) (data_pos bpb c) (take size (byte ∷ bytes)) a)
        → Rewritten fuel additional d (d ∷ ds) (drop size (byte ∷ bytes)) dev2
        → Rewritten (suc fuel) additional c (c ∷ d ∷ ds) (byte ∷ bytes) dev
  Rewritten-next fuel additional c d byte ds bytes dev dev2 over apart goes is
        (curr, dev', ends, holds, keeps) =
      let l = byte ∷ bytes in
      let size = max_cluster_size_bytes bpb in
      let long : length (take size l) ≡ size = length-take size l (omega arith) in
      (
        curr,
        dev',
        goes ∙ ends,
        chain_bytes-next bpb (byte_at sector dev'.drive) c (d ∷ ds) l over
            (λ i lt.
              keeps (data_pos bpb c + i) (
                All-map (Apart bpb c) (Outside bpb (data_pos bpb c + i)) (d ∷ ds)
                  (Apart-Outside bpb c i lt) apart)
              ∙ is _
              ∙ patched-inside (byte_at sector dev.drive) (data_pos bpb c) (take size l) i
                  (omega arith))
            holds,
        λ a (outside, rest).
            keeps a rest
            ∙ Outside-patch bpb (byte_at sector dev.drive) (byte_at sector dev2.drive) c
                (take size l) a (omega arith) is outside,
      )

  -- On a drive that answers, from the beginning of a chain of clusters of the data area which do not
  -- overlap, and which have room for the bytes, the loop of `fat16_write` ends with a cluster that was
  -- written last, the chain's clusters hold the bytes, and every byte outside of them is as it was.
  pub write_clusters-Rewritten :
      (fuel additional c : ℕ) (ds bytes : List ℕ) (dev : Ata W)
      → c < 2 ^ 16
      → Chain (table dev.drive) c ds
      → All (IsBehind bpb) (c ∷ ds)
      → AllApart bpb (c ∷ ds)
      → 0 < max_cluster_size_bytes bpb
      → length bytes ≤ room (max_cluster_size_bytes bpb) (c ∷ ds)
      → length bytes ≤ fuel
      → Rewritten fuel additional c (c ∷ ds) bytes dev
  write_clusters-Rewritten fuel additional c ds [] dev small chain behind apart positive fits
        enough =
      (
        c,
        dev,
        unfold write_clusters in refl,
        chain_bytes-zero bpb (byte_at sector dev.drive) (c ∷ ds),
        λ a outside. refl,
      )
  write_clusters-Rewritten zero additional c ds (byte ∷ bytes) dev small chain behind apart positive
        fits enough =
      absurd (omega arith)
  write_clusters-Rewritten (suc fuel) additional c [] (byte ∷ bytes) dev small chain (behind, rest)
        apart positive fits enough =
      Rewritten-last fuel additional c byte [] bytes dev (omega arith) behind.1
  write_clusters-Rewritten (suc fuel) additional c (d ∷ ds) (byte ∷ bytes) dev small
        (link _ _ _ e lt chain) (behind, rest) (apart, others) positive fits enough =
      let l = byte ∷ bytes in
      let size = max_cluster_size_bytes bpb in
      elim (Bool-cases (leb (length l) size)) [
        | inl all ↦ Rewritten-last fuel additional c byte (d ∷ ds) bytes dev (ground arith) behind.1
        | inr more ↦
            let over : size < length l = ground arith in
            let (dev2, goes, is) =
              write-next driver sector law bpb sane fuel additional c d byte bytes dev over small
                behind e lt in
            let same =
              All-map (λ x. x < 2 ^ 16) (λ x. table dev2.drive x ≡ table dev.drive x) (d ∷ ds)
                (λ x below.
                  table-behind driver sector law bpb sane c dev.drive dev2.drive (take size l)
                    behind is x below)
                (Chain-small (table dev.drive) d ds (omega arith) chain) in
            Rewritten-next fuel additional c d byte ds bytes dev dev2 over apart goes is (
              write_clusters-Rewritten fuel additional d ds (drop size l) dev2 (omega arith)
                (Chain-eq (table dev.drive) (table dev2.drive) d ds same chain) rest others positive
                (omega (arith, length-drop size l)) (omega (arith, length-drop size l)))
      ]
