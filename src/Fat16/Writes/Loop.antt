-- ===== src/Fat16/Writes/Loop.antt =====
-- What the loop of `fat16_write` leaves in the clusters of a chain that is long enough.
use icariusos.Base.{
  ℕ, zero, suc, ◌+◌, ◌-◌, ◌%◌, ◌^◌, ◌<◌, ◌≤◌, ◌≡◌, ◌⊎◌, inl, inr, refl, sym, ap, ◌∙◌, arith, Bool,
  true, false, ◌&&◌, List, [], ◌∷◌, ◌++◌, length, take, drop, get_or, All, some, ltb, leb,
}
use icariusos.Libc.Blocks.{Bytes}
use icariusos.Stream.Interface.{Driver, Ata, IsReliable, byte_at}
use icariusos.Stream.Reads.{bytes_from}
use icariusos.Stream.Writes.{patched, stream_write-patched, length-take, length-drop}
use icariusos.Fat16.Layout.{Bpb, partition_offset}
use icariusos.Fat16.Table.{end_of_chain, get_next_cluster}
use icariusos.Fat16.Table.Entries.{IsSane, entry_pos, entry_of, entry, get_next_cluster-sectors}
use icariusos.Fat16.Files.{max_cluster_size_bytes, data_pos}
use icariusos.Fat16.Files.Bytes.{IsNear, data_pos_aligned}
use icariusos.Fat16.Writes.{wrote, portion, next_or_new, write_clusters}

-- A position outside a cluster, and clusters that do not overlap.
abbrev pub Outside : Bpb → ℕ → ℕ → Type 0
Outside bpb a c = (a < data_pos bpb c) ⊎ (data_pos bpb c + max_cluster_size_bytes bpb ≤ a)

abbrev pub Apart : Bpb → ℕ → ℕ → Type 0
Apart bpb c d =
    (data_pos bpb c + max_cluster_size_bytes bpb ≤ data_pos bpb d)
    ⊎ (data_pos bpb d + max_cluster_size_bytes bpb ≤ data_pos bpb c)

abbrev pub AllApart : Bpb → List ℕ → Type 0
AllApart bpb [] = Unit
AllApart bpb (c ∷ cs) = All (Apart bpb c) cs × AllApart bpb cs

-- A cluster of the data area: behind the file allocation table, and below 4 GB.
abbrev pub IsBehind : Bpb → ℕ → Type 0
IsBehind bpb c = (entry_pos bpb (2 ^ 16) ≤ data_pos bpb c) × IsNear bpb c

-- The bytes that a patch has put down.
pub bytes_from-get_or :
    (b : Bytes) (pos : ℕ) (bytes : List ℕ)
    → ((i : ℕ) → i < length bytes → b (pos + i) ≡ get_or bytes i 0)
    → bytes_from b pos (length bytes) ≡ bytes
bytes_from-get_or b pos [] h = refl
bytes_from-get_or b pos (x ∷ xs) h =
    let here : pos + 0 ≡ pos = omega arith in
    let first : b pos ≡ x = sym (ap b here) ∙ h 0 (omega arith) in
    let rest : (i : ℕ) → i < length xs → b (pos + 1 + i) ≡ get_or xs i 0 = λ i lt.
      let there : pos + 1 + i ≡ pos + suc i = omega arith in ap b there ∙ h (suc i) (omega arith) in
    rw (first, bytes_from-get_or b (pos + 1) xs rest)

pub patched-inside :
    (b : Bytes) (pos : ℕ) (bytes : List ℕ) (i : ℕ)
    → i < length bytes
    → patched b pos bytes (pos + i) ≡ get_or bytes i 0
patched-inside b pos bytes i lt =
    let inside : (leb pos (pos + i) && ltb (pos + i) (pos + length bytes)) ≡ true = ground arith in
    let back : pos + i - pos ≡ i = omega arith in rw (inside, back)

pub patched-outside :
    (b : Bytes) (pos : ℕ) (bytes : List ℕ) (a : ℕ)
    → (a < pos) ⊎ (pos + length bytes ≤ a)
    → patched b pos bytes a ≡ b a
patched-outside b pos bytes a (inl below) =
    let outside : (leb pos a && ltb a (pos + length bytes)) ≡ false = ground arith in rw outside
patched-outside b pos bytes a (inr above) =
    let outside : (leb pos a && ltb a (pos + length bytes)) ≡ false = ground arith in rw outside

pub take-drop : (k : ℕ) (l : List ℕ) → take k l ++ drop k l ≡ l
take-drop zero l = refl
take-drop (suc k) [] = refl
take-drop (suc k) (x ∷ l) = ap (λ t. x ∷ t) (take-drop k l)

drop-all : (l : List ℕ) → drop (length l) l ≡ []
drop-all [] = refl
drop-all (x ∷ l) = drop-all l

pub take-all : (l : List ℕ) → take (length l) l ≡ l
take-all [] = refl
take-all (x ∷ l) = ap (λ t. x ∷ t) (take-all l)

portion-fits : (size n : ℕ) → n ≤ size → portion (size - 0) n ≡ n
portion-fits size n fits = let more : ltb (size - 0) n ≡ false = ground arith in rw more

portion-over : (size n : ℕ) → size < n → portion (size - 0) n ≡ size
portion-over size n over =
    let more : ltb (size - 0) n ≡ true = ground arith in rw more (omega arith)

and_false : (b : Bool) → (b && false) ≡ false
and_false true = refl
and_false false = refl

module _ {W : Type 0} (driver : Driver W) (sector : W → ℕ → Bytes) (law : IsReliable driver sector)
    (bpb : Bpb) (sane : IsSane bpb) where
  abbrev table : W → ℕ → ℕ
  table w = entry driver sector law bpb sane w

  -- Bytes of the data area do not change the table.
  pub table-behind :
      (c : ℕ) (w w' : W) (bytes : List ℕ)
      → IsBehind bpb c
      → ((a : ℕ) → byte_at sector w' a ≡ patched (byte_at sector w) (data_pos bpb c) bytes a)
      → (x : ℕ) → x < 2 ^ 16
      → table w' x ≡ table w x
  unfolding entry_of
  table-behind c w w' bytes (behind, near) is x small =
      let low =
        is (entry_pos bpb x)
        ∙ patched-outside (byte_at sector w) (data_pos bpb c) bytes _ (inl (omega arith)) in
      let high =
        is (entry_pos bpb x + 1)
        ∙ patched-outside (byte_at sector w) (data_pos bpb c) bytes _ (inl (omega arith)) in
      rw (low, high)

  next_or_new-link :
      (additional c d : ℕ) (dev dev1 : Ata W)
      → d < end_of_chain
      → get_next_cluster driver bpb partition_offset c dev ≡ some (d, dev1)
      → next_or_new driver bpb additional c dev ≡ some (some d, dev1)
  unfolding next_or_new
  next_or_new-link additional c d dev dev1 lt gets =
      let go : leb end_of_chain d ≡ false = ground arith in rw (gets, go)

  -- The last round, where the bytes fit in the cluster.
  pub write-last :
      (fuel additional c byte : ℕ) (bytes : List ℕ) (dev : Ata W)
      → length (byte ∷ bytes) ≤ max_cluster_size_bytes bpb
      → IsNear bpb c
      → (dev1 : Ata W) × (write_clusters driver bpb (suc fuel) additional c 0 (byte ∷ bytes) dev
          ≡ some (wrote c, dev1))
        × ((a : ℕ)
            → byte_at sector dev1.drive a
              ≡ patched (byte_at sector dev.drive) (data_pos bpb c) (byte ∷ bytes) a)
  unfolding write_clusters
  write-last fuel additional c byte bytes dev fits near =
      let l = byte ∷ bytes in
      let (dev1, (writes, is)) =
        stream_write-patched driver sector law (data_pos bpb c) l dev
          (inl (data_pos_aligned bpb c sane)) (omega arith) in
      let size = max_cluster_size_bytes bpb in
      let whole : portion (size - 0) (length l) ≡ length l = portion-fits size (length l) fits in
      let last = and_false (leb size (0 + length l)) in
      let here : (data_pos bpb c + 0) % 2 ^ 32 ≡ data_pos bpb c = omega arith in
      (dev1, rw (whole, here, take-all l, drop-all l, writes, last), is)

  -- A round that fills the cluster.
  pub write-next :
      (fuel additional c d byte : ℕ) (bytes : List ℕ) (dev : Ata W)
      → max_cluster_size_bytes bpb < length (byte ∷ bytes)
      → c < 2 ^ 16
      → IsBehind bpb c
      → table dev.drive c ≡ d
      → d < end_of_chain
      → let k = max_cluster_size_bytes bpb in
        (dev2 : Ata W) × (write_clusters driver bpb (suc fuel) additional c 0 (byte ∷ bytes) dev
          ≡ write_clusters driver bpb fuel additional d 0 (drop k (byte ∷ bytes)) dev2)
        × ((a : ℕ)
            → byte_at sector dev2.drive a
              ≡ patched (byte_at sector dev.drive) (data_pos bpb c) (take k (byte ∷ bytes)) a)
  unfolding write_clusters
  write-next fuel additional c d byte bytes dev over small (behind, near) e lt =
      let l = byte ∷ bytes in
      let size = max_cluster_size_bytes bpb in
      let long : length (take size l) ≡ size = length-take size l (omega arith) in
      let (dev1, (writes, is)) =
        stream_write-patched driver sector law (data_pos bpb c) (take size l) dev
          (inl (data_pos_aligned bpb c sane)) (omega (arith, long)) in
      let (dev2, (gets, keeps)) =
        get_next_cluster-sectors driver sector law bpb sane c dev1 small in
      let same = table-behind c dev.drive dev1.drive (take size l) (behind, near) is c small in
      let follows = gets ∙ ap (λ (n : ℕ). some (n, dev2)) (same ∙ e) in
      let whole : portion (size - 0) (length l) ≡ size = portion-over size (length l) over in
      let here : (data_pos bpb c + 0) % 2 ^ 32 ≡ data_pos bpb c = omega arith in
      let full : leb size (0 + size) ≡ true = ground arith in
      let left : ltb 0 (length (drop size l)) ≡ true = ground (arith, length-drop size l) in
      (
        dev2,
        rw (whole, here, writes, full, left, next_or_new-link additional c d dev1 dev2 lt follows)
            (ap (λ (n : ℕ). write_clusters driver bpb fuel additional d 0 (drop n l) dev2) whole),
        λ a. keeps _ _ ∙ is a,
      )
