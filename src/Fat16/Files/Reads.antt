-- ===== src/Fat16/Files/Reads.antt =====
-- What `fat16_read` brings from the beginning of a file: the bytes of its clusters, in the order of
-- the chain.
use icariusos.Base.{
  ℕ, zero, suc, ◌+◌, ◌-◌, ◌*◌, ◌/◌, ◌%◌, ◌^◌, ◌<◌, ◌≤◌, ◌≡◌, refl, sym, ap, ◌∙◌, arith, Bool, true,
  false, List, [], ◌∷◌, ◌++◌, length, All, Option, some, leb, ◌==◌, if◌then◌else◌, inl,
}
use icariusos.Libc.Blocks.{Bytes}
use icariusos.Stream.{stream_read}
use icariusos.Stream.Interface.{Driver, Ata, IsReliable, byte_at}
use icariusos.Stream.Reads.{bytes_from, length-bytes_from, stream_read-bytes}
use icariusos.Fat16.Layout.{Bpb, partition_offset, get_combined_cluster}
use icariusos.Fat16.Table.{end_of_chain, get_next_cluster}
use icariusos.Fat16.Table.Entries.{IsSane, entry, entry-eq, get_next_cluster-sectors}
use icariusos.Fat16.Table.Chains.{Chain, last, link, Chain-same}
use icariusos.Fat16.Entries.{DirEntry, file, get_cluster_from_descriptor}
use icariusos.Fat16.Files.{
  max_cluster_size_bytes, data_pos, share, cluster_loop, read_from, fat16_read,
}
use icariusos.Fat16.Files.Bytes.{
  chain_bytes, IsNear, share_bounds, chain_bytes-zero, data_pos_aligned, chain_bytes-eq, finished,
  finished-nil, finished-append,
}

module _ {W : Type 0} (driver : Driver W) (sector : W → ℕ → Bytes) (law : IsReliable driver sector)
    (bpb : Bpb) (sane : IsSane bpb) where
  abbrev table : W → ℕ → ℕ
  table w = entry driver sector law bpb sane w

  -- One round: a cluster's bytes, then its link.
  cluster-round :
      (fuel c r bytes_read pos next at : ℕ) (out bytes : List ℕ) (dev dev1 dev2 : Ata W)
      → IsNear bpb c
      → bytes_read + share (max_cluster_size_bytes bpb) (suc r) < 2 ^ 32
      → pos + share (max_cluster_size_bytes bpb) (suc r) < 2 ^ 32
      → stream_read driver (data_pos bpb c) (share (max_cluster_size_bytes bpb) (suc r)) dev
        ≡ some (0, bytes, at, dev1)
      → get_next_cluster driver bpb partition_offset c dev1 ≡ some (next, dev2)
      → let k = share (max_cluster_size_bytes bpb) (suc r) in
        cluster_loop driver bpb (suc fuel) 0 c (suc r) bytes_read pos out dev ≡ (
          if leb end_of_chain next
          then some (bytes_read + k, pos + k, out ++ bytes, dev2)
          else cluster_loop driver bpb fuel 0 next
              (suc r - k)
              (bytes_read + k)
              (pos + k)
              (out ++ bytes)
              dev2)
  unfolding cluster_loop
  cluster-round fuel c r bytes_read pos next at out bytes dev dev1 dev2 near small short reads
        gets =
      let k = share (max_cluster_size_bytes bpb) (suc r) in
      let here : (data_pos bpb c + 0) % 2 ^ 32 ≡ data_pos bpb c = omega arith in
      let total : (bytes_read + k) % 2 ^ 32 ≡ bytes_read + k = omega arith in
      let moved : (pos + k) % 2 ^ 32 ≡ pos + k = omega arith in rw (here, reads, gets, total, moved)

  -- A round on a drive that answers.
  cluster-step :
      (c r : ℕ) (dev : Ata W)
      → c < 2 ^ 16
      → IsNear bpb c
      → 0 < max_cluster_size_bytes bpb
      → let k = share (max_cluster_size_bytes bpb) (suc r) in
        let bytes = bytes_from (byte_at sector dev.drive) (data_pos bpb c) k in
        let next = table dev.drive c in
        (dev2 : Ata W) × (((fuel bytes_read pos : ℕ) (out : List ℕ)
            → bytes_read + suc r < 2 ^ 32
            → pos + suc r < 2 ^ 32
            → cluster_loop driver bpb (suc fuel) 0 c (suc r) bytes_read pos out dev ≡ (
                if leb end_of_chain next
                then some (bytes_read + k, pos + k, out ++ bytes, dev2)
                else cluster_loop driver bpb fuel 0 next
                    (suc r - k)
                    (bytes_read + k)
                    (pos + k)
                    (out ++ bytes)
                    dev2))
          × ((l i : ℕ) → sector dev2.drive l i ≡ sector dev.drive l i))
  cluster-step c r dev small near positive =
      let bounds = share_bounds (max_cluster_size_bytes bpb) r positive in
      let (dev1, (reads, keeps)) =
        stream_read-bytes driver sector law (data_pos bpb c)
          (share (max_cluster_size_bytes bpb) (suc r)) dev (inl (data_pos_aligned bpb c sane))
          (omega (arith, bounds.2)) in
      let (dev2, (gets, keeps')) =
        get_next_cluster-sectors driver sector law bpb sane c dev1 small in
      (
        dev2,
        (
          λ fuel bytes_read pos out h g.
              cluster-round fuel c r bytes_read pos (table dev.drive c) _ out _ dev dev1 dev2 near
                (omega (arith, bounds.0)) (omega (arith, bounds.0)) reads
                (gets
                  ∙ ap (λ (n : ℕ). some (n, dev2))
                      (entry-eq driver sector law bpb sane dev.drive dev1.drive keeps c)),
          λ l i. keeps' l i ∙ keeps l i,
        ),
      )

  -- What the loop has read when it ends.
  cluster_loop-bytes :
      (fuel c : ℕ) (ds : List ℕ) (remaining bytes_read pos : ℕ) (out : List ℕ) (dev : Ata W)
      → c < 2 ^ 16
      → Chain (table dev.drive) c ds
      → All (IsNear bpb) (c ∷ ds)
      → 0 < max_cluster_size_bytes bpb
      → bytes_read + remaining < 2 ^ 32
      → pos + remaining < 2 ^ 32
      → remaining ≤ fuel
      → (dev' : Ata W) × (cluster_loop driver bpb fuel 0 c remaining bytes_read pos out dev
          ≡ finished bytes_read pos out
              (chain_bytes bpb (byte_at sector dev.drive) (c ∷ ds) remaining)
              dev')
  cluster_loop-bytes fuel c ds zero bytes_read pos out dev small chain near positive h g enough =
      let nothing = chain_bytes-zero bpb (byte_at sector dev.drive) (c ∷ ds) in
      let ends : cluster_loop driver bpb fuel 0 c 0 bytes_read pos out dev
          ≡ some (bytes_read, pos, out, dev) =
        unfold cluster_loop in refl in
      (
        dev,
        ends
            ∙ sym (finished-nil bytes_read pos out dev)
            ∙ ap (λ (l : List ℕ). finished bytes_read pos out l dev) (sym nothing),
      )
  cluster_loop-bytes zero c ds (suc r) bytes_read pos out dev small chain near positive h g enough =
      absurd (omega arith)
  cluster_loop-bytes (suc fuel) c [] (suc r) bytes_read pos out dev small (last _ ended)
        (near, rest) positive h g enough =
      let k = share (max_cluster_size_bytes bpb) (suc r) in
      let bytes = bytes_from (byte_at sector dev.drive) (data_pos bpb c) k in
      let (dev2, (goes, keeps)) = cluster-step c r dev small near positive in
      let stop : leb end_of_chain (table dev.drive c) ≡ true = ground arith in
      let long = length-bytes_from (byte_at sector dev.drive) (data_pos bpb c) k in
      let ends = finished-append bytes_read pos k out bytes [] dev2 long in
      (
        dev2,
        goes fuel bytes_read pos out h g
            ∙ ap
                (λ (b : Bool).
                  if b
                  then some (bytes_read + k, pos + k, out ++ bytes, dev2)
                  else cluster_loop driver bpb fuel 0 (table dev.drive c) (suc r - k)
                      (bytes_read + k) (pos + k) (out ++ bytes) dev2)
                stop
            ∙ sym (finished-nil (bytes_read + k) (pos + k) (out ++ bytes) dev2)
            ∙ ends,
      )
  cluster_loop-bytes (suc fuel) c (d ∷ ds) (suc r) bytes_read pos out dev small
        (link _ _ _ e lt chain) (near, rest) positive h g enough =
      let k = share (max_cluster_size_bytes bpb) (suc r) in
      let bounds = share_bounds (max_cluster_size_bytes bpb) r positive in
      let bytes = bytes_from (byte_at sector dev.drive) (data_pos bpb c) k in
      let (dev2, (goes, keeps)) = cluster-step c r dev small near positive in
      let chain' =
        Chain-same (table dev.drive) (table dev2.drive) d ds
          (entry-eq driver sector law bpb sane dev.drive dev2.drive keeps) chain in
      let (dev', ends) =
        cluster_loop-bytes fuel d ds (suc r - k) (bytes_read + k) (pos + k) (out ++ bytes) dev2
          (omega arith) chain' rest positive (omega (arith, bounds.0)) (omega (arith, bounds.0))
          (omega (arith, bounds.1)) in
      let go : leb end_of_chain d ≡ false = ground arith in
      let long = length-bytes_from (byte_at sector dev.drive) (data_pos bpb c) k in
      let same =
        chain_bytes-eq bpb (byte_at sector dev.drive) (byte_at sector dev2.drive) (d ∷ ds)
          (suc r - k) (λ a. keeps _ _) in
      let body : ℕ → Bool → Option (ℕ × ℕ × List ℕ × Ata W) = λ next b.
        if b
        then some (bytes_read + k, pos + k, out ++ bytes, dev2)
        else cluster_loop driver bpb fuel 0 next (suc r - k) (bytes_read + k) (pos + k)
            (out ++ bytes) dev2 in
      (
        dev',
        goes fuel bytes_read pos out h g
            ∙ ap (λ (n : ℕ). body n (leb end_of_chain n)) e
            ∙ ap (body d) go
            ∙ ends
            ∙ ap (λ (l : List ℕ). finished (bytes_read + k) (pos + k) (out ++ bytes) l dev') same
            ∙ finished-append bytes_read pos k out bytes _ dev' long,
      )

  -- On a drive that answers, from the beginning of a file that is not empty, whose chain of clusters
  -- hangs on its first cluster, below 4 GB, where the size of a cluster is not 0 in 16 bits and
  -- `n_bytes * n_blocks` is below 2^32: `fat16_read` returns, its result is the number of bytes read,
  -- they are the first `n_bytes * n_blocks` bytes of the chain's clusters, or all of them where there
  -- are fewer, whatever the size of the file is, and the descriptor moves behind them.
  pub fat16_read-chain_bytes :
      (e : DirEntry) (ds : List ℕ) (n_bytes n_blocks : ℕ) (dev : Ata W)
      → 0 < e.file_size
      → get_combined_cluster e.high_cluster e.low_cluster < 2 ^ 16
      → Chain (table dev.drive) (get_combined_cluster e.high_cluster e.low_cluster) ds
      → All (IsNear bpb) (get_combined_cluster e.high_cluster e.low_cluster ∷ ds)
      → 0 < max_cluster_size_bytes bpb
      → n_bytes * n_blocks < 2 ^ 32
      → let bytes =
          chain_bytes bpb
            (byte_at sector dev.drive)
            (get_combined_cluster e.high_cluster e.low_cluster ∷ ds)
            (n_bytes * n_blocks) in
        (dev' : Ata W) × (fat16_read driver bpb n_bytes n_blocks
            (record { entry = file e; pos = 0 })
            dev
          ≡ some (length bytes, record { entry = file e; pos = length bytes }, bytes, dev'))
  unfolding fat16_read read_from get_cluster_from_descriptor
  fat16_read-chain_bytes e ds n_bytes n_blocks dev content small chain near positive fits =
      let start = get_combined_cluster e.high_cluster e.low_cluster in
      let n = n_bytes * n_blocks in
      let size = max_cluster_size_bytes bpb in
      let (dev', ends) =
        cluster_loop-bytes n start ds n 0 0 [] dev small chain near positive (omega arith)
          (omega arith) (omega arith) in
      let inside : leb e.file_size 0 ≡ false = ground arith in
      let count : n % 2 ^ 32 ≡ n = omega arith in
      let nothing : 0 / size ≡ 0 = omega arith in
      let first : (0 + start) % 2 ^ 16 ≡ start = omega arith in
      let offset : 0 % size ≡ 0 = omega arith in
      let sized : (size == 0) ≡ false = ground arith in
      let bytes = chain_bytes bpb (byte_at sector dev.drive) (start ∷ ds) n in
      let total : 0 + length bytes ≡ length bytes = omega arith in
      (dev', rw (inside, count, nothing, first, offset, sized, ends, total))
