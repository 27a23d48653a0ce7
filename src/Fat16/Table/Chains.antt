-- ===== src/Fat16/Table/Chains.antt =====
-- Following, measuring, releasing and finding clusters in the table.
use icariusos.Base.{
  ℕ, zero, suc, ◌+◌, ◌-◌, ◌%◌, ◌^◌, ◌<◌, ◌≤◌, ◌≡◌, ◌≢◌, ◌⊎◌, inl, inr, refl, sym, ap, ◌∙◌, arith,
  Bool-cases, true, false, List, [], ◌∷◌, length, All, some, ltb, ◌==◌,
}
use icariusos.Libc.Blocks.{Bytes}
use icariusos.Stream.Interface.{Driver, Ata, IsReliable}
use icariusos.Fat16.Layout.{Bpb, partition_offset}
use icariusos.Fat16.Table.{
  max_clusters, end_of_chain, get_next_cluster, free_loop, get_next_free_cluster, length_loop,
  get_cluster_chain_length,
}
use icariusos.Fat16.Table.Entries.{IsSane, entry, get_next_cluster-sectors, read_entry, entry-eq}

-- A chain of a table from a cluster on: the clusters behind it, up to the mark of the end.
pub data Chain (table : ℕ → ℕ) : ℕ → List ℕ → Type 0 where
  last : (c : ℕ) → end_of_chain ≤ table c → Chain table c []
  link :
      (c d : ℕ) (ds : List ℕ)
      → table c ≡ d
      → d < end_of_chain
      → Chain table d ds
      → Chain table c (d ∷ ds)

-- The outcome of looking for a free cluster: the first one from `from` on, or 0.
pub record IsFree (table : ℕ → ℕ) (from count found : ℕ) : Type 0 where
  pub outcome : (found ≡ 0) ⊎ ((from ≤ found) × (found < from + count) × (table found ≡ 0))
  pub first : (c : ℕ) → from ≤ c → c < from + count → (found ≡ 0) ⊎ (c < found) → table c ≢ 0

pub Chain-eq :
    (t t' : ℕ → ℕ) (c : ℕ) (ds : List ℕ)
    → All (λ x. t' x ≡ t x) (c ∷ ds)
    → Chain t c ds
    → Chain t' c ds
Chain-eq t t' c [] (same, rest) (last _ h) = last c (rw same h)
Chain-eq t t' c (d ∷ ds) (same, rest) (link _ _ _ e lt chain) =
    link c d ds (same ∙ e) lt (Chain-eq t t' d ds rest chain)

All-any {ℓ} : (P : ℕ → Type ℓ) (xs : List ℕ) → ((x : ℕ) → P x) → All P xs
All-any P [] h = tt
All-any P (x ∷ xs) h = (h x, All-any P xs h)

-- The same chain in an equal table.
pub Chain-same :
    (t t' : ℕ → ℕ) (c : ℕ) (ds : List ℕ) → ((x : ℕ) → t' x ≡ t x) → Chain t c ds → Chain t' c ds
Chain-same t t' c ds same chain = Chain-eq t t' c ds (All-any (λ x. t' x ≡ t x) (c ∷ ds) same) chain

IsFree-next :
    (t t' : ℕ → ℕ) (from count found : ℕ)
    → t from ≢ 0
    → ((c : ℕ) → t' c ≡ t c)
    → IsFree t' (from + 1) count found
    → IsFree t from (suc count) found
IsFree-next t t' from count found used same free = record {
  outcome = elim free.outcome [
    | inl z ↦ inl z
    | inr (ge, lt, zero_there) ↦ inr (omega arith, omega arith, sym (same found) ∙ zero_there)
  ];
  first = λ c ge lt before. elim (Bool-cases (c == from)) [
    | inl e ↦ let here : c ≡ from = ground arith in rw here used
    | inr n ↦ rw (← same c) (free.first c (ground arith) (ground arith) before)
  ];
}

first_alone :
    (P : ℕ → Type 0) (cluster : ℕ)
    → 0 < cluster
    → (c : ℕ) → cluster ≤ c
    → (count : ℕ) → c < cluster + count
    → (cluster ≡ 0) ⊎ (c < cluster)
    → P c
first_alone P cluster pos c ge count lt (inl z) = absurd (omega arith)
first_alone P cluster pos c ge count lt (inr less) = absurd (omega arith)

module _ {W : Type 0} (driver : Driver W) (sector : W → ℕ → Bytes) (law : IsReliable driver sector)
    (bpb : Bpb) (sane : IsSane bpb) where
  abbrev table : W → ℕ → ℕ
  table w = entry driver sector law bpb sane w

  free_loop-IsFree :
      (rounds cluster : ℕ) (dev : Ata W)
      → 0 < cluster
      → cluster + rounds < 2 ^ 16
      → (found : ℕ) × (dev' : Ata W) × (free_loop driver bpb partition_offset rounds cluster dev
          ≡ some (found, dev'))
        × IsFree (table dev.drive) cluster rounds found
        × ((l i : ℕ) → sector dev'.drive l i ≡ sector dev.drive l i)
  unfolding free_loop
  free_loop-IsFree zero cluster dev pos small = (
    0,
    dev,
    refl,
    record { outcome = inl refl; first = λ c ge lt _. absurd (omega arith) },
    λ l i. refl,
  )
  free_loop-IsFree (suc rounds) cluster dev pos small =
      let (bytes, at, dev1, reads, is, kept) =
        read_entry driver sector law bpb sane cluster dev (omega arith) in
      let keeps = entry-eq driver sector law bpb sane dev.drive dev1.drive kept in
      elim (Bool-cases (table dev.drive cluster == 0)) [
        | inl e ↦ (
          cluster,
          dev1,
          rw (reads, is, e),
          record {
            outcome = inr (omega arith, omega arith, ground arith);
            first = λ c ge lt before.
                first_alone (λ n. table dev.drive n ≢ 0) cluster pos c ge (suc rounds) lt before;
          },
          kept,
        )
        | inr n ↦
            let (found, dev', finds, free, kept') =
              free_loop-IsFree rounds (cluster + 1) dev1 (omega arith) (omega arith) in
            (
              found,
              dev',
              rw (reads, is, n) finds,
              IsFree-next (table dev.drive) (table dev1.drive) cluster rounds found (ground arith)
                  keeps free,
              λ l i. kept' l i ∙ kept l i,
            )
      ]

  length-round :
      (fuel next used v : ℕ) (dev dev1 : Ata W)
      → next < end_of_chain
      → get_next_cluster driver bpb partition_offset next dev ≡ some (v, dev1)
      → length_loop driver bpb (suc fuel) partition_offset next used dev
        ≡ length_loop driver bpb fuel partition_offset v ((used + 1) % 2 ^ 16) dev1
  unfolding length_loop
  length-round fuel next used v dev dev1 lt gets =
      let go : ltb next end_of_chain ≡ true = ground arith in rw (go, gets)

  length_loop-Chain :
      (fuel c : ℕ) (ds : List ℕ) (used : ℕ) (dev : Ata W)
      → used < 2 ^ 16
      → Chain (table dev.drive) c ds
      → length ds < fuel
      → (dev' : Ata W) × (length_loop driver bpb fuel partition_offset (table dev.drive c) used dev
          ≡ some ((used + length ds) % 2 ^ 16, dev'))
        × ((l i : ℕ) → sector dev'.drive l i ≡ sector dev.drive l i)
  length_loop-Chain zero c ds used dev small chain enough = absurd (omega arith)
  length_loop-Chain (suc fuel) c [] used dev small (last _ h) enough =
      let stop : ltb (table dev.drive c) end_of_chain ≡ false = ground arith in
      let same : used ≡ (used + 0) % 2 ^ 16 = omega arith in
      (dev, unfold length_loop in rw stop (ap (λ (n : ℕ). some (n, dev)) same), λ l i. refl)
  length_loop-Chain (suc fuel) c (d ∷ ds) used dev small (link _ _ _ e lt chain) enough =
      let (dev1, (gets, kept)) =
        get_next_cluster-sectors driver sector law bpb sane d dev (omega arith) in
      let keeps = entry-eq driver sector law bpb sane dev.drive dev1.drive kept in
      let chain' = Chain-same (table dev.drive) (table dev1.drive) d ds keeps chain in
      let (dev', rest, stays) =
        length_loop-Chain fuel d ds ((used + 1) % 2 ^ 16) dev1 (omega arith) chain' (omega arith) in
      let total : ((used + 1) % 2 ^ 16 + length ds) % 2 ^ 16 ≡ (used + suc (length ds)) % 2 ^ 16 =
        omega arith in
      let next : length_loop driver bpb (suc fuel) partition_offset (table dev.drive c) used dev
          ≡ length_loop driver bpb (suc fuel) partition_offset d used dev =
        ap (λ (n : ℕ). length_loop driver bpb (suc fuel) partition_offset n used dev) e in
      let moved =
        ap (λ (n : ℕ). length_loop driver bpb fuel partition_offset n ((used + 1) % 2 ^ 16) dev1)
          (sym (keeps d)) in
      (
        dev',
        next
            ∙ length-round fuel d used (table dev.drive d) dev dev1 lt gets
            ∙ moved
            ∙ rest
            ∙ ap (λ (n : ℕ). some (n, dev')) total,
        λ l i. stays l i ∙ kept l i,
      )

  -- On a drive that answers, `fat16_get_next_free_cluster` returns the first cluster from 3 on whose
  -- entry is 0, or 0 where every one of them is in use, and the disk stays as it is.
  pub get_next_free_cluster-IsFree :
      (dev : Ata W)
      → (found : ℕ) × (dev' : Ata W) × (get_next_free_cluster driver bpb partition_offset dev
          ≡ some (found, dev'))
        × IsFree (table dev.drive) 3 (max_clusters - 3) found
        × ((l i : ℕ) → sector dev'.drive l i ≡ sector dev.drive l i)
  unfolding get_next_free_cluster
  get_next_free_cluster-IsFree dev =
      free_loop-IsFree (max_clusters - 3) 3 dev (omega arith) (omega arith)

  pub get_cluster_chain_length-Chain :
      (fuel start : ℕ) (ds : List ℕ) (dev : Ata W)
      → start < 2 ^ 16
      → Chain (table dev.drive) start ds
      → length ds < fuel
      → (dev' : Ata W) × (get_cluster_chain_length driver bpb fuel start partition_offset dev
          ≡ some ((1 + length ds) % 2 ^ 16, dev'))
        × ((l i : ℕ) → sector dev'.drive l i ≡ sector dev.drive l i)
  unfolding get_cluster_chain_length
  get_cluster_chain_length-Chain fuel start ds dev small chain enough =
      let (dev1, (gets, kept)) =
        get_next_cluster-sectors driver sector law bpb sane start dev small in
      let keeps = entry-eq driver sector law bpb sane dev.drive dev1.drive kept in
      let chain' = Chain-same (table dev.drive) (table dev1.drive) start ds keeps chain in
      let (dev', rest, stays) =
        length_loop-Chain fuel start ds 1 dev1 (omega arith) chain' enough in
      let same : start % 2 ^ 16 ≡ start = omega arith in
      let moved =
        ap (λ (n : ℕ). length_loop driver bpb fuel partition_offset n 1 dev1) (sym (keeps start)) in
      (dev', rw (same, gets) (moved ∙ rest), λ l i. stays l i ∙ kept l i)
