-- ===== src/Fat16/Directories/Finds.antt =====
-- What the search of a directory's chain finds.
use icariusos.Base.{
  ℕ, zero, suc, ◌+◌, ◌%◌, ◌^◌, ◌<◌, ◌≤◌, ◌≡◌, inl, inr, refl, ap, ◌∙◌, arith, Bool, true, false,
  ◌||◌, List, [], ◌∷◌, length, take, get_elem?, All, none, some, ltb, ◌==◌, among,
}
use icariusos.Libc.Blocks.{Bytes}
use icariusos.Stream.Interface.{Driver, Ata, IsReliable, byte_at}
use icariusos.Stream.Reads.{stream_read-bytes}
use icariusos.Fat16.Layout.{Bpb}
use icariusos.Fat16.Table.{end_of_chain}
use icariusos.Fat16.Table.Entries.{IsSane, entry, entry-eq, get_next_cluster-sectors}
use icariusos.Fat16.Table.Chains.{Chain, last, link, Chain-same}
use icariusos.Fat16.Entries.{DirEntry}
use icariusos.Fat16.Files.{max_cluster_size_bytes, data_pos}
use icariusos.Fat16.Files.Bytes.{IsNear, data_pos_aligned}
use icariusos.Fat16.Directories.{
  first_index, is_named, Search, found, ended, offset_of, search_loop, find_entry_offset,
}
use icariusos.Fat16.Directories.Outcomes.{
  first_index-cases, cluster_entries, cluster_entries-eq, Outcome, Outcome-next, IsOffset,
  offset_of-Outcome, at_entry, nowhere,
}

module _ {W : Type 0} (driver : Driver W) (sector : W → ℕ → Bytes) (law : IsReliable driver sector)
    (bpb : Bpb) (sane : IsSane bpb) where
  abbrev table : W → ℕ → ℕ
  table w = entry driver sector law bpb sane w

  abbrev pub dir_entries : W → ℕ → List DirEntry
  dir_entries w c = cluster_entries bpb (byte_at sector w) c

  -- A visit to a cluster on a drive that answers: with an entry that passes, and without one.
  search-step :
      (test : DirEntry → Bool) (c : ℕ) (dev : Ata W)
      → c < end_of_chain
      → IsNear bpb c
      → (dev1 : Ata W) × (dev2 : Ata W) × ((fuel i : ℕ) (e : DirEntry)
          → first_index test 0 (dir_entries dev.drive c) ≡ some (i, e)
          → search_loop driver bpb test (suc fuel) c dev ≡ some (found c i e, dev1))
        × ((fuel : ℕ)
            → first_index test 0 (dir_entries dev.drive c) ≡ none
            → search_loop driver bpb test (suc fuel) c dev
              ≡ search_loop driver bpb test fuel (table dev.drive c) dev2)
        × ((l i : ℕ) → sector dev2.drive l i ≡ sector dev.drive l i)
        × ((l i : ℕ) → sector dev1.drive l i ≡ sector dev.drive l i)
  unfolding search_loop
  search-step test c dev below near =
      let go : ltb c end_of_chain ≡ true = ground arith in
      let (dev1, (reads, keeps)) =
        stream_read-bytes driver sector law (data_pos bpb c) (max_cluster_size_bytes bpb) dev
          (inl (data_pos_aligned bpb c sane)) near in
      let (dev2, (gets, keeps')) =
        get_next_cluster-sectors driver sector law bpb sane c dev1 (omega arith) in
      let same = entry-eq driver sector law bpb sane dev.drive dev1.drive keeps c in
      let follows = gets ∙ ap (λ (n : ℕ). some (n, dev2)) same in
      (
        dev1,
        dev2,
        λ fuel i e is. rw (go, reads, is),
        λ fuel is. rw (go, reads, is, follows),
        λ l i. keeps' l i ∙ keeps l i,
        keeps,
      )

  -- What a search guarantees.
  abbrev Searches : (DirEntry → Bool) → ℕ → ℕ → List ℕ → Ata W → Type 0
  Searches test fuel c cs dev =
      (s : Search) × (dev' : Ata W) × (search_loop driver bpb test fuel c dev ≡ some (s, dev'))
      × Outcome test (dir_entries dev.drive) cs s
      × ((l i : ℕ) → sector dev'.drive l i ≡ sector dev.drive l i)

  search-here :
      (test : DirEntry → Bool) (fuel c i : ℕ) (e : DirEntry) (ds : List ℕ) (dev dev1 : Ata W)
      → search_loop driver bpb test fuel c dev ≡ some (found c i e, dev1)
      → get_elem? (dir_entries dev.drive c) i ≡ some e
      → test e ≡ true
      → All (λ x. test x ≡ false) (take i (dir_entries dev.drive c))
      → ((l k : ℕ) → sector dev1.drive l k ≡ sector dev.drive l k)
      → Searches test fuel c (c ∷ ds) dev
  search-here test fuel c i e ds dev dev1 is stands passes before keeps =
      let first : ((c == c) || among c ds) ≡ true = ground arith in
      (found c i e, dev1, is, at_entry c i e first stands passes before, keeps)

  search-there :
      (test : DirEntry → Bool) (fuel c d : ℕ) (ds : List ℕ) (dev dev2 : Ata W)
      → search_loop driver bpb test (suc fuel) c dev ≡ search_loop driver bpb test fuel d dev2
      → All (λ e. test e ≡ false) (dir_entries dev.drive c)
      → ((l i : ℕ) → sector dev2.drive l i ≡ sector dev.drive l i)
      → Searches test fuel d ds dev2
      → Searches test (suc fuel) c (c ∷ ds) dev
  search-there test fuel c d ds dev dev2 goes none_here keeps (s, dev', is, outcome, keeps') = (
    s,
    dev',
    goes ∙ is,
    Outcome-next test (dir_entries dev.drive) (dir_entries dev2.drive) c ds s
        (λ x.
          cluster_entries-eq bpb (byte_at sector dev.drive) (byte_at sector dev2.drive) x
            (λ a. keeps _ _))
        none_here outcome,
    λ l i. keeps' l i ∙ keeps l i,
  )

  search-stop :
      (test : DirEntry → Bool) (fuel over : ℕ) (dev : Ata W)
      → end_of_chain ≤ over
      → Searches test (suc fuel) over [] dev
  unfolding search_loop
  search-stop test fuel over dev ge =
      let stop : ltb over end_of_chain ≡ false = ground arith in
      (ended over, dev, rw stop, nowhere over ge tt, λ l i. refl)

  pub search_loop-Outcome :
      (test : DirEntry → Bool) (fuel c : ℕ) (ds : List ℕ) (dev : Ata W)
      → c < end_of_chain
      → Chain (table dev.drive) c ds
      → All (IsNear bpb) (c ∷ ds)
      → length ds + 1 < fuel
      → Searches test fuel c (c ∷ ds) dev
  search_loop-Outcome test zero c ds dev below chain near enough = absurd (omega arith)
  search_loop-Outcome test (suc zero) c ds dev below chain near enough = absurd (omega arith)
  search_loop-Outcome test (suc (suc fuel)) c [] dev below (last _ over) (here, rest) enough =
      let (dev1, dev2, finds, goes, keeps, keeps1) = search-step test c dev below here in
      elim (first_index-cases test 0 (dir_entries dev.drive c)) [
        | inl (is, all) ↦
            search-there test (suc fuel) c (table dev.drive c) [] dev dev2 (goes (suc fuel) is) all
              keeps (search-stop test fuel (table dev.drive c) dev2 over)
        | inr (j, e, is, stands, passes, before) ↦
            let at : 0 + j ≡ j = omega arith in
            search-here test (suc (suc fuel)) c j e [] dev dev1
              (finds (suc fuel) j e (is ∙ ap (λ (n : ℕ). some (n, e)) at)) stands passes before
              keeps1
      ]
  search_loop-Outcome test (suc (suc fuel)) c (d ∷ ds) dev below (link _ _ _ is_next lt chain)
        (here, rest) enough =
      let (dev1, dev2, finds, goes, keeps, keeps1) = search-step test c dev below here in
      elim (first_index-cases test 0 (dir_entries dev.drive c)) [
        | inl (is, all) ↦
            let next = ap (λ (n : ℕ). search_loop driver bpb test (suc fuel) n dev2) is_next in
            let chain' =
              Chain-same (table dev.drive) (table dev2.drive) d ds
                (entry-eq driver sector law bpb sane dev.drive dev2.drive keeps) chain in
            search-there test (suc fuel) c d (d ∷ ds) dev dev2 (goes (suc fuel) is ∙ next) all keeps
              (search_loop-Outcome test (suc fuel) d ds dev2 lt chain' rest (omega arith))
        | inr (j, e, is, stands, passes, before) ↦
            let at : 0 + j ≡ j = omega arith in
            search-here test (suc (suc fuel)) c j e (d ∷ ds) dev dev1
              (finds (suc fuel) j e (is ∙ ap (λ (n : ℕ). some (n, e)) at)) stands passes before
              keeps1
      ]

  -- On a drive that answers, in a folder whose chain hangs on its first cluster, below 4 GB, and with
  -- more fuel than there are visits, `fat16_find_entry_offset` returns: 0 where no entry in the
  -- chain's clusters has the name, or the position of an entry in one of them that has it, before
  -- which no entry of its cluster has it. The disk stays as it is.
  pub find_entry_offset-named :
      (fuel c : ℕ) (ds : List ℕ) (filename : List ℕ) (dev : Ata W)
      → c < end_of_chain
      → Chain (table dev.drive) c ds
      → All (IsNear bpb) (c ∷ ds)
      → length ds + 1 < fuel
      → (p : ℕ) × (dev' : Ata W) × (find_entry_offset driver bpb fuel c filename dev
          ≡ some (p, dev'))
        × IsOffset bpb (is_named filename) (dir_entries dev.drive) (c ∷ ds) p
        × ((l i : ℕ) → sector dev'.drive l i ≡ sector dev.drive l i)
  unfolding find_entry_offset
  find_entry_offset-named fuel c ds filename dev below chain near enough =
      let (s, dev', is, outcome, keeps) =
        search_loop-Outcome (is_named filename) fuel c ds dev below chain near enough in
      let whole : c % 2 ^ 16 ≡ c = omega arith in
      (
        offset_of bpb s,
        dev',
        rw (whole, is),
        offset_of-Outcome bpb (is_named filename) (dir_entries dev.drive) (c ∷ ds) s outcome,
        keeps,
      )
