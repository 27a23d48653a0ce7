-- ===== src/Fat16/Directories/Outcomes.antt =====
-- How the search of a list of clusters may end.
use icariusos.Base.{
  ℕ, suc, ◌+◌, ◌*◌, ◌≤◌, ◌≡◌, ◌⊎◌, inl, inr, refl, ap, arith, Bool, Bool-cases, true, false, ◌||◌,
  List, [], ◌∷◌, take, get_elem?, All, All-map, none, some, ◌==◌, among,
}
use icariusos.Libc.Blocks.{Bytes}
use icariusos.Stream.Reads.{bytes_from, bytes_from-eq}
use icariusos.Fat16.Layout.{Bpb, dir_entry_size, word}
use icariusos.Fat16.Table.{end_of_chain}
use icariusos.Fat16.Entries.{DirEntry}
use icariusos.Fat16.Files.{max_cluster_size_bytes, data_pos}
use icariusos.Fat16.Directories.{
  entries_of, first_index, entries_per_cluster, Search, found, ended, offset_of,
}

-- No entry passes, or the one that is found is the first that does.
pub first_index-cases :
    (test : DirEntry → Bool) (k : ℕ) (es : List DirEntry)
    → ((first_index test k es ≡ none) × All (λ e. test e ≡ false) es)
      ⊎ ((j : ℕ) × (e : DirEntry) × (first_index test k es ≡ some (k + j, e))
          × (get_elem? es j ≡ some e)
          × (test e ≡ true)
          × All (λ x. test x ≡ false) (take j es))
unfolding first_index
first_index-cases test k [] = inl (refl, tt)
first_index-cases test k (e ∷ es) = elim (Bool-cases (test e)) [
  | inl passes ↦
      let here : k ≡ k + 0 = omega arith in
      inr (0, e, rw passes (ap (λ (n : ℕ). some (n, e)) here), refl, passes, tt)
  | inr fails ↦ elim (first_index-cases test (k + 1) es) [
    | inl (is, all) ↦ inl (rw (fails, is), (fails, all))
    | inr (j, x, is, stands, passes, before) ↦
        let there : k + 1 + j ≡ k + suc j = omega arith in
        inr (
          suc j,
          x,
          rw (fails, is) (ap (λ (n : ℕ). some (n, x)) there),
          stands,
          passes,
          (fails, before),
        )
  ]
]

-- The entries in a cluster of a disk.
abbrev pub cluster_entries : Bpb → Bytes → ℕ → List DirEntry
cluster_entries bpb b c =
    entries_of (entries_per_cluster bpb)
      (bytes_from b (data_pos bpb c) (max_cluster_size_bytes bpb))

pub cluster_entries-eq :
    (bpb : Bpb) (b b' : Bytes) (c : ℕ)
    → ((a : ℕ) → b' a ≡ b a)
    → cluster_entries bpb b' c ≡ cluster_entries bpb b c
cluster_entries-eq bpb b b' c same = ap (entries_of (entries_per_cluster bpb)) (
    bytes_from-eq b' b (data_pos bpb c) (data_pos bpb c) (max_cluster_size_bytes bpb)
      (λ i lt. same _))

-- The outcome of a search of the clusters of a list: the first entry of one of them that passes, or
-- none in any of them and a link that ends the chain.
pub data Outcome (test : DirEntry → Bool) (entries : ℕ → List DirEntry) (cs : List ℕ)
    : Search → Type 0 where
  at_entry :
      (c i : ℕ) (e : DirEntry)
      → among c cs ≡ true
      → get_elem? (entries c) i ≡ some e
      → test e ≡ true
      → All (λ x. test x ≡ false) (take i (entries c))
      → Outcome test entries cs (found c i e)
  nowhere :
      (l : ℕ)
      → end_of_chain ≤ l
      → All (λ c. All (λ e. test e ≡ false) (entries c)) cs
      → Outcome test entries cs (ended l)

pub Outcome-next :
    (test : DirEntry → Bool) (entries entries' : ℕ → List DirEntry) (c : ℕ) (cs : List ℕ)
    (s : Search)
    → ((x : ℕ) → entries' x ≡ entries x)
    → All (λ e. test e ≡ false) (entries c)
    → Outcome test entries' cs s
    → Outcome test entries (c ∷ cs) s
Outcome-next test entries entries' c cs _ same none_here
      (at_entry d i e in_list stands passes before) =
    let also : ((d == c) || among d cs) ≡ true = ground arith in
    at_entry d i e also (rw (← same d) stands) passes (rw (← same d) before)
Outcome-next test entries entries' c cs _ same none_here (nowhere l over all) = nowhere l over (
  none_here,
  All-map (λ d. All (λ e. test e ≡ false) (entries' d)) (λ d. All (λ e. test e ≡ false) (entries d))
      cs (λ d h. rw (← same d) h) all,
)

-- A position is 0 where no entry of the clusters passes, or that of an entry of one of them which
-- passes and is the first in its cluster to do so.
abbrev pub IsOffset : Bpb → (DirEntry → Bool) → (ℕ → List DirEntry) → List ℕ → ℕ → Type 0
IsOffset bpb test entries cs p =
    ((p ≡ 0) × All (λ x. All (λ e. test e ≡ false) (entries x)) cs)
    ⊎ ((x : ℕ) × (i : ℕ) × (e : DirEntry) × (p ≡ word (data_pos bpb x + i * dir_entry_size))
        × (among x cs ≡ true)
        × (get_elem? (entries x) i ≡ some e)
        × (test e ≡ true)
        × All (λ y. test y ≡ false) (take i (entries x)))

pub offset_of-Outcome :
    (bpb : Bpb) (test : DirEntry → Bool) (entries : ℕ → List DirEntry) (cs : List ℕ) (s : Search)
    → Outcome test entries cs s
    → IsOffset bpb test entries cs (offset_of bpb s)
offset_of-Outcome bpb test entries cs _ (at_entry c i e in_list stands passes before) =
    inr (c, i, e, refl, in_list, stands, passes, before)
offset_of-Outcome bpb test entries cs _ (nowhere l over all) = inl (refl, all)
