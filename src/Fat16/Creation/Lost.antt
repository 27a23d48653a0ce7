-- ===== src/Fat16/Creation/Lost.antt =====
-- What `fat16_create_file` writes in the root directory: nothing but the entry of a cluster.
use icariusos.Base.{
  ℕ, ◌+◌, ◌<◌, ◌≤◌, ◌≡◌, ◌⊎◌, ◌≢◌, true, List, Option, none, some, ◌==◌, if◌then◌else◌,
}
use icariusos.Libc.Blocks.{Bytes}
use icariusos.Stream.Interface.{Driver, Ata, IsReliable, byte_at}
use icariusos.Fat16.Layout.{Bpb}
use icariusos.Fat16.Table.{end_of_chain, max_clusters}
use icariusos.Fat16.Table.Entries.{IsSane, entry_pos, entry}
use icariusos.Fat16.Entries.{Node, file}
use icariusos.Fat16.Directories.{get_free_root_dir_entry}
use icariusos.Fat16.Creation.{new_entry, create_node}

module _ {W : Type 0} (driver : Driver W) (sector : W → ℕ → Bytes) (law : IsReliable driver sector)
    (bpb : Bpb) (sane : IsSane bpb) where
  abbrev table : W → ℕ → ℕ
  table w = entry driver sector law bpb sane w

  -- No node, because no cluster is free, or a node whose cluster is the first free one: its entry alone
  -- has changed on the disk.
  abbrev NotMade : Ata W → Option (Option Node × Ata W) → Type 0
  NotMade dev run =
      (dev' : Ata W) × (run ≡ some (none, dev'))
      × ((l i : ℕ) → sector dev'.drive l i ≡ sector dev.drive l i)
      × ((c : ℕ) → 3 ≤ c → c < max_clusters → table dev.drive c ≢ 0)

  abbrev pub Made : List ℕ → Ata W → Option (Option Node × Ata W) → Type 0
  Made name dev run =
      (found : ℕ) × (dev' : Ata W) × (run ≡ some (some (file (new_entry name found)), dev'))
      × (3 ≤ found)
      × (found < max_clusters)
      × (table dev.drive found ≡ 0)
      × ((c : ℕ) → table dev'.drive c ≡ (if c == found then end_of_chain else table dev.drive c))
      × ((a : ℕ)
          → (a < entry_pos bpb found) ⊎ (entry_pos bpb found + 2 ≤ a)
          → byte_at sector dev'.drive a ≡ byte_at sector dev.drive a)

  -- The file cannot be made, and the disk stays as it is.
  abbrev pub Refused : Ata W → Option (Option Node × Ata W) → Type 0
  Refused dev run =
      (dev' : Ata W) × (run ≡ some (none, dev'))
      × ((l i : ℕ) → sector dev'.drive l i ≡ sector dev.drive l i)
      × (((dev1 : Ata W) × (get_free_root_dir_entry driver bpb dev ≡ some (0, dev1)))
          ⊎ ((c : ℕ) → 3 ≤ c → c < max_clusters → table dev.drive c ≢ 0))

  -- The node is made, with nothing but the entry of its cluster written, and the call faults.
  abbrev pub Lost : List ℕ → Ata W → Option (Option Node × Ata W) → Type 0
  Lost name dev run =
      (position : ℕ) × (dev1 : Ata W) × (get_free_root_dir_entry driver bpb dev
        ≡ some (position, dev1))
      × (position ≢ 0)
      × Made name dev (create_node driver bpb true name position dev1)
      × (run ≡ none)
