-- ===== src/Vfs.antt =====
-- src/x86/fs/vfs.c: the table of file descriptors, in front of the file system of the one device,
-- `ata_dev`, that `ata_get` knows. The file system is `Fs`, the callbacks of `fs_t` on a state `W`
-- that holds the disk and the callers' buffers. `kzalloc` is taken to succeed. A slot whose
-- descriptor went back to the heap still points there: it is `dangling`, and a call that reads
-- through it is a fault, as is a path that faults: the result is `none`. `path_parser_free` and the
-- leak of a path where it is left out have no counterpart.
pub mod Descriptors
pub mod Closes
mod Tests
use icariusos.Base.{
  ℕ, zero, suc, ◌+◌, ◌-◌, ◌^◌, ◌%◌, Bool, true, false, ◌||◌, not, List, [], ◌∷◌, Option, none, some,
  leb, ltb, ◌==◌, if◌then◌else◌, get_or, set, ◌>>=◌,
}
use icariusos.Errno.{enoent, eio, ebadf, enomem, einval, negated}
use icariusos.Path.Parser.{Node, path_parser_parse}

pub record Fs (W : Type 0) : Type 0 where
  pub open_cb : List Node → ℕ → W → Option ℕ × W
  pub read_cb : ℕ → ℕ → ℕ → W → ℕ × W
  pub close_cb : ℕ → W → W
  pub stat_cb : ℕ → W → W
  pub seek_cb : ℕ → ℕ → ℕ → W → ℕ × W
  pub write_cb : Option (ℕ → ℕ → ℕ → W → ℕ × W)
  pub readdir_cb : Option (ℕ → ℕ → W → ℕ × W)

-- `fd_t`; its `dev` is the one device, and its `fs` is never used.
pub record Fd : Type 0 where
  pub index : ℕ
  pub internal : ℕ
  pub dir_offset : ℕ

pub data Slot : Type 0 where
  empty : Slot
  live : Fd → Slot
  dangling : Slot

-- `fs` is `ata_dev.fs`.
pub record Vfs (W : Type 0) : Type 0 where
  pub slots : List Slot
  pub fs : Option (Fs W)
  pub errno : ℕ
  pub world : W

abbrev pub read_mode : ℕ
read_mode = 0

abbrev pub write_mode : ℕ
write_mode = 1

abbrev pub invalid_mode : ℕ
invalid_mode = 3

abbrev pub get_vmode : ℕ → ℕ
get_vmode mode =
    if mode == b'r' then read_mode else if mode == b'w' then write_mode else invalid_mode

-- The first empty slot, its index counted from `i`, with what `vfs_fopen` puts there.
unfoldable pub create_loop : List Slot → ℕ → ℕ → Option (ℕ × List Slot)
create_loop [] internal i = none
create_loop (empty ∷ slots) internal i =
    some (i + 1, live (record { index = i + 1; internal = internal; dir_offset = 0 }) ∷ slots)
create_loop (live fd ∷ slots) internal i =
    create_loop slots internal (i + 1) >>= λ (index, slots'). some (index, live fd ∷ slots')
create_loop (dangling ∷ slots) internal i =
    create_loop slots internal (i + 1) >>= λ (index, slots'). some (index, dangling ∷ slots')

unfoldable pub create_fd : List Slot → ℕ → Option (ℕ × List Slot)
unfolding create_loop
create_fd slots internal = create_loop slots internal 0

-- `fd` is the word of an `int32_t`; one below 1 has the high bit, or is 0.
abbrev pub below_one : ℕ → Bool
below_one fd = (fd == 0) || leb (2 ^ 31) fd

unfoldable pub get_fd : List Slot → ℕ → Slot
get_fd slots fd = if below_one fd || leb 512 fd then empty else get_or slots (fd - 1) empty

-- A descriptor that is read through: NULL, one to use, or a fault.
abbrev pub through {ℓ} : {R : Type ℓ} → Slot → R → (Fd → R) → Option R
through empty missing use_fd = some missing
through (live f) missing use_fd = some (use_fd f)
through dangling missing use_fd = none

unfoldable pub with_fd {ℓ} : {R : Type ℓ} → List Slot → ℕ → R → (Fd → R) → Option R
unfolding get_fd
with_fd slots fd missing use_fd = through (get_fd slots fd) missing use_fd

module _ {W : Type 0} where
  abbrev pub fail : ℕ → Vfs W → ℕ × Vfs W
  fail e v = (negated e, record v { errno = e })

  -- With the slot that `_create_fd` gave, and before that with what `open_cb` gave.
  abbrev pub placed : Option (ℕ × List Slot) → Vfs W → ℕ × Vfs W
  placed none v = fail enomem v
  placed (some (index, slots)) v = (index, record v { slots = slots })

  abbrev pub place : Option ℕ → Vfs W → ℕ × Vfs W
  place none v = fail enoent v
  place (some file) v = placed (create_fd v.slots file) v

  unfoldable pub fopen_on : Fs W → List Node → ℕ → Vfs W → ℕ × Vfs W
  unfolding create_fd
  fopen_on fs path vmode v =
      let (internal, world) = fs.open_cb path vmode v.world in
      place internal (record v { world = world })

  unfoldable pub vfs_fopen : List ℕ → ℕ → Vfs W → Option (ℕ × Vfs W)
  unfolding fopen_on
  vfs_fopen filename mode v =
      if get_vmode mode == invalid_mode
      then some (fail einval v)
      else (path_parser_parse filename >>= λ (root, has_error).
          if root.drive == b'A'
          then elim v.fs [
            | none ↦ some (fail eio v)
            | some fs ↦ some (fopen_on fs root.path (get_vmode mode) v)
          ]
          else some (fail eio v))

  -- Through `fdescriptor->dev->fs`, which is read with no test.
  abbrev pub mounted : Vfs W → (Fs W → ℕ × Vfs W) → Option (ℕ × Vfs W)
  mounted v call = v.fs >>= λ fs. some (call fs)

  abbrev pub answer : Vfs W → ℕ × W → ℕ × Vfs W
  answer v (res, world) = (res, record v { world = world })

  unfoldable pub vfs_fread : ℕ → ℕ → ℕ → Vfs W → Option (ℕ × Vfs W)
  unfolding with_fd
  vfs_fread n_bytes n_blocks fd v =
      if (n_bytes == 0) || ((n_blocks == 0) || below_one fd)
      then some (negated einval, v)
      else (with_fd v.slots fd (some (negated einval, v))
            (λ f. mounted v (λ fs. answer v (fs.read_cb f.internal n_bytes n_blocks v.world)))
          >>= λ r. r)

  -- The slot is left as it is, and so dangles.
  unfoldable pub vfs_fclose : ℕ → Vfs W → Option (ℕ × Vfs W)
  unfolding with_fd
  vfs_fclose fd v =
      if below_one fd
      then some (negated einval, v)
      else (with_fd v.slots fd (some (negated ebadf, v)) (λ f. mounted v (λ fs. (
        0,
        record v { slots = set v.slots (fd - 1) dangling; world = fs.close_cb f.internal v.world },
      )))
          >>= λ r. r)

  unfoldable pub vfs_fseek : ℕ → ℕ → ℕ → Vfs W → Option (ℕ × Vfs W)
  unfolding with_fd
  vfs_fseek fd offset whence v =
      if below_one fd
      then some (negated einval, v)
      else (with_fd v.slots fd (some (negated ebadf, v))
            (λ f. mounted v (λ fs. answer v (fs.seek_cb f.internal offset whence v.world)))
          >>= λ r. r)

  unfoldable pub vfs_fstat : ℕ → Vfs W → Option (ℕ × Vfs W)
  unfolding with_fd
  vfs_fstat fd v =
      if below_one fd
      then some (negated einval, v)
      else (with_fd v.slots fd (some (negated ebadf, v))
            (λ f. mounted v (λ fs. (0, record v { world = fs.stat_cb f.internal v.world })))
          >>= λ r. r)

  -- `has_buffer`: the pointer to the caller's bytes is not NULL.
  unfoldable pub vfs_fwrite : Bool → ℕ → ℕ → ℕ → Vfs W → Option (ℕ × Vfs W)
  unfolding with_fd
  vfs_fwrite has_buffer n_bytes n_blocks fd v =
      if below_one fd || (not has_buffer || ((n_bytes == 0) || (n_blocks == 0)))
      then some (negated einval, v)
      else (with_fd v.slots fd (some (negated ebadf, v)) (λ f. mounted v (λ fs. elim fs.write_cb [
        | none ↦ (negated eio, v)
        | some write ↦ answer v (write f.internal n_bytes n_blocks v.world)
      ]))
          >>= λ r. r)

  -- `res` is a `size_t`, so every answer but 0 counts as above it.
  unfoldable pub vfs_readdir : ℕ → Bool → Vfs W → Option (ℕ × Vfs W)
  unfolding with_fd
  vfs_readdir fd has_dir v =
      if below_one fd || not has_dir
      then some (negated einval, v)
      else (with_fd v.slots fd (some (negated ebadf, v)) (λ f. mounted v (λ fs. elim fs.readdir_cb [
        | none ↦ (negated eio, v)
        | some readdir ↦
            let (res, world) = readdir f.internal f.dir_offset v.world in
            let f' = record f { dir_offset = (f.dir_offset + 1) % 2 ^ 32 } in
            let slots = if res == 0 then v.slots else set v.slots (fd - 1) (live f') in
            (res, record v { slots = slots; world = world })
      ]))
          >>= λ r. r)
