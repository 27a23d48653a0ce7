-- ===== src/Vfs/Descriptors.antt =====
-- Descriptors that are opened, used and closed.
use icariusos.Base.{
  ℕ, suc, ◌+◌, ◌-◌, ◌<◌, ◌≡◌, ◌≢◌, refl, ap, ◌∙◌, arith, Bool, false, ◌||◌, List, [], ◌∷◌, ◌++◌,
  length, All, Bool-cases, inl, inr, Option, none, some, leb, ◌==◌, get_or, set,
}
use icariusos.Path.Parser.{Node, path_parser_parse}
use icariusos.Vfs.{
  Fs, Fd, Slot, empty, live, dangling, Vfs, create_loop, create_fd, get_fd, below_one, with_fd,
  get_vmode, invalid_mode, fopen_on, vfs_fopen, vfs_fread, vfs_fclose,
}
use icariusos.Errno.{enomem, einval, negated}

abbrev pub Busy : Slot → Type 0
Busy empty = ⊥
Busy (live fd) = Unit
Busy dangling = Unit

abbrev pub opened : ℕ → ℕ → Fd
opened index file = record { index = index; internal = file; dir_offset = 0 }

create_loop-first :
    (front rest : List Slot) (file i : ℕ)
    → All Busy front
    → create_loop (front ++ empty ∷ rest) file i
      ≡ some (i + length front + 1, front ++ live (opened (i + length front + 1) file) ∷ rest)
unfolding create_loop
create_loop-first [] rest file i busy =
    let here : i + 1 ≡ i + 0 + 1 = omega arith in
    ap (λ (n : ℕ). some (n, live (opened n file) ∷ rest)) here
create_loop-first (empty ∷ front) rest file i (bad, busy) = absurd bad
create_loop-first (live fd ∷ front) rest file i (one, busy) =
    let here : i + 1 + length front + 1 ≡ i + suc (length front) + 1 = omega arith in
    rw (create_loop-first front rest file (i + 1) busy, here)
create_loop-first (dangling ∷ front) rest file i (one, busy) =
    let here : i + 1 + length front + 1 ≡ i + suc (length front) + 1 = omega arith in
    rw (create_loop-first front rest file (i + 1) busy, here)

create_loop-full :
    (slots : List Slot) (file i : ℕ) → All Busy slots → create_loop slots file i ≡ none
unfolding create_loop
create_loop-full [] file i busy = refl
create_loop-full (empty ∷ slots) file i (bad, busy) = absurd bad
create_loop-full (live fd ∷ slots) file i (one, busy) =
    rw (create_loop-full slots file (i + 1) busy)
create_loop-full (dangling ∷ slots) file i (one, busy) =
    rw (create_loop-full slots file (i + 1) busy)

get_or-middle :
    (front rest : List Slot) (s : Slot) → get_or (front ++ s ∷ rest) (length front) empty ≡ s
get_or-middle [] rest s = refl
get_or-middle (x ∷ front) rest s = get_or-middle front rest s

set-middle :
    (front rest : List Slot) (s t : Slot)
    → set (front ++ s ∷ rest) (length front) t ≡ front ++ t ∷ rest
set-middle [] rest s t = refl
set-middle (x ∷ front) rest s t = ap (λ l. x ∷ l) (set-middle front rest s t)

create_fd-first :
    (front rest : List Slot) (file : ℕ)
    → All Busy front
    → create_fd (front ++ empty ∷ rest) file
      ≡ some (length front + 1, front ++ live (opened (length front + 1) file) ∷ rest)
unfolding create_fd
create_fd-first front rest file busy =
    let here : 0 + length front + 1 ≡ length front + 1 = omega arith in
    create_loop-first front rest file 0 busy
    ∙ ap (λ (n : ℕ). some (n, front ++ live (opened n file) ∷ rest)) here

get_fd-middle :
    (front rest : List Slot) (s : Slot)
    → length front + 1 < 512
    → get_fd (front ++ s ∷ rest) (length front + 1) ≡ s
unfolding get_fd
get_fd-middle front rest s below =
    let taken : (below_one (length front + 1) || leb 512 (length front + 1)) ≡ false =
      ground arith in
    let back : length front + 1 - 1 ≡ length front = omega arith in
    rw (taken, back, get_or-middle front rest s)

module _ {R : Type 0} (front rest : List Slot) (missing : R) (use_fd : Fd → R)
    (below : length front + 1 < 512) where
  with_fd-live :
      (slots : List Slot) (f : Fd)
      → slots ≡ front ++ live f ∷ rest
      → with_fd slots (length front + 1) missing use_fd ≡ some (use_fd f)
  unfolding with_fd
  with_fd-live slots f e =
      let here : get_fd slots (length front + 1) ≡ live f =
        rw e (get_fd-middle front rest (live f) below) in
      rw here

  with_fd-dangling : with_fd (front ++ dangling ∷ rest) (length front + 1) missing use_fd ≡ none
  unfolding with_fd
  with_fd-dangling = rw (get_fd-middle front rest dangling below)

module _ {W : Type 0} (fs : Fs W) where
  -- Where the path parses to the known drive, the mode is known, the file system is mounted and
  -- opens the file, and there is an empty slot, `vfs_fopen` gives the number behind the index of
  -- the first empty slot, and fills that slot and no other.
  pub vfs_fopen-first :
      (filename : List ℕ) (mode : ℕ) (path : List Node) (has_error : Bool) (v : Vfs W)
      (front rest : List Slot) (file : ℕ) (world : W)
      → v.slots ≡ front ++ empty ∷ rest
      → v.fs ≡ some fs
      → All Busy front
      → (get_vmode mode == invalid_mode) ≡ false
      → path_parser_parse filename ≡ some (record { drive = b'A'; path = path }, has_error)
      → fs.open_cb path (get_vmode mode) v.world ≡ (some file, world)
      → vfs_fopen filename mode v
        ≡ some (
          length front + 1,
          record v { slots = front ++ live (opened (length front + 1) file) ∷ rest; world = world },
        )
  unfolding vfs_fopen fopen_on
  vfs_fopen-first filename mode path has_error v front rest file world slots mounted busy known
        parses opens =
      rw (known, parses, mounted, opens, slots, create_fd-first front rest file busy)
        (ap
          (λ (o : Option (Fs W)). some (
            length front + 1,
            record v {
              slots = front ++ live (opened (length front + 1) file) ∷ rest;
              fs = o;
              world = world;
            },
          ))
          mounted)

  vfs_fread-live :
      (n_bytes n_blocks : ℕ) (v : Vfs W) (front rest : List Slot) (f : Fd)
      → n_bytes ≢ 0
      → n_blocks ≢ 0
      → length front + 1 < 512
      → v.slots ≡ front ++ live f ∷ rest
      → v.fs ≡ some fs
      → vfs_fread n_bytes n_blocks (length front + 1) v ≡ (
          let (res, world) = fs.read_cb f.internal n_bytes n_blocks v.world in
          some (res, record v { world = world }))
  unfolding vfs_fread
  vfs_fread-live n_bytes n_blocks v front rest f some_bytes some_blocks below slots mounted =
      let go : ((n_bytes == 0) || ((n_blocks == 0) || below_one (length front + 1))) ≡ false =
        ground arith in
      rw (go, with_fd-live front rest _ _ below v.slots f slots, mounted)

  vfs_fread-dangling :
      (n_bytes n_blocks : ℕ) (v : Vfs W) (front rest : List Slot)
      → n_bytes ≢ 0
      → n_blocks ≢ 0
      → length front + 1 < 512
      → v.slots ≡ front ++ dangling ∷ rest
      → vfs_fread n_bytes n_blocks (length front + 1) v ≡ none
  unfolding vfs_fread
  vfs_fread-dangling n_bytes n_blocks v front rest some_bytes some_blocks below slots =
      let go : ((n_bytes == 0) || ((n_blocks == 0) || below_one (length front + 1))) ≡ false =
        ground arith in
      rw (go, slots, with_fd-dangling front rest _ _ below)

  -- The last slot has the number 512, which no read takes: it is refused with EINVAL.
  pub vfs_fread-last :
      (n_bytes n_blocks : ℕ) (v : Vfs W)
      → vfs_fread n_bytes n_blocks 512 v ≡ some (negated einval, v)
  unfolding vfs_fread with_fd get_fd
  vfs_fread-last n_bytes n_blocks v =
      elim (Bool-cases ((n_bytes == 0) || ((n_blocks == 0) || below_one 512))) [
        | inl e ↦ rw e
        | inr n ↦ rw n
      ]

  -- Closing a descriptor that is in use gives its file to `close_cb` and answers 0; closing it again
  -- reads through a pointer that dangles.
  pub vfs_fclose-twice :
      (v : Vfs W) (front rest : List Slot) (f : Fd)
      → length front + 1 < 512
      → v.slots ≡ front ++ live f ∷ rest
      → v.fs ≡ some fs
      → let v' = record v {
        slots = front ++ dangling ∷ rest;
        world = fs.close_cb f.internal v.world;
      } in
        (vfs_fclose (length front + 1) v ≡ some (0, v')) × (vfs_fclose (length front + 1) v' ≡ none)
  unfolding vfs_fclose
  vfs_fclose-twice v front rest f below slots mounted =
      let go : below_one (length front + 1) ≡ false = ground arith in
      let back : length front + 1 - 1 ≡ length front = omega arith in
      (
        rw (
          with_fd-live front rest _ _ below v.slots f slots,
          go,
          mounted,
          slots,
          back,
          set-middle front rest (live f) dangling,
        ),
        rw (with_fd-dangling front rest _ _ below, go),
      )

  -- Under the conditions of `vfs_fopen-first`, where the number of the slot is below 512 and neither
  -- count of a read is 0: `vfs_fread` through the descriptor that `vfs_fopen` gives asks the file system
  -- for those counts of the file that was opened, in the state that the opening left; `vfs_fclose` of it
  -- then closes that file and answers 0; and a read behind that is a fault.
  pub vfs_fread-vfs_fopen :
      (filename : List ℕ) (mode n_bytes n_blocks : ℕ) (path : List Node) (has_error : Bool)
      (v : Vfs W) (front rest : List Slot) (file : ℕ) (world : W)
      → v.slots ≡ front ++ empty ∷ rest
      → v.fs ≡ some fs
      → All Busy front
      → (get_vmode mode == invalid_mode) ≡ false
      → path_parser_parse filename ≡ some (record { drive = b'A'; path = path }, has_error)
      → fs.open_cb path (get_vmode mode) v.world ≡ (some file, world)
      → length front + 1 < 512
      → n_bytes ≢ 0
      → n_blocks ≢ 0
      → let fd = length front + 1 in
        let (res, after_read) = fs.read_cb file n_bytes n_blocks world in
        (v1 v2 v3 : Vfs W) × (vfs_fopen filename mode v ≡ some (fd, v1))
        × (vfs_fread n_bytes n_blocks fd v1 ≡ some (res, v2))
        × (v2.world ≡ after_read)
        × (vfs_fclose fd v2 ≡ some (0, v3))
        × (v3.world ≡ fs.close_cb file after_read)
        × (vfs_fread n_bytes n_blocks fd v3 ≡ none)
  vfs_fread-vfs_fopen filename mode n_bytes n_blocks path has_error v front rest file world slots
        mounted busy known parses opens below some_bytes some_blocks =
      let f = opened (length front + 1) file in
      let v1 : Vfs W = record v { slots = front ++ live f ∷ rest; world = world } in
      let v2 : Vfs W = record v1 { world = (fs.read_cb file n_bytes n_blocks world).1 } in
      let v3 : Vfs W = record v2 {
        slots = front ++ dangling ∷ rest;
        world = fs.close_cb file v2.world;
      } in
      (
        v1,
        v2,
        v3,
        vfs_fopen-first filename mode path has_error v front rest file world slots mounted busy
            known parses opens,
        vfs_fread-live n_bytes n_blocks v1 front rest f some_bytes some_blocks below refl mounted,
        refl,
        (vfs_fclose-twice v2 front rest f below refl mounted).0,
        refl,
        vfs_fread-dangling n_bytes n_blocks v3 front rest some_bytes some_blocks below refl,
      )

  -- With no empty slot, `vfs_fopen` of a file that the file system opens answers ENOMEM, leaves the
  -- slots alone, and keeps what opening did to the file system.
  pub vfs_fopen-exhausted :
      (filename : List ℕ) (mode : ℕ) (path : List Node) (has_error : Bool) (v : Vfs W) (file : ℕ)
      (world : W)
      → v.fs ≡ some fs
      → All Busy v.slots
      → (get_vmode mode == invalid_mode) ≡ false
      → path_parser_parse filename ≡ some (record { drive = b'A'; path = path }, has_error)
      → fs.open_cb path (get_vmode mode) v.world ≡ (some file, world)
      → vfs_fopen filename mode v
        ≡ some (negated enomem, record v { errno = enomem; world = world })
  unfolding vfs_fopen fopen_on create_fd
  vfs_fopen-exhausted filename mode path has_error v file world mounted busy known parses opens =
      rw (known, parses, mounted, opens, create_loop-full v.slots file 0 busy)
        (ap
          (λ (o : Option (Fs W)).
            some (negated enomem, record v { errno = enomem; world = world; fs = o }))
          mounted)
