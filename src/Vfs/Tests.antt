-- ===== src/Vfs/Tests.antt =====
-- A file system whose files are their names' lengths, and the calls on it.
use icariusos.Base.{ℕ, ◌+◌, ◌≡◌, refl, arith, false, List, [], ◌∷◌, length, replicate, none, some}
use icariusos.Vfs.{Fs, Slot, empty, live, dangling, Vfs, vfs_fopen, vfs_fread, vfs_fclose}
use icariusos.Errno.{einval, negated}
use icariusos.Path.Parser.{path_parser_parse}
use icariusos.Path.Lexer.{path_lexer_init, path_lexer_lex}
use icariusos.Vfs.Closes.{KeepsEmpty, vfs_fclose-is_empty}
use icariusos.Vfs.Descriptors.{opened, vfs_fopen-first, vfs_fread-vfs_fopen, vfs_fclose-twice}

-- The state counts the callbacks.
abbrev counting : Fs ℕ
counting = record {
  open_cb = λ path mode w. (some (length path), w + 1);
  read_cb = λ file n_bytes n_blocks w. (file + n_bytes, w + 1);
  close_cb = λ file w. w + 1;
  stat_cb = λ file w. w + 1;
  seek_cb = λ file offset whence w. (0, w + 1);
  write_cb = none;
  readdir_cb = none;
}

abbrev vfs_of : List Slot → Vfs ℕ
vfs_of slots = record { slots = slots; fs = some counting; errno = 0; world = 0 }

abbrev name_a : List ℕ
name_a = 65 ∷ b':' ∷ b'/' ∷ 66 ∷ 66 ∷ []

fopen-unknown_mode :
    vfs_fopen name_a b'x' (vfs_of (empty ∷ []))
    ≡ some (negated einval, record (vfs_of (empty ∷ [])) { errno = einval })
unfolding vfs_fopen
fopen-unknown_mode = refl

vfs_fopen-first_example :
    vfs_fopen name_a b'r' (vfs_of (dangling ∷ empty ∷ empty ∷ []))
    ≡ some (2, record (vfs_of []) { slots = dangling ∷ live (opened 2 1) ∷ empty ∷ []; world = 1 })
unfolding path_parser_parse path_lexer_init path_lexer_lex
vfs_fopen-first_example =
    vfs_fopen-first counting name_a b'r' ((66 ∷ 66 ∷ replicate 9 0) ∷ []) false
      (vfs_of (dangling ∷ empty ∷ empty ∷ [])) (dangling ∷ []) (empty ∷ []) 1 1 refl refl (tt, tt)
      refl refl refl

vfs_fread-vfs_fopen_example :
    (v1 v2 v3 : Vfs ℕ) × (vfs_fopen name_a b'r' (vfs_of (dangling ∷ empty ∷ [])) ≡ some (2, v1))
    × (vfs_fread 4 1 2 v1 ≡ some (5, v2))
    × (v2.world ≡ 2)
    × (vfs_fclose 2 v2 ≡ some (0, v3))
    × (v3.world ≡ 3)
    × (vfs_fread 4 1 2 v3 ≡ none)
unfolding path_parser_parse path_lexer_init path_lexer_lex
vfs_fread-vfs_fopen_example =
    vfs_fread-vfs_fopen counting name_a b'r' 4 1 ((66 ∷ 66 ∷ replicate 9 0) ∷ []) false
      (vfs_of (dangling ∷ empty ∷ [])) (dangling ∷ []) [] 1 1 refl refl (tt, tt) refl refl refl
      (omega arith) (λ e. omega arith) (λ e. omega arith)

vfs_fclose-twice_example :
    let v' = record (vfs_of (dangling ∷ [])) { world = 1 } in
    (vfs_fclose 1 (vfs_of (live (opened 1 7) ∷ [])) ≡ some (0, v')) × (vfs_fclose 1 v' ≡ none)
vfs_fclose-twice_example =
    vfs_fclose-twice counting (vfs_of (live (opened 1 7) ∷ [])) [] [] (opened 1 7) (omega arith)
      refl refl

vfs_fclose-is_empty_example :
    KeepsEmpty 1
      (vfs_of (live (opened 1 7) ∷ empty ∷ []))
      (vfs_fclose 1 (vfs_of (live (opened 1 7) ∷ empty ∷ [])))
vfs_fclose-is_empty_example =
    vfs_fclose-is_empty counting 1 (vfs_of (live (opened 1 7) ∷ empty ∷ [])) refl
