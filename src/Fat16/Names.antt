-- ===== src/Fat16/Names.antt =====
-- File names: `NAME.EXT` as the user writes it, the characters before the end of the string, and the
-- eleven bytes of a directory entry, padded with spaces.
use icariusos.Base.{
  ℕ, zero, suc, ◌≤◌, ◌≡◌, ◌≢◌, refl, sym, ap, ◌∙◌, arith, false, ◌||◌, List, [], ◌∷◌, ◌++◌,
  append-nil, length, drop, get_or, All, All-map, ◌==◌, if◌then◌else◌,
}

abbrev pub space : ℕ
space = 0x20

abbrev pub dot : ℕ
dot = 0x2E

-- A field of `n` bytes that begins with the characters.
abbrev pub padded : ℕ → List ℕ → List ℕ
padded zero cs = []
padded (suc n) [] = space ∷ padded n []
padded (suc n) (c ∷ cs) = c ∷ padded n cs

-- The loop over the name, with `n` of its eight bytes left: the bytes, and the string from where it
-- ends.
unfoldable pub copy_name : ℕ → List ℕ → List ℕ × List ℕ
copy_name zero cs = ([], cs)
copy_name (suc n) [] = (padded (suc n) [], [])
copy_name (suc n) (c ∷ cs) =
    let (bytes, rest) = copy_name n cs in
    if (c == 0) || (c == dot) then (padded (suc n) [], c ∷ cs) else (c ∷ bytes, rest)

-- The loop over the extension.
unfoldable pub copy_extension : ℕ → List ℕ → List ℕ
copy_extension zero cs = []
copy_extension (suc n) [] = padded (suc n) []
copy_extension (suc n) (c ∷ cs) =
    let bytes = copy_extension n cs in if c == 0 then padded (suc n) [] else c ∷ bytes

unfoldable pub get_native_filename_from_userland : List ℕ → List ℕ
unfolding copy_name copy_extension
get_native_filename_from_userland userland =
    let (name, rest) = copy_name 8 userland in
    name ++ (if get_or rest 0 0 == dot then copy_extension 3 (drop 1 rest) else padded 3 [])

-- The bytes of a field before the first space.
unfoldable pub before_space : ℕ → List ℕ → List ℕ
before_space zero cs = []
before_space (suc n) [] = []
before_space (suc n) (c ∷ cs) = let rest = before_space n cs in if c == space then [] else c ∷ rest

unfoldable pub get_userland_filename_from_native : List ℕ → List ℕ
unfolding before_space
get_userland_filename_from_native native =
    before_space 8 native
    ++ (if get_or native 8 0 == space then [] else dot ∷ before_space 3 (drop 8 native))

-- A name and its extension, with a dot between them where there is one.
abbrev pub joined : List ℕ → List ℕ → List ℕ
joined name [] = name
joined name (c ∷ cs) = name ++ (dot ∷ c ∷ cs)

-- The characters that can stand in an extension, and in a name.
abbrev pub IsExtensionChar : ℕ → Type 0
IsExtensionChar c = (c ≢ 0) × (c ≢ space)

abbrev pub IsNameChar : ℕ → Type 0
IsNameChar c = (c ≢ 0) × (c ≢ space) × (c ≢ dot)

copy_name-chars :
    (n : ℕ) (name : List ℕ)
    → All IsNameChar name
    → length name ≤ n
    → copy_name n name ≡ (padded n name, [])
unfolding copy_name
copy_name-chars zero [] chars fits = refl
copy_name-chars zero (c ∷ cs) chars fits = absurd (omega arith)
copy_name-chars (suc n) [] chars fits = refl
copy_name-chars (suc n) (c ∷ cs) ((null, blank, point), rest) fits =
    let go : ((c == 0) || (c == dot)) ≡ false = ground arith in
    rw (go, copy_name-chars n cs rest (omega arith))

copy_name-dot :
    (n : ℕ) (name cs : List ℕ)
    → All IsNameChar name
    → length name ≤ n
    → copy_name n (name ++ (dot ∷ cs)) ≡ (padded n name, dot ∷ cs)
unfolding copy_name
copy_name-dot zero [] cs chars fits = refl
copy_name-dot zero (c ∷ name) cs chars fits = absurd (omega arith)
copy_name-dot (suc n) [] cs chars fits = refl
copy_name-dot (suc n) (c ∷ name) cs ((null, blank, point), rest) fits =
    let go : ((c == 0) || (c == dot)) ≡ false = ground arith in
    rw (go, copy_name-dot n name cs rest (omega arith))

copy_extension-chars :
    (n : ℕ) (cs : List ℕ)
    → All IsExtensionChar cs
    → length cs ≤ n
    → copy_extension n cs ≡ padded n cs
unfolding copy_extension
copy_extension-chars zero [] chars fits = refl
copy_extension-chars zero (c ∷ cs) chars fits = absurd (omega arith)
copy_extension-chars (suc n) [] chars fits = refl
copy_extension-chars (suc n) (c ∷ cs) ((null, blank), rest) fits =
    let go : (c == 0) ≡ false = ground arith in
    rw (go, copy_extension-chars n cs rest (omega arith))

before_space-padded :
    (n : ℕ) (cs more : List ℕ)
    → All (λ c. c ≢ space) cs
    → length cs ≤ n
    → before_space n (padded n cs ++ more) ≡ cs
unfolding before_space
before_space-padded zero [] more chars fits = refl
before_space-padded zero (c ∷ cs) more chars fits = absurd (omega arith)
before_space-padded (suc n) [] more chars fits = refl
before_space-padded (suc n) (c ∷ cs) more (blank, rest) fits =
    let go : (c == space) ≡ false = ground arith in
    rw (go, before_space-padded n cs more rest (omega arith))

drop-padded : (n : ℕ) (cs more : List ℕ) → drop n (padded n cs ++ more) ≡ more
drop-padded zero cs more = refl
drop-padded (suc n) [] more = drop-padded n [] more
drop-padded (suc n) (c ∷ cs) more = drop-padded n cs more

get_or-padded : (n : ℕ) (cs more : List ℕ) → get_or (padded n cs ++ more) n 0 ≡ get_or more 0 0
get_or-padded zero cs more = refl
get_or-padded (suc n) [] more = get_or-padded n [] more
get_or-padded (suc n) (c ∷ cs) more = get_or-padded n cs more

-- What the name becomes in the entry: two padded fields.
pub get_native_filename_from_userland-joined :
    (name ext : List ℕ)
    → All IsNameChar name
    → All IsExtensionChar ext
    → length name ≤ 8
    → length ext ≤ 3
    → get_native_filename_from_userland (joined name ext) ≡ padded 8 name ++ padded 3 ext
unfolding get_native_filename_from_userland
get_native_filename_from_userland-joined name [] chars ext_chars fits ext_fits =
    rw (copy_name-chars 8 name chars fits)
get_native_filename_from_userland-joined name (c ∷ cs) chars ext_chars fits ext_fits =
    rw
      (copy_name-dot 8 name (c ∷ cs) chars fits, copy_extension-chars 3 (c ∷ cs) ext_chars ext_fits)

get_userland_filename_from_native-padded :
    (name ext : List ℕ)
    → All (λ c. c ≢ space) name
    → All (λ c. c ≢ space) ext
    → length name ≤ 8
    → length ext ≤ 3
    → get_userland_filename_from_native (padded 8 name ++ padded 3 ext) ≡ joined name ext
unfolding get_userland_filename_from_native
get_userland_filename_from_native-padded name [] chars ext_chars fits ext_fits =
    rw (before_space-padded 8 name (padded 3 []) chars fits, get_or-padded 8 name (padded 3 []))
      (append-nil name)
get_userland_filename_from_native-padded name (c ∷ cs) chars (blank, rest) fits ext_fits =
    let go : (c == space) ≡ false = ground arith in
    let last : before_space 3 (padded 3 (c ∷ cs)) ≡ c ∷ cs =
      ap (before_space 3) (sym (append-nil (padded 3 (c ∷ cs))))
      ∙ before_space-padded 3 (c ∷ cs) [] (blank, rest) ext_fits in
    rw (
      before_space-padded 8 name (padded 3 (c ∷ cs)) chars fits,
      get_or-padded 8 name (padded 3 (c ∷ cs)),
      go,
      drop-padded 8 name (padded 3 (c ∷ cs)),
      last,
    )

-- A name of at most eight characters, none of them the end of a string, a space or a dot, and an
-- extension of at most three, none of them the end of a string or a space, come back from the
-- directory entry as they were written, with a dot between them where there is an extension.
pub get_userland_filename_from_native-get_native_filename_from_userland :
    (name ext : List ℕ)
    → All IsNameChar name
    → All IsExtensionChar ext
    → length name ≤ 8
    → length ext ≤ 3
    → get_userland_filename_from_native (get_native_filename_from_userland (joined name ext))
      ≡ joined name ext
get_userland_filename_from_native-get_native_filename_from_userland name ext chars ext_chars fits
      ext_fits =
    rw (get_native_filename_from_userland-joined name ext chars ext_chars fits ext_fits) (
      get_userland_filename_from_native-padded name ext
        (All-map IsNameChar (λ c. c ≢ space) name (λ c h. h.1) chars)
        (All-map IsExtensionChar (λ c. c ≢ space) ext (λ c h. h.1) ext_chars) fits ext_fits)
