-- ===== src/Path/RoundTrip.antt =====
-- A path that is written out from a drive letter and directory names parses back.
pub mod Tokens
pub mod Buffers
mod Names
use icariusos.Base.{
  ◌>>=◌, ℕ, zero, suc, ◌+◌, ◌≤◌, ◌≡◌, refl, ap, ◌∙◌, arith, Bool, true, false, List, [], ◌∷◌, ◌++◌,
  length, length-append, Option, none, some, if◌then◌else◌, All, map, replicate, get_or, ◌==◌,
}
use Tokens.{
  IsLetters, IsStop, lexed, token, lexer_at, lexed-end, lexed-slash, lexed-colon, lexed-letter,
  lexed-identifier, before, advance-before,
}
use Buffers.{padded}
use Names.{Follows, nothing, a_slash, match-before, eat-before, entry-dir, Follows-IsStop}
use icariusos.Path.Lexer.{
  TokenType, identifier, letter, colon, slash, dot, end, err, Token, Lexer, isalpha,
  path_lexer_init,
}
use icariusos.Path.Parser.{
  State, Node, same_type, identifier_size, match_token, parse_entries, parse_drive, name_root,
  parse_path, path_parser_parse, blank,
}

-- A directory name that the parser has room for.
abbrev pub IsName : List ℕ → Type 0
IsName [] = ⊥
IsName (c ∷ name) = IsLetters (c ∷ name) × (length (c ∷ name) ≤ identifier_size)

-- The names, each behind a slash.
abbrev pub written : List (List ℕ) → List ℕ
written [] = []
written (name ∷ names) = b'/' ∷ name ++ written names

written-Follows : (names : List (List ℕ)) → Follows (written names)
written-Follows [] = nothing
written-Follows (name ∷ names) = a_slash (name ++ written names)

written-no_dot : (names : List (List ℕ)) → same_type (lexed (written names)).0.type dot ≡ false
written-no_dot [] = rw lexed-end
written-no_dot (name ∷ names) = rw (lexed-slash (name ++ written names))

no-match :
    (prev : Token) (has_error : Bool)
    → match_token (before [] prev has_error) slash ≡ some (false, before [] prev has_error)
unfolding match_token before
no-match prev has_error = rw lexed-end

parse-written :
    (fuel : ℕ) (names : List (List ℕ)) (prev : Token) (has_error : Bool)
    → All IsName names
    → suc (length names) ≤ fuel
    → (last : Token) × (parse_entries fuel (before (written names) prev has_error)
        ≡ some (map padded names, before [] last has_error))
unfolding parse_entries
parse-written zero names prev has_error named enough = absurd (omega arith)
parse-written (suc fuel) [] prev has_error named enough = (prev, rw (no-match prev has_error))
parse-written (suc fuel) ([] ∷ names) prev has_error (bad, named) enough = absurd bad
parse-written (suc fuel) ((c ∷ name) ∷ names) prev has_error ((letters, fits), named) enough =
    let rest = written names in
    let text = c ∷ name ++ rest in
    let word = token identifier text (suc (length name)) in
    let is_word = lexed-identifier c name rest letters (Follows-IsStop (written-Follows names)) in
    let to_word : same_type (lexed text).0.type err ≡ false = rw is_word in
    let (last, more) = parse-written fuel names word has_error named (omega arith) in
    (
      last,
      rw (
        match-before (b'/' ∷ text) text slash prev has_error (rw (lexed-slash text))
            (rw (lexed-slash text)) to_word,
        entry-dir c name rest (lexed (b'/' ∷ text)).0 has_error letters fits (written-Follows names)
            (written-no_dot names),
        more,
      ),
    )

-- The drive letter and the colon, in front of a path.
drive-written :
    (d : ℕ) (rest : List ℕ) (prev : Token)
    → isalpha d ≡ true
    → same_type (lexed rest).0.type err ≡ false
    → parse_drive (before (d ∷ b':' ∷ rest) prev false)
      ≡ some (d, before rest (lexed (b':' ∷ rest)).0 false)
unfolding parse_drive before
drive-written d rest prev alpha ok =
    let is = lexed-letter d rest alpha in
    let ok' : same_type (lexed (b':' ∷ rest)).0.type err ≡ false = rw (lexed-colon rest) in
    rw (
      match-before (d ∷ b':' ∷ rest) (b':' ∷ rest) letter prev false (rw is) (rw is) ok',
      eat-before (b':' ∷ rest) rest colon (lexed (d ∷ b':' ∷ rest)).0 false (rw (lexed-colon rest))
          (rw (lexed-colon rest)) ok,
      is,
    )

length-written : (names : List (List ℕ)) → length names ≤ length (written names)
length-written [] = omega arith
length-written (name ∷ names) =
    let ih = length-written names in omega (arith, length-append name (written names))

name_root-padded :
    (name : List ℕ) (names : List (List ℕ))
    → IsName name
    → name_root (map padded (name ∷ names)) ≡ some (map padded (name ∷ names))
unfolding name_root
name_root-padded [] names bad = absurd bad
name_root-padded (c ∷ name) [] ((a, h), fits) =
    let some_char : (c == 0) ≡ false = ground arith in rw some_char
name_root-padded (c ∷ name) (other ∷ names) named = refl

-- A path of a drive letter and at least one directory name, each name made of letters and at most
-- eleven of them, parses with no error to that drive and those names, in that order, each padded
-- with zeros.
pub path_parser_parse-written :
    (d : ℕ) (name : List ℕ) (names : List (List ℕ))
    → isalpha d ≡ true
    → All IsName (name ∷ names)
    → path_parser_parse (d ∷ b':' ∷ written (name ∷ names))
      ≡ some (record { drive = d; path = map padded (name ∷ names) }, false)
unfolding path_parser_parse parse_path path_lexer_init before
path_parser_parse-written d name names alpha (named, all) =
    let body = written (name ∷ names) in
    let is = lexed-letter d body alpha in
    let start : same_type (lexed (d ∷ b':' ∷ body)).0.type err ≡ false = rw is in
    let ok : same_type (lexed body).0.type err ≡ false = rw (lexed-slash (name ++ written names)) in
    let (last, entries) =
      parse-written (suc (length (d ∷ b':' ∷ body))) (name ∷ names) (lexed (b':' ∷ body)).0 false
        (named, all) (let ih = length-written (name ∷ names) in omega arith) in
    let zeroed : State = record {
      curr = blank;
      prev = blank;
      has_error = false;
      lexer = path_lexer_init (d ∷ b':' ∷ body);
    } in
    rw (
      advance-before zeroed (d ∷ b':' ∷ body) refl start,
      drive-written d body blank alpha ok,
      entries,
      name_root-padded name names named,
    )
