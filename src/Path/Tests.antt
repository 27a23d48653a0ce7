-- ===== src/Path/Tests.antt =====
-- Paths of the kernel, parsed.
use icariusos.Base.{◌≡◌, refl, none, some, [], ◌∷◌, false, map, arith, All, ◌≢◌, ℕ, List}
use Prim.Native.Char.{code}
use Prim.Native.String.{String}
use icariusos.Path.Lexer.{path_lexer_init, path_lexer_lex}
use icariusos.Path.Parser.{path_parser_parse}
use icariusos.Path.Lexer.Progress.{Splits, path_lexer_lex-Splits}
use icariusos.Path.RoundTrip.{written, path_parser_parse-written}
use icariusos.Path.RoundTrip.Buffers.{padded}

abbrev codes : String → List ℕ
codes String.[] = []
codes (String.◌∷◌ c s) = code c ∷ codes s

parse-shell :
    path_parser_parse (codes "A:/BIN/ICARSH.BIN")
    ≡ some (
      record {
        drive = 65;
        path =
            (66 ∷ 73 ∷ 78 ∷ 0 ∷ 0 ∷ 0 ∷ 0 ∷ 0 ∷ 0 ∷ 0 ∷ 0 ∷ [])
            ∷ (73 ∷ 67 ∷ 65 ∷ 82 ∷ 83 ∷ 72 ∷ 46 ∷ 66 ∷ 73 ∷ 78 ∷ 0 ∷ [])
            ∷ [];
      },
      false,
    )
unfolding path_parser_parse path_lexer_lex path_lexer_init
parse-shell = refl

parse-root :
    path_parser_parse (codes "A:/")
    ≡ some (
      record { drive = 65; path = (47 ∷ 0 ∷ 0 ∷ 0 ∷ 0 ∷ 0 ∷ 0 ∷ 0 ∷ 0 ∷ 0 ∷ 0 ∷ []) ∷ [] },
      false,
    )
unfolding path_parser_parse path_lexer_lex path_lexer_init
parse-root = refl

-- A drive with no slash reads through NULL, and a full 8.3 name does not fit its buffer.
parse-drive_only : path_parser_parse (codes "A:") ≡ none
unfolding path_parser_parse path_lexer_lex path_lexer_init
parse-drive_only = refl

parse-long_name : path_parser_parse (codes "A:/PROGRAMS.BIN") ≡ none
unfolding path_parser_parse path_lexer_lex path_lexer_init
parse-long_name = refl

nonzero : All (λ c. c ≢ 0) (codes "BIN/SH")
nonzero = (
  λ e. omega arith,
  (
    λ e. omega arith,
    (λ e. omega arith, (λ e. omega arith, (λ e. omega arith, (λ e. omega arith, tt)))),
  ),
)

path_lexer_lex-Splits_example :
    let (token, self') = path_lexer_lex (path_lexer_init (codes "BIN/SH")) in
    Splits (codes "BIN/SH") token self'.curr
unfolding path_lexer_init
path_lexer_lex-Splits_example = path_lexer_lex-Splits (path_lexer_init (codes "BIN/SH")) nonzero

path_parser_parse-written_example :
    path_parser_parse (65 ∷ b':' ∷ written (codes "BIN" ∷ codes "SH" ∷ []))
    ≡ some (record { drive = 65; path = map padded (codes "BIN" ∷ codes "SH" ∷ []) }, false)
path_parser_parse-written_example =
    path_parser_parse-written 65 (codes "BIN") (codes "SH" ∷ []) refl
      (((refl, (refl, (refl, tt))), omega arith), (((refl, (refl, tt)), omega arith), tt))
