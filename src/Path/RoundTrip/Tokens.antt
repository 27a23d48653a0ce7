-- ===== src/Path/RoundTrip/Tokens.antt =====
-- The tokens of a written path, and the parser that stands before one of them.
use icariusos.Base.{
  ℕ, suc, ◌≡◌, refl, ap, ◌∙◌, arith, Bool, true, false, List, [], ◌∷◌, ◌++◌, length, length-append,
  All, ◌==◌, some,
}
use icariusos.Path.Lexer.{
  TokenType, identifier, letter, colon, slash, dot, end, err, Token, Lexer, isalpha, deref,
  skip_letters, path_lexer_lex,
}
use icariusos.Path.Parser.{State, same_type, advance}

abbrev pub IsLetters : List ℕ → Type 0
IsLetters name = All (λ c. isalpha c ≡ true) name

-- What may follow an identifier: the end, or a character that is no letter and no colon.
abbrev pub IsStop : List ℕ → Type 0
IsStop [] = Unit
IsStop (c ∷ rest) = (isalpha c ≡ false) × ((c == b':') ≡ false)

skip_letters-append :
    (name rest : List ℕ) → IsLetters name → IsStop rest → skip_letters (name ++ rest) ≡ rest
unfolding skip_letters
skip_letters-append [] [] h stop = refl
skip_letters-append [] (c ∷ rest) h stop = rw (stop.0)
skip_letters-append (c ∷ name) rest (a, h) stop = rw a (skip_letters-append name rest h stop)

-- The lexer on `text`, wherever its last token began.
abbrev pub lexed : List ℕ → Token × Lexer
lexed text = path_lexer_lex (record { start = []; curr = text })

pub lex-any : (self : Lexer) → path_lexer_lex self ≡ lexed self.curr
unfolding path_lexer_lex
lex-any self = refl

abbrev pub token : TokenType → List ℕ → ℕ → Token
token type start len = record { type = type; start = start; len = len }

abbrev pub lexer_at : List ℕ → List ℕ → Lexer
lexer_at start curr = record { start = start; curr = curr }

pub lexed-end : lexed [] ≡ (token end [] 0, lexer_at [] [])
unfolding path_lexer_lex
lexed-end = refl

pub lexed-slash :
    (p : List ℕ) → lexed (b'/' ∷ p) ≡ (token slash (b'/' ∷ p) 1, lexer_at (b'/' ∷ p) p)
unfolding path_lexer_lex
lexed-slash p = ap (λ (n : ℕ). (token slash (b'/' ∷ p) n, lexer_at (b'/' ∷ p) p)) (omega arith)

pub lexed-colon :
    (p : List ℕ) → lexed (b':' ∷ p) ≡ (token colon (b':' ∷ p) 1, lexer_at (b':' ∷ p) p)
unfolding path_lexer_lex
lexed-colon p = ap (λ (n : ℕ). (token colon (b':' ∷ p) n, lexer_at (b':' ∷ p) p)) (omega arith)

pub lexed-dot : (p : List ℕ) → lexed (b'.' ∷ p) ≡ (token dot (b'.' ∷ p) 1, lexer_at (b'.' ∷ p) p)
unfolding path_lexer_lex
lexed-dot p = ap (λ (n : ℕ). (token dot (b'.' ∷ p) n, lexer_at (b'.' ∷ p) p)) (omega arith)

pub lexed-letter :
    (d : ℕ) (p : List ℕ)
    → isalpha d ≡ true
    → lexed (d ∷ b':' ∷ p) ≡ (token letter (d ∷ b':' ∷ p) 1, lexer_at (d ∷ b':' ∷ p) (b':' ∷ p))
unfolding path_lexer_lex
lexed-letter d p a =
    let some_char : (d == 0) ≡ false = ground arith in
    rw (some_char, a)
      (ap (λ (n : ℕ). (token letter (d ∷ b':' ∷ p) n, lexer_at (d ∷ b':' ∷ p) (b':' ∷ p)))
        (omega arith))

no_drive :
    (name rest : List ℕ) → IsLetters name → IsStop rest → (deref (name ++ rest) == b':') ≡ false
no_drive [] [] h stop = refl
no_drive [] (c ∷ rest) h stop = stop.1
no_drive (c ∷ name) rest (a, h) stop = ground arith

pub lexed-identifier :
    (c : ℕ) (name rest : List ℕ)
    → IsLetters (c ∷ name)
    → IsStop rest
    → lexed (c ∷ name ++ rest)
      ≡ (token identifier (c ∷ name ++ rest) (suc (length name)), lexer_at (c ∷ name ++ rest) rest)
unfolding path_lexer_lex
lexed-identifier c name rest (a, h) stop =
    let some_char : (c == 0) ≡ false = ground arith in
    let no_slash : (c == b'/') ≡ false = ground arith in
    let no_colon : (c == b':') ≡ false = ground arith in
    let no_dot : (c == b'.') ≡ false = ground arith in
    rw
      (
        some_char,
        a,
        no_drive name rest h stop,
        no_slash,
        no_colon,
        no_dot,
        skip_letters-append name rest h stop,
      )
      (ap (λ (n : ℕ). (token identifier (c ∷ name ++ rest) n, lexer_at (c ∷ name ++ rest) rest))
        (omega (arith, length-append name rest)))

-- The parser with `text` left to read, the token before it in `prev`.
unfoldable pub before : List ℕ → Token → Bool → State
before text prev has_error = record {
  curr = (lexed text).0;
  prev = prev;
  has_error = has_error;
  lexer = (lexed text).1;
}

-- Going on to the next token, where it is no error.
pub advance-before :
    (self : State) (text : List ℕ)
    → self.lexer.curr ≡ text
    → same_type (lexed text).0.type err ≡ false
    → advance self ≡ some (before text self.curr self.has_error)
unfolding advance before
advance-before self text e ok =
    let is : path_lexer_lex self.lexer ≡ lexed text = lex-any self.lexer ∙ ap lexed e in rw (is, ok)
