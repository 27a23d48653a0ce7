-- ===== src/Path/Lexer.antt =====
-- src/x86/fs/pathlexer.c, with `isalpha` of src/x86/lib/ctype.c. A `char*` into the NUL-terminated
-- path is the list of the characters from there to the NUL, which is not in the list.
pub mod Progress
use icariusos.Base.{
  ℕ, zero, suc, ◌+◌, ◌-◌, Bool, true, false, ◌&&◌, ◌||◌, List, [], ◌∷◌, length, ◌==◌, leb,
  if◌then◌else◌,
}

pub data TokenType : Type 0 where
  identifier letter colon slash dot end err : TokenType

pub record Token : Type 0 where
  pub type : TokenType
  pub start : List ℕ
  pub len : ℕ

pub record Lexer : Type 0 where
  pub start : List ℕ
  pub curr : List ℕ

abbrev pub isalpha : ℕ → Bool
isalpha c = (leb 65 c && leb c 90) || (leb 97 c && leb c 122)

-- `*p`, and `p + 1` for a `p` that is not at the NUL.
abbrev pub deref : List ℕ → ℕ
deref [] = 0
deref (c ∷ p) = c

abbrev pub next_char : List ℕ → List ℕ
next_char [] = []
next_char (c ∷ p) = p

unfoldable pub path_lexer_init : List ℕ → Lexer
path_lexer_init path = record { start = path; curr = path }

abbrev pub is_eof : Lexer → Bool
is_eof self = deref self.curr == 0

abbrev pub peek : Lexer → ℕ
peek self = deref self.curr

abbrev pub peek_next : Lexer → ℕ
peek_next self = if is_eof self then 0 else deref (next_char self.curr)

abbrev pub advance : Lexer → Lexer
advance self = record self { curr = next_char self.curr }

abbrev pub create_token : Lexer → TokenType → Token
create_token self type = record {
  type = type;
  start = self.start;
  len = length self.start - length self.curr;
}

-- `while (isalpha(peek)) advance`, on the characters that are left.
unfoldable pub skip_letters : List ℕ → List ℕ
skip_letters [] = []
skip_letters (c ∷ p) = if isalpha c then skip_letters p else c ∷ p

unfoldable pub lex_identifier : Lexer → Token × Lexer
unfolding skip_letters
lex_identifier self =
    let self' = record self { curr = skip_letters self.curr } in
    (create_token self' identifier, self')

abbrev pub token_of : Lexer → TokenType → Token × Lexer
token_of self type = (create_token self type, self)

-- The `switch` on the character that was just passed.
unfoldable pub lex_char : ℕ → Lexer → Token × Lexer
unfolding lex_identifier
lex_char ch self =
    if ch == b'/'
    then token_of self slash
    else if ch == b':'
    then token_of self colon
    else if ch == b'.'
    then token_of self dot
    else if isalpha ch
    then lex_identifier self
    else token_of self err

unfoldable pub path_lexer_lex : Lexer → Token × Lexer
unfolding lex_char
path_lexer_lex self =
    let here = record self { start = self.curr } in
    if is_eof here
    then token_of here end
    else if isalpha (peek here) && (peek_next here == b':')
    then token_of (advance here) letter
    else lex_char (peek here) (advance here)
