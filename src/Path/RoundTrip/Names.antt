-- ===== src/Path/RoundTrip/Names.antt =====
-- Parsing one name behind a slash.
use icariusos.Base.{
  ℕ, suc, ◌≤◌, ◌≡◌, refl, ap, ◌∙◌, arith, Bool, true, false, List, [], ◌∷◌, ◌++◌, take, replicate,
  length, some, append_assoc,
}
use icariusos.Path.Lexer.{TokenType, identifier, dot, err, Token}
use icariusos.Path.Parser.{
  same_type, identifier_size, match_token, eat, write, chars, parse_dir, parse_entry,
}
use icariusos.Path.RoundTrip.Tokens.{
  IsLetters, IsStop, lexed, token, lexer_at, lexed-end, lexed-slash, lexed-dot, lexed-identifier,
  before, advance-before,
}
use icariusos.Path.RoundTrip.Buffers.{padded, take-append, write-padded}

-- Matching the token that stands there.
pub match-before :
    (text rest : List ℕ) (expected : TokenType) (prev : Token) (has_error : Bool)
    → same_type (lexed text).0.type expected ≡ true
    → (lexed text).1.curr ≡ rest
    → same_type (lexed rest).0.type err ≡ false
    → match_token (before text prev has_error) expected
      ≡ some (true, before rest (lexed text).0 has_error)
unfolding match_token before
match-before text rest expected prev has_error is goes ok =
    rw (is, advance-before (before text prev has_error) rest goes ok)

pub eat-before :
    (text rest : List ℕ) (expected : TokenType) (prev : Token) (has_error : Bool)
    → same_type (lexed text).0.type expected ≡ true
    → (lexed text).1.curr ≡ rest
    → same_type (lexed rest).0.type err ≡ false
    → eat (before text prev has_error) expected ≡ some (before rest (lexed text).0 has_error)
unfolding eat before
eat-before text rest expected prev has_error is goes ok =
    rw (is, advance-before (before text prev has_error) rest goes ok)

-- What may stand behind a name in a written path.
pub data Follows : List ℕ → Type 0 where
  nothing : Follows []
  a_slash : (p : List ℕ) → Follows (b'/' ∷ p)
  a_dot : (p : List ℕ) → Follows (b'.' ∷ p)

pub Follows-IsStop : {rest : List ℕ} → Follows rest → IsStop rest
Follows-IsStop nothing = tt
Follows-IsStop (a_slash p) = (refl, refl)
Follows-IsStop (a_dot p) = (refl, refl)

Follows-ok : {rest : List ℕ} → Follows rest → same_type (lexed rest).0.type err ≡ false
Follows-ok nothing = rw lexed-end
Follows-ok (a_slash p) = rw (lexed-slash p)
Follows-ok (a_dot p) = rw (lexed-dot p)

chars-append : (a b : List ℕ) → chars (a ++ b) (length a) ≡ a
chars-append a b = ap (take (length a)) (append_assoc a b (0 ∷ [])) ∙ take-append a (b ++ (0 ∷ []))

module _ (c : ℕ) (name rest : List ℕ) (letters : IsLetters (c ∷ name)) (follows : Follows rest)
    (prev : Token) (has_error : Bool) where
  abbrev pub whole : List ℕ
  whole = c ∷ name

  abbrev word : Token
  word = token identifier (c ∷ name ++ rest) (suc (length name))

  is_word : lexed (c ∷ name ++ rest) ≡ (word, lexer_at (c ∷ name ++ rest) rest)
  is_word = lexed-identifier c name rest letters (Follows-IsStop follows)

  match-word :
      match_token (before (c ∷ name ++ rest) prev has_error) identifier
      ≡ some (true, before rest word has_error)
  match-word =
      match-before (c ∷ name ++ rest) rest identifier prev has_error (rw is_word) (rw is_word)
        (Follows-ok follows)
      ∙ rw is_word

  dir-word :
      length whole ≤ identifier_size
      → parse_dir (before rest word has_error) (padded []) ≡ some (padded whole)
  unfolding parse_dir before
  dir-word fits =
      ap (write (padded []) 0) (chars-append whole rest) ∙ write-padded [] whole (omega arith)

-- A directory name, with a slash or the end behind it, gives its padded node.
pub entry-dir :
    (c : ℕ) (name rest : List ℕ) (prev : Token) (has_error : Bool)
    → IsLetters (c ∷ name)
    → length (c ∷ name) ≤ identifier_size
    → Follows rest
    → same_type (lexed rest).0.type dot ≡ false
    → parse_entry (before (c ∷ name ++ rest) prev has_error) (replicate identifier_size 0)
      ≡ some (
        padded (c ∷ name),
        before rest (token identifier (c ∷ name ++ rest) (suc (length name))) has_error,
      )
unfolding parse_entry
entry-dir c name rest prev has_error letters fits follows no_dot =
    rw
      (
        match-word c name rest letters follows prev has_error,
        dir-word c name rest letters follows prev has_error fits,
      )
      (unfold before in rw no_dot)
