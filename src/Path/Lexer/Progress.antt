-- ===== src/Path/Lexer/Progress.antt =====
-- How one token of the lexer relates to the text that it stands for.
use icariusos.Base.{
  ℕ, suc, ◌-◌, ◌<◌, ◌≤◌, ◌≡◌, ◌≢◌, refl, ap, arith, false, ◌&&◌, List, [], ◌∷◌, ◌++◌, take, length,
  All, ◌==◌, Bool-cases, inl, inr,
}
use icariusos.Path.Lexer.{
  TokenType, letter, colon, slash, dot, err, Token, Lexer, isalpha, deref, create_token,
  skip_letters, lex_char, lex_identifier, path_lexer_lex,
}

skip_letters-length : (p : List ℕ) → length (skip_letters p) ≤ length p
unfolding skip_letters
skip_letters-length [] = omega arith
skip_letters-length (c ∷ p) = ground (arith, skip_letters-length p)

skip_letters-split :
    (p : List ℕ) → take (length p - length (skip_letters p)) p ++ skip_letters p ≡ p
unfolding skip_letters
skip_letters-split [] = refl
skip_letters-split (c ∷ p) = elim (Bool-cases (isalpha c)) [
  | inl a ↦
      let more : suc (length p) - length (skip_letters p)
          ≡ suc (length p - length (skip_letters p)) =
        omega (arith, skip_letters-length p) in
      rw (a, more) (ap (λ r. c ∷ r) (skip_letters-split p))
  | inr a ↦ let none : suc (length p) - suc (length p) ≡ 0 = omega arith in rw (a, none)
]

-- The token starts where the lexer stood, what it covers is not empty unless the text has ended,
-- and the lexer goes on right behind it.
pub record Splits (p : List ℕ) (token : Token) (rest : List ℕ) : Type 0 where
  pub start : token.start ≡ p
  pub covers : take token.len p ++ rest ≡ p
  pub progress : p ≢ [] → 0 < token.len

one_char :
    (type : TokenType) (c : ℕ) (p : List ℕ)
    → Splits (c ∷ p) (create_token (record { start = c ∷ p; curr = p }) type) p
one_char type c p =
    let one : suc (length p) - length p ≡ 1 = omega arith in
    record { start = refl; covers = rw one refl; progress = λ ne. omega arith }

identifier-Splits :
    (c : ℕ) (p : List ℕ)
    → let (token, self) = lex_identifier (record { start = c ∷ p; curr = p }) in
      Splits (c ∷ p) token self.curr
unfolding lex_identifier
identifier-Splits c p =
    let more : suc (length p) - length (skip_letters p) ≡ suc (length p - length (skip_letters p)) =
      omega (arith, skip_letters-length p) in
    record {
      start = refl;
      covers = rw more (ap (λ r. c ∷ r) (skip_letters-split p));
      progress = λ ne. omega (arith, skip_letters-length p);
    }

lex_char-Splits :
    (c : ℕ) (p : List ℕ)
    → let (token, self) = lex_char c (record { start = c ∷ p; curr = p }) in
      Splits (c ∷ p) token self.curr
unfolding lex_char
lex_char-Splits c p = elim (Bool-cases (c == b'/')) [
  | inl e ↦ rw e (one_char slash c p)
  | inr n ↦ rw n (elim (Bool-cases (c == b':')) [
    | inl e ↦ rw e (one_char colon c p)
    | inr n ↦ rw n (elim (Bool-cases (c == b'.')) [
      | inl e ↦ rw e (one_char dot c p)
      | inr n ↦ rw n (elim (Bool-cases (isalpha c)) [
        | inl e ↦ rw e (identifier-Splits c p)
        | inr n ↦ rw n (one_char err c p)
      ])
    ])
  ])
]

lex-Splits :
    (start p : List ℕ)
    → All (λ c. c ≢ 0) p
    → let (token, self) = path_lexer_lex (record { start = start; curr = p }) in
      Splits p token self.curr
unfolding path_lexer_lex
lex-Splits start [] h = record { start = refl; covers = refl; progress = λ ne. absurd (ne refl) }
lex-Splits start (c ∷ p) (nz, h) =
    let some_char : (c == 0) ≡ false = ground arith in
    rw some_char (elim (Bool-cases (isalpha c && (deref p == b':'))) [
      | inl e ↦ rw e (one_char letter c p)
      | inr n ↦ rw n (lex_char-Splits c p)
    ])

-- Every call of the lexer on a text takes the next piece of it as its token and goes on right
-- behind it, and the piece is not empty unless the text has ended.
pub path_lexer_lex-Splits :
    (self : Lexer)
    → All (λ c. c ≢ 0) self.curr
    → let (token, self') = path_lexer_lex self in Splits self.curr token self'.curr
path_lexer_lex-Splits self h = lex-Splits self.start self.curr h
