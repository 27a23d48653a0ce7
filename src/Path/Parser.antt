-- ===== src/Path/Parser.antt =====
-- src/x86/fs/pathparser.c. `State` is the parser with its lexer. Nodes come from `kzalloc`, which is
-- taken to succeed. A write behind the eleven bytes of an identifier, and a read through NULL, is a
-- fault: the result is `none`. The messages are not modelled.
use icariusos.Base.{
  ◌>>=◌, ℕ, zero, suc, ◌+◌, Bool, true, false, List, [], ◌∷◌, ◌++◌, Option, none, some, length,
  take, drop, replicate, ltb, leb, ◌==◌, if◌then◌else◌, get_or,
}
use icariusos.Path.Lexer.{
  TokenType, identifier, letter, colon, slash, dot, end, err, Token, Lexer, path_lexer_init,
  path_lexer_lex,
}

abbrev pub same_type : TokenType → TokenType → Bool
same_type identifier identifier = true
same_type letter letter = true
same_type colon colon = true
same_type slash slash = true
same_type dot dot = true
same_type end end = true
same_type err err = true
same_type _ _ = false

pub record State : Type 0 where
  pub curr : Token
  pub prev : Token
  pub has_error : Bool
  pub lexer : Lexer

-- `pathnode_t`: the chain of nodes is a list of their identifiers.
abbrev pub Node : Type 0
Node = List ℕ

-- `drive` is `drive[0]`.
pub record Root : Type 0 where
  pub drive : ℕ
  pub path : List Node

abbrev pub identifier_size : ℕ
identifier_size = 11

abbrev pub report_error : State → State
report_error self = record self { has_error = true }

abbrev pub check : State → TokenType → Bool
check self expected = same_type self.curr.type expected

-- The loop of `_path_parser_advance`; each round that meets an error has passed a character.
unfoldable pub advance_loop : ℕ → State → Option State
advance_loop zero self = none
advance_loop (suc fuel) self =
    let (token, lexer) = path_lexer_lex self.lexer in
    let self' = record self { curr = token; lexer = lexer } in
    let rest = advance_loop fuel (report_error self') in
    if same_type token.type err then rest else some self'

unfoldable pub advance : State → Option State
unfolding advance_loop
advance self = advance_loop (suc (length self.lexer.curr)) (record self { prev = self.curr })

unfoldable pub match_token : State → TokenType → Option (Bool × State)
unfolding advance
match_token self expected =
    if check self expected
    then (advance self >>= λ self'. some (true, self'))
    else some (false, self)

unfoldable pub eat : State → TokenType → Option State
unfolding advance
eat self expected = if check self expected then advance self else some (report_error self)

-- `memcpy(identifier + offset, bytes, …)`
unfoldable pub write : Node → ℕ → List ℕ → Option Node
write node offset bytes =
    if leb (offset + length bytes) identifier_size
    then some (take offset node ++ bytes ++ drop (offset + length bytes) node)
    else none

-- The first `n` characters behind a pointer, the NUL among them.
abbrev pub chars : List ℕ → ℕ → List ℕ
chars p n = take n (p ++ (0 ∷ []))

unfoldable pub parse_dir : State → Node → Option Node
unfolding write
parse_dir self node = write node 0 (chars self.prev.start self.prev.len)

unfoldable pub parse_filename : State → Node → Option (Node × State)
unfolding write eat
parse_filename self node = do
  let namelen = if ltb self.prev.len 8 then self.prev.len else 8
  node ← write node 0 (chars self.prev.start namelen)
  self ← eat self dot
  self ← eat self identifier
  let extlen = if ltb self.prev.len 3 then self.prev.len else 3
  node ← write node namelen (b'.' ∷ [])
  node ← write node (namelen + 1) (chars self.prev.start (extlen + 1))
  node ← write node (namelen + 1 + extlen) (0 ∷ [])
  some (node, self)

-- What `_path_parser_parse_entry` does once it has an identifier.
unfoldable pub parse_name : State → Node → Option (Node × State)
unfolding parse_dir parse_filename
parse_name self node = do
  node ← parse_dir self node
  if check self dot then parse_filename self node else some (node, self)

unfoldable pub parse_entry : State → Node → Option (Node × State)
unfolding match_token parse_name
parse_entry self node = match_token self identifier >>= λ (found, self').
    if found then parse_name self' node else some (node, self')

-- The `while` loop of `_path_parser_parse_entries`.
unfoldable pub parse_entries : ℕ → State → Option (List Node × State)
unfolding match_token parse_entry
parse_entries zero self = none
parse_entries (suc fuel) self = match_token self slash >>= λ (found, self'). elim found [
  | false ↦ some ([], self')
  | true ↦ parse_entry self' (replicate identifier_size 0) >>= λ (node, self'').
      parse_entries fuel self'' >>= λ (nodes, last). some (node ∷ nodes, last)
]

unfoldable pub parse_drive : State → Option (ℕ × State)
unfolding match_token eat
parse_drive self = match_token self letter >>= λ (found, self').
    if found
    then (eat self' colon >>= λ self''. some (get_or self'.prev.start 0 0, self''))
    else some (0, self')

-- The root alone, `"/"`, where the one name is empty; a path with no name at all reads NULL.
unfoldable pub name_root : List Node → Option (List Node)
name_root [] = none
name_root (node ∷ []) =
    if get_or node 0 0 == 0 then some ((b'/' ∷ replicate 10 0) ∷ []) else some (node ∷ [])
name_root (node ∷ other ∷ nodes) = some (node ∷ other ∷ nodes)

unfoldable pub parse_path : ℕ → State → Option (Root × State)
unfolding parse_drive parse_entries name_root
parse_path fuel self = do
  (drive, self) ← parse_drive self
  (nodes, self) ← parse_entries fuel self
  path ← name_root nodes
  some (record { drive = drive; path = path }, self)

abbrev pub blank : Token
blank = record { type = identifier; start = []; len = 0 }

-- `path_parser_parse` from a zeroed parser, as `vfs_fopen` calls it. The loop over the entries is
-- given one round for each character and one more.
unfoldable pub path_parser_parse : List ℕ → Option (Root × Bool)
unfolding advance parse_path
path_parser_parse path = do
  self ←
      advance
        (record { curr = blank; prev = blank; has_error = false; lexer = path_lexer_init path })
  (root, self) ← parse_path (suc (length path)) self
  some (root, self.has_error)
