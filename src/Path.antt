-- ===== src/Path.antt =====
-- src/x86/fs/pathlexer.c and src/x86/fs/pathparser.c: from the text of a path to the chain of names
-- that the file system walks.
pub mod Lexer
pub mod Parser
pub mod RoundTrip
mod Tests
