-- ===== src/Settings.antt =====
-- The variables of a configuration file: the parsers and the keys of src/SpeakermanConfig.cpp, lines
-- 110 to 537. A `const char *` is the memory from where it points on, byte by byte; a text ends at a
-- zero in it.
pub mod Values
pub mod Keys
pub mod Variables
pub mod Table
pub mod Lines
pub mod Files
pub mod Bounds
pub mod Keep
pub mod KeepLines
pub mod Safe
pub mod Sized
pub mod Runtime
pub mod Select
pub mod Numbers
pub mod Split
pub mod Cut
pub mod Reading
pub mod Written
pub mod Load
mod Examples
use speakerman.Prelude.{ℕ, List, [], ◌∷◌, drop}

abbrev pub Memory : Type 0
Memory = List ℕ

-- `*p`; the end of the memory is read like a zero, but for names.
unfoldable pub char_at : Memory → ℕ
char_at [] = 0
char_at (c ∷ cs) = c

-- `p[i]`
abbrev pub char_from : Memory → ℕ → ℕ
char_from p i = char_at (drop i p)
