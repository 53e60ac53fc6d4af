-- ===== src/Named.antt =====
-- Names of at most 63 bytes: `NamedConfig` of src/include/speakerman/NamedConfig.h and
-- src/NamedConfig.cc. A name is the bytes of `name` before the first zero; texts hold no zero.
mod Examples
use speakerman.Prelude.{
  zero, suc, refl, ℕ, ◌≤◌, ◌≡◌, Bool, true, false, List, [], ◌∷◌, leb, length, take, Option, none,
  some, arith, length-take,
}

abbrev pub name_length : ℕ
name_length = 63

abbrev pub Name : Type 0
Name = List ℕ

-- `UnsetValue<char[]>::is`
abbrev pub is_unset_name : Name → Bool
is_unset_name [] = true
is_unset_name (c ∷ cs) = false

-- The loop of `copyToName` with `left` bytes of room: what it stores, and whether `*s` is zero.
unfoldable pub copy_bytes : ℕ → List ℕ → Name × Bool
copy_bytes zero [] = ([], true)
copy_bytes zero (c ∷ cs) = ([], false)
copy_bytes (suc left) [] = ([], true)
copy_bytes (suc left) (c ∷ cs) = let (rest, all) = copy_bytes left cs in (c ∷ rest, all)

-- `NamedConfig::copyToName`; a null source is `none`.
unfoldable pub copy_to_name : Option (List ℕ) → Name → Name × Bool
unfolding copy_bytes
copy_to_name none name = (name, false)
copy_to_name (some source) name = copy_bytes name_length source

-- `NamedConfig::vPrintToName` of the text that the format gives: `vsnprintf` with size 63 writes at
-- most 62 bytes and a zero, and returns the length of the whole text.
unfoldable pub print_to_name : List ℕ → Name × Bool
print_to_name text = (take 62 text, leb (length text) name_length)

copy_bytes_lem :
    (n : ℕ) (s : List ℕ) → ((copy_bytes n s).0 ≡ take n s) × ((copy_bytes n s).1 ≡ leb (length s) n)
unfolding copy_bytes
copy_bytes_lem zero [] = (refl, refl)
copy_bytes_lem zero (c ∷ cs) = ground arith
copy_bytes_lem (suc n) [] = ground arith
copy_bytes_lem (suc n) (c ∷ cs) = ground (arith, copy_bytes_lem n cs)

-- `copyToName` keeps the first 63 bytes, and says whether these are all.
pub copy_to_name_lem :
    (source : List ℕ) (name : Name)
    → let (name', all) = copy_to_name (some source) name in
      (name' ≡ take name_length source)
      × (all ≡ leb (length source) name_length)
      × (length name' ≤ name_length)
unfolding copy_to_name
copy_to_name_lem source name = ground (arith, copy_bytes_lem 63 source, length-take 63 source)

-- A text of exactly 63 bytes loses its last byte, and `vPrintToName` says that it did not.
pub print_to_name_cuts :
    (text : List ℕ)
    → length text ≡ 63
    → let (name, all) = print_to_name text in (all ≡ true) × (length name ≡ 62)
unfolding print_to_name
print_to_name_cuts text h = ground (arith, length-take 62 text)

-- A printed name fits.
pub print_to_name_fits : (text : List ℕ) → length (print_to_name text).0 ≤ name_length
unfolding print_to_name
print_to_name_fits text = omega (arith, length-take 62 text)
