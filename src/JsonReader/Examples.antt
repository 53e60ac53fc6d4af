-- ===== src/JsonReader/Examples.antt =====
-- Runs of src/JsonCanonicalReader.cc.
use speakerman.Prelude.{
  ℕ, ◌≡◌, refl, List, [], ◌∷◌, ◌++◌, length, map, codes, decimal, arith, if◌then◌else◌, ltb,
}
use speakerman.Prelude.Effects.{Effect, returns, throws}
use speakerman.Prelude.Text.{last_digits}
use speakerman.JsonReader.{Builder, add_char, JsonCanonicalReader, make_reader, get_total_string}
use speakerman.JsonReader.Paths.{Adds}
use speakerman.JsonReader.Paths.Text.{join}
use speakerman.JsonReader.Paths.Run.{
  Part, name, index, part_text, slash, enter_all, leave_all, get_total_string-enter_all,
}

-- An `add` that throws if there is no room.
abbrev add : ℕ → Builder → Effect Builder
add c b =
    if ltb (length b.text) b.max_length
    then returns (record b { text = b.text ++ c ∷ [] })
    else throws

add-Adds : Adds add
unfolding add_char
add-Adds c b room = ground arith

-- groups/12/name
abbrev parts : List Part
parts = name (codes "groups") ∷ index 12 ∷ name (codes "name") ∷ []

get_total_string-enter_all_example :
    (r : JsonCanonicalReader) × (r' : JsonCanonicalReader) × (make_reader 100 8 ≡ returns r)
    × (enter_all add parts r ≡ returns r')
    × (get_total_string slash r'.path ≡ join slash (map part_text parts))
    × (leave_all (length parts) r' ≡ returns r)
unfolding decimal last_digits
get_total_string-enter_all_example =
    get_total_string-enter_all add 100 8 parts add-Adds (ground arith) (omega arith) (omega arith)
      (omega arith) (omega arith) (omega arith) (omega arith)

parts_path : join slash (map part_text parts) ≡ codes "groups/12/name"
unfolding decimal last_digits
parts_path = refl
