-- ===== src/Text/PartialFileReader/Tests.antt =====
-- The theorems on the readers of a file at concrete inputs, and runs of the code.
use flashlight.Prelude.{
  ◌≡◌, refl, List, [], ◌∷◌, map, some, ok, arith, for_each, range_from, flat_map,
}
use flashlight.Strings.{Bytes, find_byte, trim}
use flashlight.Text.PartialFileReader.{
  PartialFileReader, new_reader, load_file, select_end, set_start, good, tellg, seekg, getline,
  is_newline, extract_line, get_position, has_next_line, get_line, lines_loop, get_lines,
}
use flashlight.Text.PartialFileReader.Lines.{unlines, IsLine, AreLines}
use flashlight.Text.PartialFileReader.Reading.{stream_at}
use flashlight.Text.PartialFileReader.Cover.{read_part, read_parts-cover}
use flashlight.Text.PartialFileReader.Ending.{get_lines-ends}

-- The lines "a", "bc" and "".
abbrev three_lines : List Bytes
three_lines = (97 ∷ []) ∷ (98 ∷ 99 ∷ []) ∷ [] ∷ []

three_lines-AreLines : AreLines three_lines
unfolding AreLines IsLine
three_lines-AreLines = ((omega arith, tt), ((omega arith, (omega arith, tt)), (tt, tt)))

read_parts-cover_example :
    (parts : List (List Bytes)) × (for_each (read_part 2 (unlines three_lines)) (range_from 0 2)
      ≡ ok (map some parts))
    × (flat_map (λ p. p) parts ≡ map trim three_lines)
read_parts-cover_example =
    read_parts-cover three_lines 2 three_lines-AreLines (omega arith) (omega arith)

-- A reader in the middle of a line that has no newline.
abbrev halfway : PartialFileReader
halfway = record { rank = 0; total_readers = 1; stream = stream_at (97 ∷ 98 ∷ []) 1; end = 2 }

get_lines-ends_example : (lines : List Bytes) × (get_lines halfway ≡ some lines)
get_lines-ends_example = get_lines-ends halfway (omega arith)

-- One line without a newline and two readers: the search of the first for its ending point meets the
-- end of the file, the stream fails, and neither reader reads the line.
lost_line :
    for_each (read_part 2 (97 ∷ 98 ∷ 99 ∷ 100 ∷ [])) (range_from 0 2) ≡ ok (some [] ∷ some [] ∷ [])
unfolding read_part new_reader load_file select_end set_start good tellg seekg getline is_newline
    extract_line get_position has_next_line get_line lines_loop find_byte
lost_line = refl

abbrev five_lines : List Bytes
five_lines = [] ∷ [] ∷ [] ∷ [] ∷ [] ∷ []

-- A rank equal to the number of readers is accepted, and reads a line of the last reader again.
read_twice :
    for_each (read_part 3 (unlines five_lines)) (range_from 0 4)
    ≡ ok (
        some (map trim ([] ∷ [] ∷ []))
        ∷ some (map trim ([] ∷ []))
        ∷ some (map trim ([] ∷ [] ∷ []))
        ∷ some (map trim ([] ∷ []))
        ∷ [])
unfolding read_part new_reader load_file select_end set_start good tellg seekg getline is_newline
    extract_line get_position has_next_line get_line lines_loop find_byte unlines
read_twice = refl
