-- ===== src/Text/PartialFileReader.antt =====
-- flashlight/lib/text/tokenizer/PartialFileReader.{h,cpp}, over the content of the file, which
-- createInputStream opens. The state of a std::ifstream is what its calls in this code read and
-- write: a failed tellg gives -1, and a stream that has met the end of the file or has failed does
-- not give a line.
pub mod Lines
pub mod Reading
pub mod Cover
pub mod Ending
mod Tests
use flashlight.Prelude.{
  ℕ, zero, suc, ◌+◌, ◌-◌, ◌*◌, ◌/◌, ◌^◌, Bool, true, false, not, ◌||◌, List, [], ◌∷◌, Option, some,
  none, Result, ok, throw, Error, ◌>>=◌, length, take, drop, ltb, ◌==◌, if◌then◌else◌,
}
use flashlight.Prelude.Int.{ℤ, pos, negsuc}
use flashlight.Strings.{Bytes, find_byte, trim}

pub record Stream : Type 0 where
  pub content : Bytes
  pub position : ℕ
  pub eofbit : Bool
  pub failbit : Bool

-- `size_t(-1)`
abbrev pub no_position : ℕ
no_position = 2 ^ 64 - 1

unfoldable pub good : Stream → Bool
good s = not (s.eofbit || s.failbit)

unfoldable pub tellg : Stream → Stream × ℕ
unfolding good
tellg s = if good s then (s, s.position) else (record s { failbit = true }, no_position)

unfoldable pub seekg : ℕ → Stream → Stream
seekg p s =
    if s.failbit then record s { eofbit = false } else record s { position = p; eofbit = false }

unfoldable pub is_newline : ℕ → Bool
is_newline c = c == 10

-- What is left of the file, up to a newline if there is one.
unfoldable pub extract_line : Stream → Stream × Bytes
unfolding find_byte is_newline
extract_line s =
    let rest = drop s.position s.content in
    elim (find_byte is_newline rest) [
      | none ↦ (
        record s {
          position = length s.content;
          eofbit = true;
          failbit = s.failbit || (length rest == 0);
        },
        rest,
      )
      | some j ↦ (record s { position = s.position + suc j }, take j rest)
    ]

unfoldable pub getline : Stream → Stream × Bytes
unfolding good extract_line
getline s = if good s then extract_line s else (record s { failbit = true }, [])

pub record PartialFileReader : Type 0 where
  pub rank : ℕ
  pub total_readers : ℕ
  pub stream : Stream
  pub end : ℕ

-- A stream that is not open fails.
abbrev pub unopened : Stream
unopened = record { content = []; position = 0; eofbit = false; failbit = true }

unfoldable pub new_reader : ℤ → ℤ → Result PartialFileReader
new_reader (negsuc rank) total_readers = throw Error.invalid_argument
new_reader (pos rank) (negsuc total_readers) = throw Error.invalid_argument
new_reader (pos rank) (pos total_readers) =
    if ltb total_readers rank
    then throw Error.invalid_argument
    else ok record { rank = rank; total_readers = total_readers; stream = unopened; end = 0 }

-- The ending point of the part, and the stream after the search for it.
unfoldable pub select_end : ℕ → ℕ → ℕ → ℕ → Stream → Stream × ℕ
unfolding seekg getline tellg
select_end file_size chunk_size rank total_readers s =
    if ltb (rank + 1) total_readers
    then tellg (getline (seekg (chunk_size * (rank + 1)) s)).0
    else (s, file_size)

unfoldable pub set_start : ℕ → ℕ → Stream → Stream
unfolding seekg getline
set_start chunk_size rank s =
    let at_chunk = seekg (chunk_size * rank) s in
    if ltb 0 rank then (getline at_chunk).0 else at_chunk

-- A division by zero is undefined.
unfoldable pub load_file : Bytes → PartialFileReader → Result PartialFileReader
unfolding select_end set_start
load_file content r =
    let opened : Stream = record {
      content = content;
      position = 0;
      eofbit = false;
      failbit = false;
    } in
    let (at_end, file_size) = tellg (seekg (length content) opened) in
    if r.total_readers == 0
    then throw Error.undefined_behaviour
    else (let chunk_size = file_size / r.total_readers in
        let (searched, end) = select_end file_size chunk_size r.rank r.total_readers at_end in
        ok (record r { stream = set_start chunk_size r.rank searched; end = end }))

unfoldable pub get_position : PartialFileReader → PartialFileReader × ℕ
unfolding tellg
get_position r = let (s, p) = tellg r.stream in (record r { stream = s }, p)

unfoldable pub has_next_line : PartialFileReader → PartialFileReader × Bool
unfolding get_position
has_next_line r = let (r', p) = get_position r in (r', ltb p r'.end)

unfoldable pub get_line : PartialFileReader → PartialFileReader × Bytes
unfolding getline
get_line r = let (s, line) = getline r.stream in (record r { stream = s }, trim line)

-- The loop of `getLines`, on fuel; `none` stands for fuel that ran out.
unfoldable pub lines_loop : ℕ → PartialFileReader → Option (List Bytes)
lines_loop zero r = none
lines_loop (suc fuel) r =
    let (checked, more) = has_next_line r in
    let (moved, line) = get_line checked in
    let rest = lines_loop fuel moved in
    if more then (elim rest [ none ↦ none | some lines ↦ some (line ∷ lines) ]) else some []

abbrev pub get_lines : PartialFileReader → Option (List Bytes)
get_lines r = lines_loop (length r.stream.content + 2) r
