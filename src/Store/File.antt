-- ===== src/Store/File.antt =====
-- `AppendOnlyFile` and `DataFile` of store/src/types.rs, with elements of one size in bytes.
use epic.Base.{
  ℕ, ◌+◌, ◌-◌, ◌*◌, ◌/◌, List, [], ◌∷◌, ◌++◌, Option, none, some, length, take, drop, replicate,
  ltb, leb, ◌==◌, if◌then◌else◌,
}
use epic.Base.Bits.{u64}

-- `content` is the file on the disk. Of the handle to it nothing depends.
pub record AppendOnlyFile : Type 0 where
  pub content : List ℕ
  pub mmap : Option (List ℕ)
  pub buffer : List ℕ
  pub buffer_start_pos : ℕ
  pub buffer_start_pos_bak : ℕ

-- `File::set_len` cuts a file, or extends it with zeros.
unfoldable pub set_len : ℕ → List ℕ → List ℕ
set_len n bytes = take n bytes ++ replicate (n - length bytes) 0

unfoldable pub append : List ℕ → AppendOnlyFile → AppendOnlyFile
append bytes f = record f { buffer = f.buffer ++ bytes }

unfoldable pub rewind : ℕ → AppendOnlyFile → AppendOnlyFile
rewind pos f = record f {
  buffer_start_pos_bak =
      if f.buffer_start_pos_bak == 0 then f.buffer_start_pos else f.buffer_start_pos_bak;
  buffer_start_pos = pos;
}

unfoldable pub discard : AppendOnlyFile → AppendOnlyFile
discard f = record f {
  buffer_start_pos =
      if ltb 0 f.buffer_start_pos_bak then f.buffer_start_pos_bak else f.buffer_start_pos;
  buffer_start_pos_bak = 0;
  buffer = [];
}

unfoldable pub release : AppendOnlyFile → AppendOnlyFile
release f = record f { mmap = none }

-- The bytes from an offset on, none if there are too few.
unfoldable pub slice : ℕ → ℕ → List ℕ → List ℕ
slice offset length' bytes =
    if ltb (length bytes) (u64 (offset + length')) then [] else take length' (drop offset bytes)

-- The file is mapped unless it is empty.
unfoldable pub map_file : List ℕ → Option (List ℕ)
map_file [] = none
map_file (b ∷ bytes) = some (b ∷ bytes)

module _ (elmt_size : ℕ) where
  unfoldable pub size_in_elmts : AppendOnlyFile → ℕ
  size_in_elmts f = length f.content / elmt_size

  unfoldable pub size_unsync_in_elmts : AppendOnlyFile → ℕ
  size_unsync_in_elmts f = u64 (f.buffer_start_pos + length f.buffer / elmt_size)

  unfoldable pub init : AppendOnlyFile → AppendOnlyFile
  init f =
      if length f.content == 0
      then record f { buffer_start_pos = 0 }
      else record f { mmap = some f.content; buffer_start_pos = size_in_elmts f }

  -- The file at a path that holds the bytes.
  unfoldable pub open_file : List ℕ → AppendOnlyFile
  open_file bytes = init (record {
    content = bytes;
    mmap = none;
    buffer = [];
    buffer_start_pos = 0;
    buffer_start_pos_bak = 0;
  })

  -- The offset of an element, all of one size.
  unfoldable pub offset : ℕ → ℕ
  offset pos = u64 (pos * elmt_size)

  -- The content that `flush` truncates to the rewound start.
  unfoldable pub truncate : AppendOnlyFile → List ℕ
  truncate f =
      if ltb 0 f.buffer_start_pos_bak
      then (if f.buffer_start_pos == 0
          then set_len 0 f.content
          else set_len (u64 (offset (f.buffer_start_pos - 1) + elmt_size)) f.content)
      else f.content

  unfoldable pub flush : AppendOnlyFile → AppendOnlyFile
  flush f =
      let bytes = truncate f ++ f.buffer in
      record {
        content = bytes;
        mmap = map_file bytes;
        buffer = [];
        buffer_start_pos = length bytes / elmt_size;
        buffer_start_pos_bak = 0;
      }

  unfoldable pub read_from_buffer : AppendOnlyFile → ℕ → List ℕ
  read_from_buffer f start = slice start elmt_size f.buffer

  unfoldable pub read_from_mmap : AppendOnlyFile → ℕ → List ℕ
  read_from_mmap f start = elim (f.mmap) [ none ↦ [] | some bytes ↦ slice start elmt_size bytes ]

  unfoldable pub read : AppendOnlyFile → ℕ → List ℕ
  read f pos =
      if leb (size_unsync_in_elmts f) pos
      then []
      else if ltb pos f.buffer_start_pos
      then read_from_mmap f (offset pos)
      else read_from_buffer f (offset pos - offset f.buffer_start_pos)
