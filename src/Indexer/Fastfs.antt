-- ===== src/Indexer/Fastfs.antt =====
-- fastdata-indexer/fastfs-sub-indexer/src/fastfs.rs: uploads of files and the checks on them.
pub mod Paths
pub mod Bounds
pub mod Rows
pub mod Service
use key_manager.Base.{
  ℕ, ◌+◌, ◌%◌, Bool, true, false, ◌||◌, not, Option, none, some, ltb, leb, ◌==◌, any, is_empty,
  length, if◌then◌else◌,
}
use key_manager.Base.Text.{
  Str, Bytes, codes, len, ◌==ₛ◌, starts_with, ends_with, contains_char, split, is_ascii,
  is_ascii_control,
}

abbrev pub max_relative_path_length : ℕ
max_relative_path_length = 1024

abbrev pub max_mime_type_length : ℕ
max_mime_type_length = 256

abbrev pub offset_alignment : ℕ
offset_alignment = 1048576

abbrev pub max_full_size : ℕ
max_full_size = 33554432

pub record FastfsFileContent : Type 0 where
  pub mime_type : Str
  pub content : Bytes

pub record SimpleFastfs : Type 0 where
  pub relative_path : Str
  pub content : Option FastfsFileContent

pub record PartialFastfs : Type 0 where
  pub relative_path : Str
  pub offset : ℕ
  pub full_size : ℕ
  pub mime_type : Str
  pub content_chunk : Bytes
  pub nonce : ℕ

pub data FastfsData : Type 0 where
  simple : SimpleFastfs → FastfsData
  partial : PartialFastfs → FastfsData

-- `|c| c.is_empty() || c == "." || c == ".."`
abbrev pub is_bad_part : Str → Bool
is_bad_part c = is_empty c || (c ==ₛ codes ".") || (c ==ₛ codes "..")

unfoldable pub is_valid_relative_path : Str → Bool
is_valid_relative_path path =
    if is_empty path
      || ltb max_relative_path_length (len path)
      || starts_with path (codes "/")
      || starts_with path (codes "\\")
      || contains_char path 0
      || ends_with path (codes "/")
      || ends_with path (codes "\\")
      || any is_bad_part (split b'/' path)
      || any is_bad_part (split 92 path)
      || contains_char path b'%'
      || not (is_ascii path)
      || any is_ascii_control path
    then false
    else true

-- the check on a MIME type that both kinds of upload make
unfoldable pub is_bad_mime_type : Str → Bool
is_bad_mime_type mime_type =
    is_empty mime_type
    || ltb max_mime_type_length (len mime_type)
    || not (is_ascii mime_type)
    || any is_ascii_control mime_type

-- `as u32` and the sum on u32 wrap around.
unfoldable pub chunk_end : PartialFastfs → ℕ
chunk_end p = (p.offset + length p.content_chunk % 4294967296) % 4294967296

unfoldable pub partial_is_valid : PartialFastfs → Bool
unfolding is_valid_relative_path is_bad_mime_type chunk_end
partial_is_valid p =
    if not (is_valid_relative_path p.relative_path)
    then false
    else if not (p.offset % offset_alignment == 0) || leb max_full_size p.offset
    then false
    else if (p.full_size == 0) || ltb max_full_size p.full_size
    then false
    else if is_bad_mime_type p.mime_type
    then false
    else if ltb offset_alignment (length p.content_chunk)
    then false
    else if ltb p.full_size (chunk_end p)
    then false
    else if (p.nonce == 0) || ltb 2147483647 p.nonce
    then false
    else true

unfoldable pub simple_is_valid : SimpleFastfs → Bool
unfolding is_valid_relative_path is_bad_mime_type
simple_is_valid s = if not (is_valid_relative_path s.relative_path) then false else elim s.content [
  | none ↦ true
  | some content ↦
      if is_bad_mime_type content.mime_type
      then false
      else if ltb max_full_size (length content.content)
      then false
      else true
]
