-- ===== src/Indexer/Fastfs/Bounds.antt =====
-- Which uploads pass the checks, and that their fields fit the columns of the table.
use key_manager.Base.{
  ◌+◌, ◌%◌, ◌≤◌, ◌<◌, ◌≡◌, inl, inr, ◌↔◌, true, false, none, some, Option, length, arith,
  Option-cases,
}
use key_manager.Indexer.Fastfs.{
  PartialFastfs, SimpleFastfs, FastfsFileContent, partial_is_valid, simple_is_valid, chunk_end,
  is_valid_relative_path, is_bad_mime_type,
}
use key_manager.Indexer.Fastfs.Paths.{
  IsSafePath, IsMimeType, is_valid_relative_path_iff, is_bad_mime_type_iff,
}

-- A chunk at a multiple of 1 MiB within a file of at most 32 MiB.
abbrev pub IsChunk : PartialFastfs → Type 0
IsChunk p =
    IsSafePath p.relative_path
    × (p.offset % 1048576 ≡ 0)
    × (0 < p.full_size)
    × (p.full_size ≤ 33554432)
    × IsMimeType p.mime_type
    × (length p.content_chunk ≤ 1048576)
    × (p.offset < 33554432)
    × (p.offset + length p.content_chunk ≤ p.full_size)
    × (0 < p.nonce)
    × (p.nonce ≤ 2147483647)

chunk_end_exact :
    (p : PartialFastfs)
    → p.offset < 33554432
    → length p.content_chunk ≤ 1048576
    → chunk_end p ≡ p.offset + length p.content_chunk
unfolding chunk_end
chunk_end_exact p h k = omega arith

checks :
    (p : PartialFastfs)
    → (partial_is_valid p ≡ true) ↔ (
        (is_valid_relative_path p.relative_path ≡ true)
        × (p.offset % 1048576 ≡ 0)
        × (0 < p.full_size)
        × (p.full_size ≤ 33554432)
        × (is_bad_mime_type p.mime_type ≡ false)
        × (length p.content_chunk ≤ 1048576)
        × (p.offset < 33554432)
        × (chunk_end p ≤ p.full_size)
        × (0 < p.nonce)
        × (p.nonce ≤ 2147483647))
unfolding partial_is_valid
checks p = ground arith

-- A chunk is accepted exactly if its path and its type are, it starts at a multiple of 1 MiB below
-- 32 MiB, is at most 1 MiB long and ends within the announced size, which is above 0 and at most
-- 32 MiB, and its nonce is from 1 to i32::MAX. The sum that the code computes on u32 does not wrap around on what is accepted.
pub partial_is_valid_iff : (p : PartialFastfs) → (partial_is_valid p ≡ true) ↔ IsChunk p
partial_is_valid_iff p = (
  (λ h.
      let (path, al, pos, full, mime, chunk, off, fits, n, m) = (checks p).0 h in
      (
        (is_valid_relative_path_iff p.relative_path).0 path,
        al,
        pos,
        full,
        (is_bad_mime_type_iff p.mime_type).0 mime,
        chunk,
        off,
        omega (arith, chunk_end_exact p off chunk, fits),
        n,
        m,
      )),
  λ (path, al, pos, full, mime, chunk, off, fits, n, m). (checks p).1 (
    (is_valid_relative_path_iff p.relative_path).1 path,
    al,
    pos,
    full,
    (is_bad_mime_type_iff p.mime_type).1 mime,
    chunk,
    off,
    omega (arith, chunk_end_exact p off chunk, fits),
    n,
    m,
  ),
)

-- The content of a simple upload: none, or at most 32 MiB of a type.
abbrev pub IsContent : Option FastfsFileContent → Type 0
IsContent none = Unit
IsContent (some c) = IsMimeType c.mime_type × (length c.content ≤ 33554432)

content_checks :
    (s : SimpleFastfs) (c : FastfsFileContent)
    → s.content ≡ some c
    → (simple_is_valid s ≡ true) ↔ (
        (is_valid_relative_path s.relative_path ≡ true)
        × (is_bad_mime_type c.mime_type ≡ false)
        × (length c.content ≤ 33554432))
unfolding simple_is_valid
content_checks s c h = ground (arith, h)

no_content_checks :
    (s : SimpleFastfs)
    → s.content ≡ none
    → (simple_is_valid s ≡ true) ↔ (is_valid_relative_path s.relative_path ≡ true)
unfolding simple_is_valid
no_content_checks s h = ground (arith, h)

IsContent-none : (o : Option FastfsFileContent) → o ≡ none → IsContent o
IsContent-none none h = tt
IsContent-none (some c) h = absurd cc

IsContent-some :
    (o : Option FastfsFileContent) (c : FastfsFileContent)
    → o ≡ some c
    → IsContent o ↔ (IsMimeType c.mime_type × (length c.content ≤ 33554432))
IsContent-some o c h = rw h ((λ x. x), λ x. x)

-- A simple upload is accepted exactly if its path is, and its content, if any, has an accepted type
-- and at most 32 MiB.
pub simple_is_valid_iff :
    (s : SimpleFastfs)
    → (simple_is_valid s ≡ true) ↔ (IsSafePath s.relative_path × IsContent s.content)
simple_is_valid_iff s = elim (Option-cases s.content) [
  | inl h ↦ (
    (λ e. (
      (is_valid_relative_path_iff s.relative_path).0 ((no_content_checks s h).0 e),
      IsContent-none s.content h,
    )),
    λ (p, _). (no_content_checks s h).1 ((is_valid_relative_path_iff s.relative_path).1 p),
  )
  | inr (c, h) ↦ (
    (λ e.
        let (p, m, l) = (content_checks s c h).0 e in
        (
          (is_valid_relative_path_iff s.relative_path).0 p,
          (IsContent-some s.content c h).1 ((is_bad_mime_type_iff c.mime_type).0 m, l),
        )),
    λ (p, q).
        let (m, l) = (IsContent-some s.content c h).0 q in
        (content_checks s c h).1 (
          (is_valid_relative_path_iff s.relative_path).1 p,
          (is_bad_mime_type_iff c.mime_type).1 m,
          l,
        ),
  )
]
