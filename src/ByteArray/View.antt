-- ===== src/ByteArray/View.antt =====
-- What a `ByteArray` is to its callers: `m_size` bytes and a position among them.
use sylar_from_scratch.Base.{
  ℕ, ◌+◌, ◌-◌, List, ◌++◌, Option, some, none, length, take, drop, flatten, slice, leb, le→leb, ◌≤◌,
  ◌≡◌, [], append-nil, take-append-drop, arith, if◌then◌else◌,
}
use sylar_from_scratch.ByteArray.{ByteArray}

-- A file: bytes, and the offset at which it is read and written.
pub record File : Type 0 where
  pub contents : List ℕ
  pub offset : ℕ

unfoldable pub file_write : List ℕ → File → File
file_write buf f = record {
  contents = take f.offset f.contents ++ buf ++ drop (f.offset + length buf) f.contents;
  offset = f.offset + length buf;
}

-- None where fewer than `n` bytes are left.
unfoldable pub file_read : ℕ → File → Option (List ℕ × File)
file_read n f =
    if leb n (length f.contents - f.offset)
    then some (slice f.contents f.offset n, record f { offset = f.offset + n })
    else none

abbrev pub view : ByteArray → File
view s = record { contents = take s.size (flatten s.nodes); offset = s.position }

pub File_eq : (f g : File) → f.contents ≡ g.contents → f.offset ≡ g.offset → f ≡ g
File_eq f g c o = λ j. record { contents = c j; offset = o j }

pub file_write-nil : (f : File) → file_write [] f ≡ f
unfolding file_write
file_write-nil f =
    let e : f.offset + 0 ≡ f.offset = omega arith in
    File_eq _ _ (rw (e, append-nil) (take-append-drop f.offset f.contents)) e

pub file_read-some :
    (n : ℕ) (f : File)
    → n ≤ length f.contents - f.offset
    → file_read n f ≡ some (slice f.contents f.offset n, record f { offset = f.offset + n })
unfolding file_read
file_read-some n f h = rw (le→leb n (length f.contents - f.offset) h)
