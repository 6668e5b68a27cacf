-- ===== src/ByteArray/Ahead.antt =====
-- The bytes that lie ahead of the position: how `read` takes them and `write` puts them there.
use sylar_from_scratch.Base.{
  ℕ, ◌+◌, ◌-◌, ◌≤◌, ◌≡◌, ap, ap₂, sym, ◌∙◌, List, ◌++◌, some, arith, length, take, drop,
  take-append_self, drop-append_self, drop-append_right, append_assoc, length-append, length-take,
  length-drop, drop-drop, some_inj,
}
use sylar_from_scratch.ByteArray.{ByteArray, ok, ◌>>=◌, get_read_size, read, write, set_position}
use sylar_from_scratch.ByteArray.Chain.{IsValid}
use sylar_from_scratch.ByteArray.View.{File, file_read, file_read-some, file_write, view}
use sylar_from_scratch.ByteArray.Write.{write-File}
use sylar_from_scratch.ByteArray.Read.{read-File, length-contents}
use sylar_from_scratch.ByteArray.Position.{set_position-File}

pub record Ahead (s : ByteArray) (bytes : List ℕ) : Type 0 where
  pub valid : IsValid s
  pub left : drop s.position (view s).contents ≡ bytes

Ahead-length : {s : ByteArray} {bytes : List ℕ} → Ahead s bytes → length bytes ≡ get_read_size s
Ahead-length {s} a =
    ap length (sym a.left)
    ∙ length-drop s.position (view s).contents
    ∙ ap (λ k. k - s.position) (length-contents a.valid)

file_read-Ahead :
    (bytes rest got : List ℕ) (f g : File)
    → drop f.offset f.contents ≡ bytes ++ rest
    → length bytes ≤ length f.contents - f.offset
    → file_read (length bytes) f ≡ some (got, g)
    → (got ≡ bytes) × (drop g.offset g.contents ≡ rest)
file_read-Ahead bytes rest got f g left there file =
    let n = length bytes in
    let both = some_inj (sym file ∙ file_read-some n f there) in
    (
      ap (λ p. p.0) both ∙ ap (take n) left ∙ take-append_self bytes rest,
      ap (λ p. drop (p.1).offset (p.1).contents) both
          ∙ drop-drop f.offset n f.contents
          ∙ ap (drop n) left
          ∙ drop-append_self bytes rest,
    )

-- `read` returns what lies ahead, and leaves the rest ahead.
pub read-Ahead :
    (s : ByteArray) (bytes rest : List ℕ)
    → 1 ≤ length bytes
    → Ahead s (bytes ++ rest)
    → (t : ByteArray) × (read (length bytes) s ≡ ok (bytes, t))
      × Ahead t rest
      × (t.endian ≡ s.endian)
read-Ahead s bytes rest one a =
    let n = length bytes in
    let left : n ≤ get_read_size s = omega (arith, Ahead-length a, length-append bytes rest) in
    let (got, t, e, valid, file, endian) = read-File n s a.valid one left in
    let there : n ≤ length (view s).contents - s.position =
      omega (arith, length-contents a.valid, left) in
    let (bytes_eq, rest_eq) = file_read-Ahead bytes rest got (view s) (view t) a.left there file in
    (t, e ∙ ap (λ b. ok (b, t)) bytes_eq, record { valid = valid; left = rest_eq }, endian)

length-file_write :
    (buf : List ℕ) (f : File)
    → f.offset ≤ length f.contents
    → f.offset + length buf ≤ length (file_write buf f).contents
unfolding file_write
length-file_write buf f h = omega (
  arith,
  length-append (take f.offset f.contents ++ buf) (drop (f.offset + length buf) f.contents),
  length-append (take f.offset f.contents) buf,
  length-take f.offset f.contents h,
)

drop-file_write :
    (buf : List ℕ) (f : File)
    → f.offset ≤ length f.contents
    → drop f.offset (file_write buf f).contents ≡ buf ++ drop (f.offset + length buf) f.contents
unfolding file_write
drop-file_write buf f h =
    let front : List ℕ = take f.offset f.contents in
    let back : List ℕ = drop (f.offset + length buf) f.contents in
    let len : length front + 0 ≡ f.offset = omega (arith, length-take f.offset f.contents h) in
    rw append_assoc (
      ap (λ k. drop k (front ++ (buf ++ back))) (sym len) ∙ drop-append_right front (buf ++ back) 0)

-- Writing and then going back to where the writing began puts the bytes ahead.
pub rewind-Ahead :
    (buf : List ℕ) (s : ByteArray)
    → IsValid s
    → (t : ByteArray) × ((write buf s >>= set_position s.position) ≡ ok t)
      × Ahead t (buf ++ drop (s.position + length buf) (view s).contents)
      × (t.endian ≡ s.endian)
      × (t.position ≡ s.position)
rewind-Ahead buf s v =
    let (u, e, valid, file, endian, base) = write-File buf s v in
    let inside : s.position ≤ length (view s).contents =
      omega (arith, length-contents v, v.position_le) in
    let size : length (view u).contents ≡ u.size = length-contents valid in
    let room : s.position ≤ u.size =
      omega
        (arith, length-file_write buf (view s) inside, ap (λ f. length f.contents) file, size) in
    let (t, e', valid', file', endian') = set_position-File s.position u valid room in
    let at : t.position ≡ s.position = ap (λ f. f.offset) file' in
    let same : (view t).contents ≡ (file_write buf (view s)).contents =
      ap (λ f. f.contents) file' ∙ ap (λ f. f.contents) file in
    (
      t,
      rw e e',
      record { valid = valid'; left = ap₂ drop at same ∙ drop-file_write buf (view s) inside },
      endian' ∙ endian,
      at,
    )
