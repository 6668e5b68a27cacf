-- ===== src/ByteArray/Read.antt =====
-- `ByteArray::read` against the file that a `ByteArray` is to its callers, on every branch.
use sylar_from_scratch.Base.{
  ℕ, suc, ◌+◌, ◌*◌, ◌%◌, ◌≤◌, ◌<◌, ◌≡◌, refl, ap, ap₂, sym, ◌∙◌, List, [], some, none, arith,
  length, take, drop, flatten, slice, if◌then◌else◌, length-take, lt→ltb, le→ltb, lt→leb, le→leb,
  Bool-cases, inl, inr, ◌==◌, ==→ne, ==→eq, ne→==, slice-take, drop-append_right,
}
use sylar_from_scratch.ByteArray.{
  ByteArray, ok, out_of_range, null_deref, get_read_size, read, moved,
}
use sylar_from_scratch.ByteArray.Loops.{IsChain-drop, length-flatten, read_loop_lem}
use sylar_from_scratch.ByteArray.Chain.{IsValid, block_or_null_lt, position_lt, position_end}
use sylar_from_scratch.ByteArray.View.{file_read, view}
use sylar_from_scratch.ByteArray.Write.{Place, place, advance-block}

moved-IsValid :
    {s : ByteArray} (n steps : ℕ) (p : Place s n)
    → IsValid s
    → s.position + n ≤ s.size
    → steps * s.base_size ≤ s.position % s.base_size + n
    → s.position % s.base_size + n < suc steps * s.base_size
    → IsValid (moved s n p.i steps)
unfolding moved
moved-IsValid {s} n steps p v h ge lt = record {
  positive = v.positive;
  chain = v.chain;
  rooted = v.rooted;
  total = v.total;
  position_le = h;
  size_le = v.size_le;
  cur_at = advance-block n steps p ge lt;
}

-- The bytes from the position on, found in the blocks from the current one on.
slice-Place :
    {s : ByteArray} (n : ℕ) (p : Place s n)
    → slice (flatten (drop p.i s.nodes)) (s.position % s.base_size) n
      ≡ slice (flatten s.nodes) s.position n
slice-Place {s} n p =
    let front : List ℕ = flatten (take p.i s.nodes) in
    let back : List ℕ = flatten (drop p.i s.nodes) in
    let npos : ℕ = s.position % s.base_size in
    let at : length front + npos ≡ s.position = omega (arith, p.front, p.split) in
    ap (take n) (sym (drop-append_right front back npos)) ∙ ap₂ (λ xs k. slice xs k n) p.whole at

pub length-contents : {s : ByteArray} → IsValid s → length (view s).contents ≡ s.size
length-contents {s} v =
    length-take s.size (flatten s.nodes)
      (omega (arith, length-flatten s.base_size s.nodes v.chain, v.size_le, v.total))

file_read-view :
    {s : ByteArray} (n : ℕ)
    → IsValid s
    → n ≤ get_read_size s
    → file_read n (view s)
      ≡ some (slice (flatten s.nodes) s.position n, record (view s) { offset = s.position + n })
unfolding file_read
file_read-view {s} n v h = rw (
  length-contents v,
  le→leb n (get_read_size s) h,
  slice-take (flatten s.nodes) s.position n s.size (omega (arith, v.position_le)),
)

view-moved :
    (s : ByteArray) (n i steps : ℕ)
    → view (moved s n i steps) ≡ record (view s) { offset = s.position + n }
unfolding moved
view-moved s n i steps = refl

endian-moved : (s : ByteArray) (n i steps : ℕ) → (moved s n i steps).endian ≡ s.endian
unfolding moved
endian-moved s n i steps = refl

-- With `n` bytes left, `n` not 0, `read` returns them and moves the position past them, as in the file.
pub read-File :
    (n : ℕ) (s : ByteArray)
    → IsValid s
    → 1 ≤ n
    → n ≤ get_read_size s
    → (bytes : List ℕ) × (t : ByteArray) × (read n s ≡ ok (bytes, t))
      × IsValid t
      × (file_read n (view s) ≡ some (bytes, view t))
      × (t.endian ≡ s.endian)
unfolding read
read-File n s v one left =
    let p = place n v one (omega (arith, v.size_le)) in
    let (c, e, bytes, ge, lt) =
      read_loop_lem s.base_size v.positive (drop p.i s.nodes) (s.position % s.base_size) n
        (IsChain-drop s.base_size p.i s.nodes v.chain) p.npos_lt one p.rest in
    let some' = ne→== n 0 (λ e. omega arith) in
    (
      c.bytes,
      moved s n p.i c.steps,
      rw (le→ltb _ _ left, p.cur_eq, some', e),
      moved-IsValid n c.steps p v (omega arith) ge lt,
      file_read-view n v left
          ∙ ap₂ (λ b f. some (b, f)) (sym (bytes ∙ slice-Place n p))
              (sym (view-moved s n p.i c.steps)),
      endian-moved s n p.i c.steps,
    )

-- With fewer bytes left `read` throws, and the file has no such bytes.
pub read_short :
    (n : ℕ) (s : ByteArray)
    → IsValid s
    → get_read_size s < n
    → (read n s ≡ out_of_range) × (file_read n (view s) ≡ none)
unfolding read file_read
read_short n s v h = (rw (lt→ltb _ _ h), rw (length-contents v, lt→leb _ _ h))

-- An empty read is nothing but where the position stands at the end of the last block: there it reads
-- the size of a block through a null pointer.
pub read_empty :
    (s : ByteArray)
    → IsValid s
    → read 0 s ≡ (if s.position == s.capacity then null_deref else ok ([], s))
unfolding read
read_empty s v = elim (Bool-cases (s.position == s.capacity)) [
  | inl end ↦
      rw
        (
          end,
          v.cur_at,
          position_end v (==→eq _ _ end),
          le→ltb (length s.nodes) (length s.nodes) (omega arith),
        )
        (rw (le→ltb (get_read_size s) 0 (omega arith)))
  | inr room ↦
      rw
        (
          room,
          v.cur_at,
          block_or_null_lt _ _
              (position_lt v (omega (arith, ==→ne _ _ room, v.position_le, v.size_le))),
        )
        (rw (le→ltb (get_read_size s) 0 (omega arith)))
]
