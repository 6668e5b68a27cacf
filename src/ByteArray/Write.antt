-- ===== src/ByteArray/Write.antt =====
-- `ByteArray::write` against the file that a `ByteArray` is to its callers.
use native.Mathlib.Nat.{div-add-mod', mod-lt}
use sylar_from_scratch.Base.{
  ℕ, suc, ◌+◌, ◌-◌, ◌*◌, ◌/◌, ◌%◌, ◌≤◌, ◌<◌, ◌≡◌, refl, ap, ap₂, sym, ◌∙◌, List, [], ◌∷◌, ◌++◌,
  some, arith, length, take, drop, flatten, overwrite, length-take, length-drop, length-append,
  take-append-drop, take-overwrite, overwrite-append_right, take-append_left,
}
use sylar_from_scratch.Base.Division.{div_unique}
use sylar_from_scratch.ByteArray.{
  ByteArray, ok, Walk, max_size, write, stored, add_capacity, advance,
}
use sylar_from_scratch.ByteArray.Loops.{
  IsChain-append, IsChain-take, IsChain-drop, flatten-append, length-flatten, Wrote,
  write_loop-Wrote,
}
use sylar_from_scratch.ByteArray.Chain.{
  IsValid, Grown, add_capacity-Grown, block_or_null, block_or_null_lt, position_lt,
}
use sylar_from_scratch.ByteArray.View.{File_eq, file_write, file_write-nil, view}

-- Where the position lies: in block `i`, which is there, at `npos`.
pub record Place (s : ByteArray) (n : ℕ) : Type 0 where
  pub i : ℕ
  pub i_eq : s.position / s.base_size ≡ i
  pub i_lt : i < length s.nodes
  pub npos_lt : s.position % s.base_size < s.base_size
  pub split : i * s.base_size + s.position % s.base_size ≡ s.position
  pub cur_eq : s.cur ≡ some i
  pub rest : s.position % s.base_size + n ≤ length (drop i s.nodes) * s.base_size
  pub front : length (flatten (take i s.nodes)) ≡ i * s.base_size
  pub whole : flatten (take i s.nodes) ++ flatten (drop i s.nodes) ≡ flatten s.nodes

rest_room :
    (i count base npos n : ℕ)
    → i < count
    → i * base + npos + n ≤ count * base
    → npos + n ≤ (count - i) * base
rest_room i count base npos n lt h =
    let e : count ≡ i + (count - i) = omega arith in omega (arith, ap (λ (t : ℕ). t * base) e)

pub place : {s : ByteArray} (n : ℕ) → IsValid s → 1 ≤ n → s.position + n ≤ s.capacity → Place s n
place {s} n v one room =
    let q = s.position / s.base_size in
    let lt : q < length s.nodes = position_lt v (omega arith) in
    let at = div-add-mod' s.position s.base_size in
    record {
      i = q;
      i_eq = refl;
      i_lt = lt;
      npos_lt = mod-lt s.position v.positive;
      split = at;
      cur_eq = v.cur_at ∙ block_or_null_lt _ q lt;
      rest =
          rw (length-drop q s.nodes)
            (rest_room q _ s.base_size _ n lt (omega (arith, at, v.total)));
      front =
          length-flatten s.base_size (take q s.nodes) (IsChain-take s.base_size q s.nodes v.chain)
          ∙ ap (λ t. t * s.base_size) (length-take q s.nodes (omega arith));
      whole =
          sym (flatten-append (take q s.nodes) (drop q s.nodes))
          ∙ ap flatten (take-append-drop q s.nodes);
    }

-- The position after `n` bytes more, as block and offset.
pub advance-block :
    {s : ByteArray} (n steps : ℕ) (p : Place s n)
    → steps * s.base_size ≤ s.position % s.base_size + n
    → s.position % s.base_size + n < suc steps * s.base_size
    → advance (length s.nodes) p.i steps
      ≡ block_or_null (length s.nodes) ((s.position + n) / s.base_size)
advance-block {s} n steps p ge lt =
    let split = p.split in
    rw (div_unique s.base_size (p.i + steps) (s.position + n) (omega arith) (omega arith))

module _ (s : ByteArray) (buf : List ℕ) (w : Walk) (v : IsValid s) (one : 1 ≤ length buf)
    (room : s.position + length buf ≤ s.capacity) (p : Place s (length buf))
    (r : Wrote s.base_size (drop p.i s.nodes) (s.position % s.base_size) buf w) where
  length-stored : length (take p.i s.nodes ++ w.blocks) ≡ length s.nodes
  length-stored = omega (
    arith,
    length-append (take p.i s.nodes) w.blocks,
    length-take p.i s.nodes,
    length-drop p.i s.nodes,
    r.count,
    p.i_lt,
  )

  stored-IsValid : IsValid (stored s (length buf) p.i w)
  unfolding stored
  stored-IsValid = record {
    positive = v.positive;
    chain = IsChain-append s.base_size _ _ (IsChain-take s.base_size p.i s.nodes v.chain) r.chain;
    rooted = omega (arith, length-stored, v.rooted);
    total = rw length-stored v.total;
    position_le = ground arith;
    size_le = ground (arith, v.size_le);
    cur_at = rw length-stored (advance-block (length buf) w.steps p r.stop_ge r.stop_lt);
  }

  flatten-stored :
      flatten (stored s (length buf) p.i w).nodes ≡ overwrite (flatten s.nodes) s.position buf
  unfolding stored
  flatten-stored =
      let front : List ℕ = flatten (take p.i s.nodes) in
      let back : List ℕ = flatten (drop p.i s.nodes) in
      let npos : ℕ = s.position % s.base_size in
      let at : length front + npos ≡ s.position = omega (arith, p.front, p.split) in
      flatten-append (take p.i s.nodes) w.blocks
      ∙ ap (◌++◌ front) r.flat
      ∙ sym (overwrite-append_right front back npos buf)
      ∙ ap₂ (λ xs n. overwrite xs n buf) p.whole at

  view-stored : view (stored s (length buf) p.i w) ≡ file_write buf (view s)
  unfolding file_write stored
  view-stored =
      let total = length-flatten s.base_size s.nodes v.chain in
      let bytes : take (max_size (s.position + length buf) s.size)
            (overwrite (flatten s.nodes) s.position buf)
          ≡ (file_write buf (view s)).contents =
        take-overwrite (flatten s.nodes) buf s.position s.size _ (ground arith) v.position_le
          (omega (arith, v.size_le, v.total, total)) (omega (arith, v.total, total)) in
      File_eq _ _ (ap (take _) flatten-stored ∙ bytes) refl

Grown-view : {s t : ByteArray} {n : ℕ} → IsValid s → Grown n s t → view t ≡ view s
Grown-view {s} {t} v g =
    let kept : take t.size (flatten t.nodes) ≡ take s.size (flatten s.nodes) =
      rw (g.size_eq, g.kept)
        (take-append_left s.size (flatten s.nodes) g.added
          (omega (arith, length-flatten s.base_size s.nodes v.chain, v.size_le, v.total))) in
    File_eq _ _ kept g.position_eq

endian-stored : (s : ByteArray) (n i : ℕ) (w : Walk) → (stored s n i w).endian ≡ s.endian
unfolding stored
endian-stored s n i w = refl

base_size-stored : (s : ByteArray) (n i : ℕ) (w : Walk) → (stored s n i w).base_size ≡ s.base_size
unfolding stored
base_size-stored s n i w = refl

-- A `write` does not fail: the blocks afterwards hold the file with `buf` written at the position,
-- the invariant holds, and the byte order is kept.
pub write-File :
    (buf : List ℕ) (s : ByteArray)
    → IsValid s
    → (t : ByteArray) × (write buf s ≡ ok t)
      × IsValid t
      × (view t ≡ file_write buf (view s))
      × (t.endian ≡ s.endian)
      × (t.base_size ≡ s.base_size)
unfolding write
write-File [] s v = (s, refl, v, sym (file_write-nil (view s)), refl, refl)
write-File (b ∷ bs) s v =
    let buf : List ℕ = b ∷ bs in
    let g = add_capacity-Grown (length buf) v in
    let u = add_capacity (length buf) s in
    let p = place (length buf) g.valid (omega arith) g.room in
    let (w, e, r) =
      write_loop-Wrote u.base_size g.valid.positive (drop p.i u.nodes) (u.position % u.base_size)
        buf (IsChain-drop u.base_size p.i u.nodes g.valid.chain) p.npos_lt (omega arith) p.rest in
    (
      stored u (length buf) p.i w,
      rw (p.cur_eq, e),
      stored-IsValid u buf w g.valid (omega arith) g.room p r,
      view-stored u buf w g.valid (omega arith) g.room p r ∙ ap (file_write buf) (Grown-view v g),
      endian-stored u (length buf) p.i w ∙ g.endian_eq,
      base_size-stored u (length buf) p.i w ∙ g.base_size_eq,
    )
