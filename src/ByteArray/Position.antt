-- ===== src/ByteArray/Position.antt =====
-- `ByteArray::setPosition`, its search for the block.
use native.Mathlib.Nat.{div-eq-sub-div, div-eq_of_lt, div_self}
use sylar_from_scratch.Base.{
  ℕ, suc, ◌+◌, ◌-◌, ◌*◌, ◌/◌, ◌≤◌, ◌<◌, ◌≡◌, refl, ap, ap₂, sym, ◌∙◌, List, [], ◌∷◌, arith, length,
  take, flatten, inl, inr, ltb, ltb→lt, ltb→le, lt→ltb, le→ltb, ==→eq, ==→ne, Bool-cases, ◌==◌,
}
use sylar_from_scratch.ByteArray.{
  ByteArray, ok, out_of_range, find_node, next_node, set_position, max_size,
}
use sylar_from_scratch.ByteArray.Loops.{IsChain}
use sylar_from_scratch.ByteArray.Chain.{IsValid, block_or_null, block_or_null_lt}
use sylar_from_scratch.ByteArray.View.{File_eq, view}

module _ (base : ℕ) (positive : 0 < base) where
  next_node_lem :
      (i : ℕ) (rest : List (List ℕ))
      → next_node i rest ≡ block_or_null (i + suc (length rest)) (suc i)
  unfolding next_node
  next_node_lem i [] = rw (le→ltb (suc i) (i + 1) (omega arith))
  next_node_lem i (x ∷ rest) = rw (lt→ltb (suc i) (i + suc (suc (length rest))) (omega arith))

  past_one :
      (rest : List (List ℕ)) (v : ℕ) → base < v → v ≤ suc (length rest) * base → 1 ≤ length rest
  past_one [] v lt h = absurd (omega arith)
  past_one (x ∷ rest) v lt h = omega arith

  find_node_lem :
      (nodes : List (List ℕ)) (i v : ℕ)
      → IsChain base nodes
      → 1 ≤ length nodes
      → v ≤ length nodes * base
      → find_node nodes i v ≡ ok (block_or_null (i + length nodes) (i + v / base))
  unfolding find_node
  find_node_lem [] i v c one h = absurd (omega arith)
  find_node_lem (node ∷ rest) i v (c, cs) one h = elim (Bool-cases (ltb (length node) v)) [
    | inl past ↦
        let lt : base < v = omega (arith, ltb→lt _ _ past, c) in
        let ih = find_node_lem rest (suc i) (v - base) cs (past_one rest v lt h) (omega arith) in
        let count : suc i + length rest ≡ i + suc (length rest) = omega arith in
        let at : suc i + (v - base) / base ≡ i + v / base =
          omega (arith, div-eq-sub-div {m = base} {n = v} positive (omega arith)) in
        rw (past, c) (ih ∙ rw (count, at))
    | inr here ↦ elim (Bool-cases (v == length node)) [
      | inl end ↦
          let full : v ≡ base = ==→eq _ _ end ∙ c in
          let at : i + v / base ≡ suc i = rw (full, div_self positive) (omega arith) in
          rw (here, end, at) (ap ok (next_node_lem i rest))
      | inr inside ↦
          let lt : v < base = omega (arith, ltb→le _ _ here, ==→ne _ _ inside, c) in
          let at : i + v / base ≡ i = rw (div-eq_of_lt lt) (omega arith) in
          rw (here, inside, at) (ap ok (sym (block_or_null_lt _ i (omega arith))))
    ]
  ]

-- In range, the position is set, the size is raised to it where it was smaller, the bytes stay, and the
-- current block is found: the invariant holds.
pub set_position_lem :
    (n : ℕ) (s : ByteArray)
    → IsValid s
    → n ≤ s.capacity
    → (t : ByteArray) × (set_position n s ≡ ok t)
      × IsValid t
      × (t.position ≡ n)
      × (t.size ≡ max_size n s.size)
      × (t.nodes ≡ s.nodes)
      × (t.endian ≡ s.endian)
unfolding set_position
set_position_lem n s v h =
    let found =
      find_node_lem s.base_size v.positive s.nodes 0 n v.chain v.rooted (omega (arith, v.total)) in
    let count : 0 + length s.nodes ≡ length s.nodes = omega arith in
    let at : 0 + n / s.base_size ≡ n / s.base_size = omega arith in
    let cur = block_or_null (length s.nodes) (n / s.base_size) in
    (
      record s { position = n; size = max_size n s.size; cur = cur },
      rw (le→ltb _ _ h, found, count, at),
      record {
        positive = v.positive;
        chain = v.chain;
        rooted = v.rooted;
        total = v.total;
        position_le = ground arith;
        size_le = ground (arith, v.size_le);
        cur_at = refl;
      },
      refl,
      refl,
      refl,
      refl,
    )

pub set_position_out : (n : ℕ) (s : ByteArray) → s.capacity < n → set_position n s ≡ out_of_range
unfolding set_position
set_position_out n s h = rw (lt→ltb _ _ h)

-- Inside the data, `setPosition` only moves the offset of the file.
pub set_position-File :
    (n : ℕ) (s : ByteArray)
    → IsValid s
    → n ≤ s.size
    → (t : ByteArray) × (set_position n s ≡ ok t)
      × IsValid t
      × (view t ≡ record (view s) { offset = n })
      × (t.endian ≡ s.endian)
set_position-File n s v h =
    let (t, e, valid, position, size, nodes, endian) =
      set_position_lem n s v (omega (arith, v.size_le)) in
    let same : max_size n s.size ≡ s.size = rw (le→ltb _ _ h) in
    (
      t,
      e,
      valid,
      File_eq _ _ (ap₂ (λ k xs. take k (flatten xs)) (size ∙ same) nodes) position,
      endian,
    )
