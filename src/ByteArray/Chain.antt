-- ===== src/ByteArray/Chain.antt =====
-- The invariant of a `ByteArray`, and that each operation on the chain of blocks keeps it.
use sylar_from_scratch.Base.{
  ℕ, zero, suc, ◌+◌, ◌-◌, ◌*◌, ◌/◌, ◌≤◌, ◌<◌, ◌≡◌, refl, sym, inl, inr, List, [], ◌∷◌, ◌++◌, arith,
  length, flatten, leb, ltb, Bool-cases, leb→le, leb→lt, lt→ltb, ◌==◌, ==→eq, ==→ne, length-append,
  append-nil, replicate, length-replicate, Option, some, none, if◌then◌else◌,
}
use sylar_from_scratch.Base.Division.{ceil_div, le-ceil_div, ceil_div_pos, div-lt, div-mul_self}
use native.Mathlib.Nat.{zero-div}
use sylar_from_scratch.ByteArray.{
  ByteArray, init, new_node, clear, clear_nodes, get_capacity, grow, first_new, add_capacity,
}
use sylar_from_scratch.ByteArray.Loops.{IsChain, IsChain-append, flatten-append}

-- The block with the number `i`, or NULL behind the last.
abbrev pub block_or_null : ℕ → ℕ → Option ℕ
block_or_null count i = if ltb i count then some i else none

pub record IsValid (s : ByteArray) : Type 0 where
  pub positive : 0 < s.base_size
  pub chain : IsChain s.base_size s.nodes
  pub rooted : 1 ≤ length s.nodes
  pub total : s.capacity ≡ length s.nodes * s.base_size
  pub position_le : s.position ≤ s.size
  pub size_le : s.size ≤ s.capacity
  pub cur_at : s.cur ≡ block_or_null (length s.nodes) (s.position / s.base_size)

replicate-IsChain : (base n : ℕ) → IsChain base (replicate n (new_node base))
unfolding new_node
replicate-IsChain base zero = tt
replicate-IsChain base (suc n) = (length-replicate base 0, replicate-IsChain base n)

pub init-IsValid : (base : ℕ) → 0 < base → IsValid (init base)
unfolding init
init-IsValid base p = record {
  positive = p;
  chain = (length-replicate base 0, tt);
  rooted = omega arith;
  total = omega arith;
  position_le = omega arith;
  size_le = omega arith;
  cur_at = rw (zero-div base);
}

clear_nodes-IsChain :
    (base : ℕ) (xs : List (List ℕ)) → IsChain base xs → IsChain base (clear_nodes xs)
unfolding clear_nodes
clear_nodes-IsChain base [] h = tt
clear_nodes-IsChain base (x ∷ xs) (h, hs) = (h, tt)

length-clear_nodes : (xs : List (List ℕ)) → 1 ≤ length xs → length (clear_nodes xs) ≡ 1
unfolding clear_nodes
length-clear_nodes [] h = absurd (omega arith)
length-clear_nodes (x ∷ xs) h = refl

pub clear-IsValid : {s : ByteArray} → IsValid s → IsValid (clear s)
unfolding clear
clear-IsValid {s} v =
    let one = length-clear_nodes s.nodes v.rooted in
    record {
      positive = v.positive;
      chain = clear_nodes-IsChain s.base_size s.nodes v.chain;
      rooted = omega (arith, one);
      total = rw one (omega arith);
      position_le = omega arith;
      size_le = omega arith;
      cur_at = rw (one, zero-div s.base_size);
    }

pub block_or_null_lt : (count i : ℕ) → i < count → block_or_null count i ≡ some i
block_or_null_lt count i h = rw (lt→ltb i count h)

pub position_lt :
    {s : ByteArray}
    → IsValid s
    → s.position < s.capacity
    → s.position / s.base_size < length s.nodes
position_lt {s} v h =
    div-lt s.base_size s.position (length s.nodes) v.positive (omega (arith, v.total))

pub position_end :
    {s : ByteArray}
    → IsValid s
    → s.position ≡ s.capacity
    → s.position / s.base_size ≡ length s.nodes
position_end {s} v h = rw (h, v.total) (div-mul_self s.base_size (length s.nodes) v.positive)

-- `m_cur` after blocks were added: it was NULL exactly when no room was left.
grow_cur :
    {s : ByteArray} (n : ℕ)
    → IsValid s
    → (if get_capacity s == 0 then some (length s.nodes) else s.cur)
      ≡ block_or_null (length s.nodes + suc n) (s.position / s.base_size)
grow_cur {s} n v = elim (Bool-cases (get_capacity s == 0)) [
  | inl full ↦
      let e : s.position ≡ s.capacity = omega (arith, ==→eq _ _ full, v.position_le, v.size_le) in
      rw (full, position_end v e) (sym (block_or_null_lt _ _ (omega arith)))
  | inr room ↦
      let lt = position_lt v (omega (arith, ==→ne _ _ room)) in
      rw (room, v.cur_at, block_or_null_lt (length s.nodes) _ lt)
        (sym (block_or_null_lt _ _ (omega (arith, lt))))
]

grow-IsValid : {s : ByteArray} (count : ℕ) → 1 ≤ count → IsValid s → IsValid (grow count s)
unfolding grow first_new
grow-IsValid zero one v = elim one [ ]
grow-IsValid {s} (suc n) one v =
    let len = length-append s.nodes (replicate (suc n) (new_node s.base_size)) in
    let new = length-replicate (suc n) (new_node s.base_size) in
    record {
      positive = v.positive;
      chain = IsChain-append s.base_size s.nodes _ v.chain (replicate-IsChain s.base_size (suc n));
      rooted = omega (arith, len, new, v.rooted);
      total = rw (len, new) (omega (arith, v.total));
      position_le = v.position_le;
      size_le = omega (arith, v.size_le);
      cur_at = rw (len, new) (grow_cur n v);
    }

-- What `addCapacity(n)` promises: room for `n` bytes, and nothing else that a reader sees.
pub record Grown (n : ℕ) (s t : ByteArray) : Type 0 where
  pub valid : IsValid t
  pub base_size_eq : t.base_size ≡ s.base_size
  pub position_eq : t.position ≡ s.position
  pub size_eq : t.size ≡ s.size
  pub endian_eq : t.endian ≡ s.endian
  pub room : t.position + n ≤ t.capacity
  pub added : List ℕ
  pub kept : flatten t.nodes ≡ flatten s.nodes ++ added

Grown-same : {s : ByteArray} (n : ℕ) → IsValid s → s.position + n ≤ s.capacity → Grown n s s
Grown-same {s} n v h = record {
  valid = v;
  base_size_eq = refl;
  position_eq = refl;
  size_eq = refl;
  endian_eq = refl;
  room = h;
  added = [];
  kept = sym (append-nil (flatten s.nodes));
}

grow-Grown :
    {s : ByteArray} (n : ℕ)
    → IsValid s
    → get_capacity s < n
    → Grown n s (grow (ceil_div (n - get_capacity s) s.base_size) s)
unfolding grow
grow-Grown {s} n v h =
    let missing = n - get_capacity s in
    let count = ceil_div missing s.base_size in
    record {
      valid = grow-IsValid count (ceil_div_pos missing s.base_size (omega arith) v.positive) v;
      base_size_eq = refl;
      position_eq = refl;
      size_eq = refl;
      endian_eq = refl;
      room = omega (arith, le-ceil_div missing s.base_size v.positive, v.position_le, v.size_le);
      added = _;
      kept = flatten-append s.nodes _;
    }

-- The chain keeps its contents, and has room for `n` bytes behind the position.
pub add_capacity-Grown : {s : ByteArray} (n : ℕ) → IsValid s → Grown n s (add_capacity n s)
unfolding add_capacity
add_capacity-Grown {s} n v = elim (Bool-cases (n == 0)) [
  | inl none' ↦ rw none' (Grown-same n v (omega (arith, ==→eq n 0 none', v.position_le, v.size_le)))
  | inr some' ↦ elim (Bool-cases (leb n (get_capacity s))) [
    | inl fits ↦
        rw (some', fits) (Grown-same n v (omega (arith, leb→le _ _ fits, v.position_le, v.size_le)))
    | inr small ↦ rw (some', small) (grow-Grown n v (leb→lt _ _ small))
  ]
]
