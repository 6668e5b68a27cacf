-- ===== src/ByteArray.antt =====
-- sylar/bytearray.h and sylar/bytearray.cc: the chain of memory blocks and the operations on it.
-- A block is the list of its bytes, so `Node::size` is its length; the bytes of a new block, which
-- the source leaves uninitialised, are 0. `m_cur` is the index of a block, or none for NULL.
pub mod Loops
pub mod Chain
pub mod View
pub mod Write
pub mod Read
pub mod Position
pub mod Ahead
pub mod Codec
mod Tests
use sylar_from_scratch.Base.{
  ℕ, zero, suc, ◌+◌, ◌-◌, ◌*◌, ◌/◌, ◌%◌, Bool, true, false, List, [], ◌∷◌, ◌++◌, Option, none, some,
  ltb, leb, ◌==◌, if◌then◌else◌, length, take, drop, replicate, overwrite,
}
use sylar_from_scratch.Base.Division.{ceil_div}

pub data Endian : Type 0 where
  little big : Endian

pub record ByteArray : Type 0 where
  pub base_size : ℕ
  pub position : ℕ
  pub capacity : ℕ
  pub size : ℕ
  pub endian : Endian
  pub nodes : List (List ℕ)
  pub cur : Option ℕ

-- How a call ends: it returns, throws std::out_of_range, reads through a null `Node*`, or writes past
-- the end of the local array of a varint.
pub data Outcome {ℓ} (A : Type ℓ) : Type ℓ where
  ok : A → Outcome A
  out_of_range : Outcome A
  null_deref : Outcome A
  overrun : Outcome A

infixl 5 ◌>>=◌
abbrev pub ◌>>=◌ {ℓ κ} : {A : Type ℓ} {B : Type κ} → Outcome A → (A → Outcome B) → Outcome B
ok a >>= f = f a
out_of_range >>= f = out_of_range
null_deref >>= f = null_deref
overrun >>= f = overrun

pub new_node : ℕ → List ℕ
new_node s = replicate s 0

pub init : ℕ → ByteArray
unfolding new_node
init base_size = record {
  base_size = base_size;
  position = 0;
  capacity = base_size;
  size = 0;
  endian = big;
  nodes = new_node base_size ∷ [];
  cur = some 0;
}

pub is_little_endian : ByteArray → Bool
is_little_endian s = elim s.endian [ little ↦ true | big ↦ false ]

pub set_is_little_endian : Bool → ByteArray → ByteArray
set_is_little_endian val s = record s { endian = if val then little else big }

abbrev pub get_read_size : ByteArray → ℕ
get_read_size s = s.size - s.position

abbrev pub get_capacity : ByteArray → ℕ
get_capacity s = s.capacity - s.position

pub clear_nodes : List (List ℕ) → List (List ℕ)
clear_nodes [] = []
clear_nodes (root ∷ rest) = root ∷ []

pub clear : ByteArray → ByteArray
unfolding clear_nodes
clear s = record s {
  position = 0;
  size = 0;
  capacity = s.base_size;
  nodes = clear_nodes s.nodes;
  cur = some 0;
}

-- `m_cur = first`: `first` is NULL where the loop made no block.
pub first_new : ℕ → List (List ℕ) → Option ℕ
first_new zero old = none
first_new (suc n) old = some (length old)

grow : ℕ → ByteArray → ByteArray
unfolding new_node first_new
grow count s = record s {
  nodes = s.nodes ++ replicate count (new_node s.base_size);
  capacity = s.capacity + count * s.base_size;
  cur = if get_capacity s == 0 then first_new count s.nodes else s.cur;
}

pub add_capacity : ℕ → ByteArray → ByteArray
add_capacity size s =
    if size == 0
    then s
    else if leb size (get_capacity s)
    then s
    -- ceil(1.0 * size / m_baseSize), for sizes that a double holds exactly.
    else grow (ceil_div (size - get_capacity s) s.base_size) s

-- The blocks after a loop over them, and how often it followed `next`.
pub record Walk : Type 0 where
  pub blocks : List (List ℕ)
  pub steps : ℕ

-- `m_cur = m_cur->next` when the copy ends at the end of the block.
abbrev pub step_if_full : ℕ → ℕ → ℕ
step_if_full size stop = if size == stop then 1 else 0

-- The loop of `write` over the blocks from `m_cur` on, with `npos` the place in the first of them.
pub write_loop : List (List ℕ) → ℕ → List ℕ → Outcome Walk
write_loop [] npos buf = null_deref
write_loop (node ∷ rest) npos buf =
    let ncap = length node - npos in
    let more = write_loop rest 0 (drop ncap buf) in
    if leb (length buf) ncap
    then ok (record {
      blocks = overwrite node npos buf ∷ rest;
      steps = step_if_full (length node) (npos + length buf);
    })
    else (more >>= λ w.
        ok
          (record { blocks = overwrite node npos (take ncap buf) ∷ w.blocks; steps = suc w.steps }))

-- The loop of `read`.
pub record Chunk : Type 0 where
  pub bytes : List ℕ
  pub steps : ℕ

pub read_loop : List (List ℕ) → ℕ → ℕ → Outcome Chunk
read_loop [] npos size = null_deref
read_loop (node ∷ rest) npos size =
    let ncap = length node - npos in
    let more = read_loop rest 0 (size - ncap) in
    if leb size ncap
    then ok (record {
      bytes = take size (drop npos node);
      steps = step_if_full (length node) (npos + size);
    })
    else (more >>= λ c. ok (record { bytes = drop npos node ++ c.bytes; steps = suc c.steps }))

-- `m_cur->size`, and the chain from a block on.
abbrev pub deref : Option ℕ → Outcome ℕ
deref none = null_deref
deref (some i) = ok i

-- `m_cur` after following `next` from block `i`: NULL behind the last block.
abbrev pub advance : ℕ → ℕ → ℕ → Option ℕ
advance count i steps = if ltb (i + steps) count then some (i + steps) else none

abbrev pub max_size : ℕ → ℕ → ℕ
max_size a b = if ltb b a then a else b

-- The members after the write loop over the blocks from number `i` on.
pub stored : ByteArray → ℕ → ℕ → Walk → ByteArray
stored s n i w = record s {
  nodes = take i s.nodes ++ w.blocks;
  cur = advance (length s.nodes) i w.steps;
  position = s.position + n;
  size = max_size (s.position + n) s.size;
}

pub write : List ℕ → ByteArray → Outcome ByteArray
unfolding stored
write [] s = ok s
write (b ∷ bs) s =
    let buf = b ∷ bs in
    let s = add_capacity (length buf) s in
    deref s.cur >>= λ i. write_loop (drop i s.nodes) (s.position % s.base_size) buf >>= λ w.
    ok (stored s (length buf) i w)

-- The members after the read loop over the blocks from number `i` on.
pub moved : ByteArray → ℕ → ℕ → ℕ → ByteArray
moved s n i steps = record s { cur = advance (length s.nodes) i steps; position = s.position + n }

-- `read(buf, size)`. The block is read through `m_cur` before the loop tests the size, also for
-- size 0, where the loop makes no round.
pub read : ℕ → ByteArray → Outcome (List ℕ × ByteArray)
unfolding moved
read size s =
    if ltb (get_read_size s) size
    then out_of_range
    else (deref s.cur >>= λ i.
        if size == 0
        then ok ([], s)
        else (read_loop (drop i s.nodes) (s.position % s.base_size) size >>= λ c.
            ok (c.bytes, moved s size i c.steps)))

pub next_node : ℕ → List (List ℕ) → Option ℕ
next_node i [] = none
next_node i (_ ∷ _) = some (suc i)

-- The search of `setPosition`: `v` is what is left of the position.
pub find_node : List (List ℕ) → ℕ → ℕ → Outcome (Option ℕ)
unfolding next_node
find_node [] i v = null_deref
find_node (node ∷ rest) i v =
    let more = find_node rest (suc i) (v - length node) in
    if ltb (length node) v
    then more
    else if v == length node
    then ok (next_node i rest)
    else ok (some i)

pub set_position : ℕ → ByteArray → Outcome ByteArray
set_position v s =
    if ltb s.capacity v
    then out_of_range
    else (find_node s.nodes 0 v >>= λ cur.
        ok (record s { position = v; size = max_size v s.size; cur = cur }))
