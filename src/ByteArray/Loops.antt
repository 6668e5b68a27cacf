-- ===== src/ByteArray/Loops.antt =====
-- The loops of `ByteArray::write` and `ByteArray::read` over the blocks, against the flat memory
-- that the blocks make together.
use sylar_from_scratch.Base.{
  ℕ, zero, suc, ◌+◌, ◌-◌, ◌*◌, ◌≤◌, ◌<◌, ◌≡◌, refl, ap, sym, ◌∙◌, inl, inr, List, [], ◌∷◌, ◌++◌,
  arith, length, All, take, drop, flatten, overwrite, slice, leb, Bool-cases, leb→le, leb→lt,
  length-append, length-drop, length-overwrite, overwrite-append, overwrite-nil, slice-append,
  take_all, drop_all, append-nil, append_assoc,
}
use sylar_from_scratch.ByteArray.{ok, Walk, Chunk, step_if_full, write_loop, read_loop}

abbrev pub IsChain : ℕ → List (List ℕ) → Type 0
IsChain base nodes = All (λ n. length n ≡ base) nodes

pub IsChain-append :
    (base : ℕ) (xs ys : List (List ℕ)) → IsChain base xs → IsChain base ys → IsChain base (xs ++ ys)
IsChain-append base [] ys h k = k
IsChain-append base (x ∷ xs) ys (h, hs) k = (h, IsChain-append base xs ys hs k)

pub IsChain-take : (base i : ℕ) (xs : List (List ℕ)) → IsChain base xs → IsChain base (take i xs)
IsChain-take base zero xs h = tt
IsChain-take base (suc i) [] h = tt
IsChain-take base (suc i) (x ∷ xs) (h, hs) = (h, IsChain-take base i xs hs)

pub IsChain-drop : (base i : ℕ) (xs : List (List ℕ)) → IsChain base xs → IsChain base (drop i xs)
IsChain-drop base zero xs h = h
IsChain-drop base (suc i) [] h = tt
IsChain-drop base (suc i) (x ∷ xs) (h, hs) = IsChain-drop base i xs hs

pub length-flatten :
    (base : ℕ) (xs : List (List ℕ)) → IsChain base xs → length (flatten xs) ≡ length xs * base
length-flatten base [] h = omega arith
length-flatten base (x ∷ xs) (h, hs) =
    omega (arith, length-append x (flatten xs), length-flatten base xs hs)

pub flatten-append : (xs ys : List (List ℕ)) → flatten (xs ++ ys) ≡ flatten xs ++ flatten ys
flatten-append [] ys = refl
flatten-append (x ∷ xs) ys =
    ap (◌++◌ x) (flatten-append xs ys) ∙ sym (append_assoc x (flatten xs) (flatten ys))

overwrite_first :
    (node ys : List ℕ) (npos : ℕ) (buf : List ℕ)
    → npos ≤ length node
    → length buf ≤ length node - npos
    → overwrite node npos buf ++ ys ≡ overwrite (node ++ ys) npos buf
overwrite_first node ys npos buf h fits = sym (
    overwrite-append node ys npos buf h
    ∙ rw (take_all _ buf fits, drop_all _ buf fits, overwrite-nil ys 0))

slice_first :
    (node ys : List ℕ) (npos n : ℕ)
    → npos ≤ length node
    → n ≤ length node - npos
    → take n (drop npos node) ≡ slice (node ++ ys) npos n
slice_first node ys npos n h fits =
    let e : n - (length node - npos) ≡ 0 = omega arith in
    sym (slice-append node ys npos n h ∙ rw (e, append-nil))

slice_across :
    (node ys : List ℕ) (npos n : ℕ)
    → npos ≤ length node
    → length node - npos < n
    → drop npos node ++ slice ys 0 (n - (length node - npos)) ≡ slice (node ++ ys) npos n
slice_across node ys npos n h more = sym (
    slice-append node ys npos n h
    ∙ rw (take_all n (drop npos node) (omega (arith, length-drop npos node))))

step_bounds :
    (base stop : ℕ)
    → 0 < base
    → stop ≤ base
    → (step_if_full base stop * base ≤ stop) × (stop < suc (step_if_full base stop) * base)
step_bounds base stop p h = ground arith

-- What the write loop leaves: the flat memory overwritten from `npos` on, in blocks of the old size,
-- and the place where it stopped.
pub record Wrote (base : ℕ) (nodes : List (List ℕ)) (npos : ℕ) (buf : List ℕ) (w : Walk)
    : Type 0 where
  pub flat : flatten w.blocks ≡ overwrite (flatten nodes) npos buf
  pub chain : IsChain base w.blocks
  pub count : length w.blocks ≡ length nodes
  pub stop_ge : w.steps * base ≤ npos + length buf
  pub stop_lt : npos + length buf < suc w.steps * base

module _ (base : ℕ) (positive : 0 < base) where
  write_loop_last :
      (node : List ℕ) (rest : List (List ℕ)) (npos : ℕ) (buf : List ℕ)
      → IsChain base (node ∷ rest)
      → npos < base
      → length buf ≤ length node - npos
      → Wrote base (node ∷ rest) npos buf (record {
        blocks = overwrite node npos buf ∷ rest;
        steps = step_if_full (length node) (npos + length buf);
      })
  write_loop_last node rest npos buf (c, cs) h fits =
      let b : _ = step_bounds base (npos + length buf) positive (omega arith) in
      record {
        flat = overwrite_first node (flatten rest) npos buf (omega arith) fits;
        chain = (length-overwrite node npos buf ∙ c, cs);
        count = refl;
        stop_ge = rw c b.0;
        stop_lt = rw c b.1;
      }

  write_loop_next :
      (node : List ℕ) (rest : List (List ℕ)) (npos : ℕ) (buf : List ℕ) (w : Walk)
      → IsChain base (node ∷ rest)
      → npos < base
      → length node - npos < length buf
      → Wrote base rest 0 (drop (length node - npos) buf) w
      → Wrote base (node ∷ rest) npos buf (record {
        blocks = overwrite node npos (take (length node - npos) buf) ∷ w.blocks;
        steps = suc w.steps;
      })
  write_loop_next node rest npos buf w (c, cs) h more r =
      let ge = r.stop_ge in
      let lt = r.stop_lt in
      let len = length-drop (length node - npos) buf in
      record {
        flat = rw r.flat (sym (overwrite-append node (flatten rest) npos buf (omega arith)));
        chain = (length-overwrite node npos _ ∙ c, r.chain);
        count = ap suc r.count;
        stop_ge = omega (arith, ge, len, c);
        stop_lt = omega (arith, lt, len, c);
      }

  -- With room for the bytes the loop ends, and leaves the flat memory overwritten.
  pub write_loop-Wrote :
      (nodes : List (List ℕ)) (npos : ℕ) (buf : List ℕ)
      → IsChain base nodes
      → npos < base
      → 1 ≤ length buf
      → npos + length buf ≤ length nodes * base
      → (w : Walk) × (write_loop nodes npos buf ≡ ok w) × Wrote base nodes npos buf w
  unfolding write_loop
  write_loop-Wrote [] npos buf c h one room = absurd (omega arith)
  write_loop-Wrote (node ∷ rest) npos buf c h one room =
      elim (Bool-cases (leb (length buf) (length node - npos))) [
        | inl fits ↦ rw fits (_, refl, write_loop_last node rest npos buf c h (leb→le _ _ fits))
        | inr more ↦
            let lt : length node - npos < length buf = leb→lt _ _ more in
            let size : length node ≡ base = c.0 in
            let len = length-drop (length node - npos) buf in
            let (w, e, r) =
              write_loop-Wrote rest 0 (drop (length node - npos) buf) c.1 positive
                (omega (arith, len)) (omega (arith, len)) in
            rw (more, e) (_, refl, write_loop_next node rest npos buf w c h lt r)
      ]

  -- What the read loop returns: the bytes of the flat memory from `npos` on.
  pub read_loop_lem :
      (nodes : List (List ℕ)) (npos size : ℕ)
      → IsChain base nodes
      → npos < base
      → 1 ≤ size
      → npos + size ≤ length nodes * base
      → (c : Chunk) × (read_loop nodes npos size ≡ ok c)
        × (c.bytes ≡ slice (flatten nodes) npos size)
        × (c.steps * base ≤ npos + size)
        × (npos + size < suc c.steps * base)
  unfolding read_loop
  read_loop_lem [] npos size c h one room = absurd (omega arith)
  read_loop_lem (node ∷ rest) npos size (c, cs) h one room =
      elim (Bool-cases (leb size (length node - npos))) [
        | inl fits ↦
            let le : size ≤ length node - npos = leb→le _ _ fits in
            let b : _ = step_bounds base (npos + size) positive (omega arith) in
            rw fits (
              _,
              refl,
              slice_first node (flatten rest) npos size (omega arith) le,
              rw c b.0,
              rw c b.1,
            )
        | inr more ↦
            let lt : length node - npos < size = leb→lt _ _ more in
            let (k, e, bytes, ge, stop) =
              read_loop_lem rest 0 (size - (length node - npos)) cs positive (omega arith)
                (omega arith) in
            rw (more, e)
              (
                _,
                refl,
                rw bytes (slice_across node (flatten rest) npos size (omega arith) lt),
                omega arith,
                omega arith,
              )
      ]
