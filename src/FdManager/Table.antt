-- ===== src/FdManager/Table.antt =====
-- sylar/fd_manager.cc: the vector of FdManager as a table of descriptors.
use sylar_from_scratch.Base.{
  ℕ, zero, suc, ◌-◌, ◌*◌, ◌/◌, ◌≤◌, ◌<◌, Bool, true, [], ◌∷◌, ◌++◌, Option, some, none, leb, ◌==◌,
  if◌then◌else◌, maybe, or_else, set, replicate, length, length-append, length-replicate, take_all,
  lt→ltb, leb→le, leb→lt, Bool-cases, ==→eq, ==→ne, ◌≢◌, inl, inr, ◌≡◌, refl, sym, ap, ◌∙◌, arith,
}
use sylar_from_scratch.FdManager.{FdCtx, fd_ctx, FdManager, resize, data_at, create, get, del}

set-same : (m : FdManager) (fd : ℕ) (c : Option FdCtx) → fd < length m → data_at (set m fd c) fd ≡ c
unfolding data_at
set-same [] fd c h = absurd (omega arith)
set-same (x ∷ m) zero c h = refl
set-same (x ∷ m) (suc fd) c h = set-same m fd c (omega arith)

set-other :
    (m : FdManager) (fd : ℕ) (c : Option FdCtx) (k : ℕ)
    → k ≢ fd
    → data_at (set m fd c) k ≡ data_at m k
unfolding data_at
set-other [] fd c k h = refl
set-other (x ∷ m) zero c zero h = absurd (h refl)
set-other (x ∷ m) zero c (suc k) h = refl
set-other (x ∷ m) (suc fd) c zero h = refl
set-other (x ∷ m) (suc fd) c (suc k) h = set-other m fd c k (λ e. h (ap suc e))

data_at-set :
    (m : FdManager) (fd : ℕ) (c : Option FdCtx) (k : ℕ)
    → fd < length m
    → data_at (set m fd c) k ≡ (if k == fd then c else data_at m k)
data_at-set m fd c k h = elim (Bool-cases (k == fd)) [
  | inl t ↦
      ap (data_at (set m fd c)) (==→eq k fd t)
      ∙ set-same m fd c h
      ∙ ap (λ b. if b then c else data_at m k) (sym t)
  | inr f ↦ set-other m fd c k (==→ne k fd f) ∙ ap (λ b. if b then c else data_at m k) (sym f)
]

data_at-replicate : (n k : ℕ) → data_at (replicate n none) k ≡ none
unfolding data_at
data_at-replicate zero k = refl
data_at-replicate (suc n) zero = refl
data_at-replicate (suc n) (suc k) = data_at-replicate n k

data_at-append : (m : FdManager) (n k : ℕ) → data_at (m ++ replicate n none) k ≡ data_at m k
unfolding data_at
data_at-append [] n k = data_at-replicate n k
data_at-append (x ∷ m) n zero = refl
data_at-append (x ∷ m) n (suc k) = data_at-append m n k

length-set : (m : FdManager) (fd : ℕ) (c : Option FdCtx) → length (set m fd c) ≡ length m
length-set [] fd c = refl
length-set (x ∷ m) zero c = refl
length-set (x ∷ m) (suc fd) c = ap suc (length-set m fd c)

data_at-beyond : (m : FdManager) (k : ℕ) → length m ≤ k → data_at m k ≡ none
unfolding data_at
data_at-beyond [] k h = refl
data_at-beyond (x ∷ m) zero h = absurd (omega arith)
data_at-beyond (x ∷ m) (suc k) h = data_at-beyond m k (omega arith)

-- A longer vector has the same contexts.
resize_lem :
    (n : ℕ) (m : FdManager)
    → length m ≤ n
    → (length (resize n m) ≡ n) × ((k : ℕ) → data_at (resize n m) k ≡ data_at m k)
unfolding resize
resize_lem n m h =
    let nulls : FdManager = replicate (n - length m) none in
    rw (take_all n m h) (
      omega (
        arith,
        length-append m nulls,
        length-replicate (n - length m) (let c : Option FdCtx = none in c),
      ),
      data_at-append m (n - length m),
    )

-- The vector never has fewer than the two places that its growth needs.
unfoldable pub IsValid : FdManager → Type 0
IsValid m = 2 ≤ length m

-- The vector with a place for `fd`.
abbrev grown : ℕ → FdManager → FdManager
grown fd m = if leb (length m) fd then resize (fd * 3 / 2) m else m

grown_lem :
    (fd : ℕ) (m : FdManager)
    → IsValid m
    → IsValid (grown fd m)
      × (fd < length (grown fd m))
      × ((k : ℕ) → data_at (grown fd m) k ≡ data_at m k)
unfolding IsValid
grown_lem fd m v = elim (Bool-cases (leb (length m) fd)) [
  | inl t ↦
      let le = leb→le (length m) fd t in
      let (l, p) = resize_lem (fd * 3 / 2) m (omega arith) in rw (t) (omega arith, omega arith, p)
  | inr f ↦ rw (f) (v, leb→lt (length m) fd f, λ k. refl)
]

create_lem :
    (ctx : FdCtx) (fd : ℕ) (m : FdManager)
    → IsValid m
    → (m' : FdManager) × (create ctx fd m ≡ some (some ctx, m'))
      × IsValid m'
      × ((k : ℕ) → data_at m' k ≡ (if k == fd then some ctx else data_at m k))
unfolding create IsValid
create_lem ctx fd m v =
    let (v', lt, p) = grown_lem fd m v in
    (
      set (grown fd m) fd (some ctx),
      rw (lt→ltb fd (length (grown fd m)) lt) refl,
      omega (arith, length-set (grown fd m) fd (some ctx)),
      λ k.
          data_at-set (grown fd m) fd (some ctx) k lt
          ∙ ap (λ c. if k == fd then some ctx else c) (p k),
    )

found_lem :
    (m : FdManager) (fd k : ℕ) (x : FdCtx)
    → data_at m fd ≡ some x
    → data_at m k ≡ (if k == fd then some x else data_at m k)
found_lem m fd k x e = elim (Bool-cases (k == fd)) [
  | inl t ↦ ap (data_at m) (==→eq k fd t) ∙ e ∙ ap (λ b. if b then some x else data_at m k) (sym t)
  | inr f ↦ ap (λ b. if b then some x else data_at m k) (sym f)
]

-- On a vector of two places at least, `get` with auto_create answers the context of the descriptor, a new
-- one where there was none, and never goes behind the vector. The context stands in the
-- table from then on, and every other descriptor keeps its own.
pub get_lem :
    (stat : Option Bool) (fd : ℕ) (m : FdManager)
    → IsValid m
    → let ctx = or_else (fd_ctx fd stat) (data_at m fd) in
      (m' : FdManager) × (get stat (some fd) true m ≡ some (some ctx, m'))
      × IsValid m'
      × ((k : ℕ) → data_at m' k ≡ (if k == fd then some ctx else data_at m k))
unfolding get
get_lem stat fd m v = there (data_at m fd) refl
  where
    there :
        (c : Option FdCtx)
        → data_at m fd ≡ c
        → (m' : FdManager) × (maybe (create (fd_ctx fd stat) fd m) (λ x. some (some x, m)) c
            ≡ some (some (or_else (fd_ctx fd stat) c), m'))
          × IsValid m'
          × ((k : ℕ)
              → data_at m' k ≡ (if k == fd then some (or_else (fd_ctx fd stat) c) else data_at m k))
    there none e = create_lem (fd_ctx fd stat) fd m v
    there (some x) e = (m, refl, v, λ k. found_lem m fd k x e)

-- `del` takes the context of its descriptor out of the table and no other.
pub del_lem :
    (fd : ℕ) (m : FdManager) (k : ℕ)
    → data_at (del fd m) k ≡ (if k == fd then none else data_at m k)
unfolding del
del_lem fd m k = elim (Bool-cases (leb (length m) fd)) [
  | inl t ↦ rw (t) (beyond (leb→le (length m) fd t))
  | inr f ↦ rw (f) (data_at-set m fd none k (leb→lt (length m) fd f))
]
  where
    beyond : length m ≤ fd → data_at m k ≡ (if k == fd then none else data_at m k)
    beyond h = elim (Bool-cases (k == fd)) [
      | inl t ↦
          data_at-beyond m k (omega (arith, ==→eq k fd t))
          ∙ ap (λ b. if b then none else data_at m k) (sym t)
      | inr f ↦ ap (λ b. if b then none else data_at m k) (sym f)
    ]
