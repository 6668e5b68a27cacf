-- ===== src/Timer/Set.antt =====
-- std::set over the comparator: insertion and erasure keep it sorted.
use sylar_from_scratch.Base.{
  ℕ, ◌≡◌, ◌≢◌, ◌⊎◌, inl, inr, true, arith, refl, sym, ◌∙◌, List, [], ◌∷◌, All, some, Bool-cases,
  Option-cases, some_inj,
}
use mathlib.Core.Path.{subst}
use sylar_from_scratch.Timer.{Timer, Store, update, less, insert, erase}
use sylar_from_scratch.Timer.Order.{less_irrefl, less_trans, less-eq, less-update, less-same_next}

abbrev pub Member : ℕ → List ℕ → Type 0
Member a [] = ⊥
Member a (b ∷ bs) = (a ≡ b) ⊎ Member a bs

-- Each element before those that follow it: so there are no duplicates.
abbrev pub IsSorted : Store → List ℕ → Type 0
IsSorted h [] = Unit {0}
IsSorted h (a ∷ as') = All (λ b. less h a b ≡ true) as' × IsSorted h as'

pub All-Member {ℓ} : (P : ℕ → Type ℓ) (x : ℕ) (l : List ℕ) → All P l → Member x l → P x
All-Member P x [] h m = absurd m
All-Member P x (a ∷ l) (h, hs) (inl e) = subst P (sym e) h
All-Member P x (a ∷ l) (h, hs) (inr m) = All-Member P x l hs m

pub All-map {ℓ κ} :
    (P : ℕ → Type ℓ) (Q : ℕ → Type κ) (l : List ℕ) → ((x : ℕ) → P x → Q x) → All P l → All Q l
All-map P Q [] f h = tt
All-map P Q (a ∷ l) f (h, hs) = (f a h, All-map P Q l f hs)

pub All-insert {ℓ} :
    (P : ℕ → Type ℓ) (h : Store) (a : ℕ) (l : List ℕ) → P a → All P l → All P (insert h a l)
unfolding insert
All-insert P h a [] p ps = (p, tt)
All-insert P h a (b ∷ l) p ps = elim (Bool-cases (less h a b)) [
  | inl lt ↦ rw lt (p, ps)
  | inr ge ↦ elim (Bool-cases (less h b a)) [
    | inl gt ↦ rw (ge, gt) (ps.0, All-insert P h a l p ps.1)
    | inr eq ↦ rw (ge, eq) ps
  ]
]

pub insert-IsSorted : (h : Store) (a : ℕ) (l : List ℕ) → IsSorted h l → IsSorted h (insert h a l)
unfolding insert
insert-IsSorted h a [] s = (tt, tt)
insert-IsSorted h a (b ∷ l) (first, s) = elim (Bool-cases (less h a b)) [
  | inl lt ↦ rw lt ((lt, All-map _ _ l (λ x. less_trans h a b x lt) first), (first, s))
  | inr ge ↦ elim (Bool-cases (less h b a)) [
    | inl gt ↦
        rw (ge, gt) (All-insert (λ x. less h b x ≡ true) h a l gt first, insert-IsSorted h a l s)
    | inr eq ↦ rw (ge, eq) (first, s)
  ]
]

pub Member-insert_self : (h : Store) (a : ℕ) (l : List ℕ) → Member a (insert h a l)
unfolding insert
Member-insert_self h a [] = inl refl
Member-insert_self h a (b ∷ l) = ground (arith, Member-insert_self h a l, less-eq h a b)

pub Member-insert_old : (h : Store) (x a : ℕ) (l : List ℕ) → Member x l → Member x (insert h a l)
unfolding insert
Member-insert_old h x a [] m = absurd m
Member-insert_old h x a (b ∷ l) m = ground (arith, Member-insert_old h x a l)

-- What `erase` leaves, where it finds the element.
pub record Erased (h : Store) (a : ℕ) (l r : List ℕ) : Type 0 where
  pub sorted : IsSorted h r
  pub gone : All (λ b. b ≢ a) r
  pub others : (x : ℕ) → x ≢ a → Member x l → Member x r

All-erase {ℓ} :
    (P : ℕ → Type ℓ) (h : Store) (a : ℕ) (l r : List ℕ) → erase h a l ≡ some r → All P l → All P r
unfolding erase
All-erase P h a [] r e ps = cc
All-erase P h a (b ∷ l) r e ps = elim (Bool-cases (less h b a)) [
  | inl lt ↦ elim (Option-cases (erase h a l)) [
    | inl e' ↦ cc (rw (lt, e') at e)
    | inr (r', e') ↦
        subst (All P) (some_inj (rw (lt, e') at e)) (ps.0, All-erase P h a l r' e' ps.1)
  ]
  | inr ge ↦ elim (Bool-cases (less h a b)) [
    | inl gt ↦ cc (rw (ge, gt) at e)
    | inr eq ↦ subst (All P) (some_inj (rw (ge, eq) at e)) ps.1
  ]
]

pub ne_of_less : (h : Store) (a b : ℕ) → less h a b ≡ true → b ≢ a
ne_of_less h a b lt e = cc (rw e at lt, less_irrefl h a)

erase_first : (h : Store) (a : ℕ) (l : List ℕ) → IsSorted h (a ∷ l) → Erased h a (a ∷ l) l
erase_first h a l (first, s) = record {
  sorted = s;
  gone = All-map _ _ l (λ x. ne_of_less h a x) first;
  others = λ x ne m. elim m [ inl e ↦ absurd (ne e) | inr n ↦ n ];
}

erase_later :
    (h : Store) (a b : ℕ) (l r : List ℕ)
    → IsSorted h (b ∷ l)
    → less h b a ≡ true
    → erase h a l ≡ some r
    → Erased h a l r
    → Erased h a (b ∷ l) (b ∷ r)
erase_later h a b l r (first, s) lt e rest = record {
  sorted = (All-erase _ h a l r e first, rest.sorted);
  gone = (λ eq. ne_of_less h b a lt (sym eq), rest.gone);
  others = λ x ne m. elim m [ inl eq ↦ inl eq | inr n ↦ inr (rest.others x ne n) ];
}

-- A member is found, and exactly it is taken out.
pub erase-Erased :
    (h : Store) (a : ℕ) (l : List ℕ)
    → IsSorted h l
    → Member a l
    → (r : List ℕ) × (erase h a l ≡ some r) × Erased h a l r
unfolding erase
erase-Erased h a [] s m = absurd m
erase-Erased h a (b ∷ l) s (inl e) =
    subst (λ k. (r : List ℕ) × (erase h a (k ∷ l) ≡ some r) × Erased h a (k ∷ l) r) e
      (l, rw (less_irrefl h a), erase_first h a l (subst (λ k. IsSorted h (k ∷ l)) (sym e) s))
erase-Erased h a (b ∷ l) s (inr m) =
    let lt = All-Member (λ x. less h b x ≡ true) a l s.0 m in
    let (r, e, rest) = erase-Erased h a l s.1 m in
    (b ∷ r, rw (lt, e), erase_later h a b l r s lt e rest)

-- Changing a timer that is not in the set leaves the order.
pub IsSorted-update :
    (h : Store) (k : ℕ) (t : Timer) (l : List ℕ)
    → All (λ b. b ≢ k) l
    → IsSorted h l
    → IsSorted (update h k t) l
IsSorted-update h k t [] ne s = tt
IsSorted-update h k t (a ∷ l) (n, ns) (first, s) =
    (less_all l ns first, IsSorted-update h k t l ns s)
  where
    less_all :
        (l : List ℕ)
        → All (λ b. b ≢ k) l
        → All (λ b. less h a b ≡ true) l
        → All (λ b. less (update h k t) a b ≡ true) l
    less_all [] ns f = tt
    less_all (b ∷ l) (m, ms) (f, fs) = (less-update h k t a b n m ∙ f, less_all l ms fs)

pub IsSorted-same_next :
    (h : Store) (k : ℕ) (t : Timer) (l : List ℕ)
    → t.next ≡ (h k).next
    → IsSorted h l
    → IsSorted (update h k t) l
IsSorted-same_next h k t [] e s = tt
IsSorted-same_next h k t (a ∷ l) e (first, s) =
    (All-map _ _ l (λ b lt. less-same_next h k t a b e ∙ lt) first, IsSorted-same_next h k t l e s)
