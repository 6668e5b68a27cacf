-- ===== src/Stream/Fixed.antt =====
-- What readFixSize and writeFixSize have sent when they return, and that they return.
use sylar_from_scratch.Base.{
  ℕ, zero, suc, ◌+◌, ◌-◌, ◌^◌, ◌≤◌, ◌<◌, ◌≡◌, refl, ap, arith, List, [], ◌∷◌, ◌++◌, some, length,
  length-append,
}
use mathlib.Core.Option
use sylar_from_scratch.Stream.{
  Reading, bytes, stop, Result, whole, failed, Count, sent, refused, transfer_loop,
  transfer_fix_size, Filled, prepend, to_int, read_fix_loop, read_fix_size,
}

-- The bytes of readings.
unfoldable pub received : List Reading → List ℕ
received [] = []
received (bytes b bs ∷ later) = b ∷ bs ++ received later
received (stop e ∷ later) = received later

-- No call returns more bytes than it was asked for.
unfoldable pub Fits : ℕ → List Reading → Type 0
Fits zero later = Unit
Fits (suc left) [] = Unit
Fits (suc left) (stop e ∷ later) = Unit
Fits (suc left) (bytes b bs ∷ later) =
    (length (b ∷ bs) ≤ suc left) × Fits (suc left - length (b ∷ bs)) later

-- A loop over `left` of `size` bytes that returned: it made the first of the calls. Either the buffer
-- holds the `left` bytes that these received, or the last of them failed with fewer bytes received.
pub data Finished (calls : List Reading) (size left : ℕ) (f : Filled) : Type 0 where
  full :
      (made : List Reading)
      → calls ≡ made ++ f.later
      → f.result ≡ whole size
      → f.buffer ≡ received made
      → length f.buffer ≡ left
      → Finished calls size left f
  broken :
      (made : List Reading) (e : ℕ)
      → calls ≡ made ++ stop e ∷ f.later
      → f.result ≡ failed e
      → f.buffer ≡ received made
      → length f.buffer < left
      → Finished calls size left f

module _ (size left b : ℕ) (bs : List ℕ) (later : List Reading)
    (fits : length (b ∷ bs) ≤ suc left) where
  prepend-Finished :
      (f : Filled)
      → Finished later size (suc left - length (b ∷ bs)) f
      → Finished (bytes b bs ∷ later) size (suc left) (prepend (b ∷ bs) f)
  unfolding received
  prepend-Finished f (full made c r d l) =
      full (bytes b bs ∷ made) (ap (λ cs. bytes b bs ∷ cs) c) r (ap (λ ds. b ∷ bs ++ ds) d)
        (omega (arith, length-append {0} (b ∷ bs) f.buffer, l))
  prepend-Finished f (broken made e c r d l) =
      broken (bytes b bs ∷ made) e (ap (λ cs. bytes b bs ∷ cs) c) r (ap (λ ds. b ∷ bs ++ ds) d)
        (omega (arith, length-append {0} (b ∷ bs) f.buffer, l))

read_fix_loop_lem :
    (size : ℕ) (calls : List Reading) (left : ℕ)
    → left ≤ length calls
    → Fits left calls
    → (f : Filled) × (read_fix_loop size calls left ≡ some f) × Finished calls size left f
unfolding read_fix_loop Fits received
read_fix_loop_lem size calls zero h fits = (_, refl, full [] refl refl refl refl)
read_fix_loop_lem size [] (suc left) h fits = absurd (omega arith)
read_fix_loop_lem size (stop e ∷ later) (suc left) h fits =
    (_, refl, broken [] e refl refl refl (omega arith))
read_fix_loop_lem size (bytes b bs ∷ later) (suc left) h (fit, fits) =
    let (f, eq, done) =
      read_fix_loop_lem size later (suc left - length (b ∷ bs)) (omega arith) fits in
    (
      prepend (b ∷ bs) f,
      ap (Option.map (prepend (b ∷ bs))) eq,
      prepend-Finished size left b bs later fit f done,
    )

to_int-small : (size : ℕ) → size < 2 ^ 31 → to_int size ≡ size
unfolding to_int
to_int-small size h = omega arith

-- Given a length below 2 ^ 31 and an answer of read for each byte at most, none with more bytes than were asked for,
-- readFixSize returns: with the length and exactly the bytes that its calls received in the buffer,
-- or with the code of the call that failed, with fewer bytes received. It makes no call more.
pub read_fix_size_lem :
    (calls : List Reading) (size : ℕ)
    → size < 2 ^ 31
    → size ≤ length calls
    → Fits size calls
    → (f : Filled) × (read_fix_size calls size ≡ some f) × Finished calls size size f
unfolding read_fix_size
read_fix_size_lem calls size small h fits =
    rw (to_int-small size small) (read_fix_loop_lem size calls size h fits)

-- The bytes of counts.
unfoldable pub transferred : List Count → ℕ
transferred [] = 0
transferred (sent n ∷ later) = suc n + transferred later
transferred (refused e ∷ later) = transferred later

-- No call takes more bytes than it was given.
unfoldable pub FitsCounts : ℕ → List Count → Type 0
FitsCounts zero later = Unit
FitsCounts (suc left) [] = Unit
FitsCounts (suc left) (refused e ∷ later) = Unit
FitsCounts (suc left) (sent n ∷ later) = (suc n ≤ suc left) × FitsCounts (suc left - suc n) later

-- A loop over `left` of `size` bytes that returned: all bytes are transferred, or the last call failed
-- with fewer of them transferred.
pub data Transferred (calls : List Count) (size left : ℕ) : Result × List Count → Type 0 where
  all_sent :
      (made later : List Count)
      → calls ≡ made ++ later
      → transferred made ≡ left
      → Transferred calls size left (whole size, later)
  some_sent :
      (made : List Count) (e : ℕ) (later : List Count)
      → calls ≡ made ++ refused e ∷ later
      → transferred made < left
      → Transferred calls size left (failed e, later)

sent-Transferred :
    (n size left : ℕ) (later : List Count) (r : Result × List Count)
    → suc n ≤ suc left
    → Transferred later size (suc left - suc n) r
    → Transferred (sent n ∷ later) size (suc left) r
unfolding transferred
sent-Transferred n size left later _ fit (all_sent made rest c l) =
    all_sent (sent n ∷ made) rest (ap (λ cs. sent n ∷ cs) c) (omega arith)
sent-Transferred n size left later _ fit (some_sent made e rest c l) =
    some_sent (sent n ∷ made) e rest (ap (λ cs. sent n ∷ cs) c) (omega arith)

transfer_loop_lem :
    (size : ℕ) (calls : List Count) (left : ℕ)
    → left ≤ length calls
    → FitsCounts left calls
    → (r : Result × List Count) × (transfer_loop size calls left ≡ some r)
      × Transferred calls size left r
unfolding transfer_loop FitsCounts transferred
transfer_loop_lem size calls zero h fits = (_, refl, all_sent [] calls refl refl)
transfer_loop_lem size [] (suc left) h fits = absurd (omega arith)
transfer_loop_lem size (refused e ∷ later) (suc left) h fits =
    (_, refl, some_sent [] e later refl (omega arith))
transfer_loop_lem size (sent n ∷ later) (suc left) h (fit, fits) =
    let (r, eq, done) = transfer_loop_lem size later (suc left - suc n) (omega arith) fits in
    (r, eq, sent-Transferred n size left later r fit done)

-- The same of the loops over counts: given a length below 2 ^ 31 and an answer for each byte at most, they return, with all
-- bytes transferred or with the code of the call that failed and fewer bytes.
pub transfer_fix_size_lem :
    (calls : List Count) (size : ℕ)
    → size < 2 ^ 31
    → size ≤ length calls
    → FitsCounts size calls
    → (r : Result × List Count) × (transfer_fix_size calls size ≡ some r)
      × Transferred calls size size r
unfolding transfer_fix_size
transfer_fix_size_lem calls size small h fits =
    rw (to_int-small size small) (transfer_loop_lem size calls size h fits)
