-- ===== src/Ring/Window.antt =====
-- The elements of a ring read from an index onwards, wrapping as `next` does, and what a write or
-- an unwrapping copy does to them.
use grain.Base.{
  ℕ, zero, suc, ◌+◌, ◌-◌, ◌≤◌, ◌<◌, ◌≡◌, refl, ap, ap₂, ◌≢◌, List, [], ◌∷◌, ◌++◌, ltb,
  if◌then◌else◌, length, get_or, set, take, drop, replicate, get_or-set_self, get_or-set_ne, arith,
}
use grain.Ring.{copy, next_at}

-- where `n` steps of `next` from `h` lead, for `n` at most the capacity
abbrev pub around : ℕ → ℕ → ℕ → ℕ
around cap h n = if ltb (h + n) cap then h + n else h + n - cap

module _ {A : Type 0} (z : A) (cap : ℕ) where
  abbrev pub window : List A → ℕ → ℕ → List A
  window items h zero = []
  window items h (suc n) = get_or items h z ∷ window items (next_at cap h) n

  pub length-window : (items : List A) (h n : ℕ) → length (window items h n) ≡ n
  length-window items h zero = refl
  length-window items h (suc n) = ap suc (length-window items (next_at cap h) n)

  pub window-suc :
      (items : List A) (h n : ℕ)
      → 0 < n
      → window items h n ≡ get_or items h z ∷ window items (next_at cap h) (n - 1)
  window-suc items h zero p = absurd (omega arith)
  window-suc items h (suc n) p = ap (λ k. window items h (suc k)) (omega arith)

  -- A write past the end of a window that leaves room extends it.
  pub window-set :
      (items : List A) (x : A) (n h i : ℕ)
      → length items ≡ cap
      → h < cap
      → n < cap
      → i ≡ around cap h n
      → window (set items i x) h (suc n) ≡ window items h n ++ (x ∷ [])
  window-set items x zero h i hl hh hn e =
      let at : i ≡ h = ground arith in rw (at, get_or-set_self items h x z (omega arith))
  window-set items x (suc n) h i hl hh hn e =
      let apart : i ≢ h = ground arith in
      ap₂ ◌∷◌ (get_or-set_ne items x z apart)
        (window-set items x n (next_at cap h) i hl (ground arith) (omega arith) (ground arith))

  -- A write just before a window that does not come round to it leaves the window alone.
  pub window-set_before :
      (items : List A) (x : A) (n d h i : ℕ)
      → i < cap
      → 0 < d
      → d + n ≤ cap
      → h ≡ around cap i d
      → window (set items i x) h n ≡ window items h n
  window-set_before items x zero d h i hi hd hn e = refl
  window-set_before items x (suc n) d h i hi hd hn e =
      let apart : i ≢ h = ground arith in
      ap₂ ◌∷◌ (get_or-set_ne items x z apart) (
        window-set_before items x n (d + 1) (next_at cap h) i hi (omega arith) (omega arith)
          (ground arith))

  drop-eq-cons :
      (items : List A) (h : ℕ)
      → h < length items
      → drop h items ≡ get_or items h z ∷ drop (suc h) items
  drop-eq-cons [] h p = absurd (omega arith)
  drop-eq-cons (x ∷ items) zero p = refl
  drop-eq-cons (x ∷ items) (suc h) p = drop-eq-cons items h (omega arith)

  -- A window that does not wrap is a slice.
  pub window-eq-slice :
      (items : List A) (n h : ℕ)
      → length items ≡ cap
      → h + n ≤ cap
      → window items h n ≡ take n (drop h items)
  window-eq-slice items zero h hl hn = refl
  window-eq-slice items (suc zero) h hl hn = rw (drop-eq-cons items h (omega arith))
  window-eq-slice items (suc (suc n)) h hl hn =
      let step : next_at cap h ≡ suc h = ground arith in
      let rest : window items (next_at cap h) (suc n) ≡ take (suc n) (drop (suc h) items) =
        rw step (window-eq-slice items (suc n) (suc h) hl (omega arith)) in
      rw (drop-eq-cons items h (omega arith)) (ap (λ l. get_or items h z ∷ l) rest)

  pub window-add :
      (items : List A) (m n h : ℕ)
      → h < cap
      → m + n ≤ cap
      → window items h (m + n) ≡ window items h m ++ window items (around cap h m) n
  window-add items zero n h hh hn =
      let stay : around cap h 0 ≡ h = ground arith in
      let count : 0 + n ≡ n = omega arith in rw (stay, count)
  window-add items (suc m) n h hh hn =
      let step : around cap (next_at cap h) m ≡ around cap h (suc m) = ground arith in
      let count : suc m + n ≡ suc (m + n) = omega arith in
      rw count (
        ap (λ l. get_or items h z ∷ l)
          (rw (← step) (window-add items m n (next_at cap h) (ground arith) (omega arith))))

-- What Go's `copy` leaves in a fresh slice.
module _ {A : Type 0} where
  take-append_length : (xs ys : List A) → take (length xs) (xs ++ ys) ≡ xs
  take-append_length [] ys = refl
  take-append_length (x ∷ xs) ys = ap (λ l. x ∷ l) (take-append_length xs ys)

  drop-append_length : (xs ys : List A) → drop (length xs) (xs ++ ys) ≡ ys
  drop-append_length [] ys = refl
  drop-append_length (x ∷ xs) ys = drop-append_length xs ys

  copy-replicate :
      (z : A) (n : ℕ) (src : List A)
      → length src ≤ n
      → copy (replicate n z) src ≡ src ++ replicate (n - length src) z
  copy-replicate z zero [] h = refl
  copy-replicate z zero (s ∷ src) h = absurd (omega arith)
  copy-replicate z (suc n) [] h =
      let count : suc n - length {A = A} [] ≡ suc n = omega arith in rw count
  copy-replicate z (suc n) (s ∷ src) h =
      let count : suc n - length (s ∷ src) ≡ n - length src = omega arith in
      rw (count, copy-replicate z n src (omega arith))

  -- Two copies into a fresh slice, the second behind the first, put the two sources in a row.
  pub copy_twice :
      (z : A) (n k : ℕ) (front back : List A)
      → k ≡ length front
      → length front + length back ≤ n
      → let first = copy (replicate n z) front in
        take k first ++ copy (drop k first) back
        ≡ front ++ (back ++ replicate (n - length front - length back) z)
  copy_twice z n k front back hk h = rw (
    hk,
    copy-replicate z n front (omega arith),
    take-append_length,
    drop-append_length,
    copy-replicate z (n - length front) back (omega arith),
  )

  pub take-append_left : (n : ℕ) (xs ys : List A) → n ≡ length xs → take n (xs ++ ys) ≡ xs
  take-append_left n xs ys h = rw h (take-append_length xs ys)

  pub take_all : (n : ℕ) (xs : List A) → length xs ≤ n → take n xs ≡ xs
  take_all zero [] h = refl
  take_all zero (x ∷ xs) h = absurd (omega arith)
  take_all (suc n) [] h = refl
  take_all (suc n) (x ∷ xs) h = ap (λ l. x ∷ l) (take_all n xs (omega arith))
