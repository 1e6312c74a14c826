-- ===== src/OsList/Links.antt =====
-- Runs of items that are linked both ways, and what writing a few links does to them.
use mathlib.Core.Path.{subst}
use ak_m_os_the_simple_rtos.Base.{
  ℕ, ◌≡◌, ◌≢◌, List, [], ◌∷◌, ◌++◌, sym, arith, ◌∈◌, ◌∉◌, Distinct, has-append,
}

-- From `a` the links lead through `xs` to `b`, and back.
abbrev pub Links : (ℕ → ℕ) → (ℕ → ℕ) → ℕ → List ℕ → ℕ → Type 0
Links n v a [] b = (n a ≡ b) × (v b ≡ a)
Links n v a (x ∷ xs) b = (n a ≡ x) × (v x ≡ a) × Links n v x xs b

abbrev pub last : ℕ → List ℕ → ℕ
last a [] = a
last a (x ∷ xs) = last x xs

abbrev pub head_or : List ℕ → ℕ → ℕ
head_or [] b = b
head_or (x ∷ xs) b = x

pub last-mem : (a : ℕ) (xs : List ℕ) → last a xs ∈ a ∷ xs
last-mem a [] = ground arith
last-mem a (x ∷ xs) = ground (arith, last-mem x xs)

pub head_or-mem : (xs : List ℕ) (b : ℕ) → head_or xs b ∈ b ∷ xs
head_or-mem [] b = ground arith
head_or-mem (x ∷ xs) b = ground arith

pub ne_of_mem : (x a : ℕ) (xs : List ℕ) → x ∈ xs → a ∉ xs → x ≢ a
ne_of_mem x a xs m o e = cc

pub last-mem-append : (x : ℕ) (xs ys : List ℕ) → last x xs ∈ x ∷ (xs ++ ys)
last-mem-append x xs ys = ground (arith, last-mem x xs, has-append (last x xs) xs ys)

pub head_or-mem-append : (xs ys : List ℕ) (b : ℕ) → head_or ys b ∈ b ∷ (xs ++ ys)
head_or-mem-append xs ys b = ground (arith, head_or-mem ys b, has-append (head_or ys b) xs ys)

module _ (n v : ℕ → ℕ) where
  pub next_at :
      (a : ℕ) (xs ys : List ℕ) (b : ℕ) → Links n v a (xs ++ ys) b → n (last a xs) ≡ head_or ys b
  next_at a [] [] b k = k.0
  next_at a [] (y ∷ ys) b k = k.0
  next_at a (x ∷ xs) ys b k = next_at x xs ys b k.2

  pub prev_at :
      (a : ℕ) (xs ys : List ℕ) (b : ℕ) → Links n v a (xs ++ ys) b → v (head_or ys b) ≡ last a xs
  prev_at a [] [] b k = k.1
  prev_at a [] (y ∷ ys) b k = k.1
  prev_at a (x ∷ xs) ys b k = prev_at x xs ys b k.2

  pub next_of :
      (a : ℕ) (xs : List ℕ) (p : ℕ) (ys : List ℕ) (b : ℕ)
      → Links n v a (xs ++ p ∷ ys) b
      → n p ≡ head_or ys b
  next_of a [] p ys b k = next_at p [] ys b k.2
  next_of a (x ∷ xs) p ys b k = next_of x xs p ys b k.2

module _ (n v n' v' : ℕ → ℕ) where
  pub frame :
      (a : ℕ) (xs : List ℕ) (b : ℕ)
      → ((x : ℕ) → x ∈ a ∷ xs → n' x ≡ n x)
      → ((x : ℕ) → x ∈ b ∷ xs → v' x ≡ v x)
      → Links n v a xs b
      → Links n' v' a xs b
  frame a [] b hn hv k = ground (arith, hn a, hv b)
  frame a (x ∷ xs) b hn hv k = (
    ground (arith, hn a),
    ground (arith, hv x),
    frame x xs b (λ y m. hn y (ground arith)) (λ y m. hv y (ground arith)) k.2,
  )

  -- Linking `p` in between `i` and `j`.
  pub splice :
      (a : ℕ) (xs ys : List ℕ) (b p i j : ℕ)
      → Links n v a (xs ++ ys) b
      → i ≡ last a xs
      → j ≡ head_or ys b
      → p ∉ a ∷ b ∷ (xs ++ ys)
      → Distinct (a ∷ (xs ++ ys))
      → Distinct (b ∷ (xs ++ ys))
      → n' i ≡ p
      → n' p ≡ j
      → v' j ≡ p
      → v' p ≡ i
      → ((x : ℕ) → x ≢ i → x ≢ p → n' x ≡ n x)
      → ((x : ℕ) → x ≢ j → x ≢ p → v' x ≡ v x)
      → Links n' v' a (xs ++ p ∷ ys) b
  splice a [] [] b p i j k ei ej out da db ni np vj vp hn hv =
      (ground arith, ground arith, (ground arith, ground arith))
  splice a [] (y ∷ ys) b p i j k ei ej out da db ni np vj vp hn hv = (
    ground arith,
    ground arith,
    (
      ground arith,
      ground arith,
      frame y ys b (λ x m. hn x (ground arith) (ground arith))
          (λ x m. hv x (ground arith) (ground arith)) k.2,
    ),
  )
  splice a (x ∷ xs) ys b p i j k ei ej out da db ni np vj vp hn hv =
      let mi : i ∈ x ∷ (xs ++ ys) =
        subst (λ t. t ∈ x ∷ (xs ++ ys)) (sym ei) (last-mem-append x xs ys) in
      let mj : j ∈ b ∷ (xs ++ ys) =
        subst (λ t. t ∈ b ∷ (xs ++ ys)) (sym ej) (head_or-mem-append xs ys b) in
      let ai : a ≢ i = λ e. ne_of_mem i a (x ∷ (xs ++ ys)) mi da.0 (sym e) in
      let xj : x ≢ j = ground arith in
      (
        ground (arith, hn a),
        ground (arith, hv x),
        splice x xs ys b p i j k.2 ei ej (ground arith) da.1 (ground arith) ni np vj vp hn hv,
      )

  -- Linking the neighbours of `p` past it.
  pub unsplice :
      (a : ℕ) (xs : List ℕ) (p : ℕ) (ys : List ℕ) (b i j : ℕ)
      → Links n v a (xs ++ p ∷ ys) b
      → i ≡ last a xs
      → j ≡ head_or ys b
      → Distinct (a ∷ (xs ++ p ∷ ys))
      → Distinct (b ∷ (xs ++ p ∷ ys))
      → n' i ≡ j
      → v' j ≡ i
      → ((x : ℕ) → x ≢ i → n' x ≡ n x)
      → ((x : ℕ) → x ≢ j → v' x ≡ v x)
      → Links n' v' a (xs ++ ys) b
  unsplice a [] p [] b i j k ei ej da db ni vj hn hv = (ground arith, ground arith)
  unsplice a [] p (y ∷ ys) b i j k ei ej da db ni vj hn hv = (
    ground arith,
    ground arith,
    frame y ys b (λ x m. hn x (ground arith)) (λ x m. hv x (ground arith)) k.2.2,
  )
  unsplice a (x ∷ xs) p ys b i j k ei ej da db ni vj hn hv =
      let mi : i ∈ x ∷ (xs ++ p ∷ ys) =
        subst (λ t. t ∈ x ∷ (xs ++ p ∷ ys)) (sym ei) (last-mem-append x xs (p ∷ ys)) in
      let ai : a ≢ i = λ e. ne_of_mem i a (x ∷ (xs ++ p ∷ ys)) mi da.0 (sym e) in
      let mj : j ∈ b ∷ ys = subst (λ t. t ∈ b ∷ ys) (sym ej) (head_or-mem ys b) in
      let xj : x ≢ j = ground (arith, has-append x xs (p ∷ ys)) in
      (
        ground (arith, hn a),
        ground (arith, hv x),
        unsplice x xs p ys b i j k.2 ei ej da.1 (ground arith) ni vj hn hv,
      )
