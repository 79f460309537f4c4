-- ===== src/Reactor/Timers/Keys.antt =====
-- Heap order on keys alone, and what a swap with the parent or with the smallest child does to it.
use cfiber.Common.{
  ℕ, ◌-◌, ◌/◌, ◌≤◌, ◌<◌, ◌≡◌, ◌≢◌, arith, ◌==◌, if◌then◌else◌, Bool-cases, inl, inr, ap,
}

abbrev pub swapped : (ℕ → ℕ) → ℕ → ℕ → ℕ → ℕ
swapped K a b k = if k == b then K a else if k == a then K b else K k

-- Each key is at least its parent's.
abbrev pub HeapOrder : (ℕ → ℕ) → ℕ → Type 0
HeapOrder K n = (k : ℕ) → 0 < k → k < n → K ((k - 1) / 2) ≤ K k

-- The order, but for place `i` and its parent; what is below `i` fits above it.
pub record UpTo (K : ℕ → ℕ) (n i : ℕ) : Type 0 where
  pub order : (k : ℕ) → 0 < k → k < n → k ≢ i → K ((k - 1) / 2) ≤ K k
  pub across : (k : ℕ) → 0 < i → 0 < k → k < n → (k - 1) / 2 ≡ i → K ((i - 1) / 2) ≤ K k

-- The order, but for `i` and its parent, and for `j` and its children.
pub record DownFrom (K : ℕ → ℕ) (n i j : ℕ) : Type 0 where
  pub order : (k : ℕ) → 0 < k → k < n → k ≢ i → (k - 1) / 2 ≢ j → K ((k - 1) / 2) ≤ K k
  pub across : (k : ℕ) → 0 < i → 0 < k → k < n → (k - 1) / 2 ≡ i → K ((i - 1) / 2) ≤ K k
  pub above : j ≢ i → 0 < i → K ((i - 1) / 2) ≤ K i
  pub across_hole : (k : ℕ) → 0 < j → 0 < k → k < n → (k - 1) / 2 ≡ j → K ((j - 1) / 2) ≤ K k

pub UpTo-root : (K : ℕ → ℕ) (n : ℕ) → UpTo K n 0 → HeapOrder K n
UpTo-root K n up k pos lt = up.order k pos lt (λ e. omega (arith, e))

pub UpTo-fits : (K : ℕ → ℕ) (n i : ℕ) → UpTo K n i → K ((i - 1) / 2) ≤ K i → HeapOrder K n
UpTo-fits K n i up fits k pos lt = elim (Bool-cases (k == i)) [
  | inl same ↦ let e : i ≡ k = ground arith in rw e at fits
  | inr other ↦ up.order k pos lt (λ e. ground (arith, e))
]

pub UpTo-swap :
    (K : ℕ → ℕ) (n i : ℕ)
    → UpTo K n i
    → 0 < i
    → i < n
    → K i < K ((i - 1) / 2)
    → UpTo (swapped K i ((i - 1) / 2)) n ((i - 1) / 2)
UpTo-swap K n i up pos lt more = record { order = order; across = across }
  where
    p : ℕ
    p = (i - 1) / 2

    order : (k : ℕ) → 0 < k → k < n → k ≢ p → swapped K i p ((k - 1) / 2) ≤ swapped K i p k
    order k kpos klt ne = elim (Bool-cases (k == i)) [
      | inl same ↦
          let e : k ≡ i = ground arith in
          ground (arith, e, ap K e, ap (λ (x : ℕ). K ((x - 1) / 2)) e)
      | inr other ↦
          let keep = up.order k kpos klt (λ e. ground (arith, e)) in
          elim (Bool-cases ((k - 1) / 2 == i)) [
            | inl child ↦
                let e : (k - 1) / 2 ≡ i = ground arith in ground (arith, up.across k pos kpos klt e)
            | inr far ↦ elim (Bool-cases ((k - 1) / 2 == p)) [
              | inl sibling ↦ let e : (k - 1) / 2 ≡ p = ground arith in ground (arith, keep, ap K e)
              | inr apart ↦ ground (arith, keep)
            ]
          ]
    ]

    across :
        (k : ℕ)
        → 0 < p
        → 0 < k
        → k < n
        → (k - 1) / 2 ≡ p
        → swapped K i p ((p - 1) / 2) ≤ swapped K i p k
    across k ppos kpos klt e =
        let above = up.order p ppos (omega arith) (λ q. omega (arith, q)) in
        elim (Bool-cases (k == i)) [
          | inl same ↦ ground (arith, above)
          | inr other ↦
              let keep = up.order k kpos klt (λ q. ground (arith, q)) in
              ground (arith, above, keep, ap K e)
        ]

-- `c` is a child of `j` with a smaller key, and no child has a smaller one.
pub record SmallestChild (K : ℕ → ℕ) (n j c : ℕ) : Type 0 where
  pub child : (c - 1) / 2 ≡ j
  pub positive : 0 < c
  pub inside : c < n
  pub less : K c < K j
  pub least : (k : ℕ) → 0 < k → k < n → (k - 1) / 2 ≡ j → K c ≤ K k

pub DownFrom-settled :
    (K : ℕ → ℕ) (n i j : ℕ)
    → DownFrom K n i j
    → ((k : ℕ) → 0 < k → k < n → (k - 1) / 2 ≡ j → K j ≤ K k)
    → UpTo K n i
DownFrom-settled K n i j down settled = record { order = order; across = down.across }
  where
    order : (k : ℕ) → 0 < k → k < n → k ≢ i → K ((k - 1) / 2) ≤ K k
    order k kpos klt ne = elim (Bool-cases ((k - 1) / 2 == j)) [
      | inl child ↦
          let e : (k - 1) / 2 ≡ j = ground arith in omega (arith, settled k kpos klt e, ap K e)
      | inr far ↦ down.order k kpos klt ne (λ e. ground (arith, e))
    ]

pub DownFrom-swap :
    (K : ℕ → ℕ) (n i j c : ℕ)
    → i ≤ j
    → DownFrom K n i j
    → SmallestChild K n j c
    → DownFrom (swapped K j c) n i c
DownFrom-swap K n i j c below down least = record {
  order = order;
  across = across;
  above = above;
  across_hole = across_hole;
}
  where
    cpos : 0 < c
    cpos = least.positive

    is_child : (c - 1) / 2 ≡ j
    is_child = least.child

    less : K c < K j
    less = least.less

    order :
        (k : ℕ)
        → 0 < k
        → k < n
        → k ≢ i
        → (k - 1) / 2 ≢ c
        → swapped K j c ((k - 1) / 2) ≤ swapped K j c k
    order k kpos klt ni nc = elim (Bool-cases (k == c)) [
      | inl same ↦
          let e : (k - 1) / 2 ≡ j = ground (arith, is_child) in
          ground (arith, cpos, is_child, less, e)
      | inr other ↦ elim (Bool-cases ((k - 1) / 2 == j)) [
        | inl child ↦
            let e : (k - 1) / 2 ≡ j = ground arith in
            ground (arith, least.least k kpos klt e, cpos, is_child)
        | inr far ↦ elim (Bool-cases (k == j)) [
          | inl hole ↦
              let e : k ≡ j = ground arith in
              let up = down.across_hole c (omega arith) cpos least.inside is_child in
              ground (arith, up, ap (λ (x : ℕ). K ((x - 1) / 2)) e, cpos, is_child, nc)
          | inr off ↦ ground (arith, down.order k kpos klt ni (λ e. ground (arith, e)), nc)
        ]
      ]
    ]

    above : c ≢ i → 0 < i → swapped K j c ((i - 1) / 2) ≤ swapped K j c i
    above ne ipos = elim (Bool-cases (i == j)) [
      | inl first ↦
          let e : (c - 1) / 2 ≡ i = ground (arith, is_child) in
          ground (arith, down.across c ipos cpos least.inside e, cpos, is_child)
      | inr later ↦
          let fits = down.above (λ e. ground (arith, e)) ipos in
          ground (arith, fits, cpos, is_child)
    ]

    across :
        (k : ℕ)
        → 0 < i
        → 0 < k
        → k < n
        → (k - 1) / 2 ≡ i
        → swapped K j c ((i - 1) / 2) ≤ swapped K j c k
    across k ipos kpos klt e =
        let keep = down.across k ipos kpos klt e in
        elim (Bool-cases (k == j)) [
          | inl hole ↦
              let fits = down.above (λ q. ground (arith, q)) ipos in
              let up = down.across_hole c (ground arith) cpos least.inside is_child in
              let same : (j - 1) / 2 ≡ i = ground (arith, e) in
              ground (arith, fits, up, ap K same, cpos, is_child)
          | inr off ↦ elim (Bool-cases (k == c)) [
            | inl same ↦
                let q : k ≡ c = ground arith in ground (arith, keep, ap K q, less, cpos, is_child)
            | inr other ↦ ground (arith, keep, cpos, is_child)
          ]
        ]

    across_hole :
        (k : ℕ)
        → 0 < c
        → 0 < k
        → k < n
        → (k - 1) / 2 ≡ c
        → swapped K j c ((c - 1) / 2) ≤ swapped K j c k
    across_hole k c_pos kpos klt e =
        let keep =
          down.order k kpos klt (λ q. omega (arith, q, is_child, cpos))
            (λ q. omega (arith, q, is_child, cpos)) in
        ground (arith, keep, ap K e, cpos, is_child)

-- Only the keys count.
pub UpTo-cong : (K L : ℕ → ℕ) (n i : ℕ) → ((k : ℕ) → L k ≡ K k) → UpTo K n i → UpTo L n i
UpTo-cong K L n i e up = record {
  order = λ k a lt ne. omega (arith, up.order k a lt ne, e ((k - 1) / 2), e k);
  across = λ k p a lt q. omega (arith, up.across k p a lt q, e ((i - 1) / 2), e k);
}

pub DownFrom-cong :
    (K L : ℕ → ℕ) (n i j : ℕ) → ((k : ℕ) → L k ≡ K k) → DownFrom K n i j → DownFrom L n i j
DownFrom-cong K L n i j e down = record {
  order = λ k a lt ne far. omega (arith, down.order k a lt ne far, e ((k - 1) / 2), e k);
  across = λ k p a lt q. omega (arith, down.across k p a lt q, e ((i - 1) / 2), e k);
  above = λ ne p. omega (arith, down.above ne p, e ((i - 1) / 2), e i);
  across_hole = λ k p a lt q. omega (arith, down.across_hole k p a lt q, e ((j - 1) / 2), e k);
}
