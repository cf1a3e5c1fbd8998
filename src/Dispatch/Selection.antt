-- ===== src/Dispatch/Selection.antt =====
-- `reserve_client` of src/rest_dispatcher.rs: which source address it picks, and when it has none.
use mathlib.Core.Bool.{false≢true}
use native.Mathlib.Nat.{mod-eq_of_lt, mod-lt, add-mod_right}
use crypto_nav_manager.Base.{
  ℕ, zero, suc, ◌+◌, ◌-◌, ◌%◌, ◌≤◌, ◌<◌, leb, leb→le, ◌≡◌, refl, sym, ap, subst, ◌∙◌, ◌⊎◌, inl, inr,
  Bool, true, false, none, some, List, [], ◌∷◌, map, length, get_elem?, All, Bool-cases,
  Option-cases, arith,
}
use crypto_nav_manager.Dispatch.{DispatcherConfig, IpClient}
use crypto_nav_manager.Dispatch.Pool.{
  min_by_key, filter, rotation, minimum, is_available, available_at, used_at, select,
}

pub min_by_key-none : (key : ℕ → ℕ) (xs : List ℕ) → min_by_key key xs ≡ none → xs ≡ []
min_by_key-none key [] h = refl
min_by_key-none key (x ∷ xs) h = elim (Option-cases (min_by_key key xs)) [
  | inl e ↦ cc (rw e at h)
  | inr (y, e) ↦ cc (rw e at h)
]

min_by_key-of-All :
    (P : ℕ → Type 0) (key : ℕ → ℕ) (xs : List ℕ) (i : ℕ)
    → min_by_key key xs ≡ some i
    → All P xs
    → P i
min_by_key-of-All P key [] i h a = cc
min_by_key-of-All P key (x ∷ xs) i h (p, ps) = elim (Option-cases (min_by_key key xs)) [
  | inl e ↦ let g = rw e at h in let q : x ≡ i = cc in subst P q p
  | inr (y, e) ↦
      let g = rw e at h in
      let r = min_by_key-of-All P key xs y e ps in
      elim (Bool-cases (leb (key x) (key y))) [
        | inl b ↦ let g' = rw b at g in let q : x ≡ i = cc in subst P q p
        | inr b ↦ let g' = rw b at g in let q : y ≡ i = cc in subst P q r
      ]
]

All-below :
    (key : ℕ → ℕ) (y i : ℕ) (xs : List ℕ)
    → key i ≤ key y
    → All (λ x. key y ≤ key x) xs
    → All (λ x. key i ≤ key x) xs
All-below key y i [] h a = tt
All-below key y i (x ∷ xs) h (p, ps) = (omega arith, All-below key y i xs h ps)

min_by_key-least :
    (key : ℕ → ℕ) (xs : List ℕ) (i : ℕ) → min_by_key key xs ≡ some i → All (λ x. key i ≤ key x) xs
min_by_key-least key [] i h = tt
min_by_key-least key (x ∷ xs) i h = elim (Option-cases (min_by_key key xs)) [
  | inl e ↦
      let g = rw e at h in
      let q : x ≡ i = cc in
      let n = min_by_key-none key xs e in (omega (arith, ap key q), subst (All _) (sym n) tt)
  | inr (y, e) ↦
      let g = rw e at h in
      let r = min_by_key-least key xs y e in
      elim (Bool-cases (leb (key x) (key y))) [
        | inl b ↦
            let g' = rw b at g in
            let q : x ≡ i = cc in
            (
              omega (arith, ap key q),
              All-below key y i xs (omega (arith, ap key q, leb→le (key x) (key y) b)) r,
            )
        | inr b ↦
            let g' = rw b at g in
            let q : y ≡ i = cc in
            let l : key i ≤ key x = ground (arith, ap key q) in
            (l, All-below key y i xs (omega (arith, ap key q)) r)
      ]
]

filter-All : (p : ℕ → Bool) (xs : List ℕ) → All (λ x. p x ≡ true) (filter p xs)
filter-All p [] = tt
filter-All p (x ∷ xs) = elim (Bool-cases (p x)) [
  | inl e ↦ rw e (e, filter-All p xs)
  | inr e ↦ rw e (filter-All p xs)
]

All-of-filter :
    (Q : ℕ → Type 0) (p : ℕ → Bool) (xs : List ℕ)
    → All Q (filter p xs)
    → All (λ x. p x ≡ true → Q x) xs
All-of-filter Q p [] a = tt
All-of-filter Q p (x ∷ xs) a = elim (Bool-cases (p x)) [
  | inl e ↦ let b = rw e at a in (λ _. b.0, All-of-filter Q p xs b.1)
  | inr e ↦ (λ h. elim (false≢true (sym e ∙ h)) [ ], All-of-filter Q p xs (rw e at a))
]

All-rotation :
    (P : ℕ → Type 0) (len start n k : ℕ)
    → All P (rotation len start n)
    → k < n
    → P ((start + k) % len)
All-rotation P len start zero k a h = elim h [ ]
All-rotation P len start (suc n) zero (p, a) h = subst (λ x. P (x % len)) (omega arith) p
All-rotation P len start (suc n) (suc k) (p, a) h =
    subst (λ x. P (x % len)) (omega arith) (All-rotation P len (suc start) n k a (omega arith))

wraps : (i len : ℕ) → i < len → (i + len) % len ≡ i
wraps i len h = add-mod_right i len ∙ mod-eq_of_lt h

-- A rotation of all the numbers below `len` has each of them.
rotation-covers :
    (P : ℕ → Type 0) (len start i : ℕ)
    → start < len
    → i < len
    → All P (rotation len start len)
    → P i
rotation-covers P len start i s h a = elim (Bool-cases (leb start i)) [
  | inl e ↦
      subst P (ap (λ x. x % len) (omega (arith, leb→le start i e)) ∙ mod-eq_of_lt h)
        (All-rotation P len start len (i - start) a (omega arith))
  | inr e ↦
      let l : i < start = ground arith in
      subst P (ap (λ x. x % len) (omega arith) ∙ wraps i len h)
        (All-rotation P len start len (i + len - start) a (omega arith))
]

pub get_elem?-lt :
    {A : Type 0} (xs : List A) (i : ℕ) {c : A} → get_elem? xs i ≡ some c → i < length xs
get_elem?-lt [] i h = cc
get_elem?-lt (x ∷ xs) zero h = omega arith
get_elem?-lt (x ∷ xs) (suc i) h = omega (arith, get_elem?-lt xs i h)

pub length-map : {A B : Type 0} (f : A → B) (xs : List A) → length (map f xs) ≡ length xs
length-map f [] = refl
length-map f (x ∷ xs) = ap suc (length-map f xs)

pub get_elem?-map :
    {A B : Type 0} (f : A → B) (xs : List A) (i : ℕ) {a : A}
    → get_elem? xs i ≡ some a
    → get_elem? (map f xs) i ≡ some (f a)
get_elem?-map f [] i h = cc
get_elem?-map f (x ∷ xs) zero {a = a} h = let q : x ≡ a = cc in ap (λ z. some (f z)) q
get_elem?-map f (x ∷ xs) (suc i) h = get_elem?-map f xs i h

-- The least of a list that is not empty is one of its elements.
pub minimum-map :
    {A : Type 0} (f : A → ℕ) (xs : List A)
    → 0 < length xs
    → (i : ℕ) × (a : A) × (get_elem? xs i ≡ some a) × (minimum (map f xs) ≡ some (f a))
minimum-map f [] h = elim h [ ]
minimum-map f (x ∷ []) h = (0, x, refl, refl)
minimum-map f (x ∷ y ∷ ys) h =
    let (i, a, at, e) = minimum-map f (y ∷ ys) (omega arith) in
    elim (Bool-cases (leb (f x) (f a))) [
      | inl b ↦ (0, x, refl, rw (e, b))
      | inr b ↦ (suc i, a, at, rw (e, b))
    ]

module _ {C : Type 0} where
  available_at-eq-true :
      (config : DispatcherConfig) (weight : ℕ) (clients : List (IpClient C)) (i : ℕ)
      → available_at config weight clients i ≡ true
      → (c : IpClient C) × (get_elem? clients i ≡ some c) × (is_available config weight c ≡ true)
  available_at-eq-true config weight clients i h = elim (Option-cases (get_elem? clients i)) [
    | inl e ↦ elim (false≢true (rw (e, available_at) at h)) [ ]
    | inr (c, e) ↦ (c, e, rw (e, available_at) at h)
  ]

  -- What is selected is available, and no other available client has used less.
  abbrev pub IsBest : DispatcherConfig → ℕ → List (IpClient C) → IpClient C → Type 0
  IsBest config weight clients c =
      (is_available config weight c ≡ true)
      × ((j : ℕ) (d : IpClient C)
          → get_elem? clients j ≡ some d
          → is_available config weight d ≡ true
          → c.used_weight ≤ d.used_weight)

  abbrev pub IsExhausted : DispatcherConfig → ℕ → List (IpClient C) → Type 0
  IsExhausted config weight clients =
      (j : ℕ) (d : IpClient C) → get_elem? clients j ≡ some d → is_available config weight d ≡ false

  pub select-cases :
      (config : DispatcherConfig) (weight next : ℕ) (clients : List (IpClient C))
      → 0 < length clients
      → ((i : ℕ) × (c : IpClient C) × (select config weight next clients ≡ some i)
          × (get_elem? clients i ≡ some c)
          × IsBest config weight clients c)
        ⊎ ((select config weight next clients ≡ none) × IsExhausted config weight clients)
  unfolding select
  select-cases config weight next clients h =
      let len = length clients in
      let p = available_at config weight clients in
      let all = rotation len (next % len) len in
      let s : next % len < len = mod-lt next h in
      elim (Option-cases (min_by_key (used_at clients) (filter p all))) [
        | inl e ↦
            let none_left = min_by_key-none (used_at clients) (filter p all) e in
            inr (
              e,
              λ j d at.
                  let a : All (λ x. p x ≡ true → ⊥) all =
                    All-of-filter (λ _. ⊥) p all (subst (All _) (sym none_left) tt) in
                  let n : p j ≡ true → ⊥ =
                    rotation-covers _ len (next % len) j s (get_elem?-lt clients j at) a in
                  elim (Bool-cases (is_available config weight d)) [
                    | inl b ↦ elim (n (rw (at, available_at, b))) [ ]
                    | inr b ↦ b
                  ],
            )
        | inr (i, e) ↦
            let av = min_by_key-of-All (λ x. p x ≡ true) _ (filter p all) i e (filter-All p all) in
            let (c, at, ok) = available_at-eq-true config weight clients i av in
            inl (
              i,
              c,
              e,
              at,
              (
                ok,
                λ j d at' ok'.
                    let a =
                      All-of-filter _ p all
                        (min_by_key-least (used_at clients) (filter p all) i e) in
                    let n =
                      rotation-covers _ len (next % len) j s (get_elem?-lt clients j at') a
                        (rw (at', available_at, ok')) in
                    rw (at, at', used_at) at n,
              ),
            )
      ]
