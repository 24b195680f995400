-- ===== src/Conservation/IdSets.antt =====
-- Sets of original ids.
use nanolab.Prelude.{
  ◌++◌, ◌+◌, ◌≤◌, ◌<◌, ◌≡◌, refl, ap, Bool, true, false, not, ◌&&◌, ◌||◌, List, [], ◌∷◌,
  if◌then◌else◌, String, length, keep, contains, ◌==◌, text_equality, Bool-cases, inl, inr, arith,
  false≢true, if_ind, eq_iff, same?_refl,
}

abbrev pub Ids : Type 0
Ids = List String

-- `{x for x in ids}`
unfoldable pub distinct : Ids → Ids
distinct [] = []
distinct (x ∷ xs) = if contains x xs then distinct xs else x ∷ distinct xs

-- `a <= b`
abbrev pub subset : Ids → Ids → Bool
subset [] ys = true
subset (x ∷ xs) ys = contains x ys && subset xs ys

abbrev pub same_ids : Ids → Ids → Bool
same_ids xs ys = subset xs ys && subset ys xs

-- `a & b` and `a - b`
abbrev pub common : Ids → Ids → Ids
common xs ys = keep (λ x. contains x ys) xs

abbrev pub without : Ids → Ids → Ids
without xs ys = keep (λ x. not (contains x ys)) xs

-- `a | b`
abbrev pub union : Ids → Ids → Ids
union xs ys = distinct (xs ++ ys)

-- No id stands twice.
abbrev pub Once : Ids → Type 0
Once [] = Unit
Once (x ∷ xs) = (contains x xs ≡ false) × Once xs

pub length-distinct : (xs : Ids) → length (distinct xs) ≤ length xs
unfolding distinct
length-distinct [] = omega arith
length-distinct (x ∷ xs) = let later = length-distinct xs in ground arith

pub distinct-Once : (xs : Ids) → length (distinct xs) ≡ length xs → Once xs
unfolding distinct
distinct-Once [] h = tt
distinct-Once (x ∷ xs) h =
    let shorter = length-distinct xs in
    elim (Bool-cases (contains x xs)) [
      | inl there ↦ absurd (ground arith)
      | inr fresh ↦ (fresh, distinct-Once xs (ground arith))
    ]

pub contains-distinct : (a : String) (xs : Ids) → contains a (distinct xs) ≡ contains a xs
unfolding distinct
contains-distinct a [] = refl
contains-distinct a (x ∷ xs) =
    let later = contains-distinct a xs in
    elim (Bool-cases (x == a)) [
      | inl same ↦ let moved = ap (λ y. contains y xs) ((eq_iff x a).0 same) in ground arith
      | inr differs ↦ ground arith
    ]

pub Once-distinct : (xs : Ids) → Once (distinct xs)
unfolding distinct
Once-distinct [] = tt
Once-distinct (x ∷ xs) =
    let later = Once-distinct xs in
    let same = contains-distinct x xs in
    if_ind Once (contains x xs) {x = distinct xs} {y = x ∷ distinct xs} (λ _. later)
      (λ fresh. (ground arith, later))

pub contains-append :
    (a : String) (xs ys : Ids) → contains a (xs ++ ys) ≡ contains a xs || contains a ys
contains-append a [] ys = refl
contains-append a (x ∷ xs) ys = let later = contains-append a xs ys in ground arith

pub keep-keep : (p q : String → Bool) (xs : Ids) → keep q (keep p xs) ≡ keep (λ x. p x && q x) xs
keep-keep p q [] = refl
keep-keep p q (x ∷ xs) = let later = keep-keep p q xs in ground arith

pub subset-contains :
    (xs ys : Ids) → subset xs ys ≡ true → (a : String) → contains a xs ≡ true → contains a ys ≡ true
subset-contains [] ys h a there = absurd (false≢true there)
subset-contains (x ∷ xs) ys h a there = elim (Bool-cases (x == a)) [
  | inl same ↦ let moved = ap (λ y. contains y ys) ((eq_iff x a).0 same) in ground arith
  | inr differs ↦ subset-contains xs ys (ground arith) a (ground arith)
]

pub contains-keep :
    (p : String → Bool) (a : String) (xs : Ids) → contains a (keep p xs) ≡ contains a xs && p a
contains-keep p a [] = refl
contains-keep p a (x ∷ xs) =
    let later = contains-keep p a xs in
    elim (Bool-cases (x == a)) [
      | inl same ↦ let moved = ap p ((eq_iff x a).0 same) in ground arith
      | inr differs ↦ ground arith
    ]

-- Two tests of which each id of a list passes exactly one split the list.
pub length-keep_two :
    (p q : String → Bool) (xs : Ids)
    → ((x : String) → contains x xs ≡ true → q x ≡ not (p x))
    → length (keep p xs) + length (keep q xs) ≡ length xs
length-keep_two p q [] h = omega arith
length-keep_two p q (x ∷ xs) h =
    let later = length-keep_two p q xs (λ y there. h y (ground arith)) in
    let here = h x (rw (same?_refl x) refl) in ground arith

-- A test that no id of a list passes keeps none.
pub length-keep_none :
    (p : String → Bool) (xs : Ids)
    → ((x : String) → contains x xs ≡ true → p x ≡ false)
    → length (keep p xs) ≡ 0
length-keep_none p [] h = refl
length-keep_none p (x ∷ xs) h =
    let later = length-keep_none p xs (λ y there. h y (ground arith)) in
    let here = h x (rw (same?_refl x) refl) in ground arith

length-keep : (p : String → Bool) (xs : Ids) → length (keep p xs) ≤ length xs
length-keep p [] = omega arith
length-keep p (x ∷ xs) = let later = length-keep p xs in ground arith

length-keep_less :
    (p : String → Bool) (a : String) (xs : Ids)
    → contains a xs ≡ true
    → p a ≡ false
    → length (keep p xs) < length xs
length-keep_less p a [] there fails = absurd (false≢true there)
length-keep_less p a (x ∷ xs) there fails =
    let shorter = length-keep p xs in
    elim (Bool-cases (x == a)) [
      | inl same ↦ let moved = ap p ((eq_iff x a).0 same) in ground arith
      | inr differs ↦ let later = length-keep_less p a xs (ground arith) fails in ground arith
    ]

-- A list without repetitions is at most as long as one that holds its ids.
pub Once-length :
    (xs ys : Ids)
    → Once xs
    → ((a : String) → contains a xs ≡ true → contains a ys ≡ true)
    → length xs ≤ length ys
Once-length [] ys once inside = omega arith
Once-length (x ∷ xs) ys (fresh, once) inside =
    let shorter =
      length-keep_less (λ y. not (x == y)) x ys (inside x (ground (arith, same?_refl x)))
        (rw (same?_refl x) refl) in
    let later = Once-length xs (keep (λ y. not (x == y)) ys) once inside_rest in omega arith
  where
    inside_rest :
        (a : String) → contains a xs ≡ true → contains a (keep (λ y. not (x == y)) ys) ≡ true
    inside_rest a there =
        let kept = contains-keep (λ y. not (x == y)) a ys in
        let inside_a = inside a (ground arith) in
        elim (Bool-cases (x == a)) [
          | inl same ↦
              let moved = ap (λ y. contains y xs) ((eq_iff x a).0 same) in absurd (ground arith)
          | inr differs ↦ ground arith
        ]
