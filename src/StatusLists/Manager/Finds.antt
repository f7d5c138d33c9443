-- ===== src/StatusLists/Manager/Finds.antt =====
-- What is found in a reversed list, for the newest list with room.
use mathlib.Core.Path.{subst}
use mathlib.Core.List.{reverse, reverse_aux}
use vcalm_status_service.Common.{
  ◌≤◌, ◌≡◌, ap, get_or, Bool, true, false, none, some, List, [], ◌∷◌, arith, All, Member, find,
  Bool-cases, inl, inr,
}
use vcalm_status_service.Storage.{StatusListRecord}
use vcalm_status_service.Storage.Contract.{IsSorted}

module _ {A : Type 0} (P : A → Type 0) where
  All-reverse_aux : (xs acc : List A) → All P xs → All P acc → All P (reverse_aux xs acc)
  All-reverse_aux [] acc h k = k
  All-reverse_aux (x ∷ xs) acc (h, hs) k = All-reverse_aux xs (x ∷ acc) hs (h, k)

  pub All-reverse : (xs : List A) → All P xs → All P (reverse xs)
  All-reverse xs h = All-reverse_aux xs [] h tt

  -- What is found has what all have, and passes the test.
  pub find-All :
      (p : A → Bool) (xs : List A) (a : A) → All P xs → find p xs ≡ some a → P a × (p a ≡ true)
  find-All p [] a h e = cc
  find-All p (x ∷ xs) a (h, hs) e = elim (Bool-cases (p x)) [
    | inl holds ↦
        let same : x ≡ a = ap (λ o. get_or o x) (rw holds at e) in
        (subst P same h, subst (λ y. p y ≡ true) same holds)
    | inr fails ↦ find-All p xs a hs (rw fails at e)
  ]

module _ {A : Type 0} where
  Member-reverse_aux_acc : (a : A) (xs acc : List A) → Member a acc → Member a (reverse_aux xs acc)
  Member-reverse_aux_acc a [] acc m = m
  Member-reverse_aux_acc a (x ∷ xs) acc m = Member-reverse_aux_acc a xs (x ∷ acc) (inr m)

  Member-reverse_aux : (a : A) (xs acc : List A) → Member a xs → Member a (reverse_aux xs acc)
  Member-reverse_aux a [] acc m = elim m [ ]
  Member-reverse_aux a (x ∷ xs) acc (inl same) = Member-reverse_aux_acc a xs (x ∷ acc) (inl same)
  Member-reverse_aux a (x ∷ xs) acc (inr m) = Member-reverse_aux a xs (x ∷ acc) m

  pub Member-reverse : (a : A) (xs : List A) → Member a xs → Member a (reverse xs)
  Member-reverse a xs m = Member-reverse_aux a xs [] m

  pub find-none :
      (p : A → Bool) (xs : List A) (a : A) → find p xs ≡ none → Member a xs → p a ≡ false
  find-none p [] a h m = elim m [ ]
  find-none p (x ∷ xs) a h m = elim (Bool-cases (p x)) [
    | inl holds ↦ cc (rw holds at h)
    | inr fails ↦ elim m [
      | inl same ↦ subst (λ y. p y ≡ false) same fails
      | inr later ↦ find-none p xs a (rw fails at h) later
    ]
  ]

  All-Member : (P : A → Type 0) (xs : List A) (a : A) → All P xs → Member a xs → P a
  All-Member P [] a h m = elim m [ ]
  All-Member P (x ∷ xs) a (h, hs) (inl same) = subst P same h
  All-Member P (x ∷ xs) a (h, hs) (inr m) = All-Member P xs a hs m

-- Newest first.
abbrev IsFalling : List StatusListRecord → Type 0
IsFalling [] = Unit
IsFalling (x ∷ xs) = All (λ y. y.created_at ≤ x.created_at) xs × IsFalling xs

IsFalling-reverse_aux :
    (xs acc : List StatusListRecord)
    → IsSorted xs
    → IsFalling acc
    → All (λ x. All (λ y. y.created_at ≤ x.created_at) acc) xs
    → IsFalling (reverse_aux xs acc)
IsFalling-reverse_aux [] acc h k below = k
IsFalling-reverse_aux (x ∷ xs) acc (first, h) k (b, bs) =
    IsFalling-reverse_aux xs (x ∷ acc) h (b, k) (both xs first bs)
  where
    both :
        (ys : List StatusListRecord)
        → All (λ y. x.created_at ≤ y.created_at) ys
        → All (λ y. All (λ z. z.created_at ≤ y.created_at) acc) ys
        → All (λ y. All (λ z. z.created_at ≤ y.created_at) (x ∷ acc)) ys
    both [] f g = tt
    both (y ∷ ys) (f, fs) (g, gs) = ((f, g), both ys fs gs)

above_nothing : (xs : List StatusListRecord) → All (λ x. Unit {0}) xs
above_nothing [] = tt
above_nothing (x ∷ xs) = (tt, above_nothing xs)

find-falling :
    (p : StatusListRecord → Bool) (xs : List StatusListRecord) (found other : StatusListRecord)
    → IsFalling xs
    → find p xs ≡ some found
    → Member other xs
    → p other ≡ true
    → other.created_at ≤ found.created_at
find-falling p [] found other h e m passes = elim m [ ]
find-falling p (x ∷ xs) found other (first, h) e m passes = elim (Bool-cases (p x)) [
  | inl holds ↦
      let same : x ≡ found = ap (λ o. get_or o x) (rw holds at e) in
      subst (λ (y : StatusListRecord). other.created_at ≤ y.created_at) same
        (elim m [
          | inl here ↦
              subst (λ (y : StatusListRecord). y.created_at ≤ x.created_at) here (omega arith)
          | inr later ↦ All-Member (λ y. y.created_at ≤ x.created_at) xs other first later
        ])
  | inr fails ↦ elim m [
    | inl here ↦ cc (ap p here, fails, passes)
    | inr later ↦ find-falling p xs found other h (rw fails at e) later passes
  ]
]

-- In a list in the order of creation, none that passes is newer than the one found from the end.
pub find-latest :
    (p : StatusListRecord → Bool) (xs : List StatusListRecord) (found other : StatusListRecord)
    → IsSorted xs
    → find p (reverse xs) ≡ some found
    → Member other xs
    → p other ≡ true
    → other.created_at ≤ found.created_at
find-latest p xs found other h e m passes =
    find-falling p (reverse xs) found other (IsFalling-reverse_aux xs [] h tt (above_nothing xs)) e
      (Member-reverse other xs m) passes
