-- ===== src/Book/Fifo/Chain.antt =====
-- Doubly linked chains, over the functions that give each slot's neighbours.
use profit_playground.Common.{
  ℕ, ◌≡◌, ◌≢◌, ◌⊎◌, inl, inr, refl, sym, ap, ◌∙◌, subst, List, [], ◌∷◌, ◌++◌,
}
use profit_playground.Book.State.{null_idx}

-- The slot is in the list.
unfoldable pub In : ℕ → List ℕ → Type 0
In k [] = ⊥
In k (x ∷ xs) = (k ≡ x) ⊎ In k xs

-- No slot occurs twice.
unfoldable pub Distinct : List ℕ → Type 0
Distinct [] = Unit
Distinct (x ∷ xs) = (In x xs → ⊥) × Distinct xs

-- From `i`, which is behind `p`, along the list to its last slot `l`, which is before `e`.
unfoldable pub Chain : (ℕ → ℕ) → (ℕ → ℕ) → ℕ → ℕ → List ℕ → ℕ → ℕ → Type 0
Chain pv nx p i [] l e = (i ≡ e) × (p ≡ l)
Chain pv nx p i (x ∷ xs) l e = (i ≡ x) × (x ≢ null_idx) × (pv x ≡ p) × Chain pv nx x (nx x) xs l e

-- The last slot of a chain that has one is in it.
pub Chain-last :
    (pv nx : ℕ → ℕ) (p i x : ℕ) (xs : List ℕ) (l e : ℕ)
    → Chain pv nx p i (x ∷ xs) l e
    → In l (x ∷ xs)
unfolding Chain In
Chain-last pv nx p i x [] l e (at, real, before, (end, last)) = inl (sym last)
Chain-last pv nx p i x (y ∷ ys) l e (at, real, before, rest) =
    inr (Chain-last pv nx x (nx x) y ys l e rest)

pub Chain-real :
    (pv nx : ℕ → ℕ) (p i : ℕ) (xs : List ℕ) (l e k : ℕ)
    → Chain pv nx p i xs l e
    → In k xs
    → k ≢ null_idx
unfolding Chain In
Chain-real pv nx p i [] l e k chain has = absurd has
Chain-real pv nx p i (x ∷ xs) l e k (at, real, before, rest) (inl same) = λ h. real (sym same ∙ h)
Chain-real pv nx p i (x ∷ xs) l e k (at, real, before, rest) (inr has) =
    Chain-real pv nx x (nx x) xs l e k rest has

-- New neighbours at the ends, and the old ones inside.
pub Chain-rewire :
    (pv nx pv' nx' : ℕ → ℕ) (p i x : ℕ) (xs : List ℕ) (l e p' e' : ℕ)
    → Chain pv nx p i (x ∷ xs) l e
    → Distinct (x ∷ xs)
    → pv' x ≡ p'
    → ((k : ℕ) → In k xs → pv' k ≡ pv k)
    → nx' l ≡ e'
    → ((k : ℕ) → In k (x ∷ xs) → k ≢ l → nx' k ≡ nx k)
    → Chain pv' nx' p' i (x ∷ xs) l e'
unfolding Chain In Distinct
Chain-rewire pv nx pv' nx' p i x [] l e p' e' (at, real, before, (end, last)) distinct front fronts
      back backs =
    (at, real, front, (ap nx' last ∙ back, last))
Chain-rewire pv nx pv' nx' p i x (y ∷ ys) l e p' e' (at, real, before, rest) (alone, distinct) front
      fronts back backs =
    let inner : nx' x ≡ nx x = backs x (inl refl) (λ same.
      alone (subst (λ k. In k (y ∷ ys)) (sym same) (Chain-last pv nx x (nx x) y ys l e rest))) in
    (
      at,
      real,
      front,
      subst (λ j. Chain pv' nx' x j (y ∷ ys) l e') (sym inner)
          (Chain-rewire pv nx pv' nx' x (nx x) y ys l e x e' rest distinct
            (fronts y (inl refl) ∙ rest.2) (λ k has. fronts k (inr has)) back
            (λ k has. backs k (inr has))),
    )

-- Two chains that meet, and the converse.
pub Chain-append :
    (pv nx : ℕ → ℕ) (p i : ℕ) (xs ys : List ℕ) (m j l e : ℕ)
    → Chain pv nx p i xs m j
    → Chain pv nx m j ys l e
    → Chain pv nx p i (xs ++ ys) l e
unfolding Chain
Chain-append pv nx p i [] ys m j l e (end, last) chain =
    subst (λ a. Chain pv nx a i ys l e) (sym last)
      (subst (λ a. Chain pv nx m a ys l e) (sym end) chain)
Chain-append pv nx p i (x ∷ xs) ys m j l e (at, real, before, rest) chain =
    (at, real, before, Chain-append pv nx x (nx x) xs ys m j l e rest chain)

pub Chain-split :
    (pv nx : ℕ → ℕ) (p i : ℕ) (xs : List ℕ) (o : ℕ) (ys : List ℕ) (l e : ℕ)
    → Chain pv nx p i (xs ++ (o ∷ ys)) l e
    → Chain pv nx p i xs (pv o) o × (o ≢ null_idx) × Chain pv nx o (nx o) ys l e
unfolding Chain
Chain-split pv nx p i [] o ys l e (at, real, before, rest) = ((at, sym before), real, rest)
Chain-split pv nx p i (x ∷ xs) o ys l e (at, real, before, rest) =
    let (first, o_real, second) = Chain-split pv nx x (nx x) xs o ys l e rest in
    ((at, real, before, first), o_real, second)

pub In-append : (k : ℕ) (xs ys : List ℕ) → In k (xs ++ ys) → In k xs ⊎ In k ys
unfolding In
In-append k [] ys h = inr h
In-append k (x ∷ xs) ys (inl same) = inl (inl same)
In-append k (x ∷ xs) ys (inr h) = elim (In-append k xs ys h) [ inl a ↦ inl (inr a) | inr b ↦ inr b ]

In-left : (k : ℕ) (xs ys : List ℕ) → In k xs → In k (xs ++ ys)
unfolding In
In-left k [] ys h = absurd h
In-left k (x ∷ xs) ys (inl same) = inl same
In-left k (x ∷ xs) ys (inr h) = inr (In-left k xs ys h)

In-right : (k : ℕ) (xs ys : List ℕ) → In k ys → In k (xs ++ ys)
unfolding In
In-right k [] ys h = h
In-right k (x ∷ xs) ys h = inr (In-right k xs ys h)

pub Distinct-snoc : (q : List ℕ) (o : ℕ) → Distinct q → (In o q → ⊥) → Distinct (q ++ (o ∷ []))
unfolding Distinct In
Distinct-snoc [] o d new = (λ h. h, tt)
Distinct-snoc (x ∷ xs) o (alone, d) new = (
  λ h. elim (In-append x xs (o ∷ []) h) [
    | inl inside ↦ alone inside
    | inr last ↦ elim last [ inl same ↦ new (inl (sym same)) | inr nowhere ↦ nowhere ]
  ],
  Distinct-snoc xs o d (λ h. new (inr h)),
)

-- A list of distinct slots around one of them.
pub record Around (xs : List ℕ) (o : ℕ) (ys : List ℕ) : Type 0 where
  pub before : Distinct xs
  pub after : Distinct ys
  pub rest : Distinct (xs ++ ys)
  pub not_before : In o xs → ⊥
  pub not_after : In o ys → ⊥
  pub apart : (k : ℕ) → In k xs → In k ys → ⊥

pub Distinct-Around :
    (xs : List ℕ) (o : ℕ) (ys : List ℕ) → Distinct (xs ++ (o ∷ ys)) → Around xs o ys
unfolding Distinct In
Distinct-Around [] o ys (alone, d) = record {
  before = tt;
  after = d;
  rest = d;
  not_before = λ h. h;
  not_after = alone;
  apart = λ k h g. h;
}
Distinct-Around (x ∷ xs) o ys (alone, d) =
    let a = Distinct-Around xs o ys d in
    record {
      before = (λ h. alone (In-left x xs (o ∷ ys) h), a.before);
      after = a.after;
      rest = (
        λ h. elim (In-append x xs ys h) [
          | inl left ↦ alone (In-left x xs (o ∷ ys) left)
          | inr right ↦ alone (In-right x xs (o ∷ ys) (inr right))
        ],
        a.rest,
      );
      not_before = λ h. elim h [
        | inl same ↦ alone (In-right x xs (o ∷ ys) (inl (sym same)))
        | inr inside ↦ a.not_before inside
      ];
      not_after = a.not_after;
      apart = λ k h g. elim h [
        | inl same ↦ alone (In-right x xs (o ∷ ys) (inr (subst (λ j. In j ys) same g)))
        | inr inside ↦ a.apart k inside g
      ];
    }

-- The last slot's link leads out of the chain.
pub Chain-end :
    (pv nx : ℕ → ℕ) (p i x : ℕ) (xs : List ℕ) (l e : ℕ) → Chain pv nx p i (x ∷ xs) l e → nx l ≡ e
unfolding Chain
Chain-end pv nx p i x [] l e (at, real, before, (end, last)) = ap nx (sym last) ∙ end
Chain-end pv nx p i x (y ∷ ys) l e (at, real, before, rest) = Chain-end pv nx x (nx x) y ys l e rest

-- Links that are the same give the same chain.
pub Chain-same :
    (pv nx pv' nx' : ℕ → ℕ) (p i : ℕ) (xs : List ℕ) (l e : ℕ)
    → ((k : ℕ) → pv' k ≡ pv k)
    → ((k : ℕ) → nx' k ≡ nx k)
    → Chain pv nx p i xs l e
    → Chain pv' nx' p i xs l e
unfolding Chain
Chain-same pv nx pv' nx' p i [] l e hp hn chain = chain
Chain-same pv nx pv' nx' p i (x ∷ xs) l e hp hn (at, real, before, rest) = (
  at,
  real,
  hp x ∙ before,
  subst (λ j. Chain pv' nx' x j xs l e) (sym (hn x))
      (Chain-same pv nx pv' nx' x (nx x) xs l e hp hn rest),
)
