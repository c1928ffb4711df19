-- ===== src/Reconciler/Pass/Pairs.antt =====
-- The sorted set of pairs in workers/reconciler.py.
use jobwatch.Prelude.{
  ℕ, ◌≡◌, inl, inr, refl, ◌∙◌, true, List, [], ◌∷◌, ◌++◌, arith, Bool-cases, Mem, head, tail,
  Mem-cases,
}
use jobwatch.Reconciler.Pass.{sorted_pairs, insert_pair, same_pair, pair_before}

-- The set keeps every pair.
insert_pair-Mem :
    (p : ℕ × ℕ) (qs : List (ℕ × ℕ)) {x : ℕ × ℕ} → Mem x (p ∷ qs) → Mem x (insert_pair p qs)
unfolding insert_pair
insert_pair-Mem p [] m = m
insert_pair-Mem p (q ∷ qs) m = elim (Bool-cases (same_pair p q)) [
  | inl same ↦ rw same (elim (Mem-cases m) [
    | inl e ↦ let twin : p ≡ q = same_pair_lem p q same in rw (e ∙ twin) head
    | inr m' ↦ m'
  ])
  | inr differ ↦ elim (Bool-cases (pair_before p q)) [
    | inl first ↦ rw (differ, first) m
    | inr after ↦
        rw (differ, after)
          (elim (Mem-cases m) [
            | inl e ↦ tail (insert_pair-Mem p qs (rw e head))
            | inr m' ↦ elim (Mem-cases m') [
              | inl e ↦ rw e head
              | inr m'' ↦ tail (insert_pair-Mem p qs (tail m''))
            ]
          ])
  ]
]
  where
    same_pair_lem : (p q : ℕ × ℕ) → same_pair p q ≡ true → p ≡ q
    same_pair_lem (a, b) (c, d) h =
        let e : a ≡ c = ground arith in let f : b ≡ d = ground arith in rw (e, f) refl

pub sorted_pairs-Mem : (ps : List (ℕ × ℕ)) {x : ℕ × ℕ} → Mem x ps → Mem x (sorted_pairs ps)
unfolding sorted_pairs
sorted_pairs-Mem [] m = m
sorted_pairs-Mem (p ∷ ps) m =
    insert_pair-Mem p (sorted_pairs ps)
      (elim (Mem-cases m) [ inl e ↦ rw e head | inr m' ↦ tail (sorted_pairs-Mem ps m') ])

pub left : (xs ys : List (ℕ × ℕ)) {x : ℕ × ℕ} → Mem x xs → Mem x (xs ++ ys)
left [] ys m = elim m [ ]
left (x ∷ xs) ys m = elim (Mem-cases m) [ inl e ↦ rw e head | inr m' ↦ tail (left xs ys m') ]

pub right : (xs ys : List (ℕ × ℕ)) {x : ℕ × ℕ} → Mem x ys → Mem x (xs ++ ys)
right [] ys m = m
right (x ∷ xs) ys m = tail (right xs ys m)
