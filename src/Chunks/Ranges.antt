-- ===== src/Chunks/Ranges.antt =====
-- `coalesce_chunk_indices` of rust/src/chunk_manager.rs. A range `first..=last` is a pair.
use duckdb_object_storage.Common.{
  ℕ, zero, suc, ◌+◌, ◌-◌, ◌≤◌, ◌≡◌, refl, ap, ◌∙◌, sym, subst, none, some, List, [], ◌∷◌, ◌++◌,
  arith, ◌==◌, if◌then◌else◌, checked_add, IsU64, All, Bool, false, Bool-cases, ◌⊎◌, inl, inr, true,
}

-- `group.end().checked_add(1) == Some(chunk_idx)`
adjacent : ℕ → ℕ → Bool
adjacent last chunk_idx = elim (checked_add last 1) [ none ↦ false | some next ↦ next == chunk_idx ]

-- The loop, with the last group as its accumulator.
coalesce_from : ℕ → ℕ → List ℕ → List (ℕ × ℕ)
coalesce_from first last [] = (first, last) ∷ []
coalesce_from first last (i ∷ indices) =
    let longer = coalesce_from first i indices in
    let closed = (first, last) ∷ coalesce_from i i indices in
    if adjacent last i then longer else closed

unfoldable pub coalesce_chunk_indices : List ℕ → List (ℕ × ℕ)
unfolding coalesce_from adjacent
coalesce_chunk_indices [] = []
coalesce_chunk_indices (i ∷ indices) = coalesce_from i i indices

-- An index lies in one of the ranges.
abbrev pub InRanges : List (ℕ × ℕ) → ℕ → Type 0
InRanges [] i = ⊥
InRanges ((first, last) ∷ ranges) i = ((first ≤ i) × (i ≤ last)) ⊎ InRanges ranges i

-- The indices of a range, `count` of them, and those of several ranges in turn.
abbrev pub count_from : ℕ → ℕ → List ℕ
count_from zero first = []
count_from (suc count) first = first ∷ count_from count (first + 1)

abbrev pub indices_of : List (ℕ × ℕ) → List ℕ
indices_of [] = []
indices_of ((first, last) ∷ ranges) = count_from (last - first + 1) first ++ indices_of ranges

abbrev pub IsRange : ℕ × ℕ → Type 0
IsRange (first, last) = (first ≤ last) × IsU64 last

adjacent_next : (last i : ℕ) → adjacent last i ≡ true → i ≡ last + 1
unfolding adjacent
adjacent_next last i h = ground arith

-- One round of the loop: the last group grows, or it is closed.
coalesce_join :
    (first last i : ℕ) (indices : List ℕ)
    → adjacent last i ≡ true
    → coalesce_from first last (i ∷ indices) ≡ coalesce_from first i indices
unfolding coalesce_from
coalesce_join first last i indices e = rw e

coalesce_close :
    (first last i : ℕ) (indices : List ℕ)
    → adjacent last i ≡ false
    → coalesce_from first last (i ∷ indices) ≡ (first, last) ∷ coalesce_from i i indices
unfolding coalesce_from
coalesce_close first last i indices e = rw e

coalesce_from-IsRange :
    (first last : ℕ) (indices : List ℕ)
    → first ≤ last
    → IsU64 last
    → All IsU64 indices
    → All IsRange (coalesce_from first last indices)
unfolding coalesce_from adjacent
coalesce_from-IsRange first last [] le u a = ((le, u), tt)
coalesce_from-IsRange first last (i ∷ indices) le u a = elim (Bool-cases (adjacent last i)) [
  | inl e ↦ rw e (coalesce_from-IsRange first i indices (ground arith) a.0 a.1)
  | inr e ↦ rw e ((le, u), coalesce_from-IsRange i i indices (omega arith) a.0 a.1)
]

abbrev CoversAll : List (ℕ × ℕ) → List ℕ → Type 0
CoversAll ranges = All (InRanges ranges)

abbrev Reach : ℕ → ℕ → List ℕ → List (ℕ × ℕ) → Type 0
Reach first last indices ranges =
    ((i : ℕ) → first ≤ i → i ≤ last → InRanges ranges i) × CoversAll ranges indices

All-weaken :
    (ranges : List (ℕ × ℕ)) (range : ℕ × ℕ) (indices : List ℕ)
    → CoversAll ranges indices
    → CoversAll (range ∷ ranges) indices
All-weaken ranges range [] a = tt
All-weaken ranges range (i ∷ indices) a = (inr a.0, All-weaken ranges range indices a.1)

coalesce_from-covers :
    (first last : ℕ) (indices : List ℕ)
    → first ≤ last
    → Reach first last indices (coalesce_from first last indices)
coalesce_from-covers first last [] le = unfold coalesce_from in ((λ i lo hi. inl (lo, hi)), tt)
coalesce_from-covers first last (i ∷ indices) le = elim (Bool-cases (adjacent last i)) [
  | inl e ↦
      let next : i ≡ last + 1 = adjacent_next last i e in
      let (own, rest) = coalesce_from-covers first i indices (omega arith) in
      subst (Reach first last (i ∷ indices)) (sym (coalesce_join first last i indices e))
        ((λ j lo hi. own j lo (omega arith)), (own i (omega arith) (omega arith), rest))
  | inr e ↦
      let (own, rest) = coalesce_from-covers i i indices (omega arith) in
      subst (Reach first last (i ∷ indices)) (sym (coalesce_close first last i indices e)) (
        (λ j lo hi. inl (lo, hi)),
        (
          inr (own i (omega arith) (omega arith)),
          All-weaken (coalesce_from i i indices) (first, last) indices rest,
        ),
      )
]

pub coalesce_chunk_indices-IsRange :
    (indices : List ℕ) → All IsU64 indices → All IsRange (coalesce_chunk_indices indices)
unfolding coalesce_chunk_indices
coalesce_chunk_indices-IsRange [] a = tt
coalesce_chunk_indices-IsRange (i ∷ indices) a =
    coalesce_from-IsRange i i indices (omega arith) a.0 a.1

pub coalesce_chunk_indices_covers :
    (indices : List ℕ) → All (InRanges (coalesce_chunk_indices indices)) indices
unfolding coalesce_chunk_indices
coalesce_chunk_indices_covers [] = tt
coalesce_chunk_indices_covers (i ∷ indices) =
    let (own, rest) = coalesce_from-covers i i indices (omega arith) in
    (own i (omega arith) (omega arith), rest)

count_from-snoc :
    (count first : ℕ) (rest : List ℕ)
    → count_from (suc count) first ++ rest ≡ count_from count first ++ ((first + count) ∷ rest)
count_from-snoc zero first rest = ap (λ (t : ℕ). t ∷ rest) {x = first} {y = first + 0} (omega arith)
count_from-snoc (suc count) first rest =
    let e : first + 1 + count ≡ first + suc count = omega arith in
    ap (λ (t : List ℕ). first ∷ t)
      (count_from-snoc count (first + 1) rest
        ∙ ap (λ (k : ℕ). count_from count (first + 1) ++ (k ∷ rest)) e)

indices_of-coalesce_from :
    (first last : ℕ) (indices : List ℕ)
    → first ≤ last
    → indices_of (coalesce_from first last indices) ≡ count_from (last - first + 1) first ++ indices
indices_of-coalesce_from first last [] le = unfold coalesce_from in refl
indices_of-coalesce_from first last (i ∷ indices) le = elim (Bool-cases (adjacent last i)) [
  | inl e ↦
      let next : i ≡ last + 1 = adjacent_next last i e in
      let size : i - first + 1 ≡ suc (last - first + 1) = omega arith in
      let end : first + (last - first + 1) ≡ i = omega arith in
      rw (coalesce_join first last i indices e) (
        indices_of-coalesce_from first i indices (omega arith)
        ∙ ap (λ (n : ℕ). count_from n first ++ indices) size
        ∙ count_from-snoc (last - first + 1) first indices
        ∙ ap (λ (k : ℕ). count_from (last - first + 1) first ++ (k ∷ indices)) end)
  | inr e ↦
      let size : i - i + 1 ≡ 1 = omega arith in
      rw (coalesce_close first last i indices e) (
        ap (λ (t : List ℕ). count_from (last - first + 1) first ++ t)
          (indices_of-coalesce_from i i indices (omega arith)
            ∙ ap (λ (n : ℕ). count_from n i ++ indices) size))
]

-- Coalescing loses no index, adds none and keeps their order: the indices of the ranges, one range
-- after the other, are those given.
pub indices_of-coalesce_chunk_indices :
    (indices : List ℕ) → indices_of (coalesce_chunk_indices indices) ≡ indices
unfolding coalesce_chunk_indices
indices_of-coalesce_chunk_indices [] = refl
indices_of-coalesce_chunk_indices (i ∷ indices) =
    let size : i - i + 1 ≡ 1 = omega arith in
    indices_of-coalesce_from i i indices (omega arith)
    ∙ ap (λ (n : ℕ). count_from n i ++ indices) size
