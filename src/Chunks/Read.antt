-- ===== src/Chunks/Read.antt =====
-- `read` of rust/src/chunk_manager.rs refines the view of a file as bytes by position.
use duckdb_object_storage.Common.{
  ℕ, ◌+◌, ◌-◌, ◌≤◌, ◌≡◌, refl, ap, ◌∙◌, sym, subst, true, inl, inr, Option, none, [], ◌∷◌, arith,
  All, Option-cases,
}
use duckdb_object_storage.Common.Map
use duckdb_object_storage.Keys.{Bytes}
use duckdb_object_storage.Database.{Contents}
use duckdb_object_storage.Chunks.{ChunkManager, ChunkSlice}
use duckdb_object_storage.Chunks.Ops.{Slices}
use duckdb_object_storage.Chunks.View.{
  bytes_of, staged, persisted, view, or_persisted, byte_in, Reaches,
}
use duckdb_object_storage.Chunks.Paint.{covered, value, Ascends, covered_above}
use duckdb_object_storage.Chunks.Merge.{
  unstaged, unstaged-none, unstaged-some, covered-unstaged, Supplies,
}

module _ (m : ChunkManager) where
  -- What holds of every slice holds of those not staged.
  pub All-unstaged :
      (P : ChunkSlice → Type 0) (slices : Slices) → All P slices → All P (unstaged m slices)
  All-unstaged P [] a = unfold unstaged in tt
  All-unstaged P (s ∷ slices) a = elim (Option-cases (Map.get s.chunk_idx m.pending)) [
    | inl e ↦ subst (All P) (sym (unstaged-none m s slices e)) (a.0, All-unstaged P slices a.1)
    | inr (p, e) ↦ subst (All P) (sym (unstaged-some m s slices p e)) (All-unstaged P slices a.1)
  ]

  Ascends-lower : (c d : ℕ) (slices : Slices) → c ≤ d → Ascends d slices → Ascends c slices
  Ascends-lower c d [] h a = tt
  Ascends-lower c d (s ∷ slices) h a = (omega arith, a.1)

  pub Ascends-unstaged :
      (slices : Slices) (c : ℕ) → Ascends c slices → Ascends c (unstaged m slices)
  Ascends-unstaged [] c a = unfold unstaged in tt
  Ascends-unstaged (s ∷ slices) c a = elim (Option-cases (Map.get s.chunk_idx m.pending)) [
    | inl e ↦
        subst (Ascends c) (sym (unstaged-none m s slices e))
          (a.0, Ascends-unstaged slices (s.buf_offset + s.len) a.1)
    | inr (p, e) ↦ subst (Ascends c) (sym (unstaged-some m s slices p e)) (
        Ascends-lower c (s.buf_offset + s.len) (unstaged m slices) (omega arith)
          (Ascends-unstaged slices (s.buf_offset + s.len) a.1))
  ]

  -- Where a slice that is not staged goes, the first loop leaves zeros.
  pub unstaged-value :
      (slices : Slices) (c i : ℕ)
      → Ascends c slices
      → covered (unstaged m slices) i ≡ true
      → value (staged m) slices i ≡ 0
  unstaged-value [] c i a h = refl
  unstaged-value (s ∷ slices) c i a h = elim (Option-cases (Map.get s.chunk_idx m.pending)) [
    | inl e ↦ ground (
      arith,
      unstaged-value slices (s.buf_offset + s.len) i a.1,
      ap (λ (l : Slices). covered l i) (unstaged-none m s slices e),
      ap (λ o. byte_in (bytes_of o) (s.chunk_offset + (i - s.buf_offset))) e,
    )
    | inr (p, e) ↦ ground (
      arith,
      unstaged-value slices (s.buf_offset + s.len) i a.1,
      ap (λ (l : Slices). covered l i) (unstaged-some m s slices p e),
      covered_above (s.buf_offset + s.len) slices i a.1,
      covered-unstaged m (λ k. none) slices i,
    )
  ]

  abbrev pub AllReach : (ℕ → Option Bytes) → Slices → Type 0
  AllReach f = All (λ (s : ChunkSlice). Reaches (f s.chunk_idx) s.chunk_offset)

  pub Reaches-staged :
      (contents : Contents) (slices : Slices)
      → AllReach (view m contents) slices
      → AllReach (staged m) slices
  Reaches-staged contents [] a = tt
  Reaches-staged contents (s ∷ slices) a = (one, Reaches-staged contents slices a.1)
    where
      one : Reaches (staged m s.chunk_idx) s.chunk_offset
      one = elim (Option-cases (Map.get s.chunk_idx m.pending)) [
        | inl e ↦ subst (λ o. Reaches (bytes_of o) s.chunk_offset) (sym e) tt
        | inr (p, e) ↦
            subst (λ o. Reaches (bytes_of o) s.chunk_offset) (sym e)
              (subst
                (λ o. Reaches (or_persisted o (persisted m contents s.chunk_idx)) s.chunk_offset) e
                a.0)
      ]

  pub Reaches-unstaged :
      (contents : Contents) (g : ℕ → Option Bytes) (slices : Slices)
      → AllReach (view m contents) slices
      → Supplies m contents g (unstaged m slices)
      → AllReach g (unstaged m slices)
  Reaches-unstaged contents g [] a h = unfold unstaged in tt
  Reaches-unstaged contents g (s ∷ slices) a h =
      elim (Option-cases (Map.get s.chunk_idx m.pending)) [
        | inl e ↦
            let h' : Supplies m contents g (s ∷ unstaged m slices) =
              subst (Supplies m contents g) (unstaged-none m s slices e) h in
            subst (AllReach g) (sym (unstaged-none m s slices e)) (
              subst (λ o. Reaches o s.chunk_offset)
                  (ap (λ o. or_persisted o (persisted m contents s.chunk_idx)) e ∙ sym h'.0) a.0,
              Reaches-unstaged contents g slices a.1 h'.1,
            )
        | inr (p, e) ↦ subst (AllReach g) (sym (unstaged-some m s slices p e)) (
            Reaches-unstaged contents g slices a.1
              (subst (Supplies m contents g) (unstaged-some m s slices p e) h))
      ]
