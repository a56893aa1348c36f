-- ===== src/Chunks/Merge.antt =====
-- The two loops of `read` of rust/src/chunk_manager.rs as paintings, and what they paint together.
use native.Mathlib.Decide.{dec_lt}
use mathlib.Core.Path.{fun_ext, ap₂}
use mathlib.Core.List.{append_assoc, append-nil}
use duckdb_object_storage.Common.{
  ℕ, ◌+◌, ◌-◌, ◌≤◌, ◌<◌, ◌≡◌, refl, ap, ◌∙◌, sym, subst, true, false, inl, inr, Option, none, some,
  [], ◌∷◌, ◌++◌, arith, if◌then◌else◌, All, Option-cases,
}
use duckdb_object_storage.Common.Map
use duckdb_object_storage.Common.Map.{Map}
use duckdb_object_storage.Error.{Error, Result, ok, err, panic, ◌>>=◌}
use duckdb_object_storage.Keys.{Bytes}
use duckdb_object_storage.Database.{Contents}
use duckdb_object_storage.Chunks.{
  ChunkManager, ChunkSlice, PendingChunk, written, deleted, copy_chunk_into,
}
use duckdb_object_storage.Chunks.Ops.{Slices, read_pending, copy_persisted}
use duckdb_object_storage.Chunks.Locate.{IsValid, offset_in, same_chunk}
use duckdb_object_storage.Chunks.Split.{Tiles}
use duckdb_object_storage.Chunks.View.{
  bytes_of, staged, persisted, view, or_persisted, byte_in, byte_at,
}
use duckdb_object_storage.Chunks.Paint.{
  covers, covered, value, Ascends, covered_above, paint, paint_absent, paint_present,
}

abbrev pub unless_staged : Option PendingChunk → ChunkSlice → Slices → Slices
unless_staged none s slices = s ∷ slices
unless_staged (some pending) s slices = slices

-- The slices whose chunk is not staged.
unfoldable pub unstaged : ChunkManager → Slices → Slices
unstaged m [] = []
unstaged m (s ∷ slices) = unless_staged (Map.get s.chunk_idx m.pending) s (unstaged m slices)

bind_assoc :
    {A B C : Type 0} (r : Result Error A) (f : A → Result Error B) (g : B → Result Error C)
    → (r >>= f >>= g) ≡ (r >>= λ a. f a >>= g)
bind_assoc (ok a) f g = refl
bind_assoc (err e) f g = refl
bind_assoc panic f g = refl

unfoldable pub with_slices : Slices → Bytes → Result Error (Bytes × Slices)
with_slices slices buf = ok (buf, slices)

module _ (m : ChunkManager) where
  module _ (s : ChunkSlice) (slices : Slices) (buf : Bytes) (rest : Slices) where
    skip_unstaged :
        Map.get s.chunk_idx m.pending ≡ none
        → read_pending m (s ∷ slices) buf rest ≡ read_pending m slices buf (rest ++ (s ∷ []))
    unfolding read_pending
    skip_unstaged e = rw (e, read_pending)

    skip_deleted :
        Map.get s.chunk_idx m.pending ≡ some deleted
        → read_pending m (s ∷ slices) buf rest ≡ read_pending m slices buf rest
    unfolding read_pending
    skip_deleted e = rw (e, read_pending)

    copy_written :
        (chunk : Bytes)
        → Map.get s.chunk_idx m.pending ≡ some (written chunk)
        → read_pending m (s ∷ slices) buf rest
          ≡ (copy_chunk_into buf s chunk >>= λ buf'. read_pending m slices buf' rest)
    unfolding read_pending
    copy_written chunk e = rw (e, read_pending)

  pub unstaged-none :
      (s : ChunkSlice) (slices : Slices)
      → Map.get s.chunk_idx m.pending ≡ none
      → unstaged m (s ∷ slices) ≡ s ∷ unstaged m slices
  unfolding unstaged
  unstaged-none s slices e = ap (λ o. unless_staged o s (unstaged m slices)) e

  pub unstaged-some :
      (s : ChunkSlice) (slices : Slices) (p : PendingChunk)
      → Map.get s.chunk_idx m.pending ≡ some p
      → unstaged m (s ∷ slices) ≡ unstaged m slices
  unfolding unstaged
  unstaged-some s slices p e = ap (λ o. unless_staged o s (unstaged m slices)) e

  -- The first loop is a painting of the staged chunks that collects the other slices.
  pub read_pending-paint :
      (slices : Slices) (buf : Bytes) (rest : Slices)
      → read_pending m slices buf rest
        ≡ (paint (staged m) slices buf >>= with_slices (rest ++ unstaged m slices))
  read_pending-paint [] buf rest =
      unfold read_pending paint unstaged with_slices in
      ap (λ (r : Slices). ok (buf, r)) (sym (append-nil rest))
  read_pending-paint (s ∷ slices) buf rest = elim (Option-cases (Map.get s.chunk_idx m.pending)) [
    | inl e ↦ rw (skip_unstaged s slices buf rest e) (
        rw (paint_absent (staged m) s slices buf (ap bytes_of e)) (
          rw (unstaged-none s slices e) (
            rw (← append_assoc rest (s ∷ []) (unstaged m slices))
              (read_pending-paint slices buf (rest ++ (s ∷ []))))))
    | inr (deleted, e) ↦ rw (skip_deleted s slices buf rest e) (
        rw (paint_absent (staged m) s slices buf (ap bytes_of e))
          (rw (unstaged-some s slices deleted e) (read_pending-paint slices buf rest)))
    | inr (written chunk, e) ↦ rw (copy_written s slices buf rest chunk e) (
        rw (paint_present (staged m) s slices buf chunk (ap bytes_of e)) (
          rw (unstaged-some s slices (written chunk) e) (
            rw
              (bind_assoc (copy_chunk_into buf s chunk) (paint (staged m) slices)
                (with_slices (rest ++ unstaged m slices)))
              (ap (λ (k : Bytes → Result Error (Bytes × Slices)). copy_chunk_into buf s chunk >>= k)
                (fun_ext (λ b. read_pending-paint slices b rest))))))
  ]

pub copy_persisted-paint :
    (chunks : Map Bytes) (slices : Slices) (buf : Bytes)
    → copy_persisted chunks slices buf ≡ paint (λ i. Map.get i chunks) slices buf
unfolding copy_persisted paint
copy_persisted-paint chunks [] buf = refl
copy_persisted-paint chunks (s ∷ slices) buf = elim (Option-cases (Map.get s.chunk_idx chunks)) [
  | inl e ↦ rw (e, copy_persisted, paint) (copy_persisted-paint chunks slices buf)
  | inr (chunk, e) ↦
      rw (e, copy_persisted, paint)
        (ap (λ (k : Bytes → Result Error Bytes). copy_chunk_into buf s chunk >>= k)
          (fun_ext (λ b. copy_persisted-paint chunks slices b)))
]

-- What both loops leave at a place of the buffer, out of chunks `g` for the slices not staged.
abbrev pub both : ChunkManager → (ℕ → Option Bytes) → Slices → ℕ → ℕ
both m g slices i =
    if covered (unstaged m slices) i
    then value g (unstaged m slices) i
    else if covered slices i
    then value (staged m) slices i
    else 0

module _ (m : ChunkManager) (contents : Contents) where
  pub covered-unstaged :
      (slices : Slices) (i : ℕ) → covered (unstaged m slices) i ≡ true → covered slices i ≡ true
  unfolding unstaged
  covered-unstaged [] i h = h
  covered-unstaged (s ∷ slices) i h = elim (Option-cases (Map.get s.chunk_idx m.pending)) [
    | inl e ↦ ground (
      arith,
      covered-unstaged slices i,
      ap (λ (l : Slices). covered l i) (unstaged-none m s slices e),
    )
    | inr (p, e) ↦ ground (
      arith,
      covered-unstaged slices i,
      ap (λ (l : Slices). covered l i) (unstaged-some m s slices p e),
    )
  ]

  abbrev pub Supplies : (ℕ → Option Bytes) → Slices → Type 0
  Supplies g slices =
      All (λ (s : ChunkSlice). g s.chunk_idx ≡ persisted m contents s.chunk_idx) slices

  -- Together the two loops bring each slice the chunk of the view.
  pub both-value :
      (g : ℕ → Option Bytes) (slices : Slices) (c i : ℕ)
      → Ascends c slices
      → Supplies g (unstaged m slices)
      → both m g slices i ≡ value (view m contents) slices i
  both-value g [] c i a h = unfold unstaged in refl
  both-value g (s ∷ slices) c i a h = elim (Option-cases (Map.get s.chunk_idx m.pending)) [
    | inl e ↦
        let h' : Supplies g (s ∷ unstaged m slices) =
          subst (Supplies g) (unstaged-none m s slices e) h in
        let viewed : view m contents s.chunk_idx ≡ g s.chunk_idx =
          ap (λ o. or_persisted o (persisted m contents s.chunk_idx)) e ∙ sym h'.0 in
        let rest : both m g slices i ≡ value (view m contents) slices i =
          both-value g slices (s.buf_offset + s.len) i a.1 h'.1 in
        rw (unstaged-none m s slices e) (
          ground (
            arith,
            rest,
            ap (λ (o : Option Bytes). byte_in o (s.chunk_offset + (i - s.buf_offset))) viewed,
          ))
    | inr (p, e) ↦
        let h' : Supplies g (unstaged m slices) =
          subst (Supplies g) (unstaged-some m s slices p e) h in
        let viewed : view m contents s.chunk_idx ≡ staged m s.chunk_idx =
          ap (λ o. or_persisted o (persisted m contents s.chunk_idx)) e ∙ sym (ap bytes_of e) in
        let rest : both m g slices i ≡ value (view m contents) slices i =
          both-value g slices (s.buf_offset + s.len) i a.1 h' in
        rw (unstaged-some m s slices p e) (
          ground (
            arith,
            rest,
            ap (λ (o : Option Bytes). byte_in o (s.chunk_offset + (i - s.buf_offset))) viewed,
            covered_above (s.buf_offset + s.len) slices i a.1,
            covered-unstaged slices i,
          ))
  ]

  module _ (v : IsValid m) (len offset : ℕ) (room : offset + len ≤ 18446744073709551616) where
    pub Tiles-Ascends : (slices : Slices) (c : ℕ) → Tiles m offset len c slices → Ascends c slices
    Tiles-Ascends [] c t = tt
    Tiles-Ascends (s ∷ slices) c (f, t) = (
      omega (arith, f.starts),
      subst (λ (k : ℕ). Ascends (k + s.len) slices) (sym f.starts)
          (Tiles-Ascends slices (c + s.len) t),
    )

    pub Tiles-fit :
        (slices : Slices) (c : ℕ)
        → Tiles m offset len c slices
        → All (λ (s : ChunkSlice). s.buf_offset + s.len ≤ len) slices
    Tiles-fit [] c t = tt
    Tiles-fit (s ∷ slices) c (f, t) =
        (omega (arith, f.starts, f.extent, f.inside), Tiles-fit slices (c + s.len) t)

    -- The slices of a split bring every place of the buffer the byte of its position.
    pub Tiles-value :
        (slices : Slices) (c i : ℕ)
        → Tiles m offset len c slices
        → c ≤ i
        → i < len
        → (covered slices i ≡ true)
          × (value (view m contents) slices i ≡ byte_at m contents (offset + i))
    unfolding byte_at
    Tiles-value [] c i t lo hi = absurd (omega (arith, t))
    Tiles-value (s ∷ slices) c i (f, t) lo hi = elim (dec_lt i (c + s.len)) [
      | yes h ↦
          let (same, at) =
            same_chunk m v (offset + i) (offset + c) (omega arith) (omega arith) (omega arith)
              (omega (arith, f.extent)) in
          let inside : covers s i ≡ true = ground (arith, f.starts) in
          let place : s.chunk_offset + (i - s.buf_offset) ≡ offset_in m (offset + i) =
            omega (arith, f.place, f.starts, at) in
          rw inside
            (refl, ap₂ (λ (k j : ℕ). byte_in (view m contents k) j) (f.chunk ∙ sym same) place)
      | no h ↦
          let outside : covers s i ≡ false = ground (arith, f.starts) in
          rw outside (Tiles-value slices (c + s.len) i t (omega arith) hi)
    ]
