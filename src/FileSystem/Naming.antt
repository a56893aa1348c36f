-- ===== src/FileSystem/Naming.antt =====
-- How rust/src/fs.rs names the databases: which files share one, and that no two share a path.
use duckdb_object_storage.Common.{
  ℕ, ◌≡◌, ◌≢◌, refl, ap, ◌∙◌, sym, subst, true, false, none, some, List, [], ◌∷◌, ◌++◌, ◌==◌,
  if◌then◌else◌, arith, inl, inr, Bool-cases, Option-cases, ◌⊎◌, ◌<◌, length, length-append, All,
  drop,
}
use duckdb_object_storage.Keys.{Bytes}
use duckdb_object_storage.Keys.Order.{bytes_eq, bytes_eq→eq, bytes_eq_refl}
use duckdb_object_storage.FileSystem.Paths.{
  replace, flatten, slatedb_path, strip_suffix, is_database, group_without, group_among, ends_with,
  database_group, database_companion_suffixes, wal, wal_checkpoint, wal_recovery,
}

-- Whether a suffix is one of a list.
abbrev pub Among : Bytes → List Bytes → Type 0
Among suffix [] = ⊥
Among suffix (s ∷ suffixes) = (suffix ≡ s) ⊎ Among suffix suffixes

-- What one character becomes in a flattened group.
abbrev escaped : ℕ → Bytes → Bytes
escaped b rest =
    if b == b'%'
    then b'%' ∷ b'2' ∷ b'5' ∷ rest
    else if b == b'/'
    then b'%' ∷ b'2' ∷ b'F' ∷ rest
    else b ∷ rest

flatten_cons : (b : ℕ) (g : Bytes) → flatten (b ∷ g) ≡ escaped b (flatten g)
unfolding flatten replace
flatten_cons b g = elim (Bool-cases (b == b'%')) [
  | inl h ↦ rw h refl
  | inr h ↦ rw h (elim (Bool-cases (b == b'/')) [ inl s ↦ rw s refl | inr s ↦ rw s refl ])
]

escaped-injective : (a b : ℕ) (g h : Bytes) → escaped a g ≡ escaped b h → (a ≡ b) × (g ≡ h)
escaped-injective a b g h e = (ground arith, ground arith)

escaped_some : (b : ℕ) (g : Bytes) → escaped b g ≢ []
escaped_some b g e = ground arith

flatten-injective : (g h : Bytes) → flatten g ≡ flatten h → g ≡ h
unfolding flatten replace
flatten-injective [] [] e = refl
flatten-injective [] (b ∷ h) e =
    absurd (escaped_some b (flatten h) (sym (flatten_cons b h) ∙ sym e))
flatten-injective (a ∷ g) [] e = absurd (escaped_some a (flatten g) (sym (flatten_cons a g) ∙ e))
flatten-injective (a ∷ g) (b ∷ h) e =
    let (same, rest) =
      escaped-injective a b (flatten g) (flatten h)
        (sym (flatten_cons a g) ∙ e ∙ flatten_cons b h) in
    cc (flatten-injective g h rest)

append-injective : (p xs ys : Bytes) → p ++ xs ≡ p ++ ys → xs ≡ ys
append-injective [] xs ys e = e
append-injective (b ∷ p) xs ys e = append-injective p xs ys (cc)

slatedb_path-injective :
    (database_path g h : Bytes)
    → slatedb_path database_path g ≡ slatedb_path database_path h
    → g ≡ h
unfolding slatedb_path
slatedb_path-injective database_path g h e = flatten-injective g h (
    append-injective (b'/' ∷ []) (flatten g) (flatten h)
      (append-injective database_path (b'/' ∷ flatten g) (b'/' ∷ flatten h) e))

-- Different groups have different paths: no two databases of a filesystem share a SlateDB.
pub slatedb_path-apart :
    (database_path g h : Bytes)
    → g ≢ h
    → slatedb_path database_path g ≢ slatedb_path database_path h
slatedb_path-apart database_path g h apart e = apart (slatedb_path-injective database_path g h e)

bytes_eq_longer : (xs ys : Bytes) → length ys < length xs → bytes_eq xs ys ≡ false
unfolding bytes_eq
bytes_eq_longer [] ys h = absurd (omega arith)
bytes_eq_longer (x ∷ xs) [] h = refl
bytes_eq_longer (x ∷ xs) (y ∷ ys) h = rw (bytes_eq_longer xs ys (omega arith)) (ground arith)

strip_suffix_self : (suffix : Bytes) → strip_suffix suffix suffix ≡ some []
unfolding strip_suffix bytes_eq
strip_suffix_self [] = refl
strip_suffix_self (b ∷ suffix) = rw (bytes_eq_refl (b ∷ suffix)) refl

strip_suffix-append : (suffix path : Bytes) → strip_suffix suffix (path ++ suffix) ≡ some path
unfolding strip_suffix
strip_suffix-append suffix [] = strip_suffix_self suffix
strip_suffix-append suffix (b ∷ path) =
    rw (bytes_eq_longer (b ∷ (path ++ suffix)) suffix (omega (arith, length-append path suffix)))
      (rw (strip_suffix-append suffix path) refl)

ends_with-append :
    (c b : ℕ) (path rest : Bytes) → ends_with c (path ++ (b ∷ rest)) ≡ ends_with c (b ∷ rest)
unfolding ends_with
ends_with-append c b [] rest = refl
ends_with-append c b (a ∷ []) rest = refl
ends_with-append c b (a ∷ a' ∷ path) rest = ends_with-append c b (a' ∷ path) rest

ends_with_tail :
    (c b : ℕ) (path : Bytes) → ends_with c (b ∷ path) ≡ false → ends_with c path ≡ false
unfolding ends_with
ends_with_tail c b [] e = refl
ends_with_tail c b (a ∷ path) e = e

-- A path that ends in another character than the suffix does not end in the suffix.
strip_suffix_other :
    (c : ℕ) (suffix path : Bytes)
    → ends_with c suffix ≡ true
    → ends_with c path ≡ false
    → strip_suffix suffix path ≡ none
unfolding strip_suffix
strip_suffix_other c suffix [] ends other_end = elim (Bool-cases (bytes_eq [] suffix)) [
  | inl same ↦ absurd (cc (bytes_eq→eq [] suffix same))
  | inr other ↦ rw other refl
]
strip_suffix_other c suffix (b ∷ path) ends other_end =
    elim (Bool-cases (bytes_eq (b ∷ path) suffix)) [
      | inl same ↦ absurd (cc (bytes_eq→eq (b ∷ path) suffix same))
      | inr other ↦
          rw other
            (rw (strip_suffix_other c suffix path ends (ends_with_tail c b path other_end)) refl)
    ]

group_found :
    (suffix : Bytes) (suffixes : List Bytes) (database : Bytes)
    → is_database database ≡ true
    → group_among (suffix ∷ suffixes) (database ++ suffix) ≡ database
unfolding group_among group_without
group_found suffix suffixes database named =
    rw (strip_suffix-append suffix database) (rw named refl)

group_skip :
    (c : ℕ) (suffix : Bytes) (suffixes : List Bytes) (database : Bytes) (b : ℕ) (rest : Bytes)
    → ends_with c suffix ≡ true
    → ends_with c (b ∷ rest) ≡ false
    → group_among (suffix ∷ suffixes) (database ++ (b ∷ rest))
      ≡ group_among suffixes (database ++ (b ∷ rest))
unfolding group_among group_without
group_skip c suffix suffixes database b rest ends other_end =
    rw
      (strip_suffix_other c suffix (database ++ (b ∷ rest)) ends
        (ends_with-append c b database rest ∙ other_end))
      refl

companion_groups :
    (database : Bytes)
    → is_database database ≡ true
    → All (λ suffix. database_group (database ++ suffix) ≡ database) database_companion_suffixes
unfolding database_group ends_with
companion_groups database named =
    let checkpoint =
      group_skip b'l' wal (wal_checkpoint ∷ wal_recovery ∷ []) database b'.' (drop 1 wal_checkpoint)
        refl refl
      ∙ group_found wal_checkpoint (wal_recovery ∷ []) database named in
    let recovery =
      group_skip b'l' wal (wal_checkpoint ∷ wal_recovery ∷ []) database b'.' (drop 1 wal_recovery)
        refl refl
      ∙ group_skip b't' wal_checkpoint (wal_recovery ∷ []) database b'.' (drop 1 wal_recovery) refl
          refl
      ∙ group_found wal_recovery [] database named in
    (
      group_found wal (wal_checkpoint ∷ wal_recovery ∷ []) database named,
      (checkpoint, (recovery, tt)),
    )

-- What is left of a path without a suffix that it ends in.
strip_suffix-some :
    (suffix path base : Bytes) → strip_suffix suffix path ≡ some base → path ≡ base ++ suffix
unfolding strip_suffix
strip_suffix-some suffix [] base e = elim (Bool-cases (bytes_eq [] suffix)) [
  | inl same ↦
      let nothing : base ≡ [] = cc (rw same at e) in rw nothing (bytes_eq→eq [] suffix same)
  | inr other ↦ absurd (cc (rw other at e))
]
strip_suffix-some suffix (b ∷ path) base e = elim (Bool-cases (bytes_eq (b ∷ path) suffix)) [
  | inl same ↦
      let nothing : base ≡ [] = cc (rw same at e) in rw nothing (bytes_eq→eq (b ∷ path) suffix same)
  | inr other ↦ elim (Option-cases (strip_suffix suffix path)) [
    | inl none_ ↦ absurd (cc (rw none_ at (rw other at e)))
    | inr (rest, found) ↦
        let longer : base ≡ b ∷ rest = cc (rw found at (rw other at e)) in
        rw longer (ap (λ (p : Bytes). b ∷ p) (strip_suffix-some suffix path rest found))
  ]
]

-- A path that is the companion of a database: the path of one with one of the suffixes after it.
abbrev pub IsCompanion : Bytes → Type 0
IsCompanion path =
    (base : Bytes) × (suffix : Bytes) × (is_database base ≡ true)
    × Among suffix database_companion_suffixes
    × (path ≡ base ++ suffix)

group_without-cases :
    (suffix : Bytes) (suffixes : List Bytes) (path : Bytes)
    → ((base : Bytes) × (is_database base ≡ true) × (path ≡ base ++ suffix))
      ⊎ (group_among (suffix ∷ suffixes) path ≡ group_among suffixes path)
unfolding group_among group_without
group_without-cases suffix suffixes path = elim (Option-cases (strip_suffix suffix path)) [
  | inl none_ ↦ inr (rw none_ refl)
  | inr (base, found) ↦ elim (Bool-cases (is_database base)) [
    | inl named ↦ inl (base, named, strip_suffix-some suffix path base found)
    | inr unnamed ↦ inr (rw found (rw unnamed refl))
  ]
]

group_among-cases :
    (suffixes : List Bytes) (path : Bytes)
    → ((base : Bytes) × (suffix : Bytes) × (is_database base ≡ true)
        × Among suffix suffixes
        × (path ≡ base ++ suffix))
      ⊎ (group_among suffixes path ≡ path)
unfolding group_among
group_among-cases [] path = inr refl
group_among-cases (suffix ∷ suffixes) path = elim (group_without-cases suffix suffixes path) [
  | inl (base, named, e) ↦ inl (base, suffix, named, inl refl, e)
  | inr skip ↦ elim (group_among-cases suffixes path) [
    | inl (base, s, named, there, e) ↦ inl (base, s, named, inr there, e)
    | inr own ↦ inr (skip ∙ own)
  ]
]

own_group : (path : Bytes) → ¬ IsCompanion path → database_group path ≡ path
unfolding database_group
own_group path alone = elim (group_among-cases database_companion_suffixes path) [
  | inl companion ↦ absurd (alone companion)
  | inr own ↦ own
]

-- A database and its three companion files share a group: if a path is not empty, does not end in a
-- slash, and is not the companion of another database itself, it is its own group, and each of the
-- three suffixes after it names a file of the same group.
pub database_group_shared :
    (database : Bytes)
    → is_database database ≡ true
    → ¬ IsCompanion database
    → (database_group database ≡ database)
      × All
          (λ suffix. database_group (database ++ suffix) ≡ database_group database)
          database_companion_suffixes
database_group_shared database named alone =
    let own = own_group database alone in
    let (first, (second, (third, end))) = companion_groups database named in
    (own, (first ∙ sym own, (second ∙ sym own, (third ∙ sym own, tt))))

pick :
    (P : Bytes → Type 0) (suffix : Bytes) (suffixes : List Bytes)
    → All P suffixes
    → Among suffix suffixes
    → P suffix
pick P suffix [] all there = absurd (there)
pick P suffix (s ∷ suffixes) (first, all) (inl same) = subst P (sym same) first
pick P suffix (s ∷ suffixes) (first, all) (inr there) = pick P suffix suffixes all there

companion_names :
    (database : Bytes)
    → is_database database ≡ true
    → All
        (λ suffix. (is_database (database ++ suffix) ≡ true) × (0 < length suffix))
        database_companion_suffixes
unfolding is_database ends_with
companion_names [] named = absurd (cc)
companion_names (b ∷ path) named = (
  (rw (ends_with-append b'/' b'.' (b ∷ path) (drop 1 wal)) refl, omega arith),
  (
    (rw (ends_with-append b'/' b'.' (b ∷ path) (drop 1 wal_checkpoint)) refl, omega arith),
    ((rw (ends_with-append b'/' b'.' (b ∷ path) (drop 1 wal_recovery)) refl, omega arith), tt),
  ),
)

append_longer : (xs ys : Bytes) → 0 < length ys → xs ++ ys ≢ xs
append_longer xs ys some_bytes e = omega (arith, length-append xs ys, ap length e)

-- A companion of a companion is in another group than the file that it follows: for every database and
-- any two of the suffixes, the file with both after it is in the group of the file with the first one,
-- by its path, while that file is in the group of the database.
pub companion_group_apart :
    (database suffix second : Bytes)
    → is_database database ≡ true
    → Among suffix database_companion_suffixes
    → Among second database_companion_suffixes
    → (database_group ((database ++ suffix) ++ second) ≡ database ++ suffix)
      × (database_group (database ++ suffix) ≡ database)
      × (database_group ((database ++ suffix) ++ second) ≢ database_group (database ++ suffix))
companion_group_apart database suffix second named there also =
    let (names, long) =
      pick (λ s. (is_database (database ++ s) ≡ true) × (0 < length s)) suffix
        database_companion_suffixes (companion_names database named) there in
    let outer =
      pick (λ s. database_group ((database ++ suffix) ++ s) ≡ database ++ suffix) second
        database_companion_suffixes (companion_groups (database ++ suffix) names) also in
    let inner =
      pick (λ s. database_group (database ++ s) ≡ database) suffix database_companion_suffixes
        (companion_groups database named) there in
    (outer, inner, λ e. append_longer database suffix long (sym outer ∙ e ∙ inner))
