-- ===== src/Metadata/Paths/Ancestor.antt =====
-- An ancestor directory has some of a path's first components, and not all.
use mathlib.Core.Path.{ap₂}
use tzap.Prelude.{
  ℕ, ◌<◌, ◌≡◌, refl, sym, ap, ◌∙◌, ◌↔◌, arith, List, [], ◌∷◌, ◌++◌, length, length-append, get_or,
  true, ◌==◌, Bool-cases, inl, inr, append_assoc,
}
use tzap.Prelude.Bytes.{starts_with, starts_with-append}
use tzap.Metadata.Paths.{slash, split_first, split_on, is_directory_ancestor}

-- Components with slashes between them.
abbrev pub join_after : List ℕ → List (List ℕ) → List ℕ
join_after first [] = first
join_after first (next ∷ rest) = first ++ (slash ∷ join_after next rest)

pub split_first-slash :
    (dir tail : List ℕ)
    → (split_first slash (dir ++ (slash ∷ tail)))
      ≡ ((split_first slash dir).0, (split_first slash dir).1 ++ split_on slash tail)
unfolding split_first split_on
split_first-slash [] tail = refl
split_first-slash (b ∷ dir) tail = elim (Bool-cases (b == slash)) [
  | inl cut ↦ rw (cut, split_first-slash dir tail)
  | inr kept ↦ rw (kept, split_first-slash dir tail)
]

join_first :
    (b : ℕ) (first : List ℕ) (rest : List (List ℕ))
    → join_after (b ∷ first) rest ≡ b ∷ join_after first rest
join_first b first [] = refl
join_first b first (next ∷ rest) = refl

-- Splitting loses nothing.
join-split : (bs : List ℕ) → join_after (split_first slash bs).0 (split_first slash bs).1 ≡ bs
unfolding split_first
join-split [] = refl
join-split (b ∷ bs) = elim (Bool-cases (b == slash)) [
  | inl cut ↦ rw cut (ap₂ (λ x xs. x ∷ xs) (ground (arith, cut)) (join-split bs))
  | inr kept ↦ rw kept (join_first b _ _ ∙ ap (λ xs. b ∷ xs) (join-split bs))
]

join-append :
    (first next : List ℕ) (more rest : List (List ℕ))
    → join_after first (more ++ (next ∷ rest))
      ≡ join_after first more ++ (slash ∷ join_after next rest)
join-append first next [] rest = refl
join-append first next (m ∷ more) rest =
    ap (λ xs. first ++ (slash ∷ xs)) (join-append m next more rest)
    ∙ sym (append_assoc first (slash ∷ join_after m more) (slash ∷ join_after next rest))

get-after : (dir tail : List ℕ) (b : ℕ) → get_or (dir ++ (b ∷ tail)) (length dir) 0 ≡ b
get-after [] tail b = refl
get-after (d ∷ dir) tail b = get-after dir tail b

-- The rest of a path that goes on with a slash.
starts_with-slash :
    (path dir : List ℕ)
    → length dir < length path
    → starts_with path dir ≡ true
    → get_or path (length dir) 0 ≡ slash
    → (tail : List ℕ) × (path ≡ dir ++ (slash ∷ tail))
unfolding starts_with
starts_with-slash [] dir h p g = absurd (omega arith)
starts_with-slash (b ∷ path) [] h p g = (path, ap (λ x. x ∷ path) g)
starts_with-slash (b ∷ path) (d ∷ dir) h p g =
    let (same, more) : (b ≡ d) × (starts_with path dir ≡ true) = ground arith in
    let (tail, e) = starts_with-slash path dir (omega arith) more g in
    (tail, ap₂ (λ x xs. x ∷ xs) same e)

ancestor_of_append :
    (d : ℕ) (ds tail : List ℕ) → is_directory_ancestor (d ∷ ds) ((d ∷ ds) ++ (slash ∷ tail)) ≡ true
unfolding is_directory_ancestor
ancestor_of_append d ds tail =
    let long = length-append ds (slash ∷ tail) in
    let same = starts_with-append (d ∷ ds) (slash ∷ tail) in
    let at = get-after ds tail slash in rw (same, at) (ground (arith, long))

tail_of_ancestor :
    (d : ℕ) (ds path : List ℕ)
    → is_directory_ancestor (d ∷ ds) path ≡ true
    → (tail : List ℕ) × (path ≡ (d ∷ ds) ++ (slash ∷ tail))
unfolding is_directory_ancestor
tail_of_ancestor d ds path h =
    starts_with-slash path (d ∷ ds) (ground arith) (ground arith) (ground arith)

split_of_append :
    (dir tail path : List ℕ)
    → path ≡ dir ++ (slash ∷ tail)
    → split_on slash path ≡ split_on slash dir ++ split_on slash tail
unfolding split_on
split_of_append dir tail path e =
    ap (split_on slash) e ∙ ap (λ parts. parts.0 ∷ parts.1) (split_first-slash dir tail)

append_of_split :
    (dir path next : List ℕ) (rest : List (List ℕ))
    → split_on slash path ≡ split_on slash dir ++ (next ∷ rest)
    → path ≡ dir ++ (slash ∷ join_after next rest)
unfolding split_on
append_of_split dir path next rest h =
    let first : (split_first slash path).0 ≡ (split_first slash dir).0 = cc in
    let others : (split_first slash path).1 ≡ (split_first slash dir).1 ++ (next ∷ rest) = cc in
    sym (join-split path)
    ∙ ap₂ join_after first others
    ∙ join-append _ next _ rest
    ∙ ap (λ xs. xs ++ (slash ∷ join_after next rest)) (join-split dir)

-- A directory with a name is an ancestor of a path exactly when the path's components are those of
-- the directory and one or more further ones.
pub is_directory_ancestor_iff :
    (d : ℕ) (ds path : List ℕ)
    → (is_directory_ancestor (d ∷ ds) path ≡ true) ↔ (
        (next : List ℕ) × (rest : List (List ℕ)) × (split_on slash path
          ≡ split_on slash (d ∷ ds) ++ (next ∷ rest)))
unfolding split_on
is_directory_ancestor_iff d ds path = (
  λ h.
      let (tail, e) = tail_of_ancestor d ds path h in
      (
        (split_first slash tail).0,
        (split_first slash tail).1,
        split_of_append (d ∷ ds) tail path e,
      ),
  λ (next, rest, h).
      ap (is_directory_ancestor (d ∷ ds)) (append_of_split (d ∷ ds) path next rest h)
      ∙ ancestor_of_append d ds (join_after next rest),
)
