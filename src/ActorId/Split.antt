-- ===== src/ActorId/Split.antt =====
-- The parser of an id, which works with `strings.IndexByte`, against the one that it replaces, which
-- works with `strings.Split`.
use grain.Base.{
  ℕ, suc, ◌+◌, ◌≡◌, refl, ap, ◌∙◌, inl, inr, Option, none, some, List, [], ◌∷◌, nat_eqb,
  if◌then◌else◌, take, drop, Bytes, Bool-cases, Option-cases, arith,
}
use grain.Base.Maybe.{maybe}
use grain.ActorId.{slash, at_sign, index_byte, CacheParse, empty_parse, parse_addr, parse_cache}

abbrev onto_first : ℕ → List Bytes → List Bytes
onto_first b [] = (b ∷ []) ∷ []
onto_first b (p ∷ ps) = (b ∷ p) ∷ ps

-- `strings.Split` on a separator of one byte
unfoldable pub split : ℕ → Bytes → List Bytes
split c [] = [] ∷ []
split c (b ∷ s) = let rest = split c s in if nat_eqb b c then [] ∷ rest else onto_first b rest

abbrev pub of_name : Bytes → Bytes → List Bytes → CacheParse
of_name typ kind [] = empty_parse
of_name typ kind (name ∷ []) = record { d8c = typ; kind = kind; name = name; direct_addr = [] }
of_name typ kind (name ∷ addr ∷ _) = record {
  d8c = typ;
  kind = kind;
  name = name;
  direct_addr = addr;
}

-- The reference: three pieces between slashes, and of the last one the first two pieces between
-- at signs.
abbrev pub of_parts : List Bytes → CacheParse
of_parts (typ ∷ kind ∷ name ∷ []) = of_name typ kind (split at_sign name)
of_parts _ = empty_parse

abbrev cut : ℕ → Bytes → Option ℕ → List Bytes
cut c s none = s ∷ []
cut c s (some i) = take i s ∷ split c (drop (i + 1) s)

cut-later :
    (c b : ℕ) (s : Bytes) (o : Option ℕ)
    → onto_first b (cut c s o) ≡ cut c (b ∷ s) (maybe none (λ i. some (suc i)) o)
cut-later c b s none = refl
cut-later c b s (some i) = let next : suc i + 1 ≡ suc (i + 1) = omega arith in rw next refl

split-cut : (c : ℕ) (s : Bytes) → split c s ≡ cut c s (index_byte s c)
unfolding split
split-cut c [] = refl
split-cut c (b ∷ s) = elim (Bool-cases (nat_eqb b c)) [
  | inl e ↦ rw e
  | inr e ↦ rw e (ap (onto_first b) (split-cut c s) ∙ cut-later c b s (index_byte s c))
]

split_whole : (c : ℕ) (s : Bytes) → index_byte s c ≡ none → split c s ≡ s ∷ []
split_whole c s h = split-cut c s ∙ ap (cut c s) h

split_at :
    (c : ℕ) (s : Bytes) (i : ℕ)
    → index_byte s c ≡ some i
    → split c s ≡ take i s ∷ split c (drop (i + 1) s)
split_at c s i h = split-cut c s ∙ ap (cut c s) h

name-by_split :
    (typ kind name : Bytes) → parse_addr typ kind name ≡ of_name typ kind (split at_sign name)
name-by_split typ kind name = elim (Option-cases (index_byte name at_sign)) [
  | inl h ↦ rw (h, split_whole at_sign name h) refl
  | inr (k, h) ↦
      let addr = drop (k + 1) name in
      elim (Option-cases (index_byte addr at_sign)) [
        | inl g ↦ rw (h, split_at at_sign name k h, g, split_whole at_sign addr g) refl
        | inr (k2, g) ↦ rw (h, split_at at_sign name k h, g, split_at at_sign addr k2 g) refl
      ]
]

-- For every input, well formed or not, `parseCache` gives what splitting at slashes and then at at
-- signs gives.
pub parse_cache-by_split :
    (full_path : Bytes) → parse_cache full_path ≡ of_parts (split slash full_path)
unfolding parse_cache
parse_cache-by_split p = elim (Option-cases (index_byte p slash)) [
  | inl h ↦ rw (h, split_whole slash p h) refl
  | inr (i, h) ↦
      let rest = drop (i + 1) p in
      elim (Option-cases (index_byte rest slash)) [
        | inl g ↦ rw (h, split_at slash p i h, g, split_whole slash rest g) refl
        | inr (j, g) ↦
            let name = drop (j + 1) rest in
            elim (Option-cases (index_byte name slash)) [
              | inl f ↦
                  rw
                    (
                      h,
                      split_at slash p i h,
                      g,
                      split_at slash rest j g,
                      f,
                      split_whole slash name f,
                    )
                    (name-by_split (take i p) (take j rest) name)
              | inr (l, f) ↦
                  rw
                    (
                      h,
                      split_at slash p i h,
                      g,
                      split_at slash rest j g,
                      f,
                      split_at slash name l f,
                    )
                    (four_parts (take i p) (take j rest) (take l name) (drop (l + 1) name))
            ]
      ]
]
  where
    four_parts : (a b c s : Bytes) → empty_parse ≡ of_parts (a ∷ b ∷ c ∷ split slash s)
    four_parts a b c s = elim (Option-cases (index_byte s slash)) [
      | inl h ↦ rw (split_whole slash s h) refl
      | inr (i, h) ↦ rw (split_at slash s i h) refl
    ]
