-- ===== src/Query/Escape.antt =====
-- Escaped values as terms of the query language.
use rootprint.Common.{
  ℕ, Text, nat_eq, ◌==◌, ◌≡◌, refl, sym, ap, ◌∙◌, false, Bool-cases, inl, inr, Option, none, some,
  [], ◌∷◌, ◌++◌, if◌then◌else◌, ==-sound,
}
use rootprint.Query.{replace_all, quoted_body, quote, backslash}

abbrev put : ℕ → Option (Text × Text) → Option (Text × Text)
put c none = none
put c (some (s, rest)) = some (c ∷ s, rest)

-- Reads up to the first quote that no backslash stands before, as the query language does.
pub read_quoted : Text → Option (Text × Text)
read_quoted [] = none
read_quoted (c ∷ []) = if c == quote then some ([], []) else none
read_quoted (c ∷ d ∷ s) =
    let escaped = put d (read_quoted s) in
    let plain = put c (read_quoted (d ∷ s)) in
    if c == quote then some ([], d ∷ s) else if c == backslash then escaped else plain

read_quoted-plain :
    (c : ℕ) (s : Text)
    → (c == quote) ≡ false
    → (c == backslash) ≡ false
    → read_quoted (c ∷ s) ≡ put c (read_quoted s)
unfolding read_quoted
read_quoted-plain c [] p q = rw p refl
read_quoted-plain c (d ∷ s) p q = rw (p, q) refl

-- What stands between the quotes is read back as the value, and reading ends at the closing quote: no
-- value can end its term early.
pub read_quoted-quoted_body :
    (value rest : Text) → read_quoted (quoted_body value ++ quote ∷ rest) ≡ some (value, rest)
unfolding read_quoted quoted_body replace_all
read_quoted-quoted_body [] [] = refl
read_quoted-quoted_body [] (c ∷ rest) = refl
read_quoted-quoted_body (c ∷ value) rest = elim (Bool-cases (c == backslash)) [
  | inl e ↦ rw e (
      ap (put backslash) (read_quoted-quoted_body value rest)
      ∙ ap (λ k. some (k ∷ value, rest)) (sym (==-sound c backslash e)))
  | inr e ↦ elim (Bool-cases (c == quote)) [
    | inl q ↦
        rw (e, q)
          (ap (put quote) (read_quoted-quoted_body value rest)
            ∙ ap (λ k. some (k ∷ value, rest)) (sym (==-sound c quote q)))
    | inr q ↦
        rw (e, q) (read_quoted-plain c _ q e ∙ ap (put c) (read_quoted-quoted_body value rest))
  ]
]
