-- ===== src/Url/Filters.antt =====
-- Which filters survive the URL: `encodeFilter` and `decodeFilter`.
use rootprint.Common.{
  ℕ, zero, suc, ◌+◌, ◌≡◌, refl, ap, ◌∙◌, Text, text_eq, nat_eq, Bool, true, false, ◌||◌, Option,
  none, some, [], ◌∷◌, ◌++◌, is_empty, index_of, take, drop, length, arith, ◌↔◌, Bool-cases, inl,
  inr, nat_beq, subst,
}
use mathlib.Core.Option.{some-injective}
use native.Mathlib.Numerals.{add-one}
use rootprint.Url.{Filter, encode_filter, decode_filter, decode_unsigned, split_filter}

abbrev starts_with_dash : Text → Bool
starts_with_dash [] = false
starts_with_dash (c ∷ s) = nat_beq c b'-'

-- The filters that a URL can carry.
pub record IsEncodable (f : Filter) : Type 0 where
  pub no_colon : index_of f.field b':' ≡ none
  pub has_field : is_empty f.field ≡ false
  pub has_value : is_empty f.value ≡ false
  pub no_dash : f.exclude ≡ false → starts_with_dash f.field ≡ false

index_of-append :
    (s t : Text) (c : ℕ) → index_of s c ≡ none → index_of (s ++ c ∷ t) c ≡ some (length s)
unfolding index_of
index_of-append [] t c h = ground arith
index_of-append (d ∷ s) t c h = ground (arith, index_of-append s t c)

take-length : (s t : Text) → take (length s) (s ++ t) ≡ s
take-length [] t = refl
take-length (c ∷ s) t = ap (λ r. c ∷ r) (take-length s t)

drop-length : (s t : Text) (c : ℕ) → drop (suc (length s)) (s ++ c ∷ t) ≡ t
drop-length [] t c = refl
drop-length (d ∷ s) t c = drop-length s t c

index_of-take : (s : Text) (c n : ℕ) → index_of s c ≡ some n → index_of (take n s) c ≡ none
unfolding index_of
index_of-take [] c n h = cc
index_of-take (d ∷ s) c zero h = refl
index_of-take (d ∷ s) c (suc n) h = ground (arith, index_of-take s c n)

decode_unsigned-join :
    (exclude : Bool) (field value : Text)
    → index_of field b':' ≡ none
    → is_empty field ≡ false
    → is_empty value ≡ false
    → decode_unsigned exclude (field ++ b':' ∷ value)
      ≡ some (record { field = field; value = value; exclude = exclude })
unfolding decode_unsigned split_filter
decode_unsigned-join exclude [] value no_colon f v = cc
decode_unsigned-join exclude (c ∷ s) value no_colon f v =
    rw (index_of-append (c ∷ s) value b':' no_colon) (
      rw (add-one (suc (length s)))
        (rw (take-length s (b':' ∷ value), drop-length s value b':') (rw v)))

pub decode-encode : (f : Filter) → IsEncodable f → decode_filter (encode_filter f) ≡ some f
unfolding decode_filter encode_filter
decode-encode f h = go f.field f.value f.exclude h.no_colon h.has_field h.has_value h.no_dash
  where
    go :
        (field value : Text) (exclude : Bool)
        → index_of field b':' ≡ none
        → is_empty field ≡ false
        → is_empty value ≡ false
        → (exclude ≡ false → starts_with_dash field ≡ false)
        → decode_filter (encode_filter (record { field = field; value = value; exclude = exclude }))
          ≡ some (record { field = field; value = value; exclude = exclude })
    go field value true c f v d = decode_unsigned-join true field value c f v
    go [] value false c f v d = cc
    go (x ∷ field) value false c f v d =
        rw (d refl) (decode_unsigned-join false (x ∷ field) value c f v)

-- What a decoded filter is known to be.
record IsDecoded (exclude : Bool) (f : Filter) : Type 0 where
  no_colon : index_of f.field b':' ≡ none
  has_field : is_empty f.field ≡ false
  has_value : is_empty f.value ≡ false
  same_sign : f.exclude ≡ exclude

split_filter-IsDecoded :
    (exclude : Bool) (s : Text) (colon : Option ℕ) (f : Filter)
    → index_of s b':' ≡ colon
    → split_filter exclude s colon ≡ some f
    → IsDecoded exclude f
unfolding split_filter
split_filter-IsDecoded exclude s none f e h = cc
split_filter-IsDecoded exclude s (some zero) f e h = cc
split_filter-IsDecoded exclude s (some (suc n)) f e h =
    elim (Bool-cases (is_empty (take (suc n) s) || is_empty (drop (suc n + 1) s))) [
      | inl bad ↦ cc (rw bad at h)
      | inr good ↦ subst (IsDecoded exclude) (some-injective _ f (rw good at h)) (record {
        no_colon = index_of-take s b':' (suc n) e;
        has_field = ground arith;
        has_value = ground arith;
        same_sign = refl;
      })
    ]

decode_unsigned-IsDecoded :
    (exclude : Bool) (s : Text) (f : Filter)
    → decode_unsigned exclude s ≡ some f
    → IsDecoded exclude f
unfolding decode_unsigned
decode_unsigned-IsDecoded exclude s f h = split_filter-IsDecoded exclude s _ f refl h

decode-IsEncodable :
    (field value : Text) (exclude : Bool) (f : Filter)
    → decode_filter (encode_filter (record { field = field; value = value; exclude = exclude }))
      ≡ some f
    → f ≡ record { field = field; value = value; exclude = exclude }
    → IsEncodable f
unfolding decode_filter encode_filter
decode-IsEncodable field value true f h same =
    let d = decode_unsigned-IsDecoded true _ f h in
    record {
      no_colon = d.no_colon;
      has_field = d.has_field;
      has_value = d.has_value;
      no_dash = λ e. cc (e, d.same_sign);
    }
decode-IsEncodable [] value false f h same =
    let d = decode_unsigned-IsDecoded false _ f h in
    cc (d.has_field, ap (λ x. is_empty x.field) same)
decode-IsEncodable (c ∷ field) value false f h same = elim (Bool-cases (nat_beq c b'-')) [
  | inl dash ↦
      let d = decode_unsigned-IsDecoded true _ f (rw dash at h) in
      cc (d.same_sign, ap (λ x. x.exclude) same)
  | inr plain ↦
      let d = decode_unsigned-IsDecoded false _ f (rw plain at h) in
      record {
        no_colon = d.no_colon;
        has_field = d.has_field;
        has_value = d.has_value;
        no_dash = λ e. ap (λ x. starts_with_dash x.field) same ∙ plain;
      }
]

-- A filter comes back from the URL exactly if its field is not empty and has no colon, its value is
-- not empty, and the field of an including filter does not begin with a dash.
pub decode-encode_iff : (f : Filter) → (decode_filter (encode_filter f) ≡ some f) ↔ IsEncodable f
decode-encode_iff f = (λ h. decode-IsEncodable f.field f.value f.exclude f h refl, decode-encode f)
