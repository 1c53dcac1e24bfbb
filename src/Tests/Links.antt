-- ===== src/Tests/Links.antt =====
-- A link to the failed requests of one service.
use rootprint.Common.{
  ℕ, zero, suc, ◌-◌, ◌≡◌, refl, ap, ◌↔◌, Text, codes, true, false, some, [], ◌∷◌, length, ltb,
  is_empty, index_of, arith,
}
use rootprint.Url.{
  Filter, Numbers, ParsedQuery, absolute, asc, serialize, deserialize, encode_filter, decode_filter,
}
use rootprint.Url.Filters.{IsEncodable, decode-encode_iff}
use rootprint.Url.RoundTrip.{NumberLaws, deserialize-serialize}

abbrev of_service : Filter
of_service = record { field = codes "service_name"; value = codes "api:v2"; exclude = true }

of_service-IsEncodable : IsEncodable of_service
unfolding index_of
of_service-IsEncodable = record {
  no_colon = refl;
  has_field = refl;
  has_value = refl;
  no_dash = λ e. refl;
}

decode-encode_iff_example :
    (decode_filter (encode_filter of_service) ≡ some of_service) ↔ IsEncodable of_service
decode-encode_iff_example = decode-encode_iff of_service

-- Numbers in unary, which stand for the decimal ones.
abbrev unary : ℕ → Text
unary zero = b'1' ∷ []
unary (suc n) = b'1' ∷ unary n

abbrev numbers : Numbers
numbers = record {
  Num = ℕ;
  show = unary;
  parse = λ s. some (length s - 1);
  of_ℕ = λ n. n;
  is_negative = λ n. false;
  lt = ltb;
  floor = λ n. n;
  ceil = λ n. n;
}

length-unary : (n : ℕ) → length (unary n) ≡ suc n
length-unary zero = refl
length-unary (suc n) = ap suc (length-unary n)

is_empty-unary : (n : ℕ) → is_empty (unary n) ≡ false
is_empty-unary zero = refl
is_empty-unary (suc n) = refl

numbers-NumberLaws : NumberLaws numbers
numbers-NumberLaws = record {
  parse-show = λ n. ap some (omega (arith, length-unary n));
  show-full = is_empty-unary;
  of_ℕ-positive = λ n. refl;
  lt-of_ℕ = λ a b. refl;
  floor-of_ℕ = λ n. refl;
  ceil-of_ℕ = λ n. refl;
}

abbrev failures : ParsedQuery
failures = record {
  index = some (codes "otel-logs");
  query = codes "level:error";
  time_range = absolute 3 8;
  sort_direction = asc;
  filters = of_service ∷ [];
}

deserialize-serialize_example : deserialize numbers (serialize numbers failures) ≡ failures
deserialize-serialize_example =
    deserialize-serialize numbers failures numbers-NumberLaws
      (record { window = omega arith; encodable = (of_service-IsEncodable, tt) })
