-- ===== src/Url/Params.antt =====
-- Parameters of a link: lookups in an appended list, and the filters' own.
use rootprint.Common.{
  ◌≡◌, refl, ap, Text, codes, text_eq, nat_eq, ◌==◌, false, Option, none, some, List, [], ◌∷◌, ◌++◌,
  arith, All, map, text_beq,
}
use rootprint.Url.{Filter, Params, param, param_all, encode_filter, decode_filters, filter_params}
use rootprint.Url.Filters.{IsEncodable, decode-encode}

abbrev pub or_param : Option Text → Option Text → Option Text
or_param none r = r
or_param (some v) r = some v

pub or_param-none : (o : Option Text) → or_param o none ≡ o
or_param-none none = refl
or_param-none (some v) = refl

pub param-append :
    (ps qs : Params) (key : Text) → param (ps ++ qs) key ≡ or_param (param ps key) (param qs key)
unfolding param
param-append [] qs key = refl
param-append ((k, v) ∷ ps) qs key = ground (arith, param-append ps qs key)

pub param_all-append :
    (ps qs : Params) (key : Text) → param_all (ps ++ qs) key ≡ param_all ps key ++ param_all qs key
unfolding param_all
param_all-append [] qs key = refl
param_all-append ((k, v) ∷ ps) qs key = ground (arith, param_all-append ps qs key)

pub param-filter_params :
    (fs : List Filter) (key : Text)
    → (codes "f" == key) ≡ false
    → param (filter_params fs) key ≡ none
unfolding param filter_params
param-filter_params [] key h = refl
param-filter_params (f ∷ fs) key h = rw h (param-filter_params fs key h)

pub param_all-filter_params :
    (fs : List Filter) → param_all (filter_params fs) (codes "f") ≡ map encode_filter fs
unfolding param_all filter_params text_beq
param_all-filter_params [] = refl
param_all-filter_params (f ∷ fs) = ap (λ r. encode_filter f ∷ r) (param_all-filter_params fs)

pub decode_filters-map :
    (fs : List Filter) → All IsEncodable fs → decode_filters (map encode_filter fs) ≡ fs
unfolding decode_filters
decode_filters-map [] h = refl
decode_filters-map (f ∷ fs) (p, h) =
    rw (decode-encode f p, decode_filters) (ap (λ r. f ∷ r) (decode_filters-map fs h))
