-- ===== src/Common/Texts.antt =====
-- JavaScript's string methods, on lists of UTF-16 code units.
use Prim.Native.Nat.{ℕ, suc, ◌+◌}
use mathlib.Core.Path.{◌≡◌}
use native.Mathlib.Omega.{arith}
use mathlib.Core.Bool.{Bool, true, false, ◌&&◌, ◌||◌}
use mathlib.Core.Option
use mathlib.Core.Option.{Option, none, some}
use mathlib.Core.List.{List, [], ◌∷◌, ◌++◌, reverse}
use rootprint.Common.Tests.{Text, text_eq, nat_eq, ◌==◌, leb, ltb, nat_beq, if◌then◌else◌}

abbrev pub is_empty {ℓ} : {A : Type ℓ} → List A → Bool
is_empty [] = true
is_empty (x ∷ xs) = false

-- `a || b`, where the empty string is falsy.
abbrev pub or_else : Text → Text → Text
or_else [] b = b
or_else (c ∷ s) b = c ∷ s

-- White space and line ends of ECMAScript: what `\s` matches and `trim` strips.
unfoldable pub is_space : ℕ → Bool
is_space c =
    (leb 9 c && leb c 13)
    || nat_beq c 32
    || nat_beq c 0xa0
    || nat_beq c 0x1680
    || (leb 0x2000 c && leb c 0x200a)
    || nat_beq c 0x2028
    || nat_beq c 0x2029
    || nat_beq c 0x202f
    || nat_beq c 0x205f
    || nat_beq c 0x3000
    || nat_beq c 0xfeff

unfoldable pub trim_start : Text → Text
unfolding is_space
trim_start [] = []
trim_start (c ∷ s) = let rest = trim_start s in if is_space c then rest else c ∷ s

unfoldable pub trim : Text → Text
unfolding trim_start
trim s = reverse (trim_start (reverse (trim_start s)))

-- `parts.join(separator)`
unfoldable pub join : Text → List Text → Text
join sep [] = []
join sep (p ∷ []) = p
join sep (p ∷ q ∷ ps) = p ++ (sep ++ join sep (q ∷ ps))

-- `s.startsWith(prefix)`
unfoldable pub starts_with : Text → Text → Bool
starts_with s [] = true
starts_with [] (p ∷ ps) = false
starts_with (c ∷ s) (p ∷ ps) = nat_beq c p && starts_with s ps

-- `s.includes(part)`
unfoldable pub contains : Text → Text → Bool
unfolding starts_with
contains [] part = is_empty part
contains (c ∷ s) part = starts_with (c ∷ s) part || contains s part

-- `s.indexOf(char)`; `none` for -1
unfoldable pub index_of : Text → ℕ → Option ℕ
index_of [] c = none
index_of (d ∷ s) c =
    let rest = index_of s c in if nat_beq d c then some 0 else Option.map (λ n. suc n) rest

split_from : ℕ → Text → Text → List Text
split_from sep cur [] = cur ∷ []
split_from sep cur (c ∷ s) =
    let closed = split_from sep [] s in
    let longer = split_from sep (cur ++ c ∷ []) s in if nat_beq c sep then cur ∷ closed else longer

-- `s.split(char)`
unfoldable pub split : ℕ → Text → List Text
unfolding split_from
split sep s = split_from sep [] s

split_from-append :
    (sep : ℕ) (cur s t : Text)
    → split_from sep cur (s ++ sep ∷ t) ≡ split_from sep cur s ++ split sep t
unfolding split_from split
split_from-append sep cur [] t = ground arith
split_from-append sep cur (c ∷ s) t =
    ground (arith, split_from-append sep [] s t, split_from-append sep (cur ++ c ∷ []) s t)

pub split-append : (sep : ℕ) (s t : Text) → split sep (s ++ sep ∷ t) ≡ split sep s ++ split sep t
unfolding split
split-append sep s t = split_from-append sep [] s t

-- ASCII letters in lower case; others stay.
unfoldable pub to_lower_ascii : Text → Text
to_lower_ascii [] = []
to_lower_ascii (c ∷ s) = (if leb 65 c && leb c 90 then c + 32 else c) ∷ to_lower_ascii s

-- `<` on strings, by code units.
unfoldable pub text_before : Text → Text → Bool
text_before [] [] = false
text_before [] (d ∷ t) = true
text_before (c ∷ s) [] = false
text_before (c ∷ s) (d ∷ t) = let rest = text_before s t in if c == d then rest else ltb c d
