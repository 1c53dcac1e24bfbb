-- ===== src/Auth/ForwardedIp.antt =====
-- X-Forwarded-For behind trusted proxies.
use rootprint.Common.{
  ℕ, zero, suc, ◌+◌, ◌-◌, ◌≤◌, ◌<◌, Text, ◌≡◌, refl, ap, ◌∙◌, true, false, some, List, [], ◌∷◌,
  ◌++◌, map, map-append, leb, ltb, split, split-append, trim, length, length-append, get_elem?,
  arith, is_empty,
}
use rootprint.Auth.{pick_forwarded_ip, nth_from_end}

get_elem?-append_right :
    (xs ys : List Text) (i : ℕ) → get_elem? (xs ++ ys) (length xs + i) ≡ get_elem? ys i
get_elem?-append_right [] ys i = ap (get_elem? ys) (omega arith)
get_elem?-append_right (x ∷ xs) ys i =
    let e : suc (length xs) + i ≡ suc (length xs + i) = omega arith in
    rw e (get_elem?-append_right xs ys i)

nth_from_end-append :
    (xs ys : List Text) (hops : ℕ)
    → hops ≤ length ys
    → nth_from_end (xs ++ ys) hops ≡ get_elem? ys (length ys - hops)
nth_from_end-append xs ys hops h =
    let long = length-append xs ys in
    let e : length (xs ++ ys) - hops ≡ length xs + (length ys - hops) = omega arith in
    let fits : leb hops (length (xs ++ ys)) ≡ true = ground arith in
    rw (fits, e) (get_elem?-append_right xs ys (length ys - hops))

get_elem?-lt : (xs : List Text) (i : ℕ) → i < length xs → (x : Text) × (get_elem? xs i ≡ some x)
get_elem?-lt [] i h = absurd (omega arith)
get_elem?-lt (x ∷ xs) zero h = (x, refl)
get_elem?-lt (x ∷ xs) (suc i) h = get_elem?-lt xs i (omega arith)

nth_from_end-eq :
    (ys : List Text) (hops : ℕ)
    → 0 < hops
    → hops ≤ length ys
    → (x : Text) × (nth_from_end ys hops ≡ some x) × (get_elem? ys (length ys - hops) ≡ some x)
nth_from_end-eq ys hops p h =
    let (x, e) = get_elem?-lt ys (length ys - hops) (omega arith) in
    let fits : leb hops (length ys) ≡ true = ground arith in (x, rw (fits, e), e)

is_empty-append : (s t : Text) (c : ℕ) → is_empty (s ++ c ∷ t) ≡ false
is_empty-append [] t c = refl
is_empty-append (d ∷ s) t c = refl

length-map : (f : Text → Text) (xs : List Text) → length (map f xs) ≡ length xs
length-map f [] = refl
length-map f (x ∷ xs) = ap suc (length-map f xs)

-- With at least one trusted proxy, each of which appends one address to the header, what a client
-- writes in front of a header that is not empty and has at least as many addresses does not change
-- the address it is taken for.
pub pick_forwarded_ip-append :
    (spoofed xff peer_ip : Text) (hops : ℕ)
    → 0 < hops
    → hops ≤ length (split b',' xff)
    → is_empty xff ≡ false
    → pick_forwarded_ip (some (spoofed ++ b',' ∷ xff)) peer_ip hops
      ≡ pick_forwarded_ip (some xff) peer_ip hops
unfolding pick_forwarded_ip
pick_forwarded_ip-append spoofed xff peer_ip hops p h full =
    let ys : List Text = map trim (split b',' xff) in
    let xs : List Text = map trim (split b',' spoofed) in
    let fits : hops ≤ length ys = omega (arith, length-map trim (split b',' xff)) in
    let parts : map trim (split b',' (spoofed ++ b',' ∷ xff)) ≡ xs ++ ys =
      ap (map trim) (split-append b',' spoofed xff)
      ∙ map-append trim (split b',' spoofed) (split b',' xff) in
    let (x, right, e) = nth_from_end-eq ys hops p fits in
    let left : nth_from_end (map trim (split b',' (spoofed ++ b',' ∷ xff))) hops ≡ some x =
      ap (λ l. nth_from_end l hops) parts ∙ nth_from_end-append xs ys hops fits ∙ e in
    let on : ltb 0 hops ≡ true = ground arith in
    rw (on, full, is_empty-append spoofed xff b',', left, right)
