-- ===== src/Auth.antt =====
-- Who a request comes from: apps/api/src/utils/bearer.ts, apps/api/src/middleware/*.ts. A middleware
-- returns what it hands to the next handler, or the error that it throws.
pub mod ForwardedIp
use rootprint.Common.{
  ℕ, ◌-◌, Text, codes, text_eq, ◌==◌, not, ◌&&◌, ◌||◌, Option, none, some, List, [], ◌∷◌, map, ltb,
  leb, if◌then◌else◌, is_empty, trim, split, to_lower_ascii, length, get_elem?,
}
use mathlib.Core.Option

-- `const [scheme, value] = authHeader.split(' ')`
abbrev pub head_text : List Text → Text
head_text [] = []
head_text (x ∷ xs) = x

abbrev pub second : List Text → Text
second [] = []
second (x ∷ xs) = head_text xs

abbrev non_empty : Text → Option Text
non_empty s = if is_empty s then none else some s

abbrev parse_bearer : List Text → Option Text
parse_bearer parts =
    if not (to_lower_ascii (head_text parts) == codes "bearer") || is_empty (second parts)
    then none
    else non_empty (trim (second parts))

unfoldable pub extract_bearer_token : Option Text → Option Text
unfolding split to_lower_ascii trim
extract_bearer_token none = none
extract_bearer_token (some header) =
    if is_empty header then none else parse_bearer (split b' ' header)

abbrev pub nth_from_end : List Text → ℕ → Option Text
nth_from_end entries hops =
    if leb hops (length entries) then get_elem? entries (length entries - hops) else none

-- Which entry of X-Forwarded-For is the client, counting back from the nearest trusted proxy.
unfoldable pub pick_forwarded_ip : Option Text → Text → ℕ → Text
unfolding split trim
pick_forwarded_ip none peer_ip hops = peer_ip
pick_forwarded_ip (some xff) peer_ip hops =
    if ltb 0 hops && not (is_empty xff)
    then Option.get_or (nth_from_end (map trim (split b',' xff)) hops)
        (head_text (map trim (split b',' xff)))
    else peer_ip
