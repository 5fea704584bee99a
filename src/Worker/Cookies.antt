-- ===== src/Worker/Cookies.antt =====
-- crates/fineco-worker/src/lib.rs: cookies. A response's `Set-Cookie` values are those that are text,
-- as a list of bytes; bytes are ASCII.
pub mod Merging
use mathlib.Core.Option
use fineco_helper.Base.{
  [], ◌∷◌, true, false, ℕ, List, Text, if◌then◌else◌, ◌++◌, Bool, keep, ◌==◌, codes, map, text_eq,
  ◌&&◌,
}
use fineco_helper.Core.Transport.{before_any}
use fineco_helper.Core.Validate.{trim}

-- A byte in front of the first field.
abbrev add_first : ℕ → List Text → List Text
add_first x [] = (x ∷ []) ∷ []
add_first x (f ∷ fs) = (x ∷ f) ∷ fs

-- `split(c)`
abbrev pub split_on : ℕ → Text → List Text
split_on c [] = [] ∷ []
split_on c (x ∷ xs) = let rest = split_on c xs in if x == c then [] ∷ rest else add_first x rest

abbrev pub first_field : ℕ → Text → Text
first_field c s = before_any (λ d. d == c) s

-- `join("; ")`
abbrev pub join_pairs : List Text → Text
join_pairs [] = []
join_pairs (p ∷ []) = p
join_pairs (p ∷ q ∷ ps) = p ++ (codes "; " ++ join_pairs (q ∷ ps))

abbrev non_empty : Text → Bool
non_empty [] = false
non_empty (c ∷ cs) = true

unfoldable pub cookie_header_from : List Text → Text
cookie_header_from set_cookies =
    join_pairs (keep non_empty (map (λ s. trim (first_field b';' s)) set_cookies))

-- `split("; ")`: a field ends before each `; `.
abbrev pub split_pairs : Text → List Text
split_pairs [] = [] ∷ []
split_pairs (x ∷ []) = (x ∷ []) ∷ []
split_pairs (x ∷ y ∷ xs) =
    let after = split_pairs xs in
    let rest = split_pairs (y ∷ xs) in
    if (x == b';') && (y == b' ') then [] ∷ after else add_first x rest

abbrev pub cookie_name : Text → Text
cookie_name pair = first_field b'=' pair

-- A pair replaces the one of its name, or is added at the end.
abbrev pub put_pair : Text → List Text → List Text
put_pair pair [] = pair ∷ []
put_pair pair (p ∷ ps) =
    if text_eq (cookie_name p) (cookie_name pair) then pair ∷ ps else p ∷ put_pair pair ps

abbrev pub put_raw : Text → List Text → List Text
put_raw raw pairs = if non_empty (trim raw) then put_pair (trim raw) pairs else pairs

unfoldable pub put_all : List Text → List Text → List Text
put_all [] pairs = pairs
put_all (raw ∷ raws) pairs = put_all raws (put_raw raw pairs)

unfoldable pub merged_pairs : Text → Text → List Text
merged_pairs first second = put_all (split_pairs first ++ split_pairs second) []

unfoldable pub merge_cookies : Text → Text → Text
merge_cookies first second = join_pairs (merged_pairs first second)
