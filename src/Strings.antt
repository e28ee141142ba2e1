-- ===== src/Strings.antt =====
-- nsd/str.c: trimming, case, words and searches. A string is the list of its bytes, without the NUL,
-- and a pointer into it is the rest of the list; `isspace` and its kin are those of the C locale.
pub mod Trim
pub mod Match
use anansi.Common.{
  ℕ, zero, suc, ◌+◌, ◌-◌, Bool, true, false, not, ◌&&◌, ◌||◌, Option, none, some, List, [], ◌∷◌,
  Bytes, ltb, leb, ◌==◌, if◌then◌else◌, to_lower, length, get_or, take,
}

abbrev pub is_space : ℕ → Bool
is_space c = c == 32 || (leb 9 c && leb c 13)

abbrev pub is_upper : ℕ → Bool
is_upper c = leb 65 c && leb c 90

abbrev pub is_lower : ℕ → Bool
is_lower c = leb 97 c && leb c 122

abbrev pub is_alnum : ℕ → Bool
is_alnum c = (is_upper c || is_lower c) || (leb 48 c && leb c 57)

-- Ns_StrTrimLeft
unfoldable pub str_trim_left : Bytes → Bytes
str_trim_left [] = []
str_trim_left (c ∷ cs) = let rest = str_trim_left cs in if is_space c then rest else c ∷ cs

-- The loop of Ns_StrTrimRight, with `len` bytes left.
unfoldable pub trim_right_from : ℕ → Bytes → Bytes
trim_right_from zero chars = []
trim_right_from (suc len) chars =
    let rest = trim_right_from len chars in
    if is_space (get_or chars len 0) || get_or chars len 0 == 10 then rest else take (suc len) chars

-- Ns_StrTrimRight
unfoldable pub str_trim_right : Bytes → Bytes
str_trim_right chars = trim_right_from (length chars) chars

-- Ns_StrTrim
unfoldable pub str_trim : Bytes → Bytes
str_trim chars = str_trim_left (str_trim_right chars)

-- Ns_StrToLower
unfoldable pub str_to_lower : Bytes → Bytes
str_to_lower [] = []
str_to_lower (c ∷ cs) = (if is_upper c then to_lower c else c) ∷ str_to_lower cs

-- Ns_StrToUpper
unfoldable pub str_to_upper : Bytes → Bytes
str_to_upper [] = []
str_to_upper (c ∷ cs) = (if is_lower c then c - 32 else c) ∷ str_to_upper cs

-- The loop of Ns_Match: what is left of `b`, or NULL.
unfoldable pub match_loop : Bytes → Bytes → Option Bytes
match_loop [] b = some b
match_loop (x ∷ xs) [] = some []
match_loop (x ∷ xs) (y ∷ ys) =
    let rest = match_loop xs ys in
    if (if is_lower x then x else to_lower x) == (if is_lower y then y else to_lower y)
    then rest
    else none

-- Ns_Match
unfoldable pub ns_match : Option Bytes → Option Bytes → Option Bytes
ns_match (some a) (some b) = match_loop a b
ns_match none b = b
ns_match (some a) none = none

-- The two loops of Ns_NextWord, and the function.
unfoldable pub skip_word : Bytes → Bytes
skip_word [] = []
skip_word (c ∷ cs) = let rest = skip_word cs in if is_space c then c ∷ cs else rest

unfoldable pub next_word : Bytes → Bytes
next_word line = str_trim_left (skip_word line)

-- The loop of Ns_StrCaseFind.
unfoldable pub case_find_loop : Bytes → Bytes → Option Bytes
case_find_loop [] sub_string = none
case_find_loop (c ∷ cs) sub_string =
    let rest = case_find_loop cs sub_string in
    elim (ns_match (some (c ∷ cs)) (some sub_string)) [ none ↦ rest | some b ↦ some (c ∷ cs) ]

-- Ns_StrCaseFind, Ns_StrNStr
unfoldable pub str_case_find : Bytes → Bytes → Option Bytes
str_case_find chars sub_string =
    if ltb (length sub_string) (length chars) then case_find_loop chars sub_string else none

-- `p[0] == '.' && p[1] == '.'`
abbrev pub two_dots : ℕ → Bytes → Bool
two_dots c cs = c == 46 && get_or cs 0 0 == 46

-- Ns_StrIsHost
unfoldable pub str_is_host : Bytes → Bool
str_is_host [] = true
str_is_host (c ∷ cs) =
    let rest = str_is_host cs in
    if not (is_alnum c) && (not (c == 58) && (not (c == 46) || two_dots c cs)) then false else rest
