-- ===== src/Strings/Match.antt =====
-- nsd/str.c: `Ns_Match`, `Ns_StrCaseFind` and `Ns_StrIsHost`.
use anansi.Common.{
  ℕ, ◌<◌, ◌≡◌, ◌≢◌, refl, sym, ap, ◌∙◌, Bool, true, false, not, ◌&&◌, ◌||◌, Option, none, some, [],
  ◌∷◌, ◌++◌, Bytes, arith, ltb, ◌==◌, if◌then◌else◌, Option-cases, inl, inr, to_lower, str_case_eq,
  ==_iff, length-append, length, get_or, take, drop,
}
use anansi.Strings.{
  is_lower, match_loop, ns_match, case_find_loop, str_case_find, str_is_host, is_alnum, two_dots,
}

lowered : (c : ℕ) → (if is_lower c then c else to_lower c) ≡ to_lower c
unfolding to_lower
lowered c = ground arith

if_and :
    (p q : Bool) (m r : Option Bytes)
    → m ≡ (if q then r else none)
    → (if p then m else none) ≡ (if p && q then r else none)
if_and true q m r h = h
if_and false q m r h = refl

-- `ns_match` of two strings compares the length of the shorter one, without case, and returns what
-- is behind that part of the second.
pub ns_match-str_case_eq :
    (a b : Bytes)
    → ns_match (some a) (some b) ≡ (
        if str_case_eq (take (length b) a) (take (length a) b)
        then some (drop (length a) b)
        else none)
unfolding ns_match match_loop str_case_eq
ns_match-str_case_eq [] [] = refl
ns_match-str_case_eq [] (y ∷ ys) = refl
ns_match-str_case_eq (x ∷ xs) [] = refl
ns_match-str_case_eq (x ∷ xs) (y ∷ ys) =
    let h = ns_match-str_case_eq xs ys in
    let e : ((if is_lower x then x else to_lower x) == (if is_lower y then y else to_lower y))
        ≡ (to_lower x == to_lower y) =
      rw (lowered x, lowered y) refl in
    ap (λ p. if p then match_loop xs ys else none) e
    ∙ if_and (to_lower x == to_lower y) (str_case_eq (take (length ys) xs) (take (length xs) ys))
        (match_loop xs ys) (some (drop (length xs) ys)) h

match_one :
    (c d : ℕ) (rest : Bytes)
    → to_lower c ≡ to_lower d
    → ns_match (some (c ∷ [])) (some (d ∷ rest)) ≡ some rest
unfolding ns_match match_loop
match_one c d rest h =
    ap (λ p. if p then some rest else none)
      ((==_iff (if is_lower c then c else to_lower c) (if is_lower d then d else to_lower d)).1
        (lowered c ∙ h ∙ sym (lowered d)))

case_find_loop_last :
    (chars : Bytes) (c d : ℕ) (rest : Bytes)
    → to_lower c ≡ to_lower d
    → case_find_loop (chars ++ c ∷ []) (d ∷ rest) ≢ none
unfolding case_find_loop
case_find_loop_last [] c d rest h = rw (match_one c d rest h, case_find_loop) (λ e. cc)
case_find_loop_last (x ∷ xs) c d rest h =
    elim (Option-cases (ns_match (some (x ∷ (xs ++ c ∷ []))) (some (d ∷ rest)))) [
      | inl q ↦ rw (q, case_find_loop) (case_find_loop_last xs c d rest h)
      | inr (r, q) ↦ rw (q, case_find_loop) (λ e. cc)
    ]

-- `str_case_find` reports a match in every longer string whose last byte is, without case, the first
-- of the string that it looks for, whatever the rest of that is.
pub str_case_find_last :
    (chars : Bytes) (c d : ℕ) (rest : Bytes)
    → to_lower c ≡ to_lower d
    → length rest < length chars
    → str_case_find (chars ++ c ∷ []) (d ∷ rest) ≢ none
unfolding str_case_find
str_case_find_last chars c d rest h l =
    let e : ltb (length (d ∷ rest)) (length (chars ++ c ∷ [])) ≡ true =
      ground (arith, length-append chars (c ∷ [])) in
    rw e (case_find_loop_last chars c d rest h)

-- Two dots, one behind the other.
unfoldable pub has_two_dots : Bytes → Bool
has_two_dots [] = false
has_two_dots (c ∷ cs) = two_dots c cs || has_two_dots cs

unfoldable pub all_host : Bytes → Bool
all_host [] = true
all_host (c ∷ cs) = ((is_alnum c || c == 58) || c == 46) && all_host cs

host_step :
    (a s d u r p q : Bool)
    → (d ≡ true → (a ≡ false) × (s ≡ false))
    → r ≡ (p && not q)
    → (if not a && (not s && (not d || d && u)) then false else r)
      ≡ (((a || s) || d) && p && not (d && u || q))
host_step true s true u r p q x h = absurd (ground arith)
host_step true s false u r p q x h = h
host_step false true true u r p q x h = absurd (ground arith)
host_step false true false u r p q x h = h
host_step false false true true r true q x h = refl
host_step false false true true r false q x h = refl
host_step false false true false r p q x h = h
host_step false false false u r p q x h = refl

-- `str_is_host` accepts the strings of letters, digits, colons and dots in which no two dots stand
-- one behind the other.
pub str_is_host-all_host :
    (chars : Bytes) → str_is_host chars ≡ (all_host chars && not (has_two_dots chars))
unfolding str_is_host all_host has_two_dots
str_is_host-all_host [] = refl
str_is_host-all_host (c ∷ cs) =
    host_step (is_alnum c) (c == 58) (c == 46) (get_or cs 0 0 == 46) (str_is_host cs) (all_host cs)
      (has_two_dots cs) (λ e. ground arith) (str_is_host-all_host cs)
