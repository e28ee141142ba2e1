-- ===== src/Request/Lines.antt =====
-- nsd/request.c: what Ns_ParseRequest finds in a request line.
use anansi.Common.{
  ℕ, zero, suc, ◌+◌, ◌-◌, ◌≡◌, inl, inr, refl, sym, ap, subst, ◌∙◌, true, false, Option, none, some,
  [], ◌∷◌, ◌++◌, append_assoc, arith, ◌==◌, leb, Bytes, length, length-append, take, drop, get_or,
  take-append-length, take_of_length-le, Bool-cases, str_eq_refl,
}
use anansi.Strings.{is_space, str_trim, str_trim_left, str_trim_right}
use anansi.Strings.Trim.{str_trim_right-IsTrimmed}
use anansi.Request.{
  no_request, take_word, is_version, last_other, http, cut_version, set_url, parse_request,
}

-- No byte is white space.
abbrev pub NoSpace : Bytes → Type 0
NoSpace [] = Unit
NoSpace (c ∷ s) = (is_space c ≡ false) × NoSpace s

-- Every byte is a digit or a period.
abbrev pub AllVersion : Bytes → Type 0
AllVersion [] = Unit
AllVersion (c ∷ s) = (is_version c ≡ true) × AllVersion s

tail-NoSpace :
    (c : ℕ) (s : Bytes) → NoSpace (c ∷ s) → is_space (get_or (c ∷ s) (length s) 0) ≡ false
tail-NoSpace c [] (h, a) = h
tail-NoSpace c (d ∷ s) (h, a) = tail-NoSpace d s a

last-NoSpace :
    (xs : Bytes) (c : ℕ) (s : Bytes) (i : ℕ)
    → NoSpace (c ∷ s)
    → i ≡ length xs + length s
    → is_space (get_or (xs ++ c ∷ s) i 0) ≡ false
last-NoSpace [] c s i a h =
    let e : i ≡ length s = omega (arith, h) in
    subst (λ j. is_space (get_or (c ∷ s) j 0) ≡ false) (sym e) (tail-NoSpace c s a)
last-NoSpace (x ∷ xs) c s zero a h = absurd (omega (arith, h))
last-NoSpace (x ∷ xs) c s (suc i) a h = last-NoSpace xs c s i a (omega (arith, h))

-- Nothing is cut off at the right of a string that ends with such bytes.
str_trim_right-NoSpace :
    (xs : Bytes) (c : ℕ) (s : Bytes) → NoSpace (c ∷ s) → str_trim_right (xs ++ c ∷ s) ≡ xs ++ c ∷ s
str_trim_right-NoSpace xs c s a =
    let (n, e, t) = str_trim_right-IsTrimmed (xs ++ c ∷ s) in
    let l = length-append xs (c ∷ s) in
    let k = last-NoSpace xs c s (length xs + length s) a refl in
    elim (Bool-cases (leb (length (xs ++ c ∷ s)) n)) [
      | inl h ↦ e ∙ take_of_length-le n (xs ++ c ∷ s) (ground arith)
      | inr h ↦
          let b = t.blank (length xs + length s) (ground (arith, l)) (omega (arith, l)) in
          absurd (ground arith)
    ]

str_trim_left-first : (c : ℕ) (s : Bytes) → is_space c ≡ false → str_trim_left (c ∷ s) ≡ c ∷ s
unfolding str_trim_left
str_trim_left-first c s h = ground arith

take_word-append :
    (m s : Bytes) (c : ℕ) → NoSpace m → is_space c ≡ true → take_word (m ++ c ∷ s) ≡ (m, c ∷ s)
unfolding take_word
take_word-append [] s c a h = ground arith
take_word-append (x ∷ m) s c (k, a) h = ground (arith, take_word-append m s c a h)

last_other-AllVersion : (v : Bytes) → AllVersion v → last_other v ≡ none
unfolding last_other
last_other-AllVersion [] a = refl
last_other-AllVersion (c ∷ v) (h, a) = ground (arith, last_other-AllVersion v a)

last_other-append :
    (xs v : Bytes) (c : ℕ)
    → is_version c ≡ false
    → AllVersion v
    → last_other (xs ++ c ∷ v) ≡ some (length xs)
unfolding last_other
last_other-append [] v c h a = ground (arith, last_other-AllVersion v a)
last_other-append (x ∷ xs) v c h a = ground (arith, last_other-append xs v c h a)

drop-append : (xs ys : Bytes) → drop (length xs) (xs ++ ys) ≡ ys
drop-append [] ys = refl
drop-append (x ∷ xs) ys = drop-append xs ys

cut_version-at :
    (s a b : Bytes) (k : ℕ)
    → last_other s ≡ some k
    → leb 4 k ≡ true
    → take (k - 4) s ≡ a
    → take 5 (drop (k - 4) s) ≡ http
    → drop (k + 1) s ≡ b
    → cut_version s ≡ (a, some b)
unfolding cut_version
cut_version-at s a b k h l p q r = rw (cut_version, h, l, q, str_eq_refl http, p, r) refl

cut_version-append :
    (u v : Bytes) → AllVersion v → cut_version (u ++ (32 ∷ (http ++ v))) ≡ (u ++ 32 ∷ [], some v)
cut_version-append u v a =
    let xs = u ++ (32 ∷ b'H' ∷ b'T' ∷ b'T' ∷ b'P' ∷ []) in
    let s = u ++ (32 ∷ (http ++ v)) in
    let k : length xs ≡ length u + 5 = length-append u (32 ∷ b'H' ∷ b'T' ∷ b'T' ∷ b'P' ∷ []) in
    let one : length (u ++ 32 ∷ []) ≡ length u + 1 = length-append u (32 ∷ []) in
    let front : xs ++ b'/' ∷ v ≡ s =
      append_assoc u (32 ∷ b'H' ∷ b'T' ∷ b'T' ∷ b'P' ∷ []) (b'/' ∷ v) in
    let mid : (u ++ 32 ∷ []) ++ (http ++ v) ≡ s = append_assoc u (32 ∷ []) (http ++ v) in
    let all : length xs + 1 ≡ length (u ++ 32 ∷ http) =
      omega (arith, k, length-append u (32 ∷ http)) in
    let at : length xs - 4 ≡ length (u ++ 32 ∷ []) = omega (arith, k, one) in
    cut_version-at s (u ++ 32 ∷ []) v (length xs)
      (ap last_other (sym front) ∙ last_other-append xs v b'/' refl a) (ground (arith, k))
      (rw at (
        ap (take (length (u ++ 32 ∷ []))) (sym mid)
        ∙ take-append-length (u ++ 32 ∷ []) (http ++ v)))
      (rw at (
        ap (λ t. take 5 (drop (length (u ++ 32 ∷ [])) t)) (sym mid)
        ∙ ap (take 5) (drop-append (u ++ 32 ∷ []) (http ++ v))))
      (rw all (
        ap (drop (length (u ++ 32 ∷ http))) (sym (append_assoc u (32 ∷ http) v))
        ∙ drop-append (u ++ 32 ∷ http) v))

front-NoSpace :
    (c : ℕ) (s : Bytes)
    → NoSpace (c ∷ s)
    → is_space (get_or ((c ∷ s) ++ 32 ∷ []) (length s) 0) ≡ false
front-NoSpace c [] (h, a) = h
front-NoSpace c (d ∷ s) (h, a) = front-NoSpace d s a

get_or-append : (xs : Bytes) (c : ℕ) (ys : Bytes) → get_or (xs ++ c ∷ ys) (length xs) 0 ≡ c
get_or-append [] c ys = refl
get_or-append (x ∷ xs) c ys = get_or-append xs c ys

str_trim_right-blank :
    (c : ℕ) (s : Bytes) → NoSpace (c ∷ s) → str_trim_right ((c ∷ s) ++ 32 ∷ []) ≡ c ∷ s
str_trim_right-blank c s a =
    let (n, e, t) = str_trim_right-IsTrimmed ((c ∷ s) ++ 32 ∷ []) in
    let l : length ((c ∷ s) ++ 32 ∷ []) ≡ length (c ∷ s) + 1 = length-append (c ∷ s) (32 ∷ []) in
    let k : is_space (get_or ((c ∷ s) ++ 32 ∷ []) (length s) 0) ≡ false = front-NoSpace c s a in
    let z : get_or ((c ∷ s) ++ 32 ∷ []) (length (c ∷ s)) 0 ≡ 32 = get_or-append (c ∷ s) 32 [] in
    let p : n ≡ length (c ∷ s) = elim (Bool-cases (leb n (length s))) [
      | inl h ↦
          let b = t.blank (length s) (ground arith) (omega (arith, l)) in absurd (ground arith)
      | inr h ↦ elim (Bool-cases (n == length (c ∷ s) + 1)) [
        | inl q ↦
            let g : n - 1 ≡ length (c ∷ s) = ground arith in
            let b : is_space (get_or ((c ∷ s) ++ 32 ∷ []) (n - 1) 0) ≡ false =
              t.full (ground arith) in
            let w : is_space 32 ≡ false =
              subst (λ y. is_space y ≡ false) (ap (λ j. get_or ((c ∷ s) ++ 32 ∷ []) j 0) g ∙ z) b in
            absurd (ground arith)
        | inr q ↦ let i = t.inside in ground (arith, l)
      ]
    ] in
    e ∙ ap (λ j. take j ((c ∷ s) ++ 32 ∷ [])) p ∙ take-append-length (c ∷ s) (32 ∷ [])

-- The step of Ns_ParseRequest from what it finds in the line.
parse_request-at :
    (to_utf : Option (Bytes → Bytes)) (line l word rest target before url : Bytes)
    (version : Option Bytes)
    → str_trim line ≡ l
    → take_word l ≡ (word, rest)
    → str_trim_left rest ≡ b'/' ∷ target
    → cut_version (b'/' ∷ target) ≡ (before, version)
    → str_trim before ≡ b'/' ∷ url
    → parse_request to_utf line
      ≡ some (
          set_url to_utf
            (record no_request { line = some l; method = some word; version = version })
            (b'/' ∷ url))
unfolding parse_request
parse_request-at to_utf line l word rest target before url version p q r s t = ground arith

str_trim-both :
    (c : ℕ) (s t : Bytes) → str_trim_right s ≡ c ∷ t → is_space c ≡ false → str_trim s ≡ c ∷ t
unfolding str_trim
str_trim-both c s t h k = ap str_trim_left h ∙ str_trim_left-first c t k

AllVersion-NoSpace : (v : Bytes) → AllVersion v → NoSpace v
AllVersion-NoSpace [] a = tt
AllVersion-NoSpace (c ∷ v) (h, a) = (ground arith, AllVersion-NoSpace v a)

str_trim_left-space : (s : Bytes) → str_trim_left (32 ∷ b'/' ∷ s) ≡ b'/' ∷ s
unfolding str_trim_left
str_trim_left-space s = refl

-- A request line of a method, a URL that starts with a slash, and a version, with a blank between them.
abbrev pub request_line : Bytes → Bytes → Bytes → Bytes
request_line method url version = method ++ (32 ∷ (url ++ (32 ∷ (http ++ version))))

-- A line of a method without white space, a URL that starts with a slash and has no white space, and
-- a version of digits and periods, with a blank between them, is parsed into just these parts, and
-- the URL is broken up by SetUrl.
pub parse_request-request_line :
    (to_utf : Option (Bytes → Bytes)) (c : ℕ) (method url version : Bytes)
    → NoSpace (c ∷ method)
    → NoSpace (b'/' ∷ url)
    → AllVersion version
    → parse_request to_utf (request_line (c ∷ method) (b'/' ∷ url) version)
      ≡ some (
          set_url to_utf
            (record no_request {
              line = some (request_line (c ∷ method) (b'/' ∷ url) version);
              method = some (c ∷ method);
              version = some version;
            })
            (b'/' ∷ url))
parse_request-request_line to_utf c method url version m u v =
    let word = c ∷ method in
    let path = b'/' ∷ url in
    let tail = http ++ version in
    let line = request_line word path version in
    let front = word ++ (32 ∷ (path ++ 32 ∷ [])) in
    let split : front ++ tail ≡ line =
      append_assoc word (32 ∷ (path ++ 32 ∷ [])) tail
      ∙ ap (λ s. word ++ (32 ∷ s)) (append_assoc path (32 ∷ []) tail) in
    let right : str_trim_right line ≡ line =
      ap str_trim_right (sym split)
      ∙ str_trim_right-NoSpace front b'H' (b'T' ∷ b'T' ∷ b'P' ∷ b'/' ∷ version)
          (refl, (refl, (refl, (refl, (refl, AllVersion-NoSpace version v)))))
      ∙ split in
    parse_request-at to_utf line line word (32 ∷ (path ++ (32 ∷ tail))) (url ++ (32 ∷ tail))
      (path ++ 32 ∷ []) url (some version) (str_trim-both c line _ right m.0)
      (take_word-append word (path ++ (32 ∷ tail)) 32 m refl)
      (str_trim_left-space (url ++ (32 ∷ tail))) (cut_version-append path version v)
      (str_trim-both b'/' (path ++ 32 ∷ []) url (str_trim_right-blank b'/' url u) refl)
