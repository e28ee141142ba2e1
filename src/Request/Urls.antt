-- ===== src/Request/Urls.antt =====
-- nsd/request.c: what SetUrl makes of a URL.
use mathlib.Core.List.{reverse, reverse-cons}
use anansi.Common.{
  ℕ, ◌≡◌, inl, inr, refl, sym, ap, subst, ◌∙◌, false, Option, List, [], ◌∷◌, ◌++◌, append_assoc,
  append-nil, arith, if◌then◌else◌, Bytes, length, drop, Bool-cases,
}
use anansi.UrlEncode.{path, url_decode}
use anansi.Pathname.{is_slash}
use anansi.Pathname.Normal.{dirs_of, path_of, render, AllClean, has_slash, normalize_path-dirs_of}
use anansi.Request.{Request, cut_at, c_string, has_trailing, urlv_loop, set_url}

-- Names with a slash before each.
abbrev joined : List Bytes → Bytes
joined [] = []
joined (d ∷ ds) = b'/' ∷ d ++ joined ds

joined-append : (ds : List Bytes) (d : Bytes) → joined (ds ++ d ∷ []) ≡ joined ds ++ b'/' ∷ d
joined-append [] d = ap (◌∷◌ b'/') (append-nil d)
joined-append (e ∷ ds) d =
    ap (λ s. b'/' ∷ e ++ s) (joined-append ds d)
    ∙ ap (◌∷◌ b'/') (sym (append_assoc e (joined ds) _))

render-joined : (ds : List Bytes) → render ds ≡ joined (reverse ds)
render-joined [] = refl
render-joined (d ∷ ds) =
    ap (λ s. s ++ b'/' ∷ d) (render-joined ds)
    ∙ sym (joined-append (reverse ds) d)
    ∙ ap joined (sym (reverse-cons d ds))

append-AllClean : (ds es : List Bytes) → AllClean ds → AllClean es → AllClean (ds ++ es)
append-AllClean [] es a b = b
append-AllClean (d ∷ ds) es (c, a) b = (c, append-AllClean ds es a b)

reverse-AllClean : (ds : List Bytes) → AllClean ds → AllClean (reverse ds)
reverse-AllClean [] a = tt
reverse-AllClean (d ∷ ds) (c, a) =
    subst AllClean (sym (reverse-cons d ds))
      (append-AllClean (reverse ds) (d ∷ []) (reverse-AllClean ds a) (c, tt))

urlv_loop-cons :
    (c : ℕ) (s : Bytes)
    → is_slash c ≡ false
    → urlv_loop (c ∷ s) ≡ (c ∷ (urlv_loop s).0, (urlv_loop s).1)
unfolding urlv_loop
urlv_loop-cons c [] h = ground arith
urlv_loop-cons c (x ∷ s) h = ground arith

-- Bytes without a slash go to the current element.
urlv_loop-append :
    (d s : Bytes)
    → has_slash d ≡ false
    → urlv_loop (d ++ s) ≡ (d ++ (urlv_loop s).0, (urlv_loop s).1)
urlv_loop-append [] s h = refl
urlv_loop-append (c ∷ d) s h =
    urlv_loop-cons c (d ++ s) (ground arith)
    ∙ ap (λ r. (c ∷ r.0, r.1)) (urlv_loop-append d s (ground arith))

urlv_loop-slash :
    (x : ℕ) (s : Bytes) → urlv_loop (b'/' ∷ x ∷ s) ≡ ([], (x ∷ (urlv_loop s).0) ∷ (urlv_loop s).1)
unfolding urlv_loop
urlv_loop-slash x s = refl

-- The elements of a path of clean names, with nothing or a slash behind it.
urlv_loop-joined :
    (ds : List Bytes) (tail : Bytes)
    → AllClean ds
    → urlv_loop tail ≡ ([], [])
    → urlv_loop (joined ds ++ tail) ≡ ([], ds)
urlv_loop-joined [] tail a h = h
urlv_loop-joined ([] ∷ ds) tail ((e, x, y, z), a) h = absurd cc
urlv_loop-joined ((c ∷ d) ∷ ds) tail ((e, x, y, z), a) h =
    let k : urlv_loop ((d ++ joined ds) ++ tail) ≡ (d, ds) =
      ap urlv_loop (append_assoc d (joined ds) tail)
      ∙ urlv_loop-append d (joined ds ++ tail) (ground arith)
      ∙ ap (λ r. (d ++ r.0, r.1)) (urlv_loop-joined ds tail a h)
      ∙ ap (λ t. (t, ds)) (append-nil d) in
    urlv_loop-slash c ((d ++ joined ds) ++ tail) ∙ ap (λ r. ([], (c ∷ r.0) ∷ r.1)) k

slash_end : urlv_loop (b'/' ∷ []) ≡ ([], [])
unfolding urlv_loop
slash_end = refl

empty_end : urlv_loop [] ≡ ([], [])
unfolding urlv_loop
empty_end = refl

-- The elements of a URL: its directories, or one empty element for the root.
abbrev pub elements : List Bytes → List Bytes
elements [] = [] ∷ []
elements (d ∷ ds) = reverse (d ∷ ds)

abbrev whole : Bytes × List Bytes → List Bytes
whole r = r.0 ∷ r.1

first-elements :
    (e : Bytes) (es : List Bytes) (tail : Bytes)
    → AllClean (e ∷ es)
    → urlv_loop tail ≡ ([], [])
    → whole (urlv_loop (drop 1 (joined (e ∷ es) ++ tail))) ≡ e ∷ es
first-elements e es tail ((x, y, z, n), a) h =
    ap (λ t. whole (urlv_loop t)) (append_assoc e (joined es) tail)
    ∙ ap whole (urlv_loop-append e (joined es ++ tail) n)
    ∙ ap (λ r. (e ++ r.0) ∷ r.1) (urlv_loop-joined es tail a h)
    ∙ ap (λ t. t ∷ es) (append-nil e)

snoc-cases :
    (xs : List Bytes) (d : Bytes) → (e : Bytes) × (es : List Bytes) × (xs ++ d ∷ [] ≡ e ∷ es)
snoc-cases [] d = (d, [], refl)
snoc-cases (x ∷ xs) d = (x, xs ++ d ∷ [], refl)

urlv-elements :
    (ds : List Bytes) (tail : Bytes)
    → AllClean ds
    → urlv_loop tail ≡ ([], [])
    → whole (urlv_loop (drop 1 (path_of ds ++ tail))) ≡ elements ds
urlv-elements [] tail a h = ap whole h
urlv-elements (d ∷ ds) tail a h =
    let (e, es, p) = snoc-cases (reverse ds) d in
    let q : reverse (d ∷ ds) ≡ e ∷ es = reverse-cons d ds ∙ p in
    let c : AllClean (e ∷ es) = subst AllClean q (reverse-AllClean (d ∷ ds) a) in
    ap (λ t. whole (urlv_loop (drop 1 (t ++ tail)))) (render-joined (d ∷ ds) ∙ ap joined q)
    ∙ first-elements e es tail c h
    ∙ sym q

-- The directories that the path of a URL leads to, once it is decoded.
abbrev pub url_dirs : Option (Bytes → Bytes) → Bytes → List Bytes
url_dirs to_utf url = dirs_of (c_string (url_decode [] (cut_at b'?' url).0 to_utf path))

-- SetUrl, whatever the URL is and however it is encoded: the path is decoded before it is normalized, so
-- no element of `urlv` is empty, "." or ".." or has a slash, but for the one empty element of the
-- root. `url` is those elements with a slash before each, and a slash at the end where the URL had
-- one; `urlc` is their number.
pub set_url-elements :
    (to_utf : Option (Bytes → Bytes)) (request : Request) (url : Bytes)
    → AllClean (url_dirs to_utf url)
      × ((set_url to_utf request url).urlv ≡ elements (url_dirs to_utf url))
      × ((set_url to_utf request url).url
          ≡ path_of (url_dirs to_utf url)
            ++ (if has_trailing (cut_at b'?' url).0 then b'/' ∷ [] else []))
      × ((set_url to_utf request url).urlc ≡ length (set_url to_utf request url).urlv)
unfolding set_url
set_url-elements to_utf request url =
    let dirs = url_dirs to_utf url in
    let (n, c) =
      normalize_path-dirs_of (c_string (url_decode [] (cut_at b'?' url).0 to_utf path)) in
    elim (Bool-cases (has_trailing (cut_at b'?' url).0)) [
      | inl t ↦ (
        c,
        rw (set_url, t, n) (urlv-elements dirs (b'/' ∷ []) c slash_end),
        rw (set_url, t, n) refl,
        refl,
      )
      | inr t ↦ (
        c,
        rw (set_url, t, n)
            (ap (λ s. whole (urlv_loop (drop 1 s))) (sym (append-nil (path_of dirs)))
              ∙ urlv-elements dirs [] c empty_end),
        rw (set_url, t, n) (sym (append-nil (path_of dirs))),
        refl,
      )
    ]
