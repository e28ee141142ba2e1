-- ===== src/UrlSpace/Words.antt =====
-- nsd/urlspace.c: MkSeq.
use anansi.Common.{
  ℕ, zero, suc, ◌≤◌, ◌<◌, ◌≡◌, inl, inr, refl, ap, false, none, some, List, [], ◌∷◌, ◌==◌, arith,
  if◌then◌else◌, Bytes, length, Bool-cases, Option-cases, some_inj,
}
use anansi.Request.{cut_at}
use anansi.UrlSpace.{mk_words, mk_seq}

-- A word in front of others, if it is not empty.
abbrev push : Bytes → List Bytes → List Bytes
push [] ws = ws
push (c ∷ w) ws = (c ∷ w) ∷ ws

-- The bytes up to the first slash, and the words behind it.
abbrev first_word : Bytes → Bytes × List Bytes
first_word [] = ([], [])
first_word (c ∷ s) =
    let (w, ws) = first_word s in if c == b'/' then ([], push w ws) else (c ∷ w, ws)

-- The parts of a URL between its slashes, without the empty ones.
abbrev pub url_words : Bytes → List Bytes
url_words s = let (w, ws) = first_word s in push w ws

-- A word that is not empty and has no slash.
abbrev pub AllWords : List Bytes → Type 0
AllWords [] = Unit
AllWords (w ∷ ws) = (0 < length w) × (cut_at b'/' w ≡ (w, none)) × AllWords ws

first_word-last : (s : Bytes) → (cut_at b'/' s).1 ≡ none → first_word s ≡ ((cut_at b'/' s).0, [])
unfolding cut_at
first_word-last [] h = refl
first_word-last (c ∷ s) h = ground (arith, first_word-last s)

first_word-inner :
    (s r : Bytes)
    → (cut_at b'/' s).1 ≡ some r
    → (first_word s ≡ ((cut_at b'/' s).0, url_words r)) × (length r < length s)
unfolding cut_at
first_word-inner [] r h = absurd (cc)
first_word-inner (c ∷ s) r h = elim (Bool-cases (c == b'/')) [
  | inl e ↦
      let k : some s ≡ some r = ground (arith, e, h) in let same = some_inj k in ground (arith, e)
  | inr e ↦ ground (arith, first_word-inner s r, e)
]

mk_words-url_words : (fuel : ℕ) (s : Bytes) → length s ≤ fuel → mk_words fuel s ≡ url_words s
unfolding mk_words cut_at
mk_words-url_words zero [] h = refl
mk_words-url_words zero (c ∷ s) h = absurd (omega arith)
mk_words-url_words (suc fuel) [] h = refl
mk_words-url_words (suc fuel) (c ∷ s) h = elim (Option-cases (cut_at b'/' s).1) [
  | inl e ↦ ground (arith, mk_words-url_words fuel s, first_word-last s e)
  | inr (r, e) ↦
      let (same, less) = first_word-inner s r e in
      ground (arith, mk_words-url_words fuel s, mk_words-url_words fuel r)
]

AllWords-push :
    (w : Bytes) (ws : List Bytes) → cut_at b'/' w ≡ (w, none) → AllWords ws → AllWords (push w ws)
AllWords-push [] ws h a = a
AllWords-push (c ∷ w) ws h a = (omega arith, h, a)

no_slash-cons :
    (c : ℕ) (w : Bytes)
    → (c == b'/') ≡ false
    → cut_at b'/' w ≡ (w, none)
    → cut_at b'/' (c ∷ w) ≡ (c ∷ w, none)
unfolding cut_at
no_slash-cons c w e h = ground (arith, e, h)

first_word-AllWords :
    (s : Bytes)
    → (cut_at b'/' (first_word s).0 ≡ ((first_word s).0, none)) × AllWords (first_word s).1
unfolding cut_at
first_word-AllWords [] = (refl, tt)
first_word-AllWords (c ∷ s) =
    let (h, a) = first_word-AllWords s in
    elim (Bool-cases (c == b'/')) [
      | inl e ↦ rw (e) (refl, AllWords-push (first_word s).0 (first_word s).1 h a)
      | inr e ↦ rw e (no_slash-cons c (first_word s).0 e h, a)
    ]

-- The sequence of a URL is the method and the parts of the URL between its slashes that are not
-- empty; none of the parts is empty or has a slash.
pub mk_seq-url_words :
    (method url : Bytes) → (mk_seq method url ≡ method ∷ url_words url) × AllWords (url_words url)
unfolding mk_seq
mk_seq-url_words method url =
    let (h, a) = first_word-AllWords url in
    (
      ap (◌∷◌ method) (mk_words-url_words (length url) url (omega arith)),
      AllWords-push (first_word url).0 (first_word url).1 h a,
    )
