-- ===== src/Url/Quote.antt =====
-- nsd/quotehtml.c: quoted text has no markup, and can be read back.
use anansi.Common.{
  ℕ, zero, suc, ◌≡◌, refl, sym, ap, subst, ◌∙◌, inl, inr, Bool, true, false, ◌||◌, Option, none,
  some, [], ◌∷◌, ◌++◌, append_assoc, append-nil, arith, ◌==◌, if◌then◌else◌, Bytes, Bool-cases,
  length,
}
use anansi.Range.{strip_prefix}
use anansi.Url.{quote_byte, quote_html}

-- `f` of what follows, if the text has the name of the entity; else `g`.
abbrev after_name : Bytes → ℕ → Bytes → Option (ℕ × Bytes) → Option (ℕ × Bytes)
after_name name c s g = elim (strip_prefix name s) [ none ↦ g | some t ↦ some (c, t) ]

-- The byte of the entity whose '&' stands before the text, and what follows it.
unfoldable pub entity : Bytes → Option (ℕ × Bytes)
entity s = after_name (b'l' ∷ b't' ∷ b';' ∷ []) b'<' s (
    after_name (b'g' ∷ b't' ∷ b';' ∷ []) b'>' s (
      after_name (b'a' ∷ b'm' ∷ b'p' ∷ b';' ∷ []) b'&' s (
        after_name (b'#' ∷ b'3' ∷ b'9' ∷ b';' ∷ []) 39 s
          (after_name (b'#' ∷ b'3' ∷ b'4' ∷ b';' ∷ []) 34 s none))))

-- The text that a browser shows, of at most `n` characters.
unfoldable pub shown : ℕ → Bytes → Bytes
shown zero s = []
shown (suc n) [] = []
shown (suc n) (c ∷ s) =
    let plain = c ∷ shown n s in
    if c == b'&' then elim (entity s) [ none ↦ plain | some (b, t) ↦ b ∷ shown n t ] else plain

-- One of < > ' "
abbrev pub is_markup : ℕ → Bool
is_markup c = c == b'<' || (c == b'>' || (c == 39 || c == 34))

abbrev pub has_markup : Bytes → Bool
has_markup [] = false
has_markup (c ∷ s) = is_markup c || has_markup s

abbrev quoted : Bytes → Bytes
quoted [] = []
quoted (c ∷ s) = quote_byte c ++ quoted s

quote_html-quoted : (ds s : Bytes) → quote_html ds s ≡ ds ++ quoted s
unfolding quote_html
quote_html-quoted ds [] = sym (append-nil ds)
quote_html-quoted ds (c ∷ s) =
    quote_html-quoted (ds ++ quote_byte c) s ∙ append_assoc ds (quote_byte c) (quoted s)

has_markup-append : (s t : Bytes) → has_markup (s ++ t) ≡ (has_markup s || has_markup t)
has_markup-append [] t = refl
has_markup-append (c ∷ s) t = ground (arith, has_markup-append s t)

has_markup-quote_byte : (c : ℕ) → has_markup (quote_byte c) ≡ false
unfolding quote_byte
has_markup-quote_byte c = ground arith

has_markup-quoted : (s : Bytes) → has_markup (quoted s) ≡ false
has_markup-quoted [] = refl
has_markup-quoted (c ∷ s) =
    has_markup-append (quote_byte c) (quoted s)
    ∙ ground (arith, has_markup-quote_byte c, has_markup-quoted s)

shown_lt : (n : ℕ) (t : Bytes) → shown (suc n) (quote_byte b'<' ++ t) ≡ b'<' ∷ shown n t
unfolding quote_byte shown entity strip_prefix
shown_lt n t = refl

shown_gt : (n : ℕ) (t : Bytes) → shown (suc n) (quote_byte b'>' ++ t) ≡ b'>' ∷ shown n t
unfolding quote_byte shown entity strip_prefix
shown_gt n t = refl

shown_amp : (n : ℕ) (t : Bytes) → shown (suc n) (quote_byte b'&' ++ t) ≡ b'&' ∷ shown n t
unfolding quote_byte shown entity strip_prefix
shown_amp n t = refl

shown_apos : (n : ℕ) (t : Bytes) → shown (suc n) (quote_byte 39 ++ t) ≡ 39 ∷ shown n t
unfolding quote_byte shown entity strip_prefix
shown_apos n t = refl

shown_quot : (n : ℕ) (t : Bytes) → shown (suc n) (quote_byte 34 ++ t) ≡ 34 ∷ shown n t
unfolding quote_byte shown entity strip_prefix
shown_quot n t = refl

quote_byte_plain : (c : ℕ) → is_markup c ≡ false → (c == b'&') ≡ false → quote_byte c ≡ c ∷ []
unfolding quote_byte
quote_byte_plain c h k = ground arith

shown_plain : (n c : ℕ) (t : Bytes) → (c == b'&') ≡ false → shown (suc n) (c ∷ t) ≡ c ∷ shown n t
unfolding shown
shown_plain n c t h = ground arith

same : (a b : ℕ) → (a == b) ≡ true → a ≡ b
same a b h = ground arith

shown-quote_byte : (n c : ℕ) (t : Bytes) → shown (suc n) (quote_byte c ++ t) ≡ c ∷ shown n t
shown-quote_byte n c t = elim (Bool-cases (c == b'<')) [
  | inl h ↦
      subst (λ x. shown (suc n) (quote_byte x ++ t) ≡ x ∷ shown n t) (sym (same c b'<' h))
        (shown_lt n t)
  | inr x1 ↦ elim (Bool-cases (c == b'>')) [
    | inl h ↦
        subst (λ x. shown (suc n) (quote_byte x ++ t) ≡ x ∷ shown n t) (sym (same c b'>' h))
          (shown_gt n t)
    | inr x2 ↦ elim (Bool-cases (c == b'&')) [
      | inl h ↦
          subst (λ x. shown (suc n) (quote_byte x ++ t) ≡ x ∷ shown n t) (sym (same c b'&' h))
            (shown_amp n t)
      | inr x3 ↦ elim (Bool-cases (c == 39)) [
        | inl h ↦
            subst (λ x. shown (suc n) (quote_byte x ++ t) ≡ x ∷ shown n t) (sym (same c 39 h))
              (shown_apos n t)
        | inr x4 ↦ elim (Bool-cases (c == 34)) [
          | inl h ↦
              subst (λ x. shown (suc n) (quote_byte x ++ t) ≡ x ∷ shown n t) (sym (same c 34 h))
                (shown_quot n t)
          | inr x5 ↦
              ap (λ q. shown (suc n) (q ++ t)) (quote_byte_plain c (ground arith) x3)
              ∙ shown_plain n c t x3
        ]
      ]
    ]
  ]
]

shown_end : shown 0 [] ≡ []
unfolding shown
shown_end = refl

shown-quoted : (s : Bytes) → shown (length s) (quoted s) ≡ s
shown-quoted [] = shown_end
shown-quoted (c ∷ s) = shown-quote_byte (length s) c (quoted s) ∙ ap (◌∷◌ c) (shown-quoted s)

-- Quoted text has none of the characters < > ' and ", and a reader that takes its entities for the
-- characters that they stand for sees the text that was quoted.
pub quote_html-shown :
    (s : Bytes) → (has_markup (quote_html [] s) ≡ false) × (shown (length s) (quote_html [] s) ≡ s)
quote_html-shown s =
    let e = quote_html-quoted [] s in
    (ap has_markup e ∙ has_markup-quoted s, ap (shown (length s)) e ∙ shown-quoted s)
