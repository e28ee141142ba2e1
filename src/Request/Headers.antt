-- ===== src/Request/Headers.antt =====
-- nsd/request.c: what Ns_ParseHeader puts into a set, which is seen as the list of its fields.
use anansi.Common.{
  ℕ, ◌+◌, ◌-◌, ◌≡◌, ◌≢◌, ◌⊎◌, ◌↔◌, inl, inr, refl, sym, ap, ◌∙◌, true, false, none, some, List, [],
  ◌∷◌, ◌++◌, arith, ◌==◌, Bytes, length, length-append, set, get_or, get_or-take, Bool-cases,
  Option-cases,
}
use anansi.Strings.{str_trim_left}
use anansi.Set.{NsSet, Field, field, blank, put, put_value}
use anansi.Set.View.{IsValid, view, view-put, view-put_value, length-view}
use anansi.Request.{cut_at, Disposition, dispose, starts_space, continue_header, parse_header}

-- The header `name: value`, with blanks before the value or none.
abbrev pub header_line : Bytes → Bytes → Bytes
header_line name value = name ++ b':' ∷ value

abbrev pub HasNo : ℕ → Bytes → Type 0
HasNo b [] = Unit
HasNo b (c ∷ s) = ((c == b) ≡ false) × HasNo b s

pub cut_at-append :
    (b : ℕ) (s t : Bytes) → HasNo b s → (b == b) ≡ true → cut_at b (s ++ b ∷ t) ≡ (s, some t)
unfolding cut_at
cut_at-append b [] t h k = ground arith
cut_at-append b (c ∷ s) t (h, a) k = ground (arith, cut_at-append b s t a k)

pub cut_at-none : (b : ℕ) (s : Bytes) → HasNo b s → cut_at b s ≡ (s, none)
unfolding cut_at
cut_at-none b [] h = refl
cut_at-none b (c ∷ s) (h, a) = ground (arith, cut_at-none b s a)

parse_header-at :
    (s : NsSet) (line key rest : Bytes) (disp : Disposition)
    → starts_space line ≡ false
    → cut_at b':' line ≡ (key, some rest)
    → parse_header s line disp
      ≡ some (put s (some (dispose disp key)) (some (str_trim_left rest))).0
unfolding parse_header
parse_header-at s line key rest disp h k = ground arith

-- A header line adds a field: the name in the case that was asked for, and the value without the white
-- space before it. The set stays valid.
pub parse_header-header_line :
    (s : NsSet) (name value : Bytes) (disp : Disposition)
    → IsValid s
    → HasNo b':' name
    → starts_space (header_line name value) ≡ false
    → (s' : NsSet) × (parse_header s (header_line name value) disp ≡ some s')
      × (view s'
          ≡ view s
            ++ record { name = some (dispose disp name); value = some (str_trim_left value) } ∷ [])
      × IsValid s'
parse_header-header_line s name value disp v h f =
    let (e, i, w) = view-put s v (some (dispose disp name)) (some (str_trim_left value)) in
    (
      (put s (some (dispose disp name)) (some (str_trim_left value))).0,
      parse_header-at s (header_line name value) name value disp f
          (cut_at-append b':' name value h refl),
      e,
      w,
    )

get_or_last :
    (fs : List Field) (f d : Field) (xs : List Field) (i : ℕ)
    → xs ≡ fs ++ f ∷ []
    → i ≡ length fs
    → get_or xs i d ≡ f
get_or_last [] f d xs i h k = rw (h, k) refl
get_or_last (g ∷ fs) f d xs i h k =
    rw (h, k) (get_or_last fs f d (fs ++ f ∷ []) (length fs) refl refl)

set-last : (fs : List Field) (f g : Field) → set (fs ++ f ∷ []) (length fs) g ≡ fs ++ g ∷ []
set-last [] f g = refl
set-last (h ∷ fs) f g = ap (◌∷◌ h) (set-last fs f g)

continue_header-at :
    (s : NsSet) (line : Bytes) (c : ℕ) (t v : Bytes) (disp : Disposition)
    → starts_space line ≡ true
    → (s.size == 0) ≡ false
    → str_trim_left line ≡ c ∷ t
    → (field s (s.size - 1)).value ≡ some v
    → parse_header s line disp ≡ some (put_value s (s.size - 1) (v ++ 32 ∷ c ∷ t))
unfolding parse_header continue_header
continue_header-at s line c t v disp h k l m = ground arith

-- A line that starts with white space continues the header before it: its text is appended to the value
-- of the last field, behind a blank, and the other fields stay. The set stays valid.
pub parse_header-continued :
    (s : NsSet) (fs : List Field) (f : Field) (v line : Bytes) (c : ℕ) (t : Bytes)
    (disp : Disposition)
    → IsValid s
    → view s ≡ fs ++ f ∷ []
    → f.value ≡ some v
    → starts_space line ≡ true
    → str_trim_left line ≡ c ∷ t
    → (s' : NsSet) × (parse_header s line disp ≡ some s')
      × (view s' ≡ fs ++ record { name = f.name; value = some (v ++ 32 ∷ c ∷ t) } ∷ [])
      × IsValid s'
parse_header-continued s fs f v line c t disp w e val h l =
    let n : s.size ≡ length fs + 1 =
      sym (length-view s w) ∙ ap length e ∙ length-append fs (f ∷ []) in
    let i = s.size - 1 in
    let at : i ≡ length fs = omega (arith, n) in
    let last : field s i ≡ f =
      sym (get_or-take s.size i s.fields blank (omega (arith, n)))
      ∙ get_or_last fs f blank (view s) i e at in
    let text = v ++ 32 ∷ c ∷ t in
    let (p, q) = view-put_value s w i text in
    (
      put_value s i text,
      continue_header-at s line c t v disp h (ground (arith, n)) l (ap (λ g. g.value) last ∙ val),
      p
          ∙ ap (λ xs. set xs i (record { name = (field s i).name; value = some text })) e
          ∙ ap (λ j. set (fs ++ f ∷ []) j (record { name = (field s i).name; value = some text }))
              at
          ∙ set-last fs f (record { name = (field s i).name; value = some text })
          ∙ ap (λ g. fs ++ record { name = g.name; value = some text } ∷ []) last,
      q,
    )

HasNo-cut_at : (b : ℕ) (s : Bytes) → (cut_at b s).1 ≡ none → HasNo b s
unfolding cut_at
HasNo-cut_at b [] h = tt
HasNo-cut_at b (c ∷ s) h = elim (Bool-cases (c == b)) [
  | inl t ↦ absurd (ground arith)
  | inr t ↦ (t, HasNo-cut_at b s (ground arith))
]

-- The two kinds of lines that Ns_ParseHeader refuses.
abbrev pub IsRefused : NsSet → Bytes → Type 0
IsRefused s line =
    ((starts_space line ≡ true) × (s.size ≡ 0)) ⊎ ((starts_space line ≡ false) × HasNo b':' line)

parse_header-plain :
    (s : NsSet) (line : Bytes) (disp : Disposition)
    → starts_space line ≡ false
    → (cut_at b':' line).1 ≡ none
    → parse_header s line disp ≡ none
unfolding parse_header
parse_header-plain s line disp h k = ground arith

parse_header-blank :
    (s : NsSet) (line : Bytes) (disp : Disposition)
    → starts_space line ≡ true
    → parse_header s line disp ≡ continue_header s line
unfolding parse_header
parse_header-blank s line disp h = ground arith

continue_header-none : (s : NsSet) (line : Bytes) → (s.size ≡ 0) → continue_header s line ≡ none
unfolding continue_header
continue_header-none s line h = ground arith

continue_header-some :
    (s : NsSet) (line t : Bytes)
    → (s.size == 0) ≡ false
    → str_trim_left line ≡ t
    → continue_header s line ≢ none
unfolding continue_header
continue_header-some s line [] h k = λ p. ground arith
continue_header-some s line (c ∷ t) h k = λ p. ground arith

parse_header-colon :
    (s : NsSet) (line r : Bytes) (disp : Disposition)
    → starts_space line ≡ false
    → (cut_at b':' line).1 ≡ some r
    → parse_header s line disp ≢ none
unfolding parse_header
parse_header-colon s line r disp h k = λ p. ground arith

refused :
    (s : NsSet) (line : Bytes) (disp : Disposition)
    → parse_header s line disp ≡ none
    → IsRefused s line
refused s line disp p = elim (Bool-cases (starts_space line)) [
  | inl h ↦ elim (Bool-cases (s.size == 0)) [
    | inl t ↦ inl (h, ground arith)
    | inr t ↦ absurd (
        continue_header-some s line (str_trim_left line) t refl
          (sym (parse_header-blank s line disp h) ∙ p))
  ]
  | inr h ↦ elim (Option-cases (cut_at b':' line).1) [
    | inl k ↦ inr (h, HasNo-cut_at b':' line k)
    | inr (r, k) ↦ absurd (parse_header-colon s line r disp h k p)
  ]
]

refuses :
    (s : NsSet) (line : Bytes) (disp : Disposition)
    → IsRefused s line
    → parse_header s line disp ≡ none
refuses s line disp (inl (h, e)) = parse_header-blank s line disp h ∙ continue_header-none s line e
refuses s line disp (inr (h, n)) =
    parse_header-plain s line disp h (ap (λ r. r.1) (cut_at-none b':' line n))

-- A header line is refused just when it continues a header and the set is empty, or when it starts
-- without white space and has no colon.
pub parse_header-none :
    (s : NsSet) (line : Bytes) (disp : Disposition)
    → (parse_header s line disp ≡ none) ↔ IsRefused s line
parse_header-none s line disp = (refused s line disp, refuses s line disp)
