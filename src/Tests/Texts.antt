-- ===== src/Tests/Texts.antt =====
-- nsd/str.c at small inputs.
use anansi.Common.{◌≡◌, refl, [], ◌∷◌, Bytes}
use anansi.Strings
use anansi.Strings.{
  str_trim, str_trim_right, ns_match, str_case_find, str_is_host, next_word, str_to_lower,
}

-- " a "
abbrev blanks : Bytes
blanks = 32 ∷ 97 ∷ 32 ∷ []

str_trim-blanks : str_trim blanks ≡ 97 ∷ []
unfolding str_trim str_trim_right Strings.str_trim_left Strings.trim_right_from
str_trim-blanks = refl

next_word-blanks : next_word (98 ∷ blanks) ≡ 97 ∷ 32 ∷ []
unfolding next_word Strings.skip_word Strings.str_trim_left
next_word-blanks = refl
