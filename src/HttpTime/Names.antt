-- ===== src/HttpTime/Names.antt =====
-- nsd/httptime.c: the names of days and months, and MakeMonth.
use anansi.Common.{
  ℕ, zero, suc, ◌≤◌, ◌≡◌, refl, [], ◌∷◌, ◌++◌, arith, Bytes, get_or, str_eq, to_lower,
}
use anansi.HttpTime.{month_names, week_names, month_from, make_month}

-- A name of three letters that are neither commas nor hyphens.
pub record IsName (w : Bytes) : Type 0 where
  pub fst : ℕ
  pub snd : ℕ
  pub trd : ℕ
  pub spelled : w ≡ fst ∷ snd ∷ trd ∷ []
  pub letters : (b'A' ≤ fst) × (b'A' ≤ snd) × (b'A' ≤ trd)

name : (a b c : ℕ) → b'A' ≤ a → b'A' ≤ b → b'A' ≤ c → IsName (a ∷ b ∷ c ∷ [])
name a b c h k l = record { fst = a; snd = b; trd = c; spelled = refl; letters = (h, k, l) }

pub week_names-IsName : (n : ℕ) → n ≤ 6 → IsName (get_or week_names n [])
week_names-IsName zero h = name _ _ _ (omega arith) (omega arith) (omega arith)
week_names-IsName (suc zero) h = name _ _ _ (omega arith) (omega arith) (omega arith)
week_names-IsName (suc (suc zero)) h = name _ _ _ (omega arith) (omega arith) (omega arith)
week_names-IsName (suc (suc (suc zero))) h = name _ _ _ (omega arith) (omega arith) (omega arith)
week_names-IsName (suc (suc (suc (suc zero)))) h =
    name _ _ _ (omega arith) (omega arith) (omega arith)
week_names-IsName (suc (suc (suc (suc (suc zero))))) h =
    name _ _ _ (omega arith) (omega arith) (omega arith)
week_names-IsName (suc (suc (suc (suc (suc (suc zero)))))) h =
    name _ _ _ (omega arith) (omega arith) (omega arith)
week_names-IsName (suc (suc (suc (suc (suc (suc (suc n))))))) h = absurd (omega arith)

pub month_names-IsName : (n : ℕ) → n ≤ 11 → IsName (get_or month_names n [])
month_names-IsName zero h = name _ _ _ (omega arith) (omega arith) (omega arith)
month_names-IsName (suc zero) h = name _ _ _ (omega arith) (omega arith) (omega arith)
month_names-IsName (suc (suc zero)) h = name _ _ _ (omega arith) (omega arith) (omega arith)
month_names-IsName (suc (suc (suc zero))) h = name _ _ _ (omega arith) (omega arith) (omega arith)
month_names-IsName (suc (suc (suc (suc zero)))) h =
    name _ _ _ (omega arith) (omega arith) (omega arith)
month_names-IsName (suc (suc (suc (suc (suc zero))))) h =
    name _ _ _ (omega arith) (omega arith) (omega arith)
month_names-IsName (suc (suc (suc (suc (suc (suc zero)))))) h =
    name _ _ _ (omega arith) (omega arith) (omega arith)
month_names-IsName (suc (suc (suc (suc (suc (suc (suc zero))))))) h =
    name _ _ _ (omega arith) (omega arith) (omega arith)
month_names-IsName (suc (suc (suc (suc (suc (suc (suc (suc zero)))))))) h =
    name _ _ _ (omega arith) (omega arith) (omega arith)
month_names-IsName (suc (suc (suc (suc (suc (suc (suc (suc (suc zero))))))))) h =
    name _ _ _ (omega arith) (omega arith) (omega arith)
month_names-IsName (suc (suc (suc (suc (suc (suc (suc (suc (suc (suc zero)))))))))) h =
    name _ _ _ (omega arith) (omega arith) (omega arith)
month_names-IsName (suc (suc (suc (suc (suc (suc (suc (suc (suc (suc (suc zero))))))))))) h =
    name _ _ _ (omega arith) (omega arith) (omega arith)
month_names-IsName (suc (suc (suc (suc (suc (suc (suc (suc (suc (suc (suc (suc n)))))))))))) h =
    absurd (omega arith)

pub make_month-month_names :
    (n : ℕ) (s : Bytes) → n ≤ 11 → make_month (get_or month_names n [] ++ s) ≡ n
unfolding make_month month_from str_eq to_lower
make_month-month_names zero s h = refl
make_month-month_names (suc zero) s h = refl
make_month-month_names (suc (suc zero)) s h = refl
make_month-month_names (suc (suc (suc zero))) s h = refl
make_month-month_names (suc (suc (suc (suc zero)))) s h = refl
make_month-month_names (suc (suc (suc (suc (suc zero))))) s h = refl
make_month-month_names (suc (suc (suc (suc (suc (suc zero)))))) s h = refl
make_month-month_names (suc (suc (suc (suc (suc (suc (suc zero))))))) s h = refl
make_month-month_names (suc (suc (suc (suc (suc (suc (suc (suc zero)))))))) s h = refl
make_month-month_names (suc (suc (suc (suc (suc (suc (suc (suc (suc zero))))))))) s h = refl
make_month-month_names (suc (suc (suc (suc (suc (suc (suc (suc (suc (suc zero)))))))))) s h = refl
make_month-month_names (suc (suc (suc (suc (suc (suc (suc (suc (suc (suc (suc zero))))))))))) s h =
    refl
make_month-month_names (suc (suc (suc (suc (suc (suc (suc (suc (suc (suc (suc (suc n)))))))))))) s
      h =
    absurd (omega arith)
