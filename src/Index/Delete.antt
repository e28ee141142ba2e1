-- ===== src/Index/Delete.antt =====
-- nsd/index.c: `Ns_IndexDel`, `Ns_IndexTrunc` and `Ns_IndexDup`.
use anansi.Common.{
  ℕ, zero, suc, ◌+◌, ◌-◌, ◌≡◌, inl, inr, refl, sym, ◌∙◌, Bool, List, [], ◌∷◌, ◌++◌, append-nil,
  append_assoc, arith, ltb, if◌then◌else◌, Bool-cases, length, get_or, take, drop, replicate,
  remove_first, shift_down, length-append, length-replicate, length-take, take-shift_down,
  length-shift_down, remove_at-take, take-drop-suc, take-suc, take-take, take-append_le,
}
use anansi.Index.{NsIndex, trunc, dup, del_from, del}
use anansi.Index.Order.{IsValid, view}

module _ {ℓ} {A : Type ℓ} (nil : A) where
  module _ (same : A → A → Bool) (x : NsIndex A) (v : IsValid x) (e : A) where
    -- What the deletion at `i` leaves.
    deleted : ℕ → List A
    deleted i = if ltb i (x.n - 1) then shift_down nil (x.n - 1 - i) i x.el else x.el

    deleted_lem :
        (k i : ℕ)
        → i + suc k ≡ x.n
        → (take (x.n - 1) (deleted i) ≡ take i x.el ++ take k (drop (suc i) x.el))
          × (length (deleted i) ≡ length x.el)
    unfolding deleted
    deleted_lem k i h = elim (Bool-cases (ltb i (x.n - 1))) [
      | inl b ↦
          let n1 : suc (x.n - 1) ≡ i + suc k = omega arith in
          (
            rw (b, deleted)
                (take-shift_down nil (x.n - 1 - i) i (x.n - 1) x.el (ground (arith))
                    (omega (arith, v.fits, v.allocated))
                  ∙ rw n1 (remove_at-take k i x.el (omega (arith, v.fits, v.allocated)))),
            rw (b, deleted) (length-shift_down nil (x.n - 1 - i) i x.el),
          )
      | inr b ↦
          let z : k ≡ 0 = ground arith in
          let y : x.n - 1 ≡ i = ground arith in
          (rw (b, deleted, z, y) (sym (append-nil (take i x.el))), rw (b, deleted))
    ]

    del_from-view :
        (k i : ℕ)
        → i + k ≡ x.n
        → (view (del_from nil same x e k i)
            ≡ take i x.el ++ remove_first (λ a. same a e) (take k (drop i x.el)))
          × IsValid (del_from nil same x e k i)
    unfolding del_from
    del_from-view zero i h =
        let y : x.n ≡ i = omega arith in (rw y (sym (append-nil (take i x.el))), v)
    del_from-view (suc k) i h =
        let (f, w) = del_from-view k (suc i) (omega arith) in
        let cons = take-drop-suc k i x.el nil (omega (arith, v.fits, v.allocated)) in
        let (d, l) = deleted_lem k i h in
        elim (Bool-cases (same (get_or x.el i nil) e)) [
          | inl b ↦ (
            rw (b, cons, b) (unfold deleted in d),
            rw b (record {
              fits = omega (arith, v.fits);
              allocated = unfold deleted in l ∙ v.allocated;
              grows = v.grows;
            }),
          )
          | inr b ↦ (
            rw (b, cons, b)
                (f
                  ∙ rw (take-suc i x.el nil (omega (arith, v.fits, v.allocated)))
                      (append_assoc (take i x.el) (get_or x.el i nil ∷ []) _)),
            rw b w,
          )
        ]

    -- In a valid index `del` removes the first slot that holds the pointer, and nothing if there is
    -- none.
    pub view-del :
        (view (del nil same x e) ≡ remove_first (λ a. same a e) (view x))
        × IsValid (del nil same x e)
    unfolding del
    view-del = del_from-view x.n 0 (omega arith)

  -- A copy has the elements of the index, and an array of the same size.
  pub view-dup : (x : NsIndex A) → IsValid x → (view (dup nil x) ≡ view x) × IsValid (dup nil x)
  unfolding dup
  view-dup x v =
      let len : length (take x.n x.el) ≡ x.n =
        omega (arith, length-take x.n x.el, v.fits, v.allocated) in
      (
        take-append_le x.n (take x.n x.el) _ (omega arith) ∙ take-take x.n x.n x.el (omega arith),
        record {
          fits = v.fits;
          allocated = omega (
            arith,
            length-append (take x.n x.el) (replicate (x.max - x.n) nil),
            length-replicate (x.max - x.n) nil,
            v.fits,
          );
          grows = v.grows;
        },
      )

  pub view-trunc : (x : NsIndex A) → IsValid x → (view (trunc nil x) ≡ []) × IsValid (trunc nil x)
  unfolding trunc
  view-trunc x v =
      (refl, record { fits = omega arith; allocated = length-replicate x.inc nil; grows = v.grows })
