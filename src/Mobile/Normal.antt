-- ===== src/Mobile/Normal.antt =====
-- The normal form of a mobile number: what the validator returns, and that it keeps it.
use zaraamad_portal_be.Base.{
  ℕ, zero, suc, Bool, true, false, ◌&&◌, some, [], ◌∷◌, ◌≡◌, refl, sym, ap, ◌∙◌, ◌⊎◌, inl, inr,
  arith, ◌==◌, if◌then◌else◌, All, Bool-cases,
}
use zaraamad_portal_be.Text.{Text, is_empty, is_space, strip, lstrip, rstrip, remove, strip_lem}
use zaraamad_portal_be.Mobile.{at_end, digits, matches, rewritten, normalize}

abbrev ends_in_space : Text → Bool
ends_in_space [] = false
ends_in_space (c ∷ s) = if is_empty s then is_space c else ends_in_space s

ends-rstrip : (s : Text) → ends_in_space (rstrip s) ≡ false
unfolding rstrip
ends-rstrip [] = refl
ends-rstrip (c ∷ s) = ground (arith, ends-rstrip s)

remove-filled :
    (s : Text) → ends_in_space s ≡ false → is_empty s ≡ false → is_empty (remove 32 s) ≡ false
unfolding remove
remove-filled [] h k = k
remove-filled (c ∷ []) h k = ground arith
remove-filled (c ∷ d ∷ s) h k = ground (arith, remove-filled (d ∷ s) h refl)

ends-remove : (s : Text) → ends_in_space s ≡ false → ends_in_space (remove 32 s) ≡ false
unfolding remove
ends-remove [] h = refl
ends-remove (c ∷ []) h = ground arith
ends-remove (c ∷ d ∷ s) h = ground (arith, remove-filled (d ∷ s) h refl, ends-remove (d ∷ s) h)

module _ (is_decimal : ℕ → Bool) where
  -- Exactly `n` digits.
  unfoldable pub all_digits : ℕ → Text → Bool
  all_digits zero [] = true
  all_digits zero (c ∷ s) = false
  all_digits (suc n) [] = false
  all_digits (suc n) (c ∷ s) = is_decimal c && all_digits n s

  -- `09` and nine digits.
  abbrev pub is_mobile : Text → Bool
  is_mobile [] = false
  is_mobile (c ∷ []) = false
  is_mobile (c ∷ d ∷ s) = c == b'0' && (d == b'9' && all_digits 9 s)

  -- `0` and eight digits.
  abbrev pub is_cut : Text → Bool
  is_cut [] = false
  is_cut (c ∷ s) = c == b'0' && all_digits 8 s

  all_digits-digits :
      (n c : ℕ) (s : Text)
      → ends_in_space (c ∷ s) ≡ false
      → digits is_decimal n s ≡ true
      → all_digits n s ≡ true
  unfolding digits at_end all_digits
  all_digits-digits zero c [] h k = refl
  all_digits-digits zero c (d ∷ []) h k = absurd (ground arith)
  all_digits-digits zero c (d ∷ e ∷ s) h k = absurd (ground arith)
  all_digits-digits (suc n) c [] h k = k
  all_digits-digits (suc n) c (d ∷ s) h k = ground (arith, all_digits-digits n d s h)

  all_digits-tail : (n c : ℕ) (s : Text) → all_digits (suc n) (c ∷ s) ≡ true → all_digits n s ≡ true
  unfolding all_digits
  all_digits-tail n c s h = ground arith

  short :
      (n c : ℕ) (s : Text)
      → digits is_decimal n s ≡ true
      → ends_in_space (c ∷ s) ≡ false
      → is_empty s ≡ true
      → n ≡ 0
  unfolding digits
  short zero c s h k e = refl
  short (suc n) c [] h k e = cc
  short (suc n) c (d ∷ s) h k e = cc

  rewritten_lem :
      (s : Text)
      → ends_in_space s ≡ false
      → matches is_decimal s ≡ true
      → (is_mobile (rewritten s) ≡ true) ⊎ (is_cut (rewritten s) ≡ true)
  unfolding matches rewritten
  rewritten_lem [] h k = cc
  rewritten_lem (c ∷ []) h k = ground (arith, short 9 c [])
  rewritten_lem (c ∷ d ∷ []) h k = ground (
    arith,
    short 9 c (d ∷ []),
    short 9 d [],
    all_digits-digits 9 c (d ∷ []) h,
    all_digits-tail 8 d [],
  )
  rewritten_lem (c ∷ d ∷ e ∷ []) h k = ground (
    arith,
    short 9 e [],
    all_digits-digits 9 e [] h,
    all_digits-digits 9 d (e ∷ []) h,
    all_digits-digits 9 c (d ∷ e ∷ []) h,
    all_digits-tail 8 d (e ∷ []),
  )
  rewritten_lem (c ∷ d ∷ e ∷ f ∷ s) h k = ground (
    arith,
    all_digits-digits 9 f s h,
    all_digits-digits 9 e (f ∷ s) h,
    all_digits-digits 9 d (e ∷ f ∷ s) h,
    all_digits-digits 9 c (d ∷ e ∷ f ∷ s) h,
    all_digits-tail 8 d (e ∷ f ∷ s),
  )

  digits-all_digits : (n : ℕ) (s : Text) → all_digits n s ≡ true → digits is_decimal n s ≡ true
  unfolding digits all_digits at_end
  digits-all_digits zero [] h = refl
  digits-all_digits zero (c ∷ s) h = cc
  digits-all_digits (suc n) [] h = h
  digits-all_digits (suc n) (c ∷ s) h = ground (arith, digits-all_digits n s)

  module _ (plain : (c : ℕ) → is_decimal c ≡ true → is_space c ≡ false) where
    HasNoSpace : Text → Type 0
    HasNoSpace s = All (λ c. is_space c ≡ false) s

    all_digits-HasNoSpace : (n : ℕ) (s : Text) → all_digits n s ≡ true → HasNoSpace s
    unfolding all_digits HasNoSpace
    all_digits-HasNoSpace n [] h = tt
    all_digits-HasNoSpace zero (c ∷ s) h = cc
    all_digits-HasNoSpace (suc n) (c ∷ s) h =
        (ground (arith, plain c), all_digits-HasNoSpace n s (ground arith))

    remove_lem : (s : Text) → HasNoSpace s → remove 32 s ≡ s
    unfolding remove HasNoSpace
    remove_lem [] h = refl
    remove_lem (c ∷ s) h = elim (Bool-cases (c == 32)) [
      | inl space ↦ absurd (ground (arith, h.0))
      | inr other ↦ rw (other, remove_lem s h.1) refl
    ]

    normalize-mobile :
        (s : Text)
        → all_digits 9 s ≡ true
        → normalize is_decimal (b'0' ∷ b'9' ∷ s) ≡ some (b'0' ∷ b'9' ∷ s)
    unfolding normalize matches rewritten HasNoSpace
    normalize-mobile s h =
        let clean : HasNoSpace (b'0' ∷ b'9' ∷ s) = (refl, (refl, all_digits-HasNoSpace 9 s h)) in
        rw
          (
            normalize,
            strip_lem (b'0' ∷ b'9' ∷ s) clean,
            remove_lem (b'0' ∷ b'9' ∷ s) clean,
            digits-all_digits 9 s h,
          )
          refl

    normalize-is_mobile : (t : Text) → is_mobile t ≡ true → normalize is_decimal t ≡ some t
    normalize-is_mobile [] h = cc
    normalize-is_mobile (c ∷ []) h = cc
    normalize-is_mobile (c ∷ d ∷ s) h = ground (arith, normalize-mobile s)

    cleaned : (value : Text) → ends_in_space (remove 32 (strip value)) ≡ false
    unfolding strip
    cleaned value = ends-remove (rstrip (lstrip value)) (ends-rstrip (lstrip value))

    -- Where no digit is white space: what the validator returns is `09` with nine digits, and then
    -- it is returned as it is when it is validated again, or it is `0` with eight digits.
    pub normalize-normalize :
        (value t : Text)
        → normalize is_decimal value ≡ some t
        → ((is_mobile t ≡ true) × (normalize is_decimal t ≡ some t)) ⊎ (is_cut t ≡ true)
    unfolding normalize
    normalize-normalize value t h =
        elim (Bool-cases (matches is_decimal (remove 32 (strip value)))) [
          | inr refused ↦ absurd (ground arith)
          | inl matched ↦
              let same : rewritten (remove 32 (strip value)) ≡ t = ground arith in
              elim (rewritten_lem (remove 32 (strip value)) (cleaned value) matched) [
                | inl mobile ↦
                    let m : is_mobile t ≡ true = sym (ap is_mobile same) ∙ mobile in
                    inl (m, normalize-is_mobile t m)
                | inr cut ↦ inr (sym (ap is_cut same) ∙ cut)
              ]
        ]
