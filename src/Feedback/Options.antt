-- ===== src/Feedback/Options.antt =====
-- The options that a submission keeps: none twice, none empty or long, and each that was given.
use zaraamad_portal_be.Base.{
  ◌≤◌, Bool, true, false, not, ◌&&◌, ◌||◌, some, List, [], ◌∷◌, ◌≡◌, ◌⊎◌, sym, inl, inr, arith,
  length, if◌then◌else◌, All, All-mono, Option-cases, Bool-cases,
}
use mathlib.Core.Path.{subst, refl}
use mathlib.Core.List.{map, Memᴰ}
use zaraamad_portal_be.Text.{Text, text_eq, text_eq_refl, is_empty, strip}
use zaraamad_portal_be.Feedback.{member, normalize_items}

-- No option stands twice.
abbrev pub Distinct : List Text → Type 0
Distinct [] = Unit
Distinct (x ∷ xs) = All (λ t. text_eq t x ≡ false) xs × Distinct xs

-- A new option is filled, of at most 255 characters, and not among those that were seen.
abbrev pub IsNew : List Text → Text → Type 0
IsNew seen t = (is_empty t ≡ false) × (length t ≤ 255) × (member t seen ≡ false)

-- The text is empty, or among the seen options or the kept ones.
abbrev pub is_covered : List Text → List Text → Text → Bool
is_covered seen out raw =
    is_empty (strip raw) || (member (strip raw) seen || member (strip raw) out)

abbrev pub Normalizes : List Text → List Text → List Text → Type 0
Normalizes seen value out =
    All (IsNew seen) out
    × Distinct out
    × All (λ raw. is_covered seen out raw ≡ true) value
    × All (λ t. Memᴰ t (map strip value)) out

with_fresh :
    (seen rest out : List Text) (raw : Text)
    → is_empty (strip raw) ≡ false
    → length (strip raw) ≤ 255
    → member (strip raw) seen ≡ false
    → Normalizes (strip raw ∷ seen) rest out
    → Normalizes seen (raw ∷ rest) (strip raw ∷ out)
with_fresh seen rest out raw filled short unseen (news, distinct, covered, given) = (
  (
    (filled, short, unseen),
    All-mono (IsNew (strip raw ∷ seen)) (IsNew seen) out (λ t h. ground (arith, h)) news,
  ),
  (
    All-mono (IsNew (strip raw ∷ seen)) (λ t. text_eq t (strip raw) ≡ false) out
        (λ t h. ground (arith, h)) news,
    distinct,
  ),
  (
    ground (arith, text_eq_refl (strip raw)),
    All-mono (λ r. is_covered (strip raw ∷ seen) out r ≡ true)
        (λ r. is_covered seen (strip raw ∷ out) r ≡ true) rest (λ r h. ground (arith, h)) covered,
  ),
  (
    Memᴰ.head refl,
    All-mono (λ t. Memᴰ t (map strip rest)) (λ t. Memᴰ t (strip raw ∷ map strip rest)) out
        (λ t m. Memᴰ.tail m) given,
  ),
)

passed_over :
    (seen rest out : List Text) (raw : Text)
    → (is_empty (strip raw) || member (strip raw) seen) ≡ true
    → Normalizes seen rest out
    → Normalizes seen (raw ∷ rest) out
passed_over seen rest out raw over (news, distinct, covered, given) = (
  news,
  distinct,
  (ground arith, covered),
  All-mono (λ t. Memᴰ t (map strip rest)) (λ t. Memᴰ t (strip raw ∷ map strip rest)) out
      (λ t m. Memᴰ.tail m) given,
)

-- What the loop does with one option, where it does not raise.
abbrev fresh : List Text → Text → Bool
fresh seen raw = not (is_empty (strip raw)) && not (member (strip raw) seen)

step :
    (seen rest out : List Text) (raw : Text)
    → normalize_items seen (raw ∷ rest) ≡ some out
    → ((is_empty (strip raw) ≡ true) ⊎ (length (strip raw) ≤ 255))
      × ((items : List Text) × (normalize_items
              (if fresh seen raw then strip raw ∷ seen else seen)
              rest
            ≡ some items)
          × (out ≡ (if fresh seen raw then strip raw ∷ items else items)))
unfolding normalize_items
step seen rest out raw h =
    elim (Option-cases (normalize_items (if fresh seen raw then strip raw ∷ seen else seen) rest)) [
      | inl bad ↦ absurd (ground (arith, h))
      | inr (items, e) ↦ (ground (arith, h), (items, e, ground (arith, h)))
    ]

unwrap : {out : List Text} → some [] ≡ some out → [] ≡ out
unwrap h = ground (arith, h)

-- Where the validator of the options does not raise, the kept ones are filled, of at most 255
-- characters, none of those seen before and none twice, each option of the request that is not
-- white space is, stripped, among them or among those seen before; and each kept one is one of the
-- request, stripped.
pub normalize_items-Normalizes :
    (seen value out : List Text) → normalize_items seen value ≡ some out → Normalizes seen value out
unfolding normalize_items
normalize_items-Normalizes seen [] out h = subst (Normalizes seen []) (unwrap h) (tt, tt, tt, tt)
normalize_items-Normalizes seen (raw ∷ rest) out h =
    let (bound, (items, e, same)) = step seen rest out raw h in
    elim (Bool-cases (is_empty (strip raw) || member (strip raw) seen)) [
      | inl over ↦
          let off : fresh seen raw ≡ false = ground arith in
          subst (Normalizes seen (raw ∷ rest)) (sym (rw off at same)) (
            passed_over seen rest items raw over
              (normalize_items-Normalizes seen rest items (rw off at e)))
      | inr new ↦
          let on : fresh seen raw ≡ true = ground arith in
          subst (Normalizes seen (raw ∷ rest)) (sym (rw on at same)) (
            with_fresh seen rest items raw (ground arith) (ground arith) (ground arith)
              (normalize_items-Normalizes (strip raw ∷ seen) rest items (rw on at e)))
    ]
