-- ===== src/Foundation/Text/LineEnds.antt =====
-- `NormalizeCrLf` gives every line end the form CR LF, as mail wants it.
use server_components.Common.{◌≡◌, refl, Bool, true, false, not, [], ◌∷◌, arith, ◌==◌, Bytes, keep}
use server_components.Foundation.Text.{normalize_from, normalize_cr_lf}

-- Every LF follows a CR; the flag says whether the byte before is one.
abbrev pub IsCrLf : Bool → Bytes → Type 0
IsCrLf after_cr [] = Unit
IsCrLf after_cr (c ∷ s) = (c ≡ 10 → after_cr ≡ true) × IsCrLf (c == 13) s

abbrev pub without_cr : Bytes → Bytes
without_cr = keep (λ c. not (c == 13))

normalize_from-IsCrLf : (b : Bool) (s : Bytes) → IsCrLf b (normalize_from b s)
unfolding normalize_from
normalize_from-IsCrLf b [] = tt
normalize_from-IsCrLf b (c ∷ s) = ground (arith, normalize_from-IsCrLf (c == 13) s)

normalize_from-fixed : (b : Bool) (s : Bytes) → IsCrLf b s → normalize_from b s ≡ s
unfolding normalize_from
normalize_from-fixed b [] h = refl
normalize_from-fixed b (c ∷ s) h = ground (arith, normalize_from-fixed (c == 13) s h.1)

without_cr-normalize_from : (b : Bool) (s : Bytes) → without_cr (normalize_from b s) ≡ without_cr s
unfolding normalize_from
without_cr-normalize_from b [] = refl
without_cr-normalize_from b (c ∷ s) = ground (arith, without_cr-normalize_from (c == 13) s)

-- In the result every LF follows a CR, a second run changes nothing, and apart from CRs the text is
-- the one that was given.
pub normalize_cr_lf_lem :
    (s : Bytes)
    → IsCrLf false (normalize_cr_lf s)
      × (normalize_cr_lf (normalize_cr_lf s) ≡ normalize_cr_lf s)
      × (without_cr (normalize_cr_lf s) ≡ without_cr s)
unfolding normalize_cr_lf
normalize_cr_lf_lem s = (
  normalize_from-IsCrLf false s,
  normalize_from-fixed false (normalize_from false s) (normalize_from-IsCrLf false s),
  without_cr-normalize_from false s,
)
