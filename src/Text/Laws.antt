-- ===== src/Text/Laws.antt =====
-- The byte-level checks against independent descriptions.
use gaudere_agent.Prelude.{
  ◌≡◌, refl, ◌↔◌, true, [], ◌∷◌, ◌++◌, arith, length, drop, length-append, drop-append,
}
use gaudere_agent.Text.{Text, eqb, starts_with, prefixed_sha256, lowercase_sha256}

pub eqb_refl : (s : Text) → eqb s s ≡ true
unfolding eqb
eqb_refl [] = refl
eqb_refl (a ∷ s) = ground (arith, eqb_refl s)

eqb_sound : (s t : Text) → eqb s t ≡ true → s ≡ t
unfolding eqb
eqb_sound [] [] h = refl
eqb_sound [] (b ∷ t) h = cc
eqb_sound (a ∷ s) [] h = cc
eqb_sound (a ∷ s) (b ∷ t) h = ground (arith, eqb_sound s t)

pub eqb_iff : (s t : Text) → (eqb s t ≡ true) ↔ (s ≡ t)
eqb_iff s t = (eqb_sound s t, λ e. rw e (eqb_refl t))

pub starts_with-append : (p t : Text) → starts_with (p ++ t) p ≡ true
unfolding starts_with
starts_with-append [] t = refl
starts_with-append (a ∷ p) t = ground (arith, starts_with-append p t)

pub starts_with-drop : (s p : Text) → starts_with s p ≡ true → s ≡ p ++ drop (length p) s
unfolding starts_with
starts_with-drop s [] h = refl
starts_with-drop [] (b ∷ p) h = cc
starts_with-drop (a ∷ s) (b ∷ p) h = ground (arith, starts_with-drop s p)

-- A prefixed digest is exactly the prefix followed by a digest.
pub prefixed_sha256-append :
    (p d : Text) → lowercase_sha256 d ≡ true → prefixed_sha256 (p ++ d) p ≡ true
unfolding prefixed_sha256 lowercase_sha256
prefixed_sha256-append p d h =
    rw (starts_with-append p d, drop-append p d) (ground (arith, length-append p d))

pub prefixed_sha256_inv :
    (s p : Text)
    → prefixed_sha256 s p ≡ true
    → (d : Text) × (s ≡ p ++ d) × (lowercase_sha256 d ≡ true)
unfolding prefixed_sha256
prefixed_sha256_inv s p h = (drop (length p) s, starts_with-drop s p (ground arith), ground arith)
