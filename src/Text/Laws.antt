-- ===== src/Text/Laws.antt =====
-- Laws of the text methods that the components' proofs apply.
use cangling_update.Base.{Eq, true, false, [], ◌∷◌, ◌++◌, some, ◌≡◌, refl, ◌↔◌, arith}
use cangling_update.Text.Defs.{Text, text_eq, text_leb, strip_prefix}

pub text_eq_iff : (a b : Text) → (text_eq a b ≡ true) ↔ (a ≡ b)
text_eq_iff (x ∷ a) (y ∷ b) = ground (arith, text_eq_iff a b)
text_eq_iff _ _ = ground arith

pub text_eq_refl : (a : Text) → text_eq a a ≡ true
text_eq_refl a = (text_eq_iff a a).1 refl

pub strip_prefix-some : (p s r : Text) → strip_prefix p s ≡ some r → s ≡ p ++ r
strip_prefix-some [] s r h = ground arith
strip_prefix-some (c ∷ p) [] r h = cc
strip_prefix-some (c ∷ p) (d ∷ s) r h = ground (arith, strip_prefix-some p s r)

-- Texts as keys of maps.
instance abbrev pub text_is_eq : Eq Text
text_is_eq = record { beq = text_eq; beq_iff = text_eq_iff }

-- The order of texts is total and transitive.
pub text_leb_total : (s t : Text) → text_leb s t ≡ false → text_leb t s ≡ true
unfolding text_leb
text_leb_total [] t h = absurd (cc h)
text_leb_total (x ∷ s) [] h = refl
text_leb_total (x ∷ s) (y ∷ t) h = ground (arith, h, text_leb_total s t)

pub text_leb_trans :
    (s t u : Text) → text_leb s t ≡ true → text_leb t u ≡ true → text_leb s u ≡ true
unfolding text_leb
text_leb_trans [] t u h k = refl
text_leb_trans (x ∷ s) [] u h k = absurd (cc h)
text_leb_trans (x ∷ s) (y ∷ t) [] h k = absurd (cc k)
text_leb_trans (x ∷ s) (y ∷ t) (z ∷ u) h k = ground (arith, h, k, text_leb_trans s t u)
